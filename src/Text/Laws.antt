-- ===== src/Text/Laws.antt =====
-- Laws of the string functions.
use sipbridge.Prelude.{ℕ, ◌≡◌, refl, ◌↔◌, Bool, true, [], ◌∷◌, arith}
use sipbridge.Text.{Text, text_eq, is_space, trim_left, trim_right, trim_space, trim}

pub text_eq_iff : (a b : Text) → (text_eq a b ≡ true) ↔ (a ≡ b)
unfolding text_eq
text_eq_iff (x ∷ a) (y ∷ b) = ground (arith, text_eq_iff a b)
text_eq_iff _ _ = ground arith

pub text_eq_refl : (a : Text) → text_eq a a ≡ true
text_eq_refl a = (text_eq_iff a a).1 refl

-- A text with no trimmed byte at either end is left alone.
pub trim_right-trim_right :
    (p : ℕ → Bool) (s : Text) → trim_right p (trim_right p s) ≡ trim_right p s
unfolding trim_right
trim_right-trim_right p [] = refl
trim_right-trim_right p (c ∷ cs) = ground (arith, trim_right-trim_right p cs)

trim_left-trim_right :
    (p : ℕ → Bool) (s : Text) → trim_left p (trim_right p s) ≡ trim_right p (trim_left p s)
unfolding trim_left trim_right
trim_left-trim_right p [] = refl
trim_left-trim_right p (c ∷ cs) = ground (arith, trim_left-trim_right p cs)

trim_left-trim_left : (p : ℕ → Bool) (s : Text) → trim_left p (trim_left p s) ≡ trim_left p s
unfolding trim_left
trim_left-trim_left p [] = refl
trim_left-trim_left p (c ∷ cs) = ground (arith, trim_left-trim_left p cs)

pub trim_space-trim_space : (s : Text) → trim_space (trim_space s) ≡ trim_space s
trim_space-trim_space s =
    unfold trim_space trim in
    rw (trim_left-trim_right is_space (trim_left is_space s))
      (rw (trim_left-trim_left is_space s) (trim_right-trim_right is_space (trim_left is_space s)))
