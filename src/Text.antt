-- ===== src/Text.antt =====
-- Go strings as lists of bytes, with the functions of package `strings` that the program calls.
-- Texts are ASCII here: a byte of 128 or more is no space and has no lower case, so the functions
-- agree with Go's wherever no character outside ASCII is trimmed or folded.
pub mod Laws
pub mod Sets
pub mod Split
pub mod Number
use Prim.Native.Char.{code}
use mathlib.Core.Option
use Prim.Native.String.{String}
use sipbridge.Prelude.{
  ℕ, zero, suc, ◌+◌, Bool, true, false, ◌&&◌, ◌||◌, Option, none, some, List, [], ◌∷◌, ◌++◌, map,
  ◌==◌, leb, if◌then◌else◌,
}

abbrev pub Text : Type 0
Text = List ℕ

-- The bytes of an ASCII literal.
abbrev pub codes : String → Text
codes String.[] = []
codes (String.◌∷◌ c s) = code c ∷ codes s

-- `a == b` on strings.
unfoldable pub text_eq : Text → Text → Bool
text_eq [] [] = true
text_eq [] (y ∷ b) = false
text_eq (x ∷ a) [] = false
text_eq (x ∷ a) (y ∷ b) = x == y && text_eq a b

abbrev pub is_space : ℕ → Bool
is_space c = c == 32 || (leb 9 c && leb c 13)

unfoldable pub trim_left : (ℕ → Bool) → Text → Text
trim_left p [] = []
trim_left p (c ∷ cs) = let rest = trim_left p cs in if p c then rest else c ∷ cs

-- What is left of `c` in front of a trimmed rest.
abbrev pub keep_right : (ℕ → Bool) → ℕ → Text → Text
keep_right p c [] = if p c then [] else c ∷ []
keep_right p c (x ∷ xs) = c ∷ x ∷ xs

unfoldable pub trim_right : (ℕ → Bool) → Text → Text
trim_right p [] = []
trim_right p (c ∷ cs) = keep_right p c (trim_right p cs)

-- `strings.TrimFunc`
unfoldable pub trim : (ℕ → Bool) → Text → Text
unfolding trim_left trim_right
trim p s = trim_right p (trim_left p s)

-- `strings.TrimSpace`
unfoldable pub trim_space : Text → Text
unfolding trim
trim_space s = trim is_space s

abbrev pub lower : ℕ → ℕ
lower c = if leb b'A' c && leb c b'Z' then c + 32 else c

-- `strings.ToLower`
unfoldable pub to_lower : Text → Text
to_lower s = map lower s

-- `strings.EqualFold`
unfoldable pub equal_fold : Text → Text → Bool
unfolding to_lower text_eq
equal_fold a b = text_eq (to_lower a) (to_lower b)

-- `strings.HasPrefix(s, p)` is `has_prefix p s`.
unfoldable pub has_prefix : Text → Text → Bool
has_prefix [] s = true
has_prefix (x ∷ p) [] = false
has_prefix (x ∷ p) (y ∷ s) = x == y && has_prefix p s

-- `s[:i]` for `i = strings.IndexFunc(s, p)`, all of `s` where no byte passes.
unfoldable pub before : (ℕ → Bool) → Text → Text
before p [] = []
before p (c ∷ cs) = let rest = before p cs in if p c then [] else c ∷ rest

-- `strings.Index`
unfoldable pub index : Text → Text → Option ℕ
unfolding has_prefix
index sub [] = if has_prefix sub [] then some 0 else none
index sub (c ∷ cs) =
    let rest = Option.map suc (index sub cs) in if has_prefix sub (c ∷ cs) then some 0 else rest

-- `strings.Cut` at one byte.
unfoldable pub cut : ℕ → Text → Option (Text × Text)
cut b [] = none
cut b (c ∷ cs) =
    let rest = Option.map (λ (p : Text × Text). (c ∷ p.0, p.1)) (cut b cs) in
    if c == b then some ([], cs) else rest

abbrev flush : Text → List Text → List Text
flush [] rest = rest
flush (c ∷ cs) rest = (c ∷ cs) ∷ rest

-- `strings.Fields`; the first argument is the field being read.
unfoldable pub fields_from : Text → Text → List Text
fields_from field [] = flush field []
fields_from field (c ∷ cs) =
    let rest = fields_from (if is_space c then [] else field ++ c ∷ []) cs in
    if is_space c then flush field rest else rest

unfoldable pub fields : Text → List Text
unfolding fields_from
fields s = fields_from [] s

abbrev pub is_empty : Text → Bool
is_empty [] = true
is_empty (c ∷ cs) = false
