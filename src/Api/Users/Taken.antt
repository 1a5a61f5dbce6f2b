-- ===== src/Api/Users/Taken.antt =====
-- What the checks of an id and of a PIN say about the other users.
use mathlib.Core.Option
use mathlib.Core.Path.{subst}
use sipbridge.Prelude.{
  ℕ, zero, suc, ◌≡◌, refl, ap, ◌∙◌, ◌≢◌, inl, inr, Bool, true, false, Option, none, some, List, [],
  ◌∷◌, arith, get_elem?, if◌then◌else◌, Bool-cases, ℤ, ◌+◌,
}
use sipbridge.Api.Users.Unique.{Free}
use sipbridge.Api.Users.{is_at, participant_id_taken, taken_from, user_index_by_id}
use sipbridge.Config.{User}
use sipbridge.Text.Laws.{text_eq_iff}
use sipbridge.Text.{Text, is_empty, text_eq, trim_space}

-- The PIN of a user, as it is compared.
abbrev pub pin_of : User → Text
pin_of u = trim_space u.participant_id

not_first : (b rest : Bool) → (if b then true else rest) ≡ false → b ≡ false
not_first true rest h = cc
not_first false rest h = refl

later :
    (here b rest : Bool) → (if here then rest else if b then true else rest) ≡ false → rest ≡ false
later true b rest h = h
later false true rest h = cc
later false false rest h = h

not_here : (b : Bool) (o : Option ℕ) → (if b then some 0 else Option.map suc o) ≡ none → o ≡ none
not_here true o h = cc
not_here false none h = refl
not_here false (some i) h = cc

taken_from-false :
    (i : ℕ) (us : List User) (p : Text) (except : ℤ) (j : ℕ) (v : User)
    → taken_from i us p except ≡ false
    → get_elem? us j ≡ some v
    → is_at (i + j) except ≡ false
    → text_eq (pin_of v) p ≡ false
unfolding taken_from
taken_from-false i [] p except j v h found other = cc
taken_from-false i (u ∷ us) p except zero v h found other =
    let here : is_at i except ≡ false =
      subst (λ (k : ℕ). is_at k except ≡ false) (omega arith) other in
    let it : u ≡ v = cc in
    subst (λ (x : User). text_eq (pin_of x) p ≡ false) it
      (not_first (text_eq (pin_of u) p) (taken_from (i + 1) us p except) (rw here at h))
taken_from-false i (u ∷ us) p except (suc j) v h found other =
    taken_from-false (i + 1) us p except j v
      (later (is_at i except) (text_eq (pin_of u) p) (taken_from (i + 1) us p except) h) found
      (subst (λ (k : ℕ). is_at k except ≡ false) (omega arith) other)

-- A PIN that is not taken, with the user at `idx` left out, is free for the user at `idx`.
pub participant_id_taken-Free :
    (us : List User) (idx : ℕ) (except : ℤ) (u : User)
    → participant_id_taken us u.participant_id except ≡ false
    → ((j : ℕ) → j ≢ idx → is_at j except ≡ false)
    → Free pin_of us idx u
unfolding participant_id_taken Free
participant_id_taken-Free us idx except u h apart j v found ne same =
    elim (Bool-cases (is_empty (pin_of u))) [
      | inl blank ↦ blank
      | inr filled ↦
          let other : text_eq (pin_of v) (pin_of u) ≡ false =
            taken_from-false 0 us (pin_of u) except j v (rw filled at h) found
              (subst (λ (k : ℕ). is_at k except ≡ false) (omega arith) (apart j ne)) in
          let equal : text_eq (pin_of v) (pin_of u) ≡ true =
            (text_eq_iff (pin_of v) (pin_of u)).1 same in
          cc
    ]

user_index_by_id-none :
    (us : List User) (id : Text) (j : ℕ) (v : User)
    → user_index_by_id us id ≡ none
    → get_elem? us j ≡ some v
    → v.id ≢ id
unfolding user_index_by_id
user_index_by_id-none [] id j v h found same = cc
user_index_by_id-none (u ∷ us) id zero v h found same =
    let it : u ≡ v = cc in
    let equal : text_eq u.id id ≡ true =
      (text_eq_iff u.id id).1 (ap (λ (x : User). x.id) it ∙ same) in
    let bad : ◌≡◌ {A = Option ℕ} (some 0) none = rw equal at h in cc
user_index_by_id-none (u ∷ us) id (suc j) v h found same =
    user_index_by_id-none us id j v (not_here (text_eq u.id id) (user_index_by_id us id) h) found
      same

-- An id that is not found is free.
pub user_index_by_id-Free :
    (us : List User) (id : Text) (idx : ℕ) (u : User)
    → user_index_by_id us id ≡ none
    → u.id ≡ id
    → Free (λ x. x.id) us idx u
unfolding Free
user_index_by_id-Free us id idx u h it j v found ne same =
    absurd (user_index_by_id-none us id j v h found (same ∙ it))
