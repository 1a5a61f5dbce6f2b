-- ===== src/Config/Entries.antt =====
-- The loop over entries with an id that the validators of internal/config share: an id must not be
-- blank and must not come twice; `rest` is what else is checked of an entry.
use sipbridge.Prelude.{
  true, false, ◌≡◌, refl, Option, none, some, List, [], ◌∷◌, map, All, Bool-cases, inl, inr,
  or_else, or_else-none, guard-none, if◌then◌else◌, ◌∙◌, sym,
}
use mathlib.Core.Path.{subst}
use sipbridge.Text.Laws.{text_eq_iff, text_eq_refl}
use sipbridge.Text.Sets.{distinct, member}
use sipbridge.Text.{Text, is_empty, text_eq, trim_space}

abbrev pub ids_of {ℓ} : {A : Type ℓ} → (A → Text) → List A → List Text
ids_of id = map (λ x. trim_space (id x))

module _ {ℓ κ} {A : Type ℓ} {E : Type κ} where
  unfoldable pub check_entries : (A → Text) → E → E → (A → Option E) → List Text → List A → Option E
  unfolding trim_space member
  check_entries id blank twice rest seen [] = none
  check_entries id blank twice rest seen (x ∷ xs) =
      let more = check_entries id blank twice rest (trim_space (id x) ∷ seen) xs in
      if is_empty (trim_space (id x))
      then some blank
      else if member (trim_space (id x)) seen
      then some twice
      else or_else (rest x) more

  module _ (id : A → Text) (blank twice : E) (rest : A → Option E) where
    -- An entry that passes.
    abbrev pub Fits : A → Type κ
    Fits x = (is_empty (trim_space (id x)) ≡ false) × (rest x ≡ none)

    -- What the loop has checked when it goes on past an entry.
    passes :
        (seen : List Text) (x : A) (xs : List A)
        → check_entries id blank twice rest seen (x ∷ xs) ≡ none
        → Fits x
          × (member (trim_space (id x)) seen ≡ false)
          × (check_entries id blank twice rest (trim_space (id x) ∷ seen) xs ≡ none)
    unfolding check_entries
    passes seen x xs h =
        let filled = guard-none _ _ _ h in
        let fresh = guard-none _ _ _ filled.1 in
        let checked = or_else-none (rest x) _ fresh.1 in ((filled.0, checked.0), fresh.0, checked.1)

    pub check_entries-Fits :
        (seen : List Text) (xs : List A)
        → check_entries id blank twice rest seen xs ≡ none
        → All Fits xs
    check_entries-Fits seen [] h = tt
    check_entries-Fits seen (x ∷ xs) h =
        let now = passes seen x xs h in
        (now.0, check_entries-Fits (trim_space (id x) ∷ seen) xs now.2)

    pub check_entries-distinct :
        (seen : List Text) (xs : List A)
        → check_entries id blank twice rest seen xs ≡ none
        → (distinct (ids_of id xs) ≡ true)
          × ((k : Text) → member k seen ≡ true → member k (ids_of id xs) ≡ false)
    unfolding distinct member
    check_entries-distinct seen [] h = (refl, λ k there. refl)
    check_entries-distinct seen (x ∷ xs) h =
        let now = passes seen x xs h in
        let later = check_entries-distinct (trim_space (id x) ∷ seen) xs now.2 in
        (
          rw (later.1 (trim_space (id x)) (rw (text_eq_refl (trim_space (id x))) refl)) later.0,
          λ k there. elim (Bool-cases (text_eq (trim_space (id x)) k)) [
            | inl e ↦
                (let same : trim_space (id x) ≡ k = (text_eq_iff (trim_space (id x)) k).0 e in
                  let twice_seen : true ≡ false =
                    sym there ∙ subst (λ (t : Text). member t seen ≡ false) same now.1 in
                  cc)
            | inr e ↦ rw e (later.1 k (rw e there))
          ],
        )
