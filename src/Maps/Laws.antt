-- ===== src/Maps/Laws.antt =====
-- Lookups after writes, and the number of entries.
use sipbridge.Prelude.{
  ◌+◌, ◌≤◌, ◌<◌, ◌≡◌, refl, [], ◌∷◌, none, some, arith, if◌then◌else◌, length, suc, ap, Bool-cases,
  inl, inr,
}
use sipbridge.Text.{Text, text_eq}
use sipbridge.Text.Laws.{text_eq_iff}
use sipbridge.Maps.{Map, lookup, insert, delete}

module _ {ℓ} {V : Type ℓ} where
  pub lookup-insert :
      (j k : Text) (v : V) (m : Map V)
      → lookup j (insert k v m) ≡ (if text_eq k j then some v else lookup j m)
  unfolding lookup insert
  lookup-insert j k v [] = refl
  lookup-insert j k v ((i, w) ∷ m) =
      ground (arith, text_eq_iff k j, text_eq_iff i k, text_eq_iff i j, lookup-insert j k v m)

  pub lookup-delete :
      (j k : Text) (m : Map V) → lookup j (delete k m) ≡ (if text_eq k j then none else lookup j m)
  unfolding lookup delete
  lookup-delete j k [] = ground arith
  lookup-delete j k ((i, w) ∷ m) =
      ground (arith, text_eq_iff k j, text_eq_iff i k, text_eq_iff i j, lookup-delete j k m)

  pub length-insert : (k : Text) (v : V) (m : Map V) → length (insert k v m) ≤ length m + 1
  unfolding insert
  length-insert k v [] = omega arith
  length-insert k v ((i, w) ∷ m) = ground (arith, length-insert k v m)

  pub length-delete : (k : Text) (m : Map V) → length (delete k m) ≤ length m
  unfolding delete
  length-delete k [] = omega arith
  length-delete k ((i, w) ∷ m) = ground (arith, length-delete k m)

  pub length-insert_pos : (k : Text) (v : V) (m : Map V) → 0 < length (insert k v m)
  unfolding insert
  length-insert_pos k v [] = omega arith
  length-insert_pos k v ((i, w) ∷ m) = ground arith

  -- A write at a key that is there adds no entry.
  pub length-insert_there :
      (k : Text) (v w : V) (m : Map V) → lookup k m ≡ some w → length (insert k v m) ≡ length m
  unfolding insert lookup
  length-insert_there k v w [] h = cc
  length-insert_there k v w ((i, u) ∷ m) h = elim (Bool-cases (text_eq i k)) [
    | inl e ↦ rw e refl
    | inr e ↦
        let there : lookup k m ≡ some w = rw e at h in
        rw e (ap suc (length-insert_there k v w m there))
  ]
