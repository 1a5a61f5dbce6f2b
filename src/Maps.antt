-- ===== src/Maps.antt =====
-- Go's `map[string]V` as an association list keyed by texts, with at most one entry for a key.
-- A function that ranges over a map meets the entries in the order of the list, which is any order.
pub mod Laws
use sipbridge.Prelude.{ℕ, ◌+◌, Bool, true, List, [], ◌∷◌, Option, none, some, if◌then◌else◌}
use sipbridge.Text.{Text, text_eq}

abbrev pub Map {ℓ} : Type ℓ → Type ℓ
Map V = List (Text × V)

module _ {ℓ} {V : Type ℓ} where
  -- `v, ok := m[k]`
  unfoldable pub lookup : Text → Map V → Option V
  lookup k [] = none
  lookup k ((j, v) ∷ m) = let rest = lookup k m in if text_eq j k then some v else rest

  -- `m[k] = v`
  unfoldable pub insert : Text → V → Map V → Map V
  insert k v [] = (k, v) ∷ []
  insert k v ((j, w) ∷ m) =
      let rest = insert k v m in if text_eq j k then (j, v) ∷ m else (j, w) ∷ rest

  -- `delete(m, k)`
  unfoldable pub delete : Text → Map V → Map V
  delete k [] = []
  delete k ((j, w) ∷ m) = let rest = delete k m in if text_eq j k then rest else (j, w) ∷ rest

  -- `_, ok := m[k]`
  abbrev pub is_some : Option V → Bool
  is_some none = Bool.false
  is_some (some v) = true
