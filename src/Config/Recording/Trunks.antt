-- ===== src/Config/Recording/Trunks.antt =====
-- `byID` of the choice of a recorder: what is stored, and what is found, under an id.
use sipbridge.Prelude.{
  true, false, ◌≡◌, refl, some, List, [], ◌∷◌, ◌⊎◌, All, inl, inr, Bool-cases, if◌then◌else◌,
}
use mathlib.Core.Path.{subst}
use sipbridge.Config.Recording.{RecordingTrunkEntry, by_id, trunk_ids}
use sipbridge.Maps.{Map, insert, lookup}
use sipbridge.Maps.Laws.{lookup-insert}
use sipbridge.Text.Laws.{text_eq_iff, text_eq_refl}
use sipbridge.Text.Sets.{member}
use sipbridge.Text.{Text, is_empty, text_eq, trim_space}

stored :
    (P : RecordingTrunkEntry → Type 0) (k : Text) (m : Map RecordingTrunkEntry)
    (x : RecordingTrunkEntry)
    → P x
    → ((t : RecordingTrunkEntry) → lookup k m ≡ some t → P t × (trim_space t.id ≡ k))
    → (t : RecordingTrunkEntry)
    → lookup k (if is_empty (trim_space x.id) then m else insert (trim_space x.id) x m) ≡ some t
    → P t × (trim_space t.id ≡ k)
stored P k m x px h t found = elim (Bool-cases (is_empty (trim_space x.id))) [
  | inl blank ↦ h t (rw blank at found)
  | inr filled ↦
      let there = rw (filled, lookup-insert k (trim_space x.id) x m) at found in
      elim (Bool-cases (text_eq (trim_space x.id) k)) [
        | inl same ↦
            (let here : some x ≡ some t = rw same at there in
              let it : x ≡ t = cc in
              subst (λ (u : RecordingTrunkEntry). P u × (trim_space u.id ≡ k)) it
                (px, (text_eq_iff (trim_space x.id) k).0 same))
        | inr other ↦ h t (rw other at there)
      ]
]

spread :
    (k : Text) (m : Map RecordingTrunkEntry) (x : RecordingTrunkEntry)
    (xs : List RecordingTrunkEntry)
    → is_empty k ≡ false
    → (member k (trunk_ids (x ∷ xs)) ≡ true) ⊎ ((t : RecordingTrunkEntry) × (lookup k m ≡ some t))
    → (member k (trunk_ids xs) ≡ true)
      ⊎ ((t : RecordingTrunkEntry) × (lookup k
              (if is_empty (trim_space x.id) then m else insert (trim_space x.id) x m)
            ≡ some t))
unfolding member
spread k m x xs filled there = elim (Bool-cases (text_eq (trim_space x.id) k)) [
  | inl same ↦
      let it : trim_space x.id ≡ k = (text_eq_iff (trim_space x.id) k).0 same in
      inr (x, rw (it, filled, lookup-insert k k x m, text_eq_refl k) refl)
  | inr other ↦ elim there [
    | inl later ↦ inl (rw other at later)
    | inr found ↦ inr (
      found.0,
      elim (Bool-cases (is_empty (trim_space x.id))) [
        | inl blank ↦ rw blank found.1
        | inr given ↦ rw (given, lookup-insert k (trim_space x.id) x m, other) found.1
      ],
    )
  ]
]

-- Whatever is stored comes from the trunks.
pub by_id-kept :
    (P : RecordingTrunkEntry → Type 0) (k : Text) (m : Map RecordingTrunkEntry)
    (ts : List RecordingTrunkEntry)
    → ((t : RecordingTrunkEntry) → lookup k m ≡ some t → P t × (trim_space t.id ≡ k))
    → All P ts
    → (t : RecordingTrunkEntry) → lookup k (by_id m ts) ≡ some t
    → P t × (trim_space t.id ≡ k)
unfolding by_id
by_id-kept P k m [] h all t found = h t found
by_id-kept P k m (x ∷ xs) h all t found =
    by_id-kept P k (if is_empty (trim_space x.id) then m else insert (trim_space x.id) x m) xs
      (λ u here. stored P k m x all.0 h u here) all.1 t found

pub by_id-there :
    (k : Text) (m : Map RecordingTrunkEntry) (ts : List RecordingTrunkEntry)
    → is_empty k ≡ false
    → (member k (trunk_ids ts) ≡ true) ⊎ ((t : RecordingTrunkEntry) × (lookup k m ≡ some t))
    → (t : RecordingTrunkEntry) × (lookup k (by_id m ts) ≡ some t)
unfolding by_id member
by_id-there k m [] filled (inr found) = found
by_id-there k m [] filled (inl there) = cc
by_id-there k m (x ∷ xs) filled there =
    by_id-there k (if is_empty (trim_space x.id) then m else insert (trim_space x.id) x m) xs filled
      (spread k m x xs filled there)

anything : (ts : List RecordingTrunkEntry) → All {0, 0} (λ t. Unit) ts
anything [] = tt
anything (t ∷ ts) = (tt, anything ts)

-- An id that the validation accepts is the id of a trunk that is found for it.
pub trunk_of_id :
    (k : Text) (ts : List RecordingTrunkEntry)
    → is_empty k ≡ false
    → member k (trunk_ids ts) ≡ true
    → (t : RecordingTrunkEntry) × (lookup k (by_id [] ts) ≡ some t) × (trim_space t.id ≡ k)
unfolding lookup
trunk_of_id k ts filled there =
    let found = by_id-there k [] ts filled (inl there) in
    (found.0, found.1, (by_id-kept (λ t. Unit) k [] ts (λ u h. cc) (anything ts) found.0 found.1).1)

-- No id that the validation accepts is blank.
pub id_filled :
    (k : Text) (ts : List RecordingTrunkEntry)
    → All (λ t. is_empty (trim_space t.id) ≡ false) ts
    → member k (trunk_ids ts) ≡ true
    → is_empty k ≡ false
unfolding member
id_filled k [] all there = cc
id_filled k (t ∷ ts) all there = elim (Bool-cases (text_eq (trim_space t.id) k)) [
  | inl same ↦ rw ((text_eq_iff (trim_space t.id) k).0 same) at all.0
  | inr other ↦ id_filled k ts all.1 (rw other at there)
]
