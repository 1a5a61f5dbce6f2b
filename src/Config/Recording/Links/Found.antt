-- ===== src/Config/Recording/Links/Found.antt =====
-- What the two maps of `ValidateRecordingLinks` hold, in terms of the lists they are built from.
use sipbridge.Config.Recording.Links.{device_ids, users_by_id}
use sipbridge.Config.{User, UserDevice}
use sipbridge.Maps.Laws.{lookup-insert}
use sipbridge.Maps.{Map, insert, lookup}
use sipbridge.Prelude.{
  ℕ, zero, suc, ◌≤◌, true, false, ◌⊎◌, ◌↔◌, inl, inr, Bool-cases, ◌≡◌, ◌≢◌, refl, sym, ap, ◌∙◌,
  some, List, [], ◌∷◌, arith, get_elem?, some-injective,
}
use sipbridge.Text.Laws.{text_eq_iff}
use sipbridge.Text.Sets.{member}
use sipbridge.Text.{Text, is_empty, text_eq, trim_space}

-- No user has the id.
abbrev Nobody : List User → Text → Type 0
Nobody us id = (j : ℕ) (v : User) → get_elem? us j ≡ some v → v.id ≢ id

-- `u` is the last user with the id.
unfoldable pub LastWithId : List User → Text → User → Type 0
LastWithId us id u =
    (i : ℕ) × (get_elem? us i ≡ some u)
    × (u.id ≡ id)
    × ((j : ℕ) (v : User) → get_elem? us j ≡ some v → v.id ≡ id → j ≤ i)

-- One of the devices has the id, up to blanks around it.
unfoldable pub HasDevice : List UserDevice → Text → Type 0
HasDevice ds id = (i : ℕ) × (d : UserDevice) × (get_elem? ds i ≡ some d) × (trim_space d.id ≡ id)

text_ne : (a b : Text) → a ≢ b → text_eq a b ≡ false
text_ne a b ne = elim (Bool-cases (text_eq a b)) [
  | inl e ↦ absurd (ne ((text_eq_iff a b).0 e))
  | inr e ↦ e
]

none_above : (j : ℕ) → ¬ (suc j ≤ 0)
none_above j h = omega (arith, h)

-- `v` before the users of a list.
module _ (us : List User) (id : Text) where
  last_of_tail :
      (i : ℕ) (v : User)
      → ((j : ℕ) (w : User) → get_elem? us j ≡ some w → w.id ≡ id → j ≤ i)
      → (j : ℕ) (w : User) → get_elem? (v ∷ us) j ≡ some w
      → w.id ≡ id
      → j ≤ suc i
  last_of_tail i v latest zero w there e = omega arith
  last_of_tail i v latest (suc j) w there e = omega (arith, latest j w there e)

  only_head :
      (v : User)
      → Nobody us id
      → (j : ℕ) (w : User) → get_elem? (v ∷ us) j ≡ some w
      → w.id ≡ id
      → j ≤ 0
  only_head v nobody zero w there e = omega arith
  only_head v nobody (suc j) w there e = absurd (nobody j w there e)

  Nobody-cons : (v : User) → Nobody us id → text_eq v.id id ≡ false → Nobody (v ∷ us) id
  Nobody-cons v nobody other zero w there e =
      let is : v ≡ w = some-injective v w there in
      let same = (text_eq_iff v.id id).1 (ap (λ (x : User). x.id) is ∙ e) in
      let clash = sym same ∙ other in cc
  Nobody-cons v nobody other (suc j) w there e = nobody j w there e

Nobody-lookup :
    (id : Text) (us : List User) (m : Map User)
    → Nobody us id
    → lookup id (users_by_id m us) ≡ lookup id m
unfolding users_by_id
Nobody-lookup id [] m h = refl
Nobody-lookup id (u ∷ us) m h =
    let other = text_ne u.id id (h 0 u refl) in
    let written : lookup id (insert u.id u m) ≡ lookup id m =
      ground (arith, lookup-insert id u.id u m, other) in
    Nobody-lookup id us (insert u.id u m) (λ j v there. h (suc j) v there) ∙ written

-- The last user with an id is found under it.
pub last-lookup :
    (id : Text) (us : List User) (m : Map User) (u : User)
    → LastWithId us id u
    → lookup id (users_by_id m us) ≡ some u
unfolding users_by_id LastWithId
last-lookup id [] m u (i, there, its, latest) = cc
last-lookup id (v ∷ us) m u (zero, there, its, latest) =
    let is : v ≡ u = some-injective v u there in
    let same : text_eq v.id id ≡ true =
      (text_eq_iff v.id id).1 (ap (λ (x : User). x.id) is ∙ its) in
    let later = λ (j : ℕ) (w : User) (h : get_elem? us j ≡ some w) (e : w.id ≡ id).
      absurd (none_above j (latest (suc j) w h e)) in
    Nobody-lookup id us (insert v.id v m) later ∙ (lookup-insert id v.id v m ∙ rw same there)
last-lookup id (v ∷ us) m u (suc i, there, its, latest) =
    last-lookup id us (insert v.id v m) u
      (i, there, its, λ j w h e. omega (arith, latest (suc j) w h e))

-- What is found under an id is the last user with it, or was there before.
lookup-last :
    (id : Text) (us : List User) (m : Map User) (u : User)
    → lookup id (users_by_id m us) ≡ some u
    → LastWithId us id u ⊎ (Nobody us id × (lookup id m ≡ some u))
unfolding users_by_id LastWithId
lookup-last id [] m u h = inr ((λ j v there. cc), h)
lookup-last id (v ∷ us) m u h = elim (lookup-last id us (insert v.id v m) u h) [
  | inl (i, there, its, latest) ↦ inl (suc i, there, its, last_of_tail us id i v latest)
  | inr (nobody, there) ↦ elim (Bool-cases (text_eq v.id id)) [
    | inl same ↦
        let is : some v ≡ some u = ground (arith, lookup-insert id v.id v m, there, same) in
        inl (
          0,
          is,
          sym (ap (λ (x : User). x.id) (some-injective v u is)) ∙ (text_eq_iff v.id id).0 same,
          only_head us id v nobody,
        )
    | inr other ↦
        inr (
          Nobody-cons us id v nobody other,
          ground (arith, lookup-insert id v.id v m, there, other),
        )
  ]
]

-- From no users before.
pub users_by_id-lookup_iff :
    (id : Text) (us : List User) (u : User)
    → (lookup id (users_by_id [] us) ≡ some u) ↔ LastWithId us id u
users_by_id-lookup_iff id us u = (
  λ h. elim (lookup-last id us [] u h) [
    | inl last ↦ last
    | inr (nobody, there) ↦ unfold lookup in cc
  ],
  λ last. last-lookup id us [] u last,
)

HasDevice-cons :
    (d : UserDevice) (ds : List UserDevice) (id : Text) → HasDevice ds id → HasDevice (d ∷ ds) id
unfolding HasDevice
HasDevice-cons d ds id (i, e, there, its) = (suc i, e, there, its)

member-device :
    (id : Text) (ds : List UserDevice) → member id (device_ids ds) ≡ true → HasDevice ds id
unfolding device_ids member HasDevice
member-device id [] h = cc
member-device id (d ∷ ds) h = elim (Bool-cases (is_empty (trim_space d.id))) [
  | inl blank ↦
      let later : member id (device_ids ds) ≡ true = rw blank at h in
      HasDevice-cons d ds id (member-device id ds later)
  | inr given ↦ elim (Bool-cases (text_eq (trim_space d.id) id)) [
    | inl same ↦ (0, d, refl, (text_eq_iff (trim_space d.id) id).0 same)
    | inr other ↦
        let later : member id (device_ids ds) ≡ true = rw (given, other) at h in
        HasDevice-cons d ds id (member-device id ds later)
  ]
]

device-member :
    (id : Text) (ds : List UserDevice)
    → is_empty id ≡ false
    → HasDevice ds id
    → member id (device_ids ds) ≡ true
unfolding device_ids member HasDevice
device-member id [] given (i, e, there, its) = cc
device-member id (d ∷ ds) given (zero, e, there, its) =
    let is : d ≡ e = some-injective d e there in
    let same : trim_space d.id ≡ id = ap (λ (x : UserDevice). trim_space x.id) is ∙ its in
    let filled : is_empty (trim_space d.id) ≡ false = ap is_empty same ∙ given in
    let equal = (text_eq_iff (trim_space d.id) id).1 same in rw (filled, equal) refl
device-member id (d ∷ ds) given (suc i, e, there, its) =
    let rest = device-member id ds given (i, e, there, its) in
    elim (Bool-cases (is_empty (trim_space d.id))) [
      | inl blank ↦ rw blank rest
      | inr filled ↦ elim (Bool-cases (text_eq (trim_space d.id) id)) [
        | inl same ↦ rw (filled, same) refl
        | inr other ↦ rw (filled, other) rest
      ]
    ]

-- Among the trimmed ids that are not blank there are those of the devices.
pub device_ids-member_iff :
    (id : Text) (ds : List UserDevice)
    → is_empty id ≡ false
    → (member id (device_ids ds) ≡ true) ↔ HasDevice ds id
device_ids-member_iff id ds given = (λ h. member-device id ds h, λ h. device-member id ds given h)
