-- ===== src/Config/Recording/Links/Laws.antt =====
-- Which links between conference endpoints, users and devices `ValidateRecordingLinks` accepts.
use sipbridge.Config.Recording.Links.Found.{
  HasDevice, LastWithId, device_ids-member_iff, users_by_id-lookup_iff,
}
use sipbridge.Config.Recording.Links.{
  LinkError, check_ep, device_error, device_ids, endpoints_error, groups_error, users_by_id,
  validate_recording_links,
}
use sipbridge.Config.{ConferenceGroup, Endpoint, Spec, User}
use sipbridge.Maps.{lookup}
use sipbridge.Prelude.{
  Bool, true, false, ◌⊎◌, ◌↔◌, inl, inr, Bool-cases, ◌||◌, ◌≡◌, refl, Option, none, some, List, [],
  ◌∷◌, All, or_else, or_else-none, if◌then◌else◌,
}
use sipbridge.Text.Sets.{member}
use sipbridge.Text.{Text, is_empty, trim_space}

-- What the links of an endpoint have to be, blanks around them aside: none; or the id of a user,
-- and if a device is named as well, one of the last user with that id.
unfoldable pub Linked : List User → Endpoint → Type 0
Linked us ep =
    ((is_empty (trim_space ep.linked_user_id) ≡ true)
      × (is_empty (trim_space ep.linked_device_id) ≡ true))
    ⊎ ((is_empty (trim_space ep.linked_user_id) ≡ false)
        × ((u : User) × LastWithId us (trim_space ep.linked_user_id) u
            × ((is_empty (trim_space ep.linked_device_id) ≡ true)
                ⊎ HasDevice u.devices (trim_space ep.linked_device_id))))

either_true :
    (a b : Bool)
    → (if a || b then none else some LinkError.device_not_found) ≡ none
    → (a ≡ true) ⊎ (b ≡ true)
either_true true b h = inl refl
either_true false true h = inr refl
either_true false false h = cc

passed :
    (a b : Bool)
    → (a ≡ true) ⊎ (b ≡ true)
    → (if a || b then none else some LinkError.device_not_found) ≡ none
passed true b h = refl
passed false true h = refl
passed false false (inl h) = cc
passed false false (inr h) = cc

device_error_iff :
    (ld : Text) (o : Option User)
    → (device_error ld o ≡ none) ↔ (
        (u : User) × (o ≡ some u)
        × ((is_empty ld ≡ true) ⊎ (member ld (device_ids u.devices) ≡ true)))
unfolding device_error
device_error_iff ld none = (λ h. cc, λ h. let bad = h.1 in cc)
device_error_iff ld (some u) = (
  λ h. (u, refl, either_true (is_empty ld) (member ld (device_ids u.devices)) h),
  λ h.
      let it : u ≡ h.0 = let same = h.1 in cc in
      rw it (passed (is_empty ld) (member ld (device_ids h.0.devices)) h.2),
)

-- The second link of an endpoint against the user who was looked up.
device_iff :
    (ld : Text) (u : User)
    → ((is_empty ld ≡ true) ⊎ (member ld (device_ids u.devices) ≡ true))
      ↔ ((is_empty ld ≡ true) ⊎ HasDevice u.devices ld)
device_iff ld u = elim (Bool-cases (is_empty ld)) [
  | inl blank ↦ (λ h. inl blank, λ h. inl blank)
  | inr given ↦
      let both = device_ids-member_iff ld u.devices given in
      (
        λ h. elim h [ inl e ↦ inl e | inr m ↦ inr (both.0 m) ],
        λ h. elim h [ inl e ↦ inl e | inr m ↦ inr (both.1 m) ],
      )
]

user_error_iff :
    (us : List User) (lu ld : Text)
    → (device_error ld (lookup lu (users_by_id [] us)) ≡ none)
      ↔ ((u : User) × LastWithId us lu u × ((is_empty ld ≡ true) ⊎ HasDevice u.devices ld))
user_error_iff us lu ld =
    let found = device_error_iff ld (lookup lu (users_by_id [] us)) in
    (
      λ h.
          let (u, there, device) = found.0 h in
          (u, (users_by_id-lookup_iff lu us u).0 there, (device_iff ld u).0 device),
      λ h.
          let (u, last, device) = h in
          found.1 (u, (users_by_id-lookup_iff lu us u).1 last, (device_iff ld u).1 device),
    )

check_ep_iff :
    (us : List User) (ep : Endpoint) → (check_ep (users_by_id [] us) ep ≡ none) ↔ Linked us ep
unfolding check_ep Linked
check_ep_iff us ep =
    let user = user_error_iff us (trim_space ep.linked_user_id) (trim_space ep.linked_device_id) in
    elim (Bool-cases (is_empty (trim_space ep.linked_user_id))) [
      | inl e ↦ elim (Bool-cases (is_empty (trim_space ep.linked_device_id))) [
        | inl d ↦ rw (e, d) (λ h. inl (refl, refl), λ h. refl)
        | inr d ↦ rw (e, d) (λ h. cc, λ h. elim h [ inl (a, b) ↦ cc | inr (a, b) ↦ cc ])
      ]
      | inr e ↦
          rw e (λ h. inr (refl, user.0 h), λ h. elim h [ inl (a, b) ↦ cc | inr (a, b) ↦ user.1 b ])
    ]

endpoints_error_iff :
    (us : List User) (eps : List Endpoint)
    → (endpoints_error (users_by_id [] us) eps ≡ none) ↔ All (Linked us) eps
unfolding endpoints_error
endpoints_error_iff us [] = (λ h. tt, λ h. refl)
endpoints_error_iff us (ep ∷ rest) = (
  λ h.
      let both =
        or_else-none (check_ep (users_by_id [] us) ep) (endpoints_error (users_by_id [] us) rest)
          h in
      ((check_ep_iff us ep).0 both.0, (endpoints_error_iff us rest).0 both.1),
  λ h. rw ((check_ep_iff us ep).1 h.0) ((endpoints_error_iff us rest).1 h.1),
)

-- Both sides of a group.
pub GroupLinked : List User → ConferenceGroup → Type 0
GroupLinked us g = All (Linked us) g.side_a × All (Linked us) g.side_b

groups_error_iff :
    (us : List User) (gs : List ConferenceGroup)
    → (groups_error (users_by_id [] us) gs ≡ none) ↔ All (GroupLinked us) gs
unfolding groups_error GroupLinked
groups_error_iff us [] = (λ h. tt, λ h. refl)
groups_error_iff us (g ∷ gs) = (
  λ h.
      let a =
        or_else-none (endpoints_error (users_by_id [] us) g.side_a)
          (or_else (endpoints_error (users_by_id [] us) g.side_b)
            (groups_error (users_by_id [] us) gs))
          h in
      let b =
        or_else-none (endpoints_error (users_by_id [] us) g.side_b)
          (groups_error (users_by_id [] us) gs) a.1 in
      (
        ((endpoints_error_iff us g.side_a).0 a.0, (endpoints_error_iff us g.side_b).0 b.0),
        (groups_error_iff us gs).0 b.1,
      ),
  λ h.
      rw ((endpoints_error_iff us g.side_a).1 h.0.0, (endpoints_error_iff us g.side_b).1 h.0.1)
        ((groups_error_iff us gs).1 h.1),
)

-- The check of the links passes exactly when every endpoint of both sides of every conference
-- group is linked rightly, blanks around the links aside: to nothing; to the id of a user; or to
-- the
-- id of a user and to the id, blanks around it aside, of a device of the last user with that id.
pub validate_recording_links_iff :
    (spec : Spec)
    → (validate_recording_links spec ≡ none) ↔ All (GroupLinked spec.users) spec.conference_groups
unfolding validate_recording_links
validate_recording_links_iff spec = groups_error_iff spec.users spec.conference_groups
