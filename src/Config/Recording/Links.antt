-- ===== src/Config/Recording/Links.antt =====
-- The links of conference endpoints to users and their devices (internal/config/recording_spec.go,
-- `ValidateRecordingLinks`), on the groups and the users of a specification.
pub mod Found
pub mod Laws
use sipbridge.Prelude.{
  Bool, true, false, ◌⊎◌, ◌↔◌, inl, inr, Bool-cases, ◌||◌, ◌≡◌, refl, Option, none, some, List, [],
  ◌∷◌, All, or_else, or_else-none, if◌then◌else◌,
}
use sipbridge.Config.{ConferenceGroup, Endpoint, User, UserDevice, Spec}
use sipbridge.Maps.{Map, insert, lookup}
use sipbridge.Text.Sets.{member}
use sipbridge.Text.{Text, is_empty, trim_space}

pub data LinkError : Type 0 where
  device_without_user user_not_found device_not_found : LinkError

-- `userByID`: a later user replaces an earlier one of the same id.
unfoldable pub users_by_id : Map User → List User → Map User
unfolding insert
users_by_id m [] = m
users_by_id m (u ∷ us) = users_by_id (insert u.id u m) us

-- The keys of `deviceIDs`.
unfoldable pub device_ids : List UserDevice → List Text
unfolding trim_space
device_ids [] = []
device_ids (d ∷ ds) =
    let rest = device_ids ds in if is_empty (trim_space d.id) then rest else trim_space d.id ∷ rest

unfoldable pub device_error : Text → Option User → Option LinkError
unfolding member device_ids
device_error ld none = some LinkError.user_not_found
device_error ld (some u) =
    if is_empty ld || member ld (device_ids u.devices)
    then none
    else some LinkError.device_not_found

unfoldable pub check_ep : Map User → Endpoint → Option LinkError
unfolding trim_space lookup device_error
check_ep users ep =
    if is_empty (trim_space ep.linked_user_id)
    then if is_empty (trim_space ep.linked_device_id)
      then none
      else some LinkError.device_without_user
    else device_error (trim_space ep.linked_device_id) (lookup (trim_space ep.linked_user_id) users)

unfoldable pub endpoints_error : Map User → List Endpoint → Option LinkError
unfolding check_ep
endpoints_error users [] = none
endpoints_error users (ep ∷ rest) =
    let more = endpoints_error users rest in or_else (check_ep users ep) more

unfoldable pub groups_error : Map User → List ConferenceGroup → Option LinkError
unfolding endpoints_error
groups_error users [] = none
groups_error users (g ∷ gs) =
    let more = groups_error users gs in
    or_else (endpoints_error users g.side_a) (or_else (endpoints_error users g.side_b) more)

unfoldable pub validate_recording_links : Spec → Option LinkError
unfolding users_by_id groups_error
validate_recording_links spec = groups_error (users_by_id [] spec.users) spec.conference_groups
