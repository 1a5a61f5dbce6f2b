-- ===== src/Api/Users.antt =====
-- The users of the API (internal/api/users.go): the requests under /v1/users and their handlers.
-- `Current()` copies the configuration but not the array of users: what a handler writes into its
-- copy's users is written into the live configuration too, before the document is applied.
pub mod Handlers
pub mod Unique
pub mod Taken
pub mod Invariant
pub mod Creating
pub mod Requests
pub mod Rejected
use mathlib.Core.Option
use sipbridge.Prelude.{
  ℕ, zero, suc, ◌+◌, ℤ, pos, negsuc, Bool, true, false, ◌&&◌, ◌||◌, not, Option, none, some, List,
  [], ◌∷◌, ◌++◌, ◌==◌, filter, length, leb, map, set, get_elem?, ltb, take, if◌then◌else◌, or_else,
  lt_int, below,
}
use sipbridge.Config.{User, UserDevice}
use sipbridge.Text.Number.{is_digit}
use sipbridge.Text.Split.{repeat, split, trim_prefix}
use sipbridge.Text.{Text, codes, is_empty, text_eq, trim, trim_space}

-- The UTF-8 bytes of the bullet.
abbrev bullet : Text
bullet = 226 ∷ 128 ∷ 162 ∷ []

unfoldable pub mask_participant_pin : Text → Text
unfolding trim_space repeat
mask_participant_pin pin =
    if is_empty (trim_space pin)
    then []
    else repeat (if ltb 12 (length (trim_space pin)) then 12 else length (trim_space pin)) bullet

pub data UsersRoute : Type 0 where
  list create unavailable method_not_allowed not_found : UsersRoute
  get put delete reset_pin : Text → UsersRoute

abbrev by_method : Text → List (Text × UsersRoute) → UsersRoute
by_method method [] = UsersRoute.method_not_allowed
by_method method ((name, route) ∷ rest) =
    let more = by_method method rest in if text_eq method name then route else more

abbrev path_route : Text → List Text → UsersRoute
path_route method [] = UsersRoute.not_found
path_route method (id ∷ []) =
    by_method method
      ((codes "GET", get id) ∷ (codes "PUT", put id) ∷ (codes "DELETE", delete id) ∷ [])
path_route method (id ∷ action ∷ []) =
    if text_eq action (codes "reset-pin")
    then by_method method ((codes "POST", reset_pin id) ∷ [])
    else UsersRoute.not_found
path_route method (id ∷ action ∷ more ∷ rest) = UsersRoute.not_found

abbrev path_of : Text → Text
path_of url_path = trim (λ c. c == b'/') (trim_prefix (codes "/v1/users") url_path)

-- `has_manager` is `s.cm != nil`.
unfoldable pub handle_users_v1 : Bool → Text → Text → UsersRoute
unfolding text_eq trim trim_prefix split
handle_users_v1 has_manager method url_path =
    if not has_manager
    then UsersRoute.unavailable
    else if is_empty (path_of url_path)
    then by_method method ((codes "GET", UsersRoute.list) ∷ (codes "POST", UsersRoute.create) ∷ [])
    else path_route method (split b'/' (path_of url_path))

-- A row of the list of users.
pub record UserRow : Type 0 where
  pub id : Text
  pub employee_id : Text
  pub display_name : Text
  pub region : Text
  pub pin_set : Bool
  pub recording_opt_in : Bool
  pub device_count : ℕ

abbrev pub row_of : User → UserRow
row_of u = record {
  id = u.id;
  employee_id = u.id;
  display_name = u.display_name;
  region = u.region;
  pin_set = not (is_empty (trim_space u.participant_id));
  recording_opt_in = u.recording_opt_in;
  device_count = length u.devices;
}

unfoldable pub handle_user_list : List User → List UserRow
unfolding trim_space
handle_user_list users = map row_of users

-- `none` for -1.
unfoldable pub user_index_by_id : List User → Text → Option ℕ
unfolding text_eq
user_index_by_id [] id = none
user_index_by_id (u ∷ us) id =
    let rest = Option.map suc (user_index_by_id us id) in if text_eq u.id id then some 0 else rest

abbrev pub is_at : ℕ → ℤ → Bool
is_at i (pos n) = i == n
is_at i (negsuc n) = false

-- The loop of `participantIDTaken`, at index `i`.
unfoldable pub taken_from : ℕ → List User → Text → ℤ → Bool
unfolding trim_space text_eq
taken_from i [] p except = false
taken_from i (u ∷ us) p except =
    let rest = taken_from (i + 1) us p except in
    if is_at i except then rest else if text_eq (trim_space u.participant_id) p then true else rest

unfoldable pub participant_id_taken : List User → Text → ℤ → Bool
unfolding taken_from trim_space
participant_id_taken users participant_id except =
    if is_empty (trim_space participant_id)
    then false
    else taken_from 0 users (trim_space participant_id) except

-- The digits of a PIN.
unfoldable pub digits_of : Text → Text
unfolding trim_space
digits_of pin = filter is_digit (trim_space pin)

-- What is shown of one user.
pub record UserView : Type 0 where
  pub row : UserRow
  pub pin_masked : Text
  pub devices : List UserDevice
  pub allowed_bridge_ids : List Text
  pub allowed_conference_group_ids : List Text

abbrev view_of : User → UserView
view_of u = record {
  row = row_of u;
  pin_masked = mask_participant_pin u.participant_id;
  devices = u.devices;
  allowed_bridge_ids = u.allowed_bridge_ids;
  allowed_conference_group_ids = u.allowed_conference_group_ids;
}

abbrev user_at : List User → Option ℕ → Option User
user_at users none = none
user_at users (some i) = get_elem? users i

-- `none` for the status 404.
unfoldable pub handle_user_get : List User → Text → Option UserView
unfolding user_index_by_id mask_participant_pin trim_space
handle_user_get users id = Option.map view_of (user_at users (user_index_by_id users id))
