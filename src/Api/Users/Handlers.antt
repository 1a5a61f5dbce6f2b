-- ===== src/Api/Users/Handlers.antt =====
-- The handlers that change users (internal/api/users.go).
use sipbridge.Prelude.{
  ℕ, suc, pos, negsuc, Bool, false, Option, none, some, List, [], ◌∷◌, ◌++◌, get_elem?, set, take,
  if◌then◌else◌, drop,
}
use sipbridge.Api.Users.{digits_of, participant_id_taken, user_index_by_id}
use sipbridge.Config.Manager.Loading.{Disk, apply_yaml}
use sipbridge.Config.Manager.{
  Formats, Loaded, Manager, RootConfig, config_read_only, current, failed, ok,
}
use sipbridge.Config.Recording.{validate_user_devices}
use sipbridge.Config.{User, UserDevice}
use sipbridge.Maps.{is_some}
use sipbridge.Text.{Text, is_empty, trim_space}

pub record UserPutBody : Type 0 where
  pub display_name : Text
  pub region : Text
  pub allowed_bridge_ids : List Text
  pub allowed_conference_group_ids : List Text
  pub participant_id : Option Text
  pub recording_opt_in : Option Bool
  pub devices : Option (List UserDevice)

pub record UserCreateBody : Type 0 where
  pub id : Text
  pub display_name : Text
  pub region : Text
  pub allowed_bridge_ids : List Text
  pub allowed_conference_group_ids : List Text
  pub participant_id : Text
  pub recording_opt_in : Bool
  pub devices : List UserDevice

-- The status of an answer that is not a success.
pub data Response : Type 0 where
  done : Response
  new_pin : Text → Response
  status : ℕ → Response

abbrev pub with_users : (List User → List User) → RootConfig → RootConfig
with_users change r = record r { spec = record r.spec { users = change r.spec.users } }

abbrev with_cur : (List User → List User) → Option RootConfig → Option RootConfig
with_cur change none = none
with_cur change (some r) = some (with_users change r)

-- A write to the array of users of the live configuration.
unfoldable pub write_live : (List User → List User) → Manager → Manager
write_live change m = record m { cur = with_cur change m.cur }

abbrev pub answer : Response → Manager × Loaded → Manager × Response
answer good (m, ok root) = (m, good)
answer good (m, failed e) = (m, status 400)

abbrev pub marshalled : Formats → Disk → Response → Manager → Option Text → Manager × Response
marshalled f d good m none = (m, status 500)
marshalled f d good m (some bytes) = answer good (apply_yaml f d bytes m)

-- The end of every handler: `cur` is marshalled and applied.
unfoldable pub save : Formats → Disk → Response → RootConfig → Manager → Manager × Response
unfolding apply_yaml
save f d good cur m = marshalled f d good m (f.marshal cur)

-- A handler that looks a user up; the index and the user there.
unfoldable pub with_user : Manager → Text → (ℕ → User → Manager × Response) → Manager × Response
unfolding config_read_only current user_index_by_id
with_user m id handle =
    if config_read_only m
    then (m, status 400)
    else elim (user_index_by_id (current m).spec.users id) [
      | none ↦ (m, status 404)
      | some idx ↦ elim (get_elem? (current m).spec.users idx) [
        | none ↦ (m, status 404)
        | some u ↦ handle idx u
      ]
    ]

-- `cur.Spec.Users[idx] = u`, then the end of the handler.
unfoldable pub save_user : Formats → Disk → Response → ℕ → User → Manager → Manager × Response
unfolding write_live save current
save_user f d good idx u m =
    save f d good (with_users (λ us. set us idx u) (current m)) (write_live (λ us. set us idx u) m)

abbrev or_old {ℓ} : {A : Type ℓ} → Option A → A → A
or_old none old = old
or_old (some a) old = a

abbrev pub put_fields : UserPutBody → User → User
put_fields req u = record u {
  display_name = req.display_name;
  region = req.region;
  allowed_bridge_ids = req.allowed_bridge_ids;
  allowed_conference_group_ids = req.allowed_conference_group_ids;
  recording_opt_in = or_old req.recording_opt_in u.recording_opt_in;
  devices = or_old req.devices u.devices;
}

abbrev pub bad_devices : Option (List UserDevice) → Bool
bad_devices none = false
bad_devices (some ds) = is_some (validate_user_devices ds)

-- The user that a PUT stores, `none` where the request is refused.
unfoldable pub put_pin : List User → ℕ → Option Text → User → Option User
unfolding digits_of participant_id_taken
put_pin users idx none u = some u
put_pin users idx (some raw) u =
    if is_empty (digits_of raw)
    then none
    else if participant_id_taken users (digits_of raw) (pos idx)
    then none
    else some (record u { participant_id = digits_of raw })

abbrev pub put_stored : Formats → Disk → ℕ → Manager → Option User → Manager × Response
put_stored f d idx m none = (m, status 400)
put_stored f d idx m (some u) = save_user f d done idx u m

abbrev pub put_body : Formats → Disk → Option UserPutBody → Manager → ℕ → User → Manager × Response
put_body f d none m idx u = (m, status 400)
put_body f d (some req) m idx u =
    if bad_devices req.devices
    then (m, status 400)
    else put_stored f d idx m
        (put_pin (current m).spec.users idx req.participant_id (put_fields req u))

-- The body is `none` where it is no JSON.
unfoldable pub handle_user_put :
    Formats → Disk → Text → Option UserPutBody → Manager → Manager × Response
unfolding with_user put_pin save_user validate_user_devices current
handle_user_put f d id body m = with_user m id (put_body f d body m)

abbrev pub user_of : UserCreateBody → User
user_of req = record {
  id = trim_space req.id;
  display_name = req.display_name;
  participant_id = digits_of req.participant_id;
  region = req.region;
  allowed_bridge_ids = req.allowed_bridge_ids;
  allowed_conference_group_ids = req.allowed_conference_group_ids;
  recording_opt_in = req.recording_opt_in;
  devices = req.devices;
}

abbrev pub create_body : Formats → Disk → Option UserCreateBody → Manager → Manager × Response
create_body f d none m = (m, status 400)
create_body f d (some req) m =
    if is_empty (trim_space req.id)
    then (m, status 400)
    else if is_some (user_index_by_id (current m).spec.users (trim_space req.id))
    then (m, status 400)
    else if is_empty (digits_of req.participant_id)
    then (m, status 400)
    else if participant_id_taken (current m).spec.users (digits_of req.participant_id) (negsuc 0)
    then (m, status 400)
    else if is_some (validate_user_devices req.devices)
    then (m, status 400)
    else save f d done (with_users (λ us. us ++ user_of req ∷ []) (current m)) m

-- `append` writes behind the end of the live array, so the live configuration is as before.
unfoldable pub handle_user_create :
    Formats → Disk → Option UserCreateBody → Manager → Manager × Response
unfolding config_read_only current user_index_by_id digits_of participant_id_taken
    validate_user_devices save trim_space
handle_user_create f d body m =
    if config_read_only m then (m, status 400) else create_body f d body m

abbrev pub without : ℕ → List User → List User
without i us = take i us ++ drop (suc i) us

-- The last of an array, as a list of at most one.
abbrev pub last_of : List User → List User
last_of [] = []
last_of (u ∷ []) = u ∷ []
last_of (u ∷ v ∷ us) = last_of (v ∷ us)

-- What `append(users[:idx], users[idx+1:]...)` leaves in the whole array: the users behind the one
-- that is removed move down by one, and the last place is not written.
abbrev pub shifted : ℕ → List User → List User
shifted i us = without i us ++ last_of us

unfoldable pub delete_at : Formats → Disk → Manager → ℕ → User → Manager × Response
unfolding write_live save current
delete_at f d m idx u =
    save f d done (with_users (without idx) (current m)) (write_live (shifted idx) m)

unfoldable pub handle_user_delete : Formats → Disk → Text → Manager → Manager × Response
unfolding with_user delete_at
handle_user_delete f d id m = with_user m id (delete_at f d m)

-- The loop over the attempts, on the PINs that `randomNumericPIN(6)` returns: `none` where it
-- fails.
-- The result is the empty text where no PIN was found.
unfoldable pub find_pin : List User → ℕ → List (Option Text) → Option Text
unfolding participant_id_taken
find_pin users idx [] = some []
find_pin users idx (none ∷ rest) = none
find_pin users idx (some p ∷ rest) =
    let more = find_pin users idx rest in
    if participant_id_taken users p (pos idx) then more else some p

abbrev pub reset_to : Formats → Disk → Manager → ℕ → User → Option Text → Manager × Response
reset_to f d m idx u none = (m, status 500)
reset_to f d m idx u (some pin) =
    if is_empty pin
    then (m, status 500)
    else save_user f d (new_pin pin) idx (record u { participant_id = pin }) m

unfoldable pub handle_user_reset_pin :
    Formats → Disk → Text → List (Option Text) → Manager → Manager × Response
unfolding with_user find_pin save_user current
handle_user_reset_pin f d id pins m =
    with_user m id
      (λ idx u. reset_to f d m idx u (find_pin (current m).spec.users idx (take 50 pins)))

-- A request that changes users.
pub data UsersRequest : Type 0 where
  put_user : Text → Option UserPutBody → UsersRequest
  create_user : Option UserCreateBody → UsersRequest
  delete_user : Text → UsersRequest
  reset_user_pin : Text → List (Option Text) → UsersRequest

unfoldable pub handle_users : Formats → Disk → UsersRequest → Manager → Manager × Response
unfolding handle_user_put handle_user_create handle_user_delete handle_user_reset_pin
handle_users f d (put_user id body) m = handle_user_put f d id body m
handle_users f d (create_user body) m = handle_user_create f d body m
handle_users f d (delete_user id) m = handle_user_delete f d id m
handle_users f d (reset_user_pin id pins) m = handle_user_reset_pin f d id pins m
