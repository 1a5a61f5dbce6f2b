-- ===== src/Api/Auth.antt =====
-- Authentication and access (internal/api/auth.go, internal/config/auth_spec.go): sessions, local
-- and
-- directory users, and the check in front of every request. The clock, the random token and the
-- directory (LDAP) are arguments; times are nanoseconds.
pub mod Sessions
pub mod Lasting
pub mod Access
pub mod Policy
pub mod Roles
pub mod Login
pub mod Vouched
use sipbridge.Prelude.{
  ℕ, ◌+◌, ◌*◌, ℤ, pos, negsuc, Bool, true, false, ◌&&◌, ◌||◌, not, Option, none, some, List, [],
  ◌∷◌, ◌++◌, ◌==◌, any, drop, ltb, at_least, if◌then◌else◌,
}
use sipbridge.Maps.{Map, delete, insert, lookup}
use sipbridge.Text.Split.{replace_pair}
use sipbridge.Text.{Text, codes, equal_fold, has_prefix, is_empty, text_eq, to_lower, trim_space}

-- `Role` is a string: "admin", "operator", "readonly", or whatever the configuration says.
abbrev pub Role : Type 0
Role = Text

abbrev pub role_admin : Role
role_admin = codes "admin"

abbrev pub role_operator : Role
role_operator = codes "operator"

abbrev pub role_readonly : Role
role_readonly = codes "readonly"

pub record LocalAuthUser : Type 0 where
  pub username : Text
  pub password : Text
  pub role : Role

pub record LocalAuthSpec : Type 0 where
  pub enabled : Bool
  pub users : List LocalAuthUser

pub record AdldsSpec : Type 0 where
  pub enabled : Bool
  pub url : Text
  pub bind_dn : Text
  pub bind_password_env_var : Text
  pub base_dn : Text
  pub user_filter : Text
  pub group_role_map : Map Role

pub record AuthSpec : Type 0 where
  pub enabled : Bool
  pub session_ttl_minutes : ℤ
  pub local : Option LocalAuthSpec
  pub adlds : Option AdldsSpec

pub record Principal : Type 0 where
  pub username : Text
  pub provider : Text
  pub role : Role

pub record SessionRecord : Type 0 where
  pub principal : Principal
  pub expires_at : ℕ

abbrev pub Sessions : Type 0
Sessions = Map SessionRecord

-- `tok` is the token that the random bytes give.
unfoldable pub issue : Principal → ℕ → ℕ → Text → Sessions → Sessions
unfolding insert
issue p ttl now tok s = insert tok (record { principal = p; expires_at = now + ttl }) s

abbrev pub checked : Text → ℕ → Sessions → Option SessionRecord → Sessions × Option Principal
checked tok now s none = (s, none)
checked tok now s (some rec) =
    if ltb rec.expires_at now then (delete tok s, none) else (s, some rec.principal)

unfoldable pub verify : Text → ℕ → Sessions → Sessions × Option Principal
unfolding trim_space lookup delete
verify tok now s = if is_empty (trim_space tok) then (s, none) else checked tok now s (lookup tok s)

unfoldable pub bearer_token : Text → Text
unfolding trim_space to_lower has_prefix
bearer_token h =
    if has_prefix (codes "bearer ") (to_lower (trim_space h))
    then trim_space (drop 7 (trim_space h))
    else []

unfoldable pub role_allowed : Role → List Role → Bool
unfolding text_eq
role_allowed role allow = any (λ r. text_eq role r) allow

abbrev minute : ℕ
minute = 60000000000

abbrev pub minutes_of : ℤ → ℕ
minutes_of (pos n) = if ltb 0 n then n else 480
minutes_of (negsuc n) = 480

unfoldable pub auth_ttl : AuthSpec → ℕ
auth_ttl spec = minutes_of spec.session_ttl_minutes * minute

unfoldable pub rank : Role → ℕ
unfolding text_eq
rank r = if text_eq r role_admin then 3 else if text_eq r role_operator then 2 else 1

unfoldable pub choose_higher_role : Role → Role → Role
unfolding rank
choose_higher_role a b = if ltb (rank a) (rank b) then b else a

abbrev role_or_readonly : Role → Role
role_or_readonly role = if is_empty role then role_readonly else role

-- The first user of that name decides.
unfoldable pub validate_local_users : List LocalAuthUser → Text → Text → Option Principal
unfolding text_eq
validate_local_users [] username password = none
validate_local_users (u ∷ us) username password =
    let rest = validate_local_users us username password in
    if not (text_eq u.username username)
    then rest
    else if not (text_eq u.password password)
    then none
    else some
        record { username = u.username; provider = codes "local"; role = role_or_readonly u.role }

unfoldable pub validate_local : Option LocalAuthSpec → Text → Text → Option Principal
unfolding validate_local_users
validate_local none username password = none
validate_local (some spec) username password =
    if not spec.enabled then none else validate_local_users spec.users username password

-- A directory: whether it can be reached at a URL, whether a bind succeeds, what a search finds
-- (`none` for an error) and how a name is escaped in a filter.
pub record Entry : Type 0 where
  pub dn : Text
  pub member_of : List Text

pub record Directory : Type 0 where
  pub dial_url : Text → Bool
  pub bind : Text → Text → Bool
  pub search : Text → Text → Option (List Entry)
  pub escape_filter : Text → Text

-- The loop over the mapping for one group.
unfoldable pub role_of_group : Map Role → Text → Role → Role
unfolding equal_fold trim_space choose_higher_role
role_of_group [] g role = role
role_of_group ((dn, mapped) ∷ rest) g role =
    role_of_group rest g
      (if equal_fold (trim_space dn) (trim_space g) then choose_higher_role role mapped else role)

unfoldable pub role_of_groups : Map Role → List Text → Role → Role
unfolding role_of_group
role_of_groups mapping [] role = role
role_of_groups mapping (g ∷ gs) role = role_of_groups mapping gs (role_of_group mapping g role)

pub data Credentials : Type 0 where
  accepted : Principal → Credentials
  rejected : Credentials
  failed : Credentials

abbrev pub one_entry : Directory → AdldsSpec → Text → Text → Option (List Entry) → Credentials
one_entry dir spec username password none = failed
one_entry dir spec username password (some (entry ∷ [])) =
    if not (dir.bind entry.dn password)
    then rejected
    else accepted record {
      username = username;
      provider = codes "adlds";
      role = role_of_groups spec.group_role_map entry.member_of role_readonly;
    }
one_entry dir spec username password (some _) = rejected

-- The bind of the service account; `env` is `os.Getenv`.
abbrev pub service_bound : Directory → (Text → Text) → AdldsSpec → Bool
service_bound dir env spec =
    if is_empty (trim_space spec.bind_dn)
    then true
    else dir.bind (trim_space spec.bind_dn) (
        if is_empty (trim_space spec.bind_password_env_var)
        then []
        else env (trim_space spec.bind_password_env_var))

abbrev pub filter_of : Directory → AdldsSpec → Text → Text
filter_of dir spec username = replace_pair b'%' b's' (dir.escape_filter username) (
    if is_empty (trim_space spec.user_filter)
    then codes "(sAMAccountName=%s)"
    else trim_space spec.user_filter)

unfoldable pub validate_adlds :
    Directory → (Text → Text) → Option AdldsSpec → Text → Text → Credentials
unfolding trim_space replace_pair role_of_groups
validate_adlds dir env none username password = rejected
validate_adlds dir env (some spec) username password =
    if not spec.enabled
    then rejected
    else if is_empty (trim_space spec.url) || is_empty (trim_space spec.base_dn)
    then failed
    else if not (dir.dial_url spec.url)
    then failed
    else if not (service_bound dir env spec)
    then failed
    else one_entry dir spec username password
        (dir.search spec.base_dn (filter_of dir spec username))
