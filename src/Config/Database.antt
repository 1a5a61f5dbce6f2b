-- ===== src/Config/Database.antt =====
-- Where the configuration is stored (internal/config/database_spec.go).
use sipbridge.Prelude.{◌||◌, ℤ, Option, none, some, List, [], ◌∷◌, at_least, below, if◌then◌else◌}
use sipbridge.Text.Sets.{member}
use sipbridge.Text.{Text, codes, is_empty, text_eq, to_lower, trim_space}

pub record PostgresSpec : Type 0 where
  pub host : Text
  pub port : ℤ
  pub user : Text
  pub database : Text
  pub ssl_mode : Text
  pub password_env_var : Text
  pub schema : Text

pub record DatabaseSpec : Type 0 where
  pub config_storage : Text
  pub postgres : Option PostgresSpec

pub data DatabaseError : Type 0 where
  unknown_storage postgres_required host_required bad_port : DatabaseError
  user_required database_required bad_ssl_mode : DatabaseError

abbrev storages : List Text
storages = [] ∷ codes "yaml" ∷ codes "http" ∷ codes "postgres" ∷ []

abbrev ssl_modes : List Text
ssl_modes =
    []
    ∷ codes "disable"
    ∷ codes "allow"
    ∷ codes "prefer"
    ∷ codes "require"
    ∷ codes "verify-ca"
    ∷ codes "verify-full"
    ∷ []

unfoldable pub postgres_error : PostgresSpec → Option DatabaseError
unfolding trim_space to_lower member
postgres_error p =
    if is_empty (trim_space p.host)
    then some DatabaseError.host_required
    else if below 1 p.port || at_least 65536 p.port
    then some DatabaseError.bad_port
    else if is_empty (trim_space p.user)
    then some DatabaseError.user_required
    else if is_empty (trim_space p.database)
    then some DatabaseError.database_required
    else if member (trim_space (to_lower p.ssl_mode)) ssl_modes
    then none
    else some DatabaseError.bad_ssl_mode

-- `cs` is the storage, trimmed and in lower case.
abbrev storage_error : Text → Option PostgresSpec → Option DatabaseError
storage_error cs none =
    if text_eq cs (codes "postgres") then some DatabaseError.postgres_required else none
storage_error cs (some p) = postgres_error p

unfoldable pub validate_database_spec : Option DatabaseSpec → Option DatabaseError
unfolding trim_space to_lower member text_eq postgres_error
validate_database_spec none = none
validate_database_spec (some d) =
    if member (to_lower (trim_space d.config_storage)) storages
    then storage_error (to_lower (trim_space d.config_storage)) d.postgres
    else some DatabaseError.unknown_storage
