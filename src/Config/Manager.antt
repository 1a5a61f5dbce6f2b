-- ===== src/Config/Manager.antt =====
-- The configuration manager (internal/config/manager.go, with `LoadAppConfig` and
-- `ApplyVersionedRootDefaults` of appconfig.go): the live configuration, its validation, and the
-- ways in which it is replaced. YAML, the JSON schema and SHA-256 belong to other packages: they
-- are the fields of `Formats`. What the disk and the network answer is an argument.
pub mod Loading
pub mod Apply
pub mod Live
use sipbridge.Prelude.{
  Bool, true, false, ◌&&◌, ◌||◌, not, Option, none, some, List, [], ◌∷◌, map, or_else,
  if◌then◌else◌,
}
use mathlib.Core.Option
use sipbridge.Config.Cluster.{ClusterError, ClusterSpec, validate_cluster_spec}
use sipbridge.Config.Database.{DatabaseError, DatabaseSpec, validate_database_spec}
use sipbridge.Config.Recording.Links.{LinkError, validate_recording_links}
use sipbridge.Config.Recording.{
  DeviceError, RecordingError, RecordingSpec, UrlParser, validate_recording_spec,
  validate_user_devices,
}
use sipbridge.Config.Servers.{ManagedServer, ServerError, validate_managed_servers}
use sipbridge.Config.{Bridge, Route, Spec, User}
use sipbridge.Text.{Text, codes, is_empty, text_eq, trim_space}

-- `RootConfig`: the sections of `Spec` that only the manager and the API read stand beside it.
pub record RootConfig : Type 0 where
  pub api_version : Text
  pub kind : Text
  pub name : Text
  pub spec : Spec
  pub servers : List ManagedServer
  pub cluster : Option ClusterSpec
  pub database : Option DatabaseSpec
  pub recording : Option RecordingSpec

-- A legacy file: routes as pairs of a user and the id of a bridge.
pub record Legacy : Type 0 where
  pub routes : List (Text × Text)
  pub bridges : List Bridge

pub record Formats : Type 0 where
  pub unmarshal : Text → Option RootConfig
  pub unmarshal_legacy : Text → Option Legacy
  pub marshal : RootConfig → Option Text
  pub schema_valid : RootConfig → Bool
  pub parse_url : UrlParser
  pub sha256 : Text → Text

pub record Manager : Type 0 where
  pub http_url : Text
  pub cur : Option RootConfig
  pub last_http_hash : Text
  pub file : Option Text
  pub temp : Option Text

pub data ConfigError : Type 0 where
  read_only bad_yaml not_versioned schema_invalid unreadable write_failed : ConfigError
  bad_server : ServerError → ConfigError
  bad_cluster : ClusterError → ConfigError
  bad_database : DatabaseError → ConfigError
  bad_recording : RecordingError → ConfigError
  bad_device : DeviceError → ConfigError
  bad_link : LinkError → ConfigError

pub data Loaded : Type 0 where
  ok : RootConfig → Loaded
  failed : ConfigError → Loaded

abbrev pub empty_spec : Spec
empty_spec = record {
  routes = [];
  bridges = [];
  conference_groups = [];
  hoot_groups = [];
  users = [];
  entry_user = [];
}

abbrev pub empty_root : RootConfig
empty_root = record {
  api_version = [];
  kind = [];
  name = [];
  spec = empty_spec;
  servers = [];
  cluster = none;
  database = none;
  recording = none;
}

unfoldable pub config_read_only : Manager → Bool
config_read_only m = not (is_empty m.http_url)

abbrev root_of : Option RootConfig → RootConfig
root_of none = empty_root
root_of (some r) = r

unfoldable pub current : Manager → RootConfig
current m = root_of m.cur

abbrev default_storage : DatabaseSpec → DatabaseSpec
default_storage d =
    if is_empty (trim_space d.config_storage) then record d { config_storage = codes "yaml" } else d

-- The nil slices are the empty lists already.
unfoldable pub apply_versioned_root_defaults : RootConfig → RootConfig
unfolding trim_space
apply_versioned_root_defaults root = record root {
  database = Option.map default_storage root.database;
}

unfoldable pub users_error : List User → Option DeviceError
unfolding validate_user_devices
users_error [] = none
users_error (u ∷ us) = let more = users_error us in or_else (validate_user_devices u.devices) more

unfoldable pub validate_root : Formats → RootConfig → Option ConfigError
unfolding validate_managed_servers validate_cluster_spec validate_database_spec
    validate_recording_spec users_error validate_recording_links
validate_root f root =
    if not (f.schema_valid root)
    then some ConfigError.schema_invalid
    else or_else (Option.map bad_server (validate_managed_servers f.parse_url root.servers)) (
        or_else (Option.map bad_cluster (validate_cluster_spec root.cluster)) (
          or_else (Option.map bad_database (validate_database_spec root.database)) (
            or_else (Option.map bad_recording (validate_recording_spec f.parse_url root.recording))
              (or_else (Option.map bad_device (users_error root.spec.users))
                (Option.map bad_link (validate_recording_links root.spec))))))
