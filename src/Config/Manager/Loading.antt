-- ===== src/Config/Manager/Loading.antt =====
-- The ways in which the live configuration is replaced: a document that is applied, the local file
-- and the address it is fetched from (internal/config/manager.go; `LoadAppConfig` of appconfig.go).
use sipbridge.Prelude.{
  ℕ, Bool, true, false, ◌&&◌, ◌||◌, ◌==◌, not, Option, none, some, List, [], ◌∷◌, map,
  if◌then◌else◌,
}
use sipbridge.Config.Manager.{
  ConfigError, Formats, Legacy, Loaded, Manager, RootConfig, apply_versioned_root_defaults,
  config_read_only, current, empty_spec, failed, ok, validate_root,
}
use sipbridge.Config.{Route}
use sipbridge.Text.{Text, codes, is_empty, text_eq}

-- What the file system answers to one `writeFileAtomic`: whether the temporary file is written (and
-- what is left of it if not), whether the target and the temporary file can be removed, and whether
-- the rename succeeds.
pub record Disk : Type 0 where
  pub written : Bool
  pub left : Option Text
  pub removes : Bool
  pub removes_temp : Bool
  pub renames : Bool

abbrev removed : Bool → Option Text → Option Text
removed gone content = if gone then none else content

-- `true` when there is no error.
unfoldable pub write_file_atomic : Disk → Text → Manager → Manager × Bool
write_file_atomic d bytes m =
    if not d.written
    then (record m { temp = d.left }, false)
    else if d.renames
    then (record m { file = some bytes; temp = none }, true)
    else (
      record m { file = removed d.removes m.file; temp = removed d.removes_temp (some bytes) },
      false,
    )

unfoldable pub versioned : RootConfig → Bool
versioned root = not (is_empty root.api_version || is_empty root.kind)

-- The end of `ApplyYAML`.
abbrev activated : RootConfig → Manager × Bool → Manager × Loaded
activated root (m, true) = (record m { cur = some root }, ok root)
activated root (m, false) = (m, failed ConfigError.write_failed)

abbrev pub persisted : Disk → Text → Manager → RootConfig → Option ConfigError → Manager × Loaded
persisted d bytes m root (some e) = (m, failed e)
persisted d bytes m root none = activated root (write_file_atomic d bytes m)

abbrev applied : Formats → Disk → Text → Manager → Option RootConfig → Manager × Loaded
applied f d bytes m none = (m, failed ConfigError.bad_yaml)
applied f d bytes m (some root) =
    if not (versioned root)
    then (m, failed ConfigError.not_versioned)
    else persisted d bytes m (apply_versioned_root_defaults root)
        (validate_root f (apply_versioned_root_defaults root))

unfoldable pub apply_yaml : Formats → Disk → Text → Manager → Manager × Loaded
unfolding config_read_only write_file_atomic versioned apply_versioned_root_defaults
apply_yaml f d bytes m =
    if config_read_only m
    then (m, failed ConfigError.read_only)
    else applied f d bytes m (f.unmarshal bytes)

abbrev yaml_error : Formats → Option RootConfig → Option ConfigError
yaml_error f none = some ConfigError.bad_yaml
yaml_error f (some root) =
    if not (versioned root)
    then some ConfigError.not_versioned
    else validate_root f (apply_versioned_root_defaults root)

unfoldable pub validate_yaml : Formats → Text → Option ConfigError
unfolding versioned apply_versioned_root_defaults validate_root
validate_yaml f bytes = yaml_error f (f.unmarshal bytes)

abbrev parsed : Option RootConfig → Loaded
parsed none = failed ConfigError.bad_yaml
parsed (some root) =
    if not (versioned root)
    then failed ConfigError.not_versioned
    else ok (apply_versioned_root_defaults root)

unfoldable pub parse_root_yaml : Formats → Text → Loaded
unfolding versioned apply_versioned_root_defaults
parse_root_yaml f bytes = parsed (f.unmarshal bytes)

abbrev legacy_route : Text × Text → Route
legacy_route r = record { match_user = r.0; target_kind = codes "bridge"; target_id = r.1 }

unfoldable pub root_of_legacy : Legacy → RootConfig
root_of_legacy l = record {
  api_version = codes "sipbridge.io/v1alpha1";
  kind = codes "SIPBridgeConfig";
  name = codes "legacy";
  spec = record empty_spec { routes = map legacy_route l.routes; bridges = l.bridges };
  servers = [];
  cluster = none;
  database = none;
  recording = none;
}

abbrev legacy_loaded : Option Legacy → Loaded
legacy_loaded none = failed ConfigError.bad_yaml
legacy_loaded (some l) = ok (apply_versioned_root_defaults (root_of_legacy l))

-- A document that does not parse, or has neither a version nor a kind, is read as a legacy one.
abbrev loaded_as : Option RootConfig → Option Legacy → Loaded
loaded_as none legacy = legacy_loaded legacy
loaded_as (some root) legacy =
    if is_empty root.api_version && is_empty root.kind
    then legacy_loaded legacy
    else ok (apply_versioned_root_defaults root)

abbrev content_loaded : Formats → Option Text → Loaded
content_loaded f none = failed ConfigError.unreadable
content_loaded f (some bytes) = loaded_as (f.unmarshal bytes) (f.unmarshal_legacy bytes)

-- The argument is the content of the file, `none` when it cannot be read.
unfoldable pub load_app_config : Formats → Option Text → Loaded
unfolding apply_versioned_root_defaults root_of_legacy
load_app_config f content = content_loaded f content

abbrev stored : Manager → RootConfig → Option ConfigError → Manager × Loaded
stored m root (some e) = (m, failed e)
stored m root none = (record m { cur = some root }, ok root)

-- Validation of what was read, and its activation.
abbrev pub accept : Formats → Manager → Loaded → Manager × Loaded
accept f m (failed e) = (m, failed e)
accept f m (ok root) = stored m root (validate_root f root)

-- What the server answers to the GET: `none` when there is no answer or no body.
abbrev pub Answer : Type 0
Answer = Option (ℕ × Text)

abbrev pub remember : Text → Manager × Loaded → Manager × Loaded
remember hash (m, ok root) = (record m { last_http_hash = hash }, ok root)
remember hash (m, failed e) = (m, failed e)

abbrev fetched : Formats → Text → Manager → Answer → Manager × Loaded
fetched f reason m none = (m, failed ConfigError.unreadable)
fetched f reason m (some (status, body)) =
    if not (status == 200)
    then (m, failed ConfigError.unreadable)
    else if text_eq (f.sha256 body) m.last_http_hash && text_eq reason (codes "poll")
    then (m, ok (current m))
    else remember (f.sha256 body) (accept f m (parse_root_yaml f body))

unfoldable pub load_from_http : Formats → Text → Answer → Manager → Manager × Loaded
unfolding text_eq current parse_root_yaml validate_root
load_from_http f reason answer m = fetched f reason m answer

unfoldable pub load_from_file : Formats → Answer → Manager → Manager × Loaded
unfolding load_from_http load_app_config validate_root
load_from_file f answer m =
    if not (is_empty m.http_url)
    then load_from_http f (codes "startup") answer m
    else accept f m (load_app_config f m.file)

-- What can happen to the live configuration once the manager exists.
pub data ManagerEvent : Type 0 where
  apply : Disk → Text → ManagerEvent
  reload poll : Answer → ManagerEvent

unfoldable pub step_manager : Formats → ManagerEvent → Manager → Manager
unfolding apply_yaml load_from_file load_from_http
step_manager f (apply d bytes) m = (apply_yaml f d bytes m).0
step_manager f (reload answer) m = (load_from_file f answer m).0
step_manager f (poll answer) m = (load_from_http f (codes "poll") answer m).0

unfoldable pub run_manager : Formats → List ManagerEvent → Manager → Manager
unfolding step_manager
run_manager f [] m = m
run_manager f (ev ∷ rest) m = run_manager f rest (step_manager f ev m)
