-- ===== src/Config/Recording.antt =====
-- The recording configuration (internal/config/recording_spec.go): its validation, the choice of a
-- recorder for a region, and the links of conference endpoints to users and devices.
-- `url.Parse` is the parameter `parse_url`: the scheme and the host of a text, `none` on an error.
pub mod Trunks
pub mod Selection
pub mod Regions
pub mod Links
use sipbridge.Prelude.{
  Bool, true, false, not, ◌&&◌, Option, none, some, List, [], ◌∷◌, or_else, if◌then◌else◌,
}
use sipbridge.Config.Entries.{check_entries, ids_of}
use sipbridge.Config.{UserDevice}
use sipbridge.Maps.{Map, insert, lookup}
use sipbridge.Text.Sets.{member}
use sipbridge.Text.{Text, codes, equal_fold, is_empty, text_eq, to_lower, trim_space}

pub record RecordingTrunkEntry : Type 0 where
  pub id : Text
  pub label : Text
  pub recorder_sip_uri : Text
  pub recording_trunk_sip_uri : Text

pub record SiprecIntegrationSpec : Type 0 where
  pub enabled : Bool
  pub recorder_sip_uri : Text
  pub recording_trunk_sip_uri : Text
  pub trunks : List RecordingTrunkEntry
  pub default_trunk_id : Text
  pub region_to_trunk : Map Text
  pub metadata_namespace : Text

pub record RecordingSpec : Type 0 where
  pub global_enabled : Bool
  pub siprec : Option SiprecIntegrationSpec

pub data RecordingError : Type 0 where
  blank_trunk_id duplicate_trunk_id recorder_uri_required not_a_sip_uri : RecordingError
  default_required unknown_default unknown_region_trunk : RecordingError

pub data DeviceError : Type 0 where
  blank_device_id duplicate_device_id unknown_kind : DeviceError

abbrev pub UrlParser : Type 0
UrlParser = Text → Option (Text × Text)

abbrev pub is_sip : Option (Text × Text) → Bool
is_sip none = false
is_sip (some u) = text_eq u.0 (codes "sip")

-- A blank text passes too.
unfoldable pub must_be_sip_uri : UrlParser → Text → Option RecordingError
unfolding trim_space text_eq
must_be_sip_uri parse_url raw =
    if is_empty (trim_space raw)
    then none
    else if is_sip (parse_url (trim_space raw))
    then none
    else some RecordingError.not_a_sip_uri

unfoldable pub trunk_error : UrlParser → RecordingTrunkEntry → Option RecordingError
unfolding trim_space must_be_sip_uri
trunk_error parse_url t =
    if is_empty (trim_space t.recorder_sip_uri)
    then some RecordingError.recorder_uri_required
    else or_else (must_be_sip_uri parse_url t.recorder_sip_uri)
        (must_be_sip_uri parse_url t.recording_trunk_sip_uri)

abbrev pub trunk_ids : List RecordingTrunkEntry → List Text
trunk_ids = ids_of (λ t. t.id)

-- The loop over `RegionToTrunk`.
unfoldable pub regions_error : List Text → Map Text → Option RecordingError
unfolding trim_space member
regions_error seen [] = none
regions_error seen ((region, tid) ∷ rest) =
    let more = regions_error seen rest in
    if member (trim_space tid) seen then more else some RecordingError.unknown_region_trunk

-- `default_trunk_id` and `region_to_trunk` of a spec with trunks.
unfoldable pub defaults_error : List Text → SiprecIntegrationSpec → Option RecordingError
unfolding trim_space member regions_error
defaults_error seen s =
    if is_empty (trim_space s.default_trunk_id)
    then some RecordingError.default_required
    else if not (member (trim_space s.default_trunk_id) seen)
    then some RecordingError.unknown_default
    else regions_error seen s.region_to_trunk

-- A spec without trunks.
unfoldable pub legacy_error : UrlParser → SiprecIntegrationSpec → Option RecordingError
unfolding trim_space must_be_sip_uri
legacy_error parse_url s = or_else (must_be_sip_uri parse_url s.recorder_sip_uri) (
    if is_empty (trim_space s.recorder_sip_uri)
    then some RecordingError.recorder_uri_required
    else must_be_sip_uri parse_url s.recording_trunk_sip_uri)

unfoldable pub trunks_error :
    UrlParser → SiprecIntegrationSpec → List RecordingTrunkEntry → Option RecordingError
unfolding check_entries trunk_error defaults_error legacy_error
trunks_error parse_url s [] = legacy_error parse_url s
trunks_error parse_url s (t ∷ ts) =
    or_else
      (check_entries (λ (x : RecordingTrunkEntry). x.id) RecordingError.blank_trunk_id
        RecordingError.duplicate_trunk_id (trunk_error parse_url) [] (t ∷ ts))
      (defaults_error (trunk_ids (t ∷ ts)) s)

abbrev siprec_error : UrlParser → Option SiprecIntegrationSpec → Option RecordingError
siprec_error parse_url none = none
siprec_error parse_url (some s) = if s.enabled then trunks_error parse_url s s.trunks else none

unfoldable pub validate_recording_spec : UrlParser → Option RecordingSpec → Option RecordingError
unfolding trunks_error
validate_recording_spec parse_url none = none
validate_recording_spec parse_url (some r) = siprec_error parse_url r.siprec

-- `byID`: a later trunk replaces an earlier one of the same id.
unfoldable pub by_id : Map RecordingTrunkEntry → List RecordingTrunkEntry → Map RecordingTrunkEntry
unfolding trim_space insert
by_id m [] = m
by_id m (t ∷ ts) = by_id (if is_empty (trim_space t.id) then m else insert (trim_space t.id) t m) ts

abbrev pub trunk_at : Map RecordingTrunkEntry → Option Text → Option RecordingTrunkEntry
trunk_at m none = none
trunk_at m (some tid) = lookup (trim_space tid) m

-- The loop over `RegionToTrunk` that ignores the case of the label.
unfoldable pub any_case : Map RecordingTrunkEntry → Text → Map Text → Option RecordingTrunkEntry
unfolding trim_space equal_fold lookup
any_case m region [] = none
any_case m region ((k, tid) ∷ rest) =
    let more = any_case m region rest in
    if equal_fold (trim_space k) region then or_else (lookup (trim_space tid) m) more else more

unfoldable pub for_region :
    Map RecordingTrunkEntry → SiprecIntegrationSpec → Text → Option RecordingTrunkEntry
unfolding lookup any_case
for_region m s region =
    if is_empty region
    then none
    else or_else (trunk_at m (lookup region s.region_to_trunk))
        (any_case m region s.region_to_trunk)

unfoldable pub default_trunk :
    Map RecordingTrunkEntry → SiprecIntegrationSpec → Option RecordingTrunkEntry
unfolding lookup trim_space
default_trunk m s =
    if is_empty (trim_space s.default_trunk_id)
    then none
    else lookup (trim_space s.default_trunk_id) m

unfoldable pub legacy_trunk : SiprecIntegrationSpec → Option RecordingTrunkEntry
unfolding trim_space
legacy_trunk s =
    if is_empty (trim_space s.recorder_sip_uri)
    then none
    else some record {
      id = codes "legacy";
      label = [];
      recorder_sip_uri = trim_space s.recorder_sip_uri;
      recording_trunk_sip_uri = trim_space s.recording_trunk_sip_uri;
    }

unfoldable pub choose_trunk :
    SiprecIntegrationSpec → Text → List RecordingTrunkEntry → Option RecordingTrunkEntry
unfolding by_id for_region default_trunk legacy_trunk
choose_trunk s region [] = legacy_trunk s
choose_trunk s region (t ∷ ts) =
    or_else (for_region (by_id [] (t ∷ ts)) s region)
      (or_else (default_trunk (by_id [] (t ∷ ts)) s) (some t))

unfoldable pub select_recording_trunk_for_region :
    Option SiprecIntegrationSpec → Text → Option RecordingTrunkEntry
unfolding choose_trunk trim_space
select_recording_trunk_for_region none region = none
select_recording_trunk_for_region (some s) region =
    if s.enabled then choose_trunk s (trim_space region) s.trunks else none

abbrev device_kinds : List Text
device_kinds = codes "ddi" ∷ codes "mobile" ∷ codes "private_wire" ∷ [] ∷ []

abbrev pub kind_error : UserDevice → Option DeviceError
kind_error d =
    if member (to_lower (trim_space d.kind)) device_kinds
    then none
    else some DeviceError.unknown_kind

unfoldable pub validate_user_devices : List UserDevice → Option DeviceError
unfolding check_entries member to_lower trim_space text_eq
validate_user_devices devices =
    check_entries (λ (d : UserDevice). d.id) DeviceError.blank_device_id
      DeviceError.duplicate_device_id kind_error [] devices
