-- ===== src/Tests/Settings.antt =====
-- Runs of the validators and of the manager of the configuration.
use sipbridge.Config.Entries.{ids_of}
use sipbridge.Config.Manager.Apply.{Applied, Refused, apply_yaml-cases, apply_yaml-validate_yaml}
use sipbridge.Config.Manager.Live.{Live, run_manager-Live}
use sipbridge.Config.Manager.Loading.{apply, apply_yaml, poll, reload, run_manager, validate_yaml}
use sipbridge.Config.Manager.{RootConfig, config_read_only, empty_spec, ok}
use sipbridge.Config.Recording.Links.{LinkError, validate_recording_links}
use sipbridge.Config.Recording.Links.Laws.{GroupLinked, validate_recording_links_iff}
use sipbridge.Config.Recording.Regions.{select_recording_trunk_for_region-listed}
use sipbridge.Config.Recording.Selection.{Reachable, select_recording_trunk_for_region-Reachable}
use sipbridge.Config.Recording.{
  RecordingSpec, RecordingTrunkEntry, SiprecIntegrationSpec, UrlParser,
  select_recording_trunk_for_region, validate_recording_spec,
}
use sipbridge.Config.Servers.{
  ManagedServer, Usable, validate_managed_servers, validate_managed_servers-Usable,
}
use sipbridge.Config.{ConferenceGroup, Endpoint, Spec}
use sipbridge.Maps.{lookup}
use sipbridge.Prelude.{◌≡◌, refl, ◌↔◌, ◌⊎◌, pos, true, false, none, some, [], ◌∷◌, All}
use sipbridge.Tests.Documents.{toy_format}
use sipbridge.Tests.Users.{healthy, staff, three}
use sipbridge.Text.Sets.{distinct}
use sipbridge.Text.{Text, codes, cut, trim_space}

-- A URL is a scheme, a colon and the rest.
split_url : UrlParser
unfolding cut
split_url u = cut b':' u

abbrev emea : RecordingTrunkEntry
emea = record {
  id = codes "emea";
  label = [];
  recorder_sip_uri = codes "sip:rec@emea";
  recording_trunk_sip_uri = [];
}

abbrev us : RecordingTrunkEntry
us = record {
  id = codes " us ";
  label = [];
  recorder_sip_uri = codes "sip:rec@us";
  recording_trunk_sip_uri = [];
}

abbrev siprec : SiprecIntegrationSpec
siprec = record {
  enabled = true;
  recorder_sip_uri = [];
  recording_trunk_sip_uri = [];
  trunks = emea ∷ us ∷ [];
  default_trunk_id = codes "emea";
  region_to_trunk = (codes "NY", codes "us") ∷ [];
  metadata_namespace = [];
}

abbrev recording : RecordingSpec
recording = record { global_enabled = true; siprec = some siprec }

select_recording_trunk_for_region-Reachable_example :
    (t : RecordingTrunkEntry) × (select_recording_trunk_for_region (some siprec) (codes "Tokyo")
      ≡ some t)
    × Reachable split_url t
unfolding validate_recording_spec split_url
select_recording_trunk_for_region-Reachable_example =
    select_recording_trunk_for_region-Reachable split_url recording siprec (codes "Tokyo") refl refl
      refl

select_recording_trunk_for_region-listed_example :
    (u : RecordingTrunkEntry) × (select_recording_trunk_for_region (some siprec) (codes " NY ")
      ≡ some u)
    × (trim_space u.id ≡ trim_space (codes "us"))
unfolding validate_recording_spec split_url lookup trim_space
select_recording_trunk_for_region-listed_example =
    select_recording_trunk_for_region-listed split_url recording siprec emea (us ∷ [])
      (codes " NY ") (codes "us") refl refl refl refl refl refl

-- The label is matched in any case; an unknown region has the default trunk.
any_case_region : select_recording_trunk_for_region (some siprec) (codes "ny") ≡ some us
unfolding select_recording_trunk_for_region
any_case_region = refl

default_region : select_recording_trunk_for_region (some siprec) (codes "Tokyo") ≡ some emea
unfolding select_recording_trunk_for_region
default_region = refl

abbrev peer : ManagedServer
peer = record {
  id = codes "a";
  name = codes "A";
  api_base_url = codes "https:a";
  region = [];
  tls_skip_verify = false;
  sip_ingress_uri = [];
  interconnect_sip_uri = codes "sip:a";
  capacity_weight = pos 100;
}

validate_managed_servers-Usable_example :
    (distinct (ids_of (λ s. s.id) (peer ∷ record peer { id = codes "b" } ∷ [])) ≡ true)
    × All (Usable split_url) (peer ∷ record peer { id = codes "b" } ∷ [])
unfolding validate_managed_servers split_url
validate_managed_servers-Usable_example =
    validate_managed_servers-Usable split_url (peer ∷ record peer { id = codes "b" } ∷ []) refl

abbrev linked : Endpoint
linked = record {
  id = codes "e";
  display_name = [];
  sip_uri = [];
  location = [];
  linked_user_id = codes "ann";
  linked_device_id = [];
  line_label = [];
}

abbrev group : ConferenceGroup
group = record {
  id = codes "g";
  name = [];
  type = [];
  ring_timeout_seconds = pos 0;
  winner_keep_ringing_seconds = pos 0;
  ddi_access_enabled = false;
  ddi_access_number = [];
  side_a = linked ∷ [];
  side_b = [];
  line_label = [];
  recording_enabled = none;
  iptv_source_ids = [];
}

abbrev linking : Spec
linking = record empty_spec { users = three; conference_groups = group ∷ [] }

validate_recording_links_iff_example :
    (validate_recording_links linking ≡ none) ↔ All (GroupLinked three) (group ∷ [])
validate_recording_links_iff_example = validate_recording_links_iff linking

-- Ann is found; without her the link is refused.
ann_linked : validate_recording_links linking ≡ none
unfolding validate_recording_links
ann_linked = refl

ann_missing :
    validate_recording_links (record linking { users = [] }) ≡ some LinkError.user_not_found
unfolding validate_recording_links
ann_missing = refl

-- The document of a configuration without users.
abbrev bare : Text
bare = 0 ∷ 2 ∷ 1 ∷ codes "v1k"

apply_yaml-cases_example :
    Applied toy_format bare (apply_yaml toy_format healthy bare staff)
    ⊎ Refused toy_format staff (apply_yaml toy_format healthy bare staff)
apply_yaml-cases_example = apply_yaml-cases toy_format healthy bare staff

apply_yaml-validate_yaml_example :
    (validate_yaml toy_format bare ≡ none)
    ↔ ((root : RootConfig) × ((apply_yaml toy_format healthy bare staff).1 ≡ ok root))
unfolding config_read_only
apply_yaml-validate_yaml_example =
    apply_yaml-validate_yaml toy_format healthy bare staff refl refl refl

bare_valid : validate_yaml toy_format bare ≡ none
unfolding validate_yaml toy_format
bare_valid = refl

run_manager-Live_example : Live toy_format (
    run_manager toy_format
      (apply healthy bare ∷ reload none ∷ poll (some (200, bare)) ∷ [])
      (record staff { cur = none }))
run_manager-Live_example =
    run_manager-Live toy_format (apply healthy bare ∷ reload none ∷ poll (some (200, bare)) ∷ [])
      (record staff { cur = none }) refl
