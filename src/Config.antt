-- ===== src/Config.antt =====
-- The declarative configuration (internal/config/appconfig.go, recording_spec.go, trunk_spec.go):
-- the records that the SIP core reads. A nil slice and an empty one are the same list.
pub mod Cluster
pub mod Entries
pub mod Recording
pub mod Servers
pub mod Database
pub mod Manager
use sipbridge.Prelude.{ℤ, Bool, List, Option}
use sipbridge.Maps.{Map}
use sipbridge.Text.{Text}

pub record Route : Type 0 where
  pub match_user : Text
  pub target_kind : Text
  pub target_id : Text

pub record Participant : Type 0 where
  pub id : Text
  pub display_name : Text
  pub sip_uri : Text
  pub pair_id : Text
  pub end : Text
  pub role : Text
  pub location : Text
  pub line_label : Text

pub record Bridge : Type 0 where
  pub id : Text
  pub name : Text
  pub type : Text
  pub ring_timeout_seconds : ℤ
  pub ddi_access_enabled : Bool
  pub ddi_access_number : Text
  pub participants : List Participant
  pub line_label : Text
  pub recording_enabled : Option Bool

pub record UserDevice : Type 0 where
  pub id : Text
  pub kind : Text
  pub address : Text
  pub cti : Map Text

pub record User : Type 0 where
  pub id : Text
  pub display_name : Text
  pub participant_id : Text
  pub region : Text
  pub allowed_bridge_ids : List Text
  pub allowed_conference_group_ids : List Text
  pub recording_opt_in : Bool
  pub devices : List UserDevice

pub record Endpoint : Type 0 where
  pub id : Text
  pub display_name : Text
  pub sip_uri : Text
  pub location : Text
  pub linked_user_id : Text
  pub linked_device_id : Text
  pub line_label : Text

pub record ConferenceGroup : Type 0 where
  pub id : Text
  pub name : Text
  pub type : Text
  pub ring_timeout_seconds : ℤ
  pub winner_keep_ringing_seconds : ℤ
  pub ddi_access_enabled : Bool
  pub ddi_access_number : Text
  pub side_a : List Endpoint
  pub side_b : List Endpoint
  pub line_label : Text
  pub recording_enabled : Option Bool
  pub iptv_source_ids : List Text

pub record HootGroup : Type 0 where
  pub id : Text
  pub name : Text
  pub ring_timeout_seconds : ℤ
  pub ddi_access_enabled : Bool
  pub ddi_access_number : Text
  pub recording_enabled : Option Bool
  pub talkers : List Endpoint
  pub listeners : List Endpoint

-- `Spec` as far as the SIP core reads it; `entry_user` is `Spec.IVR.EntryUser`.
pub record Spec : Type 0 where
  pub routes : List Route
  pub bridges : List Bridge
  pub conference_groups : List ConferenceGroup
  pub hoot_groups : List HootGroup
  pub users : List User
  pub entry_user : Text
