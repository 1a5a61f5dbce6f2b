-- ===== src/Sip/Server/Ivr/Ring.antt =====
-- `ivrStartConferenceGroupFanout` of server.go: a caller in the IVR rings a conference group.
use sipbridge.Config.{ConferenceGroup, Endpoint, Spec}
use sipbridge.Maps.{insert, is_some, lookup}
use sipbridge.Prelude.{
  ℕ, suc, false, Option, none, some, List, [], ◌∷◌, ◌++◌, length, if◌then◌else◌,
}
use sipbridge.Sip.Address.{header_user}
use sipbridge.Sip.Identity.{conference_group_by_id}
use sipbridge.Sip.Ring.Preference.{preferred_region_for_conference_caller}
use sipbridge.Sip.Ring.Region.{sort_endpoints_by_preferred_region}
use sipbridge.Sip.Ring.{is_hoot_group}
use sipbridge.Sip.Server.Invite.Dispatch.{timeout_or_default}
use sipbridge.Sip.Server.Invite.{Emitted, emitted_leg}
use sipbridge.Sip.Server.Keys.{ivrconf_prefix}
use sipbridge.Sip.Server.{
  IvrConf, IvrSession, Server, Step, ◌⨟◌, quiet, send_invite, start_ring_timer,
}
use sipbridge.Text.{Text, codes, is_empty, text_eq, trim_space}

-- The clock, and for each endpoint the media socket and what `emitOutboundInvite` made of it.
pub record FanoutEnv : Type 0 where
  pub now : ℕ
  pub emit : ℕ → Endpoint → Option (Emitted × ℕ)

abbrev side_or_a : Text → Text
side_or_a side = if is_empty side then codes "A" else side

-- A HOOT group rings everybody, any other group the side that the caller is not on.
unfoldable pub ivr_ring : Text → ConferenceGroup → List Endpoint
unfolding is_hoot_group text_eq
ivr_ring side g =
    if is_hoot_group g
    then g.side_a ++ g.side_b
    else if text_eq side (codes "A")
    then g.side_b
    else g.side_a

abbrev ivr_preference : Spec → ConferenceGroup → IvrSession → Text
ivr_preference cfg g iv =
    let pref = trim_space iv.preferred_region in
    if is_empty pref
    then preferred_region_for_conference_caller cfg g (header_user iv.from_header)
    else pref

abbrev new_conf : FanoutEnv → Text → Text → ConferenceGroup → Text → IvrConf
new_conf env key group_id g side = record {
  key = ivrconf_prefix ++ key;
  ivr_key = key;
  group_id = group_id;
  caller_side = side;
  created_at = env.now;
  ring_timeout = timeout_or_default g.ring_timeout_seconds;
  legs = [];
  winner_call_id = [];
  terminated = false;
  cap = none;
}

-- An entry that is there is used again as it is.
abbrev pub ensure_conf : Text → IvrConf → Server → Server
ensure_conf fan_key fresh s =
    if is_some (lookup fan_key s.ivr_conf_sessions)
    then s
    else record s { ivr_conf_sessions = insert fan_key fresh s.ivr_conf_sessions }

abbrev pub add_conf_leg : ℕ → Text → Option IvrConf → Server → Server
add_conf_leg a fan_key none s = s
add_conf_leg a fan_key (some fs) s = record s {
  ivr_conf_sessions = insert fan_key (record fs { legs = fs.legs ++ a ∷ [] }) s.ivr_conf_sessions;
}

abbrev pub attach_conf_leg : Text → Option (Emitted × ℕ) → Server → Step
attach_conf_leg fan_key none s = quiet s
attach_conf_leg fan_key (some (out, port)) s =
    let leg = record (emitted_leg fan_key out) { rtp = some port } in
    let a = length s.legs in
    let t = add_conf_leg a fan_key (lookup fan_key s.ivr_conf_sessions) s in
    (
      record t {
        legs = s.legs ++ leg ∷ [];
        legs_by_call_id = insert leg.call_id a s.legs_by_call_id;
      },
      send_invite leg ∷ [],
    )

-- The loop over the ring; `i` counts the endpoints. One with a blank URI is skipped.
unfoldable pub ring_conf : FanoutEnv → Text → ℕ → List Endpoint → Server → Step
unfolding lookup insert trim_space
ring_conf env fan_key i [] s = quiet s
ring_conf env fan_key i (ep ∷ eps) s =
    attach_conf_leg fan_key (if is_empty (trim_space ep.sip_uri) then none else env.emit i ep) s
    ⨟ ring_conf env fan_key (suc i) eps

abbrev pub start_ring : FanoutEnv → Text → IvrConf → List Endpoint → Server → Step
start_ring env fan_key fresh [] s = quiet s
start_ring env fan_key fresh (ep ∷ eps) s =
    (ensure_conf fan_key fresh s, start_ring_timer fan_key fresh.ring_timeout ∷ [])
    ⨟ ring_conf env fan_key 0 (ep ∷ eps)

abbrev pub ring_group :
    FanoutEnv → Spec → Text → IvrSession → Text → Option ConferenceGroup → Server → Step
ring_group env cfg key iv group_id none s = quiet s
ring_group env cfg key iv group_id (some g) s =
    let side = side_or_a (trim_space iv.conference_caller_side) in
    start_ring env (ivrconf_prefix ++ key) (new_conf env key group_id g side)
      (sort_endpoints_by_preferred_region (ivr_preference cfg g iv) (ivr_ring side g)) s

unfoldable pub ivr_start_conference_group_fanout :
    FanoutEnv → Spec → Text → IvrSession → Server → Step
unfolding lookup insert trim_space conference_group_by_id ivr_ring ring_conf
    sort_endpoints_by_preferred_region preferred_region_for_conference_caller
ivr_start_conference_group_fanout env cfg key iv s =
    let group_id = trim_space iv.conference_group_id in
    if is_empty group_id
    then quiet s
    else ring_group env cfg key iv group_id (conference_group_by_id cfg group_id) s
