-- ===== src/Sip/Server/Invite.antt =====
-- The INVITE case of `Start` in internal/sip/server.go, for an INVITE without a To tag, with
-- `answerARDJoinInbound` (conference_ard.go) and the early registrations of siprec_ctrl.go.
--
-- The outside is in `InviteEnv`: the clock, the caller's media socket with whether telephone events
-- were offered, the capture file, and for each rung endpoint what `emitOutboundInvite` returned.
pub mod Dispatch
pub mod Leak
pub mod Growth
pub mod Bound
use sipbridge.Config.Cluster.{ClusterLimits}
use sipbridge.Config.{Bridge, ConferenceGroup, Endpoint, HootGroup, Spec}
use sipbridge.Maps.{lookup, insert, is_some}
use sipbridge.Prelude.{
  ℕ, suc, ◌+◌, ℤ, pos, negsuc, Bool, true, false, not, ◌&&◌, ◌||◌, Option, none, some, List, [],
  ◌∷◌, ◌++◌, find?, length, if◌then◌else◌, ltb,
}
use sipbridge.Sip.Address.{
  header_user, ensure_to_tag_with_value, extract_tag, extract_uri_from_address_header,
  extract_user_from_uri,
}
use sipbridge.Sip.Identity.{
  allow_siprec, bridge_by_id, bridge_line_label_for_from, conference_group_by_id,
  conference_invite_participant_labels,
}
use sipbridge.Sip.Message.{Message, header}
use sipbridge.Sip.Ring.Preference.{
  preferred_region_for_bridge_caller, preferred_region_for_conference_caller,
}
use sipbridge.Sip.Ring.Region.{sort_endpoints_by_preferred_region}
use sipbridge.Sip.Ring.{
  bridge_ring, build_hoot_ring_endpoints, conference_ring, is_ard_group, synthetic_ard_bridge_id,
}
use sipbridge.Sip.Router.{InviteTarget, match_invite}
use sipbridge.Sip.Server.Bridges.{find_call, put_call, room}
use sipbridge.Sip.Server.Capacity.{try_reject_invite_for_capacity}
use sipbridge.Sip.Server.Fanout.{Env, inbound_call}
use sipbridge.Sip.Server.Keys.{call_id_of, from_tag_of, dialog_key, key_of}
use sipbridge.Sip.Server.{
  BridgeCall, IvrSession, collect_bridge, Leg, Rejection, Session, TargetKind, Server, Effect, Step,
  ◌⨟◌, quiet, reply, send_invite, start_ring_timer, start_siprec_for_bridge, reject_for_capacity,
}
use sipbridge.Text.{Text, codes, trim_space, is_empty}

-- What `emitOutboundInvite` made of a target.
pub record Emitted : Type 0 where
  pub target : Text
  pub call_id : Text
  pub branch : Text
  pub from_tag : Text
  pub trunk_id : Text
  pub has_conn : Bool

pub record InviteEnv : Type 0 where
  pub now : ℕ
  pub caller_rtp : Option ℕ
  pub telephone_event : Bool
  pub capture : Option ℕ
  pub emit : ℕ → Endpoint → Option Emitted

-- A session as it is created.
abbrev pub new_session :
    InviteEnv → ℕ → Message → Text → TargetKind → Text → Text → Bool → ℕ → Session
new_session env peer msg key kind bridge_id group_id ard timeout = record {
  key = key;
  inbound_invite = msg;
  inbound_remote = peer;
  created_at = env.now;
  target_kind = kind;
  bridge_id = bridge_id;
  conference_group_id = group_id;
  conference_ard = ard;
  ring_timeout = timeout;
  legs = [];
  winner_call_id = [];
  terminated = false;
}

-- The inbound caller as a call of `bridge_id`, with no media yet.
abbrev pub silent_call : InviteEnv → Session → Text → Text × Text → Text → BridgeCall
silent_call env sess bridge_id who label =
    inbound_call (record { now = env.now; media = none }) sess bridge_id who label none

abbrev pub enter : Text → Text → BridgeCall → Server → Step
enter bridge_id key bc s = (put_call bridge_id key bc s, start_siprec_for_bridge bridge_id key ∷ [])

abbrev early_group : InviteEnv → Spec → Session → Text → Option ConferenceGroup → Server → Step
early_group env cfg sess gid none s = quiet s
early_group env cfg sess gid (some g) s =
    let who =
      conference_invite_participant_labels cfg g (header sess.inbound_invite (codes "from")) in
    if allow_siprec cfg g who.0
    then enter (synthetic_ard_bridge_id gid) sess.key
        (silent_call env sess (synthetic_ard_bridge_id gid) who (trim_space g.line_label)) s
    else quiet s

-- `startSIPRECForConferenceFanoutEarly`: the caller is filed in the room of the group.
unfoldable pub start_siprec_for_conference_fanout_early : InviteEnv → Spec → Session → Server → Step
unfolding trim_space conference_group_by_id allow_siprec synthetic_ard_bridge_id put_call
    inbound_call
start_siprec_for_conference_fanout_early env cfg sess s =
    let gid = trim_space sess.conference_group_id in
    if is_empty gid
    then quiet s
    else early_group env cfg sess gid (conference_group_by_id cfg gid) s

-- `startSIPRECForBridgeFanoutEarly`
unfoldable pub start_siprec_for_bridge_fanout_early : InviteEnv → Spec → Session → Server → Step
unfolding trim_space bridge_by_id bridge_line_label_for_from put_call inbound_call
start_siprec_for_bridge_fanout_early env cfg sess s =
    let bid = trim_space sess.bridge_id in
    if is_empty bid || not (is_some (bridge_by_id cfg bid))
    then quiet s
    else enter bid sess.key
        (silent_call env sess bid ([], [])
          (bridge_line_label_for_from cfg bid (header sess.inbound_invite (codes "from"))))
        s

abbrev pub emitted_leg : Text → Emitted → Leg
emitted_leg key out = record {
  session_key = key;
  target_uri = out.target;
  call_id = out.call_id;
  branch = out.branch;
  from_tag = out.from_tag;
  to_header = [];
  siprec_bye_uri = [];
  has_conn = out.has_conn;
  rtp = none;
  final_status = pos 0;
}

abbrev add_leg : ℕ → Text → Option Session → Server → Server
add_leg a key none s = s
add_leg a key (some sess) s = record s {
  sessions = insert key (record sess { legs = sess.legs ++ a ∷ [] }) s.sessions;
}

-- A sent leg joins its session and `legsByCallID`.
unfoldable pub attach_leg : Text → Leg → Server → Step
unfolding lookup insert
attach_leg key leg s =
    let a = length s.legs in
    let t = add_leg a key (lookup key s.sessions) s in
    (
      record t {
        legs = s.legs ++ leg ∷ [];
        legs_by_call_id = insert leg.call_id a s.legs_by_call_id;
      },
      send_invite leg ∷ [],
    )

abbrev attach_emitted : Text → Option Emitted → Server → Step
attach_emitted key none s = quiet s
attach_emitted key (some out) s = attach_leg key (emitted_leg key out) s

-- The loop over the ring; `i` counts the endpoints. One without a URI is skipped.
unfoldable pub ring_all : InviteEnv → Text → ℕ → List Endpoint → Server → Step
unfolding attach_leg
ring_all env key i [] s = quiet s
ring_all env key i (ep ∷ eps) s =
    attach_emitted key (if is_empty ep.sip_uri then none else env.emit i ep) s
    ⨟ ring_all env key (suc i) eps

abbrev early_siprec : InviteEnv → Spec → Session → Server → Step
early_siprec env cfg sess s = elim sess.target_kind [
  | TargetKind.conference_group ↦ start_siprec_for_conference_fanout_early env cfg sess s
  | TargetKind.bridge ↦ start_siprec_for_bridge_fanout_early env cfg sess s
  | TargetKind.hoot_group ↦ quiet s
]

-- The session is filed and its ring is started; a caller who is being rung for already gets 486.
unfoldable pub open_session : InviteEnv → Spec → Session → List Endpoint → Server → Step
unfolding lookup insert ring_all start_siprec_for_conference_fanout_early
    start_siprec_for_bridge_fanout_early
open_session env cfg sess ring s =
    if is_some (lookup sess.key s.sessions)
    then (s, reply sess.inbound_remote sess.inbound_invite 486 ∷ [])
    else quiet (record s { sessions = insert sess.key sess s.sessions })
      ⨟ early_siprec env cfg sess
      ⨟ ring_all env sess.key 0 ring
      ⨟ λ t. (
        t,
        reply sess.inbound_remote sess.inbound_invite 180
            ∷ start_ring_timer sess.key sess.ring_timeout
            ∷ [],
      )

-- `ardEstablishedParticipantCount`
unfoldable pub ard_established_participant_count : Text → Server → ℕ
unfolding trim_space lookup synthetic_ard_bridge_id
ard_established_participant_count group_id s =
    if is_empty (trim_space group_id)
    then 0
    else length (room (lookup (synthetic_ard_bridge_id group_id) s.bridge_calls))

abbrev group_labels : Spec → Option ConferenceGroup → Text → (Text × Text) × Text
group_labels cfg none from_header = (([], []), [])
group_labels cfg (some g) from_header =
    (conference_invite_participant_labels cfg g from_header, trim_space g.line_label)

-- `answerARDJoinInbound`: 200 at once, and the caller enters the room of the group.
unfoldable pub answer_ard_join_inbound :
    InviteEnv → Spec → ℕ → Message → Text → Text → Server → Step
unfolding put_call synthetic_ard_bridge_id conference_group_by_id inbound_call
answer_ard_join_inbound env cfg peer msg key gid s =
    let bid = synthetic_ard_bridge_id gid in
    let (who, label) =
      group_labels cfg (conference_group_by_id cfg gid) (header msg (codes "from")) in
    let sess = new_session env peer msg key TargetKind.conference_group [] gid true 0 in
    (s, reply peer msg 200 ∷ [])
    ⨟ enter bid key (record (silent_call env sess bid who label) { rtp = env.caller_rtp })

-- A caller of an established line joins it, unless the same dialog is already on it.
unfoldable pub join_ard : InviteEnv → Spec → ℕ → Message → Text → Text → Server → Step
unfolding find_call lookup synthetic_ard_bridge_id answer_ard_join_inbound
join_ard env cfg peer msg key gid s =
    if is_some (lookup key s.sessions) || is_some (find_call (synthetic_ard_bridge_id gid) key s)
    then (s, reply peer msg 486 ∷ [])
    else answer_ard_join_inbound env cfg peer msg key gid s
