-- ===== src/Sip/Server/Invite/Dispatch.antt =====
-- The INVITE case of `Start` from the first check to the ring: who is rejected, who joins a room at
-- once, who enters the IVR, and whose call is fanned out.
use sipbridge.Config.Cluster.{ClusterLimits}
use sipbridge.Config.{Bridge, ConferenceGroup, Endpoint, HootGroup, Spec}
use sipbridge.Maps.{insert, is_some}
use sipbridge.Prelude.{
  ℕ, ℤ, pos, negsuc, false, ◌&&◌, Option, none, some, List, [], ◌∷◌, ltb, if◌then◌else◌,
}
use sipbridge.Sip.Address.{header_user, ensure_to_tag_with_value, extract_uri_from_address_header}
use sipbridge.Sip.Identity.{bridge_line_label_for_from}
use sipbridge.Sip.Message.{Message, header}
use sipbridge.Sip.Ring.Preference.{
  preferred_region_for_bridge_caller, preferred_region_for_conference_caller,
}
use sipbridge.Sip.Ring.Region.{sort_endpoints_by_preferred_region}
use sipbridge.Sip.Ring.{bridge_ring, build_hoot_ring_endpoints, conference_ring, is_ard_group}
use sipbridge.Sip.Router.{InviteTarget, match_invite}
use sipbridge.Sip.Server.Bridges.{put_call}
use sipbridge.Sip.Server.Capacity.{try_reject_invite_for_capacity}
use sipbridge.Sip.Server.Invite.{
  InviteEnv, new_session, silent_call, enter, open_session, ard_established_participant_count,
  join_ard,
}
use sipbridge.Sip.Server.Keys.{key_of}
use sipbridge.Sip.Server.{
  IvrSession, IvrState, Rejection, Session, TargetKind, Server, Step, ◌⨟◌, reply,
  reject_for_capacity,
}
use sipbridge.Text.{Text, codes, trim_space}

-- 30 seconds, or the group's own positive timeout.
abbrev pub timeout_or_default : ℤ → ℕ
timeout_or_default (pos n) = if ltb 0 n then n else 30
timeout_or_default (negsuc n) = 30

abbrev pub new_ivr_session : InviteEnv → ℕ → Message → Text → IvrSession
new_ivr_session env peer msg key = record {
  key = key;
  remote = peer;
  from_header = header msg (codes "from");
  to_header = (ensure_to_tag_with_value env.now (header msg (codes "to"))).0;
  contact_uri = extract_uri_from_address_header (header msg (codes "contact"));
  created_at = env.now;
  state = IvrState.collect_bridge;
  buf = [];
  bridge_access = [];
  participant_id = [];
  conference_group_id = [];
  conference_group_type = [];
  conference_caller_side = [];
  preferred_region = [];
  rtp = env.caller_rtp;
  dtmf_via_rtp = is_some env.caller_rtp && env.telephone_event;
  siprec_fwd = none;
}

unfoldable pub enter_ivr : InviteEnv → ℕ → Message → Text → Server → Step
unfolding header ensure_to_tag_with_value extract_uri_from_address_header insert
enter_ivr env peer msg key s = (
  record s { ivr_sessions = insert key (new_ivr_session env peer msg key) s.ivr_sessions },
  reply peer msg 200 ∷ [],
)

-- A bridge with nobody to ring is joined alone.
unfoldable pub join_bridge_alone : InviteEnv → Spec → ℕ → Message → Text → Bridge → Server → Step
unfolding put_call bridge_line_label_for_from
join_bridge_alone env cfg peer msg key b s =
    let sess = new_session env peer msg key TargetKind.bridge b.id [] false 0 in
    let label = bridge_line_label_for_from cfg b.id (header msg (codes "from")) in
    (s, reply peer msg 200 ∷ [])
    ⨟ enter b.id key (record (silent_call env sess b.id ([], []) label) { cap = env.capture })

abbrev pub ring_or_fail :
    InviteEnv → Spec → Session → List Endpoint → (Server → Step) → Server → Step
ring_or_fail env cfg sess [] alone s = alone s
ring_or_fail env cfg sess (ep ∷ eps) alone s = open_session env cfg sess (ep ∷ eps) s

abbrev pub unavailable : ℕ → Message → Server → Step
unavailable peer msg s = (s, reply peer msg 480 ∷ [])

unfoldable pub invite_bridge : InviteEnv → Spec → ℕ → Message → Text → Bridge → Server → Step
unfolding bridge_ring sort_endpoints_by_preferred_region preferred_region_for_bridge_caller
    open_session join_bridge_alone
invite_bridge env cfg peer msg key b s =
    let from_user = header_user (header msg (codes "from")) in
    ring_or_fail env cfg (new_session env peer msg key TargetKind.bridge b.id [] false 30)
      (sort_endpoints_by_preferred_region (preferred_region_for_bridge_caller cfg b from_user)
        (bridge_ring from_user b))
      (join_bridge_alone env cfg peer msg key b) s

unfoldable pub invite_hoot : InviteEnv → Spec → ℕ → Message → Text → HootGroup → Server → Step
unfolding build_hoot_ring_endpoints open_session
invite_hoot env cfg peer msg key g s =
    ring_or_fail env cfg
      (new_session env peer msg key TargetKind.hoot_group [] [] false
        (timeout_or_default g.ring_timeout_seconds))
      (build_hoot_ring_endpoints (header_user (header msg (codes "from"))) g.talkers g.listeners)
      (unavailable peer msg) s

-- An established ARD line is joined without ringing.
unfoldable pub invite_conference :
    InviteEnv → Spec → ℕ → Message → Text → ConferenceGroup → Server → Step
unfolding conference_ring sort_endpoints_by_preferred_region preferred_region_for_conference_caller
    is_ard_group ard_established_participant_count join_ard open_session trim_space
invite_conference env cfg peer msg key g s =
    let from_user = header_user (header msg (codes "from")) in
    let gid = trim_space g.id in
    if is_ard_group g && ltb 0 (ard_established_participant_count gid s)
    then join_ard env cfg peer msg key gid s
    else ring_or_fail env cfg
        (new_session env peer msg key TargetKind.conference_group [] gid (is_ard_group g)
          (timeout_or_default g.ring_timeout_seconds))
        (sort_endpoints_by_preferred_region (preferred_region_for_conference_caller cfg g from_user)
          (conference_ring from_user g))
        (unavailable peer msg) s

abbrev pub invite_target :
    InviteEnv → Spec → ℕ → Message → Text → Option InviteTarget → Server → Step
invite_target env cfg peer msg key none s = (s, reply peer msg 404 ∷ [])
invite_target env cfg peer msg key (some InviteTarget.ivr) s = enter_ivr env peer msg key s
invite_target env cfg peer msg key (some (InviteTarget.bridge b)) s =
    invite_bridge env cfg peer msg key b s
invite_target env cfg peer msg key (some (InviteTarget.hoot_group g)) s =
    invite_hoot env cfg peer msg key g s
invite_target env cfg peer msg key (some (InviteTarget.conference_group g)) s =
    invite_conference env cfg peer msg key g s

abbrev pub admit : InviteEnv → Spec → ℕ → Message → Text → Option Rejection → Server → Step
admit env cfg peer msg key (some r) s = (s, reject_for_capacity peer msg r ∷ [])
admit env cfg peer msg key none s = invite_target env cfg peer msg key (match_invite cfg msg) s

abbrev pub with_key : InviteEnv → Spec → ClusterLimits → ℕ → Message → Option Text → Server → Step
with_key env cfg limits peer msg none s = (s, reply peer msg 400 ∷ [])
with_key env cfg limits peer msg (some key) s =
    admit env cfg peer msg key (try_reject_invite_for_capacity limits s) s

-- An INVITE without a To tag.
unfoldable pub handle_invite : InviteEnv → Spec → ClusterLimits → ℕ → Message → Server → Step
unfolding key_of try_reject_invite_for_capacity match_invite enter_ivr invite_bridge invite_hoot
    invite_conference
handle_invite env cfg limits peer msg s =
    (s, reply peer msg 100 ∷ []) ⨟ with_key env cfg limits peer msg (key_of msg)
