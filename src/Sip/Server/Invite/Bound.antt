-- ===== src/Sip/Server/Invite/Bound.antt =====
-- How many dialogs an INVITE adds, against the limit on calls.
use sipbridge.Config.Cluster.{ClusterLimits}
use sipbridge.Config.{Bridge, ConferenceGroup, Endpoint, HootGroup, Spec}
use sipbridge.Maps.Laws.{length-insert}
use sipbridge.Maps.{is_some, lookup}
use sipbridge.Prelude.{
  ℕ, ◌+◌, ◌≤◌, ◌<◌, ◌≡◌, pos, false, ◌&&◌, ◌||◌, Option, none, some, List, [], ◌∷◌, arith,
  Bool-cases, Option-cases, inl, inr, ltb,
}
use sipbridge.Sip.Message.{Message, header}
use sipbridge.Sip.Address.{header_user}
use sipbridge.Sip.Ring.Preference.{
  preferred_region_for_bridge_caller, preferred_region_for_conference_caller,
}
use sipbridge.Sip.Ring.Region.{sort_endpoints_by_preferred_region}
use sipbridge.Sip.Ring.{
  bridge_ring, build_hoot_ring_endpoints, conference_ring, is_ard_group, synthetic_ard_bridge_id,
}
use sipbridge.Sip.Router.{InviteTarget, match_invite}
use sipbridge.Sip.Server.Bridges.{find_call}
use sipbridge.Sip.Server.Capacity.{active_dialog_count, try_reject_invite_for_capacity}
use sipbridge.Sip.Server.Invite.Dispatch.{
  timeout_or_default, new_ivr_session, enter_ivr, handle_invite, invite_bridge, invite_conference,
  invite_hoot, invite_target, join_bridge_alone, ring_or_fail, unavailable,
}
use sipbridge.Sip.Server.Invite.Growth.{Grows, put_call-Grows, open_session-Grows}
use sipbridge.Sip.Server.Invite.{
  InviteEnv, new_session, ard_established_participant_count, enter, join_ard,
  answer_ard_join_inbound,
}
use sipbridge.Sip.Server.Keys.{key_of}
use sipbridge.Sip.Server.{BridgeCall, Server, Session, Step, TargetKind}
use sipbridge.Text.{Text, codes, trim_space}

enter-Grows : (b key : Text) (bc : BridgeCall) (s : Server) → Grows 2 s (enter b key bc s).0
enter-Grows b key bc s = omega (arith, put_call-Grows b key bc s)

enter_ivr-Grows :
    (env : InviteEnv) (peer : ℕ) (msg : Message) (key : Text) (s : Server)
    → Grows 2 s (enter_ivr env peer msg key s).0
unfolding enter_ivr active_dialog_count
enter_ivr-Grows env peer msg key s =
    omega (arith, length-insert key (new_ivr_session env peer msg key) s.ivr_sessions)

ring_or_fail-Grows :
    (env : InviteEnv) (cfg : Spec) (sess : Session) (ring : List Endpoint) (alone : Server → Step)
    (s : Server)
    → Grows 2 s (alone s).0
    → Grows 2 s (ring_or_fail env cfg sess ring alone s).0
ring_or_fail-Grows env cfg sess [] alone s h = h
ring_or_fail-Grows env cfg sess (ep ∷ eps) alone s h = open_session-Grows env cfg sess (ep ∷ eps) s

join_bridge_alone-Grows :
    (env : InviteEnv) (cfg : Spec) (peer : ℕ) (msg : Message) (key : Text) (b : Bridge) (s : Server)
    → Grows 2 s (join_bridge_alone env cfg peer msg key b s).0
unfolding join_bridge_alone
join_bridge_alone-Grows env cfg peer msg key b s = enter-Grows _ _ _ s

invite_bridge-Grows :
    (env : InviteEnv) (cfg : Spec) (peer : ℕ) (msg : Message) (key : Text) (b : Bridge) (s : Server)
    → Grows 2 s (invite_bridge env cfg peer msg key b s).0
unfolding invite_bridge
invite_bridge-Grows env cfg peer msg key b s =
    let from_user = header_user (header msg (codes "from")) in
    ring_or_fail-Grows env cfg (new_session env peer msg key TargetKind.bridge b.id [] false 30)
      (sort_endpoints_by_preferred_region (preferred_region_for_bridge_caller cfg b from_user)
        (bridge_ring from_user b))
      (join_bridge_alone env cfg peer msg key b) s
      (join_bridge_alone-Grows env cfg peer msg key b s)

invite_hoot-Grows :
    (env : InviteEnv) (cfg : Spec) (peer : ℕ) (msg : Message) (key : Text) (g : HootGroup)
    (s : Server)
    → Grows 2 s (invite_hoot env cfg peer msg key g s).0
unfolding invite_hoot
invite_hoot-Grows env cfg peer msg key g s =
    let from_user = header_user (header msg (codes "from")) in
    ring_or_fail-Grows env cfg
      (new_session env peer msg key TargetKind.hoot_group [] [] false
        (timeout_or_default g.ring_timeout_seconds))
      (build_hoot_ring_endpoints from_user g.talkers g.listeners) (unavailable peer msg) s
      (omega arith)

join_ard-Grows :
    (env : InviteEnv) (cfg : Spec) (peer : ℕ) (msg : Message) (key gid : Text) (s : Server)
    → Grows 2 s (join_ard env cfg peer msg key gid s).0
unfolding answer_ard_join_inbound
join_ard-Grows env cfg peer msg key gid s =
    elim (Bool-cases (
      is_some (lookup key s.sessions) || is_some (find_call (synthetic_ard_bridge_id gid) key s))) [
        | inl busy ↦ unfold join_ard in rw busy (omega arith)
        | inr free ↦ unfold join_ard in rw free (enter-Grows _ _ _ s)
      ]

invite_conference-Grows :
    (env : InviteEnv) (cfg : Spec) (peer : ℕ) (msg : Message) (key : Text) (g : ConferenceGroup)
    (s : Server)
    → Grows 2 s (invite_conference env cfg peer msg key g s).0
invite_conference-Grows env cfg peer msg key g s =
    elim (Bool-cases
      (is_ard_group g && ltb 0 (ard_established_participant_count (trim_space g.id) s))) [
        | inl up ↦
            unfold invite_conference in
            rw up (join_ard-Grows env cfg peer msg key (trim_space g.id) s)
        | inr down ↦
            unfold invite_conference in
            rw down (
              ring_or_fail-Grows env cfg
                (new_session env peer msg key TargetKind.conference_group [] (trim_space g.id)
                  (is_ard_group g) (timeout_or_default g.ring_timeout_seconds))
                (sort_endpoints_by_preferred_region
                  (preferred_region_for_conference_caller cfg g
                    (header_user (header msg (codes "from"))))
                  (conference_ring (header_user (header msg (codes "from"))) g))
                (unavailable peer msg) s (omega arith))
      ]

target-Grows :
    (env : InviteEnv) (cfg : Spec) (peer : ℕ) (msg : Message) (key : Text)
    (target : Option InviteTarget) (s : Server)
    → Grows 2 s (invite_target env cfg peer msg key target s).0
target-Grows env cfg peer msg key none s = omega arith
target-Grows env cfg peer msg key (some InviteTarget.ivr) s = enter_ivr-Grows env peer msg key s
target-Grows env cfg peer msg key (some (InviteTarget.bridge b)) s =
    invite_bridge-Grows env cfg peer msg key b s
target-Grows env cfg peer msg key (some (InviteTarget.hoot_group g)) s =
    invite_hoot-Grows env cfg peer msg key g s
target-Grows env cfg peer msg key (some (InviteTarget.conference_group g)) s =
    invite_conference-Grows env cfg peer msg key g s

pub admitted-below :
    (limits : ClusterLimits) (max : ℕ) (s : Server)
    → limits.max_concurrent_calls ≡ pos max
    → 1 ≤ max
    → try_reject_invite_for_capacity limits s ≡ none
    → active_dialog_count s < max
unfolding try_reject_invite_for_capacity
admitted-below limits max s limit positive admitted =
    elim (Bool-cases (ltb (active_dialog_count s) max)) [
      | inl room_left ↦ ground arith
      | inr full ↦ ground arith
    ]

-- With a limit of `max` calls, at least 1: if there are at most `max + 1` dialogs before an INVITE
-- without a To tag, there are at most `max + 1` after it, whatever it is routed to.
pub handle_invite-bound :
    (env : InviteEnv) (cfg : Spec) (limits : ClusterLimits) (max peer : ℕ) (msg : Message)
    (s : Server)
    → limits.max_concurrent_calls ≡ pos max
    → 1 ≤ max
    → active_dialog_count s ≤ max + 1
    → active_dialog_count (handle_invite env cfg limits peer msg s).0 ≤ max + 1
handle_invite-bound env cfg limits max peer msg s limit positive bounded =
    elim (Option-cases (key_of msg)) [
      | inl no_key ↦ unfold handle_invite in rw no_key bounded
      | inr (key, keyed) ↦ elim (Option-cases (try_reject_invite_for_capacity limits s)) [
        | inl admitted ↦
            unfold handle_invite in
            rw (keyed, admitted)
              (omega (
                arith,
                admitted-below limits max s limit positive admitted,
                target-Grows env cfg peer msg key (match_invite cfg msg) s,
              ))
        | inr (r, rejected) ↦ unfold handle_invite in rw (keyed, rejected) bounded
      ]
    ]
