-- ===== src/Sip/Server/Invite/Leak.antt =====
-- A ring that ends without an answer leaves its early registration behind.
use sipbridge.Config.{ConferenceGroup, Endpoint, Spec}
use sipbridge.Maps.Laws.{lookup-insert, length-insert_pos}
use sipbridge.Maps.{lookup, insert}
use sipbridge.Prelude.{
  ℕ, suc, ◌≡◌, ◌<◌, refl, sym, true, false, Option, none, some, List, [], ◌∷◌, arith, length,
  if◌then◌else◌,
}
use sipbridge.Sip.Identity.{
  allow_siprec, conference_group_by_id, conference_invite_participant_labels,
}
use sipbridge.Sip.Message.{header}
use sipbridge.Sip.Ring.{synthetic_ard_bridge_id}
use sipbridge.Sip.Server.Bridges.{put_call, room}
use sipbridge.Sip.Server.Fanout.Frame.{SameRooms, SameRooms-trans, enforce_ring_timeout-SameRooms}
use sipbridge.Sip.Server.Fanout.{enforce_ring_timeout}
use sipbridge.Sip.Server.Invite.{
  InviteEnv, Emitted, silent_call, attach_leg, attach_emitted, emitted_leg, ring_all, open_session,
  early_siprec, start_siprec_for_conference_fanout_early, ard_established_participant_count,
}
use sipbridge.Sip.Server.{BridgeCall, Leg, Session, TargetKind, Server}
use sipbridge.Text.Laws.{text_eq_refl, trim_space-trim_space}
use sipbridge.Text.{Text, codes, is_empty, trim_space}

attach_leg-SameRooms : (key : Text) (leg : Leg) (s : Server) → SameRooms s (attach_leg key leg s).0
unfolding attach_leg
attach_leg-SameRooms key leg s = ground arith

attach_emitted-SameRooms :
    (key : Text) (out : Option Emitted) (s : Server) → SameRooms s (attach_emitted key out s).0
attach_emitted-SameRooms key none s = ground arith
attach_emitted-SameRooms key (some out) s = attach_leg-SameRooms key (emitted_leg key out) s

ring_all-SameRooms :
    (env : InviteEnv) (key : Text) (i : ℕ) (eps : List Endpoint) (s : Server)
    → SameRooms s (ring_all env key i eps s).0
unfolding ring_all
ring_all-SameRooms env key i [] s = ground arith
ring_all-SameRooms env key i (ep ∷ eps) s =
    let out = if is_empty ep.sip_uri then none else env.emit i ep in
    let t = (attach_emitted key out s).0 in
    SameRooms-trans s t (ring_all env key (suc i) eps t).0 (attach_emitted-SameRooms key out s)
      (ring_all-SameRooms env key (suc i) eps t)

-- The rooms after a ring that timed out are those that the early registration left.
timed_out-SameRooms :
    (env : InviteEnv) (cfg : Spec) (sess : Session) (ring : List Endpoint) (s : Server)
    → lookup sess.key s.sessions ≡ none
    → SameRooms
        (early_siprec env cfg sess (record s { sessions = insert sess.key sess s.sessions })).0
        (enforce_ring_timeout sess.key (open_session env cfg sess ring s).0).0
timed_out-SameRooms env cfg sess ring s fresh =
    let start = record s { sessions = insert sess.key sess s.sessions } in
    let early = (early_siprec env cfg sess start).0 in
    let rung = (ring_all env sess.key 0 ring early).0 in
    unfold open_session in
    rw fresh (
      SameRooms-trans early rung (enforce_ring_timeout sess.key rung).0
        (ring_all-SameRooms env sess.key 0 ring early)
        (enforce_ring_timeout-SameRooms sess.key rung))

find_call-put_call :
    (bridge_id key : Text) (bc : BridgeCall) (s : Server)
    → 0 < length (room (lookup bridge_id (put_call bridge_id key bc s).bridge_calls))
find_call-put_call bridge_id key bc s =
    unfold put_call in
    rw (lookup-insert, text_eq_refl)
      (length-insert_pos key bc (room (lookup bridge_id s.bridge_calls)))

-- The early registration files the caller in the room of the group.
early_siprec-Established :
    (env : InviteEnv) (cfg : Spec) (sess : Session) (s : Server) (g : ConferenceGroup)
    → sess.target_kind ≡ TargetKind.conference_group
    → is_empty (trim_space sess.conference_group_id) ≡ false
    → conference_group_by_id cfg (trim_space sess.conference_group_id) ≡ some g
    → allow_siprec cfg g
        (conference_invite_participant_labels cfg g (header sess.inbound_invite (codes "from"))).0
      ≡ true
    → 0
      < length (
          room (
            lookup
              (synthetic_ard_bridge_id (trim_space sess.conference_group_id))
              (early_siprec env cfg sess s).0.bridge_calls))
early_siprec-Established env cfg sess s g kind named found allowed =
    let bid = synthetic_ard_bridge_id (trim_space sess.conference_group_id) in
    let who =
      conference_invite_participant_labels cfg g (header sess.inbound_invite (codes "from")) in
    rw kind (
      unfold start_siprec_for_conference_fanout_early in
      rw named (
        rw found (
          rw allowed (
            find_call-put_call bid sess.key (silent_call env sess bid who (trim_space g.line_label))
              s))))

synthetic_ard_bridge_id-trim_space :
    (g : Text) → synthetic_ard_bridge_id (trim_space g) ≡ synthetic_ard_bridge_id g
synthetic_ard_bridge_id-trim_space g =
    unfold synthetic_ard_bridge_id in rw (trim_space-trim_space g) refl

-- A conference group that is recorded (its own setting, or the opt-in of the caller's linked user):
-- a caller starts a ring, in a state without a session of that dialog, and nobody answers until the
-- ring timer fires. The line of the group then counts as established, although no call is up.
pub ard_established-after_timeout :
    (env : InviteEnv) (cfg : Spec) (sess : Session) (ring : List Endpoint) (s : Server)
    (g : ConferenceGroup)
    → lookup sess.key s.sessions ≡ none
    → sess.target_kind ≡ TargetKind.conference_group
    → is_empty (trim_space sess.conference_group_id) ≡ false
    → conference_group_by_id cfg (trim_space sess.conference_group_id) ≡ some g
    → allow_siprec cfg g
        (conference_invite_participant_labels cfg g (header sess.inbound_invite (codes "from"))).0
      ≡ true
    → 0
      < ard_established_participant_count sess.conference_group_id
          (enforce_ring_timeout sess.key (open_session env cfg sess ring s).0).0
ard_established-after_timeout env cfg sess ring s g fresh kind named found allowed =
    let same = timed_out-SameRooms env cfg sess ring s fresh in
    let there =
      early_siprec-Established env cfg sess
        (record s { sessions = insert sess.key sess s.sessions }) g kind named found allowed in
    unfold ard_established_participant_count in
    rw named
      (rw same.rooms (rw (sym (synthetic_ard_bridge_id-trim_space sess.conference_group_id)) there))
