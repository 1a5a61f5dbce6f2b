-- ===== src/Sip/Server/Invite/Growth.antt =====
-- How many dialogs the start of a ring adds.
use sipbridge.Config.{ConferenceGroup, Endpoint, Spec}
use sipbridge.Maps.Laws.{length-insert, length-insert_there}
use sipbridge.Maps.{Map, insert, is_some, lookup}
use sipbridge.Prelude.{
  ℕ, suc, ◌+◌, ◌≤◌, ◌≡◌, refl, not, ◌||◌, Option, none, some, List, [], ◌∷◌, ◌++◌, arith,
  Bool-cases, Option-cases, inl, inr, length, if◌then◌else◌,
}
use sipbridge.Sip.Identity.{
  allow_siprec, bridge_by_id, conference_group_by_id, conference_invite_participant_labels,
}
use sipbridge.Sip.Message.{header}
use sipbridge.Sip.Server.Bridges.{count_calls, put_call, room}
use sipbridge.Sip.Server.Capacity.{active_dialog_count}
use sipbridge.Sip.Server.Invite.{
  Emitted, InviteEnv, add_leg, early_group, attach_emitted, attach_leg, early_siprec, open_session,
  ring_all, start_siprec_for_bridge_fanout_early, start_siprec_for_conference_fanout_early,
}
use sipbridge.Sip.Server.{BridgeCall, Server, Session, TargetKind}
use sipbridge.Text.{Text, codes, is_empty, trim_space}

count_calls-insert :
    (b : Text) (m : Map BridgeCall) (rooms : Map (Map BridgeCall))
    → count_calls (insert b m rooms) + length (room (lookup b rooms)) ≡ count_calls rooms + length m
unfolding count_calls insert lookup
count_calls-insert b m [] = omega arith
count_calls-insert b m ((i, w) ∷ rooms) = ground (arith, count_calls-insert b m rooms)

-- At most `n` dialogs more.
abbrev pub Grows : ℕ → Server → Server → Type 0
Grows n s t = active_dialog_count t ≤ active_dialog_count s + n

pub put_call-Grows : (b key : Text) (bc : BridgeCall) (s : Server) → Grows 1 s (put_call b key bc s)
unfolding active_dialog_count put_call
put_call-Grows b key bc s =
    let m = room (lookup b s.bridge_calls) in
    omega (arith, count_calls-insert b (insert key bc m) s.bridge_calls, length-insert key bc m)

early_group-Grows :
    (env : InviteEnv) (cfg : Spec) (sess : Session) (gid : Text) (g : Option ConferenceGroup)
    (s : Server)
    → Grows 1 s (early_group env cfg sess gid g s).0
early_group-Grows env cfg sess gid none s = omega arith
early_group-Grows env cfg sess gid (some g) s =
    let who =
      conference_invite_participant_labels cfg g (header sess.inbound_invite (codes "from")) in
    elim (Bool-cases (allow_siprec cfg g who.0)) [
      | inl recorded ↦ rw recorded (put_call-Grows _ _ _ s)
      | inr unrecorded ↦ rw unrecorded (omega arith)
    ]

conference_early-Grows :
    (env : InviteEnv) (cfg : Spec) (sess : Session) (s : Server)
    → Grows 1 s (start_siprec_for_conference_fanout_early env cfg sess s).0
conference_early-Grows env cfg sess s =
    let gid = trim_space sess.conference_group_id in
    elim (Bool-cases (is_empty gid)) [
      | inl blank ↦ unfold start_siprec_for_conference_fanout_early in rw blank (omega arith)
      | inr named ↦
          unfold start_siprec_for_conference_fanout_early in
          rw named (early_group-Grows env cfg sess gid (conference_group_by_id cfg gid) s)
    ]

bridge_early-Grows :
    (env : InviteEnv) (cfg : Spec) (sess : Session) (s : Server)
    → Grows 1 s (start_siprec_for_bridge_fanout_early env cfg sess s).0
unfolding start_siprec_for_bridge_fanout_early
bridge_early-Grows env cfg sess s =
    let bid = trim_space sess.bridge_id in
    elim (Bool-cases (is_empty bid || not (is_some (bridge_by_id cfg bid)))) [
      | inl absent ↦ rw absent (omega arith)
      | inr present ↦ rw present (put_call-Grows _ _ _ s)
    ]

early_of-Grows :
    (kind : TargetKind) (env : InviteEnv) (cfg : Spec) (sess : Session) (s : Server)
    → sess.target_kind ≡ kind
    → Grows 1 s (early_siprec env cfg sess s).0
unfolding start_siprec_for_bridge_fanout_early start_siprec_for_conference_fanout_early
early_of-Grows TargetKind.bridge env cfg sess s is = rw is (bridge_early-Grows env cfg sess s)
early_of-Grows TargetKind.conference_group env cfg sess s is =
    rw is (conference_early-Grows env cfg sess s)
early_of-Grows TargetKind.hoot_group env cfg sess s is = rw is (omega arith)

early-Grows :
    (env : InviteEnv) (cfg : Spec) (sess : Session) (s : Server)
    → Grows 1 s (early_siprec env cfg sess s).0
early-Grows env cfg sess s = early_of-Grows sess.target_kind env cfg sess s refl

add_leg-Grows :
    (a : ℕ) (key : Text) (s : Server) → Grows 0 s (add_leg a key (lookup key s.sessions) s)
unfolding active_dialog_count
add_leg-Grows a key s = elim (Option-cases (lookup key s.sessions)) [
  | inl gone ↦ rw gone (omega arith)
  | inr (sess, found) ↦ rw found (
      omega (
        arith,
        length-insert_there key (record sess { legs = sess.legs ++ a ∷ [] }) sess s.sessions found,
      ))
]

attach_emitted-Grows :
    (key : Text) (out : Option Emitted) (s : Server) → Grows 0 s (attach_emitted key out s).0
unfolding attach_leg active_dialog_count
attach_emitted-Grows key none s = omega arith
attach_emitted-Grows key (some out) s = add_leg-Grows (length s.legs) key s

ring_all-Grows :
    (env : InviteEnv) (key : Text) (i : ℕ) (eps : List Endpoint) (s : Server)
    → Grows 0 s (ring_all env key i eps s).0
unfolding ring_all
ring_all-Grows env key i [] s = omega arith
ring_all-Grows env key i (ep ∷ eps) s =
    let out = if is_empty ep.sip_uri then none else env.emit i ep in
    let t = (attach_emitted key out s).0 in
    omega (arith, attach_emitted-Grows key out s, ring_all-Grows env key (suc i) eps t)

pub open_session-Grows :
    (env : InviteEnv) (cfg : Spec) (sess : Session) (ring : List Endpoint) (s : Server)
    → Grows 2 s (open_session env cfg sess ring s).0
open_session-Grows env cfg sess ring s = elim (Bool-cases (is_some (lookup sess.key s.sessions))) [
  | inl busy ↦ unfold open_session in rw busy (omega arith)
  | inr free ↦
      let start = record s { sessions = insert sess.key sess s.sessions } in
      let early = (early_siprec env cfg sess start).0 in
      let filed : Grows 1 s start =
        unfold active_dialog_count in omega (arith, length-insert sess.key sess s.sessions) in
      unfold open_session in
      rw free (
        omega
          (arith, filed, early-Grows env cfg sess start, ring_all-Grows env sess.key 0 ring early))
]
