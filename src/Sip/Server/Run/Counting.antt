-- ===== src/Sip/Server/Run/Counting.antt =====
-- The operations of the server against the number of conference fanouts.
use sipbridge.Config.{Spec}
use sipbridge.Maps.Laws.{length-insert_there}
use sipbridge.Maps.{lookup, insert}
use sipbridge.Prelude.{
  ℕ, ℤ, true, ◌≡◌, refl, ◌∙◌, Option, none, some, arith, Bool-cases, Option-cases, inl, inr, length,
}
use sipbridge.Sip.Message.{Message}
use sipbridge.Sip.Server.Bridges.{remove_call, put_call, room_with}
use sipbridge.Sip.Server.Conference.{conference_response, enforce_ivr_conf_ring_timeout}
use sipbridge.Sip.Server.Fanout.Frame.{cleanup_session-SameRooms}
use sipbridge.Sip.Server.Fanout.{
  Env, answer, join_target, join_room, cancel_losers, cancel_losers_of, cleanup_session, give_up,
  session_response, fanout_response, own_media, won, note_status, all_final,
}
use sipbridge.Sip.Server.Keys.{bridge_logical_key, ivr_logical_key}
use sipbridge.Sip.Server.Siprec.{
  clear_siprec_media_forwarding_by_key, stop_leg, leg_at, stop_siprec_recording, siprec_response,
}
use sipbridge.Sip.Server.Teardown.{cleanup_call, cleanup_bridge_call_by_key, end_ivr, end_conf}
use sipbridge.Sip.Server.{Leg, Session, Server, BridgeCall, legs_at, is_success}
use sipbridge.Text.{Text, is_empty}

-- As many conference fanouts as before.
abbrev pub SameCount : Server → Server → Type 0
SameCount s t = length t.ivr_conf_sessions ≡ length s.ivr_conf_sessions

clear-SameCount :
    (logical : Text) (s : Server) → SameCount s (clear_siprec_media_forwarding_by_key logical s).0
unfolding clear_siprec_media_forwarding_by_key put_call
clear-SameCount logical s = ground arith

stop_leg-SameCount :
    (logical : Text) (leg : Option Leg) (s : Server) → SameCount s (stop_leg logical leg s).0
stop_leg-SameCount logical none s = refl
stop_leg-SameCount logical (some leg) s = clear-SameCount logical _

pub stop_siprec_recording-SameCount :
    (logical : Text) (s : Server) → SameCount s (stop_siprec_recording logical s).0
unfolding stop_siprec_recording
stop_siprec_recording-SameCount logical s =
    stop_leg-SameCount logical (leg_at s.legs (lookup logical s.siprec_recordings)) s

cleanup_call-SameCount :
    (key : Text) (c : Option (Text × BridgeCall)) (s : Server)
    → SameCount s (cleanup_call key c s).0
unfolding remove_call
cleanup_call-SameCount key none s = refl
cleanup_call-SameCount key (some (bridge_id, c)) s =
    stop_siprec_recording-SameCount (bridge_logical_key bridge_id key) (remove_call bridge_id key s)

pub cleanup_bridge_call_by_key-SameCount :
    (key : Text) (s : Server) → SameCount s (cleanup_bridge_call_by_key key s).0
unfolding cleanup_bridge_call_by_key
cleanup_bridge_call_by_key-SameCount key s =
    cleanup_call-SameCount key (room_with key s.bridge_calls) s

pub end_ivr-SameCount : (key : Text) (s : Server) → SameCount s (end_ivr key s).0
unfolding end_ivr
end_ivr-SameCount key s = stop_siprec_recording-SameCount (ivr_logical_key key) _

pub cleanup_session-SameCount : (m : Message) (s : Server) → SameCount s (cleanup_session m s).0
cleanup_session-SameCount m s = rw ((cleanup_session-SameRooms m s).conferences) refl

join_target-SameCount :
    (env : Env) (cfg : Spec) (sess : Session) (s : Server)
    → SameCount s (join_target env cfg sess s).0
unfolding join_target join_room put_call
join_target-SameCount env cfg sess s = ground arith

cancel_losers-SameCount :
    (m : Message) (winner : Text) (s : Server) → SameCount s (cancel_losers m winner s).0
unfolding cancel_losers cancel_losers_of
cancel_losers-SameCount m winner s = ground arith

answer-SameCount :
    (env : Env) (cfg : Spec) (sess : Session) (s : Server) → SameCount s (answer env cfg sess s).0
unfolding answer
answer-SameCount env cfg sess s =
    let joined = (join_target env cfg sess s).0 in
    let lost = (cancel_losers sess.inbound_invite sess.winner_call_id joined).0 in
    cleanup_session-SameCount sess.inbound_invite lost
    ∙ (cancel_losers-SameCount sess.inbound_invite sess.winner_call_id joined
        ∙ join_target-SameCount env cfg sess s)

pub end_conf-SameCount :
    (key : Text) (s : Server) → SameCount s (end_conf key (lookup key s.ivr_conf_sessions) s)
end_conf-SameCount key s = elim (Option-cases (lookup key s.ivr_conf_sessions)) [
  | inl gone ↦ rw gone refl
  | inr (fs, found) ↦
      rw found
        (length-insert_there key (record fs { terminated = true }) fs s.ivr_conf_sessions found)
]

note_status-SameCount :
    (status : ℤ) (a : ℕ) (leg : Leg) (s : Server) → SameCount s (note_status status a leg s)
note_status-SameCount status a leg s = ground arith

session_response-SameCount :
    (env : Env) (cfg : Spec) (status : ℤ) (call_id : Text) (a : ℕ) (leg : Leg) (sess : Session)
    (s : Server)
    → SameCount s (session_response env cfg status call_id a leg sess s).0
unfolding session_response give_up
session_response-SameCount env cfg status call_id a leg sess s =
    let t = note_status status a leg s in
    let noted = note_status-SameCount status a leg s in
    let late = record sess { terminated = true } in
    elim (Bool-cases (is_success status)) [
      | inl ok ↦ rw ok (
          answer-SameCount (own_media call_id (won call_id sess) env) cfg (won call_id sess)
            (record t { sessions = insert leg.session_key (won call_id sess) t.sessions })
          ∙ noted)
      | inr failed ↦ elim (Bool-cases (is_empty sess.winner_call_id)) [
        | inr winner ↦
            rw (failed, winner)
              (answer-SameCount (record env { media = none }) cfg late
                  (record t { sessions = insert leg.session_key late t.sessions })
                ∙ noted)
        | inl no_winner ↦ elim (Bool-cases (all_final (legs_at t.legs sess.legs))) [
          | inl all ↦ rw (failed, no_winner, all) noted
          | inr some_ring ↦ rw (failed, no_winner, some_ring) noted
        ]
      ]
    ]

pub fanout_response-SameCount :
    (env : Env) (cfg : Spec) (msg : Message) (call_id : Text) (a : ℕ) (leg : Leg) (s : Server)
    → SameCount s (fanout_response env cfg msg call_id a leg s).0
fanout_response-SameCount env cfg msg call_id a leg s =
    elim (Option-cases (lookup leg.session_key s.sessions)) [
      | inl gone ↦ unfold fanout_response in rw gone refl
      | inr (sess, found) ↦ elim (Bool-cases sess.terminated) [
        | inl over ↦ unfold fanout_response in rw (found, over) refl
        | inr live ↦
            unfold fanout_response in
            rw (found, live)
              (session_response-SameCount env cfg msg.status_code call_id a leg sess s)
      ]
    ]

pub siprec_response-SameCount :
    (msg : Message) (a : ℕ) (leg : Leg) (s : Server) → SameCount s (siprec_response msg a leg s).0
unfolding siprec_response
siprec_response-SameCount msg a leg s = ground arith

pub conference_response-SameCount :
    (msg : Message) (call_id : Text) (a : ℕ) (leg : Leg) (s : Server)
    → SameCount s (conference_response msg call_id a leg s).0
conference_response-SameCount msg call_id a leg s =
    elim (Option-cases (lookup leg.session_key s.ivr_conf_sessions)) [
      | inl gone ↦ unfold conference_response in rw gone refl
      | inr (fs, found) ↦
          unfold conference_response in
          rw found (
            ground (
              arith,
              length-insert_there leg.session_key (record fs { winner_call_id = call_id }) fs
                  s.ivr_conf_sessions found,
            ))
    ]

pub conference_timeout-SameCount :
    (key : Text) (s : Server) → SameCount s (enforce_ivr_conf_ring_timeout key s).0
conference_timeout-SameCount key s = elim (Option-cases (lookup key s.ivr_conf_sessions)) [
  | inl gone ↦ unfold enforce_ivr_conf_ring_timeout in rw gone refl
  | inr (fs, found) ↦
      unfold enforce_ivr_conf_ring_timeout in
      rw found (
        ground (
          arith,
          length-insert_there key (record fs { terminated = true }) fs s.ivr_conf_sessions found,
        ))
]
