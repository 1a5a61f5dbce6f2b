-- ===== src/Sip/Server/Fanout/Frame.antt =====
-- What the end of a session leaves as it was: the rooms, the IVR and the recordings.
use sipbridge.Config.{Spec}
use sipbridge.Maps.Laws.{lookup-delete}
use sipbridge.Maps.{lookup, insert}
use sipbridge.Prelude.{
  ℕ, true, ◌≡◌, refl, ◌∙◌, Option, none, some, List, [], ◌∷◌, arith, get_elem?, Option-cases,
  Bool-cases, inl, inr,
}
use sipbridge.Sip.Message.{Message}
use sipbridge.Sip.Server.Fanout.Answers.{
  cleanup_session_lem, join_target-IsSilent, cancel_losers-IsSilent,
}
use sipbridge.Sip.Server.Fanout.{
  Env, forget_found, forget_legs, cleanup_found, cleanup_session, enforce_ring_timeout,
  drop_session, answer, join_target, cancel_losers,
}
use sipbridge.Sip.Server.Keys.{key_of}
use sipbridge.Sip.Server.{Session, Server}
use sipbridge.Text.Laws.{text_eq_refl}
use sipbridge.Text.{Text}

-- All of the state but the sessions and their legs.
pub record SameRooms (s t : Server) : Type 0 where
  pub conferences : t.ivr_conf_sessions ≡ s.ivr_conf_sessions
  pub rooms : t.bridge_calls ≡ s.bridge_calls
  pub callers : t.ivr_sessions ≡ s.ivr_sessions
  pub recordings : t.siprec_recordings ≡ s.siprec_recordings

pub SameRooms-trans : (s t u : Server) → SameRooms s t → SameRooms t u → SameRooms s u
SameRooms-trans s t u h k = record {
  conferences = k.conferences ∙ h.conferences;
  rooms = k.rooms ∙ h.rooms;
  callers = k.callers ∙ h.callers;
  recordings = k.recordings ∙ h.recordings;
}

pub forget_legs-SameRooms :
    (addresses : List ℕ) (s : Server) → SameRooms s (forget_legs addresses s).0
unfolding forget_legs
forget_legs-SameRooms [] s = ground arith
forget_legs-SameRooms (a ∷ rest) s =
    let t = (forget_found a (get_elem? s.legs a) s).0 in
    SameRooms-trans s t (forget_legs rest t).0 (ground arith) (forget_legs-SameRooms rest t)

cleanup_found-SameRooms :
    (k : Text) (sess : Option Session) (s : Server) → SameRooms s (cleanup_found k sess s).0
unfolding drop_session
cleanup_found-SameRooms k none s = ground arith
cleanup_found-SameRooms k (some sess) s = ground (arith, forget_legs-SameRooms sess.legs s)

pub cleanup_session-SameRooms : (m : Message) (s : Server) → SameRooms s (cleanup_session m s).0
cleanup_session-SameRooms m s = elim (Option-cases (key_of m)) [
  | inl no_key ↦ unfold cleanup_session in rw no_key (ground arith)
  | inr (k, keyed) ↦
      unfold cleanup_session in rw keyed (cleanup_found-SameRooms k (lookup k s.sessions) s)
]

pub enforce_ring_timeout-SameRooms :
    (k : Text) (s : Server) → SameRooms s (enforce_ring_timeout k s).0
enforce_ring_timeout-SameRooms k s = elim (Option-cases (lookup k s.sessions)) [
  | inl gone ↦ unfold enforce_ring_timeout in rw gone (ground arith)
  | inr (sess, found) ↦ elim (Bool-cases sess.terminated) [
    | inl over ↦ unfold enforce_ring_timeout in rw (found, over) (ground arith)
    | inr live ↦
        let t = record s { sessions = insert k (record sess { terminated = true }) s.sessions } in
        unfold enforce_ring_timeout in
        rw (found, live)
          (SameRooms-trans s t (cleanup_session sess.inbound_invite t).0 (ground arith)
            (cleanup_session-SameRooms sess.inbound_invite t))
  ]
]

-- An answered session is no longer there.
pub answer-gone :
    (env : Env) (cfg : Spec) (sess : Session) (s : Server) {k : Text} {found : Session}
    → key_of sess.inbound_invite ≡ some k
    → lookup k s.sessions ≡ some found
    → lookup k (answer env cfg sess s).0.sessions ≡ none
unfolding answer
answer-gone env cfg sess s {k} {found} keyed h =
    let m = sess.inbound_invite in
    let joined = (join_target env cfg sess s).0 in
    let lost = (cancel_losers m sess.winner_call_id joined).0 in
    let same =
      (cancel_losers-IsSilent k m sess.winner_call_id joined).same_sessions
      ∙ (join_target-IsSilent k env cfg sess s).same_sessions in
    let there : lookup k lost.sessions ≡ some found = rw same h in
    rw (cleanup_session_lem k m lost keyed there).1 (rw lookup-delete (rw text_eq_refl refl))
