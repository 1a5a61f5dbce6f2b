-- ===== src/Sip/Server/Run/Keyed.antt =====
-- No operation between INVITEs files a session that was not there: a session of the new state is
-- one of the old state, with the same INVITE. So sessions stay under the keys of their INVITEs.
use sipbridge.Config.{Spec}
use sipbridge.Maps.Laws.{lookup-insert, lookup-delete}
use sipbridge.Maps.{lookup, insert, delete}
use sipbridge.Prelude.{
  ℕ, ℤ, true, ◌≡◌, refl, ap, ◌∙◌, none, some, [], arith, Bool-cases, Option-cases, inl, inr,
}
use sipbridge.Sip.Message.{Message}
use sipbridge.Sip.Server.Fanout.Answers.{
  cleanup_session_lem, join_target-IsSilent, cancel_losers-IsSilent,
}
use sipbridge.Sip.Server.Fanout.Laws.{note_status-sessions}
use sipbridge.Sip.Server.Fanout.{
  Env, cleanup_session, join_target, cancel_losers, answer, give_up, session_response,
  fanout_response, enforce_ring_timeout, note_status, won, own_media, all_final,
}
use sipbridge.Sip.Server.Keys.{key_of}
use sipbridge.Sip.Server.{Leg, Session, Server, legs_at, is_success}
use sipbridge.Text.Laws.{text_eq_iff}
use sipbridge.Text.{Text, is_empty, text_eq}

-- A session is filed under the key of its INVITE.
abbrev pub WellKeyed : Server → Type 0
WellKeyed s =
    (k : Text) (sess : Session)
    → lookup k s.sessions ≡ some sess
    → key_of sess.inbound_invite ≡ some k

-- `t` has no session that `s` had not.
abbrev pub Shrinks : Server → Server → Type 0
Shrinks s t =
    (k : Text) (sess : Session)
    → lookup k t.sessions ≡ some sess
    → (old : Session) × (lookup k s.sessions ≡ some old)
      × (sess.inbound_invite ≡ old.inbound_invite)

pub Shrinks-WellKeyed : (s t : Server) → Shrinks s t → WellKeyed s → WellKeyed t
Shrinks-WellKeyed s t h keyed k sess found =
    let (old, there, same) = h k sess found in rw same (keyed k old there)

pub Shrinks-trans : (s t u : Server) → Shrinks s t → Shrinks t u → Shrinks s u
Shrinks-trans s t u h g k sess found =
    let (mid, there, same) = g k sess found in
    let (old, here, same') = h k mid there in (old, here, same ∙ same')

pub Shrinks-of_eq : (s t : Server) → t.sessions ≡ s.sessions → Shrinks s t
Shrinks-of_eq s t e k sess found = (sess, rw (← e) found, refl)

pub Shrinks-delete : (s t : Server) (k : Text) → t.sessions ≡ delete k s.sessions → Shrinks s t
Shrinks-delete s t k e j sess found =
    (sess, ground (arith, lookup-delete j k s.sessions, rw e at found), refl)

pub Shrinks-insert :
    (s t : Server) (k : Text) (old new : Session)
    → lookup k s.sessions ≡ some old
    → new.inbound_invite ≡ old.inbound_invite
    → t.sessions ≡ insert k new s.sessions
    → Shrinks s t
Shrinks-insert s t k old new there same e j sess found =
    let stored = rw e at found in
    elim (Bool-cases (text_eq k j)) [
      | inl here ↦ (
        old,
        ground (arith, text_eq_iff k j, there, here),
        ground (arith, lookup-insert j k new s.sessions, stored, here, same),
      )
      | inr other ↦ (sess, ground (arith, lookup-insert j k new s.sessions, stored, other), refl)
    ]

pub cleanup_session-Shrinks : (m : Message) (s : Server) → Shrinks s (cleanup_session m s).0
cleanup_session-Shrinks m s = elim (Option-cases (key_of m)) [
  | inl none_given ↦
      Shrinks-of_eq s (cleanup_session m s).0 (unfold cleanup_session in rw none_given)
  | inr (k, keyed) ↦ elim (Option-cases (lookup k s.sessions)) [
    | inl gone ↦
        Shrinks-of_eq s (cleanup_session m s).0 (unfold cleanup_session in rw (keyed, gone))
    | inr (sess, found) ↦
        Shrinks-delete s (cleanup_session m s).0 k (cleanup_session_lem k m s keyed found).1
  ]
]

answer-Shrinks :
    (env : Env) (cfg : Spec) (sess : Session) (s : Server) → Shrinks s (answer env cfg sess s).0
unfolding answer
answer-Shrinks env cfg sess s =
    let m = sess.inbound_invite in
    let joined = (join_target env cfg sess s).0 in
    let lost = (cancel_losers m sess.winner_call_id joined).0 in
    Shrinks-trans s lost (cleanup_session m lost).0
      (Shrinks-of_eq s lost (
        (cancel_losers-IsSilent [] m sess.winner_call_id joined).same_sessions
        ∙ (join_target-IsSilent [] env cfg sess s).same_sessions))
      (cleanup_session-Shrinks m lost)

module _ (cfg : Spec) where
  session_response-Shrinks :
      (env : Env) (status : ℤ) (call_id : Text) (a : ℕ) (leg : Leg) (sess : Session) (s : Server)
      → lookup leg.session_key s.sessions ≡ some sess
      → Shrinks s (session_response env cfg status call_id a leg sess s).0
  session_response-Shrinks env status call_id a leg sess s h =
      let t = note_status status a leg s in
      let k = leg.session_key in
      let kept = note_status-sessions status a leg s in
      let answered = λ (e : Env) (new : Session) (same : new.inbound_invite ≡ sess.inbound_invite).
        let u = record t { sessions = insert k new t.sessions } in
        Shrinks-trans s u (answer e cfg new u).0
          (Shrinks-insert s u k sess new h same (ap (insert k new) kept))
          (answer-Shrinks e cfg new u) in
      elim (Bool-cases (is_success status)) [
        | inl two ↦
            unfold session_response in
            rw two (answered (own_media call_id (won call_id sess) env) (won call_id sess) refl)
        | inr other ↦ elim (Bool-cases (is_empty sess.winner_call_id)) [
          | inr already ↦
              unfold session_response in
              rw (other, already)
                (answered (record env { media = none }) (record sess { terminated = true }) refl)
          | inl none_yet ↦ elim (Bool-cases (all_final (legs_at t.legs sess.legs))) [
            | inl final ↦
                unfold session_response give_up in
                rw (other, none_yet, final) (Shrinks-of_eq s t kept)
            | inr waiting ↦
                unfold session_response in rw (other, none_yet, waiting) (Shrinks-of_eq s t kept)
          ]
        ]
      ]

  pub fanout_response-Shrinks :
      (env : Env) (msg : Message) (call_id : Text) (a : ℕ) (leg : Leg) (s : Server)
      → Shrinks s (fanout_response env cfg msg call_id a leg s).0
  fanout_response-Shrinks env msg call_id a leg s =
      elim (Option-cases (lookup leg.session_key s.sessions)) [
        | inl gone ↦ unfold fanout_response in rw gone (Shrinks-of_eq s s refl)
        | inr (sess, found) ↦ elim (Bool-cases sess.terminated) [
          | inl over ↦ unfold fanout_response in rw (found, over) (Shrinks-of_eq s s refl)
          | inr live ↦
              unfold fanout_response in
              rw (found, live)
                (session_response-Shrinks env msg.status_code call_id a leg sess s found)
        ]
      ]

-- A session marked as terminated, and then cleaned up.
pub ended-Shrinks :
    (k : Text) (sess : Session) (m : Message) (s : Server)
    → lookup k s.sessions ≡ some sess
    → Shrinks s
        (cleanup_session m
          (record s { sessions = insert k (record sess { terminated = true }) s.sessions })).0
ended-Shrinks k sess m s h =
    let t = record s { sessions = insert k (record sess { terminated = true }) s.sessions } in
    Shrinks-trans s t (cleanup_session m t).0
      (Shrinks-insert s t k sess (record sess { terminated = true }) h refl refl)
      (cleanup_session-Shrinks m t)

pub enforce_ring_timeout-Shrinks : (k : Text) (s : Server) → Shrinks s (enforce_ring_timeout k s).0
enforce_ring_timeout-Shrinks k s = elim (Option-cases (lookup k s.sessions)) [
  | inl gone ↦ unfold enforce_ring_timeout in rw gone (Shrinks-of_eq s s refl)
  | inr (sess, found) ↦ elim (Bool-cases sess.terminated) [
    | inl over ↦ unfold enforce_ring_timeout in rw (found, over) (Shrinks-of_eq s s refl)
    | inr live ↦
        unfold enforce_ring_timeout in
        rw (found, live) (ended-Shrinks k sess sess.inbound_invite s found)
  ]
]
