-- ===== src/Sip/Server/Fanout/Laws.antt =====
-- What each handler of a fanout does to the caller's final answers and to the session.
use sipbridge.Config.{Spec}
use sipbridge.Maps.Laws.{lookup-insert, lookup-delete}
use sipbridge.Maps.{lookup, insert}
use sipbridge.Prelude.{
  ℕ, ◌≤◌, ℤ, true, ◌≡◌, refl, ap, ◌∙◌, none, some, [], ◌∷◌, ◌++◌, map, arith, if◌then◌else◌,
  Bool-cases, Option-cases, inl, inr,
}
use sipbridge.Sip.Message.{Message}
use sipbridge.Sip.Server.Fanout.Answers.{
  answers, refusals, ringing, Spends, SpendsOrRefuses, Spends-SpendsOrRefuses, answers-append,
  answers-send_cancel, join_target-IsSilent, cancel_losers-IsSilent, cleanup_session_lem,
}
use sipbridge.Sip.Server.Fanout.{
  Env, cleanup_session, cancel_losers, join_target, answer, give_up, session_response,
  fanout_response, enforce_ring_timeout, note_status, won, own_media, all_final,
}
use sipbridge.Sip.Server.Keys.{key_of}
use sipbridge.Sip.Server.{Leg, Session, Server, Step, ◌⨟◌, reply, legs_at, is_success, send_cancel}
use sipbridge.Text.Laws.{text_eq_iff}
use sipbridge.Text.{Text, text_eq, is_empty}

-- A reply to the session's own INVITE counts for its key alone.
answers-reply :
    (key : Text) (peer status : ℕ) (m : Message) {k : Text}
    → key_of m ≡ some k
    → answers key (reply peer m status ∷ []) ≤ (if text_eq k key then 1 else 0)
unfolding answers
answers-reply key peer status m {k} h = ground arith

module _ (key : Text) (m : Message) {k : Text} (keyed : key_of m ≡ some k) where
  -- A step that keeps the sessions and answers at most the session `k`, and then its cleanup.
  cleanup-Spends :
      (s : Server) (st : Step) {sess now : Session}
      → lookup k s.sessions ≡ some sess
      → lookup k st.0.sessions ≡ some now
      → (ringing key st.0 ≡ ringing key s)
      → answers key st.1 ≤ (if text_eq k key then 1 else 0)
      → Spends key s (st ⨟ cleanup_session m)
  cleanup-Spends s (t, es) found kept same few =
      let done = cleanup_session_lem key m t keyed kept in
      unfold ringing in
      ground (
        arith,
        done,
        answers-append key es (cleanup_session m t).1,
        lookup-delete key k t.sessions,
        text_eq_iff k key,
      )

answer-Spends :
    (key : Text) (env : Env) (cfg : Spec) (sess : Session) (s : Server) {k : Text} {found : Session}
    → key_of sess.inbound_invite ≡ some k
    → lookup k s.sessions ≡ some found
    → Spends key s (answer env cfg sess s)
unfolding answer
answer-Spends key env cfg sess s {k} {found} keyed h =
    let m = sess.inbound_invite in
    let joined = join_target env cfg sess s in
    let lost = cancel_losers m sess.winner_call_id joined.0 in
    let j = join_target-IsSilent key env cfg sess s in
    let c = cancel_losers-IsSilent key m sess.winner_call_id joined.0 in
    let same = c.same_sessions ∙ j.same_sessions in
    let there : lookup k lost.0.sessions ≡ some found = rw same h in
    cleanup-Spends key m keyed s
      (((s, reply sess.inbound_remote m 200 ∷ []) ⨟ join_target env cfg sess)
        ⨟ cancel_losers m sess.winner_call_id)
      h there (unfold ringing in rw same)
      (omega (
        arith,
        answers-reply key sess.inbound_remote 200 m keyed,
        answers-append key (reply sess.inbound_remote m 200 ∷ []) joined.1,
        answers-append key ((reply sess.inbound_remote m 200 ∷ []) ++ joined.1) lost.1,
        j.no_answer,
        c.no_answer,
      ))

answers-refusal :
    (key : Text) (peer : ℕ) (m : Message)
    → refusals key (reply peer m 480 ∷ []) ≡ answers key (reply peer m 480 ∷ [])
unfolding answers refusals
answers-refusal key peer m = ground arith

-- The session stays.
give_up-SpendsOrRefuses :
    (key : Text) (sess : Session) (s : Server) {k : Text} {found : Session}
    → key_of sess.inbound_invite ≡ some k
    → lookup k s.sessions ≡ some found
    → SpendsOrRefuses key s (give_up sess s)
unfolding give_up
give_up-SpendsOrRefuses key sess s {k} keyed h =
    let same = answers-refusal key sess.inbound_remote sess.inbound_invite in
    let few = answers-reply key sess.inbound_remote 480 sess.inbound_invite keyed in
    let there : (if text_eq k key then 1 else 0) ≤ ringing key s =
      unfold ringing in ground (arith, h, text_eq_iff k key) in
    record { few = omega (arith, same); refused = omega (arith, same, few, there) }

quiet-SpendsOrRefuses : (key : Text) (s : Server) → SpendsOrRefuses key s (s, [])
unfolding answers
quiet-SpendsOrRefuses key s = Spends-SpendsOrRefuses key s (s, []) (omega arith)

-- A step of a state with the same sessions.
SpendsOrRefuses-of_eq :
    (key : Text) (s t : Server) (st : Step)
    → ringing key t ≡ ringing key s
    → SpendsOrRefuses key t st
    → SpendsOrRefuses key s st
SpendsOrRefuses-of_eq key s t st same h = record {
  few = omega (arith, same, h.few);
  refused = omega (arith, same, h.refused);
}

-- A session written back under its key leaves the dialogs as they are.
pub ringing-insert :
    (key k : Text) (sess new : Session) (s t : Server)
    → lookup k s.sessions ≡ some sess
    → t.sessions ≡ insert k new s.sessions
    → (ringing key t ≡ ringing key s) × (lookup k t.sessions ≡ some new)
unfolding ringing
ringing-insert key k sess new s t h e = rw e (
    ground (
      arith,
      lookup-insert key k new s.sessions,
      lookup-insert k k new s.sessions,
      text_eq_iff k key,
      text_eq_iff k k,
    ))

pub note_status-sessions :
    (status : ℤ) (a : ℕ) (leg : Leg) (s : Server)
    → (note_status status a leg s).sessions ≡ s.sessions
note_status-sessions status a leg s = ground arith

module _ (key : Text) (cfg : Spec) where
  -- An answer after the session was written back.
  written-Spends :
      (env : Env) (k : Text) (sess new : Session) (s t : Server)
      → key_of new.inbound_invite ≡ some k
      → lookup k s.sessions ≡ some sess
      → t.sessions ≡ insert k new s.sessions
      → Spends key s (answer env cfg new t)
  written-Spends env k sess new s t keyed h e =
      let (same, there) = ringing-insert key k sess new s t h e in
      omega (arith, same, answer-Spends key env cfg new t keyed there)

  session_response-SpendsOrRefuses :
      (env : Env) (status : ℤ) (call_id : Text) (a : ℕ) (leg : Leg) (sess : Session) (s : Server)
      → key_of sess.inbound_invite ≡ some leg.session_key
      → lookup leg.session_key s.sessions ≡ some sess
      → SpendsOrRefuses key s (session_response env cfg status call_id a leg sess s)
  session_response-SpendsOrRefuses env status call_id a leg sess s keyed h =
      let t = note_status status a leg s in
      let kept = note_status-sessions status a leg s in
      let there : lookup leg.session_key t.sessions ≡ some sess = rw kept h in
      let same : ringing key t ≡ ringing key s = unfold ringing in rw kept in
      let written = λ (new : Session). ap (insert leg.session_key new) kept in
      elim (Bool-cases (is_success status)) [
        | inl two ↦
            unfold session_response in
            rw two (
              Spends-SpendsOrRefuses key s _ (
                written-Spends (own_media call_id (won call_id sess) env) leg.session_key sess
                  (won call_id sess) s
                  (record t { sessions = insert leg.session_key (won call_id sess) t.sessions })
                  keyed h (written (won call_id sess))))
        | inr other ↦ elim (Bool-cases (is_empty sess.winner_call_id)) [
          | inr already ↦
              unfold session_response in
              rw (other, already)
                (Spends-SpendsOrRefuses key s _ (
                  written-Spends (record env { media = none }) leg.session_key sess
                    (record sess { terminated = true }) s
                    (record t {
                      sessions =
                          insert leg.session_key (record sess { terminated = true }) t.sessions;
                    })
                    keyed h (written (record sess { terminated = true }))))
          | inl none_yet ↦ elim (Bool-cases (all_final (legs_at t.legs sess.legs))) [
            | inl final ↦
                unfold session_response in
                rw (other, none_yet, final)
                  (SpendsOrRefuses-of_eq key s t (give_up sess t) same
                    (give_up-SpendsOrRefuses key sess t keyed there))
            | inr waiting ↦
                unfold session_response in
                rw (other, none_yet, waiting)
                  (SpendsOrRefuses-of_eq key s t (t, []) same (quiet-SpendsOrRefuses key t))
          ]
        ]
      ]

  pub fanout_response-SpendsOrRefuses :
      (env : Env) (msg : Message) (call_id : Text) (a : ℕ) (leg : Leg) (s : Server)
      → ((sess : Session)
          → lookup leg.session_key s.sessions ≡ some sess
          → key_of sess.inbound_invite ≡ some leg.session_key)
      → SpendsOrRefuses key s (fanout_response env cfg msg call_id a leg s)
  fanout_response-SpendsOrRefuses env msg call_id a leg s keyed =
      elim (Option-cases (lookup leg.session_key s.sessions)) [
        | inl gone ↦ unfold fanout_response in rw gone (quiet-SpendsOrRefuses key s)
        | inr (sess, found) ↦ elim (Bool-cases sess.terminated) [
          | inl over ↦ unfold fanout_response in rw (found, over) (quiet-SpendsOrRefuses key s)
          | inr live ↦
              unfold fanout_response in
              rw (found, live)
                (session_response-SpendsOrRefuses env msg.status_code call_id a leg sess s
                  (keyed sess found) found)
        ]
      ]

module _ (key : Text) where
  -- The session is marked as terminated, its INVITE answered once, and the session cleaned up.
  pub ended-Spends :
      (peer status : ℕ) (k : Text) (sess : Session) (s : Server)
      → key_of sess.inbound_invite ≡ some k
      → lookup k s.sessions ≡ some sess
      → Spends key s (
          (
            record s { sessions = insert k (record sess { terminated = true }) s.sessions },
            map send_cancel (legs_at s.legs sess.legs)
                ++ reply peer sess.inbound_invite status ∷ [],
          )
          ⨟ cleanup_session sess.inbound_invite)
  ended-Spends peer status k sess s keyed h =
      let ended = record sess { terminated = true } in
      let t = record s { sessions = insert k ended s.sessions } in
      let (same, there) = ringing-insert key k sess ended s t h refl in
      cleanup-Spends key sess.inbound_invite keyed s _ h there same (
        omega (
          arith,
          answers-append key (map send_cancel (legs_at s.legs sess.legs))
              (reply peer sess.inbound_invite status ∷ []),
          answers-send_cancel key (legs_at s.legs sess.legs),
          answers-reply key peer status sess.inbound_invite keyed,
        ))

  pub enforce_ring_timeout-Spends :
      (k : Text) (s : Server)
      → ((sess : Session) → lookup k s.sessions ≡ some sess → key_of sess.inbound_invite ≡ some k)
      → Spends key s (enforce_ring_timeout k s)
  enforce_ring_timeout-Spends k s keyed = elim (Option-cases (lookup k s.sessions)) [
    | inl gone ↦ unfold enforce_ring_timeout answers in rw gone (omega arith)
    | inr (sess, found) ↦ elim (Bool-cases sess.terminated) [
      | inl over ↦ unfold enforce_ring_timeout answers in rw (found, over) (omega arith)
      | inr live ↦
          unfold enforce_ring_timeout in
          rw (found, live) (ended-Spends sess.inbound_remote 408 k sess s (keyed sess found) found)
    ]
  ]
