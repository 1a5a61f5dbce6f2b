-- ===== src/Sip/Server/Run/Answers.antt =====
-- The final answers that an INVITE gets over a run of events.
use sipbridge.Config.{Spec}
use sipbridge.Prelude.{
  ℕ, zero, suc, length, ◌+◌, ◌*◌, ◌≤◌, true, false, not, ◌||◌, ◌≡◌, sym, List, [], ◌∷◌, arith,
  Bool-cases, inl, inr, if◌then◌else◌, All,
}
use mathlib.Core.Path.{subst}
use sipbridge.Sip.Message.{Message}
use sipbridge.Sip.Server.Fanout.Answers.{
  answers, answers_key, answers-append, refusals, refusals-append, ringing,
}
use sipbridge.Sip.Server.Fanout.{Env}
use sipbridge.Sip.Server.Run.Handlers.{
  Keeps, IsSilent-Keeps, quiet-Keeps, handle_response-Settles, Settles, Keeps-Settles,
  enforce_ring_timeout-Keeps,
}
use sipbridge.Sip.Server.Run.Keyed.{WellKeyed, Shrinks-WellKeyed}
use sipbridge.Sip.Server.Run.Teardown.{
  cleanup_session-Keeps, ringing-Shrinks, reply-Keeps, handle_inbound_bye-Keeps,
  handle_inbound_cancel-Keeps, drop_bridge_call-Keeps,
}
use sipbridge.Sip.Server.Run.{
  Event, packet, ring_timer, conference_timer, operator_drop, failed_cleanup, receive,
  serve_request, react, run, in_dialog,
}
use sipbridge.Sip.Server.Teardown.{handle_response}
use sipbridge.Sip.Server.Teardown.Silent.{conference_timeout-IsSilent}
use sipbridge.Sip.Server.{Server}
use sipbridge.Text.{Text, codes, text_eq}

abbrev pub InDialog : List Event → Type 0
InDialog = All (λ e. in_dialog e ≡ true)

*-mono : {a b : ℕ} (n : ℕ) → a ≤ b → a * n ≤ b * n
*-mono zero h = omega arith
*-mono (suc n) h = omega (arith, *-mono n h, h)

module _ (key : Text) (cfg : Spec) where
  request-Keeps :
      (peer : ℕ) (msg : Message) (s : Server)
      → answers_key key msg ≡ false
      → WellKeyed s
      → Keeps key s (serve_request peer msg s)
  request-Keeps peer msg s other keyed =
      elim (Bool-cases
        (text_eq msg.method (codes "OPTIONS") || text_eq msg.method (codes "REGISTER"))) [
          | inl a ↦ unfold serve_request in rw a (reply-Keeps key peer 200 msg s other)
          | inr a ↦ elim (Bool-cases (text_eq msg.method (codes "ACK"))) [
            | inl b ↦ unfold serve_request in rw (a, b) (quiet-Keeps key cfg s)
            | inr b ↦ elim (Bool-cases (text_eq msg.method (codes "BYE"))) [
              | inl c ↦
                  unfold serve_request in
                  rw (a, b, c) (handle_inbound_bye-Keeps key peer msg s other)
              | inr c ↦ elim (Bool-cases (text_eq msg.method (codes "CANCEL"))) [
                | inl d ↦
                    unfold serve_request in
                    rw (a, b, c, d) (handle_inbound_cancel-Keeps key peer msg s other keyed)
                | inr d ↦
                    unfold serve_request in rw (a, b, c, d) (reply-Keeps key peer 501 msg s other)
              ]
            ]
          ]
        ]

  receive-Settles :
      (env : Env) (peer : ℕ) (msg : Message) (s : Server)
      → in_dialog (packet env peer msg) ≡ true
      → WellKeyed s
      → Settles key s (receive cfg env peer msg s)
  receive-Settles env peer msg s fits keyed = elim (Bool-cases msg.is_request) [
    | inl req ↦
        unfold receive in
        (subst
          (λ b.
            Settles key s
              (if not b then handle_response env cfg msg s else serve_request peer msg s))
          (sym req)
          (Keeps-Settles key s (serve_request peer msg s)
            (request-Keeps peer msg s (ground arith) keyed)))
    | inr resp ↦ unfold receive in rw resp (handle_response-Settles key cfg env msg s keyed)
  ]

  react-Settles :
      (e : Event) (s : Server) → in_dialog e ≡ true → WellKeyed s → Settles key s (react cfg e s)
  unfolding react
  react-Settles (packet env peer msg) s fits keyed = receive-Settles env peer msg s fits keyed
  react-Settles (ring_timer k) s fits keyed =
      Keeps-Settles key s _ (enforce_ring_timeout-Keeps key k s keyed)
  react-Settles (conference_timer k) s fits keyed =
      Keeps-Settles key s _ (IsSilent-Keeps key s _ (conference_timeout-IsSilent key k s))
  react-Settles (operator_drop bridge_id k) s fits keyed =
      Keeps-Settles key s _ (drop_bridge_call-Keeps key bridge_id k s)
  react-Settles (failed_cleanup inbound) s fits keyed =
      Keeps-Settles key s _ (cleanup_session-Keeps key inbound s)

  -- Over any run of responses, timers, BYEs, CANCELs, other requests, operator drops and cleanups
  -- that follow a 480 (no INVITE and no INFO), from a state whose sessions are filed under the keys
  -- of their INVITEs. The final answers sent to the INVITE of a dialog, plus 1 if its session is
  -- still there at the end, are at most the answers 480 among them, plus 1 if its session was there
  -- at the start: so at most one of 200, 408 and 487 is sent. And the answers 480 are at most as
  -- many
  -- as the events if the session was there at the start, and none otherwise: a dialog without a
  -- session is not answered at all.
  pub run-answers_once :
      (es : List Event) (s : Server)
      → InDialog es
      → WellKeyed s
      → (answers key (run cfg es s).1 + ringing key (run cfg es s).0
          ≤ ringing key s + refusals key (run cfg es s).1)
        × (refusals key (run cfg es s).1 ≤ ringing key s * length es)
  unfolding run
  run-answers_once [] s fits keyed = unfold answers refusals in (omega arith, omega arith)
  run-answers_once (e ∷ es) s fits keyed =
      let st = react cfg e s in
      let rest = run cfg es st.0 in
      let h = react-Settles e s fits.0 keyed in
      let later = run-answers_once es st.0 fits.1 (Shrinks-WellKeyed s st.0 h.shrinks keyed) in
      let fewer = *-mono (length es) (ringing-Shrinks key s st.0 h.shrinks) in
      let sent = answers-append key st.1 rest.1 in
      let refused = refusals-append key st.1 rest.1 in
      (
        omega (arith, h.spends.few, later.0, sent, refused),
        omega (arith, h.spends.refused, later.1, fewer, refused),
      )
