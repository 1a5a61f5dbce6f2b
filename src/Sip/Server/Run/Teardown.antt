-- ===== src/Sip/Server/Run/Teardown.antt =====
-- What BYE, CANCEL and the operator's drop do to the final answers and to the sessions.
use sipbridge.Maps.{lookup, insert}
use sipbridge.Prelude.{
  ℕ, ◌≤◌, true, false, ◌≡◌, refl, Option, none, some, [], ◌∷◌, ◌++◌, arith, Bool-cases,
  Option-cases, inl, inr,
}
use sipbridge.Sip.Message.{Message}
use sipbridge.Sip.Server.Bridges.{find_call, remove_call, close_media}
use sipbridge.Sip.Server.Fanout.Answers.{answers, answers_key, ringing, cleanup_session_lem}
use sipbridge.Sip.Server.Fanout.Laws.{ended-Spends}
use sipbridge.Sip.Server.Fanout.{cleanup_session}
use sipbridge.Sip.Server.Keys.{key_of, ivrconf_prefix, bridge_logical_key}
use sipbridge.Sip.Server.Run.Handlers.{Keeps, IsSilent-Keeps, Keeps-⨟}
use sipbridge.Sip.Server.Run.Keyed.{
  WellKeyed, Shrinks, Shrinks-WellKeyed, Shrinks-insert, Shrinks-of_eq, cleanup_session-Shrinks,
  ended-Shrinks,
}
use sipbridge.Sip.Server.Teardown.Silent.{
  stop_siprec_recording-IsSilent, hang_up_legs-no_answer, cleanup_bridge_call_by_key-IsSilent,
  end_ivr-IsSilent, end_conf-IsSilent, close_media-no_answer, remove_call-sessions,
}
use sipbridge.Sip.Server.Siprec.{stop_siprec_recording}
use sipbridge.Sip.Server.Teardown.{
  handle_inbound_bye, handle_inbound_cancel, drop_bridge_call, bye_session, bye_at, cancel_session,
  cancel_at, end_conf, end_ivr, conf_capture, hang_up_legs, cleanup_bridge_call_by_key,
}
use sipbridge.Sip.Server.{Server, Step, ◌⨟◌, reply, legs_at, bye_caller}
use sipbridge.Text.{Text, is_empty, trim_space}

-- No new session, so no dialog that is rung anew.
pub ringing-Shrinks : (key : Text) (s t : Server) → Shrinks s t → ringing key t ≤ ringing key s
ringing-Shrinks key s t h = elim (Option-cases (lookup key t.sessions)) [
  | inl gone ↦ unfold ringing in rw gone (omega arith)
  | inr (sess, found) ↦
      let (old, there, same) = h key sess found in unfold ringing in rw (found, there) (omega arith)
]

-- No answer, and no new session.
Keeps-of :
    (key : Text) (s : Server) (st : Step) → answers key st.1 ≡ 0 → Shrinks s st.0 → Keeps key s st
Keeps-of key s st none_sent h = record {
  spends = omega (arith, ringing-Shrinks key s st.0 h);
  shrinks = h;
}

pub cleanup_session-Keeps :
    (key : Text) (m : Message) (s : Server) → Keeps key s (cleanup_session m s)
cleanup_session-Keeps key m s =
    Keeps-of key s (cleanup_session m s) sent (cleanup_session-Shrinks m s)
  where
    sent : answers key (cleanup_session m s).1 ≡ 0
    sent = elim (Option-cases (key_of m)) [
      | inl no_key ↦ unfold cleanup_session answers in rw no_key
      | inr (k, keyed) ↦ elim (Option-cases (lookup k s.sessions)) [
        | inl gone ↦ unfold cleanup_session answers in rw (keyed, gone)
        | inr (sess, found) ↦ (cleanup_session_lem key m s keyed found).0
      ]
    ]

module _ (key : Text) where
  bye_session-Keeps :
      (msg : Message) (k : Text) (s : Server)
      → Keeps key s (bye_session msg k (lookup k s.sessions) s)
  bye_session-Keeps msg k s = elim (Option-cases (lookup k s.sessions)) [
    | inl gone ↦ rw gone (Keeps-of key s (s, []) (unfold answers in refl) (Shrinks-of_eq s s refl))
    | inr (sess, found) ↦
        let ended = record sess { terminated = true } in
        let t = record s { sessions = insert k ended s.sessions } in
        let legs = legs_at s.legs sess.legs in
        rw found (
          Keeps-⨟ key s (t, hang_up_legs sess.winner_call_id legs) (cleanup_session msg)
            (Keeps-of key s (t, hang_up_legs sess.winner_call_id legs)
              (hang_up_legs-no_answer key sess.winner_call_id legs)
              (Shrinks-insert s t k sess ended found refl refl))
            (cleanup_session-Keeps key msg t))
  ]

  bye_at-Keeps : (msg : Message) (k : Option Text) (s : Server) → Keeps key s (bye_at msg k s)
  bye_at-Keeps msg none s = Keeps-of key s (s, []) (unfold answers in refl) (Shrinks-of_eq s s refl)
  bye_at-Keeps msg (some k) s =
      let fs = lookup (ivrconf_prefix ++ k) s.ivr_conf_sessions in
      let ended = end_conf (ivrconf_prefix ++ k) fs s in
      let conf : Step = (ended, conf_capture fs) in
      let bye = λ (t : Server). bye_session msg k (lookup k t.sessions) t in
      let after_ivr = (end_ivr k ended).0 in
      Keeps-⨟ key s (conf ⨟ end_ivr k ⨟ bye) (cleanup_bridge_call_by_key k)
        (Keeps-⨟ key s (conf ⨟ end_ivr k) bye
          (Keeps-⨟ key s conf (end_ivr k)
            (IsSilent-Keeps key s conf (end_conf-IsSilent key (ivrconf_prefix ++ k) fs s))
            (IsSilent-Keeps key ended (end_ivr k ended) (end_ivr-IsSilent key k ended)))
          (bye_session-Keeps msg k after_ivr))
        (IsSilent-Keeps key (bye after_ivr).0 (cleanup_bridge_call_by_key k (bye after_ivr).0)
          (cleanup_bridge_call_by_key-IsSilent key k (bye after_ivr).0))

  cancel_session-Keeps :
      (peer : ℕ) (k : Text) (s : Server)
      → WellKeyed s
      → Keeps key s (cancel_session peer k (lookup k s.sessions) s)
  cancel_session-Keeps peer k s keyed = elim (Option-cases (lookup k s.sessions)) [
    | inl gone ↦ rw gone (Keeps-of key s (s, []) (unfold answers in refl) (Shrinks-of_eq s s refl))
    | inr (sess, found) ↦ elim (Bool-cases sess.terminated) [
      | inl over ↦
          rw (found, over)
            (Keeps-of key s (s, []) (unfold answers in refl) (Shrinks-of_eq s s refl))
      | inr live ↦
          rw (found, live)
            (record {
              spends = ended-Spends key peer 487 k sess s (keyed k sess found) found;
              shrinks = ended-Shrinks k sess sess.inbound_invite s found;
            })
    ]
  ]

  cancel_at-Keeps :
      (peer : ℕ) (k : Option Text) (s : Server) → WellKeyed s → Keeps key s (cancel_at peer k s)
  cancel_at-Keeps peer none s keyed =
      Keeps-of key s (s, []) (unfold answers in refl) (Shrinks-of_eq s s refl)
  cancel_at-Keeps peer (some k) s keyed =
      let ivr = end_ivr k s in
      let cancel = λ (t : Server). cancel_session peer k (lookup k t.sessions) t in
      let h = IsSilent-Keeps key s ivr (end_ivr-IsSilent key k s) in
      let after_cancel = (cancel ivr.0).0 in
      Keeps-⨟ key s (ivr ⨟ cancel) (cleanup_bridge_call_by_key k)
        (Keeps-⨟ key s ivr cancel h
          (cancel_session-Keeps peer k ivr.0 (Shrinks-WellKeyed s ivr.0 h.shrinks keyed)))
        (IsSilent-Keeps key after_cancel (cleanup_bridge_call_by_key k after_cancel)
          (cleanup_bridge_call_by_key-IsSilent key k after_cancel))

  -- The reply to a request that is no INVITE of the dialog.
  pub reply-Keeps :
      (peer status : ℕ) (m : Message) (s : Server)
      → answers_key key m ≡ false
      → Keeps key s (s, reply peer m status ∷ [])
  reply-Keeps peer status m s h =
      Keeps-of key s (s, reply peer m status ∷ []) (unfold answers in rw h) (Shrinks-of_eq s s refl)

  pub handle_inbound_bye-Keeps :
      (peer : ℕ) (msg : Message) (s : Server)
      → answers_key key msg ≡ false
      → Keeps key s (handle_inbound_bye peer msg s)
  unfolding handle_inbound_bye
  handle_inbound_bye-Keeps peer msg s h =
      Keeps-⨟ key s (s, reply peer msg 200 ∷ []) (bye_at msg (key_of msg))
        (reply-Keeps peer 200 msg s h) (bye_at-Keeps msg (key_of msg) s)

  pub handle_inbound_cancel-Keeps :
      (peer : ℕ) (msg : Message) (s : Server)
      → answers_key key msg ≡ false
      → WellKeyed s
      → Keeps key s (handle_inbound_cancel peer msg s)
  unfolding handle_inbound_cancel
  handle_inbound_cancel-Keeps peer msg s h keyed =
      Keeps-⨟ key s (s, reply peer msg 200 ∷ []) (cancel_at peer (key_of msg))
        (reply-Keeps peer 200 msg s h) (cancel_at-Keeps peer (key_of msg) s keyed)

  pub drop_bridge_call-Keeps :
      (bridge_id k : Text) (s : Server) → Keeps key s (drop_bridge_call bridge_id k s).0
  drop_bridge_call-Keeps bridge_id k s = elim (Option-cases (find_call bridge_id k s)) [
    | inl gone ↦
        unfold drop_bridge_call in
        rw gone (Keeps-of key s (s, []) (unfold answers in refl) (Shrinks-of_eq s s refl))
    | inr (c, found) ↦ elim (Bool-cases (is_empty (trim_space c.contact_uri))) [
      | inl blank ↦
          unfold drop_bridge_call in
          rw (found, blank)
            (Keeps-of key s (s, []) (unfold answers in refl) (Shrinks-of_eq s s refl))
      | inr ok ↦
          let t = remove_call bridge_id k s in
          let stop = stop_siprec_recording (bridge_logical_key bridge_id k) in
          unfold drop_bridge_call in
          rw (found, ok)
            (Keeps-⨟ key s (t, bye_caller c.remote c ∷ close_media c) stop
              (Keeps-of key s (t, bye_caller c.remote c ∷ close_media c)
                (unfold answers in omega (arith, close_media-no_answer key c))
                (Shrinks-of_eq s t (remove_call-sessions key bridge_id k s)))
              (IsSilent-Keeps key t (stop t)
                (stop_siprec_recording-IsSilent key (bridge_logical_key bridge_id k) t)))
    ]
  ]
