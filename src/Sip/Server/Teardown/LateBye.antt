-- ===== src/Sip/Server/Teardown/LateBye.antt =====
-- A caller's BYE that comes after the answer: `handleResponse` has removed the session by then.
use sipbridge.Config.{Spec}
use sipbridge.Maps.Laws.{lookup-insert}
use sipbridge.Maps.{lookup, insert, delete}
use sipbridge.Prelude.{
  ℕ, true, false, ◌≡◌, refl, ◌∙◌, Option, none, some, List, [], ◌∷◌, ◌++◌, arith,
}
use sipbridge.Sip.Message.{Message}
use sipbridge.Sip.Server.Bridges.{remove_call, close_media, put_call}
use sipbridge.Sip.Server.Fanout.Frame.{answer-gone, cleanup_session-SameRooms}
use sipbridge.Sip.Server.Fanout.{
  Env, answer, join_target, join_room, cancel_losers, cancel_losers_of, fanout_response,
  session_response, note_status, won, own_media,
}
use sipbridge.Sip.Server.Keys.{key_of, ivrconf_prefix, ivr_logical_key, bridge_logical_key}
use sipbridge.Sip.Server.Siprec.{stop_siprec_recording}
use sipbridge.Sip.Server.Teardown.{
  handle_inbound_bye, bye_at, bye_session, end_conf, end_ivr, conf_capture, close_ivr, cleanup_call,
  cleanup_bridge_call_by_key,
}
use sipbridge.Sip.Server.{
  BridgeCall, IvrConf, Leg, Session, Server, Effect, Step, ◌⨟◌, effect_of, close_capture, send_ack,
  send_cancel, send_bye, is_success,
}
use sipbridge.Text.Laws.{text_eq_refl}
use sipbridge.Text.{Text}

-- A request to the far end of a leg.
abbrev is_leg_request : Effect → List Effect → List Effect
is_leg_request (send_ack l) es = send_ack l ∷ es
is_leg_request (send_cancel l) es = send_cancel l ∷ es
is_leg_request (send_bye l) es = send_bye l ∷ es
is_leg_request _ es = es

unfoldable pub leg_requests : List Effect → List Effect
leg_requests [] = []
leg_requests (e ∷ es) = is_leg_request e (leg_requests es)

leg_requests-append :
    (xs ys : List Effect) → leg_requests (xs ++ ys) ≡ leg_requests xs ++ leg_requests ys
unfolding leg_requests
leg_requests-append [] ys = refl
leg_requests-append (x ∷ xs) ys = ground (arith, leg_requests-append xs ys)

join_target-recordings :
    (env : Env) (cfg : Spec) (sess : Session) (s : Server)
    → (join_target env cfg sess s).0.siprec_recordings ≡ s.siprec_recordings
unfolding join_target join_room put_call
join_target-recordings env cfg sess s = ground arith

cancel_losers-recordings :
    (m : Message) (winner : Text) (s : Server)
    → (cancel_losers m winner s).0.siprec_recordings ≡ s.siprec_recordings
unfolding cancel_losers cancel_losers_of
cancel_losers-recordings m winner s = ground arith

answer-recordings :
    (env : Env) (cfg : Spec) (sess : Session) (s : Server)
    → (answer env cfg sess s).0.siprec_recordings ≡ s.siprec_recordings
unfolding answer
answer-recordings env cfg sess s =
    let joined = (join_target env cfg sess s).0 in
    let lost = (cancel_losers sess.inbound_invite sess.winner_call_id joined).0 in
    (cleanup_session-SameRooms sess.inbound_invite lost).recordings
    ∙ (cancel_losers-recordings sess.inbound_invite sess.winner_call_id joined
        ∙ join_target-recordings env cfg sess s)

module _ (key : Text) where
  -- No session of the dialog, and no recording.
  record Idle (s : Server) : Type 0 where
    pub gone : lookup key s.sessions ≡ none
    pub no_recording : s.siprec_recordings ≡ []

  -- A step that reaches no leg, where nothing of the dialog is left.
  record Still (st : Step) : Type 0 where
    pub unheard : leg_requests st.1 ≡ []
    pub idle : Idle st.0

  Still-⨟ :
      (st : Step) (f : Server → Step) → Still st → (Idle st.0 → Still (f st.0)) → Still (st ⨟ f)
  Still-⨟ st f h g =
      let next = g h.idle in
      record {
        unheard = rw (leg_requests-append st.1 (f st.0).1, h.unheard, next.unheard) refl;
        idle = next.idle;
      }

  stop_siprec_recording-Still :
      (logical : Text) (s : Server) → Idle s → Still (stop_siprec_recording logical s)
  unfolding stop_siprec_recording
  stop_siprec_recording-Still logical s h =
      let missing : lookup logical s.siprec_recordings ≡ none =
        rw h.no_recording (unfold lookup in refl) in
      rw missing (record { unheard = unfold leg_requests in refl; idle = h })

  end_ivr-Still : (s : Server) → Idle s → Still (end_ivr key s)
  unfolding end_ivr
  end_ivr-Still s h =
      Still-⨟
        (
          record s { ivr_sessions = delete key s.ivr_sessions },
          close_ivr (lookup key s.ivr_sessions),
        )
        (stop_siprec_recording (ivr_logical_key key))
        (record {
          unheard = unfold leg_requests in ground arith;
          idle = record { gone = h.gone; no_recording = h.no_recording };
        })
        (stop_siprec_recording-Still (ivr_logical_key key) _)

  end_conf-Still :
      (k : Text) (fs : Option IvrConf) (s : Server)
      → Idle s
      → Still (end_conf k fs s, conf_capture fs)
  unfolding leg_requests
  end_conf-Still k none s h = record { unheard = refl; idle = h }
  end_conf-Still k (some fs) s h = record {
    unheard = ground arith;
    idle = record { gone = h.gone; no_recording = h.no_recording };
  }

  cleanup_call-Still :
      (c : Option (Text × BridgeCall)) (s : Server) → Idle s → Still (cleanup_call key c s)
  cleanup_call-Still none s h = record { unheard = unfold leg_requests in refl; idle = h }
  cleanup_call-Still (some (bridge_id, c)) s h =
      let start : Step = (remove_call bridge_id key s, close_media c) in
      let stop = stop_siprec_recording (bridge_logical_key bridge_id key) in
      Still-⨟ (start ⨟ stop) (λ t. (t, effect_of close_capture c.cap))
        (Still-⨟ start stop
          (record {
            unheard = unfold leg_requests close_media in ground arith;
            idle = unfold remove_call in record { gone = h.gone; no_recording = h.no_recording };
          })
          (stop_siprec_recording-Still (bridge_logical_key bridge_id key) start.0))
        (λ t. record { unheard = unfold leg_requests in ground arith; idle = t })

  bye_at-Still : (bye : Message) (s : Server) → Idle s → Still (bye_at bye (some key) s)
  bye_at-Still bye s h =
      let k = ivrconf_prefix ++ key in
      let fs = lookup k s.ivr_conf_sessions in
      let ended : Step = (end_conf k fs s, conf_capture fs) in
      let hang_up = λ (t : Server). bye_session bye key (lookup key t.sessions) t in
      Still-⨟ (ended ⨟ end_ivr key ⨟ hang_up) (cleanup_bridge_call_by_key key)
        (Still-⨟ (ended ⨟ end_ivr key) hang_up
          (Still-⨟ ended (end_ivr key) (end_conf-Still k fs s h) (end_ivr-Still ended.0))
          (λ t. rw t.gone (record { unheard = unfold leg_requests in refl; idle = t })))
        (λ t. unfold cleanup_bridge_call_by_key in cleanup_call-Still _ _ t)

-- The caller's INVITE is answered by a 2xx of a leg, with nothing recorded: the BYE that the same
-- dialog sends afterwards is not passed on. No leg gets a BYE, a CANCEL or an ACK for it.
pub bye_after_answer-Unheard :
    (env : Env) (cfg : Spec) (msg : Message) (call_id : Text) (a : ℕ) (leg : Leg) (sess : Session)
    (s : Server) (peer : ℕ) (bye : Message)
    → lookup leg.session_key s.sessions ≡ some sess
    → sess.terminated ≡ false
    → is_success msg.status_code ≡ true
    → key_of sess.inbound_invite ≡ some leg.session_key
    → key_of bye ≡ some leg.session_key
    → s.siprec_recordings ≡ []
    → leg_requests (handle_inbound_bye peer bye (fanout_response env cfg msg call_id a leg s).0).1
      ≡ []
bye_after_answer-Unheard env cfg msg call_id a leg sess s peer bye found live ok keyed same
      quiet_recorders =
    let t = note_status msg.status_code a leg s in
    let u = record t { sessions = insert leg.session_key (won call_id sess) t.sessions } in
    let e = own_media call_id (won call_id sess) env in
    let there : lookup leg.session_key u.sessions ≡ some (won call_id sess) =
      rw lookup-insert (rw text_eq_refl refl) in
    let recorders : u.siprec_recordings ≡ [] = ground arith in
    let idle : Idle leg.session_key (answer e cfg (won call_id sess) u).0 = record {
      gone = answer-gone e cfg (won call_id sess) u keyed there;
      no_recording = answer-recordings e cfg (won call_id sess) u ∙ recorders;
    } in
    unfold fanout_response session_response handle_inbound_bye in
    rw (found, live, ok, same)
      (unfold leg_requests in
        (bye_at-Still leg.session_key bye (answer e cfg (won call_id sess) u).0 idle).unheard)
