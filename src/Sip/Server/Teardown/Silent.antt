-- ===== src/Sip/Server/Teardown/Silent.antt =====
-- The operations of a teardown that answer no INVITE and leave the ringing sessions alone.
use sipbridge.Maps.{lookup, delete}
use sipbridge.Prelude.{
  ℕ, ◌≡◌, refl, Option, none, some, List, [], ◌∷◌, map, arith, filter, not, ◌&&◌, Bool-cases,
  Option-cases, inl, inr,
}
use sipbridge.Sip.Message.{Message, header}
use sipbridge.Sip.Server.Bridges.{put_call, remove_call, close_media, room_with}
use sipbridge.Sip.Server.Conference.{
  conference_response, enforce_ivr_conf_ring_timeout, cancel_and_close, connect, conf_won,
}
use sipbridge.Sip.Server.Fanout.Answers.{
  answers, answers-append, answers-send_cancel, IsSilent, IsSilent-⨟,
}
use sipbridge.Sip.Server.Keys.{bridge_logical_key, ivr_logical_key}
use sipbridge.Sip.Server.Siprec.{
  clear_siprec_media_forwarding_by_key, hang_up, stop_leg, leg_at, stop_siprec_recording,
  siprec_response,
}
use sipbridge.Sip.Server.Teardown.{
  cleanup_call, cleanup_bridge_call_by_key, end_ivr, end_conf, conf_capture, hang_up_legs,
  close_ivr,
}
use sipbridge.Sip.Server.{
  BridgeCall, IvrConf, IvrSession, Leg, Server, ◌⨟◌, effect_of, close_capture, send_cancel, legs_at,
  is_success,
}
use sipbridge.Text.{Text, text_eq, codes, is_empty}

module _ (key : Text) where
  clear-IsSilent :
      (logical : Text) (s : Server)
      → IsSilent key s (clear_siprec_media_forwarding_by_key logical s)
  unfolding answers clear_siprec_media_forwarding_by_key put_call
  clear-IsSilent logical s = ground arith

  hang_up-no_answer : (leg : Leg) → answers key (hang_up leg) ≡ 0
  unfolding answers
  hang_up-no_answer leg = ground arith

  stop_leg-IsSilent :
      (logical : Text) (leg : Option Leg) (s : Server) → IsSilent key s (stop_leg logical leg s)
  stop_leg-IsSilent logical none s = unfold answers in ground arith
  stop_leg-IsSilent logical (some leg) s =
      let t = record s { siprec_recordings = delete logical s.siprec_recordings } in
      let c = clear-IsSilent logical t in
      IsSilent-⨟ key s (clear_siprec_media_forwarding_by_key logical t)
        (λ u. (record u { legs_by_call_id = delete leg.call_id u.legs_by_call_id }, hang_up leg))
        (record { no_answer = c.no_answer; same_sessions = c.same_sessions })
        (record { no_answer = hang_up-no_answer leg; same_sessions = refl })

  pub stop_siprec_recording-IsSilent :
      (logical : Text) (s : Server) → IsSilent key s (stop_siprec_recording logical s)
  unfolding stop_siprec_recording
  stop_siprec_recording-IsSilent logical s =
      stop_leg-IsSilent logical (leg_at s.legs (lookup logical s.siprec_recordings)) s

  pub siprec_response-IsSilent :
      (msg : Message) (a : ℕ) (leg : Leg) (s : Server)
      → IsSilent key s (siprec_response msg a leg s)
  unfolding answers siprec_response
  siprec_response-IsSilent msg a leg s = ground arith

  pub close_media-no_answer : (bc : BridgeCall) → answers key (close_media bc) ≡ 0
  unfolding answers close_media
  close_media-no_answer bc = ground arith

  pub remove_call-sessions :
      (bridge_id k : Text) (s : Server) → (remove_call bridge_id k s).sessions ≡ s.sessions
  unfolding remove_call
  remove_call-sessions bridge_id k s = refl

  pub hang_up_legs-no_answer :
      (winner : Text) (legs : List Leg) → answers key (hang_up_legs winner legs) ≡ 0
  unfolding answers
  hang_up_legs-no_answer winner legs = ground (arith, answers-send_cancel key legs)

  cleanup_call-IsSilent :
      (k : Text) (c : Option (Text × BridgeCall)) (s : Server) → IsSilent key s (cleanup_call k c s)
  cleanup_call-IsSilent k none s = unfold answers in ground arith
  cleanup_call-IsSilent k (some (bridge_id, c)) s =
      let t = remove_call bridge_id k s in
      let stop = stop_siprec_recording (bridge_logical_key bridge_id k) in
      IsSilent-⨟ key s ((t, close_media c) ⨟ stop) (λ u. (u, effect_of close_capture c.cap))
        (IsSilent-⨟ key s (t, close_media c) stop
          (record {
            no_answer = close_media-no_answer c;
            same_sessions = remove_call-sessions bridge_id k s;
          })
          (stop_siprec_recording-IsSilent (bridge_logical_key bridge_id k) t))
        (record { no_answer = unfold answers in ground arith; same_sessions = refl })

  pub cleanup_bridge_call_by_key-IsSilent :
      (k : Text) (s : Server) → IsSilent key s (cleanup_bridge_call_by_key k s)
  unfolding cleanup_bridge_call_by_key
  cleanup_bridge_call_by_key-IsSilent k s = cleanup_call-IsSilent k (room_with k s.bridge_calls) s

  pub end_ivr-IsSilent : (k : Text) (s : Server) → IsSilent key s (end_ivr k s)
  unfolding end_ivr
  end_ivr-IsSilent k s =
      let t = record s { ivr_sessions = delete k s.ivr_sessions } in
      let found = lookup k s.ivr_sessions in
      IsSilent-⨟ key s (t, close_ivr found) (stop_siprec_recording (ivr_logical_key k))
        (record { no_answer = unfold answers in ground arith; same_sessions = refl })
        (stop_siprec_recording-IsSilent (ivr_logical_key k) t)

  pub end_conf-IsSilent :
      (k : Text) (fs : Option IvrConf) (s : Server)
      → IsSilent key s (end_conf k fs s, conf_capture fs)
  unfolding answers
  end_conf-IsSilent k fs s = ground arith

  cancel_and_close-no_answer : (legs : List Leg) → answers key (cancel_and_close legs) ≡ 0
  unfolding answers cancel_and_close
  cancel_and_close-no_answer [] = refl
  cancel_and_close-no_answer (l ∷ legs) = ground (arith, cancel_and_close-no_answer legs)

  connect-no_answer :
      (ivr_key : Text) (leg : Leg) (iv : Option IvrSession)
      → answers key (connect ivr_key leg iv) ≡ 0
  unfolding answers
  connect-no_answer ivr_key leg iv = ground arith

  conf_won-IsSilent :
      (msg : Message) (call_id : Text) (a : ℕ) (leg : Leg) (fs : IvrConf) (s : Server)
      → IsSilent key s (conf_won msg call_id a leg fs s)
  conf_won-IsSilent msg call_id a leg fs s =
      let winner = record leg { to_header = header msg (codes "to") } in
      let losers = filter (λ (l : Leg). not (text_eq l.call_id call_id)) (legs_at s.legs fs.legs) in
      let iv = lookup fs.ivr_key s.ivr_sessions in
      record {
        no_answer =
            unfold answers in
            omega (
              arith,
              answers-append key (map send_cancel losers) (connect fs.ivr_key winner iv),
              answers-send_cancel key losers,
              connect-no_answer fs.ivr_key winner iv,
            );
        same_sessions = refl;
      }

  pub conference_response-IsSilent :
      (msg : Message) (call_id : Text) (a : ℕ) (leg : Leg) (s : Server)
      → IsSilent key s (conference_response msg call_id a leg s)
  conference_response-IsSilent msg call_id a leg s =
      elim (Option-cases (lookup leg.session_key s.ivr_conf_sessions)) [
        | inl gone ↦ unfold conference_response answers in rw gone (ground arith)
        | inr (fs, found) ↦
            elim (Bool-cases
              (not fs.terminated && is_success msg.status_code && is_empty fs.winner_call_id)) [
                | inl wins ↦
                    unfold conference_response in
                    rw (found, wins) (conf_won-IsSilent msg call_id a leg fs s)
                | inr ignored ↦
                    unfold conference_response answers in rw (found, ignored) (ground arith)
              ]
      ]

  pub conference_timeout-IsSilent :
      (k : Text) (s : Server) → IsSilent key s (enforce_ivr_conf_ring_timeout k s)
  unfolding enforce_ivr_conf_ring_timeout answers
  conference_timeout-IsSilent k s = elim (Option-cases (lookup k s.ivr_conf_sessions)) [
    | inl gone ↦ rw gone (ground arith)
    | inr (fs, found) ↦
        let legs = legs_at s.legs fs.legs in
        rw found (
          ground (
            arith,
            answers-append key (effect_of close_capture fs.cap) (cancel_and_close legs),
            cancel_and_close-no_answer legs,
          ))
  ]
