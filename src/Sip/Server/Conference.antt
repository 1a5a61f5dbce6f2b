-- ===== src/Sip/Server/Conference.antt =====
-- Conference groups rung from the IVR: `handleResponse` for legs of `ivrConfSessions`, and
-- `enforceIVRConfRingTimeout`.
use sipbridge.Maps.{lookup, insert, is_some}
use sipbridge.Prelude.{
  ℕ, true, not, ◌&&◌, ◌||◌, Option, none, some, List, [], ◌∷◌, ◌++◌, map, filter, set,
  if◌then◌else◌,
}
use sipbridge.Sip.Message.{Message, header}
use sipbridge.Sip.Server.{
  IvrConf, IvrSession, Leg, Server, Effect, Step, quiet, effect_of, legs_at, is_success, send_ack,
  send_cancel, close_rtp, close_capture, start_siprec_for_ivr, relay_conference,
}
use sipbridge.Text.{Text, codes, text_eq, is_empty}

-- With the IVR caller gone nothing is recorded and nothing relayed.
abbrev pub connect : Text → Leg → Option IvrSession → List Effect
connect ivr_key leg none = []
connect ivr_key leg (some iv) =
    start_siprec_for_ivr ivr_key
    ∷ (if is_some iv.rtp && is_some leg.rtp then relay_conference ivr_key leg ∷ [] else [])

-- The first 2xx wins; a later one is ignored.
abbrev pub conf_won : Message → Text → ℕ → Leg → IvrConf → Server → Step
conf_won msg call_id a leg fs s =
    let winner = record leg { to_header = header msg (codes "to") } in
    (
      record s {
        legs = set s.legs a winner;
        ivr_conf_sessions =
            insert leg.session_key (record fs { winner_call_id = call_id }) s.ivr_conf_sessions;
      },
      send_ack winner
            ∷ map send_cancel
                (filter (λ (l : Leg). not (text_eq l.call_id call_id)) (legs_at s.legs fs.legs))
          ++ connect fs.ivr_key winner (lookup fs.ivr_key s.ivr_sessions),
    )

abbrev pub conf_live : Message → Text → ℕ → Leg → Option IvrConf → Server → Step
conf_live msg call_id a leg none s = quiet s
conf_live msg call_id a leg (some fs) s =
    if not fs.terminated && is_success msg.status_code && is_empty fs.winner_call_id
    then conf_won msg call_id a leg fs s
    else quiet s

unfoldable pub conference_response : Message → Text → ℕ → Leg → Server → Step
unfolding lookup insert header legs_at text_eq
conference_response msg call_id a leg s =
    conf_live msg call_id a leg (lookup leg.session_key s.ivr_conf_sessions) s

unfoldable pub cancel_and_close : List Leg → List Effect
cancel_and_close [] = []
cancel_and_close (l ∷ ls) = send_cancel l ∷ (effect_of close_rtp l.rtp ++ cancel_and_close ls)

abbrev pub conf_timed_out : Text → Option IvrConf → Server → Step
conf_timed_out key none s = quiet s
conf_timed_out key (some fs) s =
    if fs.terminated || not (is_empty fs.winner_call_id) then quiet s else (
      record s {
        ivr_conf_sessions = insert key (record fs { terminated = true }) s.ivr_conf_sessions;
      },
      effect_of close_capture fs.cap ++ cancel_and_close (legs_at s.legs fs.legs),
    )

-- The timer of a conference fanout fires. The session stays in the map, marked as terminated.
unfoldable pub enforce_ivr_conf_ring_timeout : Text → Server → Step
unfolding lookup insert legs_at cancel_and_close
enforce_ivr_conf_ring_timeout key s = conf_timed_out key (lookup key s.ivr_conf_sessions) s
