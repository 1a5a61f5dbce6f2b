-- ===== src/Sip/Server/Teardown.antt =====
-- The end of a call: `handleInboundBye`, `handleInboundCancel`, `cleanupBridgeCallByKey`,
-- `DropBridgeCall`, and `handleResponse` as a whole.
pub mod Silent
pub mod LateBye
use sipbridge.Config.{Spec}
use sipbridge.Maps.{lookup, insert, delete}
use sipbridge.Prelude.{
  ℕ, Bool, true, false, not, ◌&&◌, ◌||◌, at_least, Option, none, some, List, [], ◌∷◌, ◌++◌, map,
  find?, get_elem?, if◌then◌else◌,
}
use sipbridge.Sip.Message.{Message}
use sipbridge.Sip.Server.Bridges.{find_call, remove_call, close_media, room_with}
use sipbridge.Sip.Server.Conference.{conference_response}
use sipbridge.Sip.Server.Fanout.{Env, cleanup_session, fanout_response}
use sipbridge.Sip.Server.Keys.{
  call_id_of, key_of, bridge_logical_key, ivr_logical_key, ivrconf_prefix, siprec_prefix,
}
use sipbridge.Sip.Server.Siprec.{siprec_response, stop_siprec_recording}
use sipbridge.Sip.Server.{
  BridgeCall, IvrConf, IvrSession, Leg, Session, Server, Effect, Step, ◌⨟◌, quiet, effect_of,
  legs_at, reply, send_cancel, send_bye, bye_caller, close_rtp, close_capture, close_forwarding,
}
use sipbridge.Text.{Text, text_eq, trim_space, has_prefix, is_empty}

-- `handleResponse` on the leg that the response's Call-ID names.
abbrev pub leg_response : Env → Spec → Message → ℕ → Option Leg → Server → Step
leg_response env cfg msg a none s = quiet s
leg_response env cfg msg a (some leg) s =
    if has_prefix siprec_prefix leg.session_key
    then siprec_response msg a leg s
    else if has_prefix ivrconf_prefix leg.session_key
    then conference_response msg (call_id_of msg) a leg s
    else fanout_response env cfg msg (call_id_of msg) a leg s

abbrev pub known_response : Env → Spec → Message → Option ℕ → Server → Step
known_response env cfg msg none s = quiet s
known_response env cfg msg (some a) s = leg_response env cfg msg a (get_elem? s.legs a) s

unfoldable pub handle_response : Env → Spec → Message → Server → Step
unfolding call_id_of lookup has_prefix siprec_response conference_response fanout_response
handle_response env cfg msg s =
    if is_empty (call_id_of msg) || (at_least 0 msg.status_code && not (at_least 1 msg.status_code))
    then quiet s
    else known_response env cfg msg (lookup (call_id_of msg) s.legs_by_call_id) s

abbrev pub cleanup_call : Text → Option (Text × BridgeCall) → Server → Step
cleanup_call key none s = quiet s
cleanup_call key (some (bridge_id, c)) s =
    (remove_call bridge_id key s, close_media c)
    ⨟ stop_siprec_recording (bridge_logical_key bridge_id key)
    ⨟ λ t. (t, effect_of close_capture c.cap)

unfoldable pub cleanup_bridge_call_by_key : Text → Server → Step
unfolding room_with remove_call close_media stop_siprec_recording
cleanup_bridge_call_by_key key s = cleanup_call key (room_with key s.bridge_calls) s

abbrev pub close_ivr : Option IvrSession → List Effect
close_ivr none = []
close_ivr (some iv) = effect_of close_forwarding iv.siprec_fwd ++ effect_of close_rtp iv.rtp

abbrev pub conf_capture : Option IvrConf → List Effect
conf_capture none = []
conf_capture (some fs) = effect_of close_capture fs.cap

abbrev pub end_conf : Text → Option IvrConf → Server → Server
end_conf key none s = s
end_conf key (some fs) s = record s {
  ivr_conf_sessions = insert key (record fs { terminated = true }) s.ivr_conf_sessions;
}

-- The IVR session of the caller goes, with the recording of it.
unfoldable pub end_ivr : Text → Server → Step
unfolding lookup delete stop_siprec_recording
end_ivr key s =
    (record s { ivr_sessions = delete key s.ivr_sessions }, close_ivr (lookup key s.ivr_sessions))
    ⨟ stop_siprec_recording (ivr_logical_key key)

-- The winner of an answered session is sent BYE, the legs of a ringing one are cancelled.
abbrev pub hang_up_legs : Text → List Leg → List Effect
hang_up_legs winner legs =
    if is_empty winner
    then map send_cancel legs
    else elim (find? (λ (l : Leg). text_eq l.call_id winner) legs) [
      | none ↦ []
      | some l ↦ send_bye l ∷ []
    ]

abbrev pub bye_session : Message → Text → Option Session → Server → Step
bye_session msg key none s = quiet s
bye_session msg key (some sess) s =
    (
      record s { sessions = insert key (record sess { terminated = true }) s.sessions },
      hang_up_legs sess.winner_call_id (legs_at s.legs sess.legs),
    )
    ⨟ cleanup_session msg

abbrev pub bye_at : Message → Option Text → Server → Step
bye_at msg none s = quiet s
bye_at msg (some key) s =
    (
      end_conf (ivrconf_prefix ++ key) (lookup (ivrconf_prefix ++ key) s.ivr_conf_sessions) s,
      conf_capture (lookup (ivrconf_prefix ++ key) s.ivr_conf_sessions),
    )
    ⨟ end_ivr key
    ⨟ (λ t. bye_session msg key (lookup key t.sessions) t)
    ⨟ cleanup_bridge_call_by_key key

unfoldable pub handle_inbound_bye : ℕ → Message → Server → Step
unfolding key_of lookup insert end_ivr legs_at text_eq cleanup_session cleanup_bridge_call_by_key
handle_inbound_bye peer msg s = (s, reply peer msg 200 ∷ []) ⨟ bye_at msg (key_of msg)

abbrev pub cancel_session : ℕ → Text → Option Session → Server → Step
cancel_session peer key none s = quiet s
cancel_session peer key (some sess) s =
    if sess.terminated
    then quiet s
    else (
      record s { sessions = insert key (record sess { terminated = true }) s.sessions },
      map send_cancel (legs_at s.legs sess.legs) ++ reply peer sess.inbound_invite 487 ∷ [],
    )
      ⨟ cleanup_session sess.inbound_invite

abbrev pub cancel_at : ℕ → Option Text → Server → Step
cancel_at peer none s = quiet s
cancel_at peer (some key) s =
    end_ivr key s
    ⨟ (λ t. cancel_session peer key (lookup key t.sessions) t)
    ⨟ cleanup_bridge_call_by_key key

unfoldable pub handle_inbound_cancel : ℕ → Message → Server → Step
unfolding key_of lookup insert end_ivr legs_at cleanup_session cleanup_bridge_call_by_key
handle_inbound_cancel peer msg s = (s, reply peer msg 200 ∷ []) ⨟ cancel_at peer (key_of msg)

pub data DropError : Type 0 where
  not_found missing_contact_uri : DropError

abbrev pub drop_found : Text → Text → Option BridgeCall → Server → Step × Option DropError
drop_found bridge_id key none s = (quiet s, some not_found)
drop_found bridge_id key (some c) s =
    if is_empty (trim_space c.contact_uri) then (quiet s, some missing_contact_uri) else (
      (remove_call bridge_id key s, bye_caller c.remote c ∷ close_media c)
          ⨟ stop_siprec_recording (bridge_logical_key bridge_id key),
      none,
    )

-- `DropBridgeCall` with the socket open and the BYE sent.
unfoldable pub drop_bridge_call : Text → Text → Server → Step × Option DropError
unfolding find_call remove_call close_media stop_siprec_recording trim_space
drop_bridge_call bridge_id key s = drop_found bridge_id key (find_call bridge_id key s) s
