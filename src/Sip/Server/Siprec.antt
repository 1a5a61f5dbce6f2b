-- ===== src/Sip/Server/Siprec.antt =====
-- Recordings as the session store sees them: `stopSIPRECRecording`, the registration in
-- `emitSIPRECInvite`, and the recorder's answers in `handleResponse`.
use sipbridge.Maps.{lookup, insert, delete, is_some}
use sipbridge.Prelude.{
  ℕ, at_least, Option, none, some, List, [], ◌∷◌, ◌++◌, get_elem?, set, drop, length, if◌then◌else◌,
}
use sipbridge.Sip.Address.{extract_uri_from_address_header}
use sipbridge.Sip.Message.{Message, header}
use sipbridge.Sip.Server.Bridges.{find_call, put_call}
use sipbridge.Sip.Server.Keys.{Logical, bridge_call, ivr_session, nowhere, resolve_logical}
use sipbridge.Sip.Server.{
  BridgeCall, IvrSession, Leg, Server, Step, ◌⨟◌, quiet, effect_of, is_success, send_ack,
  send_cancel, send_bye, close_forwarding, close_conn, attach_siprec_media, Effect,
}
use sipbridge.Text.{Text, codes, trim_space, is_empty}

abbrev clear_call : Text → Text → Option BridgeCall → Server → Step
clear_call bridge_id key none s = quiet s
clear_call bridge_id key (some bc) s = (
  put_call bridge_id key (record bc { siprec_fwd = none }) s,
  effect_of close_forwarding bc.siprec_fwd,
)

abbrev clear_ivr : Text → Option IvrSession → Server → Step
clear_ivr key none s = quiet s
clear_ivr key (some iv) s = (
  record s { ivr_sessions = insert key (record iv { siprec_fwd = none }) s.ivr_sessions },
  effect_of close_forwarding iv.siprec_fwd,
)

abbrev clear_at : Logical → Server → Step
clear_at (bridge_call bridge_id key) s = clear_call bridge_id key (find_call bridge_id key s) s
clear_at (ivr_session key) s = clear_ivr key (lookup key s.ivr_sessions) s
clear_at nowhere s = quiet s

unfoldable pub clear_siprec_media_forwarding_by_key : Text → Server → Step
unfolding resolve_logical find_call put_call lookup insert
clear_siprec_media_forwarding_by_key logical s = clear_at (resolve_logical logical) s

abbrev pub conn_effect : Leg → List Effect
conn_effect leg = if leg.has_conn then close_conn leg ∷ [] else []

-- A recorder that never answered is sent CANCEL, one that did BYE.
abbrev pub hang_up : Leg → List Effect
hang_up leg =
    conn_effect leg
    ++ (if is_empty (trim_space leg.to_header) then send_cancel leg else send_bye leg) ∷ []

abbrev pub stop_leg : Text → Option Leg → Server → Step
stop_leg logical none s = quiet s
stop_leg logical (some leg) s =
    clear_siprec_media_forwarding_by_key logical
      (record s { siprec_recordings = delete logical s.siprec_recordings })
    ⨟ λ t. (record t { legs_by_call_id = delete leg.call_id t.legs_by_call_id }, hang_up leg)

abbrev pub leg_at : List Leg → Option ℕ → Option Leg
leg_at heap none = none
leg_at heap (some a) = get_elem? heap a

unfoldable pub stop_siprec_recording : Text → Server → Step
unfolding clear_siprec_media_forwarding_by_key trim_space
stop_siprec_recording logical s =
    stop_leg logical (leg_at s.legs (lookup logical s.siprec_recordings)) s

-- `emitSIPRECInvite` under the lock: a second recording for a logical key is refused.
unfoldable pub register_siprec_leg : Text → Leg → Server → Server
unfolding lookup insert
register_siprec_leg logical leg s =
    if is_some (lookup logical s.siprec_recordings) then s else record s {
      legs = s.legs ++ leg ∷ [];
      legs_by_call_id = insert leg.call_id (length s.legs) s.legs_by_call_id;
      siprec_recordings = insert logical (length s.legs) s.siprec_recordings;
    }

-- The Contact of a recorder's answer names the target of later requests.
abbrev answered_leg : Message → Leg → Leg
answered_leg msg leg =
    let u =
      (if is_empty (trim_space (header msg (codes "contact")))
        then []
        else trim_space
            (extract_uri_from_address_header (trim_space (header msg (codes "contact"))))) in
    record leg {
      to_header = header msg (codes "to");
      siprec_bye_uri = if is_empty u then leg.siprec_bye_uri else u;
    }

abbrev recording_of : Leg → Text
recording_of leg = drop 7 leg.session_key

unfoldable pub siprec_response : Message → ℕ → Leg → Server → Step
unfolding trim_space header extract_uri_from_address_header delete
siprec_response msg a leg s =
    if is_success msg.status_code
    then (
      record s { legs = set s.legs a (answered_leg msg leg) },
      send_ack (answered_leg msg leg) ∷ attach_siprec_media (recording_of leg) msg.body ∷ [],
    )
    else if at_least 400 msg.status_code
    then quiet (record s {
      siprec_recordings = delete (recording_of leg) s.siprec_recordings;
      legs_by_call_id = delete leg.call_id s.legs_by_call_id;
    })
    else quiet s
