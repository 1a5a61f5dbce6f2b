-- ===== src/Sip/Server/Fanout.antt =====
-- The fanout of an inbound INVITE (internal/sip/server.go): `handleResponse` for its legs,
-- `cancelLosers`, `cleanupSession` and `enforceRingTimeout`. A handler is one step here, but for the
-- response that leaves no leg to wait for: it sends 480 and lets go of the lock with the session
-- still there, so its `cleanup_session` is a step of its own. Every other handler that answers or
-- ends a session marks it as terminated before it lets go. What the operating system decides is in
-- `Env`: the clock, and the media sockets that `setupFanoutBridgeRTP` opened for the caller and for
-- the far end.
pub mod Laws
pub mod Frame
pub mod Answers
use sipbridge.Config.{ConferenceGroup, Spec}
use sipbridge.Maps.{lookup, insert, delete}
use sipbridge.Prelude.{
  ℕ, ℤ, at_least, Bool, true, false, not, ◌&&◌, Option, none, some, List, [], ◌∷◌, ◌++◌, map,
  filter, any, get_elem?, set, ◌==◌, if◌then◌else◌,
}
use sipbridge.Sip.Address.{ensure_to_tag_with_value, extract_uri_from_address_header}
use sipbridge.Sip.Identity.{
  allow_siprec, bridge_line_label_for_from, conference_group_by_id,
  conference_invite_participant_labels,
}
use sipbridge.Sip.Message.{Message, header}
use sipbridge.Sip.Ring.{synthetic_ard_bridge_id}
use sipbridge.Sip.Server.Bridges.{find_call, put_call}
use sipbridge.Sip.Server.Keys.{call_id_of, from_tag_of, dialog_key, key_of}
use sipbridge.Sip.Server.{
  BridgeCall, Leg, Session, Server, Effect, Step, ◌⨟◌, quiet, legs_at, is_success, reply,
  send_cancel, close_conn, relay_bridge, start_siprec_for_bridge,
}
use sipbridge.Text.{Text, codes, text_eq, trim_space, is_empty}

pub record Env : Type 0 where
  pub now : ℕ
  pub media : Option (ℕ × Option ℕ)

abbrev pub inbound_rtp : Option (ℕ × Option ℕ) → Option ℕ
inbound_rtp none = none
inbound_rtp (some (caller, peer)) = some caller

abbrev pub far_rtp : Option (ℕ × Option ℕ) → Option ℕ
far_rtp none = none
far_rtp (some (caller, peer)) = peer

abbrev carried_pin : Option BridgeCall → Text
carried_pin none = []
carried_pin (some prev) = trim_space prev.participant_pin

-- `mergeBridgeCallSIPRECState`: the forwarding moves to the call that replaces `prev`.
abbrev merged_forwarding : Option BridgeCall → Option ℕ
merged_forwarding none = none
merged_forwarding (some prev) = prev.siprec_fwd

-- The call of the inbound party of a session, in the room `bridge_id`. It has no capture file: only
-- a caller who joins a bridge alone gets one.
unfoldable pub inbound_call :
    Env → Session → Text → Text × Text → Text → Option BridgeCall → BridgeCall
unfolding header ensure_to_tag_with_value extract_uri_from_address_header call_id_of from_tag_of
inbound_call env sess bridge_id (uid, name) label prev =
    let m = sess.inbound_invite in
    let (to_with_tag, to_tag) = ensure_to_tag_with_value env.now (header m (codes "to")) in
    record {
      bridge_id = bridge_id;
      call_id = call_id_of m;
      from_tag = from_tag_of m;
      to_tag = to_tag;
      from_header = header m (codes "from");
      to_header = to_with_tag;
      contact_uri = extract_uri_from_address_header (header m (codes "contact"));
      remote = sess.inbound_remote;
      created_at = env.now;
      user_id = uid;
      user_display_name = name;
      pin_len = 0;
      participant_pin = carried_pin prev;
      line_label = label;
      rtp = inbound_rtp env.media;
      peer_rtp = far_rtp env.media;
      cap = none;
      siprec_fwd = merged_forwarding prev;
    }

abbrev relay_effect : Text → Text → Option (ℕ × Option ℕ) → List Effect
relay_effect bridge_id key none = []
relay_effect bridge_id key (some media) = relay_bridge bridge_id key ∷ []

unfoldable pub join_room : Env → Session → Text → Text × Text → Text → Server → Step
unfolding inbound_call find_call put_call
join_room env sess bridge_id who label s =
    let key = dialog_key (call_id_of sess.inbound_invite) (from_tag_of sess.inbound_invite) in
    (
      put_call bridge_id key (inbound_call env sess bridge_id who label (find_call bridge_id key s))
          s,
      relay_effect bridge_id key env.media ++ start_siprec_for_bridge bridge_id key ∷ [],
    )

abbrev pub join_group : Env → Spec → Session → Text → Option ConferenceGroup → Server → Step
join_group env cfg sess gid none s = quiet s
join_group env cfg sess gid (some g) s =
    let who =
      conference_invite_participant_labels cfg g (header sess.inbound_invite (codes "from")) in
    if allow_siprec cfg g who.0
    then join_room env sess (synthetic_ard_bridge_id gid) who (trim_space g.line_label) s
    else quiet s

-- An answered session joins its bridge, or the synthetic bridge of its conference group.
unfoldable pub join_target : Env → Spec → Session → Server → Step
unfolding join_room trim_space bridge_line_label_for_from conference_group_by_id allow_siprec
join_target env cfg sess s =
    let gid = trim_space sess.conference_group_id in
    if not (is_empty (trim_space sess.bridge_id))
    then join_room env sess sess.bridge_id ([], [])
        (bridge_line_label_for_from cfg sess.bridge_id (header sess.inbound_invite (codes "from")))
        s
    else if not (is_empty gid)
    then join_group env cfg sess gid (conference_group_by_id cfg gid) s
    else quiet s

abbrev is_loser : Text → Leg → Bool
is_loser winner l = not (text_eq l.call_id winner)

abbrev cancels : Text → List Leg → List Effect
cancels winner legs = map send_cancel (filter (is_loser winner) legs)

unfoldable pub cancel_losers_of : Text → Option Session → Server → Step
unfolding legs_at text_eq
cancel_losers_of winner none s = quiet s
cancel_losers_of winner (some sess) s = (s, cancels winner (legs_at s.legs sess.legs))

abbrev pub session_at : Option Text → Server → Option Session
session_at none s = none
session_at (some key) s = lookup key s.sessions

unfoldable pub cancel_losers : Message → Text → Server → Step
unfolding key_of lookup cancel_losers_of
cancel_losers inbound winner s = cancel_losers_of winner (session_at (key_of inbound) s) s

abbrev pub forget_found : ℕ → Option Leg → Server → Step
forget_found a none s = quiet s
forget_found a (some l) s = (
  record s {
    legs = set s.legs a (record l { has_conn = false });
    legs_by_call_id = delete l.call_id s.legs_by_call_id;
  },
  if l.has_conn then close_conn l ∷ [] else [],
)

-- The loop of `cleanupSession`.
unfoldable pub forget_legs : List ℕ → Server → Step
unfolding delete
forget_legs [] s = quiet s
forget_legs (a ∷ rest) s = forget_found a (get_elem? s.legs a) s ⨟ forget_legs rest

unfoldable pub drop_session : Text → Server → Server
unfolding delete
drop_session key s = record s { sessions = delete key s.sessions }

abbrev pub cleanup_found : Text → Option Session → Server → Step
cleanup_found key none s = quiet s
cleanup_found key (some sess) s = forget_legs sess.legs s ⨟ λ t. quiet (drop_session key t)

abbrev pub cleanup_at : Option Text → Server → Step
cleanup_at none s = quiet s
cleanup_at (some key) s = cleanup_found key (lookup key s.sessions) s

unfoldable pub cleanup_session : Message → Server → Step
unfolding key_of lookup forget_legs drop_session
cleanup_session inbound s = cleanup_at (key_of inbound) s

-- The caller gets 200; the winner's media and the room are set up; the other legs are cancelled.
unfoldable pub answer : Env → Spec → Session → Server → Step
unfolding join_target cancel_losers cleanup_session
answer env cfg sess s =
    (s, reply sess.inbound_remote sess.inbound_invite 200 ∷ [])
    ⨟ join_target env cfg sess
    ⨟ cancel_losers sess.inbound_invite sess.winner_call_id
    ⨟ cleanup_session sess.inbound_invite

-- Every leg has a final response.
abbrev pub all_final : List Leg → Bool
all_final legs =
    not (any (λ (l : Leg). at_least 0 l.final_status && not (at_least 1 l.final_status)) legs)

-- All that is done under the lock when every leg has failed. The session is not marked, and its
-- `cleanup_session` follows after the lock was free.
unfoldable pub give_up : Session → Server → Step
give_up sess s = (s, reply sess.inbound_remote sess.inbound_invite 480 ∷ [])

-- The status is noted on the shared leg.
abbrev pub note_status : ℤ → ℕ → Leg → Server → Server
note_status status a leg s =
    if at_least 200 status
    then record s { legs = set s.legs a (record leg { final_status = status }) }
    else s

abbrev pub won : Text → Session → Session
won call_id sess = record sess {
  winner_call_id = if is_empty sess.winner_call_id then call_id else sess.winner_call_id;
  terminated = true;
}

-- Media is set up only from the winner's own answer.
abbrev pub own_media : Text → Session → Env → Env
own_media call_id sess env = record env {
  media = if text_eq call_id sess.winner_call_id then env.media else none;
}

-- A response for a leg of a session that is not terminated.
unfoldable pub session_response : Env → Spec → ℤ → Text → ℕ → Leg → Session → Server → Step
unfolding answer give_up legs_at insert text_eq
session_response env cfg status call_id a leg sess s =
    let t = note_status status a leg s in
    if is_success status
    then answer (own_media call_id (won call_id sess) env) cfg (won call_id sess)
        (record t { sessions = insert leg.session_key (won call_id sess) t.sessions })
    else if not (is_empty sess.winner_call_id)
    then answer (record env { media = none }) cfg (record sess { terminated = true })
        (record t {
          sessions = insert leg.session_key (record sess { terminated = true }) t.sessions;
        })
    else if all_final (legs_at t.legs sess.legs)
    then give_up sess t
    else quiet t

abbrev pub live_response : Env → Spec → ℤ → Text → ℕ → Leg → Option Session → Server → Step
live_response env cfg status call_id a leg none s = quiet s
live_response env cfg status call_id a leg (some sess) s =
    if sess.terminated then quiet s else session_response env cfg status call_id a leg sess s

unfoldable pub fanout_response : Env → Spec → Message → Text → ℕ → Leg → Server → Step
unfolding lookup session_response
fanout_response env cfg msg call_id a leg s =
    live_response env cfg msg.status_code call_id a leg (lookup leg.session_key s.sessions) s

abbrev pub timed_out : Text → Option Session → Server → Step
timed_out key none s = quiet s
timed_out key (some sess) s =
    if sess.terminated
    then quiet s
    else (
      record s { sessions = insert key (record sess { terminated = true }) s.sessions },
      map send_cancel (legs_at s.legs sess.legs)
          ++ reply sess.inbound_remote sess.inbound_invite 408 ∷ [],
    )
      ⨟ cleanup_session sess.inbound_invite

-- The timer of a session fires.
unfoldable pub enforce_ring_timeout : Text → Server → Step
unfolding lookup insert legs_at cleanup_session
enforce_ring_timeout key s = timed_out key (lookup key s.sessions) s
