-- ===== src/Sip/Server/Run.antt =====
-- The events of the signalling core in sequence: the method switch of `Start` in server.go for what
-- belongs to a dialog already known, and the timers. An event is handled whole before the next,
-- but for the 480 of `give_up`: `failed_cleanup` is the rest of that handler, which may come at
-- any time, so the runs here are more than the code has.
-- OPTIONS and REGISTER are answered 200, ACK is not answered, and unknown methods get 501.
pub mod Keyed
pub mod Handlers
pub mod Teardown
pub mod Answers
pub mod Counting
pub mod Conferences
use sipbridge.Config.{Spec}
use sipbridge.Prelude.{ℕ, Bool, true, false, not, ◌||◌, List, [], ◌∷◌, ◌++◌, if◌then◌else◌}
use sipbridge.Sip.Message.{Message}
use sipbridge.Sip.Server.Conference.{enforce_ivr_conf_ring_timeout}
use sipbridge.Sip.Server.Fanout.{Env, cleanup_session, enforce_ring_timeout}
use sipbridge.Sip.Server.Teardown.{
  handle_response, handle_inbound_bye, handle_inbound_cancel, drop_bridge_call,
}
use sipbridge.Sip.Server.{Server, Step, ◌⨟◌, quiet, reply}
use sipbridge.Text.{Text, codes, text_eq}

pub data Event : Type 0 where
  packet : Env → ℕ → Message → Event
  ring_timer : Text → Event
  conference_timer : Text → Event
  operator_drop : Text → Text → Event
  failed_cleanup : Message → Event

-- The method switch, for a request that is no INVITE and no INFO.
unfoldable pub serve_request : ℕ → Message → Server → Step
unfolding handle_inbound_bye handle_inbound_cancel text_eq
serve_request peer msg s =
    if text_eq msg.method (codes "OPTIONS") || text_eq msg.method (codes "REGISTER")
    then (s, reply peer msg 200 ∷ [])
    else if text_eq msg.method (codes "ACK")
    then quiet s
    else if text_eq msg.method (codes "BYE")
    then handle_inbound_bye peer msg s
    else if text_eq msg.method (codes "CANCEL")
    then handle_inbound_cancel peer msg s
    else (s, reply peer msg 501 ∷ [])

unfoldable pub receive : Spec → Env → ℕ → Message → Server → Step
unfolding handle_response serve_request
receive cfg env peer msg s =
    if not msg.is_request then handle_response env cfg msg s else serve_request peer msg s

unfoldable pub react : Spec → Event → Server → Step
unfolding receive enforce_ring_timeout enforce_ivr_conf_ring_timeout drop_bridge_call
    cleanup_session
react cfg (packet env peer msg) s = receive cfg env peer msg s
react cfg (ring_timer key) s = enforce_ring_timeout key s
react cfg (conference_timer key) s = enforce_ivr_conf_ring_timeout key s
react cfg (operator_drop bridge_id key) s = (drop_bridge_call bridge_id key s).0
react cfg (failed_cleanup inbound) s = cleanup_session inbound s

unfoldable pub run : Spec → List Event → Server → Step
unfolding react
run cfg [] s = quiet s
run cfg (e ∷ es) s = react cfg e s ⨟ run cfg es

-- The event is handled by `receive`: no INVITE, and no INFO.
abbrev pub in_dialog : Event → Bool
in_dialog (packet env peer msg) =
    not msg.is_request
    || not (text_eq msg.method (codes "INVITE") || text_eq msg.method (codes "INFO"))
in_dialog _ = true
