-- ===== src/Sip/Server/Run/Conferences.antt =====
-- A conference fanout stays in `ivrConfSessions` for ever, and counts as a dialog for admission.
use sipbridge.Config.Cluster.{ClusterLimits}
use sipbridge.Config.{Spec}
use sipbridge.Maps.{lookup, insert}
use sipbridge.Prelude.{
  ℕ, ◌≤◌, pos, at_least, get_elem?, true, not, ◌||◌, ◌&&◌, ◌≡◌, refl, ◌∙◌, Option, none, some, List,
  [], ◌∷◌, ◌++◌, arith, Bool-cases, Option-cases, inl, inr, length,
}
use sipbridge.Sip.Message.{Message}
use sipbridge.Sip.Server.Bridges.{remove_call}
use sipbridge.Sip.Server.Capacity.{active_dialog_count, try_reject_invite_for_capacity}
use sipbridge.Sip.Server.Fanout.Frame.{enforce_ring_timeout-SameRooms}
use sipbridge.Sip.Server.Fanout.{Env}
use sipbridge.Sip.Server.Keys.{
  bridge_logical_key, ivrconf_prefix, siprec_prefix, call_id_of, key_of,
}
use sipbridge.Sip.Server.Run.Counting.{
  SameCount, stop_siprec_recording-SameCount, cleanup_bridge_call_by_key-SameCount,
  end_ivr-SameCount, cleanup_session-SameCount, end_conf-SameCount, fanout_response-SameCount,
  siprec_response-SameCount, conference_response-SameCount, conference_timeout-SameCount,
}
use sipbridge.Sip.Server.Run.{
  Event, packet, ring_timer, conference_timer, operator_drop, failed_cleanup, receive,
  serve_request, react, run,
}
use sipbridge.Sip.Server.Teardown.{
  end_ivr, end_conf, bye_session, handle_inbound_bye, cancel_session, bye_at, cancel_at,
  handle_inbound_cancel, drop_bridge_call, handle_response, leg_response, known_response,
}
use sipbridge.Sip.Server.Invite.{InviteEnv}
use sipbridge.Sip.Server.Invite.Dispatch.{handle_invite}
use sipbridge.Sip.Server.Invite.Bound.{admitted-below}
use sipbridge.Sip.Server.{Leg, Session, Server, Rejection, reply, reject_for_capacity}
use sipbridge.Text.{Text, is_empty, has_prefix}

leg_response-SameCount :
    (env : Env) (cfg : Spec) (msg : Message) (a : ℕ) (leg : Option Leg) (s : Server)
    → SameCount s (leg_response env cfg msg a leg s).0
leg_response-SameCount env cfg msg a none s = refl
leg_response-SameCount env cfg msg a (some leg) s =
    elim (Bool-cases (has_prefix siprec_prefix leg.session_key)) [
      | inl rec ↦ rw rec (siprec_response-SameCount msg a leg s)
      | inr no_rec ↦ elim (Bool-cases (has_prefix ivrconf_prefix leg.session_key)) [
        | inl conf ↦ rw (no_rec, conf) (conference_response-SameCount msg (call_id_of msg) a leg s)
        | inr fan ↦
            rw (no_rec, fan) (fanout_response-SameCount env cfg msg (call_id_of msg) a leg s)
      ]
    ]

known_response-SameCount :
    (env : Env) (cfg : Spec) (msg : Message) (a : Option ℕ) (s : Server)
    → SameCount s (known_response env cfg msg a s).0
known_response-SameCount env cfg msg none s = refl
known_response-SameCount env cfg msg (some a) s =
    leg_response-SameCount env cfg msg a (get_elem? s.legs a) s

handle_response-SameCount :
    (env : Env) (cfg : Spec) (msg : Message) (s : Server)
    → SameCount s (handle_response env cfg msg s).0
handle_response-SameCount env cfg msg s =
    elim (Bool-cases (
      is_empty (call_id_of msg)
      || (at_least 0 msg.status_code && not (at_least 1 msg.status_code)))) [
        | inl bad ↦ unfold handle_response in rw bad refl
        | inr good ↦
            unfold handle_response in
            rw good
              (known_response-SameCount env cfg msg (lookup (call_id_of msg) s.legs_by_call_id) s)
      ]

bye_session-SameCount :
    (msg : Message) (key : Text) (sess : Option Session) (s : Server)
    → SameCount s (bye_session msg key sess s).0
bye_session-SameCount msg key none s = refl
bye_session-SameCount msg key (some sess) s = cleanup_session-SameCount msg _

bye_at-SameCount :
    (msg : Message) (key : Option Text) (s : Server) → SameCount s (bye_at msg key s).0
bye_at-SameCount msg none s = refl
bye_at-SameCount msg (some key) s =
    let ended =
      end_conf (ivrconf_prefix ++ key) (lookup (ivrconf_prefix ++ key) s.ivr_conf_sessions) s in
    let gone = (end_ivr key ended).0 in
    let hung = (bye_session msg key (lookup key gone.sessions) gone).0 in
    cleanup_bridge_call_by_key-SameCount key hung
    ∙ (bye_session-SameCount msg key (lookup key gone.sessions) gone
        ∙ (end_ivr-SameCount key ended ∙ end_conf-SameCount (ivrconf_prefix ++ key) s))

cancel_session-SameCount :
    (peer : ℕ) (key : Text) (sess : Option Session) (s : Server)
    → SameCount s (cancel_session peer key sess s).0
cancel_session-SameCount peer key none s = refl
cancel_session-SameCount peer key (some sess) s = elim (Bool-cases sess.terminated) [
  | inl over ↦ rw over refl
  | inr live ↦ rw live (
      cleanup_session-SameCount sess.inbound_invite
        (record s { sessions = insert key (record sess { terminated = true }) s.sessions }))
]

cancel_at-SameCount :
    (peer : ℕ) (key : Option Text) (s : Server) → SameCount s (cancel_at peer key s).0
cancel_at-SameCount peer none s = refl
cancel_at-SameCount peer (some key) s =
    let gone = (end_ivr key s).0 in
    let hung = (cancel_session peer key (lookup key gone.sessions) gone).0 in
    cleanup_bridge_call_by_key-SameCount key hung
    ∙ (cancel_session-SameCount peer key (lookup key gone.sessions) gone ∙ end_ivr-SameCount key s)

drop_bridge_call-SameCount :
    (bridge_id key : Text) (s : Server) → SameCount s (drop_bridge_call bridge_id key s).0.0
unfolding drop_bridge_call remove_call
drop_bridge_call-SameCount bridge_id key s = ground (
  arith,
  stop_siprec_recording-SameCount (bridge_logical_key bridge_id key) (remove_call bridge_id key s),
)

serve_request-SameCount :
    (peer : ℕ) (msg : Message) (s : Server) → SameCount s (serve_request peer msg s).0
unfolding serve_request handle_inbound_bye handle_inbound_cancel
serve_request-SameCount peer msg s =
    ground (arith, bye_at-SameCount msg (key_of msg) s, cancel_at-SameCount peer (key_of msg) s)

pub react-SameCount : (cfg : Spec) (e : Event) (s : Server) → SameCount s (react cfg e s).0
unfolding react receive
react-SameCount cfg (packet env peer msg) s =
    ground (arith, handle_response-SameCount env cfg msg s, serve_request-SameCount peer msg s)
react-SameCount cfg (ring_timer key) s =
    rw ((enforce_ring_timeout-SameRooms key s).conferences) refl
react-SameCount cfg (conference_timer key) s = conference_timeout-SameCount key s
react-SameCount cfg (operator_drop bridge_id key) s = drop_bridge_call-SameCount bridge_id key s
react-SameCount cfg (failed_cleanup inbound) s = cleanup_session-SameCount inbound s

pub run-SameCount :
    (cfg : Spec) (es : List Event) (s : Server)
    → length (run cfg es s).0.ivr_conf_sessions ≡ length s.ivr_conf_sessions
unfolding run
run-SameCount cfg [] s = refl
run-SameCount cfg (e ∷ es) s = run-SameCount cfg es (react cfg e s).0 ∙ react-SameCount cfg e s

full-rejects :
    (limits : ClusterLimits) (max : ℕ) (s : Server)
    → limits.max_concurrent_calls ≡ pos max
    → 1 ≤ max
    → max ≤ length s.ivr_conf_sessions
    → (r : Rejection) × (try_reject_invite_for_capacity limits s ≡ some r)
unfolding active_dialog_count
full-rejects limits max s limit positive full =
    elim (Option-cases (try_reject_invite_for_capacity limits s)) [
      | inr h ↦ h
      | inl admitted ↦
          let below = admitted-below limits max s limit positive admitted in
          absurd (omega (arith, below, full))
    ]

-- With as many conference fanouts as the limit admits calls (the limit being at least 1): after any
-- run of responses, requests other than INVITE and INFO, timers, operator drops and cleanups, an
-- INVITE without a To tag and with a Call-ID and a From tag is answered 100 and then by a rejection
-- for capacity, 302 or 503, and changes nothing.
pub run-rejects :
    (cfg : Spec) (limits : ClusterLimits) (max : ℕ) (es : List Event) (s : Server) (env : InviteEnv)
    (peer : ℕ) (msg : Message) (key : Text)
    → limits.max_concurrent_calls ≡ pos max
    → 1 ≤ max
    → max ≤ length s.ivr_conf_sessions
    → key_of msg ≡ some key
    → (r : Rejection) × (handle_invite env cfg limits peer msg (run cfg es s).0
        ≡ ((run cfg es s).0, reply peer msg 100 ∷ reject_for_capacity peer msg r ∷ []))
run-rejects cfg limits max es s env peer msg key limit positive full keyed =
    let same = run-SameCount cfg es s in
    let (r, rejected) =
      full-rejects limits max (run cfg es s).0 limit positive (omega (arith, same, full)) in
    (r, unfold handle_invite in rw (keyed, rejected) refl)
