-- ===== src/Sip/Server.antt =====
-- The state that internal/sip/server.go keeps under `sessionMu`, and what the handlers send.
--
-- A leg is shared: `sess.legs`, `legsByCallID` and `siprecRecordings` hold pointers to it, and a
-- response writes through one of them. Legs live on a heap, `legs`, and the maps hold addresses.
-- Sessions, bridge calls and IVR sessions are reached through their map alone, so the maps hold
-- their values. Sockets, peers and capture files are numbers, compared by identity only.
pub mod Keys
pub mod Bridges
pub mod Siprec
pub mod Fanout
pub mod Conference
pub mod Teardown
pub mod Capacity
pub mod Invite
pub mod Ivr
pub mod Run
use sipbridge.Maps.{Map}
use sipbridge.Prelude.{
  ℕ, ℤ, pos, Bool, true, false, ◌&&◌, Option, none, some, List, [], ◌∷◌, ◌++◌, at_least, not,
  get_elem?, set,
}
use sipbridge.Sip.Message.{Message}
use sipbridge.Text.{Text}

pub data TargetKind : Type 0 where
  bridge conference_group hoot_group : TargetKind

-- `fanoutLeg`: one outbound dialog. `has_conn` is `outboundConn != nil`; `rtp` is its media socket.
pub record Leg : Type 0 where
  pub session_key : Text
  pub target_uri : Text
  pub call_id : Text
  pub branch : Text
  pub from_tag : Text
  pub to_header : Text
  pub siprec_bye_uri : Text
  pub has_conn : Bool
  pub rtp : Option ℕ
  pub final_status : ℤ

-- `fanoutSession`: an inbound INVITE that rings several targets.
pub record Session : Type 0 where
  pub key : Text
  pub inbound_invite : Message
  pub inbound_remote : ℕ
  pub created_at : ℕ
  pub target_kind : TargetKind
  pub bridge_id : Text
  pub conference_group_id : Text
  pub conference_ard : Bool
  pub ring_timeout : ℕ
  pub legs : List ℕ
  pub winner_call_id : Text
  pub terminated : Bool

-- `bridgeCall`: a leg that is in a room. `siprec_fwd` is the socket that forwards to the recorder.
pub record BridgeCall : Type 0 where
  pub bridge_id : Text
  pub call_id : Text
  pub from_tag : Text
  pub to_tag : Text
  pub from_header : Text
  pub to_header : Text
  pub contact_uri : Text
  pub remote : ℕ
  pub created_at : ℕ
  pub user_id : Text
  pub user_display_name : Text
  pub pin_len : ℕ
  pub participant_pin : Text
  pub line_label : Text
  pub rtp : Option ℕ
  pub peer_rtp : Option ℕ
  pub cap : Option ℕ
  pub siprec_fwd : Option ℕ

pub data IvrState : Type 0 where
  collect_bridge collect_user joined joined_conference_group : IvrState

-- `ivrSession`: a caller who types an access code and a PIN.
pub record IvrSession : Type 0 where
  pub key : Text
  pub remote : ℕ
  pub from_header : Text
  pub to_header : Text
  pub contact_uri : Text
  pub created_at : ℕ
  pub state : IvrState
  pub buf : Text
  pub bridge_access : Text
  pub participant_id : Text
  pub conference_group_id : Text
  pub conference_group_type : Text
  pub conference_caller_side : Text
  pub preferred_region : Text
  pub rtp : Option ℕ
  pub dtmf_via_rtp : Bool
  pub siprec_fwd : Option ℕ

-- `ivrConferenceFanoutSession`
pub record IvrConf : Type 0 where
  pub key : Text
  pub ivr_key : Text
  pub group_id : Text
  pub caller_side : Text
  pub created_at : ℕ
  pub ring_timeout : ℕ
  pub legs : List ℕ
  pub winner_call_id : Text
  pub terminated : Bool
  pub cap : Option ℕ

pub record Server : Type 0 where
  pub sessions : Map Session
  pub legs : List Leg
  pub legs_by_call_id : Map ℕ
  pub ivr_conf_sessions : Map IvrConf
  pub bridge_calls : Map (Map BridgeCall)
  pub ivr_sessions : Map IvrSession
  pub siprec_recordings : Map ℕ

-- How a rejected INVITE is answered: 302 with a Contact, or 503 with Retry-After.
pub data Rejection : Type 0 where
  redirect : Text → Rejection
  overload : Rejection

-- What a handler does besides changing the state. `reply p m n` answers request `m` to peer `p`
-- with status `n`; the `start_` effects are the calls and goroutines that a handler leaves behind.
pub data Effect : Type 0 where
  reply : ℕ → Message → ℕ → Effect
  send_ack send_cancel send_bye : Leg → Effect
  bye_caller : ℕ → BridgeCall → Effect
  close_conn : Leg → Effect
  close_rtp close_capture close_forwarding : ℕ → Effect
  start_siprec_for_bridge : Text → Text → Effect
  start_siprec_for_ivr : Text → Effect
  attach_siprec_media : Text → Text → Effect
  relay_bridge : Text → Text → Effect
  relay_conference : Text → Leg → Effect
  start_silence : ℕ → Effect
  start_conference_fanout : Text → Effect
  send_invite : Leg → Effect
  start_ring_timer : Text → ℕ → Effect
  reject_for_capacity : ℕ → Message → Rejection → Effect

-- A step of the server: the new state and the effects in order.
abbrev pub Step : Type 0
Step = Server × List Effect

-- One call after another.
infixl 5 ◌⨟◌
abbrev pub ◌⨟◌ : Step → (Server → Step) → Step
(s, es) ⨟ f = let (s', fs) = f s in (s', es ++ fs)

abbrev pub quiet : Server → Step
quiet s = (s, [])

abbrev pub effect_of : (ℕ → Effect) → Option ℕ → List Effect
effect_of f none = []
effect_of f (some n) = f n ∷ []

-- The legs behind a slice of pointers.
unfoldable pub legs_at : List Leg → List ℕ → List Leg
legs_at heap [] = []
legs_at heap (a ∷ more) =
    let rest = legs_at heap more in elim (get_elem? heap a) [ none ↦ rest | some l ↦ l ∷ rest ]

abbrev pub is_success : ℤ → Bool
is_success status = at_least 200 status && not (at_least 300 status)

abbrev pub initial : Server
initial = record {
  sessions = [];
  legs = [];
  legs_by_call_id = [];
  ivr_conf_sessions = [];
  bridge_calls = [];
  ivr_sessions = [];
  siprec_recordings = [];
}
