-- ===== src/Sip/Server/Ivr/Info.antt =====
-- `handleInboundInfo` of server.go: the digit of an INFO body, for a caller in the IVR.
use sipbridge.Config.{Spec}
use sipbridge.Maps.{lookup}
use sipbridge.Prelude.{
  ℕ, Bool, ◌||◌, Option, none, some, List, [], ◌∷◌, drop, find?, ◌==◌, if◌then◌else◌,
}
use sipbridge.Sip.Message.{Message}
use sipbridge.Sip.Server.Ivr.{handle_ivr_digit_locked}
use sipbridge.Sip.Server.Keys.{call_id_of, from_tag_of, key_of}
use sipbridge.Sip.Server.{IvrSession, Server, Step, ◌⨟◌, quiet, reply}
use sipbridge.Text.{Text, codes, cut, has_prefix, is_empty, to_lower, trim_space}

abbrev with_first : ℕ → List Text → List Text
with_first c [] = (c ∷ []) ∷ []
with_first c (l ∷ ls) = (c ∷ l) ∷ ls

-- `strings.Split` at one byte.
unfoldable pub split : ℕ → Text → List Text
split b [] = [] ∷ []
split b (c ∷ cs) = let rest = split b cs in if c == b then [] ∷ rest else with_first c rest

abbrev is_signal : Text → Bool
is_signal l =
    has_prefix (codes "signal=") (to_lower (trim_space l))
    || has_prefix (codes "signal:") (to_lower (trim_space l))

-- The digit of an `application/dtmf-relay` body; empty if there is none.
unfoldable pub signal_digit : Text → Text
unfolding split has_prefix to_lower trim_space
signal_digit body = elim (find? is_signal (split 10 (trim_space body))) [
  | none ↦ []
  | some l ↦ trim_space (drop 7 (trim_space l))
]

abbrev pub info_digit : Spec → Message → Text → Option IvrSession → Server → Step
info_digit cfg msg key none s = quiet s
info_digit cfg msg key (some iv) s =
    if iv.dtmf_via_rtp || is_empty (signal_digit msg.body)
    then quiet s
    else handle_ivr_digit_locked cfg key iv (signal_digit msg.body) (call_id_of msg)
        (from_tag_of msg) s

abbrev pub info_at : Spec → Message → Option Text → Server → Step
info_at cfg msg none s = quiet s
info_at cfg msg (some key) s = info_digit cfg msg key (lookup key s.ivr_sessions) s

unfoldable pub handle_inbound_info : Spec → ℕ → Message → Server → Step
unfolding key_of lookup signal_digit handle_ivr_digit_locked call_id_of from_tag_of
handle_inbound_info cfg peer msg s = (s, reply peer msg 200 ∷ []) ⨟ info_at cfg msg (key_of msg)

abbrev key_parts : Option (Text × Text) → Text × Text
key_parts none = ([], [])
key_parts (some parts) = parts

abbrev pub rtp_digit_of : Spec → Text → Text → Option IvrSession → Server → Step
rtp_digit_of cfg key digit none s = quiet s
rtp_digit_of cfg key digit (some iv) s =
    let (call_id, from_tag) = key_parts (cut b'|' key) in
    handle_ivr_digit_locked cfg key iv digit call_id from_tag s

-- The callback of the caller's media for a telephone event.
unfoldable pub rtp_digit : Spec → Text → Text → Server → Step
unfolding lookup cut handle_ivr_digit_locked
rtp_digit cfg key digit s = rtp_digit_of cfg key digit (lookup key s.ivr_sessions) s

-- Digits in a row.
unfoldable pub dial : Spec → Text → List Text → Server → Step
unfolding rtp_digit
dial cfg key [] s = quiet s
dial cfg key (d ∷ ds) s = rtp_digit cfg key d s ⨟ dial cfg key ds
