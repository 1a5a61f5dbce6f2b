-- ===== src/Sip/Sdp.antt =====
-- SDP (internal/sip/sdp.go): the audio offer of a body, the codec of the IVR, and the answers.
-- `net.ParseIP` and `IP.To4` are the parameter `Net`; an address is its bytes.
pub mod Offer
pub mod Destinations
use mathlib.Core.Option
use sipbridge.Prelude.{
  ℕ, zero, suc, ℤ, pos, negsuc, Bool, true, false, ◌&&◌, ◌||◌, not, Option, none, some, List, [],
  ◌∷◌, ◌++◌, ◌==◌, any, at_least, below, drop, get_elem?, leb, length, map, or_else, if◌then◌else◌,
}
use sipbridge.Text.Number.{atoi, decimal}
use sipbridge.Text.Split.{replace_pair, split}
use sipbridge.Text.{Text, codes, fields, has_prefix, is_empty, to_lower, trim, trim_space}

abbrev pub Ip : Type 0
Ip = List ℕ

pub record Net : Type 0 where
  pub parse_ip : Text → Option Ip
  pub is_v4 : Ip → Bool

pub record SdpAudioOffer : Type 0 where
  pub addr : Ip
  pub port : ℤ
  pub payloads : List ℤ
  pub has_pcmu : Bool
  pub has_pcma : Bool
  pub telephone_event_pt : ℤ
  pub raw_conn_ip : Text
  pub raw_conn_line : Text

abbrev pub lines_of : Text → List Text
lines_of body = split 10 (replace_pair 13 10 (10 ∷ []) body)

-- What the `c=` lines have given so far.
pub record Conn : Type 0 where
  pub ip : Option Ip
  pub raw_ip : Text
  pub raw_line : Text

abbrev conn_fields : Net → Text → Conn → List Text → Conn
conn_fields net l c (a ∷ b ∷ addr ∷ rest) = record {
  ip = or_else (net.parse_ip addr) c.ip;
  raw_ip = addr;
  raw_line = l;
}
conn_fields net l c _ = c

-- The loop over the `c=` lines.
unfoldable pub conn_of : Net → Conn → List Text → Conn
unfolding trim_space has_prefix fields
conn_of net c [] = c
conn_of net c (ln ∷ rest) =
    conn_of net
      (if has_prefix (codes "c=") (trim_space ln)
        then conn_fields net (trim_space ln) c (fields (drop 2 (trim_space ln)))
        else c)
      rest

abbrev origin_fields : Net → List Text → Option Ip
origin_fields net parts = elim (get_elem? parts 5) [
  | none ↦ none
  | some addr ↦ net.parse_ip (trim (λ c. c == b'[' || c == b']') addr)
]

unfoldable pub sdp_origin_unicast_ip : Net → List Text → Option Ip
unfolding trim_space has_prefix fields trim
sdp_origin_unicast_ip net [] = none
sdp_origin_unicast_ip net (ln ∷ rest) =
    let more = sdp_origin_unicast_ip net rest in
    if not (has_prefix (codes "o=") (trim_space ln))
    then more
    else or_else (origin_fields net (fields (drop 2 (trim_space ln)))) more

-- The payload types that are numbers.
unfoldable pub numbers_of : List Text → List ℤ
unfolding atoi
numbers_of [] = []
numbers_of (p ∷ ps) = let rest = numbers_of ps in elim (atoi p) [ none ↦ rest | some n ↦ n ∷ rest ]

abbrev port_of : Option ℤ → List Text → Option (ℤ × List ℤ)
port_of none pts = none
port_of (some p) pts = if below 1 p then none else some (p, numbers_of pts)

abbrev audio_fields : List Text → Option (ℤ × List ℤ)
audio_fields (kind ∷ port ∷ proto ∷ pt ∷ pts) = port_of (atoi port) (pt ∷ pts)
audio_fields _ = none

-- The port and the payload types of an `m=audio` line that is used.
unfoldable pub audio_line : Text → Option (ℤ × List ℤ)
unfolding trim_space has_prefix fields atoi numbers_of
audio_line ln =
    if has_prefix (codes "m=audio ") (trim_space ln)
    then audio_fields (fields (drop 2 (trim_space ln)))
    else none

-- The first such line.
unfoldable pub first_audio : List Text → Option (ℤ × List ℤ)
unfolding audio_line
first_audio [] = none
first_audio (ln ∷ rest) = let more = first_audio rest in or_else (audio_line ln) more

abbrev rtpmap_fields : ℤ → List Text → ℤ
rtpmap_fields pt (n ∷ enc ∷ rest) = elim (atoi (trim_space n)) [
  | none ↦ pt
  | some number ↦
      if has_prefix (codes "telephone-event/") (to_lower (trim_space enc)) then number else pt
]
rtpmap_fields pt _ = pt

-- The loop over the `a=rtpmap:` lines: the last one for telephone events counts.
unfoldable pub telephone_event_of : ℤ → List Text → ℤ
unfolding trim_space to_lower has_prefix fields atoi
telephone_event_of pt [] = pt
telephone_event_of pt (ln ∷ rest) =
    telephone_event_of
      (if has_prefix (codes "a=rtpmap:") (to_lower (trim_space ln))
        then rtpmap_fields pt (fields (trim_space (drop 9 (trim_space ln))))
        else pt)
      rest

abbrev pub is_number : ℕ → ℤ → Bool
is_number k (pos n) = n == k
is_number k (negsuc n) = false

abbrev pub no_conn : Conn
no_conn = record { ip = none; raw_ip = []; raw_line = [] }

abbrev pub offer_of : List Text → Conn → Option Ip → Option (ℤ × List ℤ) → Option SdpAudioOffer
offer_of lines c none media = none
offer_of lines c (some addr) none = none
offer_of lines c (some addr) (some (port, pts)) = some record {
  addr = addr;
  port = port;
  payloads = pts;
  has_pcmu = any (is_number 0) pts;
  has_pcma = any (is_number 8) pts;
  telephone_event_pt = telephone_event_of (pos 0) lines;
  raw_conn_ip = c.raw_ip;
  raw_conn_line = c.raw_line;
}

abbrev pub addr_of : Net → List Text → Conn → Option Ip → Option Ip
addr_of net lines c fallback = or_else c.ip (or_else (sdp_origin_unicast_ip net lines) fallback)

abbrev pub offer_of_lines : Net → List Text → Option Ip → Option SdpAudioOffer
offer_of_lines net lines fallback =
    offer_of lines (conn_of net no_conn lines)
      (addr_of net lines (conn_of net no_conn lines) fallback) (first_audio lines)

unfoldable pub parse_sdp_audio_offer : Net → Text → Option Ip → Option SdpAudioOffer
unfolding split replace_pair conn_of sdp_origin_unicast_ip first_audio telephone_event_of
parse_sdp_audio_offer net body fallback = offer_of_lines net (lines_of body) fallback

-- The loop over the payload types.
unfoldable pub pick_from : SdpAudioOffer → List ℤ → Option ℕ
pick_from o [] = none
pick_from o (pt ∷ pts) =
    let rest = pick_from o pts in
    if is_number 0 pt && o.has_pcmu
    then some 0
    else if is_number 8 pt && o.has_pcma
    then some 8
    else rest

unfoldable pub pick_ivr_audio_payload_type : SdpAudioOffer → Option ℕ
unfolding pick_from
pick_ivr_audio_payload_type o =
    if not o.has_pcmu && not o.has_pcma
    then none
    else or_else (pick_from o o.payloads) (if o.has_pcmu then some 0 else some 8)

-- A destination of RTP: `net.UDPAddr`.
pub record UdpAddr : Type 0 where
  pub ip : Ip
  pub port : ℤ

-- The address that a `c=` line gives.
abbrev pub conn_ip : Net → List Text → Option Ip
conn_ip net (a ∷ b ∷ addr ∷ rest) = net.parse_ip addr
conn_ip net _ = none

abbrev pub with_destination : Option Ip → Option (ℤ × List ℤ) → List UdpAddr → List UdpAddr
with_destination none media rest = rest
with_destination (some ip) none rest = rest
with_destination (some ip) (some (port, pts)) rest = record { ip = ip; port = port } ∷ rest

-- The loop; `current` and `default` are the addresses of the last and of the first `c=` line so
-- far.
unfoldable pub destinations : Net → Option Ip → Option Ip → Option Ip → List Text → List UdpAddr
unfolding trim_space has_prefix fields audio_line
destinations net origin current default [] = []
destinations net origin current default (ln ∷ rest) =
    let given = conn_ip net (fields (drop 2 (trim_space ln))) in
    let after_conn = destinations net origin (or_else given current) (or_else default given) rest in
    let after_media = destinations net origin current default rest in
    if has_prefix (codes "c=") (trim_space ln)
    then after_conn
    else with_destination (or_else current (or_else default origin)) (audio_line ln) after_media

abbrev pub some_destinations : List UdpAddr → Option (List UdpAddr)
some_destinations [] = none
some_destinations (d ∷ ds) = some (d ∷ ds)

unfoldable pub parse_multiple_audio_rtp_destinations : Net → Text → Option (List UdpAddr)
unfolding split replace_pair sdp_origin_unicast_ip destinations
parse_multiple_audio_rtp_destinations net body =
    some_destinations
      (destinations net (sdp_origin_unicast_ip net (lines_of body)) none none (lines_of body))

-- `strconv.Itoa`
abbrev itoa : ℤ → Text
itoa (pos n) = decimal n
itoa (negsuc n) = b'-' ∷ decimal (suc n)

abbrev line : Text → Text
line s = s ++ 13 ∷ 10 ∷ []

abbrev family_of : Net → Option Ip → Text
family_of net none = codes "IP4"
family_of net (some ip) = if net.is_v4 ip then codes "IP4" else codes "IP6"

abbrev event_pt : ℤ → ℤ
event_pt pt = if below 1 pt || at_least 128 pt then pos 101 else pt

abbrev event_lines : ℤ → Text
event_lines pt =
    line (codes "a=rtpmap:" ++ (itoa pt ++ codes " telephone-event/8000"))
    ++ line (codes "a=fmtp:" ++ (itoa pt ++ codes " 0-16"))

abbrev answer_with : Text → Text → ℤ → ℤ → Text → Text → Text
answer_with family ip port event pt rtpmap =
    line (codes "v=0")
    ++ (line (codes "o=sipbridge 0 0 IN " ++ (family ++ (codes " " ++ ip)))
        ++ (line (codes "s=SIPBridge")
            ++ (line (codes "c=IN " ++ (family ++ (codes " " ++ ip)))
                ++ (line (codes "t=0 0")
                    ++ (line (
                          codes "m=audio "
                          ++ (itoa port
                              ++ (codes " RTP/AVP " ++ (pt ++ (codes " " ++ itoa event)))))
                        ++ (line rtpmap ++ (event_lines event ++ line (codes "a=sendrecv"))))))))

unfoldable pub build_ivr_sdp_answer : Net → Text → ℤ → ℤ → Text
unfolding trim_space decimal
build_ivr_sdp_answer net ip rtp_port telephone_event_pt =
    answer_with (family_of net (net.parse_ip (trim_space ip))) ip rtp_port
      (event_pt telephone_event_pt) (codes "0") (codes "a=rtpmap:0 PCMU/8000")

unfoldable pub build_bridge_fanout_sdp_answer : Net → Text → ℤ → ℤ → ℕ → Text
unfolding trim_space decimal
build_bridge_fanout_sdp_answer net ip rtp_port telephone_event_pt audio_pt =
    answer_with (family_of net (net.parse_ip (trim_space ip))) ip rtp_port
      (event_pt telephone_event_pt) (if audio_pt == 8 then codes "8" else codes "0")
      (if audio_pt == 8 then codes "a=rtpmap:8 PCMA/8000" else codes "a=rtpmap:0 PCMU/8000")
