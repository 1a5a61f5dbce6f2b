-- ===== src/Sip/Sdp/Destinations.antt =====
-- The two readers of an SDP body agree on where the audio goes.
use sipbridge.Prelude.{
  ℤ, pos, ◌≡◌, refl, sym, ap, ◌∙◌, true, false, Option, none, some, List, [], ◌∷◌, or_else, drop,
  Bool-cases, Option-cases, some-injective, inl, inr, arith,
}
use sipbridge.Sip.Sdp.{
  Conn, Ip, Net, SdpAudioOffer, UdpAddr, addr_of, audio_line, conn_ip, conn_of, destinations,
  first_audio, lines_of, no_conn, offer_of, parse_multiple_audio_rtp_destinations,
  parse_sdp_audio_offer, sdp_origin_unicast_ip, some_destinations, with_destination,
}
use sipbridge.Text.{Text, codes, fields, has_prefix, trim_space}

-- A `c=` line is no `m=audio` line.
conn_no_audio :
    (l : Text) → has_prefix (codes "c=") l ≡ true → has_prefix (codes "m=audio ") l ≡ false
unfolding has_prefix
conn_no_audio [] h = cc
conn_no_audio (x ∷ l) h = ground arith

conn-audio_line :
    (ln : Text) → has_prefix (codes "c=") (trim_space ln) ≡ true → audio_line ln ≡ none
unfolding audio_line
conn-audio_line ln h = rw (conn_no_audio (trim_space ln) h) refl

abbrev with_port : Option (ℤ × List ℤ) → List ℤ → List ℤ
with_port none rest = rest
with_port (some (port, pts)) rest = port ∷ rest

-- The ports of the `m=audio` lines that are used.
unfoldable pub audio_ports : List Text → List ℤ
audio_ports [] = []
audio_ports (ln ∷ rest) = with_port (audio_line ln) (audio_ports rest)

unfoldable pub ports_of : List UdpAddr → List ℤ
ports_of [] = []
ports_of (d ∷ ds) = d.port ∷ ports_of ds

with_destination-port :
    (current default : Option Ip) (origin : Ip) (media : Option (ℤ × List ℤ)) (rest : List UdpAddr)
    → ports_of (with_destination (or_else current (or_else default (some origin))) media rest)
      ≡ with_port media (ports_of rest)
unfolding ports_of
with_destination-port none none origin none rest = refl
with_destination-port none none origin (some (port, pts)) rest = refl
with_destination-port none (some ip) origin none rest = refl
with_destination-port none (some ip) origin (some (port, pts)) rest = refl
with_destination-port (some ip) default origin none rest = refl
with_destination-port (some ip) default origin (some (port, pts)) rest = refl

abbrev port_in : Option SdpAudioOffer → ℤ
port_in none = pos 0
port_in (some o) = o.port

-- Where the origin gives an address, every line that is used has a destination.
destinations-audio_ports :
    (net : Net) (origin : Ip) (current default : Option Ip) (lines : List Text)
    → ports_of (destinations net (some origin) current default lines) ≡ audio_ports lines
unfolding destinations audio_ports ports_of
destinations-audio_ports net origin current default [] = refl
destinations-audio_ports net origin current default (ln ∷ rest) =
    let given = conn_ip net (fields (drop 2 (trim_space ln))) in
    elim (Bool-cases (has_prefix (codes "c=") (trim_space ln))) [
      | inl e ↦
          rw (e, conn-audio_line ln e)
            (destinations-audio_ports net origin (or_else given current) (or_else default given)
              rest)
      | inr e ↦ rw e (
          with_destination-port current default origin (audio_line ln)
            (destinations net (some origin) current default rest)
          ∙ ap (with_port (audio_line ln))
              (destinations-audio_ports net origin current default rest))
    ]

first_audio-audio_ports :
    (lines : List Text) (port : ℤ) (pts : List ℤ)
    → first_audio lines ≡ some (port, pts)
    → (ports : List ℤ) × (audio_ports lines ≡ port ∷ ports)
unfolding first_audio audio_ports
first_audio-audio_ports [] port pts h = cc
first_audio-audio_ports (ln ∷ rest) port pts h = elim (Option-cases (audio_line ln)) [
  | inl e ↦ rw e (first_audio-audio_ports rest port pts (rw e at h))
  | inr (media, e) ↦
      let it : some media ≡ some (port, pts) = rw e at h in
      let same = some-injective media (port, pts) it in (audio_ports rest, rw (e, same) refl)
]

offer_of-port :
    (lines : List Text) (c : Conn) (a : Option Ip) (media : Option (ℤ × List ℤ)) (o : SdpAudioOffer)
    → offer_of lines c a media ≡ some o
    → (pts : List ℤ) × (media ≡ some (o.port, pts))
offer_of-port lines c none media o h = cc
offer_of-port lines c (some addr) none o h = cc
offer_of-port lines c (some addr) (some (port, pts)) o h =
    let it = ap (λ (x : Option SdpAudioOffer). port_in x) h in
    (pts, ap (λ (n : ℤ). some (n, pts)) it)

first_destination :
    (ds : List UdpAddr) (port : ℤ) (ports : List ℤ)
    → ports_of ds ≡ port ∷ ports
    → (d : UdpAddr) × (rest : List UdpAddr) × (some_destinations ds ≡ some (d ∷ rest))
      × (ds ≡ d ∷ rest)
      × (d.port ≡ port)
unfolding ports_of
first_destination [] port ports h = cc
first_destination (d ∷ ds) port ports h = (d, ds, refl, refl, cc)

-- A body whose origin gives an address: when the offer is read from it, the destinations are read
-- too; they have the ports of the m=audio lines that are used, one for each in order, and the
-- first is the port of the offer.
pub parse_multiple_audio_rtp_destinations-port :
    (net : Net) (body : Text) (fallback : Option Ip) (origin : Ip) (o : SdpAudioOffer)
    → sdp_origin_unicast_ip net (lines_of body) ≡ some origin
    → parse_sdp_audio_offer net body fallback ≡ some o
    → (d : UdpAddr) × (ds : List UdpAddr) × (parse_multiple_audio_rtp_destinations net body
        ≡ some (d ∷ ds))
      × (ports_of (d ∷ ds) ≡ audio_ports (lines_of body))
      × (d.port ≡ o.port)
unfolding parse_multiple_audio_rtp_destinations parse_sdp_audio_offer
parse_multiple_audio_rtp_destinations-port net body fallback origin o from h =
    let lines = lines_of body in
    let conn = conn_of net no_conn lines in
    let media =
      offer_of-port lines conn (addr_of net lines conn fallback) (first_audio lines) o h in
    let ports = first_audio-audio_ports lines o.port media.0 media.1 in
    let all = destinations-audio_ports net origin none none lines in
    let first =
      first_destination (destinations net (some origin) none none lines) o.port ports.0
        (all ∙ ports.1) in
    (first.0, first.1, rw from first.2, ap ports_of (sym first.3) ∙ all, first.4)
