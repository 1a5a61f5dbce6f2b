-- ===== src/Tests/Offers.antt =====
-- An SDP offer that is read, and an answer that is read back.
use sipbridge.Prelude.{◌≡◌, refl, pos, true, false, none, some, List, [], ◌∷◌, ◌++◌, if◌then◌else◌}
use sipbridge.Sip.Sdp.Destinations.{
  audio_ports, parse_multiple_audio_rtp_destinations-port, ports_of,
}
use sipbridge.Sip.Sdp.Offer.{first_g711, pick_ivr_audio_payload_type-first_g711}
use sipbridge.Sip.Sdp.{
  Net, SdpAudioOffer, UdpAddr, build_bridge_fanout_sdp_answer, build_ivr_sdp_answer, lines_of,
  parse_multiple_audio_rtp_destinations, parse_sdp_audio_offer, pick_ivr_audio_payload_type,
  sdp_origin_unicast_ip,
}
use sipbridge.Text.{Text, codes, is_empty}

-- Every text is an address.
abbrev any_ip : Net
any_ip = record { parse_ip = λ t. if is_empty t then none else some t; is_v4 = λ a. true }

abbrev body : Text
body =
    codes "o=x 0 0 IN IP4 9"
    ++ 13 ∷ 10 ∷ codes "c=IN IP4 7"
    ++ 13 ∷ 10 ∷ codes "m=audio 40 RTP/AVP 18 8 0 96"
    ++ 10 ∷ codes "a=rtpmap:96 telephone-event/8000"
    ++ 10 ∷ codes "m=audio 42 RTP/AVP 0"

abbrev offer : SdpAudioOffer
offer = record {
  addr = codes "7";
  port = pos 40;
  payloads = pos 18 ∷ pos 8 ∷ pos 0 ∷ pos 96 ∷ [];
  has_pcmu = true;
  has_pcma = true;
  telephone_event_pt = pos 96;
  raw_conn_ip = codes "7";
  raw_conn_line = codes "c=IN IP4 7";
}

read : parse_sdp_audio_offer any_ip body none ≡ some offer
unfolding parse_sdp_audio_offer
read = refl

pick_ivr_audio_payload_type-first_g711_example :
    pick_ivr_audio_payload_type offer ≡ first_g711 (pos 18 ∷ pos 8 ∷ pos 0 ∷ pos 96 ∷ [])
unfolding parse_sdp_audio_offer
pick_ivr_audio_payload_type-first_g711_example =
    pick_ivr_audio_payload_type-first_g711 any_ip body none offer refl

pcma : pick_ivr_audio_payload_type offer ≡ some 8
unfolding pick_ivr_audio_payload_type
pcma = refl

parse_multiple_audio_rtp_destinations-port_example :
    (d : UdpAddr) × (ds : List UdpAddr) × (parse_multiple_audio_rtp_destinations any_ip body
      ≡ some (d ∷ ds))
    × (ports_of (d ∷ ds) ≡ audio_ports (lines_of body))
    × (d.port ≡ pos 40)
unfolding parse_sdp_audio_offer sdp_origin_unicast_ip
parse_multiple_audio_rtp_destinations-port_example =
    parse_multiple_audio_rtp_destinations-port any_ip body none (codes "9") offer refl refl

both_ports : audio_ports (lines_of body) ≡ pos 40 ∷ pos 42 ∷ []
unfolding audio_ports parse_sdp_audio_offer
both_ports = refl

answered :
    parse_sdp_audio_offer any_ip
      (build_bridge_fanout_sdp_answer any_ip (codes "7") (pos 4000) (pos 0) 8)
      none
    ≡ some record {
      addr = codes "7";
      port = pos 4000;
      payloads = pos 8 ∷ pos 101 ∷ [];
      has_pcmu = false;
      has_pcma = true;
      telephone_event_pt = pos 101;
      raw_conn_ip = codes "7";
      raw_conn_line = codes "c=IN IP4 7";
    }
unfolding parse_sdp_audio_offer build_bridge_fanout_sdp_answer
answered = refl

pcmu_answer :
    build_bridge_fanout_sdp_answer any_ip (codes "7") (pos 4000) (pos 96) 0
    ≡ build_ivr_sdp_answer any_ip (codes "7") (pos 4000) (pos 96)
unfolding build_bridge_fanout_sdp_answer build_ivr_sdp_answer
pcmu_answer = refl
