-- ===== src/Tests/Rings.antt =====
-- Whom calls ring, how messages are read, and which limits are accepted, on concrete inputs.
use sipbridge.Config.Cluster.Laws.{effective_soft_max-within}
use sipbridge.Config.Cluster.{ClusterLimits, effective_soft_max, validate_cluster_limits}
use sipbridge.Config.{Endpoint, Participant}
use sipbridge.Prelude.{
  ◌^◌, ◌≡◌, ◌≢◌, ◌↔◌, refl, arith, none, pos, true, false, [], ◌∷◌, ◌++◌, length, lt_int, below,
}
use sipbridge.Sip.Message.Laws.{parse_message-body, parse_message-in_fuel}
use sipbridge.Sip.Message.{Message, blank, content_length, crash, err, out_of_fuel, parse_message}
use sipbridge.Sip.Ring.Laws.{rings_participant-pairs}
use sipbridge.Sip.Ring.Region.Partition.{
  region_first, sort_endpoints_by_preferred_region-region_first,
}
use sipbridge.Sip.Ring.Region.{sort_endpoints_by_preferred_region}
use sipbridge.Sip.Ring.{end_label, rings_participant}
use sipbridge.Sip.Server.Keys.Laws.{has_colon, resolve_logical-bridge_iff}
use sipbridge.Sip.Server.Keys.{bridge_call, bridge_logical_key, resolve_logical}
use sipbridge.Text.{Text, codes, to_lower, trim_space}

abbrev endpoint_in : Text → Text → Endpoint
endpoint_in uri location = record {
  id = uri;
  display_name = [];
  sip_uri = uri;
  location = location;
  linked_user_id = [];
  linked_device_id = [];
  line_label = [];
}

abbrev london : Endpoint
london = endpoint_in (codes "sip:1@x") (codes "London")

abbrev paris : Endpoint
paris = endpoint_in (codes "sip:2@x") (codes "Paris")

sort_endpoints_by_preferred_region-region_first_example :
    sort_endpoints_by_preferred_region (codes " PARIS") (london ∷ paris ∷ [])
    ≡ region_first (to_lower (trim_space (codes " PARIS"))) (london ∷ paris ∷ [])
unfolding trim_space
sort_endpoints_by_preferred_region-region_first_example =
    sort_endpoints_by_preferred_region-region_first (codes " PARIS") (london ∷ paris ∷ []) refl

sort-paris :
    sort_endpoints_by_preferred_region (codes " PARIS") (london ∷ paris ∷ []) ≡ paris ∷ london ∷ []
unfolding sort_endpoints_by_preferred_region
sort-paris = refl

abbrev paired : Text → Text → Participant
paired uri end = record {
  id = uri;
  display_name = [];
  sip_uri = uri;
  pair_id = codes "p1";
  end = end;
  role = [];
  location = [];
  line_label = [];
}

rings_participant-pairs_example :
    (rings_participant
        (codes "1")
        (codes "p1")
        (end_label (paired (codes "sip:1@x") (codes "A")))
        (paired (codes "sip:2@x") (codes "B"))
      ≡ rings_participant
          (codes "2")
          (codes "p1")
          (end_label (paired (codes "sip:2@x") (codes "B")))
          (paired (codes "sip:1@x") (codes "A")))
    × (rings_participant
          (codes "1")
          (codes "p1")
          (end_label (paired (codes "sip:1@x") (codes "A")))
          (paired (codes "sip:1@x") (codes "A"))
        ≡ false)
rings_participant-pairs_example =
    rings_participant-pairs (codes "1") (codes "2") (paired (codes "sip:1@x") (codes "A"))
      (paired (codes "sip:2@x") (codes "B")) refl refl refl refl

abbrev crlf : Text
crlf = 13 ∷ 10 ∷ []

abbrev info_text : Text
info_text = codes "INFO sip:1@x SIP/2.0" ++ crlf ++ codes "l: 2" ++ crlf ++ crlf ++ codes "okay"

abbrev info_message : Message
info_message = record blank {
  is_request = true;
  method = codes "INFO";
  request_uri = codes "sip:1@x";
  version = codes "SIP/2.0";
  headers = (codes "content-length", codes "2" ∷ []) ∷ [];
  body = codes "ok";
}

parse_message-body_example : length info_message.body ≡ content_length info_message
unfolding parse_message
parse_message-body_example = parse_message-body 100 info_text info_message refl

parse_message-in_fuel_example : parse_message 100 info_text ≢ err out_of_fuel
parse_message-in_fuel_example = parse_message-in_fuel 100 info_text

-- An announced length that cannot be allocated.
parse_message-crash :
    parse_message 100 (codes "INFO sip:1@x SIP/2.0" ++ crlf ++ codes "l: 101" ++ crlf ++ crlf)
    ≡ crash
unfolding parse_message
parse_message-crash = refl

resolve_logical-bridge_iff_example :
    (resolve_logical (bridge_logical_key (codes "b1") (codes "c|t"))
      ≡ bridge_call (codes "b1") (codes "c|t"))
    ↔ (has_colon (codes "b1") ≡ false)
resolve_logical-bridge_iff_example = resolve_logical-bridge_iff (codes "b1") (codes "c|t")

abbrev ten_calls : ClusterLimits
ten_calls = record {
  max_concurrent_calls = pos 10;
  soft_max_concurrent_calls = pos 0;
  overflow_redirect_enabled = false;
  overflow_redirect_sip_uri = [];
}

effective_soft_max-within_example :
    (below 0 (effective_soft_max ten_calls) ≡ false)
    × (lt_int (pos 10) (effective_soft_max ten_calls) ≡ false)
unfolding validate_cluster_limits
effective_soft_max-within_example = effective_soft_max-within ten_calls 10 refl (omega arith) refl

abbrev huge_limits : ClusterLimits
huge_limits = record ten_calls { max_concurrent_calls = pos (2 ^ 60) }

-- Validation accepts a maximum of 2^60 calls, and the soft threshold is negative.
effective_soft_max-wraps :
    (validate_cluster_limits huge_limits ≡ none) × (below 0 (effective_soft_max huge_limits) ≡ true)
unfolding validate_cluster_limits effective_soft_max
effective_soft_max-wraps = (refl, refl)
