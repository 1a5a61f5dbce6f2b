-- ===== src/Sip/Ring/Preference.antt =====
-- `preferredRegionForBridgeCaller` and `preferredRegionForConferenceCaller` (region_ring.go).
use sipbridge.Config.{Bridge, ConferenceGroup, Endpoint, Participant, Spec}
use sipbridge.Prelude.{not, ◌||◌, List, [], ◌∷◌, ◌++◌, if◌then◌else◌}
use sipbridge.Sip.Address.{extract_user_from_uri}
use sipbridge.Sip.Identity.{user_region_for_user_id}
use sipbridge.Text.{Text, text_eq, trim_space, is_empty}

-- The region of one party: its location, or the region of the user with its id.
unfoldable pub party_region : Spec → Text → Text → Text
unfolding trim_space user_region_for_user_id
party_region cfg location id =
    let loc = trim_space location in if is_empty loc then user_region_for_user_id cfg id else loc

abbrev region_or : Text → Text → Text
region_or [] rest = rest
region_or (c ∷ cs) rest = c ∷ cs

-- The loop over a side: the first party of the caller that has a region.
unfoldable pub endpoint_region : Spec → Text → List Endpoint → Text
unfolding party_region extract_user_from_uri text_eq
endpoint_region cfg from_user [] = []
endpoint_region cfg from_user (ep ∷ eps) =
    region_or
      (if is_empty ep.sip_uri || not (text_eq (extract_user_from_uri ep.sip_uri) from_user)
        then []
        else party_region cfg ep.location ep.id)
      (endpoint_region cfg from_user eps)

unfoldable pub preferred_region_for_conference_caller : Spec → ConferenceGroup → Text → Text
unfolding endpoint_region
preferred_region_for_conference_caller cfg g from_user =
    if is_empty from_user then [] else endpoint_region cfg from_user (g.side_a ++ g.side_b)

unfoldable pub participant_region : Spec → Text → List Participant → Text
unfolding party_region extract_user_from_uri text_eq
participant_region cfg from_user [] = []
participant_region cfg from_user (p ∷ ps) =
    region_or
      (if is_empty p.sip_uri || not (text_eq (extract_user_from_uri p.sip_uri) from_user)
        then []
        else party_region cfg p.location p.id)
      (participant_region cfg from_user ps)

unfoldable pub preferred_region_for_bridge_caller : Spec → Bridge → Text → Text
unfolding participant_region
preferred_region_for_bridge_caller cfg b from_user =
    if is_empty from_user then [] else participant_region cfg from_user b.participants
