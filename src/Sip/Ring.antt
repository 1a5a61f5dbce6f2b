-- ===== src/Sip/Ring.antt =====
-- Whom an INVITE rings, and in which order: conference_ard.go, region_ring.go and the target switch
-- of `Start` in server.go.
pub mod Region
pub mod Preference
pub mod Laws
use sipbridge.Config.{Bridge, ConferenceGroup, Endpoint, HootGroup, Participant}
use sipbridge.Prelude.{
  ℕ, zero, suc, Bool, true, false, not, ◌&&◌, ◌||◌, List, [], ◌∷◌, ◌++◌, Option, none, some, filter,
  any, find?, map, leb, if◌then◌else◌,
}
use sipbridge.Sip.Address.{extract_user_from_uri}
use sipbridge.Text.{Text, codes, text_eq, trim_space, to_lower, equal_fold, is_empty}

unfoldable pub is_ard_group : ConferenceGroup → Bool
unfolding equal_fold trim_space
is_ard_group g = equal_fold (trim_space g.type) (codes "ard")

unfoldable pub is_hoot_group : ConferenceGroup → Bool
unfolding equal_fold trim_space
is_hoot_group g = equal_fold (trim_space g.type) (codes "hoot")

unfoldable pub synthetic_ard_bridge_id : Text → Text
unfolding trim_space
synthetic_ard_bridge_id group_id = codes "ardGroup:" ++ trim_space group_id

-- `ExtractUserFromURI(ep.SIPURI) == user`
unfoldable pub endpoint_is : Text → Endpoint → Bool
unfolding extract_user_from_uri text_eq
endpoint_is user ep = text_eq (extract_user_from_uri ep.sip_uri) user

unfoldable pub has_endpoint : Text → List Endpoint → Bool
unfolding endpoint_is
has_endpoint user = any (endpoint_is user)

unfoldable pub without : Text → List Endpoint → List Endpoint
unfolding endpoint_is
without user eps = if is_empty user then eps else filter (λ ep. not (endpoint_is user ep)) eps

-- Talkers ring listeners, listeners ring talkers, and anyone else rings both.
unfoldable pub first_ring : Bool → Bool → List Endpoint → List Endpoint → List Endpoint
first_ring is_talker is_listener talkers listeners =
    if is_talker then listeners else if is_listener then talkers else talkers ++ listeners

-- The second choice, when the first leaves nobody to ring.
unfoldable pub second_ring : Bool → Bool → List Endpoint → List Endpoint → List Endpoint
second_ring is_talker is_listener talkers listeners =
    if is_talker then talkers else if is_listener then listeners else []

abbrev ring_or : List Endpoint → List Endpoint → List Endpoint
ring_or [] other = other
ring_or (ep ∷ eps) other = ep ∷ eps

unfoldable pub build_hoot_ring_endpoints : Text → List Endpoint → List Endpoint → List Endpoint
unfolding trim_space has_endpoint without first_ring second_ring
build_hoot_ring_endpoints caller talkers listeners =
    let user = trim_space caller in
    let is_talker = not (is_empty user) && has_endpoint user talkers in
    let is_listener = not (is_empty user) && has_endpoint user listeners in
    ring_or (without user (first_ring is_talker is_listener talkers listeners))
      (without user (second_ring is_talker is_listener talkers listeners))

-- The side of a conference group that the caller is on, and whom that rings.
unfoldable pub conference_ring : Text → ConferenceGroup → List Endpoint
unfolding is_hoot_group build_hoot_ring_endpoints has_endpoint
conference_ring from_user g =
    let on_a = not (is_empty from_user) && has_endpoint from_user g.side_a in
    let on_b = not (is_empty from_user) && has_endpoint from_user g.side_b in
    if is_hoot_group g
    then build_hoot_ring_endpoints from_user g.side_a g.side_b
    else if on_a
    then g.side_b
    else if on_b
    then g.side_a
    else []

abbrev participant_is : Text → Participant → Bool
participant_is user p = not (is_empty p.sip_uri) && text_eq (extract_user_from_uri p.sip_uri) user

-- `strings.ToUpper` of one byte, and of an end label.
abbrev upper : ℕ → ℕ
upper c = if leb b'a' c && leb c b'z' then Prim.Native.Nat.◌-◌ c 32 else c

abbrev pub end_label : Participant → Text
end_label p = map upper (trim_space p.end)

abbrev pair_of : Option Participant → Text × Text
pair_of none = ([], [])
pair_of (some p) = (p.pair_id, end_label p)

-- Whether a participant is rung by a caller of pair `pair` at end `end`, or of no pair.
unfoldable pub rings_participant : Text → Text → Text → Participant → Bool
unfolding trim_space extract_user_from_uri text_eq
rings_participant from_user pair end p =
    not (is_empty p.sip_uri)
    && (if is_empty pair
        then not (not (is_empty from_user) && text_eq (extract_user_from_uri p.sip_uri) from_user)
        else text_eq p.pair_id pair
          && not (is_empty (end_label p) || is_empty end)
          && not (text_eq (end_label p) end))

abbrev as_endpoint : Participant → Endpoint
as_endpoint p = record {
  id = p.id;
  display_name = p.display_name;
  sip_uri = p.sip_uri;
  location = p.location;
  linked_user_id = [];
  linked_device_id = [];
  line_label = [];
}

unfoldable pub bridge_ring : Text → Bridge → List Endpoint
unfolding rings_participant trim_space extract_user_from_uri text_eq
bridge_ring from_user b =
    let caller =
      if is_empty from_user then none else find? (participant_is from_user) b.participants in
    let (pair, end) = pair_of caller in
    map as_endpoint (filter (rings_participant from_user pair end) b.participants)
