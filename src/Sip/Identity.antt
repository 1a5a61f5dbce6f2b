-- ===== src/Sip/Identity.antt =====
-- Who a caller is in the configuration, and whether the call is recorded: the lookups of
-- internal/sip/siprec_ctrl.go and region_ring.go.
use sipbridge.Config.{Participant, Bridge, User, Endpoint, ConferenceGroup, Spec}
use sipbridge.Prelude.{
  Bool, true, not, ◌&&◌, ◌||◌, Option, none, some, List, [], find?, any, if◌then◌else◌,
}
use sipbridge.Sip.Address.{extract_user_from_uri, header_user}
use sipbridge.Text.{Text, trim_space, equal_fold, text_eq, is_empty}

-- A nil `recording_enabled` records.
unfoldable pub recording_enabled : Option Bool → Bool
recording_enabled none = true
recording_enabled (some b) = b

unfoldable pub bridge_by_id : Spec → Text → Option Bridge
unfolding text_eq
bridge_by_id cfg id = find? (λ (b : Bridge). text_eq b.id id) cfg.bridges

unfoldable pub conference_group_by_id : Spec → Text → Option ConferenceGroup
unfolding text_eq
conference_group_by_id cfg id =
    find? (λ (g : ConferenceGroup). text_eq g.id id) cfg.conference_groups

-- `match` of the helpers: the endpoint's user part is the caller's, without regard to case.
unfoldable pub same_party : Text → Text → Bool
unfolding extract_user_from_uri trim_space equal_fold
same_party from_user sip_uri =
    let su = trim_space (extract_user_from_uri sip_uri) in
    not (is_empty su) && equal_fold su from_user

abbrev endpoint_of : Text → List Endpoint → Option Endpoint
endpoint_of from_user = find? (λ (ep : Endpoint). same_party from_user ep.sip_uri)

abbrev either {ℓ} : {A : Type ℓ} → Option A → Option A → Option A
either (some a) other = some a
either none other = other

abbrev trimmed_name : Option Endpoint → Text
trimmed_name none = []
trimmed_name (some ep) = trim_space ep.display_name

unfoldable pub conference_endpoint_display_name : ConferenceGroup → Text → Text
unfolding same_party header_user trim_space
conference_endpoint_display_name g from_header =
    let from_user = trim_space (header_user from_header) in
    if is_empty from_user
    then []
    else trimmed_name (either (endpoint_of from_user g.side_a) (endpoint_of from_user g.side_b))

abbrev linked_user : Option Endpoint → Text
linked_user none = []
linked_user (some ep) = trim_space ep.linked_user_id

abbrev user_and_name : Option User → Text × Text
user_and_name none = ([], [])
user_and_name (some u) = (u.id, u.display_name)

-- Side B is asked when side A gives no linked user.
unfoldable pub conference_invited_user_identity : Spec → ConferenceGroup → Text → Text × Text
unfolding same_party header_user trim_space text_eq
conference_invited_user_identity cfg g from_header =
    let from_user = trim_space (header_user from_header) in
    let linked_a = linked_user (endpoint_of from_user g.side_a) in
    let linked =
      if is_empty linked_a then linked_user (endpoint_of from_user g.side_b) else linked_a in
    if is_empty from_user || is_empty linked
    then ([], [])
    else user_and_name (find? (λ (u : User). text_eq u.id linked) cfg.users)

unfoldable pub conference_invite_participant_labels : Spec → ConferenceGroup → Text → Text × Text
unfolding conference_invited_user_identity conference_endpoint_display_name trim_space
conference_invite_participant_labels cfg g from_header =
    let (uid, name) = conference_invited_user_identity cfg g from_header in
    if not (is_empty (trim_space name))
    then (uid, name)
    else (uid, conference_endpoint_display_name g from_header)

abbrev participant_label : Option Participant → Text
participant_label none = []
participant_label (some p) = trim_space p.line_label

abbrev bridge_label : Option Bridge → Text → Text
bridge_label none from_header = []
bridge_label (some br) from_header =
    let s = trim_space br.line_label in
    let from_user = trim_space (header_user from_header) in
    if not (is_empty s)
    then s
    else if is_empty from_user
    then []
    else participant_label
        (find? (λ (p : Participant). same_party from_user p.sip_uri) br.participants)

unfoldable pub bridge_line_label_for_from : Spec → Text → Text → Text
unfolding bridge_by_id trim_space header_user same_party
bridge_line_label_for_from cfg bridge_id from_header =
    bridge_label (bridge_by_id cfg bridge_id) from_header

-- `allowSIPREC`: the group records, or the linked user opted in.
unfoldable pub allow_siprec : Spec → ConferenceGroup → Text → Bool
unfolding recording_enabled text_eq
allow_siprec cfg g uid =
    recording_enabled g.recording_enabled
    || (not (is_empty uid) && any (λ (u : User). text_eq u.id uid && u.recording_opt_in) cfg.users)

-- `userRegionForUserID`
abbrev region_of : Option User → Text
region_of none = []
region_of (some u) = trim_space u.region

unfoldable pub user_region_for_user_id : Spec → Text → Text
unfolding trim_space text_eq
user_region_for_user_id cfg user_id =
    let key = trim_space user_id in
    if is_empty key
    then []
    else region_of (find? (λ (u : User). text_eq (trim_space u.id) key) cfg.users)

unfoldable pub user_region_for_participant : Spec → Text → Text
unfolding trim_space text_eq
user_region_for_participant cfg participant_id =
    let id = trim_space participant_id in
    if is_empty id
    then []
    else region_of (find? (λ (u : User). text_eq (trim_space u.participant_id) id) cfg.users)
