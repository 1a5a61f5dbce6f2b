-- ===== src/Sip/Router.antt =====
-- Which target an INVITE is for: `MatchInvite` of internal/sip/router.go.
use sipbridge.Config.{Bridge, ConferenceGroup, HootGroup, Route, Spec}
use sipbridge.Prelude.{not, ◌&&◌, Option, none, some, find?, if◌then◌else◌}
use sipbridge.Sip.Address.{extract_user_from_uri}
use sipbridge.Sip.Identity.{bridge_by_id, conference_group_by_id}
use sipbridge.Sip.Message.{Message}
use sipbridge.Text.{Text, codes, text_eq, trim_space, is_empty}

pub data InviteTarget : Type 0 where
  bridge : Bridge → InviteTarget
  conference_group : ConferenceGroup → InviteTarget
  hoot_group : HootGroup → InviteTarget
  ivr : InviteTarget

unfoldable pub hoot_group_by_id : Spec → Text → Option HootGroup
unfolding text_eq
hoot_group_by_id cfg id = find? (λ (g : HootGroup). text_eq g.id id) cfg.hoot_groups

abbrev as_bridge : Option Bridge → Option InviteTarget
as_bridge none = none
as_bridge (some b) = some (InviteTarget.bridge b)

abbrev as_conference : Option ConferenceGroup → Option InviteTarget
as_conference none = none
as_conference (some g) = some (InviteTarget.conference_group g)

abbrev as_hoot : Option HootGroup → Option InviteTarget
as_hoot none = none
as_hoot (some g) = some (InviteTarget.hoot_group g)

-- The `switch` on the route's kind; an empty or unknown kind means a bridge.
unfoldable pub route_target : Spec → Route → Option InviteTarget
unfolding trim_space text_eq conference_group_by_id hoot_group_by_id bridge_by_id
route_target cfg rt =
    let kind = trim_space rt.target_kind in
    if text_eq kind (codes "conferenceGroup")
    then as_conference (conference_group_by_id cfg rt.target_id)
    else if text_eq kind (codes "hootGroup")
    then as_hoot (hoot_group_by_id cfg rt.target_id)
    else if text_eq kind (codes "ivr")
    then some InviteTarget.ivr
    else as_bridge (bridge_by_id cfg rt.target_id)

abbrev first_route : Spec → Option Route → Option InviteTarget
first_route cfg none = none
first_route cfg (some rt) = route_target cfg rt

-- The loop stops at the first route for the user, whatever that route resolves to.
unfoldable pub match_user : Spec → Text → Option InviteTarget
unfolding trim_space text_eq route_target
match_user cfg user =
    let ivr_user = trim_space cfg.entry_user in
    if is_empty user
    then none
    else if not (is_empty ivr_user) && text_eq user ivr_user
    then some InviteTarget.ivr
    else first_route cfg (find? (λ (rt : Route). text_eq rt.match_user user) cfg.routes)

unfoldable pub match_invite : Spec → Message → Option InviteTarget
unfolding match_user extract_user_from_uri
match_invite cfg msg = match_user cfg (extract_user_from_uri msg.request_uri)
