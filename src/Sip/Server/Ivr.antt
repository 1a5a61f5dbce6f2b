-- ===== src/Sip/Server/Ivr.antt =====
-- The IVR of server.go: `ivrAuthorizeAndResolveTarget` and `handleIVRDigitLocked`. A caller types
-- an access code and `#`, then a participant id and `#`.
pub mod Info
pub mod Ring
pub mod Again
pub mod Access
pub mod Dial
pub mod Join
use sipbridge.Config.{Bridge, ConferenceGroup, Spec, User}
use sipbridge.Maps.{lookup, insert, delete}
use sipbridge.Prelude.{
  ℕ, Bool, true, false, not, ◌&&◌, ◌||◌, Option, none, some, List, [], ◌∷◌, ◌++◌, any, drop, find?,
  leb, length, ◌==◌, if◌then◌else◌,
}
use sipbridge.Sip.Address.{extract_tag, header_user}
use sipbridge.Sip.Identity.{
  bridge_line_label_for_from, conference_group_by_id, user_region_for_participant,
}
use sipbridge.Sip.Message.{Message}
use sipbridge.Sip.Ring.{has_endpoint}
use sipbridge.Sip.Server.Bridges.{put_call}
use sipbridge.Sip.Server.Keys.{call_id_of, from_tag_of, key_of}
use sipbridge.Sip.Server.{
  BridgeCall, Effect, IvrSession, IvrState, Server, Step, TargetKind, ◌⨟◌, effect_of, quiet, reply,
  start_conference_fanout, start_siprec_for_bridge, start_siprec_for_ivr, start_silence,
}
use sipbridge.Text.{Text, codes, has_prefix, is_empty, text_eq, to_lower, trim_space}

-- The ids that an access code names; an id that is empty counts as not found.
unfoldable pub access_bridge : Spec → Text → Text
unfolding trim_space text_eq
access_bridge cfg code =
    elim (find?
      (λ (b : Bridge). b.ddi_access_enabled && text_eq (trim_space b.ddi_access_number) code)
      cfg.bridges) [ none ↦ [] | some b ↦ b.id ]

unfoldable pub access_group : Spec → Text → Text
unfolding trim_space text_eq
access_group cfg code =
    elim (find?
      (λ (g : ConferenceGroup).
        g.ddi_access_enabled && text_eq (trim_space g.ddi_access_number) code)
      cfg.conference_groups) [ none ↦ [] | some g ↦ g.id ]

abbrev pub has_pin : Text → User → Bool
has_pin pin u = text_eq (trim_space u.participant_id) pin

-- The first user with the PIN decides.
unfoldable pub authorize_user : Text → Text → Option User → Option (TargetKind × Text)
unfolding text_eq
authorize_user bridge_id group_id none = none
authorize_user bridge_id group_id (some u) =
    if not (is_empty bridge_id)
    then (if any (λ a. text_eq a bridge_id) u.allowed_bridge_ids
        then some (TargetKind.bridge, bridge_id)
        else none)
    else if any (λ a. text_eq a group_id) u.allowed_conference_group_ids
    then some (TargetKind.conference_group, group_id)
    else none

unfoldable pub ivr_authorize_and_resolve_target : Spec → Text → Text → Option (TargetKind × Text)
unfolding trim_space text_eq access_bridge access_group authorize_user
ivr_authorize_and_resolve_target cfg access_code participant_id =
    let code = trim_space access_code in
    let pin = trim_space participant_id in
    let bridge_id = access_bridge cfg code in
    let group_id = if is_empty bridge_id then access_group cfg code else [] in
    if is_empty code || is_empty pin || (is_empty bridge_id && is_empty group_id)
    then none
    else authorize_user bridge_id group_id (find? (has_pin pin) cfg.users)

abbrev pub store : Text → IvrSession → Server → Server
store key iv s = record s { ivr_sessions = insert key iv s.ivr_sessions }

-- Id, name and PIN length of the user who dialled in.
abbrev pub dialled_user : Text → Option User → (Text × Text) × ℕ
dialled_user pin none = (([], []), 0)
dialled_user pin (some u) = ((u.id, u.display_name), length pin)

abbrev pub ivr_call : Spec → IvrSession → Text → Text → Text → BridgeCall
ivr_call cfg iv call_id from_tag bridge_id =
    let pin = trim_space iv.participant_id in
    let (who, pin_len) = dialled_user pin (find? (has_pin pin) cfg.users) in
    record {
      bridge_id = bridge_id;
      call_id = call_id;
      from_tag = from_tag;
      to_tag = extract_tag iv.to_header;
      from_header = iv.from_header;
      to_header = iv.to_header;
      contact_uri = iv.contact_uri;
      remote = iv.remote;
      created_at = iv.created_at;
      user_id = who.0;
      user_display_name = who.1;
      pin_len = pin_len;
      participant_pin = pin;
      line_label = bridge_line_label_for_from cfg bridge_id iv.from_header;
      rtp = iv.rtp;
      peer_rtp = none;
      cap = none;
      siprec_fwd = none;
    }

-- The caller leaves the IVR for the room.
abbrev pub join_ivr_bridge : Spec → Text → IvrSession → Text → Text → Text → Server → Step
join_ivr_bridge cfg key iv call_id from_tag bridge_id s =
    let t = put_call bridge_id key (ivr_call cfg iv call_id from_tag bridge_id) s in
    (
      record t { ivr_sessions = delete key t.ivr_sessions },
      effect_of start_silence iv.rtp ++ start_siprec_for_bridge bridge_id key ∷ [],
    )

abbrev pub group_type : ConferenceGroup → Text
group_type g = let t = to_lower (trim_space g.type) in if is_empty t then codes "mrd" else t

-- Side B for a caller among its endpoints, side A for all others.
abbrev caller_side : ConferenceGroup → Text → Text
caller_side g from_header =
    let user = header_user from_header in
    if not (is_empty (trim_space user)) && has_endpoint user g.side_b then codes "B" else codes "A"

abbrev pub in_group : Text → ConferenceGroup → IvrSession → IvrSession
in_group group_id g iv = record iv {
  conference_group_id = group_id;
  conference_group_type = group_type g;
  conference_caller_side = caller_side g iv.from_header;
  state = IvrState.joined_conference_group;
}

abbrev pub join_ivr_group : Text → IvrSession → Text → Option ConferenceGroup → Server → Step
join_ivr_group key iv group_id none s = quiet (store key iv s)
join_ivr_group key iv group_id (some g) s = (
  store key (in_group group_id g iv) s,
  effect_of start_silence iv.rtp
      ++ (start_siprec_for_ivr key
          ∷ (if text_eq (group_type g) (codes "ard") || text_eq (group_type g) (codes "hoot")
              then start_conference_fanout key ∷ []
              else [])),
)

abbrev pub admit_caller :
    Spec → Text → IvrSession → Text → Text → Option (TargetKind × Text) → Server → Step
admit_caller cfg key iv call_id from_tag none s = quiet (store key iv s)
admit_caller cfg key iv call_id from_tag (some (kind, target)) s =
    let known = record iv {
      preferred_region = user_region_for_participant cfg iv.participant_id;
    } in
    elim kind [
      | TargetKind.bridge ↦ join_ivr_bridge cfg key known call_id from_tag target s
      | TargetKind.conference_group ↦
          join_ivr_group key known target (conference_group_by_id cfg target) s
      | TargetKind.hoot_group ↦ quiet (store key known s)
    ]

-- The caller typed `#` after `val`.
abbrev pub commit : Spec → Text → IvrSession → Text → Text → Text → Server → Step
commit cfg key iv val call_id from_tag s = elim iv.state [
  | IvrState.collect_bridge ↦
      quiet (store key (record iv { bridge_access = val; state = IvrState.collect_user }) s)
  | IvrState.collect_user ↦
      admit_caller cfg key (record iv { participant_id = val }) call_id from_tag
        (ivr_authorize_and_resolve_target cfg iv.bridge_access val) s
  | _ ↦ quiet (store key iv s)
]

abbrev pub in_call_digit : Text → IvrSession → Text → Server → Step
in_call_digit key iv digit s = (
  s,
  if text_eq digit (codes "9")
        && text_eq (to_lower (trim_space iv.conference_group_type)) (codes "mrd")
      then start_conference_fanout key ∷ []
      else [],
)

abbrev pub is_digit : ℕ → Bool
is_digit c = leb b'0' c && leb c b'9'

-- A digit is typed; anything else is dropped.
abbrev pub typed : Text → Text → Text
typed (c ∷ []) buf = if is_digit c then buf ++ c ∷ [] else buf
typed _ buf = buf

abbrev pub collecting_digit : Spec → Text → IvrSession → Text → Text → Text → Server → Step
collecting_digit cfg key iv digit call_id from_tag s =
    if text_eq digit (codes "#")
    then commit cfg key (record iv { buf = [] }) (trim_space iv.buf) call_id from_tag s
    else quiet (store key (record iv { buf = typed digit iv.buf }) s)

unfoldable pub handle_ivr_digit_locked :
    Spec → Text → IvrSession → Text → Text → Text → Server → Step
unfolding text_eq trim_space to_lower insert delete put_call ivr_authorize_and_resolve_target
    conference_group_by_id user_region_for_participant
handle_ivr_digit_locked cfg key iv digit call_id from_tag s = elim iv.state [
  | IvrState.joined_conference_group ↦ in_call_digit key iv digit s
  | _ ↦ collecting_digit cfg key iv digit call_id from_tag s
]
