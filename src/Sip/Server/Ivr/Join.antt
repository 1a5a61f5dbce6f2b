-- ===== src/Sip/Server/Ivr/Join.antt =====
-- A caller whose PIN is accepted for a bridge moves from the IVR into the room.
use mathlib.Core.Path.{subst}
use sipbridge.Config.{Spec, User}
use sipbridge.Maps.Laws.{lookup-delete, lookup-insert}
use sipbridge.Maps.{lookup}
use sipbridge.Prelude.{
  ℕ, suc, ◌≡◌, refl, sym, ap, ◌∙◌, Option, none, some, true, false, ◌&&◌, ◌||◌, List, [], ◌∷◌, any,
  find?, get_elem?, length, Bool-cases, Option-cases, inl, inr, if◌then◌else◌,
}
use sipbridge.Sip.Identity.{user_region_for_participant}
use sipbridge.Sip.Server.Ivr.Access.{
  authorize_user-allows, ivr_authorize_and_resolve_target-permits,
}
use sipbridge.Sip.Server.Bridges.{find_call, put_call}
use sipbridge.Sip.Server.Ivr.{
  access_bridge, access_group, authorize_user, dialled_user, handle_ivr_digit_locked, has_pin,
  ivr_authorize_and_resolve_target, ivr_call,
}
use sipbridge.Sip.Server.{BridgeCall, IvrSession, IvrState, Server, TargetKind}
use sipbridge.Text.Laws.{text_eq_iff, text_eq_refl, trim_space-trim_space}
use sipbridge.Text.{Text, codes, is_empty, text_eq, trim_space}

-- The users whose PIN is `pin`, by the list.
find_pin :
    (pin : Text) (us : List User) (u : User)
    → find? (has_pin pin) us ≡ some u
    → ((i : ℕ) × (get_elem? us i ≡ some u)) × (trim_space u.participant_id ≡ pin)
find_pin pin [] u h = cc
find_pin pin (v ∷ us) u h = elim (Bool-cases (has_pin pin v)) [
  | inl hit ↦
      let same : some v ≡ some u = rw hit at h in
      let is : v ≡ u = cc in
      (
        (0, same),
        subst (λ (x : User). trim_space x.participant_id ≡ pin) is
            ((text_eq_iff (trim_space v.participant_id) pin).0 hit),
      )
  | inr miss ↦
      let later : find? (has_pin pin) us ≡ some u = rw miss at h in
      let ((i, there), its) = find_pin pin us u later in ((suc i, there), its)
]

-- The bridge of a grant is on the list of the first user with the PIN.
allowed_user :
    (bridge_id group_id id : Text) (u : User)
    → authorize_user bridge_id group_id (some u) ≡ some (TargetKind.bridge, id)
    → any (λ a. text_eq a id) u.allowed_bridge_ids ≡ true
allowed_user bridge_id group_id id u h =
    authorize_user-allows bridge_id group_id u TargetKind.bridge id h

-- The user behind a grant.
granted_user :
    (cfg : Spec) (access pin id : Text)
    → ivr_authorize_and_resolve_target cfg access pin ≡ some (TargetKind.bridge, id)
    → (u : User) × (find? (has_pin (trim_space pin)) cfg.users ≡ some u)
      × (any (λ a. text_eq a id) u.allowed_bridge_ids ≡ true)
unfolding ivr_authorize_and_resolve_target
granted_user cfg access pin id h =
    let code = trim_space access in
    let typed_pin = trim_space pin in
    let bridge_id = access_bridge cfg code in
    let group_id = if is_empty bridge_id then access_group cfg code else [] in
    elim (Bool-cases
      (is_empty code || is_empty typed_pin || (is_empty bridge_id && is_empty group_id))) [
        | inl bad ↦
            let never : (◌≡◌ {A = Option (TargetKind × Text)} none (some (TargetKind.bridge, id))) =
              rw bad at h in
            cc
        | inr fits ↦
            let by : authorize_user bridge_id group_id (find? (has_pin typed_pin) cfg.users)
                ≡ some (TargetKind.bridge, id) =
              rw fits at h in
            elim (Option-cases (find? (has_pin typed_pin) cfg.users)) [
              | inl nobody ↦
                  let never : authorize_user bridge_id group_id none
                      ≡ some (TargetKind.bridge, id) =
                    rw nobody at by in
                  unfold authorize_user in cc
              | inr (u, found) ↦
                  let to_user : authorize_user bridge_id group_id (some u)
                      ≡ some (TargetKind.bridge, id) =
                    rw found at by in
                  (u, found, allowed_user bridge_id group_id id u to_user)
            ]
      ]

-- The call `c` is that of the caller `iv` who typed the PIN of `u`.
pub record IsCallOf (users : List User) (iv : IvrSession) (call_id from_tag bridge_id : Text)
    (c : BridgeCall) (u : User) : Type 0 where
  -- `u` is a configured user, with the typed PIN, who may use the bridge.
  pub configured : (i : ℕ) × (get_elem? users i ≡ some u)
  pub has_typed_pin : trim_space u.participant_id ≡ trim_space iv.buf
  pub may_use : any (λ a. text_eq a bridge_id) u.allowed_bridge_ids ≡ true
  pub pin : c.participant_pin ≡ trim_space u.participant_id
  pub pin_given : is_empty c.participant_pin ≡ false
  pub pin_length : c.pin_len ≡ length (trim_space u.participant_id)
  pub user : c.user_id ≡ u.id
  pub name : c.user_display_name ≡ u.display_name
  pub bridge : c.bridge_id ≡ bridge_id
  pub dialog : (c.call_id ≡ call_id) × (c.from_tag ≡ from_tag)
  pub caller : (c.remote ≡ iv.remote) × (c.contact_uri ≡ iv.contact_uri)
  pub media : c.rtp ≡ iv.rtp

dialled_user-found :
    (users : List User) (typed pin : Text) (u : User)
    → typed ≡ pin
    → find? (has_pin pin) users ≡ some u
    → dialled_user typed (find? (has_pin typed) users) ≡ ((u.id, u.display_name), length pin)
dialled_user-found users typed pin u same found =
    subst
      (λ (p : Text).
        dialled_user p (find? (has_pin p) users) ≡ ((u.id, u.display_name), length pin))
      (sym same) (ap (dialled_user pin) found)

ivr_call-IsCallOf :
    (cfg : Spec) (iv known : IvrSession) (call_id from_tag bridge_id : Text)
    → ivr_authorize_and_resolve_target cfg iv.bridge_access (trim_space iv.buf)
      ≡ some (TargetKind.bridge, bridge_id)
    → known.participant_id ≡ trim_space iv.buf
    → known.remote ≡ iv.remote
    → known.contact_uri ≡ iv.contact_uri
    → known.rtp ≡ iv.rtp
    → (u : User) × IsCallOf cfg.users iv call_id from_tag bridge_id
        (ivr_call cfg known call_id from_tag bridge_id)
        u
ivr_call-IsCallOf cfg iv known call_id from_tag bridge_id accepted typed remote contact rtp =
    let val = trim_space iv.buf in
    let (u, found, allowed) = granted_user cfg iv.bridge_access val bridge_id accepted in
    let (at, its) = find_pin (trim_space val) cfg.users u found in
    let once = trim_space-trim_space iv.buf in
    let pinned : trim_space known.participant_id ≡ trim_space val = ap trim_space typed in
    let given =
      (ivr_authorize_and_resolve_target-permits cfg iv.bridge_access val TargetKind.bridge bridge_id
        accepted).0 in
    let who =
      dialled_user-found cfg.users (trim_space known.participant_id) (trim_space val) u pinned
        found in
    (
      u,
      record {
        configured = at;
        has_typed_pin = its ∙ once;
        may_use = allowed;
        pin = pinned ∙ sym its;
        pin_given = ap is_empty pinned ∙ given;
        pin_length = ap (λ (w : (Text × Text) × ℕ). w.1) who ∙ ap length (sym its);
        user = ap (λ (w : (Text × Text) × ℕ). w.0.0) who;
        name = ap (λ (w : (Text × Text) × ℕ). w.0.1) who;
        bridge = refl;
        dialog = (refl, refl);
        caller = (remote, contact);
        media = rtp;
      },
    )

-- Under the key there is a call of the caller in the bridge, for a configured user, and no caller
-- in the IVR.
unfoldable pub HasJoined : Spec → Text → IvrSession → Text → Text → Text → Server → Type 0
HasJoined cfg key iv call_id from_tag bridge_id s =
    (c : BridgeCall) × (u : User) × IsCallOf cfg.users iv call_id from_tag bridge_id c u
    × (find_call bridge_id key s ≡ some c)
    × (lookup key s.ivr_sessions ≡ none)

-- A caller who is asked for the participant id types `#`, and the typed id is accepted for a
-- bridge: the caller then has a call in that bridge, and is no longer in the IVR. The call has the
-- typed id as PIN, which is not blank, and its length; and the id and the display name of a
-- configured user who has that PIN and may use the bridge. It has the Call-ID and the From tag
-- given, and the address, the contact and the media of the caller.
pub handle_ivr_digit_locked-joined :
    (cfg : Spec) (key : Text) (iv : IvrSession) (call_id from_tag bridge_id : Text) (s : Server)
    → iv.state ≡ IvrState.collect_user
    → ivr_authorize_and_resolve_target cfg iv.bridge_access (trim_space iv.buf)
      ≡ some (TargetKind.bridge, bridge_id)
    → HasJoined cfg key iv call_id from_tag bridge_id
        (handle_ivr_digit_locked cfg key iv (codes "#") call_id from_tag s).0
unfolding handle_ivr_digit_locked find_call put_call HasJoined
handle_ivr_digit_locked-joined cfg key iv call_id from_tag bridge_id s asked accepted =
    let known = record iv {
      buf = [];
      participant_id = trim_space iv.buf;
      preferred_region = user_region_for_participant cfg (trim_space iv.buf);
    } in
    let (u, its) =
      ivr_call-IsCallOf cfg iv known call_id from_tag bridge_id accepted refl refl refl refl in
    (
      ivr_call cfg known call_id from_tag bridge_id,
      u,
      its,
      rw (asked, accepted)
          (rw lookup-insert (rw text_eq_refl (rw lookup-insert (rw text_eq_refl refl)))),
      rw (asked, accepted) (rw lookup-delete (rw text_eq_refl refl)),
    )
