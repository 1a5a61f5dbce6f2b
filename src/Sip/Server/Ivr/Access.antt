-- ===== src/Sip/Server/Ivr/Access.antt =====
-- Who gets in: what `ivrAuthorizeAndResolveTarget` grants.
use mathlib.Core.Path.{subst}
use sipbridge.Config.{Spec, User}
use sipbridge.Prelude.{
  Bool, true, false, ◌&&◌, ◌||◌, ◌≡◌, refl, Option, none, some, List, [], ◌∷◌, any, find?, arith,
  Bool-cases, Option-cases, inl, inr, if◌then◌else◌,
}
use sipbridge.Sip.Server.Ivr.{
  access_bridge, access_group, authorize_user, has_pin, ivr_authorize_and_resolve_target,
}
use sipbridge.Sip.Server.{TargetKind}
use sipbridge.Text.{Text, is_empty, text_eq, trim_space}

-- The user's allow-list for the kind of target has the id.
abbrev pub allows : TargetKind → Text → User → Bool
allows TargetKind.bridge id u = any (λ a. text_eq a id) u.allowed_bridge_ids
allows TargetKind.conference_group id u = any (λ a. text_eq a id) u.allowed_conference_group_ids
allows TargetKind.hoot_group id u = false

-- A user of the PIN may use the target.
abbrev pub permits : TargetKind → Text → Text → User → Bool
permits kind id pin u = has_pin pin u && allows kind id u

granted :
    (u : User) (kind k : TargetKind) (id i : Text)
    → allows k i u ≡ true
    → ◌≡◌ {A = Option (TargetKind × Text)} (some (k, i)) (some (kind, id))
    → allows kind id u ≡ true
granted u kind k id i holds h =
    let ek : k ≡ kind = cc in
    let ei : i ≡ id = cc in
    subst (λ (x : TargetKind). allows x id u ≡ true) ek
      (subst (λ (x : Text). allows k x u ≡ true) ei holds)

pub authorize_user-allows :
    (bridge_id group_id : Text) (u : User) (kind : TargetKind) (id : Text)
    → authorize_user bridge_id group_id (some u) ≡ some (kind, id)
    → allows kind id u ≡ true
unfolding authorize_user
authorize_user-allows bridge_id group_id u kind id h = elim (Bool-cases (is_empty bridge_id)) [
  | inr named ↦ elim (Bool-cases (any (λ a. text_eq a bridge_id) u.allowed_bridge_ids)) [
    | inl listed ↦ granted u kind TargetKind.bridge id bridge_id listed (rw (named, listed) at h)
    | inr unlisted ↦
        let bad : (◌≡◌ {A = Option (TargetKind × Text)} none (some (kind, id))) =
          rw (named, unlisted) at h in
        cc
  ]
  | inl blank ↦ elim (Bool-cases (any (λ a. text_eq a group_id) u.allowed_conference_group_ids)) [
    | inl listed ↦
        granted u kind TargetKind.conference_group id group_id listed (rw (blank, listed) at h)
    | inr unlisted ↦
        let bad : (◌≡◌ {A = Option (TargetKind × Text)} none (some (kind, id))) =
          rw (blank, unlisted) at h in
        cc
  ]
]

any_of_find :
    (p q : User → Bool) (us : List User) (u : User)
    → find? p us ≡ some u
    → q u ≡ true
    → any (λ v. p v && q v) us ≡ true
any_of_find p q [] u h holds = cc
any_of_find p q (v ∷ us) u h holds = elim (Bool-cases (p v)) [
  | inl hit ↦
      let same : some v ≡ some u = rw hit at h in
      let is : u ≡ v = cc in
      let holds_v : q v ≡ true = subst (λ (x : User). q x ≡ true) is holds in rw (hit, holds_v) refl
  | inr miss ↦
      let later : find? p us ≡ some u = rw miss at h in rw miss (any_of_find p q us u later holds)
]

found_user :
    (pin bridge_id group_id : Text) (us : List User) (kind : TargetKind) (id : Text)
    → authorize_user bridge_id group_id (find? (has_pin pin) us) ≡ some (kind, id)
    → any (permits kind id pin) us ≡ true
found_user pin bridge_id group_id us kind id h = elim (Option-cases (find? (has_pin pin) us)) [
  | inl nobody ↦
      let never : authorize_user bridge_id group_id none ≡ some (kind, id) = rw nobody at h in
      unfold authorize_user in cc
  | inr (u, found) ↦
      let granted_to : authorize_user bridge_id group_id (some u) ≡ some (kind, id) =
        rw found at h in
      any_of_find (has_pin pin) (allows kind id) us u found
        (authorize_user-allows bridge_id group_id u kind id granted_to)
]

-- Whoever is let in typed a PIN that is not blank, and a configured user with that PIN has the
-- target in the allow-list for its kind.
pub ivr_authorize_and_resolve_target-permits :
    (cfg : Spec) (access_code participant_id : Text) (kind : TargetKind) (id : Text)
    → ivr_authorize_and_resolve_target cfg access_code participant_id ≡ some (kind, id)
    → (is_empty (trim_space participant_id) ≡ false)
      × (any (permits kind id (trim_space participant_id)) cfg.users ≡ true)
unfolding ivr_authorize_and_resolve_target
ivr_authorize_and_resolve_target-permits cfg access_code participant_id kind id h =
    let code = trim_space access_code in
    let pin = trim_space participant_id in
    let bridge_id = access_bridge cfg code in
    let group_id = if is_empty bridge_id then access_group cfg code else [] in
    elim (Bool-cases (is_empty code || is_empty pin || (is_empty bridge_id && is_empty group_id))) [
      | inl bad ↦
          let never : (◌≡◌ {A = Option (TargetKind × Text)} none (some (kind, id))) = rw bad at h in
          cc
      | inr fits ↦
          let granted_by : authorize_user bridge_id group_id (find? (has_pin pin) cfg.users)
              ≡ some (kind, id) =
            rw fits at h in
          (ground (arith, fits), found_user pin bridge_id group_id cfg.users kind id granted_by)
    ]
