-- ===== src/Tests/Documents.antt =====
-- A document format for the runs: configurations that hold nothing but users with an id and a PIN.
use sipbridge.Api.Users.Invariant.{RoundTrip}
use sipbridge.Config.Manager.{Formats, RootConfig, empty_spec}
use sipbridge.Config.{User}
use sipbridge.Prelude.{
  ℕ, zero, suc, ◌≡◌, refl, ap, Bool, true, false, Option, none, some, List, [], ◌∷◌, ◌++◌, drop,
  length, take, some-injective, Option-cases, inl, inr,
}
use sipbridge.Text.{Text}
use mathlib.Core.Option
use mathlib.Core.Path.{subst}

module _ {A : Type 0} {B : Type 0} where
  unfoldable pub only_nil : List A → Option B → Option B
  only_nil [] o = o
  only_nil (x ∷ xs) o = none

  only_nil-some :
      (xs : List A) (o : Option B) (b : B) → only_nil xs o ≡ some b → (xs ≡ []) × (o ≡ some b)
  unfolding only_nil
  only_nil-some [] o b h = (refl, h)
  only_nil-some (x ∷ xs) o b h = cc

  unfoldable pub only_none : Option A → Option B → Option B
  only_none none o = o
  only_none (some x) o = none

  only_none-some :
      (x : Option A) (o : Option B) (b : B) → only_none x o ≡ some b → (x ≡ none) × (o ≡ some b)
  unfolding only_none
  only_none-some none o b h = (refl, h)
  only_none-some (some x) o b h = cc

take-length : (a b : Text) → take (length a) (a ++ b) ≡ a
take-length [] b = refl
take-length (x ∷ a) b = ap (λ (s : Text). x ∷ s) (take-length a b)

drop-length : (a b : Text) → drop (length a) (a ++ b) ≡ b
drop-length [] b = refl
drop-length (x ∷ a) b = drop-length a b

abbrev pair_text : Text → Text → Text → Text
pair_text a b rest = length a ∷ length b ∷ a ++ (b ++ rest)

abbrev pub plain_user : Text → Text → User
plain_user id pin = record {
  id = id;
  display_name = [];
  participant_id = pin;
  region = [];
  allowed_bridge_ids = [];
  allowed_conference_group_ids = [];
  recording_opt_in = false;
  devices = [];
}

unfoldable pub only_false : Bool → Option Text → Option Text
only_false false o = o
only_false true o = none

only_false-some :
    (x : Bool) (o : Option Text) (b : Text) → only_false x o ≡ some b → (x ≡ false) × (o ≡ some b)
unfolding only_false
only_false-some false o b h = (refl, h)
only_false-some true o b h = cc

unfoldable pub users_text : List User → Option Text
unfolding only_nil only_false
users_text [] = some []
users_text (u ∷ us) = only_nil u.display_name (
    only_nil u.region (
      only_nil u.allowed_bridge_ids (
        only_nil u.allowed_conference_group_ids (
          only_false u.recording_opt_in
            (only_nil u.devices (Option.map (pair_text u.id u.participant_id) (users_text us)))))))

unfoldable pub text_users : ℕ → Text → List User
text_users zero s = []
text_users (suc n) [] = []
text_users (suc n) (a ∷ []) = []
text_users (suc n) (a ∷ b ∷ s) =
    plain_user (take a s) (take b (drop a s)) ∷ text_users n (drop b (drop a s))

ap2_cons : {u v : User} {us vs : List User} → u ≡ v → us ≡ vs → u ∷ us ≡ v ∷ vs
ap2_cons h hs = cc

-- The first pair of an encoding, and what follows it.
pair_first : (a b rest : Text) → take (length a) (a ++ (b ++ rest)) ≡ a
pair_first a b rest = take-length a (b ++ rest)

pair_second : (a b rest : Text) → take (length b) (drop (length a) (a ++ (b ++ rest))) ≡ b
pair_second a b rest = rw (drop-length a (b ++ rest)) (take-length b rest)

pair_rest : (a b rest : Text) → drop (length b) (drop (length a) (a ++ (b ++ rest))) ≡ rest
pair_rest a b rest = rw (drop-length a (b ++ rest)) (drop-length b rest)

first :
    (u : User) (t : Text)
    → u.display_name ≡ []
    → u.region ≡ []
    → u.allowed_bridge_ids ≡ []
    → u.allowed_conference_group_ids ≡ []
    → u.recording_opt_in ≡ false
    → u.devices ≡ []
    → plain_user
        (take (length u.id) (u.id ++ (u.participant_id ++ t)))
        (take (length u.participant_id) (drop (length u.id) (u.id ++ (u.participant_id ++ t))))
      ≡ u
first u t e1 e2 e3 e4 e5 e6 =
    rw
      (
        pair_first u.id u.participant_id t,
        pair_second u.id u.participant_id t,
        e1,
        e2,
        e3,
        e4,
        e5,
        e6,
      )
      refl

rest :
    (u : User) (t : Text) (n : ℕ) (us : List User)
    → text_users n t ≡ us
    → text_users n
        (drop (length u.participant_id) (drop (length u.id) (u.id ++ (u.participant_id ++ t))))
      ≡ us
rest u t n us h = rw (pair_rest u.id u.participant_id t) h

text_users-users_text :
    (us : List User) (s : Text) → users_text us ≡ some s → text_users (length us) s ≡ us
unfolding users_text text_users
text_users-users_text [] s h = refl
text_users-users_text (u ∷ us) s h =
    let c1 = only_nil-some u.display_name _ s h in
    let c2 = only_nil-some u.region _ s c1.1 in
    let c3 = only_nil-some u.allowed_bridge_ids _ s c2.1 in
    let c4 = only_nil-some u.allowed_conference_group_ids _ s c3.1 in
    let c5 = only_false-some u.recording_opt_in _ s c4.1 in
    let c6 = only_nil-some u.devices _ s c5.1 in
    elim (Option-cases (users_text us)) [
      | inl e ↦ let bad : none ≡ some s = rw e at c6.1 in cc
      | inr (t, e) ↦
          let it : some (pair_text u.id u.participant_id t) ≡ some s = rw e at c6.1 in
          let known = some-injective (pair_text u.id u.participant_id t) s it in
          subst (λ (x : Text). text_users (suc (length us)) x ≡ u ∷ us) known
            (ap2_cons (first u t c1.0 c2.0 c3.0 c4.0 c5.0 c6.0)
              (rest u t (length us) us (text_users-users_text us t e)))
    ]

unfoldable pub root_text : RootConfig → Option Text
unfolding only_nil only_none users_text
root_text r = only_nil r.name (
    only_nil r.spec.routes (
      only_nil r.spec.bridges (
        only_nil r.spec.conference_groups (
          only_nil r.spec.hoot_groups (
            only_nil r.spec.entry_user (
              only_nil r.servers (
                only_none r.cluster (
                  only_none r.database (
                    only_none r.recording (
                      Option.map (λ s. length r.spec.users ∷ pair_text r.api_version r.kind s)
                        (users_text r.spec.users)))))))))))

abbrev pub plain_root : Text → Text → List User → RootConfig
plain_root version kind us = record {
  api_version = version;
  kind = kind;
  name = [];
  spec = record empty_spec { users = us };
  servers = [];
  cluster = none;
  database = none;
  recording = none;
}

unfoldable pub text_root : Text → Option RootConfig
unfolding text_users
text_root (n ∷ a ∷ b ∷ s) =
    some (plain_root (take a s) (take b (drop a s)) (text_users n (drop b (drop a s))))
text_root _ = none

whole :
    (r : RootConfig)
    → r.name ≡ []
    → r.spec.routes ≡ []
    → r.spec.bridges ≡ []
    → r.spec.conference_groups ≡ []
    → r.spec.hoot_groups ≡ []
    → r.spec.entry_user ≡ []
    → r.servers ≡ []
    → r.cluster ≡ none
    → r.database ≡ none
    → r.recording ≡ none
    → some (plain_root r.api_version r.kind r.spec.users) ≡ some r
whole r e1 e2 e3 e4 e5 e6 e7 e8 e9 e10 = rw (e1, e2, e3, e4, e5, e6, e7, e8, e9, e10) refl

text_root-root_text : (r : RootConfig) (s : Text) → root_text r ≡ some s → text_root s ≡ some r
unfolding root_text text_root
text_root-root_text r s h =
    let c1 = only_nil-some r.name _ s h in
    let c2 = only_nil-some r.spec.routes _ s c1.1 in
    let c3 = only_nil-some r.spec.bridges _ s c2.1 in
    let c4 = only_nil-some r.spec.conference_groups _ s c3.1 in
    let c5 = only_nil-some r.spec.hoot_groups _ s c4.1 in
    let c6 = only_nil-some r.spec.entry_user _ s c5.1 in
    let c7 = only_nil-some r.servers _ s c6.1 in
    let c8 = only_none-some r.cluster _ s c7.1 in
    let c9 = only_none-some r.database _ s c8.1 in
    let c10 = only_none-some r.recording _ s c9.1 in
    elim (Option-cases (users_text r.spec.users)) [
      | inl e ↦ let bad : none ≡ some s = rw e at c10.1 in cc
      | inr (t, e) ↦
          let it : some (length r.spec.users ∷ pair_text r.api_version r.kind t) ≡ some s =
            rw e at c10.1 in
          let known =
            some-injective (length r.spec.users ∷ pair_text r.api_version r.kind t) s it in
          subst (λ (x : Text). text_root x ≡ some r) known
            (rw
              (
                pair_first r.api_version r.kind t,
                pair_second r.api_version r.kind t,
                pair_rest r.api_version r.kind t,
                text_users-users_text r.spec.users t e,
              )
              (whole r c1.0 c2.0 c3.0 c4.0 c5.0 c6.0 c7.0 c8.0 c9.0 c10.0))
    ]

unfoldable pub toy_format : Formats
unfolding text_root root_text
toy_format = record {
  unmarshal = text_root;
  unmarshal_legacy = λ s. none;
  marshal = root_text;
  schema_valid = λ r. true;
  parse_url = λ s. none;
  sha256 = λ s. s;
}

pub toy_format-RoundTrip : RoundTrip toy_format
unfolding RoundTrip toy_format
toy_format-RoundTrip r s h = text_root-root_text r s h
