-- ===== src/Tests/Users.antt =====
-- Requests under /v1/users on a configuration with three users.
use sipbridge.Api.Users.Handlers.{
  shifted, delete_user, handle_user_delete, handle_users, reset_user_pin, new_pin,
}
use sipbridge.Api.Users.Invariant.{Sane, users_of}
use sipbridge.Api.Users.Rejected.{Doubled, handle_user_delete-refused}
use sipbridge.Api.Users.Requests.{handle_users-Sane}
use sipbridge.Api.Users.Taken.{pin_of}
use sipbridge.Api.Users.Unique.{Unique}
use sipbridge.Api.Users.{UsersRoute, handle_users_v1, mask_participant_pin, user_index_by_id}
use sipbridge.Config.Manager.Loading.{Disk}
use sipbridge.Config.Manager.{Manager, config_read_only, current, validate_root}
use sipbridge.Config.{User}
use sipbridge.Prelude.{
  ℕ, zero, suc, ◌≡◌, refl, inr, true, false, none, some, List, [], ◌∷◌, arith, get_elem?, Bool,
  ◌||◌, ◌&&◌, not, sym, ap, ◌∙◌, some-injective,
}
use sipbridge.Tests.Documents.{plain_root, plain_user, toy_format, toy_format-RoundTrip}
use sipbridge.Text.{Text, codes, is_empty, text_eq, trim_space}
use sipbridge.Text.Laws.{text_eq_iff}
use mathlib.Core.Path.{subst}

abbrev pub three : List User
three =
    plain_user (codes "ann") (codes "11")
    ∷ plain_user (codes "bob") (codes "22")
    ∷ plain_user (codes "cat") []
    ∷ []

abbrev pub staff : Manager
staff = record {
  http_url = [];
  cur = some (plain_root (codes "v1") (codes "SIPBridgeConfig") three);
  last_http_hash = [];
  file = none;
  temp = none;
}

abbrev pub healthy : Disk
healthy = record {
  written = true;
  left = none;
  removes = true;
  removes_temp = true;
  renames = true;
}

abbrev pub full : Disk
full = record { written = false; left = none; removes = true; removes_temp = true; renames = true }

-- A test for unique keys.
shares : (User → Text) → Text → List User → Bool
unfolding text_eq
shares key k [] = false
shares key k (u ∷ us) = text_eq (key u) k || shares key k us

unique : (User → Text) → List User → Bool
unfolding shares
unique key [] = true
unique key (u ∷ us) = (is_empty (key u) || not (shares key (key u) us)) && unique key us

shares-true :
    (key : User → Text) (k : Text) (us : List User) (j : ℕ) (v : User)
    → get_elem? us j ≡ some v
    → key v ≡ k
    → shares key k us ≡ true
unfolding shares
shares-true key k [] j v found same = cc
shares-true key k (u ∷ us) zero v found same =
    let it : u ≡ v = some-injective u v found in
    rw ((text_eq_iff (key u) k).1 (ap key it ∙ same)) refl
shares-true key k (u ∷ us) (suc j) v found same =
    let there = shares-true key k us j v found same in ground (arith, there)

both_true : (a b : Bool) → (a && b) ≡ true → (a ≡ true) × (b ≡ true)
both_true true true h = (refl, refl)
both_true false b h = cc
both_true true false h = cc

one_blank : (a b : Bool) → (a || not b) ≡ true → b ≡ true → a ≡ true
one_blank true b h s = refl
one_blank false true h s = cc
one_blank false false h s = cc

unique-Unique : (key : User → Text) (us : List User) → unique key us ≡ true → Unique key us
unfolding unique Unique
unique-Unique key [] h i j u v hu hv ne same = cc
unique-Unique key (x ∷ us) h zero zero u v hu hv ne same = absurd (ne refl)
unique-Unique key (x ∷ us) h zero (suc j) u v hu hv ne same =
    let it : x ≡ u = some-injective x u hu in
    let test = both_true (is_empty (key x) || not (shares key (key x) us)) (unique key us) h in
    let shared = shares-true key (key x) us j v hv (sym same ∙ ap key (sym it)) in
    subst (λ (y : User). is_empty (key y) ≡ true) it
      (one_blank (is_empty (key x)) (shares key (key x) us) test.0 shared)
unique-Unique key (x ∷ us) h (suc i) zero u v hu hv ne same =
    let it : x ≡ v = some-injective x v hv in
    let test = both_true (is_empty (key x) || not (shares key (key x) us)) (unique key us) h in
    let shared = shares-true key (key x) us i u hu (same ∙ ap key (sym it)) in
    rw same (
      subst (λ (y : User). is_empty (key y) ≡ true) it
        (one_blank (is_empty (key x)) (shares key (key x) us) test.0 shared))
unique-Unique key (x ∷ us) h (suc i) (suc j) u v hu hv ne same =
    let test = both_true (is_empty (key x) || not (shares key (key x) us)) (unique key us) h in
    unique-Unique key us test.1 i j u v hu hv (λ (e : i ≡ j). ne (ap suc e)) same

three-Sane : Sane (users_of staff)
unfolding Sane current unique trim_space
three-Sane = (unique-Unique (λ u. u.id) three refl, unique-Unique pin_of three refl)

handle_users-Sane_example :
    Sane (users_of (handle_users toy_format healthy (delete_user (codes "ann")) staff).0)
unfolding handle_users toy_format validate_root
handle_users-Sane_example =
    handle_users-Sane toy_format healthy toy_format-RoundTrip (delete_user (codes "ann")) staff
      three-Sane (inr refl)

all_named : (k : ℕ) (u : User) → get_elem? (users_of staff) k ≡ some u → is_empty u.id ≡ false
unfolding current
all_named zero u h =
    let it = some-injective (plain_user (codes "ann") (codes "11")) u h in
    subst (λ (x : User). is_empty x.id ≡ false) it refl
all_named (suc zero) u h =
    let it = some-injective (plain_user (codes "bob") (codes "22")) u h in
    subst (λ (x : User). is_empty x.id ≡ false) it refl
all_named (suc (suc zero)) u h =
    let it = some-injective (plain_user (codes "cat") []) u h in
    subst (λ (x : User). is_empty x.id ≡ false) it refl
all_named (suc (suc (suc k))) u h = cc

-- A disk that is full.
handle_user_delete-refused_example :
    (users_of (handle_user_delete toy_format full (codes "ann") staff).0
      ≡ shifted 0 (users_of staff))
    × Doubled (users_of staff) (users_of (handle_user_delete toy_format full (codes "ann") staff).0)
unfolding handle_user_delete toy_format validate_root config_read_only user_index_by_id current
handle_user_delete-refused_example =
    handle_user_delete-refused toy_format full (codes "ann") staff 0 400 toy_format-RoundTrip refl
      three-Sane all_named refl (omega arith) refl

-- The live users are then bob, cat and cat.
refused_delete :
    users_of (handle_user_delete toy_format full (codes "ann") staff).0
    ≡ plain_user (codes "bob") (codes "22")
      ∷ plain_user (codes "cat") []
      ∷ plain_user (codes "cat") []
      ∷ []
unfolding handle_user_delete toy_format validate_root current
refused_delete = refl

reset_route :
    handle_users_v1 true (codes "POST") (codes "/v1/users/ann/reset-pin")
    ≡ UsersRoute.reset_pin (codes "ann")
unfolding handle_users_v1
reset_route = refl

route_refused :
    handle_users_v1 true (codes "PATCH") (codes "/v1/users/ann/") ≡ UsersRoute.method_not_allowed
unfolding handle_users_v1
route_refused = refl

masked : mask_participant_pin (codes " 12 ") ≡ 226 ∷ 128 ∷ 162 ∷ 226 ∷ 128 ∷ 162 ∷ []
unfolding mask_participant_pin
masked = refl

-- The first PIN is bob's.
reset :
    (handle_users toy_format healthy
      (reset_user_pin (codes "ann") (some (codes "22") ∷ some (codes "77") ∷ []))
      staff).1
    ≡ new_pin (codes "77")
unfolding handle_users toy_format validate_root
reset = refl
