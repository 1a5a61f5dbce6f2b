-- ===== src/Api/Users/Rejected.antt =====
-- What a delete that is refused leaves behind (internal/api/users.go, `handleUserDelete`).
use mathlib.Core.Option
use mathlib.Core.Path.{subst}
use sipbridge.Prelude.{
  ℕ, zero, suc, ◌<◌, ◌≡◌, refl, sym, ap, ◌∙◌, ◌≢◌, inl, inr, false, none, some, List, [], ◌∷◌, ◌++◌,
  arith, get_elem?, length, Bool-cases, Option-cases, some-injective, ◌==◌, ==_iff,
}
use sipbridge.Api.Users.Handlers.{
  Response, delete_at, done, handle_user_delete, last_of, shifted, status, with_user, with_users,
  without, write_live,
}
use sipbridge.Api.Users.Invariant.{
  RoundTrip, Sane, Saved, Unsaved, save-cases, users_of, users_of-same,
}
use sipbridge.Api.Users.Unique.{Unique}
use sipbridge.Api.Users.{user_index_by_id}
use sipbridge.Config.Manager.Loading.{Disk}
use sipbridge.Config.Manager.{Formats, Manager, config_read_only, current}
use sipbridge.Config.{User}
use sipbridge.Text.{Text, is_empty, text_eq}

-- One user at two places of a list, and in another list.
Twice : List User → List User → Type 0
Twice us others =
    (a : ℕ) × (b : ℕ) × (k : ℕ) × (v : User) × (a ≢ b)
    × (get_elem? us a ≡ some v)
    × (get_elem? us b ≡ some v)
    × (get_elem? others k ≡ some v)

last_of-Twice : (u : User) (us : List User) → Twice (u ∷ us ++ last_of (u ∷ us)) (u ∷ us)
unfolding Twice
last_of-Twice u [] = (0, 1, 0, u, (λ e. omega (arith, e)), refl, refl, refl)
last_of-Twice u (v ∷ us) =
    let (a, b, k, w, ne, ha, hb, hk) = last_of-Twice v us in
    (suc a, suc b, suc k, w, (λ e. ne (omega (arith, e))), ha, hb, hk)

none_below : (i : ℕ) → ¬ (i < 0)
none_below i h = omega (arith, h)

shifted-Twice : (i : ℕ) (us : List User) → suc i < length us → Twice (shifted i us) us
unfolding Twice
shifted-Twice i [] h = absurd (none_below (suc i) h)
shifted-Twice i (x ∷ []) h = absurd (none_below i (omega (arith, h)))
shifted-Twice zero (x ∷ y ∷ us) h =
    let (a, b, k, w, ne, ha, hb, hk) = last_of-Twice y us in (a, b, suc k, w, ne, ha, hb, hk)
shifted-Twice (suc i) (x ∷ y ∷ us) h =
    let (a, b, k, w, ne, ha, hb, hk) = shifted-Twice i (y ∷ us) (omega (arith, h)) in
    (suc a, suc b, suc k, w, (λ e. ne (omega (arith, e))), ha, hb, hk)

user_index_by_id-there :
    (us : List User) (id : Text) (idx : ℕ)
    → user_index_by_id us id ≡ some idx
    → (u : User) × (get_elem? us idx ≡ some u)
unfolding user_index_by_id
user_index_by_id-there [] id idx h = cc
user_index_by_id-there (u ∷ us) id idx h = elim (Bool-cases (text_eq u.id id)) [
  | inl e ↦
      let it : some 0 ≡ some idx = rw e at h in
      (u, subst (λ (k : ℕ). get_elem? (u ∷ us) k ≡ some u) (some-injective 0 idx it) refl)
  | inr e ↦
      let next : Option.map suc (user_index_by_id us id) ≡ some idx = rw e at h in
      elim (Option-cases (user_index_by_id us id)) [
        | inl out ↦ let bad : none ≡ some idx = rw out at next in cc
        | inr (k, found) ↦
            let it : some (suc k) ≡ some idx = rw found at next in
            let there = user_index_by_id-there us id k found in
            (
              there.0,
              subst (λ (n : ℕ). get_elem? (u ∷ us) n ≡ some there.0) (some-injective (suc k) idx it)
                  there.1,
            )
      ]
]

shifted_nil : (idx : ℕ) → [] ≡ shifted idx []
shifted_nil zero = refl
shifted_nil (suc idx) = refl

users_of-shifted :
    (m : Manager) (idx : ℕ) → users_of (write_live (shifted idx) m) ≡ shifted idx (users_of m)
unfolding write_live current
users_of-shifted m idx = elim (Option-cases m.cur) [
  | inl e ↦ rw e (shifted_nil idx)
  | inr (r, e) ↦ rw e refl
]

-- The live users after a delete that is answered by an error.
refused :
    (f : Formats) (d : Disk) (id : Text) (m : Manager) (idx code : ℕ)
    → RoundTrip f
    → config_read_only m ≡ false
    → user_index_by_id (users_of m) id ≡ some idx
    → (handle_user_delete f d id m).1 ≡ status code
    → users_of (handle_user_delete f d id m).0 ≡ shifted idx (users_of m)
unfolding handle_user_delete with_user delete_at Saved Unsaved
refused f d id m idx code trip writable found bad =
    let there = user_index_by_id-there (users_of m) id idx found in
    let it : handle_user_delete f d id m ≡ delete_at f d m idx there.0 =
      rw (writable, found, there.1) refl in
    elim (save-cases f d done (with_users (without idx) (current m)) (write_live (shifted idx) m)
      trip) [
        | inl h ↦
            let no = ap (λ (r : Manager × Response). r.1) it ∙ h.0 in let clash = sym bad ∙ no in cc
        | inr h ↦
            ap (λ (r : Manager × Response). users_of r.0) it
            ∙ (users_of-same (delete_at f d m idx there.0).0 (write_live (shifted idx) m) h.1
                ∙ users_of-shifted m idx)
      ]

-- The user with the id of `v` is at the place `k` alone.
unfoldable pub OnlyAt : List User → ℕ → User → Type 0
OnlyAt us k v =
    (get_elem? us k ≡ some v) × ((j : ℕ) (w : User) → get_elem? us j ≡ some w → w.id ≡ v.id → j ≡ k)

-- One user of `old`, who is there once, is at two places of `us`, and the ids of `us` are not
-- unique.
unfoldable pub Doubled : List User → List User → Type 0
Doubled old us =
    (a : ℕ) × (b : ℕ) × (k : ℕ) × (v : User) × OnlyAt old k v
    × (a ≢ b)
    × (get_elem? us a ≡ some v)
    × (get_elem? us b ≡ some v)
    × ¬ Unique (λ (u : User). u.id) us

unique-OnlyAt :
    (us : List User) (k : ℕ) (v : User)
    → Sane us
    → is_empty v.id ≡ false
    → get_elem? us k ≡ some v
    → OnlyAt us k v
unfolding Sane Unique OnlyAt
unique-OnlyAt us k v sane filled there = (
  there,
  λ (j : ℕ) (w : User) (here : get_elem? us j ≡ some w) (same : w.id ≡ v.id).
      elim (Bool-cases (j == k)) [
        | inl e ↦ (==_iff j k).0 e
        | inr e ↦
            let blank =
              sane.0 j k w v here there
                (λ (q : j ≡ k). let one = (==_iff j k).1 q in let clash = sym one ∙ e in cc) same in
            let clash = sym (ap is_empty same ∙ filled) ∙ blank in cc
      ],
)

-- When what is marshalled is read back as it was, the configuration is not read-only, no two users
-- share an id or a PIN and every user has an id, and the user to delete is there and not the last:
-- if the delete is answered by an error, then the live users are those before it, moved up over the
-- deleted one with the last kept at its place; and a user who was there once is there twice, so the
-- ids are no longer unique.
pub handle_user_delete-refused :
    (f : Formats) (d : Disk) (id : Text) (m : Manager) (idx code : ℕ)
    → RoundTrip f
    → config_read_only m ≡ false
    → Sane (users_of m)
    → ((k : ℕ) (u : User) → get_elem? (users_of m) k ≡ some u → is_empty u.id ≡ false)
    → user_index_by_id (users_of m) id ≡ some idx
    → suc idx < length (users_of m)
    → (handle_user_delete f d id m).1 ≡ status code
    → (users_of (handle_user_delete f d id m).0 ≡ shifted idx (users_of m))
      × Doubled (users_of m) (users_of (handle_user_delete f d id m).0)
unfolding Doubled Unique Twice
handle_user_delete-refused f d id m idx code trip writable sane filled found before bad =
    let live = refused f d id m idx code trip writable found bad in
    let (a, b, k, v, ne, ha, hb, hk) = shifted-Twice idx (users_of m) before in
    (
      live,
      (
        a,
        b,
        k,
        v,
        unique-OnlyAt (users_of m) k v sane (filled k v hk) hk,
        ne,
        rw live ha,
        rw live hb,
        λ unique.
            let blank = unique a b v v (rw live ha) (rw live hb) ne refl in
            let clash = sym blank ∙ filled k v hk in cc,
      ),
    )
