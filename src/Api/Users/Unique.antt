-- ===== src/Api/Users/Unique.antt =====
-- Keys of users that no two of them share, and the lists that keep them so.
use mathlib.Core.Path.{subst}
use sipbridge.Prelude.{
  ℕ, zero, suc, ◌<◌, ◌≡◌, refl, sym, ap, ◌∙◌, ◌≢◌, ◌⊎◌, inl, inr, true, some, List, [], ◌∷◌, ◌++◌,
  arith, get_elem?, set, length,
}
use sipbridge.Api.Users.Handlers.{without}
use sipbridge.Config.{User}
use sipbridge.Text.{Text, is_empty}

module _ (key : User → Text) where
  -- Users at two places have different keys, unless the key is blank.
  unfoldable pub Unique : List User → Type 0
  Unique us =
      (i j : ℕ) (u v : User)
      → get_elem? us i ≡ some u
      → get_elem? us j ≡ some v
      → i ≢ j
      → key u ≡ key v
      → is_empty (key u) ≡ true

  -- No user outside the place `idx` has the key of `u`.
  unfoldable pub Free : List User → ℕ → User → Type 0
  Free us idx u =
      (j : ℕ) (v : User)
      → get_elem? us j ≡ some v
      → j ≢ idx
      → key v ≡ key u
      → is_empty (key u) ≡ true

  get_elem?-set :
      (us : List User) (idx : ℕ) (old u a : User) (i : ℕ)
      → get_elem? us idx ≡ some old
      → get_elem? (set us idx u) i ≡ some a
      → ((i ≡ idx) × (u ≡ a)) ⊎ ((i ≢ idx) × (get_elem? us i ≡ some a))
  get_elem?-set [] idx old u a i there h = cc
  get_elem?-set (x ∷ us) zero old u a zero there h = inl (refl, cc)
  get_elem?-set (x ∷ us) zero old u a (suc i) there h = inr (λ e. omega (arith, e), h)
  get_elem?-set (x ∷ us) (suc idx) old u a zero there h = inr (λ e. omega (arith, e), h)
  get_elem?-set (x ∷ us) (suc idx) old u a (suc i) there h =
      elim (get_elem?-set us idx old u a i there h) [
        | inl (e, same) ↦ inl (ap suc e, same)
        | inr (ne, found) ↦ inr (λ (e : suc i ≡ suc idx). ne (omega (arith, e)), found)
      ]

  pub set-Unique :
      (us : List User) (idx : ℕ) (old u : User)
      → Unique us
      → get_elem? us idx ≡ some old
      → Free us idx u
      → Unique (set us idx u)
  unfolding Unique Free
  set-Unique us idx old u unique there free i j a b ha hb ne same =
      elim (get_elem?-set us idx old u a i there ha) [
        | inr (ni, ga) ↦ elim (get_elem?-set us idx old u b j there hb) [
          | inr (nj, gb) ↦ unique i j a b ga gb ne same
          | inl (ej, ub) ↦ rw same (
              subst (λ (x : User). is_empty (key x) ≡ true) ub
                (free i a ga ni (same ∙ ap key (sym ub))))
        ]
        | inl (ei, ua) ↦ elim (get_elem?-set us idx old u b j there hb) [
          | inr (nj, gb) ↦
              subst (λ (x : User). is_empty (key x) ≡ true) ua
                (free j b gb nj (sym same ∙ ap key (sym ua)))
          | inl (ej, ub) ↦ absurd (ne (ei ∙ sym ej))
        ]
      ]

  pub same_key-Free :
      (us : List User) (idx : ℕ) (old u : User)
      → Unique us
      → get_elem? us idx ≡ some old
      → key u ≡ key old
      → Free us idx u
  unfolding Unique Free
  same_key-Free us idx old u unique there kept j v hv ne same =
      rw kept (unique idx j old v there hv (λ e. ne (sym e)) (sym (same ∙ kept)))

  get_elem?-append :
      (us : List User) (u v : User) (j : ℕ)
      → get_elem? (us ++ u ∷ []) j ≡ some v
      → ((get_elem? us j ≡ some v) × (j < length us)) ⊎ ((j ≡ length us) × (u ≡ v))
  get_elem?-append [] u v zero h = inr (refl, cc)
  get_elem?-append [] u v (suc j) h = cc
  get_elem?-append (x ∷ us) u v zero h = inl (h, omega arith)
  get_elem?-append (x ∷ us) u v (suc j) h = elim (get_elem?-append us u v j h) [
    | inl (there, small) ↦ inl (there, omega (arith, small))
    | inr (e, same) ↦ inr (ap suc e, same)
  ]

  pub append-Unique :
      (us : List User) (u : User) → Unique us → Free us (length us) u → Unique (us ++ u ∷ [])
  unfolding Unique Free
  append-Unique us u unique free i j a b ha hb ne same = elim (get_elem?-append us u a i ha) [
    | inl (ga, si) ↦ elim (get_elem?-append us u b j hb) [
      | inl (gb, sj) ↦ unique i j a b ga gb ne same
      | inr (ej, ub) ↦
          let small : i ≢ length us = λ (e : i ≡ length us). omega (arith, si, e) in
          rw same (
            subst (λ (x : User). is_empty (key x) ≡ true) ub
              (free i a ga small (same ∙ ap key (sym ub))))
    ]
    | inr (ei, ua) ↦ elim (get_elem?-append us u b j hb) [
      | inl (gb, sj) ↦
          let small : j ≢ length us = λ (e : j ≡ length us). omega (arith, sj, e) in
          subst (λ (x : User). is_empty (key x) ≡ true) ua
            (free j b gb small (sym same ∙ ap key (sym ua)))
      | inr (ej, ub) ↦ absurd (ne (ei ∙ sym ej))
    ]
  ]

  skip : ℕ → ℕ → ℕ
  skip zero j = suc j
  skip (suc i) zero = zero
  skip (suc i) (suc j) = suc (skip i j)

  skip_ne : (i j k : ℕ) → j ≢ k → skip i j ≢ skip i k
  unfolding skip
  skip_ne zero j k ne e = ne (omega (arith, e))
  skip_ne (suc i) zero zero ne e = ne refl
  skip_ne (suc i) zero (suc k) ne e = omega (arith, e)
  skip_ne (suc i) (suc j) zero ne e = omega (arith, e)
  skip_ne (suc i) (suc j) (suc k) ne e =
      skip_ne i j k (λ (h : j ≡ k). ne (ap suc h)) (omega (arith, e))

  get_elem?-without :
      (i : ℕ) (us : List User) (j : ℕ) → get_elem? (without i us) j ≡ get_elem? us (skip i j)
  unfolding skip
  get_elem?-without zero [] j = refl
  get_elem?-without zero (x ∷ us) j = refl
  get_elem?-without (suc i) [] j = refl
  get_elem?-without (suc i) (x ∷ us) zero = refl
  get_elem?-without (suc i) (x ∷ us) (suc j) = get_elem?-without i us j

  pub without-Unique : (i : ℕ) (us : List User) → Unique us → Unique (without i us)
  unfolding Unique
  without-Unique i us unique j k u v hu hv ne same =
      unique (skip i j) (skip i k) u v (sym (get_elem?-without i us j) ∙ hu)
        (sym (get_elem?-without i us k) ∙ hv) (skip_ne i j k ne) same
