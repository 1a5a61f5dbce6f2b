-- ===== src/Api/Auth/Roles.antt =====
-- The role that the groups of a directory user give: the highest of those mapped, whatever the
-- order
-- in which the map is gone through.
use mathlib.Core.Path.{subst}
use sipbridge.Api.Auth.{
  Role, choose_higher_role, rank, role_admin, role_of_group, role_of_groups, role_operator,
  role_readonly,
}
use sipbridge.Maps.{Map}
use sipbridge.Prelude.{
  ℕ, ◌≤◌, ◌<◌, ◌≡◌, refl, sym, ◌∙◌, ◌⊎◌, ◌↔◌, ◌≢◌, inl, inr, Bool, true, false, List, [], ◌∷◌,
  arith, ltb, if◌then◌else◌, Bool-cases, ltb→lt,
}
use sipbridge.Text.Laws.{text_eq_iff}
use sipbridge.Text.{Text, equal_fold, text_eq, trim_space}

-- The group is mapped to the role.
pub Mapped : Map Role → Text → Role → Type 0
Mapped [] g r = ⊥
Mapped ((dn, m) ∷ rest) g r =
    ((equal_fold (trim_space dn) (trim_space g) ≡ true) × (m ≡ r)) ⊎ Mapped rest g r

-- One of the groups is.
unfoldable pub Given : Map Role → List Text → Role → Type 0
Given mapping [] r = ⊥
Given mapping (g ∷ gs) r = Mapped mapping g r ⊎ Given mapping gs r

-- Nothing lower than `before`, and if another role, then a higher one that is given.
Raised : (Role → Type 0) → Role → Role → Type 0
Raised P before after =
    (rank before ≤ rank after)
    × ((after ≡ before) ⊎ (P after × (rank before < rank after)))
    × ((r : Role) → P r → rank r ≤ rank after)

not_less : (a b : ℕ) → ltb a b ≡ false → b ≤ a
not_less a b h = ground arith

nothing-Raised : (role : Role) → Raised (λ r. ⊥) role role
unfolding Raised
nothing-Raised role = (omega arith, inl refl, λ r bad. absurd bad)

equal_rank : (m r : Role) → m ≡ r → rank r ≤ rank m
equal_rank m r e = subst (λ (x : Role). rank x ≤ rank m) e (omega arith)

compose-Raised :
    (P Q : Role → Type 0) (a b c : Role) → Raised P a b → Raised Q b c → Raised (λ r. P r ⊎ Q r) a c
unfolding Raised
compose-Raised P Q a b c ab bc = (
  omega (arith, ab.0, bc.0),
  elim bc.1 [
    | inr (q, more) ↦ inr (inr q, omega (arith, ab.0, more))
    | inl same ↦ elim ab.1 [
      | inl before ↦ inl (same ∙ before)
      | inr (given, more) ↦
          inr
            (inl (subst P (sym same) given), subst (λ (x : Role). rank a < rank x) (sym same) more)
    ]
  ],
  λ r h. elim h [
    | inl pr ↦ let below = ab.2 r pr in omega (arith, below, bc.0)
    | inr qr ↦ bc.2 r qr
  ],
)

-- One entry of the mapping.
one-Raised :
    (matches : Bool) (role m : Role)
    → Raised
        (λ r. (matches ≡ true) × (m ≡ r))
        role
        (if matches then choose_higher_role role m else role)
unfolding Raised choose_higher_role
one-Raised false role m = (omega arith, inl refl, λ r h. let bad = h.0 in cc)
one-Raised true role m = elim (Bool-cases (ltb (rank role) (rank m))) [
  | inl e ↦
      let more = ltb→lt (rank role) (rank m) e in
      rw e (omega (arith, more), inr ((refl, refl), more), λ r h. equal_rank m r h.1)
  | inr e ↦
      let less = not_less (rank role) (rank m) e in
      rw e (omega arith, inl refl, λ r h. subst (λ (x : Role). rank x ≤ rank role) h.1 less)
]

role_of_group-Raised :
    (mapping : Map Role) (g : Text) (role : Role)
    → Raised (Mapped mapping g) role (role_of_group mapping g role)
unfolding Mapped role_of_group
role_of_group-Raised [] g role = nothing-Raised role
role_of_group-Raised ((dn, m) ∷ rest) g role =
    let matches = equal_fold (trim_space dn) (trim_space g) in
    let next = if matches then choose_higher_role role m else role in
    compose-Raised (λ r. (matches ≡ true) × (m ≡ r)) (Mapped rest g) role next
      (role_of_group rest g next) (one-Raised matches role m) (role_of_group-Raised rest g next)

role_of_groups-Raised :
    (mapping : Map Role) (gs : List Text) (role : Role)
    → Raised (Given mapping gs) role (role_of_groups mapping gs role)
unfolding Given role_of_groups
role_of_groups-Raised mapping [] role = nothing-Raised role
role_of_groups-Raised mapping (g ∷ gs) role =
    let next = role_of_group mapping g role in
    compose-Raised (Mapped mapping g) (Given mapping gs) role next (role_of_groups mapping gs next)
      (role_of_group-Raised mapping g role) (role_of_groups-Raised mapping gs next)

-- The role that the groups give is either the reader's or a given one, and no given role is higher.
pub role_of_groups-highest :
    (mapping : Map Role) (gs : List Text)
    → ((role_of_groups mapping gs role_readonly ≡ role_readonly)
        ⊎ Given mapping gs (role_of_groups mapping gs role_readonly))
      × ((r : Role) → Given mapping gs r → rank r ≤ rank (role_of_groups mapping gs role_readonly))
unfolding Raised
role_of_groups-highest mapping gs =
    let raised = role_of_groups-Raised mapping gs role_readonly in
    (elim raised.1 [ inl e ↦ inl e | inr (given, more) ↦ inr given ], raised.2)

rank-cases :
    (r : Role)
    → ((r ≡ role_admin) × (rank r ≡ 3)) ⊎ ((r ≡ role_operator) × (rank r ≡ 2)) ⊎ (rank r ≡ 1)
unfolding rank
rank-cases r = elim (Bool-cases (text_eq r role_admin)) [
  | inl e ↦ inl ((text_eq_iff r role_admin).0 e, rw e refl)
  | inr ne ↦ elim (Bool-cases (text_eq r role_operator)) [
    | inl e ↦ inr (inl ((text_eq_iff r role_operator).0 e, rw (ne, e) refl))
    | inr e ↦ inr (inr (rw (ne, e) refl))
  ]
]

low : (n : ℕ) → 1 < n → n ≢ 1
low n high e = omega (arith, high, e)

differ : (m n a b : ℕ) → m ≡ n → m ≡ a → n ≡ b → a ≢ b → ⊥
differ m n a b same ha hb ne = ne (sym ha ∙ (same ∙ hb))

-- Roles of the same rank above the reader's are the same.
rank-injective : (a b : Role) → rank role_readonly < rank a → rank a ≡ rank b → a ≡ b
unfolding rank text_eq
rank-injective a b high same = elim (rank-cases a) [
  | inr (inr one) ↦ absurd (low (rank a) high one)
  | inl (e, three) ↦ elim (rank-cases b) [
    | inl (e2, three2) ↦ e ∙ sym e2
    | inr (inl (e2, two)) ↦
        absurd (differ (rank a) (rank b) 3 2 same three two (λ h. omega (arith, h)))
    | inr (inr one) ↦ absurd (differ (rank a) (rank b) 3 1 same three one (λ h. omega (arith, h)))
  ]
  | inr (inl (e, two)) ↦ elim (rank-cases b) [
    | inl (e2, three) ↦ absurd (differ (rank a) (rank b) 2 3 same two three (λ h. omega (arith, h)))
    | inr (inl (e2, two2)) ↦ e ∙ sym e2
    | inr (inr one) ↦ absurd (differ (rank a) (rank b) 2 1 same two one (λ h. omega (arith, h)))
  ]
]

-- A role that is given is the same by both; so is the rank of the highest.
at_most :
    (mapping others : Map Role) (gs hs : List Text)
    → ((r : Role) → Given mapping gs r → Given others hs r)
    → rank (role_of_groups mapping gs role_readonly) ≤ rank (role_of_groups others hs role_readonly)
unfolding Raised
at_most mapping others gs hs includes =
    let one = role_of_groups-Raised mapping gs role_readonly in
    let other = role_of_groups-Raised others hs role_readonly in
    elim one.1 [
      | inl e ↦ rw e other.0
      | inr (given, more) ↦
          other.2 (role_of_groups mapping gs role_readonly)
            (includes (role_of_groups mapping gs role_readonly) given)
    ]

-- Two mappings and two lists of groups that give the same roles lead to the same role: the order
-- in which the groups and the entries of the map are gone through does not matter.
pub role_of_groups-same :
    (mapping others : Map Role) (gs hs : List Text)
    → ((r : Role) → Given mapping gs r ↔ Given others hs r)
    → role_of_groups mapping gs role_readonly ≡ role_of_groups others hs role_readonly
unfolding Raised
role_of_groups-same mapping others gs hs same =
    let up = at_most mapping others gs hs (λ r. (same r).0) in
    let down = at_most others mapping hs gs (λ r. (same r).1) in
    elim (role_of_groups-Raised mapping gs role_readonly).1 [
      | inr (given, more) ↦
          rank-injective (role_of_groups mapping gs role_readonly)
            (role_of_groups others hs role_readonly) more (omega (arith, up, down))
      | inl e ↦ elim (role_of_groups-Raised others hs role_readonly).1 [
        | inr (given, more) ↦ sym (
            rank-injective (role_of_groups others hs role_readonly)
              (role_of_groups mapping gs role_readonly) more (omega (arith, up, down)))
        | inl e2 ↦ e ∙ sym e2
      ]
    ]
