-- ===== src/Api/Auth/Policy.antt =====
-- The check in front of every request carries out the policy.
use mathlib.Core.Path.{subst}
use sipbridge.Api.Auth.{
  AuthSpec, Principal, Role, Sessions, bearer_token, role_admin, role_allowed, role_operator,
  role_readonly, verify,
}
use sipbridge.Prelude.{
  ℕ, ◌≡◌, refl, sym, ap, ◌∙◌, ◌⊎◌, ◌↔◌, inl, inr, Bool, true, false, ◌||◌, Option, none, some, List,
  [], ◌∷◌, if◌then◌else◌, Bool-cases, some-injective,
}
use sipbridge.Text.Laws.{text_eq_iff}
use sipbridge.Text.{Text, codes, has_prefix, text_eq}
use sipbridge.Api.Auth.Access.{
  Area, Permitted, Request, allow_of, area_of, as_principal, auth_middleware, elsewhere, everyone,
  is_enabled, is_open, operations, passed_as, settings, writes,
}

either : (a b : Bool) → (a || b) ≡ true → (a ≡ true) ⊎ (b ≡ true)
either true b h = inl refl
either false b h = inr h

is_role : (role r : Role) → text_eq role r ≡ true → role ≡ r
is_role role r h = (text_eq_iff role r).0 h

-- The lists of `allow_of`, by area.
abbrev allowed_in : Area → Bool → List Role
allowed_in settings write = role_admin ∷ []
allowed_in operations write = if write then role_admin ∷ role_operator ∷ [] else everyone
allowed_in elsewhere write = everyone

everyone_iff :
    (role : Role)
    → (role_allowed role everyone ≡ true)
      ↔ ((role ≡ role_admin) ⊎ (role ≡ role_operator) ⊎ (role ≡ role_readonly))
unfolding role_allowed text_eq
everyone_iff role = (
  λ h.
      elim (either (text_eq role role_readonly)
        (text_eq role role_operator || (text_eq role role_admin || false)) h) [
          | inl e ↦ inr (inr (is_role role role_readonly e))
          | inr h2 ↦
              elim (either (text_eq role role_operator) (text_eq role role_admin || false) h2) [
                | inl e ↦ inr (inl (is_role role role_operator e))
                | inr h3 ↦ elim (either (text_eq role role_admin) false h3) [
                  | inl e ↦ inl (is_role role role_admin e)
                  | inr bad ↦ cc
                ]
              ]
        ],
  λ h. elim h [ inl e ↦ rw e refl | inr (inl e) ↦ rw e refl | inr (inr e) ↦ rw e refl ],
)

admins_iff : (role : Role) → (role_allowed role (role_admin ∷ []) ≡ true) ↔ (role ≡ role_admin)
unfolding role_allowed text_eq
admins_iff role = (
  λ h. elim (either (text_eq role role_admin) false h) [
    | inl e ↦ is_role role role_admin e
    | inr bad ↦ cc
  ],
  λ e. rw e refl,
)

staff_iff :
    (role : Role)
    → (role_allowed role (role_admin ∷ role_operator ∷ []) ≡ true)
      ↔ ((role ≡ role_admin) ⊎ (role ≡ role_operator))
unfolding role_allowed text_eq
staff_iff role = (
  λ h. elim (either (text_eq role role_admin) (text_eq role role_operator || false) h) [
    | inl e ↦ inl (is_role role role_admin e)
    | inr h2 ↦ elim (either (text_eq role role_operator) false h2) [
      | inl e ↦ inr (is_role role role_operator e)
      | inr bad ↦ cc
    ]
  ],
  λ h. elim h [ inl e ↦ rw e refl | inr e ↦ rw e refl ],
)

allowed_in_iff :
    (role : Role) (area : Area) (write : Bool)
    → (role_allowed role (allowed_in area write) ≡ true) ↔ Permitted role area write
unfolding Permitted
allowed_in_iff role settings write = (
  λ h. inl ((admins_iff role).0 h),
  λ h. elim h [
    | inl e ↦ (admins_iff role).1 e
    | inr (inl (e, ne)) ↦ absurd (ne refl)
    | inr (inr (e, inl bad)) ↦ cc
    | inr (inr (e, inr (bad, w))) ↦ cc
  ],
)
allowed_in_iff role operations true = (
  λ h. elim ((staff_iff role).0 h) [ inl e ↦ inl e | inr e ↦ inr (inl (e, λ bad. cc)) ],
  λ h. elim h [
    | inl e ↦ (staff_iff role).1 (inl e)
    | inr (inl (e, ne)) ↦ (staff_iff role).1 (inr e)
    | inr (inr (e, inl bad)) ↦ cc
    | inr (inr (e, inr (a, bad))) ↦ cc
  ],
)
allowed_in_iff role operations false = (
  λ h. elim ((everyone_iff role).0 h) [
    | inl e ↦ inl e
    | inr (inl e) ↦ inr (inl (e, λ bad. cc))
    | inr (inr e) ↦ inr (inr (e, inr (refl, refl)))
  ],
  λ h. elim h [
    | inl e ↦ (everyone_iff role).1 (inl e)
    | inr (inl (e, ne)) ↦ (everyone_iff role).1 (inr (inl e))
    | inr (inr (e, rest)) ↦ (everyone_iff role).1 (inr (inr e))
  ],
)
allowed_in_iff role elsewhere write = (
  λ h. elim ((everyone_iff role).0 h) [
    | inl e ↦ inl e
    | inr (inl e) ↦ inr (inl (e, λ bad. cc))
    | inr (inr e) ↦ inr (inr (e, inl refl))
  ],
  λ h. elim h [
    | inl e ↦ (everyone_iff role).1 (inl e)
    | inr (inl (e, ne)) ↦ (everyone_iff role).1 (inr (inl e))
    | inr (inr (e, rest)) ↦ (everyone_iff role).1 (inr (inr e))
  ],
)

same_list :
    (c o i w : Bool)
    → (if c
        then role_admin ∷ []
        else if o
        then if w then role_admin ∷ role_operator ∷ [] else everyone
        else if i
        then if w then role_admin ∷ role_operator ∷ [] else everyone
        else everyone)
      ≡ allowed_in (if c then settings else if o || i then operations else elsewhere) w
same_list true o i w = refl
same_list false true i w = refl
same_list false false true w = refl
same_list false false false w = refl

allow_of-area_of :
    (path method : Text) → allow_of path method ≡ allowed_in (area_of path) (writes method)
unfolding allow_of area_of
allow_of-area_of path method =
    same_list (has_prefix (codes "/v1/settings/") path || has_prefix (codes "/v1/config") path)
      (has_prefix (codes "/v1/mi/") path
        || (has_prefix (codes "/v1/bridges") path
            || has_prefix (codes "/v1/conference-groups/") path))
      (has_prefix (codes "/v1/iptv/") path) (writes method)

role_allowed_iff :
    (role : Role) (path method : Text)
    → (role_allowed role (allow_of path method) ≡ true)
      ↔ Permitted role (area_of path) (writes method)
role_allowed_iff role path method =
    rw (allow_of-area_of path method) (allowed_in_iff role (area_of path) (writes method))

passed_as-injective : (p q : Principal) → passed_as p ≡ passed_as q → p ≡ q
passed_as-injective p q h = cc

as_principal-Permitted :
    (r : Request) (v : Sessions × Option Principal) (p : Principal)
    → ((as_principal r v).1 ≡ passed_as p)
      ↔ ((v.1 ≡ some p) × Permitted p.role (area_of r.path) (writes r.method))
as_principal-Permitted r (s, none) p = (λ h. cc, λ h. let bad = h.0 in cc)
as_principal-Permitted r (s, some q) p =
    let policy = role_allowed_iff q.role r.path r.method in
    elim (Bool-cases (role_allowed q.role (allow_of r.path r.method))) [
      | inl e ↦ rw e (
        λ h.
            let it = passed_as-injective q p h in
            (
              ap (λ (x : Principal). some x) it,
              subst (λ (x : Principal). Permitted x.role (area_of r.path) (writes r.method)) it
                  (policy.0 e),
            ),
        λ h. ap (λ (x : Principal). passed_as x) (some-injective q p h.0),
      )
      | inr e ↦ rw e (
        λ h. cc,
        λ h.
            let it = some-injective q p h.0 in
            let yes = policy.1 (
              subst (λ (x : Principal). Permitted x.role (area_of r.path) (writes r.method))
                (sym it) h.1) in
            let bad = sym e ∙ yes in cc,
      )
    ]

-- A request for a path that is not open, while authentication is enabled, is passed on as a
-- principal exactly when its token is verified to stand for that principal and the policy permits
-- what the request does to a bearer of the principal's role.
pub auth_middleware-Permitted :
    (spec : Option AuthSpec) (r : Request) (now : ℕ) (s : Sessions) (p : Principal)
    → is_open r.path ≡ false
    → is_enabled spec ≡ true
    → ((auth_middleware spec r now s).1 ≡ passed_as p) ↔ (
        ((verify (bearer_token r.authorization) now s).1 ≡ some p)
        × Permitted p.role (area_of r.path) (writes r.method))
unfolding auth_middleware
auth_middleware-Permitted spec r now s p closed enabled =
    rw (closed, enabled) (as_principal-Permitted r (verify (bearer_token r.authorization) now s) p)
