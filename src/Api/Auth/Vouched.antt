-- ===== src/Api/Auth/Vouched.antt =====
-- Who gets a token.
use sipbridge.Api.Auth.{
  AdldsSpec, AuthSpec, Credentials, Directory, Entry, LocalAuthSpec, LocalAuthUser, Principal,
  Sessions, accepted, auth_ttl, failed, filter_of, issue, one_entry, rejected, service_bound,
  validate_adlds, validate_local, validate_local_users,
}
use sipbridge.Prelude.{
  ℕ, suc, ◌≡◌, refl, ◌⊎◌, inl, inr, Bool, true, false, ◌||◌, not, Option, none, some, List, [], ◌∷◌,
  get_elem?, if◌then◌else◌, Bool-cases, Option-cases,
}
use sipbridge.Text.Laws.{text_eq_iff}
use sipbridge.Text.{Text, codes, is_empty, text_eq, trim_space}
use sipbridge.Api.Auth.Login.{
  World, bad_gateway, granted, handle_auth_login, method_not_allowed, no_token, not_enabled, token,
  unauthorized,
}

-- A user of the configuration has that name and that password.
pub LocalUser : AuthSpec → Text → Text → Type 0
LocalUser spec username password =
    (l : LocalAuthSpec) × (i : ℕ) × (u : LocalAuthUser) × (spec.local ≡ some l)
    × (l.enabled ≡ true)
    × (get_elem? l.users i ≡ some u)
    × (u.username ≡ username)
    × (u.password ≡ password)

-- The directory has exactly one entry for that name, and it accepts the password.
pub DirectoryUser : Directory → AuthSpec → Text → Text → Type 0
DirectoryUser dir spec username password =
    (a : AdldsSpec) × (entry : Entry) × (spec.adlds ≡ some a)
    × (a.enabled ≡ true)
    × (dir.search a.base_dn (filter_of dir a username) ≡ some (entry ∷ []))
    × (dir.bind entry.dn password ≡ true)

local_found :
    (users : List LocalAuthUser) (username password : Text) (p : Principal)
    → validate_local_users users username password ≡ some p
    → (i : ℕ) × (u : LocalAuthUser) × (get_elem? users i ≡ some u)
      × (u.username ≡ username)
      × (u.password ≡ password)
unfolding validate_local_users
local_found [] username password p h = cc
local_found (u ∷ us) username password p h = elim (Bool-cases (text_eq u.username username)) [
  | inr e ↦
      let later : validate_local_users us username password ≡ some p = rw e at h in
      let found = local_found us username password p later in
      (suc found.0, found.1, found.2, found.3, found.4)
  | inl e ↦ elim (Bool-cases (text_eq u.password password)) [
    | inr wrong ↦ let bad : none ≡ some p = rw (e, wrong) at h in cc
    | inl right ↦ (
      0,
      u,
      refl,
      (text_eq_iff u.username username).0 e,
      (text_eq_iff u.password password).0 right,
    )
  ]
]

validate_local-LocalUser :
    (spec : AuthSpec) (username password : Text) (p : Principal)
    → validate_local spec.local username password ≡ some p
    → LocalUser spec username password
unfolding validate_local LocalUser
validate_local-LocalUser spec username password p h = elim (Option-cases spec.local) [
  | inl e ↦ let bad : none ≡ some p = rw e at h in cc
  | inr (l, e) ↦ elim (Bool-cases l.enabled) [
    | inr off ↦ let bad : none ≡ some p = rw (e, off) at h in cc
    | inl on ↦
        let found = local_found l.users username password p (rw (e, on) at h) in
        (l, found.0, found.1, e, on, found.2, found.3, found.4)
  ]
]

beyond :
    (b : Bool) (c x : Credentials) (p : Principal)
    → ¬ (c ≡ accepted p)
    → (if b then c else x) ≡ accepted p
    → x ≡ accepted p
beyond true c x p ne h = absurd (ne h)
beyond false c x p ne h = h

one_entry-bind :
    (dir : Directory) (a : AdldsSpec) (username password : Text) (p : Principal)
    (found : Option (List Entry))
    → one_entry dir a username password found ≡ accepted p
    → (entry : Entry) × (found ≡ some (entry ∷ [])) × (dir.bind entry.dn password ≡ true)
one_entry-bind dir a username password p none h = cc
one_entry-bind dir a username password p (some []) h = cc
one_entry-bind dir a username password p (some (entry ∷ [])) h =
    elim (Bool-cases (dir.bind entry.dn password)) [
      | inl e ↦ (entry, refl, e)
      | inr e ↦ let bad : rejected ≡ accepted p = rw e at h in cc
    ]
one_entry-bind dir a username password p (some (entry ∷ more ∷ rest)) h = cc

validate_adlds-DirectoryUser :
    (w : World) (spec : AuthSpec) (username password : Text) (p : Principal)
    → validate_adlds w.dir w.env spec.adlds username password ≡ accepted p
    → DirectoryUser w.dir spec username password
unfolding validate_adlds DirectoryUser
validate_adlds-DirectoryUser w spec username password p h = elim (Option-cases spec.adlds) [
  | inl e ↦ let bad : rejected ≡ accepted p = rw e at h in cc
  | inr (a, e) ↦ elim (Bool-cases a.enabled) [
    | inr off ↦ let bad : rejected ≡ accepted p = rw (e, off) at h in cc
    | inl on ↦
        let c1 =
          beyond (is_empty (trim_space a.url) || is_empty (trim_space a.base_dn)) failed _ p
            (λ bad. cc) (rw (e, on) at h) in
        let c2 = beyond (not (w.dir.dial_url a.url)) failed _ p (λ bad. cc) c1 in
        let c3 = beyond (not (service_bound w.dir w.env a)) failed _ p (λ bad. cc) c2 in
        let found =
          one_entry-bind w.dir a username password p
            (w.dir.search a.base_dn (filter_of w.dir a username)) c3 in
        (a, found.0, e, on, found.1, found.2)
  ]
]

granted-token :
    (spec : AuthSpec) (w : World) (q p : Principal) (s : Sessions) (tok : Text)
    → (granted spec w q s w.random).1 ≡ token tok p
    → (w.random ≡ some tok)
      × ((granted spec w q s w.random).0 ≡ issue p (auth_ttl spec) w.now tok s)
      × (q ≡ p)
granted-token spec w q p s tok h = elim (Option-cases w.random) [
  | inl e ↦ let bad : no_token ≡ token tok p = rw e at h in cc
  | inr (t, e) ↦
      let it : token t q ≡ token tok p = rw e at h in
      let same_tok : t ≡ tok = cc in
      let same_p : q ≡ p = cc in rw (e, same_tok, same_p) (refl, refl, refl)
]

Credentials-cases :
    (c : Credentials) → (c ≡ failed) ⊎ (c ≡ rejected) ⊎ ((p : Principal) × (c ≡ accepted p))
Credentials-cases failed = inl refl
Credentials-cases rejected = inr (inl refl)
Credentials-cases (accepted p) = inr (inr (p, refl))

-- Who is vouched for, and by whom.
pub Vouched : World → AuthSpec → Text → Text → Type 0
Vouched w spec username password =
    LocalUser spec username password ⊎ DirectoryUser w.dir spec username password

-- A login that is answered by a token: authentication is enabled; the trimmed name and the
-- password are those of a local user, or the directory has exactly one entry for the name, which
-- accepts the password; and the token, which is the random one, is stored for the principal that
-- is answered, for the configured time from now on.
pub handle_auth_login-Vouched :
    (spec : AuthSpec) (w : World) (method username password : Text) (s : Sessions) (tok : Text)
    (p : Principal)
    → (handle_auth_login (some spec) w method (some (username, password)) s).1 ≡ token tok p
    → (spec.enabled ≡ true)
      × Vouched w spec (trim_space username) password
      × (w.random ≡ some tok)
      × ((handle_auth_login (some spec) w method (some (username, password)) s).0
          ≡ issue p (auth_ttl spec) w.now tok s)
unfolding handle_auth_login Vouched
handle_auth_login-Vouched spec w method username password s tok p h =
    elim (Bool-cases (text_eq method (codes "POST"))) [
      | inr e ↦ let bad : method_not_allowed ≡ token tok p = rw e at h in cc
      | inl post ↦ elim (Bool-cases spec.enabled) [
        | inr off ↦ let bad : not_enabled ≡ token tok p = rw (post, off) at h in cc
        | inl on ↦ elim (Option-cases (validate_local spec.local (trim_space username) password)) [
          | inr (q, e) ↦
              let it = granted-token spec w q p s tok (rw (post, on, e) at h) in
              (
                on,
                inl (validate_local-LocalUser spec (trim_space username) password q e),
                it.0,
                rw (post, on, e) it.1,
              )
          | inl e ↦
              elim (Credentials-cases
                (validate_adlds w.dir w.env spec.adlds (trim_space username) password)) [
                  | inl c ↦ let bad : bad_gateway ≡ token tok p = rw (post, on, e, c) at h in cc
                  | inr (inl c) ↦
                      let bad : unauthorized ≡ token tok p = rw (post, on, e, c) at h in cc
                  | inr (inr (q, c)) ↦
                      let it = granted-token spec w q p s tok (rw (post, on, e, c) at h) in
                      (
                        on,
                        inr (
                            validate_adlds-DirectoryUser w spec (trim_space username) password q c),
                        it.0,
                        rw (post, on, e, c) it.1,
                      )
                ]
        ]
      ]
    ]
