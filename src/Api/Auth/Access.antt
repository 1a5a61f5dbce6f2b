-- ===== src/Api/Auth/Access.antt =====
-- The check in front of every request (internal/api/auth.go, `authMiddleware`), and the policy
-- that it
-- carries out.
use sipbridge.Api.Auth.{
  AuthSpec, Principal, Role, Sessions, bearer_token, role_admin, role_allowed, role_operator,
  role_readonly, verify,
}
use sipbridge.Prelude.{
  ℕ, ◌≡◌, ◌≢◌, ◌⊎◌, Bool, false, ◌||◌, not, Option, none, some, List, [], ◌∷◌, if◌then◌else◌,
}
use sipbridge.Text.{Text, codes, has_prefix, text_eq}

pub data Access : Type 0 where
  passed : Access
  passed_as : Principal → Access
  unauthorized : Access
  forbidden : Access

-- A request: its method, its path and the header `Authorization`.
pub record Request : Type 0 where
  pub method : Text
  pub path : Text
  pub authorization : Text

unfoldable pub is_open : Text → Bool
unfolding text_eq has_prefix
is_open path = text_eq path (codes "/healthz") || has_prefix (codes "/v1/auth/") path

unfoldable pub writes : Text → Bool
unfolding text_eq
writes method =
    text_eq method (codes "POST")
    || (text_eq method (codes "PUT") || text_eq method (codes "DELETE"))

abbrev pub everyone : List Role
everyone = role_readonly ∷ role_operator ∷ role_admin ∷ []

unfoldable pub allow_of : Text → Text → List Role
unfolding has_prefix writes
allow_of path method =
    if has_prefix (codes "/v1/settings/") path || has_prefix (codes "/v1/config") path
    then role_admin ∷ []
    else if has_prefix (codes "/v1/mi/") path
        || (has_prefix (codes "/v1/bridges") path
            || has_prefix (codes "/v1/conference-groups/") path)
    then if writes method then role_admin ∷ role_operator ∷ [] else everyone
    else if has_prefix (codes "/v1/iptv/") path
    then if writes method then role_admin ∷ role_operator ∷ [] else everyone
    else everyone

abbrev pub as_principal : Request → Sessions × Option Principal → Sessions × Access
as_principal r (s, none) = (s, unauthorized)
as_principal r (s, some p) =
    if not (role_allowed p.role (allow_of r.path r.method))
    then (s, forbidden)
    else (s, passed_as p)

abbrev pub is_enabled : Option AuthSpec → Bool
is_enabled none = false
is_enabled (some spec) = spec.enabled

unfoldable pub auth_middleware : Option AuthSpec → Request → ℕ → Sessions → Sessions × Access
unfolding is_open role_allowed allow_of verify bearer_token
auth_middleware spec r now s =
    if is_open r.path
    then (s, passed)
    else if not (is_enabled spec)
    then (s, passed)
    else as_principal r (verify (bearer_token r.authorization) now s)

-- The policy. The areas of the API, by the path.
pub data Area : Type 0 where
  settings operations elsewhere : Area

unfoldable pub area_of : Text → Area
unfolding has_prefix
area_of path =
    if has_prefix (codes "/v1/settings/") path || has_prefix (codes "/v1/config") path
    then settings
    else if (has_prefix (codes "/v1/mi/") path
          || (has_prefix (codes "/v1/bridges") path
              || has_prefix (codes "/v1/conference-groups/") path))
        || has_prefix (codes "/v1/iptv/") path
    then operations
    else elsewhere

-- Who may do what: an administrator everything; an operator everything outside the settings; a
-- reader everything elsewhere, and reading in the operations; nobody else anything.
unfoldable pub Permitted : Role → Area → Bool → Type 0
Permitted role area write =
    (role ≡ role_admin)
    ⊎ ((role ≡ role_operator) × (area ≢ settings))
    ⊎ ((role ≡ role_readonly) × ((area ≡ elsewhere) ⊎ ((area ≡ operations) × (write ≡ false))))
