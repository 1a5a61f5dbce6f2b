-- ===== src/Tests/Access.antt =====
-- Tokens, roles and logins on concrete inputs.
use sipbridge.Api.Auth.Access.{
  Permitted, Request, area_of, auth_middleware, forbidden, passed_as, is_open, writes,
}
use sipbridge.Api.Auth.Lasting.{Harmless, run_sessions-verify}
use sipbridge.Api.Auth.Login.{World, handle_auth_login}
use sipbridge.Api.Auth.Policy.{auth_middleware-Permitted}
use sipbridge.Api.Auth.Roles.{Given, Mapped, role_of_groups-highest, role_of_groups-same}
use sipbridge.Api.Auth.Sessions.{
  Issued, SessionEvent, issued, run_sessions, verified, verify-Issued, verify-issue,
}
use sipbridge.Api.Auth.Vouched.{Vouched, handle_auth_login-Vouched}
use sipbridge.Api.Auth.{
  AuthSpec, Directory, LocalAuthSpec, Principal, Role, Sessions, auth_ttl, bearer_token, issue,
  rank, role_admin, role_of_groups, role_operator, role_readonly, verify,
}
use sipbridge.Maps.{Map}
use sipbridge.Prelude.{
  arith, ℕ, ◌+◌, ◌≤◌, ◌≡◌, refl, ◌⊎◌, ◌↔◌, inl, inr, true, false, none, some, List, [], ◌∷◌, pos,
  if◌then◌else◌, ltb,
}
use sipbridge.Text.{Text, codes, text_eq, trim_space}

abbrev reader : Principal
reader = record { username = codes "eve"; provider = codes "local"; role = role_readonly }

abbrev tok : Text
tok = codes "a1"

abbrev history : List SessionEvent
history = issued reader 100 5 tok ∷ verified tok 50 ∷ verified (codes "b2") 60 ∷ []

verify-Issued_example : (until : ℕ) × Issued tok reader until history × (70 ≤ until)
unfolding verify run_sessions text_eq
verify-Issued_example = verify-Issued history tok 70 reader refl

verify-issue_example :
    (verify tok 70 (issue reader 100 5 tok [])).1 ≡ (if ltb (5 + 100) 70 then none else some reader)
unfolding trim_space
verify-issue_example = verify-issue reader 100 5 70 tok [] refl

run_sessions-verify_example :
    (verify tok 90 (
      run_sessions
        (verified tok 50 ∷ verified (codes "b2") 500 ∷ [])
        (issue reader 100 5 tok []))).1
    ≡ some reader
unfolding trim_space text_eq Harmless
run_sessions-verify_example =
    run_sessions-verify reader 100 5 90 tok [] (verified tok 50 ∷ verified (codes "b2") 500 ∷ [])
      refl (inr (omega arith), (inl refl, tt)) (omega arith)

abbrev locals : LocalAuthSpec
locals = record {
  enabled = true;
  users = (record { username = codes "eve"; password = codes "pw"; role = [] }) ∷ [];
}

abbrev auth : AuthSpec
auth = record { enabled = true; session_ttl_minutes = pos 1; local = some locals; adlds = none }

abbrev bearing : Text → Text → Request
bearing method path = record { method = method; path = path; authorization = codes "Bearer a1" }

abbrev live : Sessions
live = issue reader 100 5 tok []

auth_middleware-Permitted_example :
    ((auth_middleware (some auth) (bearing (codes "DELETE") (codes "/v1/users/ann")) 70 live).1
      ≡ passed_as reader)
    ↔ (((verify (bearer_token (codes "Bearer a1")) 70 live).1 ≡ some reader)
        × Permitted role_readonly (area_of (codes "/v1/users/ann")) (writes (codes "DELETE")))
unfolding is_open
auth_middleware-Permitted_example =
    auth_middleware-Permitted (some auth) (bearing (codes "DELETE") (codes "/v1/users/ann")) 70 live
      reader refl refl

-- A reader may delete users, and may not drop calls.
reader_deletes_users :
    (auth_middleware (some auth) (bearing (codes "DELETE") (codes "/v1/users/ann")) 70 live).1
    ≡ passed_as reader
unfolding auth_middleware issue
reader_deletes_users = refl

reader_deletes_bridges :
    (auth_middleware (some auth) (bearing (codes "DELETE") (codes "/v1/bridges/b1")) 70 live).1
    ≡ forbidden
unfolding auth_middleware issue
reader_deletes_bridges = refl

abbrev mapping : Map Role
mapping = (codes "CN=ops", role_operator) ∷ (codes "CN=adm", role_admin) ∷ []

abbrev ops_first : List Text
ops_first = codes "cn=ops" ∷ codes "cn=adm" ∷ []

abbrev adm_first : List Text
adm_first = codes "cn=adm" ∷ codes "cn=ops" ∷ []

swap : (A B : Type 0) → (A ⊎ B ⊎ ⊥) → (B ⊎ A ⊎ ⊥)
swap A B (inl a) = inr (inl a)
swap A B (inr (inl b)) = inl b
swap A B (inr (inr bad)) = absurd bad

role_of_groups-same_example :
    role_of_groups mapping ops_first role_readonly ≡ role_of_groups mapping adm_first role_readonly
unfolding Given
role_of_groups-same_example = role_of_groups-same mapping mapping ops_first adm_first (λ r. (
  swap (Mapped mapping (codes "cn=ops") r) (Mapped mapping (codes "cn=adm") r),
  swap (Mapped mapping (codes "cn=adm") r) (Mapped mapping (codes "cn=ops") r),
))

role_of_groups-highest_example :
    ((role_of_groups mapping ops_first role_readonly ≡ role_readonly)
      ⊎ Given mapping ops_first (role_of_groups mapping ops_first role_readonly))
    × ((r : Role)
        → Given mapping ops_first r
        → rank r ≤ rank (role_of_groups mapping ops_first role_readonly))
role_of_groups-highest_example = role_of_groups-highest mapping ops_first

highest : role_of_groups mapping ops_first role_readonly ≡ role_admin
unfolding role_of_groups
highest = refl

abbrev nobody : Directory
nobody = record {
  dial_url = λ u. false;
  bind = λ dn p. false;
  search = λ base f. none;
  escape_filter = λ s. s;
}

abbrev noon : World
noon = record { dir = nobody; env = λ k. []; now = 5; random = some tok }

handle_auth_login-Vouched_example :
    (auth.enabled ≡ true)
    × Vouched noon auth (trim_space (codes " eve ")) (codes "pw")
    × (noon.random ≡ some tok)
    × ((handle_auth_login (some auth) noon (codes "POST") (some (codes " eve ", codes "pw")) []).0
        ≡ issue reader (auth_ttl auth) 5 tok [])
unfolding handle_auth_login
handle_auth_login-Vouched_example =
    handle_auth_login-Vouched auth noon (codes "POST") (codes " eve ") (codes "pw") [] tok reader
      refl
