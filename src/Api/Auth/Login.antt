-- ===== src/Api/Auth/Login.antt =====
-- Logging in, and asking who one is (internal/api/auth.go, `handleAuthLogin` and `handleAuthMe`).
use sipbridge.Api.Auth.{
  AuthSpec, Credentials, Directory, Principal, Sessions, accepted, auth_ttl, bearer_token, failed,
  issue, rejected, validate_adlds, validate_local, verify,
}
use sipbridge.Api.Auth.Access.{is_enabled}
use sipbridge.Prelude.{ℕ, not, Option, none, some, if◌then◌else◌}
use sipbridge.Text.{Text, codes, text_eq, trim_space}

-- The answers to a login, by their statuses 405, 400, 404, 500, 502, 401, and 200 with a token.
pub data LoginAnswer : Type 0 where
  method_not_allowed bad_request not_enabled : LoginAnswer
  no_token bad_gateway unauthorized : LoginAnswer
  token : Text → Principal → LoginAnswer

-- What a handler is given: the directory and the environment, the clock, and the random token,
-- `none` where the random source fails.
pub record World : Type 0 where
  pub dir : Directory
  pub env : Text → Text
  pub now : ℕ
  pub random : Option Text

abbrev pub granted : AuthSpec → World → Principal → Sessions → Option Text → Sessions × LoginAnswer
granted spec w p s none = (s, no_token)
granted spec w p s (some tok) = (issue p (auth_ttl spec) w.now tok s, token tok p)

abbrev pub by_directory : AuthSpec → World → Sessions → Credentials → Sessions × LoginAnswer
by_directory spec w s failed = (s, bad_gateway)
by_directory spec w s rejected = (s, unauthorized)
by_directory spec w s (accepted p) = granted spec w p s w.random

abbrev pub by_local :
    AuthSpec → World → Text → Text → Sessions → Option Principal → Sessions × LoginAnswer
by_local spec w username password s (some p) = granted spec w p s w.random
by_local spec w username password s none =
    by_directory spec w s (validate_adlds w.dir w.env spec.adlds username password)

abbrev pub with_spec : Option AuthSpec → World → Text → Text → Sessions → Sessions × LoginAnswer
with_spec none w username password s = (s, not_enabled)
with_spec (some spec) w username password s =
    if not spec.enabled
    then (s, not_enabled)
    else by_local spec w username password s (validate_local spec.local username password)

-- The body is the user's name and the password, `none` where it is no JSON.
unfoldable pub handle_auth_login :
    Option AuthSpec → World → Text → Option (Text × Text) → Sessions → Sessions × LoginAnswer
unfolding text_eq trim_space validate_local validate_adlds auth_ttl issue
handle_auth_login spec w method none s =
    if not (text_eq method (codes "POST")) then (s, method_not_allowed) else (s, bad_request)
handle_auth_login spec w method (some (username, password)) s =
    if not (text_eq method (codes "POST"))
    then (s, method_not_allowed)
    else with_spec spec w (trim_space username) password s

-- The answers to `/v1/auth/me`.
pub data MeAnswer : Type 0 where
  me_not_allowed me_disabled me_unknown : MeAnswer
  me : Principal → MeAnswer

abbrev me_of : Sessions × Option Principal → Sessions × MeAnswer
me_of (s, none) = (s, me_unknown)
me_of (s, some p) = (s, me p)

unfoldable pub handle_auth_me : Option AuthSpec → Text → Text → ℕ → Sessions → Sessions × MeAnswer
unfolding text_eq bearer_token verify
handle_auth_me spec method authorization now s =
    if not (text_eq method (codes "GET"))
    then (s, me_not_allowed)
    else if not (is_enabled spec)
    then (s, me_disabled)
    else me_of (verify (bearer_token authorization) now s)
