-- ===== src/Config/Servers.antt =====
-- The inventory of peer servers (internal/config/appconfig.go) and the devices of a user
-- (recording_spec.go): what their validators let pass. `url.Parse` is the parameter `parse_url`.
use sipbridge.Prelude.{
  Bool, true, false, not, ◌&&◌, ◌||◌, ◌≡◌, refl, ℤ, pos, negsuc, Option, none, some, List, [], ◌∷◌,
  All, at_least, below, guard-none, or_else, or_else-none, if◌then◌else◌, ◌⊎◌, inl, inr, ◌==◌,
  arith,
}
use sipbridge.Config.Entries.{check_entries, check_entries-Fits, check_entries-distinct, ids_of}
use sipbridge.Config.Recording.{UrlParser, is_sip, kind_error, validate_user_devices}
use sipbridge.Config.{UserDevice}
use sipbridge.Text.Sets.{distinct}
use sipbridge.Text.{Text, codes, is_empty, text_eq, trim_space}

pub record ManagedServer : Type 0 where
  pub id : Text
  pub name : Text
  pub api_base_url : Text
  pub region : Text
  pub tls_skip_verify : Bool
  pub sip_ingress_uri : Text
  pub interconnect_sip_uri : Text
  pub capacity_weight : ℤ

pub data ServerError : Type 0 where
  blank_server_id duplicate_server_id name_required url_required bad_url : ServerError
  not_http no_host bad_weight not_sip : ServerError

abbrev zero_int : ℤ → Bool
zero_int (pos n) = n == 0
zero_int (negsuc n) = false

abbrev url_error : Option (Text × Text) → Option ServerError
url_error none = some ServerError.bad_url
url_error (some u) =
    if not (text_eq u.0 (codes "http")) && not (text_eq u.0 (codes "https"))
    then some ServerError.not_http
    else if is_empty u.1
    then some ServerError.no_host
    else none

abbrev weight_error : ℤ → Option ServerError
weight_error w =
    if not (zero_int w) && (below 1 w || at_least 101 w) then some ServerError.bad_weight else none

abbrev sip_error : UrlParser → Text → Option ServerError
sip_error parse_url raw =
    if is_empty raw then none else if is_sip (parse_url raw) then none else some ServerError.not_sip

-- What `ValidateManagedServers` checks of an entry after its id.
unfoldable pub server_error : UrlParser → ManagedServer → Option ServerError
unfolding trim_space text_eq
server_error parse_url s =
    if is_empty (trim_space s.name)
    then some ServerError.name_required
    else if is_empty (trim_space s.api_base_url)
    then some ServerError.url_required
    else or_else (url_error (parse_url (trim_space s.api_base_url))) (
        or_else (weight_error s.capacity_weight) (
          or_else (sip_error parse_url (trim_space s.sip_ingress_uri))
            (sip_error parse_url (trim_space s.interconnect_sip_uri))))

unfoldable pub validate_managed_servers : UrlParser → List ManagedServer → Option ServerError
unfolding check_entries server_error
validate_managed_servers parse_url servers =
    check_entries (λ (s : ManagedServer). s.id) ServerError.blank_server_id
      ServerError.duplicate_server_id (server_error parse_url) [] servers

one_of : (a b : Bool) → (not a && not b) ≡ false → (a ≡ true) ⊎ (b ≡ true)
one_of true b h = inl refl
one_of false true h = inr refl
one_of false false h = cc

module _ (parse_url : UrlParser) where
  -- A server that can be shown and asked.
  pub Usable : ManagedServer → Type 0
  Usable s =
      (is_empty (trim_space s.id) ≡ false)
      × (is_empty (trim_space s.name) ≡ false)
      × ((u : Text × Text) × (parse_url (trim_space s.api_base_url) ≡ some u)
          × ((text_eq u.0 (codes "http") ≡ true) ⊎ (text_eq u.0 (codes "https") ≡ true))
          × (is_empty u.1 ≡ false))
      × ((s.capacity_weight ≡ pos 0)
          ⊎ ((at_least 1 s.capacity_weight ≡ true) × (below 101 s.capacity_weight ≡ true)))

  url_error-none :
      (o : Option (Text × Text))
      → url_error o ≡ none
      → (u : Text × Text) × (o ≡ some u)
        × ((text_eq u.0 (codes "http") ≡ true) ⊎ (text_eq u.0 (codes "https") ≡ true))
        × (is_empty u.1 ≡ false)
  url_error-none none h = cc
  url_error-none (some u) h =
      let http =
        guard-none (not (text_eq u.0 (codes "http")) && not (text_eq u.0 (codes "https")))
          ServerError.not_http (if is_empty u.1 then some ServerError.no_host else none) h in
      (
        u,
        refl,
        one_of (text_eq u.0 (codes "http")) (text_eq u.0 (codes "https")) http.0,
        (guard-none (is_empty u.1) ServerError.no_host none http.1).0,
      )

  weight_error-none :
      (w : ℤ) → weight_error w ≡ none → (w ≡ pos 0) ⊎ ((at_least 1 w ≡ true) × (below 101 w ≡ true))
  weight_error-none (pos n) h = ground arith
  weight_error-none (negsuc n) h = ground arith

  server_error-Usable :
      (s : ManagedServer)
      → is_empty (trim_space s.id) ≡ false
      → server_error parse_url s ≡ none
      → Usable s
  unfolding server_error Usable
  server_error-Usable s filled h =
      let name = guard-none _ _ _ h in
      let url = guard-none _ _ _ name.1 in
      let base = or_else-none _ _ url.1 in
      let weight = or_else-none _ _ base.1 in
      (
        filled,
        name.0,
        url_error-none (parse_url (trim_space s.api_base_url)) base.0,
        weight_error-none s.capacity_weight weight.0,
      )

  servers-Usable :
      (servers : List ManagedServer)
      → All (λ s. (is_empty (trim_space s.id) ≡ false) × (server_error parse_url s ≡ none)) servers
      → All Usable servers
  servers-Usable [] h = tt
  servers-Usable (s ∷ rest) h = (server_error-Usable s h.0.0 h.0.1, servers-Usable rest h.1)

  -- When the check of the inventory of servers passes, no two of them have the same trimmed id,
  -- and each has an id, a name, an http or https address with a host, and a weight that is 0 or
  -- from 1 to 100.
  pub validate_managed_servers-Usable :
      (servers : List ManagedServer)
      → validate_managed_servers parse_url servers ≡ none
      → (distinct (ids_of (λ s. s.id) servers) ≡ true) × All Usable servers
  unfolding validate_managed_servers
  validate_managed_servers-Usable servers h = (
    (check_entries-distinct (λ s. s.id) _ _ (server_error parse_url) [] servers h).0,
    servers-Usable servers
        (check_entries-Fits (λ s. s.id) _ _ (server_error parse_url) [] servers h),
  )

-- When the check of a user's devices passes, no two of them have the same trimmed id.
pub validate_user_devices-distinct :
    (devices : List UserDevice)
    → validate_user_devices devices ≡ none
    → distinct (ids_of (λ d. d.id) devices) ≡ true
unfolding validate_user_devices
validate_user_devices-distinct devices h =
    (check_entries-distinct (λ d. d.id) _ _ kind_error [] devices h).0
