-- ===== src/Host.antt =====
-- The hosts of biz/host.go: `dao.Host` and `validateAndNormalizeHost`, which trims the host that it is
-- given, also where it refuses it. `ToLower` and `TrimSpace` are those of ASCII.
pub mod Trim
pub mod Accepts
pub mod Store
pub mod Manage
pub mod Guard
pub mod Local
pub mod Untested
mod Tests
use swirl_evo.Common.{
  ℕ, Bool, true, false, not, ◌&&◌, ◌||◌, ◌==◌, List, [], ◌∷◌, ◌++◌, any, Option, none, some, Text,
  codes, cut, strip_prefix, trim_space, to_lower, text_eq, if◌then◌else◌,
}
use swirl_evo.Common.Int.{ℤ}

pub record Host : Type 0 where
  pub id : Text
  pub name : Text
  pub endpoint : Text
  pub auth_method : Text
  pub tls_ca_cert : Text
  pub tls_cert : Text
  pub tls_key : Text
  pub ssh_user : Text
  pub ssh_key : Text
  pub status : Text
  pub error : Text
  pub color : Text
  pub host_type : Text
  pub swirl_url : Text
  pub swirl_token : Text
  pub token_expires_at : ℕ
  pub token_auto_refresh : Bool
  pub immutable : Bool
  pub engine_ver : Text
  pub os : Text
  pub arch : Text
  pub cpus : ℤ
  pub memory : ℤ
  pub created_at : ℕ
  pub updated_at : ℕ
  pub created_by : Text
  pub updated_by : Text
  pub addon_config_extract : Text

-- `suggestion` is `EndpointSuggestionError` with its `SuggestedEndpoint`.
pub data HostError : Type 0 where
  name_required endpoint_required : HostError
  suggestion : Text → HostError
  missing_scheme unsupported_scheme scheme_mismatch : HostError
  ssh_user_required tls_ca_cert_required : HostError

abbrev pub unix : Text
unix = codes "unix"

abbrev pub tcp : Text
tcp = codes "tcp"

abbrev pub tcp_tls : Text
tcp_tls = codes "tcp+tls"

abbrev pub ssh : Text
ssh = codes "ssh"

abbrev pub socket : Text
socket = codes "socket"

abbrev pub http : Text
http = codes "http"

abbrev pub https : Text
https = codes "https"

abbrev pub scheme_mark : Text
scheme_mark = codes "://"

abbrev pub has_prefix : Text → Text → Bool
has_prefix p s = elim (strip_prefix p s) [ none ↦ false | some rest ↦ true ]

-- The scheme of an endpoint, empty where it has none.
unfoldable pub scheme_of : Text → Text
unfolding cut
scheme_of endpoint = elim (cut scheme_mark endpoint) [
  | none ↦ []
  | some (before, after) ↦ to_lower before
]

abbrev pub is_valid_scheme : Text → Bool
is_valid_scheme scheme = any (λ s. s == scheme) (http ∷ https ∷ tcp ∷ unix ∷ ssh ∷ [])

-- The endpoint that the method of authentication suggests.
abbrev pub suggested : Text → Text → Option Text
suggested auth_method endpoint =
    if auth_method == socket
    then (if has_prefix (codes "/") endpoint then some (codes "unix://" ++ endpoint) else none)
    else if auth_method == tcp || auth_method == tcp_tls
    then some (codes "tcp://" ++ endpoint)
    else if auth_method == ssh
    then some (codes "ssh://" ++ endpoint)
    else none

abbrev pub expected_method : Text → Text
expected_method scheme =
    if scheme == unix
    then socket
    else if scheme == tcp
    then tcp
    else if scheme == ssh
    then ssh
    else []

abbrev pub agrees : Text → Text → Bool
agrees scheme auth_method =
    auth_method == expected_method scheme
    || (auth_method == tcp_tls && scheme == tcp)
    || auth_method == []

-- The fields that the method of authentication requires.
unfoldable pub missing_field : Host → Option HostError
missing_field h =
    if h.auth_method == ssh && h.ssh_user == []
    then some ssh_user_required
    else if h.auth_method == tcp_tls && trim_space h.tls_ca_cert == []
    then some tls_ca_cert_required
    else none

-- The checks on the scheme and what follows them.
unfoldable pub check_scheme : Host → Option HostError
unfolding missing_field scheme_of
check_scheme h =
    let scheme = scheme_of h.endpoint in
    if scheme == []
    then elim (suggested h.auth_method h.endpoint) [
      | none ↦ some missing_scheme
      | some e ↦ some (suggestion e)
    ]
    else if not (is_valid_scheme scheme)
    then some unsupported_scheme
    else if not (scheme == http) && not (scheme == https) && not (agrees scheme h.auth_method)
    then some scheme_mismatch
    else missing_field h

abbrev pub trimmed : Host → Host
trimmed h = record h {
  name = trim_space h.name;
  endpoint = trim_space h.endpoint;
  ssh_user = trim_space h.ssh_user;
}

unfoldable pub check : Host → Option HostError
unfolding check_scheme
check h =
    if h.name == []
    then some name_required
    else if h.endpoint == []
    then some endpoint_required
    else check_scheme h

unfoldable pub validate_and_normalize_host : Host → Host × Option HostError
unfolding check
validate_and_normalize_host host = (trimmed host, check (trimmed host))
