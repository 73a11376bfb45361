-- ===== src/Server/Router/Defs.antt =====
-- The handlers. A response of the `axum` crate is kept as the value that the code turns into one.
-- `now` is the reading of the clock in seconds.
use mathlib.Core.Option
use loophole.Base.{
  ℕ, ◌-◌, Bool, not, ◌&&◌, ◌||◌, Option, none, some, List, [], ◌∷◌, ◌++◌, Result, ok, err, eqb, leb,
  if◌then◌else◌, is_some, unwrap_or, length, all, ◌>>=◌,
}
use loophole.Text.{Text, codes, ◌==◌, before, strip_prefix, strip_suffix, ends_with, contains_char}
use loophole.Text.Utf8.{Bytes}
use loophole.Text.Numbers.{to_string}
use loophole.Map
use loophole.Server.Tunnel.{Tunnel}
use loophole.Server.Registry.Defs.{Registry}
use loophole.Server.Registry
use loophole.Server.Config.Defs.{Config, control_path, validate_admin_token}
use loophole.Server.Proxy.Defs.{Request, Response, Exchange, proxy_request}
use loophole.Server.Acme.Store.{ChallengeStore}
use loophole.Server.Acme.Store as Store
use loophole.Server.Tls.Defs.{CertManager}

pub record ServerState : Type 0 where
  pub config : Config
  pub registry : Registry
  pub cert_manager : Option CertManager

-- A tunnel as the admin API shows it.
pub record TunnelInfo : Type 0 where
  pub subdomain : Text
  pub created_at_secs : ℕ
  pub request_count : ℕ
  pub idle_secs : ℕ

pub data Answer : Type 0 where
  text : ℕ → Text → Answer
  admin_error : ℕ → Text → Answer
  tunnel_list : List TunnelInfo → ℕ → Answer
  redirect_permanent : Text → Answer
  no_content : Answer
  proxied : Response → Answer
  upgraded : Answer

-- `HeaderMap::get`: the first header of that name; the names are in lower case.
unfoldable pub header : Text → List (Text × Bytes) → Option Bytes
header name [] = none
header name ((n, value) ∷ hs) = if n == name then some value else header name hs

-- `HeaderValue::to_str`: visible ASCII and tabs only.
unfoldable pub to_str : Bytes → Option Text
to_str value = if all (λ b. leb 32 b && leb b 126 || eqb b 9) value then some value else none

abbrev pub header_text : Text → Request → Option Text
header_text name req = do value ← header name req.headers; to_str value

abbrev pub host_of : Request → Text
host_of req = unwrap_or (header_text (codes "host") req) []

unfoldable pub extract_subdomain : Text → Text → Option Text
extract_subdomain given domain =
    let host = before b':' given in
    let suffix = codes "." ++ domain in
    if host == domain
    then none
    else if domain == codes "localhost" && ends_with host (codes ".localhost")
    then strip_suffix host (codes ".localhost")
    else if ends_with host suffix
    then (do
      subdomain ← strip_suffix host suffix
      if not (contains_char b'.' subdomain) then some subdomain else none)
    else none

-- `none` where the path is no ACME challenge.
unfoldable pub try_handle_acme_challenge : Text → ChallengeStore → Option Answer
try_handle_acme_challenge path store = do
  token ← strip_prefix path (codes "/.well-known/acme-challenge/")
  some (elim (Store.get store token) [
    | some key_auth ↦ text 200 key_auth
    | none ↦ text 404 (codes "Challenge not found")
  ])

unfoldable pub https_url : Text → ℕ → Text → Text
https_url host https_port path_and_query =
    if eqb https_port 443
    then codes "https://" ++ (host ++ path_and_query)
    else codes "https://" ++ (host ++ (codes ":" ++ (to_string https_port ++ path_and_query)))

unfoldable pub redirect_to_https : ServerState → ChallengeStore → Request → Answer
redirect_to_https state store req = elim (try_handle_acme_challenge req.path store) [
  | some answer ↦ answer
  | none ↦ redirect_permanent (
      https_url (before b':' (host_of req)) state.config.server.https_port
        (unwrap_or req.path_and_query (codes "/")))
]

-- The state after a request, the bytes that went into a tunnel, and the answer, if it has come.
pub record Handled : Type 0 where
  pub state : ServerState
  pub sent : Bytes
  pub answer : Option Answer

abbrev pub answered : ServerState → Answer → Handled
answered state a = record { state = state; sent = []; answer = some a }

-- The registry shares each tunnel with the requests that use it, so a counter that a request changes
-- has changed in the registry.
unfoldable pub put_tunnel : ServerState → Text → Tunnel → ServerState
put_tunnel state subdomain tunnel = record state {
  registry = record (state.registry) {
    tunnels = Map.insert state.registry.tunnels subdomain tunnel;
  };
}

-- The request is taken over by the tunnel.
unfoldable pub proxy_through : ServerState → Text → Tunnel → Text → Request → Exchange → Handled
proxy_through state subdomain tunnel client_ip req x =
    let p = proxy_request tunnel req client_ip (is_some state.config.https) x in
    record {
      state = put_tunnel state subdomain p.tunnel;
      sent = p.sent;
      answer = Option.map proxied p.response;
    }

unfoldable pub handle_request : ServerState → Bool → Text → Request → Exchange → Handled
handle_request state is_upgrade client_ip req x =
    if req.path == control_path
    then (if is_upgrade
        then answered state upgraded
        else answered state (text 400 (codes "WebSocket upgrade required")))
    else elim (extract_subdomain (host_of req) state.config.server.domain) [
      | none ↦ answered state (text 404 (codes "Unknown subdomain"))
      | some subdomain ↦ elim (Registry.get state.registry subdomain) [
        | none ↦ answered state (text 404 (codes "Tunnel not found"))
        | some tunnel ↦ proxy_through state subdomain tunnel client_ip req x
      ]
    ]

unfoldable pub validate_admin_auth : Request → Config → Result Answer (Unit {0})
validate_admin_auth req config = elim (header_text (codes "authorization") req) [
  | none ↦ err (admin_error 401 (codes "Authorization header required"))
  | some auth_header ↦ elim (strip_prefix auth_header (codes "Bearer ")) [
    | none ↦ err (admin_error 401 (codes "Invalid authorization format"))
    | some token ↦
        if validate_admin_token config token
        then ok tt
        else err (admin_error 401 (codes "Invalid or non-admin token"))
  ]
]

abbrev info_of : ℕ → Tunnel → TunnelInfo
info_of now t = record {
  subdomain = t.subdomain;
  created_at_secs = now - t.created_at;
  request_count = t.request_count;
  idle_secs = now - t.last_activity;
}

-- The loop over the names: one that is gone by now is passed over.
unfoldable pub tunnel_infos : Registry → ℕ → List Text → List TunnelInfo
tunnel_infos r now [] = []
tunnel_infos r now (s ∷ ss) =
    let rest = tunnel_infos r now ss in
    elim (Registry.get r s) [ some t ↦ info_of now t ∷ rest | none ↦ rest ]

unfoldable pub list_tunnels : ServerState → ℕ → Request → Answer
list_tunnels state now req = elim (validate_admin_auth req state.config) [
  | err answer ↦ answer
  | ok _ ↦
      let infos = tunnel_infos state.registry now (Registry.subdomains state.registry) in
      tunnel_list infos (length infos)
]

unfoldable pub delete_tunnel : ServerState → Text → Request → ServerState × Answer
delete_tunnel state subdomain req = elim (validate_admin_auth req state.config) [
  | err answer ↦ (state, answer)
  | ok _ ↦
      if is_some (Registry.get state.registry subdomain)
      then (record state { registry = Registry.deregister state.registry subdomain }, no_content)
      else (state, admin_error 404 (codes "Tunnel '" ++ (subdomain ++ codes "' not found")))
]
