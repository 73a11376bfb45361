-- ===== src/Server/Router/Handling.antt =====
-- What `handle_request` does with the tunnels, and where `redirect_to_https` sends a visitor.
use mathlib.Core.List.{append_assoc}
use loophole.Text.Numbers.{to_string, to_string-no_slash}
use loophole.Base.{
  ℕ, ◌≡◌, ◌≢◌, ◌⊎◌, refl, sym, inl, inr, Bool, false, some, [], ◌∷◌, ◌++◌, arith, Bool-cases,
  Option-cases, eqb, unwrap_or,
}
use loophole.Text.{Text, codes, ◌==◌, before, strip_prefix, contains_char}
use loophole.Text.Laws.{
  eq_iff, before-append, before_free, contains_char-append, contains_char-before,
  strip_prefix-append,
}
use loophole.Server.Tunnel.{Tunnel}
use loophole.Server.Registry
use loophole.Server.Registry.{Registry}
use loophole.Server.Config.Defs.{control_path}
use loophole.Server.Proxy.Defs.{Request, Exchange}
use loophole.Server.Router.Defs.{
  ServerState, text, upgraded, host_of, extract_subdomain, handle_request, answered, https_url,
}
use loophole.Server.Router.Subdomain.{Names, extract_subdomain_iff}

-- The tunnel that a request is for.
pub record IsFor (state : ServerState) (req : Request) (subdomain : Text) (tunnel : Tunnel)
    : Type 0 where
  pub not_control : req.path ≢ control_path
  pub named : Names (host_of req) state.config.server.domain subdomain
  pub registered : Registry.get state.registry subdomain ≡ some tunnel

module _ (state : ServerState) (is_upgrade : Bool) (client_ip : Text) (req : Request)
    (x : Exchange) where
  -- A request that is for no registered tunnel is answered at once, with the upgrade to a web
  -- socket, with 400 or with 404; no byte of it reaches a tunnel, and no tunnel changes.
  pub handle_request-refuses :
      ((subdomain : Text) (tunnel : Tunnel) → ¬ IsFor state req subdomain tunnel)
      → (handle_request state is_upgrade client_ip req x ≡ answered state upgraded)
        ⊎ ((status : ℕ) × (message : Text) × (handle_request state is_upgrade client_ip req x
              ≡ answered state (text status message))
            × ((status ≡ 400) ⊎ (status ≡ 404)))
  unfolding handle_request
  handle_request-refuses none_for = elim (Bool-cases (req.path == control_path)) [
    | inl control ↦ elim (Bool-cases is_upgrade) [
      | inl up ↦ inl (ground arith)
      | inr plain ↦ inr (400, codes "WebSocket upgrade required", ground arith, inl refl)
    ]
    | inr other ↦ elim (Option-cases (extract_subdomain (host_of req) state.config.server.domain)) [
      | inl unknown ↦ inr (404, codes "Unknown subdomain", ground arith, inr refl)
      | inr (s, found) ↦ elim (Option-cases (Registry.get state.registry s)) [
        | inl missing ↦ inr (404, codes "Tunnel not found", ground arith, inr refl)
        | inr (t, registered) ↦ absurd (
            none_for s t (record {
              not_control = λ e. ground (arith, eq_iff req.path control_path);
              named = (extract_subdomain_iff _ _ s).0 found;
              registered = registered;
            }))
      ]
    ]
  ]

-- The host of a URL with the scheme https, up to its path.
abbrev pub url_host : Text → Text
url_host url = before b'/' (unwrap_or (strip_prefix url (codes "https://")) [])

contains_char-before_other :
    (c d : ℕ) (s : Text) → contains_char c s ≡ false → contains_char c (before d s) ≡ false
unfolding contains_char before
contains_char-before_other c d [] h = refl
contains_char-before_other c d (x ∷ s) h = ground (arith, contains_char-before_other c d s)

extract_subdomain-before :
    (g h domain : Text)
    → before b':' g ≡ before b':' h
    → extract_subdomain g domain ≡ extract_subdomain h domain
unfolding extract_subdomain
extract_subdomain-before g h domain e = rw e

url_host-eq :
    (host target : Text)
    → contains_char b'/' host ≡ false
    → url_host (codes "https://" ++ (host ++ b'/' ∷ target)) ≡ host
url_host-eq host target h =
    rw (strip_prefix-append (codes "https://") (host ++ b'/' ∷ target))
      (before-append b'/' host target h)

-- The redirect of a visitor to https leads to the same tunnel, whatever the port, if the host has no
-- slash and the target begins with one.
pub https_url-same_tunnel :
    (host domain target : Text) (https_port : ℕ)
    → contains_char b'/' host ≡ false
    → extract_subdomain (url_host (https_url (before b':' host) https_port (b'/' ∷ target))) domain
      ≡ extract_subdomain host domain
unfolding https_url
https_url-same_tunnel host domain target https_port h =
    let bare : Text = before b':' host in
    let bare_free = contains_char-before b':' host in
    let no_slash = contains_char-before_other b'/' b':' host h in
    let digits : Text = to_string https_port in
    extract_subdomain-before _ host domain (elim (Bool-cases (eqb https_port 443)) [
      | inl default ↦
          rw (default, url_host-eq bare target no_slash) (before_free b':' bare bare_free)
      | inr other ↦
          let named : Text = bare ++ (codes ":" ++ digits) in
          let named_free : contains_char b'/' named ≡ false =
            contains_char-append b'/' bare (codes ":" ++ digits) no_slash
              (unfold contains_char in ground (arith, to_string-no_slash https_port)) in
          let grouped : bare ++ (codes ":" ++ (digits ++ b'/' ∷ target)) ≡ named ++ b'/' ∷ target =
            sym (append_assoc bare (codes ":" ++ digits) (b'/' ∷ target)) in
          rw (other, grouped, url_host-eq named target named_free)
            (before-append b':' bare digits bare_free)
    ])
