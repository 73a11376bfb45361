-- ===== src/Server/Handler/Registration.antt =====
-- Who is registered, what a client is told, and where the URL leads that it is told.
use mathlib.Core.List.{append-nil}
use loophole.Base.{
  ◌≡◌, ◌⊎◌, refl, inl, inr, Bool, true, false, none, some, List, [], ◌∷◌, ◌++◌, arith, Bool-cases,
  Option-cases, Result-cases, is_some, eqb, unwrap_or,
}
use loophole.Text.{Text, codes, before, strip_prefix, contains_char}
use loophole.Text.Numbers.{to_string, to_string-no_slash}
use loophole.Text.Laws.{before_free, contains_char-append, strip_prefix-append}
use loophole.Socket.{text, message, failed, ended, Polled, binary, close, ping, pong}
use loophole.Proto.{
  ClientMessage, register, disconnect, ErrorCode, ServerMessage, registered, error,
  certificate_status, Codec, invalid_token, subdomain_invalid, internal_error,
}
use loophole.Proto
use loophole.Server.Registry
use loophole.Server.Registry.{RegistryError}
use loophole.Server.Registry.Validation.{IsLabel, validate_subdomain_iff}
use loophole.Server.Config.Defs.{Config, validate_token}
use loophole.Server.Acme.Client.{Order}
use loophole.Server.Tls.Defs.{Pem}
use loophole.Server.Router.Defs.{ServerState, extract_subdomain}
use loophole.Server.Router.Subdomain.{extract_subdomain-label, label-free, IsPortSuffix}
use loophole.Server.Handler.Defs.{
  wait_for_registration, full_domain, tunnel_url, welcome, negotiate,
}

-- The first message registers a label with a token of the configuration.
pub record Registers (codec : Codec) (config : Config) (first : Polled) (token subdomain : Text)
    : Type 0 where
  pub json : Text
  pub came : first ≡ some (message (text json))
  pub parsed : codec.client_from_json json ≡ some (register token subdomain)
  pub known : is_some (validate_token config token) ≡ true
  pub label : IsLabel subdomain

-- An error message, or nothing.
abbrev pub IsRefusal : List ServerMessage → Type 0
IsRefusal ms = (ms ≡ []) ⊎ ((code : ErrorCode) × (m : Text) × (ms ≡ error code m ∷ []))

wait_for_registration-cases :
    (codec : Codec) (first : Polled)
    → ((json token subdomain : Text) × (first ≡ some (message (text json)))
        × (codec.client_from_json json ≡ some (register token subdomain))
        × (wait_for_registration codec first ≡ ([], some (token, subdomain))))
      ⊎ (((wait_for_registration codec first).1 ≡ none)
          × IsRefusal (wait_for_registration codec first).0)
unfolding wait_for_registration
wait_for_registration-cases codec none = inr (refl, inr (_, _, refl))
wait_for_registration-cases codec (some ended) = inr (refl, inl refl)
wait_for_registration-cases codec (some (failed e)) = inr (refl, inl refl)
wait_for_registration-cases codec (some (message (binary b))) = inr (refl, inr (_, _, refl))
wait_for_registration-cases codec (some (message close)) = inr (refl, inr (_, _, refl))
wait_for_registration-cases codec (some (message ping)) = inr (refl, inr (_, _, refl))
wait_for_registration-cases codec (some (message pong)) = inr (refl, inr (_, _, refl))
wait_for_registration-cases codec (some (message (text t))) =
    elim (Option-cases (codec.client_from_json t)) [
      | inl bad ↦
          inr (ground arith, inr (internal_error, codes "Invalid message format", ground arith))
      | inr (register token subdomain, e) ↦ inl (t, token, subdomain, refl, e, ground arith)
      | inr (Proto.ping, e) ↦
          inr (ground arith, inr (internal_error, codes "Expected Register message", ground arith))
      | inr (disconnect, e) ↦
          inr (ground arith, inr (internal_error, codes "Expected Register message", ground arith))
    ]

module _ (codec : Codec) (pem : Pem) (state : ServerState) (first : Polled) (delivered : Bool)
    (order : Order) where
  -- A connection whose first message registers a label with a known token is welcomed.
  pub negotiate-welcomes :
      (token subdomain : Text)
      → Registers codec state.config first token subdomain
      → negotiate codec pem state first delivered order
        ≡ welcome pem state delivered order token subdomain
  unfolding negotiate wait_for_registration
  negotiate-welcomes token subdomain v =
      rw v.came (ground (arith, v.parsed, v.known, (validate_subdomain_iff subdomain).1 v.label))

  -- Every other connection ends, after at most one error message, and changes no certificate.
  pub negotiate-refuses :
      ((token subdomain : Text) → ¬ Registers codec state.config first token subdomain)
      → ((negotiate codec pem state first delivered order).outcome ≡ none)
        × ((negotiate codec pem state first delivered order).cert_manager ≡ state.cert_manager)
        × IsRefusal (negotiate codec pem state first delivered order).sent
  unfolding negotiate
  negotiate-refuses other = elim (wait_for_registration-cases codec first) [
    | inr (nothing, refusal) ↦ (ground arith, ground arith, ground arith)
    | inl (json, token, subdomain, came, parsed, e) ↦
        elim (Bool-cases (is_some (validate_token state.config token))) [
          | inr unknown ↦
              (ground arith, ground arith, inr (invalid_token, codes "Invalid token", ground arith))
          | inl known ↦ elim (Result-cases (Registry.validate_subdomain subdomain)) [
            | inr (why, bad) ↦ (
              ground arith,
              ground arith,
              inr (subdomain_invalid, Registry.to_string why, ground arith),
            )
            | inl (u, good) ↦ absurd (
                other token subdomain (record {
                  json = json;
                  came = came;
                  parsed = parsed;
                  known = known;
                  label = (validate_subdomain_iff subdomain).0 good;
                }))
          ]
        ]
  ]

-- The host of a URL of either scheme, up to its path.
abbrev pub host_in_url : Text → Text
host_in_url url = before b'/' (
    unwrap_or (strip_prefix url (codes "https://"))
      (unwrap_or (strip_prefix url (codes "http://")) []))

host_in_url-https :
    (h : Text) → contains_char b'/' h ≡ false → host_in_url (codes "https://" ++ h) ≡ h
host_in_url-https h free = rw (strip_prefix-append (codes "https://") h) (before_free b'/' h free)

host_in_url-http :
    (h : Text) → contains_char b'/' h ≡ false → host_in_url (codes "http://" ++ h) ≡ h
unfolding strip_prefix
host_in_url-http h free = before_free b'/' h free

-- A label, a domain and a port, as a host.
module _ (s domain port : Text) (v : IsLabel s) (no_colon : contains_char b':' domain ≡ false)
    (no_slash : contains_char b'/' domain ≡ false) (is_port : IsPortSuffix port)
    (plain : contains_char b'/' port ≡ false) where
  whole : Text
  whole = (s ++ (codes "." ++ domain)) ++ port

  whole-free : contains_char b'/' whole ≡ false
  unfolding whole
  whole-free =
      let (_, _, free) = label-free s v.chars in
      let below : contains_char b'/' (codes "." ++ domain) ≡ false =
        unfold contains_char in ground arith in
      contains_char-append b'/' (s ++ (codes "." ++ domain)) port
        (contains_char-append b'/' s (codes "." ++ domain) free below) plain

  url-leads :
      extract_subdomain (host_in_url (codes "https://" ++ whole)) domain ≡ some s
      × extract_subdomain (host_in_url (codes "http://" ++ whole)) domain ≡ some s
  unfolding whole
  url-leads =
      let found = extract_subdomain-label s domain port v no_colon is_port in
      (rw (host_in_url-https whole whole-free) found, rw (host_in_url-http whole whole-free) found)

-- The URL that a client is told leads back to its own subdomain, whatever the ports and the scheme,
-- for a domain without colons and slashes.
pub tunnel_url-extract_subdomain :
    (config : Config) (subdomain : Text)
    → IsLabel subdomain
    → contains_char b':' config.server.domain ≡ false
    → contains_char b'/' config.server.domain ≡ false
    → extract_subdomain (host_in_url (tunnel_url config subdomain)) config.server.domain
      ≡ some subdomain
unfolding tunnel_url whole
tunnel_url-extract_subdomain config s v no_colon no_slash =
    let domain : Text = config.server.domain in
    let bare =
      url-leads s domain [] v no_colon no_slash (inl refl) (unfold contains_char in refl) in
    let ends = append-nil (full_domain config s) in
    let secure_port : Text = to_string config.server.https_port in
    let plain_port : Text = to_string config.server.http_port in
    let secure =
      url-leads s domain (codes ":" ++ secure_port) v no_colon no_slash (inr (secure_port, refl))
        (unfold contains_char in ground (arith, to_string-no_slash config.server.https_port)) in
    let plain =
      url-leads s domain (codes ":" ++ plain_port) v no_colon no_slash (inr (plain_port, refl))
        (unfold contains_char in ground (arith, to_string-no_slash config.server.http_port)) in
    elim (Bool-cases (is_some config.https)) [
      | inl https ↦ elim (Bool-cases (eqb config.server.https_port 443)) [
        | inl default ↦ rw (https, default, ← ends) bare.0
        | inr other ↦ rw (https, other) secure.0
      ]
      | inr http ↦ elim (Bool-cases (eqb config.server.http_port 80)) [
        | inl default ↦ rw (http, default, ← ends) bare.1
        | inr other ↦ rw (http, other) plain.1
      ]
    ]
