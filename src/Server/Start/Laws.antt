-- ===== src/Server/Start/Laws.antt =====
-- What `run` starts: the first world of the step relation, its routes, and the certificate of the base
-- domain.
use loophole.Base.{
  ◌≡◌, refl, true, false, Option, some, List, ◌++◌, arith, ok, if◌then◌else◌, is_some, Bool-cases,
  Option-cases, inl, inr,
}
use loophole.Text.{Text, codes, mem}
use loophole.Text.Laws.{ends_with-eq-is_some, strip_suffix-append}
use loophole.Map
use loophole.Console.{Console}
use loophole.Server.Config.Defs.{Config}
use loophole.Server.Acme.Store
use loophole.Server.Acme.Client.{Order, Certificate, request_certificate}
use loophole.Server.Tls.Defs as Tls
use loophole.Server.Tls.Defs.{
  Pem, DirEntry, CertManager, CertifiedKey, has_cert, request_cert, resolve, parse_certificate,
  start_request, await_certificate, finish_request,
}
use loophole.Server.Tls.Laws.{request_cert-ok}
use loophole.Server.Router.Routes.{handle_request, redirect_to_https}
use loophole.Server.Sessions.Defs as Sessions
use loophole.Server.Start.Defs.{Started, start, request_base_cert}

-- What a configuration is turned into: the state is the first world of the server's runs, which have
-- an empty registry; certificates, the HTTPS server and the redirect are there exactly if HTTPS is
-- configured.
pub record Serves {Account : Type 0} (config : Config) (s : Started Account) : Type 0 where
  pub certs : Option CertManager
  pub state : s.state ≡ (Sessions.start config certs).server
  pub secured : is_some certs ≡ is_some config.https
  pub version : config.version ≡ 1
  pub idle_timeout : s.idle_timeout ≡ config.limits.idle_tunnel_timeout_secs
  pub listens : s.http.0 ≡ config.server.http_port
  pub listens_https : is_some s.https ≡ is_some config.https
  pub fallback : s.http.1.1 ≡ (if is_some config.https then redirect_to_https else handle_request)

module _ (pem : Pem) (entries : List DirEntry) (base : Text) (order : Order) where
  -- The manager at the start.
  abbrev fresh : CertManager
  fresh = Tls.new pem entries true Store.new base

  -- A certificate that the ACME server issues and that can be read is stored.
  request_cert-issues :
      (cert : Certificate) (key : CertifiedKey)
      → has_cert fresh base ≡ false
      → (request_certificate Store.new order).1 ≡ some (ok cert)
      → parse_certificate pem cert.cert_pem cert.key_pem ≡ ok key
      → (request_cert pem fresh base order).1 ≡ some (ok tt)
  unfolding request_cert start_request await_certificate finish_request Tls.new has_cert mem
  request_cert-issues cert key missing issued parsed = ground arith

  has_cert-resolve :
      (m : CertManager)
      → m.base_domain ≡ base
      → has_cert m base ≡ true
      → (is_some (resolve m (some base)) ≡ true)
        × ((s : Text) → is_some (resolve m (some (s ++ (codes "." ++ base)))) ≡ true)
  unfolding has_cert resolve Map.contains_key
  has_cert-resolve m same h = (
    ground arith,
    λ s. elim (Option-cases (Map.get m.certs base)) [
      | inl missing ↦ absurd (ground arith)
      | inr (key, found) ↦ ground (
        arith,
        ends_with-eq-is_some (s ++ (codes "." ++ base)) (codes "." ++ base),
        strip_suffix-append s (codes "." ++ base),
      )
    ],
  )

  base_domain-request_cert : (request_cert pem fresh base order).0.base_domain ≡ base
  unfolding request_cert start_request await_certificate finish_request Tls.new
  base_domain-request_cert = ground arith

  -- When the task of the base domain has run and the ACME server issues, for a request, a certificate
  -- that can be read, the base domain and every name below it have a certificate to answer with.
  pub request_base_cert-resolves :
      (cert : Certificate) (key : CertifiedKey)
      → (request_certificate Store.new order).1 ≡ some (ok cert)
      → parse_certificate pem cert.cert_pem cert.key_pem ≡ ok key
      → let after = request_base_cert pem fresh base order in
        (after.1 ≡ some (ok tt))
        × (is_some (resolve after.0 (some base)) ≡ true)
        × ((s : Text) → is_some (resolve after.0 (some (s ++ (codes "." ++ base)))) ≡ true)
  unfolding request_base_cert
  request_base_cert-resolves cert key issued parsed = elim (Bool-cases (has_cert fresh base)) [
    | inl there ↦
        let (exact, below) = has_cert-resolve fresh (unfold Tls.new in refl) there in
        rw (there, request_base_cert) (refl, exact, below)
    | inr missing ↦
        let done = request_cert-issues cert key missing issued parsed in
        let stored =
          request_cert-ok pem fresh base order (unfold Tls.new Tls.is_pending mem in refl)
            (unfold Tls.new in refl) done in
        let (exact, below) =
          has_cert-resolve (request_cert pem fresh base order).0 base_domain-request_cert stored in
        rw (missing, request_base_cert) (done, exact, below)
  ]
