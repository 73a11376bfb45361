-- ===== src/Server/Tls/Laws.antt =====
-- Which certificate a name gets, and what a request for a certificate changes.
use loophole.Base.{
  ◌≡◌, ◌≢◌, refl, ◌⊎◌, ◌↔◌, true, false, none, some, List, [], ◌∷◌, ◌++◌, arith, Result, ok, err,
  if◌then◌else◌, Option-cases, inl, inr, Bool-cases, Result-cases,
}
use loophole.Text.{Text, codes, ◌==◌, mem, ends_with}
use loophole.Text.Laws.{eq_iff, ends_with_iff}
use loophole.Map
use loophole.Map.{map_laws}
use loophole.Server.Acme.Client.{Certificate, Order, request_certificate}
use loophole.Server.Tls.Defs.{
  Pem, CertifiedKey, CertManager, drop_name, get_cert, has_cert, is_pending, start_request,
  finish_request, await_certificate, request_cert, resolve, parse_certificate,
}

-- The certificate that is meant for a name: its own, else for a name under the base domain the
-- wildcard's, else the base domain's.
pub data IsFor (m : CertManager) (name : Text) (c : CertifiedKey) : Type 0 where
  exact : Map.get m.certs name ≡ some c → IsFor m name c
  wildcard :
      (r : Text)
      → name ≡ r ++ (codes "." ++ m.base_domain)
      → Map.get m.certs name ≡ none
      → Map.get m.certs (codes "*." ++ m.base_domain) ≡ some c
      → IsFor m name c
  base :
      (r : Text)
      → name ≡ r ++ (codes "." ++ m.base_domain)
      → Map.get m.certs name ≡ none
      → Map.get m.certs (codes "*." ++ m.base_domain) ≡ none
      → Map.get m.certs m.base_domain ≡ some c
      → IsFor m name c

-- A client that names a server gets a certificate exactly if it is the one meant for that name.
pub resolve_iff :
    (m : CertManager) (name : Text) (c : CertifiedKey)
    → (resolve m (some name) ≡ some c) ↔ IsFor m name c
unfolding resolve
resolve_iff m name c = (to, from)
  where
    suffix : Text
    suffix = codes "." ++ m.base_domain

    below :
        Map.get m.certs name ≡ none
        → resolve m (some name) ≡ some c
        → ends_with name suffix ≡ true
        → IsFor m name c
    below missing h under =
        let (r, e) = (ends_with_iff name suffix).0 under in
        elim (Option-cases (Map.get m.certs (codes "*." ++ m.base_domain))) [
          | inl no_wildcard ↦ base r e missing no_wildcard (ground arith)
          | inr (d, found) ↦ wildcard r e missing (ground arith)
        ]

    to : resolve m (some name) ≡ some c → IsFor m name c
    to h = elim (Option-cases (Map.get m.certs name)) [
      | inr (d, found) ↦ exact (ground arith)
      | inl missing ↦ elim (Bool-cases (ends_with name suffix)) [
        | inl under ↦ below missing h under
        | inr other ↦ absurd (ground arith)
      ]
    ]

    from : IsFor m name c → resolve m (some name) ≡ some c
    from (exact e) = ground arith
    from (wildcard r e missing found) = ground (arith, (ends_with_iff name suffix).1 (r, e))
    from (base r e missing no_wildcard found) = ground (arith, (ends_with_iff name suffix).1 (r, e))

pub mem-drop_name :
    (ds : List Text) (d e : Text) → mem (drop_name ds d) e ≡ (if d == e then false else mem ds e)
unfolding mem drop_name
mem-drop_name [] d e = ground arith
mem-drop_name (c ∷ ds) d e =
    ground (arith, mem-drop_name ds d e, eq_iff c d, eq_iff d e, eq_iff c e)

module _ (pem : Pem) (m : CertManager) (domain : Text) where
  finish_request_frame :
      (result : Result Text Certificate) (e : Text)
      → (is_pending (finish_request pem m domain result).0 e
          ≡ (if domain == e then false else is_pending m e))
        × (domain ≢ e → get_cert (finish_request pem m domain result).0 e ≡ get_cert m e)
  unfolding finish_request is_pending get_cert
  finish_request_frame (err why) e = (mem-drop_name m.pending domain e, λ n. refl)
  finish_request_frame (ok cert) e =
      elim (Result-cases (parse_certificate pem cert.cert_pem cert.key_pem)) [
        | inl (key, good) ↦
            (ground (arith, mem-drop_name m.pending domain e), λ n. grind (arith, map_laws, eq_iff))
        | inr (why, bad) ↦ (ground (arith, mem-drop_name m.pending domain e), λ n. ground arith)
      ]

  finish_request-ok :
      (result : Result Text Certificate)
      → (finish_request pem m domain result).1 ≡ ok tt
      → has_cert (finish_request pem m domain result).0 domain ≡ true
  unfolding finish_request has_cert
  finish_request-ok (err why) h = cc
  finish_request-ok (ok cert) h =
      elim (Result-cases (parse_certificate pem cert.cert_pem cert.key_pem)) [
        | inl (key, good) ↦ grind (arith, map_laws)
        | inr (why, bad) ↦ absurd (ground arith)
      ]

module _ (pem : Pem) (m : CertManager) (domain : Text) (order : Order) where
  waiting : CertManager
  waiting = record m { challenge_store = (request_certificate m.challenge_store order).0 }

  await_certificate_frame :
      (r : Result Text (Unit {0})) (e : Text)
      → (await_certificate pem m domain order).1 ≡ some r
      → (is_pending (await_certificate pem m domain order).0 e
          ≡ (if domain == e then false else is_pending m e))
        × (domain ≢ e → get_cert (await_certificate pem m domain order).0 e ≡ get_cert m e)
  unfolding await_certificate waiting get_cert is_pending
  await_certificate_frame r e h =
      elim (Option-cases (request_certificate m.challenge_store order).1) [
        | inl stuck ↦ absurd (ground arith)
        | inr (result, answer) ↦
            rw (answer, await_certificate) (finish_request_frame pem waiting domain result e)
      ]

  await_certificate-ok :
      (await_certificate pem m domain order).1 ≡ some (ok tt)
      → has_cert (await_certificate pem m domain order).0 domain ≡ true
  unfolding await_certificate waiting
  await_certificate-ok h = elim (Option-cases (request_certificate m.challenge_store order).1) [
    | inl stuck ↦ absurd (ground arith)
    | inr (result, answer) ↦
        rw (answer, await_certificate) (finish_request-ok pem waiting domain result (ground arith))
  ]

module _ (pem : Pem) (m : CertManager) (domain : Text) (order : Order) where
  abbrev marked : CertManager
  marked = record m { pending = domain ∷ m.pending }

  -- Once a request has ended, the pending domains are those of before, and no other domain's
  -- certificate has changed.
  pub request_cert_frame :
      (r : Result Text (Unit {0})) (e : Text)
      → (request_cert pem m domain order).1 ≡ some r
      → (is_pending (request_cert pem m domain order).0 e ≡ is_pending m e)
        × ((domain ≡ e) ⊎ (get_cert (request_cert pem m domain order).0 e ≡ get_cert m e))
  unfolding request_cert is_pending get_cert mem
  request_cert_frame r e h = elim (Bool-cases (start_request m domain).1) [
    | inr at_once ↦ (ground arith, inr (ground arith))
    | inl started ↦
        let same : (start_request m domain).0 ≡ marked = ground arith in
        let free : mem m.pending domain ≡ false = ground arith in
        let (freed, kept) = await_certificate_frame pem marked domain order r e (ground arith) in
        (
          ground (arith, freed, eq_iff domain e),
          elim (Bool-cases (domain == e)) [
            | inl here ↦ inl ((eq_iff domain e).0 here)
            | inr other ↦ inr (ground (arith, kept (λ x. absurd (ground (arith, eq_iff domain e)))))
          ],
        )
  ]

  -- A request that reports success has installed the certificate, unless another request for the
  -- domain was pending or there is no ACME client.
  pub request_cert-ok :
      is_pending m domain ≡ false
      → m.has_acme_client ≡ true
      → (request_cert pem m domain order).1 ≡ some (ok tt)
      → has_cert (request_cert pem m domain order).0 domain ≡ true
  unfolding request_cert is_pending has_cert
  request_cert-ok free client h = ground (arith, await_certificate-ok pem marked domain order)

  -- While another request for the domain is pending, or without an ACME client, a request reports
  -- success at once and changes nothing: no certificate need be there.
  pub request_cert-at_once :
      (is_pending m domain ≡ true) ⊎ (m.has_acme_client ≡ false)
      → request_cert pem m domain order ≡ (m, some (ok tt))
  unfolding request_cert is_pending
  request_cert-at_once busy = ground arith
