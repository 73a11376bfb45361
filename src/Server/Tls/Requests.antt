-- ===== src/Server/Tls/Requests.antt =====
-- server/tls.rs: requests for certificates that run at the same time. `request_cert` looks at the maps
-- and marks the domain as pending in two steps, between which other requests may run; what follows
-- the ACME client's answer is one step.
use loophole.Base.{
  ℕ, ◌+◌, ◌≤◌, ◌≡◌, refl, true, false, ◌||◌, List, [], ◌∷◌, ◌++◌, arith, Result, ok, err,
  if◌then◌else◌, Bool-cases, Result-cases, inl, inr,
}
use loophole.Text.{Text, ◌==◌, mem}
use loophole.Text.Laws.{eq_iff}
use loophole.Map
use loophole.Map.{get-insert}
use loophole.Server.Acme.Client.{Certificate}
use loophole.Server.Tls.Laws.{mem-drop_name}
use loophole.Server.Tls.Defs.{
  Pem, CertManager, add, drop_name, start_request, finish_request, parse_certificate, has_cert,
}

pub data Phase : Type 0 where
  arrived checked ordering : Phase

-- The manager and the requests that have not returned, each with its domain.
pub record World : Type 0 where
  pub manager : CertManager
  pub requests : List (Text × Phase)

abbrev pub mark : CertManager → Text → CertManager
mark m domain = record m { pending = add m.pending domain }

pub data Step (pem : Pem) : World → World → Type 0 where
  arrive :
      (m : CertManager) (rs : List (Text × Phase)) (domain : Text)
      → Step pem
          (record { manager = m; requests = rs })
          (record { manager = m; requests = (domain, arrived) ∷ rs })
  -- The checks pass.
  check :
      (m : CertManager) (rs ss : List (Text × Phase)) (domain : Text)
      → (start_request m domain).1 ≡ true
      → Step pem
          (record { manager = m; requests = rs ++ (domain, arrived) ∷ ss })
          (record { manager = m; requests = rs ++ (domain, checked) ∷ ss })
  -- One of them returns at once.
  decline :
      (m : CertManager) (rs ss : List (Text × Phase)) (domain : Text)
      → (start_request m domain).1 ≡ false
      → Step pem
          (record { manager = m; requests = rs ++ (domain, arrived) ∷ ss })
          (record { manager = m; requests = rs ++ ss })
  mark_pending :
      (m : CertManager) (rs ss : List (Text × Phase)) (domain : Text)
      → Step pem
          (record { manager = m; requests = rs ++ (domain, checked) ∷ ss })
          (record { manager = mark m domain; requests = rs ++ (domain, ordering) ∷ ss })
  finish :
      (m : CertManager) (rs ss : List (Text × Phase)) (domain : Text)
      (result : Result Text Certificate)
      → Step pem
          (record { manager = m; requests = rs ++ (domain, ordering) ∷ ss })
          (record { manager = (finish_request pem m domain result).0; requests = rs ++ ss })

pub data Run (pem : Pem) (w : World) : World → Type 0 where
  here : Run pem w w
  then_step : {u v : World} → Run pem w u → Step pem u v → Run pem w v

-- How many requests for a domain wait on the ACME client.
unfoldable pub orders : Text → List (Text × Phase) → ℕ
orders d [] = 0
orders d ((e, ordering) ∷ rs) = (if e == d then 1 else 0) + orders d rs
orders d ((e, arrived) ∷ rs) = orders d rs
orders d ((e, checked) ∷ rs) = orders d rs

orders-append :
    (d : Text) (rs ss : List (Text × Phase)) → orders d (rs ++ ss) ≡ orders d rs + orders d ss
unfolding orders
orders-append d [] ss = omega arith
orders-append d ((e, arrived) ∷ rs) ss = orders-append d rs ss
orders-append d ((e, checked) ∷ rs) ss = orders-append d rs ss
orders-append d ((e, ordering) ∷ rs) ss = omega (arith, orders-append d rs ss)

mem-add : (ds : List Text) (d e : Text) → mem (add ds d) e ≡ (d == e || mem ds e)
unfolding mem
mem-add ds d e = ground (arith, eq_iff d e)

finish_request-pending :
    (pem : Pem) (m : CertManager) (d : Text) (result : Result Text Certificate)
    → (finish_request pem m d result).0.pending ≡ drop_name m.pending d
unfolding finish_request
finish_request-pending pem m d (err e) = refl
finish_request-pending pem m d (ok cert) = ground arith

finish_request-has_cert :
    (pem : Pem) (m : CertManager) (d e : Text) (result : Result Text Certificate)
    → has_cert m e ≡ true
    → has_cert (finish_request pem m d result).0 e ≡ true
unfolding finish_request has_cert Map.contains_key
finish_request-has_cert pem m d e (err x) h = h
finish_request-has_cert pem m d e (ok cert) h =
    elim (Result-cases (parse_certificate pem cert.cert_pem cert.key_pem)) [
      | inl (key, parsed) ↦ ground (arith, get-insert m.certs d e key)
      | inr (x, failed) ↦ ground arith
    ]

-- A domain is marked only while a request for it waits on the ACME client.
abbrev pub IsMarked : World → Type 0
IsMarked w = (d : Text) → mem w.manager.pending d ≡ true → 1 ≤ orders d w.requests

-- The certificates of one manager are there in another, for the same names.
abbrev pub Keeps : CertManager → CertManager → Type 0
Keeps m n = (d : Text) → has_cert m d ≡ true → has_cert n d ≡ true

Step-IsMarked : (pem : Pem) {w v : World} → Step pem w v → IsMarked w → IsMarked v
unfolding orders
Step-IsMarked pem (arrive m rs domain) h = λ d p. h d p
Step-IsMarked pem (check m rs ss domain passed) h = λ d p. omega (
  arith,
  h d p,
  orders-append d rs ((domain, arrived) ∷ ss),
  orders-append d rs ((domain, checked) ∷ ss),
)
Step-IsMarked pem (decline m rs ss domain refused) h =
    λ d p. omega (arith, h d p, orders-append d rs ((domain, arrived) ∷ ss), orders-append d rs ss)
Step-IsMarked pem (mark_pending m rs ss domain) h = λ d p. elim (Bool-cases (domain == d)) [
  | inl same ↦ ground (arith, orders-append d rs ((domain, ordering) ∷ ss))
  | inr other ↦ ground (
    arith,
    mem-add m.pending domain d,
    h d,
    orders-append d rs ((domain, checked) ∷ ss),
    orders-append d rs ((domain, ordering) ∷ ss),
  )
]
Step-IsMarked pem (finish m rs ss domain result) h = λ d p. ground (
  arith,
  finish_request-pending pem m domain result,
  mem-drop_name m.pending domain d,
  h d,
  orders-append d rs ((domain, ordering) ∷ ss),
  orders-append d rs ss,
)

Step-Keeps : (pem : Pem) {w v : World} → Step pem w v → Keeps w.manager v.manager
unfolding has_cert
Step-Keeps pem (arrive m rs domain) = λ d h. h
Step-Keeps pem (check m rs ss domain passed) = λ d h. h
Step-Keeps pem (decline m rs ss domain refused) = λ d h. h
Step-Keeps pem (mark_pending m rs ss domain) = λ d h. h
Step-Keeps pem (finish m rs ss domain result) =
    λ d h. finish_request-has_cert pem m domain d result h

-- In every run of requests at the same time, from a manager with no mark and no request under way, a
-- domain is marked as pending only while a request for it waits on the ACME client, and a name that
-- has a certificate keeps having one.
pub Run-IsMarked :
    (pem : Pem) {w v : World}
    → ((d : Text) → mem w.manager.pending d ≡ false)
    → Run pem w v
    → IsMarked v × Keeps w.manager v.manager
Run-IsMarked pem unmarked here = (λ d p. absurd (cc (unmarked d, p)), λ d h. h)
Run-IsMarked pem unmarked (then_step run step) =
    let (marked, kept) = Run-IsMarked pem unmarked run in
    (Step-IsMarked pem step marked, λ d h. Step-Keeps pem step d (kept d h))
