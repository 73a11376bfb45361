-- ===== src/Server/Tls/Defs.antt =====
-- `CertManager`. What the `rustls_pemfile` and `rustls` crates read from PEM texts, and what the file
-- system holds, are arguments. A clone of an `Arc` is the value.
use loophole.Base.{
  Bool, true, false, Option, none, some, List, [], ◌∷◌, ◌++◌, Result, ok, err, if◌then◌else◌,
  is_empty, not,
}
use loophole.Base.Results.{◌>>=◌}
use loophole.Text.{Text, codes, ends_with, mem, ◌==◌}
use loophole.Map
use loophole.Map.{Map}
use loophole.Server.Acme.Client.{Certificate, Order, request_certificate}
use loophole.Server.Acme.Store.{ChallengeStore}

-- Certificates in DER and the key that signs for them.
pub record CertifiedKey : Type 0 where
  pub certs : List Text
  pub signing_key : Text

-- The readers of PEM: the certificates of a text, its private key (an error, nothing, or a key), and
-- the signing key of a private key.
pub record Pem : Type 0 where
  pub certs : Text → List Text
  pub private_key : Text → Result Text (Option Text)
  pub any_supported_type : Text → Option Text

-- The set of pending domains.
abbrev pub add : List Text → Text → List Text
add ds d = if mem ds d then ds else d ∷ ds

unfoldable pub drop_name : List Text → Text → List Text
drop_name [] d = []
drop_name (c ∷ ds) d = let rest = drop_name ds d in if c == d then rest else c ∷ rest

pub record CertManager : Type 0 where
  pub certs : Map CertifiedKey
  pub pending : List Text
  pub has_acme_client : Bool
  pub challenge_store : ChallengeStore
  pub base_domain : Text

abbrev key_of : Result Text (Option Text) → Result Text Text
key_of (err e) = err (codes "Failed to parse private key")
key_of (ok none) = err (codes "No private key found in PEM")
key_of (ok (some key)) = ok key

abbrev signing_of : Option Text → Result Text Text
signing_of none = err (codes "Failed to create signing key")
signing_of (some key) = ok key

unfoldable pub parse_certificate : Pem → Text → Text → Result Text CertifiedKey
parse_certificate pem cert_pem key_pem =
    if is_empty (pem.certs cert_pem) then err (codes "No certificates found in PEM") else (do
      key ← key_of (pem.private_key key_pem)
      signing_key ← signing_of (pem.any_supported_type key)
      ok (record { certs = pem.certs cert_pem; signing_key = signing_key }))

-- An entry of the directory of certificates: its name, if it is a directory with a readable name,
-- and the two files, if they are there and can be read.
pub record DirEntry : Type 0 where
  pub name : Option Text
  pub cert_pem : Option Text
  pub key_pem : Option Text

-- The loop of `load_existing_certs`: entries that are no directories, lack a file or do not parse
-- are passed over.
unfoldable pub load_existing_certs : Pem → Map CertifiedKey → List DirEntry → Map CertifiedKey
load_existing_certs pem certs [] = certs
load_existing_certs pem certs (e ∷ es) =
    load_existing_certs pem
      (elim e.name [
        | none ↦ certs
        | some domain ↦ elim e.cert_pem [
          | none ↦ certs
          | some cert_pem ↦ elim e.key_pem [
            | none ↦ certs
            | some key_pem ↦ elim (parse_certificate pem cert_pem key_pem) [
              | ok key ↦ Map.insert certs domain key
              | err _ ↦ certs
            ]
          ]
        ]
      ])
      es

unfoldable pub new : Pem → List DirEntry → Bool → ChallengeStore → Text → CertManager
new pem entries has_acme_client challenge_store base_domain = record {
  certs = load_existing_certs pem [] entries;
  pending = [];
  has_acme_client = has_acme_client;
  challenge_store = challenge_store;
  base_domain = base_domain;
}

unfoldable pub get_cert : CertManager → Text → Option CertifiedKey
get_cert m domain = Map.get m.certs domain

unfoldable pub has_cert : CertManager → Text → Bool
unfolding Map.contains_key
has_cert m domain = Map.contains_key m.certs domain

unfoldable pub add_cert : CertManager → Text → CertifiedKey → CertManager
add_cert m domain key = record m { certs = Map.insert m.certs domain key }

unfoldable pub is_pending : CertManager → Text → Bool
is_pending m domain = mem m.pending domain

-- `request_cert` up to its first wait: a result at once, or the manager with the domain marked.
unfoldable pub start_request : CertManager → Text → CertManager × Bool
start_request m domain =
    if mem m.pending domain
    then (m, false)
    else if Map.contains_key m.certs domain
    then (m, false)
    else if not m.has_acme_client
    then (m, false)
    else (record m { pending = add m.pending domain }, true)

-- What follows the ACME client's answer.
unfoldable pub finish_request :
    Pem → CertManager → Text → Result Text Certificate → CertManager × Result Text (Unit {0})
finish_request pem m domain result =
    let cleared : CertManager = record m { pending = drop_name m.pending domain } in
    elim result [
      | err e ↦ (cleared, err e)
      | ok cert ↦ elim (parse_certificate pem cert.cert_pem cert.key_pem) [
        | err e ↦ (cleared, err e)
        | ok key ↦ (record cleared { certs = Map.insert m.certs domain key }, ok tt)
      ]
    ]

-- The wait for the ACME client, and what follows it; `none` where its server stops answering.
unfoldable pub await_certificate :
    Pem → CertManager → Text → Order → CertManager × Option (Result Text (Unit {0}))
await_certificate pem m domain order =
    let (store, answer) = request_certificate m.challenge_store order in
    let waiting : CertManager = record m { challenge_store = store } in
    elim answer [
      | none ↦ (waiting, none)
      | some result ↦ (
        (finish_request pem waiting domain result).0,
        some (finish_request pem waiting domain result).1,
      )
    ]

-- The whole call, where nothing else runs while it waits.
unfoldable pub request_cert :
    Pem → CertManager → Text → Order → CertManager × Option (Result Text (Unit {0}))
unfolding start_request
request_cert pem m domain order =
    let (marked, started) = start_request m domain in
    if started then await_certificate pem marked domain order else (m, some (ok tt))

-- `ResolvesServerCert::resolve`, from the name that the client asks for.
unfoldable pub resolve : CertManager → Option Text → Option CertifiedKey
resolve m none = none
resolve m (some server_name) = elim (Map.get m.certs server_name) [
  | some cert ↦ some cert
  | none ↦
      if ends_with server_name (codes "." ++ m.base_domain)
      then elim (Map.get m.certs (codes "*." ++ m.base_domain)) [
        | some cert ↦ some cert
        | none ↦ Map.get m.certs m.base_domain
      ]
      else none
]
