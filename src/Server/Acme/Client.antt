-- ===== src/Server/Acme/Client.antt =====
-- `AcmeClient::request_certificate` and its two polling loops. The ACME server is an argument: what
-- each of its calls answers. The waits of two seconds between polls are not modelled.
use loophole.Base.{
  ℕ, ◌+◌, Bool, Option, none, some, List, [], ◌∷◌, ltb, not, Result, ok, err, if◌then◌else◌,
}
use loophole.Text.{Text, codes}
use loophole.Server.Acme.Store.{ChallengeStore, set, remove}

pub data OrderStatus : Type 0 where
  pending ready processing valid invalid : OrderStatus

pub record Certificate : Type 0 where
  pub cert_pem : Text
  pub key_pem : Text

-- A poll of the order: `none` where the refresh fails.
abbrev pub Poll : Type 0
Poll = Option OrderStatus

-- `none` where the polls run out before the loop ends.
unfoldable pub wait_for_order_ready : ℕ → List Poll → Option (Result Text (Unit {0}))
wait_for_order_ready attempts [] = none
wait_for_order_ready attempts (none ∷ ps) = some (err (codes "Failed to refresh order"))
wait_for_order_ready attempts (some ready ∷ ps) = some (ok tt)
wait_for_order_ready attempts (some valid ∷ ps) = some (ok tt)
wait_for_order_ready attempts (some invalid ∷ ps) = some (err (codes "Order became invalid"))
wait_for_order_ready attempts (some pending ∷ ps) =
    let more = wait_for_order_ready (attempts + 1) ps in
    if ltb 30 (attempts + 1)
    then some (err (codes "Timeout waiting for order to be ready"))
    else more
wait_for_order_ready attempts (some processing ∷ ps) =
    let more = wait_for_order_ready (attempts + 1) ps in
    if ltb 30 (attempts + 1)
    then some (err (codes "Timeout waiting for order to be ready"))
    else more

-- What the server gives for a valid order: an error, nothing, or the chain.
pub data Download : Type 0 where
  download_failed nothing : Download
  chain : Text → Download

abbrev downloaded : Download → Result Text Text
downloaded download_failed = err (codes "Failed to get certificate")
downloaded nothing = err (codes "No certificate returned")
downloaded (chain pem) = ok pem

unfoldable pub wait_for_certificate : ℕ → Download → List Poll → Option (Result Text Text)
wait_for_certificate attempts d [] = none
wait_for_certificate attempts d (none ∷ ps) = some (err (codes "Failed to refresh order"))
wait_for_certificate attempts d (some valid ∷ ps) = some (downloaded d)
wait_for_certificate attempts d (some invalid ∷ ps) = some (err (codes "Order became invalid"))
wait_for_certificate attempts d (some _ ∷ ps) =
    let more = wait_for_certificate (attempts + 1) d ps in
    if ltb 30 (attempts + 1) then some (err (codes "Timeout waiting for certificate")) else more

pub data ChallengeType : Type 0 where
  http01 dns01 tls_alpn01 : ChallengeType

pub data AuthorizationStatus : Type 0 where
  auth_pending auth_valid auth_other : AuthorizationStatus

-- An authorization with its challenges (type and token), whether the server takes the notice that
-- the challenge is ready, and the polls that follow.
pub record Authorization : Type 0 where
  pub status : AuthorizationStatus
  pub challenges : List (ChallengeType × Text)
  pub notice_taken : Bool
  pub polls : List Poll

unfoldable pub find_http01 : List (ChallengeType × Text) → Option Text
find_http01 [] = none
find_http01 ((http01, token) ∷ cs) = some token
find_http01 ((_, token) ∷ cs) = find_http01 cs

-- One order.
pub record Order : Type 0 where
  pub created : Bool
  pub authorizations : Option (List Authorization)
  pub key_authorization : Text → Text
  pub csr_made : Bool
  pub key_pem : Text
  pub finalized : Bool
  pub download : Download
  pub polls : List Poll
  pub saved : Bool

-- The store after a step, and its result; `none` where the server stops answering.
abbrev pub Step : Type 0 → Type 0
Step A = ChallengeStore × Option (Result Text A)

unfoldable pub answer_challenge : (Text → Text) → ChallengeStore → Authorization → Step (Unit {0})
answer_challenge key_auth store auth = elim (find_http01 auth.challenges) [
  | none ↦ (store, some (err (codes "No HTTP-01 challenge found")))
  | some token ↦
      let stored = set store token (key_auth token) in
      if auth.notice_taken
      then elim (wait_for_order_ready 0 auth.polls) [
        | none ↦ (stored, none)
        | some (err e) ↦ (stored, some (err e))
        | some (ok _) ↦ (remove stored token, some (ok tt))
      ]
      else (stored, some (err (codes "Failed to set challenge ready")))
]

unfoldable pub authorize : (Text → Text) → ChallengeStore → Authorization → Step (Unit {0})
unfolding answer_challenge
authorize key_auth store auth = elim auth.status [
  | auth_pending ↦ answer_challenge key_auth store auth
  | auth_valid ↦ (store, some (ok tt))
  | auth_other ↦ (store, some (ok tt))
]

-- What follows a step: the next one on success, else the end.
abbrev pub continue_with : {A : Type 0} → Step (Unit {0}) → (ChallengeStore → Step A) → Step A
continue_with (store, none) k = (store, none)
continue_with (store, some (err e)) k = (store, some (err e))
continue_with (store, some (ok _)) k = k store

unfoldable pub authorize_all : (Text → Text) → ChallengeStore → List Authorization → Step (Unit {0})
authorize_all key_auth store [] = (store, some (ok tt))
authorize_all key_auth store (auth ∷ auths) =
    continue_with (authorize key_auth store auth) (λ s. authorize_all key_auth s auths)

-- From the CSR to the saved certificate.
unfoldable pub finish_order : Order → Option (Result Text Certificate)
finish_order order =
    if not order.csr_made
    then some (err (codes "Failed to generate the key or the request"))
    else if not order.finalized
    then some (err (codes "Failed to finalize order"))
    else elim (wait_for_certificate 0 order.download order.polls) [
      | none ↦ none
      | some (err e) ↦ some (err e)
      | some (ok pem) ↦
          if order.saved
          then some (ok (record { cert_pem = pem; key_pem = order.key_pem }))
          else some (err (codes "Failed to save the certificate"))
    ]

unfoldable pub request_certificate : ChallengeStore → Order → Step Certificate
unfolding finish_order
request_certificate store order =
    if not order.created
    then (store, some (err (codes "Failed to create order")))
    else elim order.authorizations [
      | none ↦ (store, some (err (codes "Failed to get authorizations")))
      | some auths ↦
          continue_with (authorize_all order.key_authorization store auths)
            (λ s. (s, finish_order order))
    ]
