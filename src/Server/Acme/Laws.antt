-- ===== src/Server/Acme/Laws.antt =====
-- Ordering a certificate ends, and what it leaves in the store of challenges.
use loophole.Base.{
  ℕ, ◌+◌, ◌≤◌, ◌<◌, ◌≡◌, ◌≢◌, refl, Option, none, some, List, [], ◌∷◌, ◌++◌, arith, ok, err,
  if◌then◌else◌, length, All, Option-cases, inl, inr, Bool-cases,
}
use loophole.Text.{Text, mem}
use loophole.Text.Laws.{eq_refl, mem-append}
use loophole.Server.Acme.Store.{ChallengeStore, set, get, get-set, get-remove}
use loophole.Server.Acme.Client.{
  pending, ready, processing, valid, invalid, Poll, Download, wait_for_order_ready,
  wait_for_certificate, Authorization, auth_pending, find_http01, Order, Step, authorize,
  continue_with, authorize_all, finish_order, request_certificate, Certificate,
}

wait_for_order_ready_total :
    (n : ℕ) (ps : List Poll) → 30 < n + length ps → n ≤ 30 → wait_for_order_ready n ps ≢ none
unfolding wait_for_order_ready
wait_for_order_ready_total n [] h k = absurd (omega arith)
wait_for_order_ready_total n (none ∷ ps) h k = cc
wait_for_order_ready_total n (some ready ∷ ps) h k = cc
wait_for_order_ready_total n (some valid ∷ ps) h k = cc
wait_for_order_ready_total n (some invalid ∷ ps) h k = cc
wait_for_order_ready_total n (some pending ∷ ps) h k =
    ground (arith, wait_for_order_ready_total (n + 1) ps)
wait_for_order_ready_total n (some processing ∷ ps) h k =
    ground (arith, wait_for_order_ready_total (n + 1) ps)

wait_for_certificate_total :
    (n : ℕ) (d : Download) (ps : List Poll)
    → 30 < n + length ps
    → n ≤ 30
    → wait_for_certificate n d ps ≢ none
unfolding wait_for_certificate
wait_for_certificate_total n d [] h k = absurd (omega arith)
wait_for_certificate_total n d (none ∷ ps) h k = cc
wait_for_certificate_total n d (some valid ∷ ps) h k = cc
wait_for_certificate_total n d (some invalid ∷ ps) h k = cc
wait_for_certificate_total n d (some pending ∷ ps) h k =
    ground (arith, wait_for_certificate_total (n + 1) d ps)
wait_for_certificate_total n d (some ready ∷ ps) h k =
    ground (arith, wait_for_certificate_total (n + 1) d ps)
wait_for_certificate_total n d (some processing ∷ ps) h k =
    ground (arith, wait_for_certificate_total (n + 1) d ps)

-- The server answers at least 31 polls in each loop.
abbrev pub Answers : List Poll → Type 0
Answers ps = 30 < length ps

authorize_total :
    (key_auth : Text → Text) (s : ChallengeStore) (a : Authorization)
    → Answers a.polls
    → (authorize key_auth s a).1 ≢ none
unfolding authorize
authorize_total key_auth s a h = ground (arith, wait_for_order_ready_total 0 a.polls)

continue_with_total :
    {A : Type 0} (m : Step (Unit {0})) (k : ChallengeStore → Step A)
    → m.1 ≢ none
    → ((s : ChallengeStore) → (k s).1 ≢ none)
    → (continue_with m k).1 ≢ none
continue_with_total (s, none) k h l = absurd (h refl)
continue_with_total (s, some (err e)) k h l = cc
continue_with_total (s, some (ok u)) k h l = l s

continue_with-eq-ok :
    {A : Type 0} (m : Step (Unit {0})) (k : ChallengeStore → Step A) {a : A}
    → (continue_with m k).1 ≡ some (ok a)
    → (m.1 ≡ some (ok tt)) × (continue_with m k ≡ k m.0)
continue_with-eq-ok (s, none) k h = cc
continue_with-eq-ok (s, some (err e)) k h = cc
continue_with-eq-ok (s, some (ok u)) k h = (refl, refl)

authorize_all_total :
    (key_auth : Text → Text) (s : ChallengeStore) (auths : List Authorization)
    → All (λ a. Answers a.polls) auths
    → (authorize_all key_auth s auths).1 ≢ none
unfolding authorize_all
authorize_all_total key_auth s [] h = cc
authorize_all_total key_auth s (a ∷ auths) (h, hs) =
    continue_with_total (authorize key_auth s a) _ (authorize_total key_auth s a h)
      (λ t. authorize_all_total key_auth t auths hs)

abbrev pub AllAnswer : Option (List Authorization) → Type 0
AllAnswer none = Unit
AllAnswer (some auths) = All (λ a. Answers a.polls) auths

finish_order_total : (order : Order) → Answers order.polls → finish_order order ≢ none
unfolding finish_order
finish_order_total order h = ground (arith, wait_for_certificate_total 0 order.download order.polls)

-- Ordering a certificate ends: 31 polls for each authorization and 31 for the certificate are
-- enough, whatever they answer.
pub request_certificate_total :
    (store : ChallengeStore) (order : Order)
    → AllAnswer order.authorizations
    → Answers order.polls
    → (request_certificate store order).1 ≢ none
unfolding request_certificate
request_certificate_total store order h k = elim (Bool-cases order.created) [
  | inr refused ↦ ground arith
  | inl created ↦ elim (Option-cases order.authorizations) [
    | inl nothing ↦ ground arith
    | inr (auths, e) ↦ ground (
      arith,
      continue_with_total (authorize_all order.key_authorization store auths)
          (λ s. (s, finish_order order))
          (authorize_all_total order.key_authorization store auths (rw e at h))
          (λ s. finish_order_total order k),
    )
  ]
]

-- The tokens of the challenges that are answered: for each pending authorization the first of type
-- HTTP-01.
unfoldable pub auth_tokens : Authorization → List Text
auth_tokens a = elim a.status [
  | auth_pending ↦ elim (find_http01 a.challenges) [ none ↦ [] | some token ↦ token ∷ [] ]
  | _ ↦ []
]

unfoldable pub challenge_tokens : List Authorization → List Text
challenge_tokens [] = []
challenge_tokens (a ∷ auths) = auth_tokens a ++ challenge_tokens auths

abbrev pub tokens_of : Option (List Authorization) → List Text
tokens_of none = []
tokens_of (some auths) = challenge_tokens auths

module _ (key_auth : Text → Text) (u : Text) where
  -- One authorization that succeeds leaves nothing of its challenge.
  authorize-get :
      (s : ChallengeStore) (a : Authorization)
      → (authorize key_auth s a).1 ≡ some (ok tt)
      → get (authorize key_auth s a).0 u ≡ (if mem (auth_tokens a) u then none else get s u)
  unfolding authorize auth_tokens mem
  authorize-get s a h = elim (Option-cases (find_http01 a.challenges)) [
    | inl nothing ↦ ground arith
    | inr (token, found) ↦ ground (
      arith,
      get-set s token u (key_auth token),
      get-remove (set s token (key_auth token)) token u,
    )
  ]

  authorize_all-get :
      (s : ChallengeStore) (auths : List Authorization)
      → (authorize_all key_auth s auths).1 ≡ some (ok tt)
      → get (authorize_all key_auth s auths).0 u
        ≡ (if mem (challenge_tokens auths) u then none else get s u)
  unfolding authorize_all challenge_tokens
  authorize_all-get s [] h = unfold mem in refl
  authorize_all-get s (a ∷ auths) h =
      let (first, rest) =
        continue_with-eq-ok (authorize key_auth s a) (λ t. authorize_all key_auth t auths) h in
      ground (
        arith,
        authorize-get s a,
        authorize_all-get (authorize key_auth s a).0 auths,
        mem-append (auth_tokens a) (challenge_tokens auths) u,
      )

-- A certificate that is issued leaves the store without the tokens of its challenges, and otherwise
-- as it was.
pub request_certificate-get :
    (store : ChallengeStore) (order : Order) (cert : Certificate) (u : Text)
    → (request_certificate store order).1 ≡ some (ok cert)
    → get (request_certificate store order).0 u
      ≡ (if mem (tokens_of order.authorizations) u then none else get store u)
unfolding request_certificate
request_certificate-get store order cert u h = elim (Bool-cases order.created) [
  | inr refused ↦ absurd (ground arith)
  | inl created ↦ elim (Option-cases order.authorizations) [
    | inl nothing ↦ absurd (ground arith)
    | inr (auths, e) ↦
        let run = authorize_all order.key_authorization store auths in
        let (done, same) =
          continue_with-eq-ok run (λ s. (s, finish_order order)) {a = cert} (ground arith) in
        ground (arith, authorize_all-get order.key_authorization u store auths done)
  ]
]

-- A pending authorization that ends in an error leaves the token of its HTTP-01 challenge in the
-- store, where it is still served.
pub authorize-leaves_token :
    (key_auth : Text → Text) (s : ChallengeStore) (a : Authorization) (token why : Text)
    → a.status ≡ auth_pending
    → find_http01 a.challenges ≡ some token
    → (authorize key_auth s a).1 ≡ some (err why)
    → get (authorize key_auth s a).0 token ≡ some (key_auth token)
unfolding authorize
authorize-leaves_token key_auth s a token why p f h =
    ground (arith, get-set s token token (key_auth token), eq_refl token)
