-- ===== src/Server/Acme/Tests.antt =====
-- The theorems of the ACME client at concrete orders.
use loophole.Base.{
  ◌≡◌, refl, true, false, none, some, List, [], ◌∷◌, ok, err, if◌then◌else◌, arith, ℕ, zero, suc,
  ◌++◌,
}
use loophole.Text.{codes, mem, Text}
use loophole.Map
use loophole.Console.{Console, ◌>>=◌}
use loophole.Server.Acme.Account.{
  Accounts, IsLawful, get_or_create_account, create_account, get_or_create_account-again,
}
use loophole.Server.Acme.Store.{new, get}
use loophole.Server.Acme.Client.{
  find_http01, authorize_all, wait_for_order_ready, wait_for_certificate, pending, valid, Poll,
  chain, Authorization, auth_pending, Order, authorize, request_certificate, Certificate, http01,
  dns01,
}
use loophole.Server.Acme.Laws.{request_certificate-get, authorize-leaves_token, tokens_of}

abbrev copies : ℕ → Poll → List Poll
copies zero p = []
copies (suc n) p = p ∷ copies n p

-- One poll that waits and 31 more.
abbrev polls : List Poll
polls = some pending ∷ copies 31 (some valid)

abbrev authorization : Authorization
authorization = record {
  status = auth_pending;
  challenges = (dns01, codes "d") ∷ (http01, codes "t") ∷ [];
  notice_taken = true;
  polls = polls;
}

abbrev order : Order
order = record {
  created = true;
  authorizations = some (authorization ∷ []);
  key_authorization = λ t. t;
  csr_made = true;
  key_pem = codes "key";
  finalized = true;
  download = chain (codes "pem");
  polls = polls;
  saved = true;
}

abbrev certificate : Certificate
certificate = record { cert_pem = codes "pem"; key_pem = codes "key" }

order_runs : (request_certificate new order).1 ≡ some (ok certificate)
unfolding request_certificate new authorize_all authorize find_http01 wait_for_order_ready
    wait_for_certificate
order_runs = refl

request_certificate-get_example :
    get (request_certificate new order).0 (codes "t")
    ≡ (if mem (tokens_of order.authorizations) (codes "t") then none else get new (codes "t"))
request_certificate-get_example =
    request_certificate-get new order certificate (codes "t") order_runs

abbrev refused : Authorization
refused = record authorization { notice_taken = false }

refused_runs :
    (authorize (λ t. t) new refused).1 ≡ some (err (codes "Failed to set challenge ready"))
unfolding authorize find_http01
refused_runs = refl

authorize-leaves_token_example :
    get (authorize (λ t. t) new refused).0 (codes "t") ≡ some (codes "t")
authorize-leaves_token_example =
    authorize-leaves_token (λ t. t) new refused (codes "t") (codes "Failed to set challenge ready")
      refl (unfold find_http01 in refl) refused_runs

-- Accounts and credentials are the contact and the directory.
abbrev accounts : Accounts Text Text
accounts = record {
  from_json = λ s. some s;
  to_json = λ x. some x;
  from_credentials = λ x roots. some x;
  create = λ contact url roots. some (contact ++ url, contact ++ url);
}

accounts-json : (x s : Text) → accounts.to_json x ≡ some s → accounts.from_json s ≡ some x
accounts-json x s h = cc

accounts-create :
    (email url : Text) (roots : List Text) (a x : Text)
    → accounts.create email url roots ≡ some (a, x)
    → accounts.from_credentials x roots ≡ some a
accounts-create email url roots a x h = ground arith

accounts-IsLawful : IsLawful accounts
accounts-IsLawful = record { json = accounts-json; credentials = accounts-create }

abbrev console : Console
console = record {
  stdin = [];
  secrets = [];
  printed = [];
  files = [];
  ran = [];
  may_write = λ _. true;
  may_create = λ _. true;
}

abbrev with_account : Console
with_account = record console { files = (codes "/account.json", codes "mailto:au") ∷ [] }

account_runs :
    get_or_create_account accounts (codes "a") (codes "u") [] [] console
    ≡ (with_account, ok (codes "mailto:au"))
unfolding get_or_create_account create_account ◌>>=◌ Map.get Map.insert
account_runs = refl

get_or_create_account-again_example :
    get_or_create_account accounts (codes "b") (codes "v") [] [] with_account
    ≡ (with_account, ok (codes "mailto:au"))
unfolding Map.get
get_or_create_account-again_example =
    get_or_create_account-again accounts accounts-IsLawful (codes "a") (codes "u") (codes "b")
      (codes "v") [] [] console with_account (codes "mailto:au") refl account_runs
