-- ===== src/Server/Start/Tests.antt =====
-- The start of a server and the certificate of its base domain at concrete inputs.
use loophole.Base.{◌≡◌, refl, true, none, some, List, [], ◌∷◌, ◌++◌, ok, is_some, zero, suc, ℕ}
use loophole.Text.{Text, codes}
use loophole.Map
use loophole.Map.{Map}
use loophole.Console.{Console}
use loophole.Server.Config.Defs.{Config, default_limits, HttpsConfig, default_acme_directory}
use loophole.Server.Acme.Store
use loophole.Server.Acme.Client.{
  Order, chain, Certificate, request_certificate, authorize_all, wait_for_certificate, Poll, valid,
}
use loophole.Server.Acme.Account.{Accounts}
use loophole.Server.Tls.Defs as Tls
use loophole.Server.Tls.Defs.{Pem, CertifiedKey, parse_certificate, resolve}
use loophole.Server.Start.Defs.{Outside, Started, serve, roots, request_base_cert}
use loophole.Server.Start.Laws.{request_base_cert-resolves}

abbrev https : HttpsConfig
https = record {
  email = codes "a@b.c";
  directory = default_acme_directory;
  certs_dir = codes "certs";
  staging = true;
  ca_file = none;
}

abbrev config : Config
config = record {
  version = 1;
  server = record { domain = codes "ex.com"; http_port = 8080; https_port = 8443 };
  tokens = (codes "tk_b", record { admin = true }) ∷ [];
  limits = default_limits;
  https = some https;
}

abbrev pem : Pem
pem = record {
  certs = λ t. t ∷ [];
  private_key = λ t. ok (some t);
  any_supported_type = λ t. some t;
}

-- Accounts and credentials are the contact and the directory.
abbrev accounts : Accounts Text Text
accounts = record {
  from_json = λ s. some s;
  to_json = λ x. some x;
  from_credentials = λ x roots. some x;
  create = λ contact url roots. some (contact ++ url, contact ++ url);
}

abbrev out : Outside Text Text
out = record {
  toml = λ _. some config;
  env = λ _. none;
  built_in = [];
  takes = λ _. true;
  read_certs = λ _. [];
  pem = pem;
  entries = λ _. some [];
  accounts = accounts;
}

abbrev console : Console
console = record {
  stdin = [];
  secrets = [];
  printed = [];
  files = (codes "server.toml", codes "version = 1") ∷ [];
  ran = [];
  may_write = λ _. true;
  may_create = λ _. true;
}

abbrev after : Console × Started Text
after = (
  record console {
    files =
        (codes "server.toml", codes "version = 1")
        ∷ (
          codes "certs/account.json",
          codes "mailto:a@b.chttps://acme-staging-v02.api.letsencrypt.org/directory",
        )
        ∷ [];
  },
  serve out config (
      some (
        codes "mailto:a@b.chttps://acme-staging-v02.api.letsencrypt.org/directory",
        Tls.new pem [] true Store.new (codes "ex.com"),
      )),
)

abbrev copies : ℕ → Poll → List Poll
copies zero p = []
copies (suc n) p = p ∷ copies n p

abbrev order : Order
order = record {
  created = true;
  authorizations = some [];
  key_authorization = λ t. t;
  csr_made = true;
  key_pem = codes "key";
  finalized = true;
  download = chain (codes "pem");
  polls = copies 31 (some valid);
  saved = true;
}

abbrev certificate : Certificate
certificate = record { cert_pem = codes "pem"; key_pem = codes "key" }

abbrev key : CertifiedKey
key = record { certs = codes "pem" ∷ []; signing_key = codes "key" }

order_runs : (request_certificate Store.new order).1 ≡ some (ok certificate)
unfolding request_certificate authorize_all wait_for_certificate
order_runs = refl

key_reads : parse_certificate pem (codes "pem") (codes "key") ≡ ok key
unfolding parse_certificate
key_reads = refl

request_base_cert-resolves_example :
    let m =
      request_base_cert pem
        (Tls.new pem [] true Store.new (codes "ex.com"))
        (codes "ex.com")
        order in
    (m.1 ≡ some (ok tt))
    × (is_some (resolve m.0 (some (codes "ex.com"))) ≡ true)
    × ((s : Text) → is_some (resolve m.0 (some (s ++ (codes "." ++ codes "ex.com")))) ≡ true)
request_base_cert-resolves_example =
    request_base_cert-resolves pem [] (codes "ex.com") order certificate key order_runs key_reads
