-- ===== src/Server/Router/Tests.antt =====
-- The theorems of the router at concrete requests.
use loophole.Base.{◌≡◌, ◌↔◌, ◌⊎◌, refl, ℕ, true, false, none, some, [], ◌∷◌, All, false≢true}
use loophole.Text.{Text, codes, ◌==◌, before, len, starts_with, ends_with}
use loophole.Text.Laws.{eq_iff}
use loophole.Map
use loophole.Server.Tunnel.{Tunnel}
use loophole.Server.Registry
use loophole.Server.Registry.{Registry}
use loophole.Server.Registry.Validation.{IsLabel, validate_subdomain_iff}
use loophole.Server.Config.Defs.{Config, default_limits, validate_admin_token}
use loophole.Server.Proxy.Defs.{Request, Exchange}
use loophole.Server.Tunnel.{dropped}
use loophole.Server.Router.Defs.{
  ServerState, text, upgraded, admin_error, extract_subdomain, handle_request, answered,
  list_tunnels, delete_tunnel, header, to_str,
}
use loophole.Server.Router.Subdomain.{Names, extract_subdomain_iff}
use loophole.Server.Router.Handling.{IsFor, handle_request-refuses}
use loophole.Server.Router.Admin.{IsAuthorized, admin-unauthorized}
use loophole.Server.Router.Routes.{
  handlers, create_router, create_acme_router, IsOther, delete_unreachable,
}

abbrev config : Config
config = record {
  version = 1;
  server = record { domain = codes "ex.com"; http_port = 80; https_port = 443 };
  tokens = (codes "tk_b", record { admin = true }) ∷ [];
  limits = default_limits;
  https = none;
}

abbrev my_app : Tunnel
my_app = record {
  subdomain = codes "my-app";
  token = codes "tk_b";
  request_tx = 1;
  created_at = 5;
  request_count = 0;
  last_activity = 5;
}

abbrev one_tunnel : Registry
one_tunnel = (Registry.register Registry.new (codes "my-app") my_app).0

abbrev state : ServerState
state = record { config = config; registry = one_tunnel; cert_manager = none }

abbrev visit : Request
visit = record {
  method = codes "GET";
  path = codes "/";
  path_and_query = some (codes "/");
  headers =
      (codes "host", codes "my-app.ex.com:80") ∷ (codes "authorization", codes "Bearer tk_b") ∷ [];
}

abbrev stranger : Request
stranger = record visit { headers = (codes "host", codes "ex.com") ∷ [] }

abbrev exchange : Exchange
exchange = record {
  request_id = codes "id";
  now = 9;
  reply = dropped;
  head_taken = true;
  frames = [];
  flushed = true;
  reads = [];
  accepts = λ _ _. true;
}

extract_subdomain_iff_example :
    (extract_subdomain (codes "my-app.ex.com:80") (codes "ex.com") ≡ some (codes "my-app"))
    ↔ Names (codes "my-app.ex.com:80") (codes "ex.com") (codes "my-app")
extract_subdomain_iff_example =
    extract_subdomain_iff (codes "my-app.ex.com:80") (codes "ex.com") (codes "my-app")

my-app-IsLabel : IsLabel (codes "my-app")
unfolding len starts_with ends_with
my-app-IsLabel =
    (validate_subdomain_iff (codes "my-app")).0 (unfold Registry.validate_subdomain in refl)

visit-IsAuthorized : IsAuthorized visit config
unfolding header to_str ◌==◌ validate_admin_token Map.get
visit-IsAuthorized = record { token = codes "tk_b"; bearer = refl; admin = refl }

stranger-unauthorized : ¬ IsAuthorized stranger config
unfolding header ◌==◌
stranger-unauthorized v = absurd (unfold header ◌==◌ in cc (v.bearer))

admin-unauthorized_example :
    (message : Text) × (list_tunnels state 9 stranger ≡ admin_error 401 message)
    × (delete_tunnel state (codes "my-app") stranger ≡ (state, admin_error 401 message))
admin-unauthorized_example =
    admin-unauthorized state 9 (codes "my-app") stranger stranger-unauthorized

stranger-IsFor_none : (s : Text) (t : Tunnel) → ¬ IsFor state stranger s t
unfolding extract_subdomain before header to_str ◌==◌
stranger-IsFor_none s t v =
    let e : extract_subdomain (codes "ex.com") (codes "ex.com") ≡ some s =
      (extract_subdomain_iff _ _ s).1 v.named in
    absurd (cc)

handle_request-refuses_example :
    (handle_request state false (codes "1.2.3.4") stranger exchange ≡ answered state upgraded)
    ⊎ ((status : ℕ) × (message : Text) × (handle_request state false
            (codes "1.2.3.4")
            stranger
            exchange
          ≡ answered state (text status message))
        × ((status ≡ 400) ⊎ (status ≡ 404)))
handle_request-refuses_example =
    handle_request-refuses state false (codes "1.2.3.4") stranger exchange stranger-IsFor_none

-- A matcher that knows only texts that are equal.
delete_unreachable_example :
    All IsOther (handlers ◌==◌ create_router (codes "/_admin/tunnels/my-app"))
    × All IsOther (handlers ◌==◌ (create_acme_router true).0 (codes "/_admin/tunnels/my-app"))
    × All IsOther (handlers ◌==◌ (create_acme_router false).0 (codes "/_admin/tunnels/my-app"))
delete_unreachable_example =
    delete_unreachable ◌==◌ (codes "/_admin/tunnels/my-app") (λ p q _ _ e. (eq_iff p q).0 e)
      (λ e. absurd (
        false≢true (
          unfold ◌==◌ in
          (eq_iff (codes "/_admin/tunnels/my-app") (codes "/_admin/tunnels/{subdomain}")).1 e)))
