-- ===== src/Visit/Tests.antt =====
-- A visit at a concrete server with one tunnel.
use loophole.Base.{false, none, [], ◌∷◌}
use loophole.Text.{codes}
use loophole.Text.Utf8.{Bytes}
use loophole.Map
use loophole.Server.Tunnel as Tunnel
use loophole.Server.Tunnel.{Tunnel}
use loophole.Server.Registry
use loophole.Server.Registry.{Registry}
use loophole.Server.Router.Defs.{ServerState, handle_request}
use loophole.Visit.Sample.{config, visit, exchange}

abbrev my_app : Tunnel
my_app = record {
  subdomain = codes "my-app";
  token = codes "tk_b";
  request_tx = 1;
  created_at = 5;
  request_count = 0;
  last_activity = 5;
}

abbrev state : ServerState
state = record {
  config = config;
  registry = record (Registry.new) { tunnels = (codes "my-app", my_app) ∷ [] };
  cert_manager = none;
}

abbrev sent : Bytes
sent = (handle_request state false (codes "1.2.3.4") visit exchange).sent
