-- ===== src/Visit/Opened/Tests.antt =====
-- A concrete registration, and a visit to the URL that it gives.
use loophole.Base.{ok, false, none, some, List, [], ◌∷◌}
use loophole.Text.{codes}
use loophole.Text.Utf8.{Bytes}
use loophole.Map
use loophole.Server.Tunnel as Tunnel
use loophole.Server.Tunnel.{Tunnel}
use loophole.Server.Registry
use loophole.Server.Registry.{Registry}
use loophole.Server.Router.Defs.{ServerState, handle_request}
use loophole.Visit.Opened.{opened_state}
use loophole.Socket.{Polled, message, text}
use loophole.Proto.{register, pong, Codec}
use loophole.Server.Acme.Client.{Order, nothing}
use loophole.Server.Tls.Defs.{Pem}
use loophole.Server.Handler.Defs.{Event, inbound_stream}
use loophole.Visit.Sample.{config, visit, exchange}

-- A client's registration; the subdomain is the whole text of the message.
abbrev codec : Codec
codec = record {
  client_to_json = λ _. [];
  client_from_json = λ t. some (register (codes "tk_b") t);
  server_to_json = λ _. [];
  server_from_json = λ _. some pong;
}

abbrev pem : Pem
pem = record { certs = λ _. []; private_key = λ _. ok none; any_supported_type = λ _. none }

abbrev order : Order
order = record {
  created = false;
  authorizations = none;
  key_authorization = λ t. t;
  csr_made = false;
  key_pem = [];
  finalized = false;
  download = nothing;
  polls = [];
  saved = false;
}

abbrev empty : ServerState
empty = record { config = config; registry = Registry.new; cert_manager = none }

abbrev first : Polled
first = some (message (text (codes "my-app")))

abbrev events : List Event
events = inbound_stream ∷ []

abbrev opened : ServerState
opened = opened_state codec pem empty first order 0 9 events

abbrev opened_sent : Bytes
opened_sent = (handle_request opened false (codes "1.2.3.4") visit exchange).sent
