-- ===== src/Server/Handler/Defs.antt =====
-- `handle_websocket` and its helpers. What the client sends first, the ACME server, and the events
-- of the `yamux` connection are arguments; `delivered` says whether the answer `Registered` could be
-- sent. The other sends are tried and their failure is ignored, as in the code.
use loophole.Base.{
  ℕ, Bool, true, false, not, Option, none, some, List, [], ◌∷◌, ◌++◌, ok, err, is_ok, eqb,
  if◌then◌else◌, is_some,
}
use loophole.Text.{Text, codes}
use loophole.Text.Numbers.{to_string}
use loophole.Socket.{text, message, failed, ended, Polled}
use loophole.Proto.{
  register, ErrorCode, invalid_token, subdomain_invalid, internal_error, ServerMessage, registered,
  error, certificate_status, Codec,
}
use loophole.Server.Tunnel.{Reply, opened, open_failed}
use loophole.Server.Tunnel
use loophole.Server.Registry
use loophole.Server.Registry.{RegistryError}
use loophole.Server.Config.Defs.{Config, validate_token}
use loophole.Server.Acme.Client.{Order}
use loophole.Server.Tls.Defs.{Pem, CertManager, has_cert, request_cert}
use loophole.Server.Router.Defs.{ServerState}

abbrev send_error : ErrorCode → Text → List ServerMessage
send_error code m = error code m ∷ []

-- What is sent, and the token and the subdomain of a registration.
unfoldable pub wait_for_registration : Codec → Polled → List ServerMessage × Option (Text × Text)
wait_for_registration codec none = (send_error internal_error (codes "Registration timeout"), none)
wait_for_registration codec (some ended) = ([], none)
wait_for_registration codec (some (failed e)) = ([], none)
wait_for_registration codec (some (message (text t))) = elim (codec.client_from_json t) [
  | none ↦ (send_error internal_error (codes "Invalid message format"), none)
  | some (register token subdomain) ↦ ([], some (token, subdomain))
  | some _ ↦ (send_error internal_error (codes "Expected Register message"), none)
]
wait_for_registration codec (some (message _)) =
    (send_error internal_error (codes "Expected text message"), none)

abbrev pub full_domain : Config → Text → Text
full_domain config subdomain = subdomain ++ (codes "." ++ config.server.domain)

unfoldable pub tunnel_url : Config → Text → Text
tunnel_url config subdomain =
    if is_some config.https
    then (if eqb config.server.https_port 443
        then codes "https://" ++ full_domain config subdomain
        else codes "https://"
          ++ (full_domain config subdomain ++ (codes ":" ++ to_string config.server.https_port)))
    else (if eqb config.server.http_port 80
        then codes "http://" ++ full_domain config subdomain
        else codes "http://"
          ++ (full_domain config subdomain ++ (codes ":" ++ to_string config.server.http_port)))

-- The certificate's part: the manager after it, the messages, and whether it ends.
pub record Provided : Type 0 where
  pub cert_manager : Option CertManager
  pub sent : List ServerMessage
  pub done : Bool

unfoldable pub provide_certificate : Pem → ServerState → Text → Order → Provided
provide_certificate pem state domain order =
    if not (is_some state.config.https)
    then record { cert_manager = state.cert_manager; sent = []; done = true }
    else elim state.cert_manager [
      | none ↦ record { cert_manager = none; sent = certificate_status false ∷ []; done = true }
      | some cm ↦
          if has_cert cm domain
          then record { cert_manager = some cm; sent = certificate_status true ∷ []; done = true }
          else elim (request_cert pem cm domain order).1 [
            | none ↦ record {
              cert_manager = some (request_cert pem cm domain order).0;
              sent = certificate_status false ∷ [];
              done = false;
            }
            | some (err e) ↦ record {
              cert_manager = some (request_cert pem cm domain order).0;
              sent = certificate_status false ∷ [];
              done = true;
            }
            | some (ok _) ↦ record {
              cert_manager = some (request_cert pem cm domain order).0;
              sent = certificate_status false ∷ certificate_status true ∷ [];
              done = true;
            }
          ]
    ]

-- Everything before the channel is made: what is sent, the manager, and the token and the subdomain
-- if the connection goes on.
pub record Negotiation : Type 0 where
  pub sent : List ServerMessage
  pub cert_manager : Option CertManager
  pub outcome : Option (Text × Text)

abbrev refuse : ServerState → List ServerMessage → Negotiation
refuse state sent = record { sent = sent; cert_manager = state.cert_manager; outcome = none }

unfoldable pub welcome : Pem → ServerState → Bool → Order → Text → Text → Negotiation
welcome pem state delivered order token subdomain =
    let hello = registered subdomain (tunnel_url state.config subdomain) in
    let p = provide_certificate pem state (full_domain state.config subdomain) order in
    if delivered
    then record {
      sent = hello ∷ p.sent;
      cert_manager = p.cert_manager;
      outcome = if p.done then some (token, subdomain) else none;
    }
    else refuse state (hello ∷ [])

unfoldable pub negotiate : Codec → Pem → ServerState → Polled → Bool → Order → Negotiation
negotiate codec pem state first delivered order = elim (wait_for_registration codec first).1 [
  | none ↦ refuse state (wait_for_registration codec first).0
  | some (token, subdomain) ↦
      if not (is_some (validate_token state.config token))
      then refuse state (send_error invalid_token (codes "Invalid token"))
      else elim (Registry.validate_subdomain subdomain) [
        | err e ↦ refuse state (send_error subdomain_invalid (Registry.to_string e))
        | ok _ ↦ welcome pem state delivered order token subdomain
      ]
]

-- The tunnel goes into the registry: the state, and whether it did.
unfoldable pub enter : ServerState → Text → Text → ℕ → ℕ → ServerState × Bool
enter state token subdomain connection now =
    let (registry, result) =
      Registry.register state.registry subdomain (Tunnel.new subdomain token connection now) in
    (record state { registry = registry }, is_ok result)

-- An event of the loop: a request for a stream, and whether `yamux` opens one, or what the
-- connection delivers.
pub data Event : Type 0 where
  stream_request : Bool → Event
  inbound_stream : Event
  connection_error : Text → Event
  disconnected : Event

-- The loop: the replies to the requests, and whether the loop has ended.
unfoldable pub serve : List Event → List Reply × Bool
serve [] = ([], false)
serve (stream_request true ∷ es) = (opened ∷ (serve es).0, (serve es).1)
serve (stream_request false ∷ es) = (open_failed ∷ (serve es).0, (serve es).1)
serve (inbound_stream ∷ es) = serve es
serve (connection_error e ∷ es) = ([], true)
serve (disconnected ∷ es) = ([], true)

unfoldable pub leave : ServerState → Text → ServerState
leave state subdomain = record state { registry = Registry.deregister state.registry subdomain }

-- A whole connection, where nothing else changes the state meanwhile.
pub record Session : Type 0 where
  pub state : ServerState
  pub sent : List ServerMessage
  pub replies : List Reply

-- The part after the negotiation.
unfoldable pub run_connection : ServerState → Negotiation → ℕ → ℕ → List Event → Session
run_connection state n connection now events =
    let ready : ServerState = record state { cert_manager = n.cert_manager } in
    elim n.outcome [
      | none ↦ record { state = ready; sent = n.sent; replies = [] }
      | some (token, subdomain) ↦
          let (entered, success) = enter ready token subdomain connection now in
          let (replies, finished) = serve events in
          if success
          then record {
            state = if finished then leave entered subdomain else entered;
            sent = n.sent;
            replies = replies;
          }
          else record { state = entered; sent = n.sent; replies = [] }
    ]

unfoldable pub handle_websocket :
    Codec → Pem → ServerState → Polled → Bool → Order → ℕ → ℕ → List Event → Session
handle_websocket codec pem state first delivered order connection now events =
    run_connection state (negotiate codec pem state first delivered order) connection now events
