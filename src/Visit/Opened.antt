-- ===== src/Visit/Opened.antt =====
-- From a registration to a visit: `handle_websocket` of server/handler.rs, and then a visitor who opens
-- the URL that the client was told.
mod Tests
use loophole.Base.{
  ℕ, ◌≡◌, ◌≢◌, ap, true, false, none, List, arith, Option-cases, Bool-cases, inl, inr, not, ◌&&◌,
  if◌then◌else◌,
}
use loophole.Text.{Text, mem, contains_char, ◌==◌}
use loophole.Socket.{Polled}
use loophole.Proto.{Codec}
use loophole.Server.Tunnel
use loophole.Server.Tunnel.{Tunnel}
use loophole.Server.Registry
use loophole.Server.Config.Defs.{Config, control_path}
use loophole.Server.Acme.Client.{Order}
use loophole.Server.Tls.Defs.{Pem}
use loophole.Server.Proxy.Defs.{Request}
use loophole.Server.Router.Defs.{ServerState, host_of}
use loophole.Server.Handler.Defs.{
  Event, serve, handle_websocket, run_connection, enter, leave, provide_certificate, full_domain,
  tunnel_url, negotiate,
}
use loophole.Server.Handler.Registration.{Registers, host_in_url}

module _ (codec : Codec) (pem : Pem) (state : ServerState) (first : Polled) (order : Order)
    (connection now : ℕ) (events : List Event) where
  -- The state while the connection serves its tunnel.
  abbrev pub opened_state : ServerState
  opened_state = (handle_websocket codec pem state first true order connection now events).state

  pub opened_state-config : opened_state.config ≡ state.config
  unfolding handle_websocket run_connection enter leave
  opened_state-config = elim (Option-cases (negotiate codec pem state first true order).outcome) [
    | inl refused ↦ ground arith
    | inr ((token, subdomain), welcomed) ↦ ground arith
  ]

  -- The connection of a client that registers a name, with its loop running.
  pub record IsOpen (token subdomain : Text) : Type 0 where
    pub registers : Registers codec state.config first token subdomain
    pub done :
        (provide_certificate pem state (full_domain state.config subdomain) order).done ≡ true
    pub free : mem state.registry.reserved subdomain ≡ false
    pub vacant : Registry.get state.registry subdomain ≡ none
    pub running : (serve events).1 ≡ false

  -- The visitor goes to the host of the URL that the client was told.
  pub record Opens (req : Request) (subdomain : Text) : Type 0 where
    pub host : host_of req ≡ host_in_url (tunnel_url state.config subdomain)
    pub path : req.path ≢ control_path
    pub no_colon : contains_char b':' state.config.server.domain ≡ false
    pub no_slash : contains_char b'/' state.config.server.domain ≡ false
