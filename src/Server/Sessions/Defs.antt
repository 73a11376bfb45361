-- ===== src/Server/Sessions/Defs.antt =====
-- The parts of server/handler.rs, server/router.rs and server/mod.rs that change the registry, as
-- steps that interleave in any order. A connection's steps are its registration and its end; a
-- visitor's request is one step, since what it changes in the registry, a counter, it changes at its start.
use mathlib.Core.List.{Memᴰ}
use loophole.Base.{ℕ, suc, ◌≡◌, Bool, true, Option, List, [], ◌∷◌, is_some, if◌then◌else◌, eqb}
use loophole.Text.{Text}
use loophole.Server.Registry
use loophole.Server.Registry.Validation.{IsLabel}
use loophole.Server.Config.Defs.{Config, validate_token}
use loophole.Server.Proxy.Defs.{Request, Exchange}
use loophole.Server.Tls.Defs.{CertManager}
use loophole.Server.Router.Defs.{ServerState, handle_request, delete_tunnel}
use loophole.Server.Cleanup.{remove_idle}
use loophole.Server.Handler.Defs.{enter, leave}

-- The state of the server, the connections that serve a tunnel, and the next connection's number.
pub record World : Type 0 where
  pub server : ServerState
  pub serving : List (ℕ × Text)
  pub next : ℕ

unfoldable pub without : ℕ → List (ℕ × Text) → List (ℕ × Text)
without c [] = []
without c ((d, s) ∷ cs) = let rest = without c cs in if eqb c d then rest else (d, s) ∷ rest

unfoldable pub start : Config → Option CertManager → World
start config certs = record {
  server = record { config = config; registry = Registry.new; cert_manager = certs };
  serving = [];
  next = 0;
}

-- A connection whose negotiation has ended well enters the registry, or ends.
unfoldable pub connected : World → Text → Text → ℕ → World
connected w token subdomain now =
    let (server, success) = enter w.server token subdomain w.next now in
    record {
      server = server;
      serving = if success then (w.next, subdomain) ∷ w.serving else w.serving;
      next = suc w.next;
    }

-- The loop of a connection has ended.
unfoldable pub disconnected : World → ℕ → Text → World
disconnected w c subdomain = record w {
  server = leave w.server subdomain;
  serving = without c w.serving;
}

abbrev pub cleaned : World → ℕ → World
cleaned w now = record w {
  server = record (w.server) {
    registry = remove_idle w.server.registry w.server.config.limits.idle_tunnel_timeout_secs now;
  };
}

pub data Step : World → World → Type 0 where
  connect :
      (w : World) (token subdomain : Text) (now : ℕ)
      → is_some (validate_token w.server.config token) ≡ true
      → IsLabel subdomain
      → Step w (connected w token subdomain now)
  disconnect :
      (w : World) (c : ℕ) (subdomain : Text)
      → Memᴰ (c, subdomain) w.serving
      → Step w (disconnected w c subdomain)
  visit :
      (w : World) (is_upgrade : Bool) (client_ip : Text) (req : Request) (x : Exchange)
      → Step w (record w { server = (handle_request w.server is_upgrade client_ip req x).state })
  delete :
      (w : World) (subdomain : Text) (req : Request)
      → Step w (record w { server = (delete_tunnel w.server subdomain req).0 })
  clean : (w : World) (now : ℕ) → Step w (cleaned w now)

-- A run of the server: its steps, from the start.
pub data Reachable (config : Config) : World → Type 0 where
  started : (certs : Option CertManager) → Reachable config (start config certs)
  then_step : {w v : World} → Reachable config w → Step w v → Reachable config v
