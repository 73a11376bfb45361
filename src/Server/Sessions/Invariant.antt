-- ===== src/Server/Sessions/Invariant.antt =====
-- What holds of the registry after any run of the server.
use loophole.Base.{◌≡◌, refl, inl, inr, Bool, Option}
use loophole.Text.{Text}
use loophole.Map
use loophole.Server.Registry
use loophole.Server.Registry.{Registry}
use loophole.Server.Registry.Invariant.{new-IsSound}
use loophole.Server.Config.Defs.{Config}
use loophole.Server.Proxy.Defs.{Request, Exchange}
use loophole.Server.Tls.Defs.{CertManager}
use loophole.Server.Router.Defs.{handle_request, delete_tunnel, put_tunnel}
use loophole.Server.Handler.Defs.{enter, leave}
use loophole.Server.Sessions.Entries.{
  IsGood, handle_request-cases, delete_tunnel-cases, put_tunnel-IsGood, register-IsGood,
  deregister-IsGood, remove_idle-IsGood,
}
use loophole.Server.Sessions.Defs.{
  World, start, connected, disconnected, Step, connect, disconnect, visit, delete, clean, Reachable,
  started, then_step,
}

-- What every run keeps: the configuration, and a good registry.
pub record IsValid (config : Config) (w : World) : Type 0 where
  pub same : w.server.config ≡ config
  pub good : IsGood config w.next w.server.registry

start-IsValid : (config : Config) (certs : Option CertManager) → IsValid config (start config certs)
unfolding start Registry.new Registry.get Map.get
start-IsValid config certs = record {
  same = refl;
  good = record {
    sound = unfold Registry.new in new-IsSound;
    owned = λ k t h. cc;
    single = λ k j t u h g e. cc;
  };
}

visit-IsValid :
    (config : Config) (w : World) (up : Bool) (ip : Text) (req : Request) (x : Exchange)
    → IsValid config w
    → IsValid config (record w { server = (handle_request w.server up ip req x).state })
unfolding put_tunnel
visit-IsValid config w up ip req x v = elim (handle_request-cases w.server up ip req x) [
  | inl same ↦ rw same v
  | inr (s, t, found, e) ↦ rw e (record {
    same = v.same;
    good = put_tunnel-IsGood config w.next x.now w.server s t found v.good;
  })
]

delete-IsValid :
    (config : Config) (w : World) (s : Text) (req : Request)
    → IsValid config w
    → IsValid config (record w { server = (delete_tunnel w.server s req).0 })
delete-IsValid config w s req v = elim (delete_tunnel-cases w.server s req) [
  | inl same ↦ rw same v
  | inr e ↦
      rw e (record {
        same = v.same;
        good = deregister-IsGood config w.next w.server.registry s v.good;
      })
]

Step-IsValid : (config : Config) {w v : World} → Step w v → IsValid config w → IsValid config v
unfolding connected disconnected enter leave
Step-IsValid config (connect w token s now known label) v = record {
  same = v.same;
  good = register-IsGood config w.next now w.server.registry token s (rw (← v.same) known) v.good;
}
Step-IsValid config (disconnect w c s serves) v = record {
  same = v.same;
  good = deregister-IsGood config w.next w.server.registry s v.good;
}
Step-IsValid config (visit w up ip req x) v = visit-IsValid config w up ip req x v
Step-IsValid config (delete w s req) v = delete-IsValid config w s req v
Step-IsValid config (clean w now) v = record {
  same = v.same;
  good = remove_idle-IsGood config w.next w.server.registry _ now v.good;
}

-- After any run of the server, in any order of its steps, every registered name is a label that is
-- not reserved, bound to a tunnel of that name whose token the configuration knows, and no two names
-- are bound to tunnels of the same connection.
pub Reachable-IsValid : (config : Config) {w : World} → Reachable config w → IsValid config w
Reachable-IsValid config (started certs) = start-IsValid config certs
Reachable-IsValid config (then_step run step) =
    Step-IsValid config step (Reachable-IsValid config run)
