-- ===== src/Server/Sessions/Order.antt =====
-- The runs of the server with the registry up to the order of its entries.
use loophole.Base.{
  ℕ, ◌≡◌, refl, sym, ◌∙◌, ap, subst, Bool, List, [], ◌∷◌, arith, is_some, is_ok, suc, ◌++◌,
  if◌then◌else◌, inl, inr, Bool-cases, Option-cases, Result-cases,
}
use loophole.Text.{Text, codes, ◌==◌}
use loophole.Map
use loophole.Map.{get-insert}
use loophole.Server.Tunnel
use loophole.Server.Tunnel.{Tunnel}
use loophole.Server.Registry
use loophole.Server.Registry.{Registry}
use loophole.Server.Registry.Order.{IsSame, register-IsSame, register-result, deregister-IsSame}
use loophole.Server.Config.Defs.{control_path}
use loophole.Server.Proxy.Defs.{Request, Exchange, proxy_request}
use loophole.Server.Router.Defs.{
  ServerState, Answer, text, upgraded, answered, no_content, admin_error, handle_request, Handled,
  delete_tunnel, put_tunnel, proxy_through, host_of, extract_subdomain, validate_admin_auth,
}
use loophole.Server.Cleanup.{remove_idle, remove_idle_of, remove_if_idle, remove_idle-get, kept}
use loophole.Server.Handler.Defs.{enter, leave}
use loophole.Server.Sessions.Defs.{
  World, connected, disconnected, Step, connect, disconnect, visit, delete, clean,
}

-- A state with another registry.
abbrev pub state_with : ServerState → Registry → ServerState
state_with state q = record state { registry = q }

abbrev pub world_with : World → Registry → World
world_with w q = record w { server = state_with w.server q }

remove_idle_of-reserved :
    (r : Registry) (limit now : ℕ) (ss : List Text)
    → (remove_idle_of r limit now ss).reserved ≡ r.reserved
unfolding remove_idle_of remove_if_idle Registry.deregister
remove_idle_of-reserved r limit now [] = refl
remove_idle_of-reserved r limit now (s ∷ ss) =
    ground (arith, remove_idle_of-reserved (remove_if_idle r limit now s) limit now ss)

remove_idle-reserved :
    (r : Registry) (limit now : ℕ) → (remove_idle r limit now).reserved ≡ r.reserved
unfolding remove_idle
remove_idle-reserved r limit now = remove_idle_of-reserved r limit now (Registry.subdomains r)

remove_idle-IsSame :
    (r q : Registry) (limit now : ℕ)
    → IsSame r q
    → IsSame (remove_idle r limit now) (remove_idle q limit now)
remove_idle-IsSame r q limit now v = record {
  reserved =
      remove_idle-reserved r limit now ∙ (v.reserved ∙ sym (remove_idle-reserved q limit now));
  looks = λ k.
      remove_idle-get limit now r k
      ∙ (ap (kept limit now) (v.looks k) ∙ sym (remove_idle-get limit now q k));
}

put_tunnel-IsSame :
    (state : ServerState) (q : Registry) (s : Text) (t : Tunnel)
    → IsSame state.registry q
    → IsSame (put_tunnel state s t).registry (put_tunnel (state_with state q) s t).registry
unfolding put_tunnel Registry.get
put_tunnel-IsSame state q s t v = record {
  reserved = v.reserved;
  looks = λ k.
      let same : Map.get state.registry.tunnels k ≡ Map.get q.tunnels k = v.looks k in
      ground (arith, get-insert state.registry.tunnels s k t, get-insert q.tunnels s k t, same);
}

-- Two outcomes of a request that differ at most in the order of the registry's entries.
abbrev pub AreAlike : Handled → Handled → Type 0
AreAlike h g =
    (p : Registry) × (g ≡ record h { state = state_with h.state p }) × IsSame h.state.registry p

module _ (state : ServerState) (q : Registry) (v : IsSame state.registry q) where
  answered-AreAlike :
      (h g : Handled) (a : Answer)
      → h ≡ answered state a
      → g ≡ answered (state_with state q) a
      → AreAlike h g
  answered-AreAlike h g a e f = rw (e, f) (q, refl, v)

  proxy_through-AreAlike :
      (h g : Handled) (s : Text) (t : Tunnel) (ip : Text) (req : Request) (x : Exchange)
      → h ≡ proxy_through state s t ip req x
      → g ≡ proxy_through (state_with state q) s t ip req x
      → AreAlike h g
  unfolding proxy_through put_tunnel
  proxy_through-AreAlike h g s t ip req x e f =
      let counted = (proxy_request t req ip (is_some state.config.https) x).tunnel in
      rw (e, f)
        (
          (put_tunnel (state_with state q) s counted).registry,
          refl,
          put_tunnel-IsSame state q s counted v,
        )

  -- What is sent and answered does not depend on the order of the entries.
  pub handle_request-AreAlike :
      (up : Bool) (ip : Text) (req : Request) (x : Exchange)
      → AreAlike
          (handle_request state up ip req x)
          (handle_request (state_with state q) up ip req x)
  unfolding handle_request
  handle_request-AreAlike up ip req x = elim (Bool-cases (req.path == control_path)) [
    | inl control ↦ elim (Bool-cases up) [
      | inl upgrade ↦ answered-AreAlike _ _ upgraded (ground arith) (ground arith)
      | inr plain ↦
          answered-AreAlike _ _ (text 400 (codes "WebSocket upgrade required")) (ground arith)
            (ground arith)
    ]
    | inr other ↦ elim (Option-cases (extract_subdomain (host_of req) state.config.server.domain)) [
      | inl unknown ↦
          answered-AreAlike _ _ (text 404 (codes "Unknown subdomain")) (ground arith) (ground arith)
      | inr (s, named) ↦ elim (Option-cases (Registry.get state.registry s)) [
        | inl missing ↦
            answered-AreAlike _ _ (text 404 (codes "Tunnel not found")) (ground arith)
              (ground (arith, v.looks s))
        | inr (t, found) ↦
            proxy_through-AreAlike _ _ s t ip req x (ground arith) (ground (arith, v.looks s))
      ]
    ]
  ]

  abbrev Deleted : ServerState × Answer → ServerState × Answer → Type 0
  Deleted d g = (p : Registry) × (g ≡ (state_with d.0 p, d.1)) × IsSame d.0.registry p

  delete-refused :
      (d g : ServerState × Answer) (a : Answer)
      → d ≡ (state, a)
      → g ≡ (state_with state q, a)
      → Deleted d g
  delete-refused d g a e f = rw (e, f) (q, refl, v)

  delete-done :
      (d g : ServerState × Answer) (s : Text)
      → d ≡ (state_with state (Registry.deregister state.registry s), no_content)
      → g ≡ (state_with state (Registry.deregister q s), no_content)
      → Deleted d g
  delete-done d g s e f =
      rw (e, f) (Registry.deregister q s, refl, deregister-IsSame state.registry q s v)

  delete_tunnel-Deleted :
      (s : Text) (req : Request)
      → Deleted (delete_tunnel state s req) (delete_tunnel (state_with state q) s req)
  unfolding delete_tunnel
  delete_tunnel-Deleted s req = elim (Result-cases (validate_admin_auth req state.config)) [
    | inr (answer, refused) ↦ delete-refused _ _ answer (ground arith) (ground arith)
    | inl (u, accepted) ↦ elim (Option-cases (Registry.get state.registry s)) [
      | inl missing ↦
          delete-refused _ _ (admin_error 404 (codes "Tunnel '" ++ (s ++ codes "' not found")))
            (ground arith) (ground (arith, v.looks s))
      | inr (t, found) ↦ delete-done _ _ s (ground arith) (ground (arith, v.looks s))
    ]
  ]

-- The order of the registry's entries, which the server's map leaves open, makes no difference to
-- the runs: where the server can make a step, it can make the same step with a registry that has the
-- same reserved names and the same lookups, and comes to a registry with the same lookups again.
pub Step-respects :
    {w v : World} (q : Registry)
    → Step w v
    → IsSame w.server.registry q
    → (p : Registry) × Step (world_with w q) (world_with v p) × IsSame v.server.registry p
unfolding connected disconnected enter leave
Step-respects q (connect w token s now known label) same =
    let t = Tunnel.new s token w.next now in
    let result = register-result w.server.registry q s t same in
    (
      (Registry.register q s t).0,
      subst
          (λ res. Step (world_with w q) (record {
            server = state_with w.server (Registry.register q s t).0;
            serving = if is_ok res then (w.next, s) ∷ w.serving else w.serving;
            next = suc w.next;
          }))
          (sym result) (connect (world_with w q) token s now known label),
      register-IsSame w.server.registry q s t same,
    )
Step-respects q (disconnect w c s serves) same = (
  Registry.deregister q s,
  disconnect (world_with w q) c s serves,
  deregister-IsSame w.server.registry q s same,
)
Step-respects q (visit w up ip req x) same =
    let (p, e, alike) = handle_request-AreAlike w.server q same up ip req x in
    (
      p,
      subst (λ server. Step (world_with w q) (record w { server = server })) (ap (λ h. h.state) e)
          (visit (world_with w q) up ip req x),
      alike,
    )
Step-respects q (delete w s req) same =
    let (p, e, alike) = delete_tunnel-Deleted w.server q same s req in
    (
      p,
      subst (λ server. Step (world_with w q) (record w { server = server })) (ap (λ d. d.0) e)
          (delete (world_with w q) s req),
      alike,
    )
Step-respects q (clean w now) same = (
  remove_idle q w.server.config.limits.idle_tunnel_timeout_secs now,
  clean (world_with w q) now,
  remove_idle-IsSame w.server.registry q _ now same,
)
