-- ===== src/Server/Sessions/Entries.antt =====
-- What the steps do to the entries of the registry.
use loophole.Base.{
  ℕ, suc, ◌≡◌, ◌<◌, ◌⊎◌, refl, sym, ap, ◌∙◌, inl, inr, Bool, true, ◌&&◌, some, arith, Bool-cases,
  Option-cases, is_some, is_ok, Result-cases, if◌then◌else◌,
}
use loophole.Text.{Text, ◌==◌}
use loophole.Text.Laws.{eq_iff}
use loophole.Map
use loophole.Map.{get-insert, Distinct-insert}
use loophole.Server.Tunnel.{Tunnel, increment_requests}
use loophole.Server.Tunnel
use loophole.Server.Registry
use loophole.Server.Registry.{Registry, reserved_names}
use loophole.Server.Registry.Invariant.{
  IsSound, register-IsSound, deregister-IsSound, register_lem, get-deregister,
}
use loophole.Server.Config.Defs.{Config, validate_token, control_path}
use loophole.Server.Proxy.Defs.{Request, Exchange, proxy_request}
use loophole.Server.Router.Defs.{
  ServerState, handle_request, delete_tunnel, put_tunnel, proxy_through, host_of, extract_subdomain,
  validate_admin_auth,
}
use loophole.Server.Cleanup.{remove_idle, remove_idle-get, remove_idle-IsSound}

-- An entry of the registry: its token is one of the configuration, and its connection has a number.
pub record IsOwned (config : Config) (next : ℕ) (t : Tunnel) : Type 0 where
  pub known : is_some (validate_token config t.token) ≡ true
  pub older : t.request_tx < next

-- What the registry keeps.
pub record IsGood (config : Config) (next : ℕ) (r : Registry) : Type 0 where
  pub sound : IsSound r
  pub owned : (k : Text) (t : Tunnel) → Registry.get r k ≡ some t → IsOwned config next t
  -- A connection has at most one tunnel.
  pub single :
      (k j : Text) (t u : Tunnel)
      → Registry.get r k ≡ some t
      → Registry.get r j ≡ some u
      → t.request_tx ≡ u.request_tx
      → k ≡ j

-- A registry whose entries all come from another's.
IsGood-part :
    (config : Config) (next : ℕ) (r q : Registry)
    → ((k : Text) (t : Tunnel)
        → Registry.get q k ≡ some t
        → (u : Tunnel) × (Registry.get r k ≡ some u)
          × (t.token ≡ u.token)
          × (t.request_tx ≡ u.request_tx))
    → IsSound q
    → IsGood config next r
    → IsGood config next q
IsGood-part config next r q part sound v = record {
  sound = sound;
  owned = λ k t h.
      let (u, found, token, tx) = part k t h in
      let o = v.owned k u found in record { known = rw token o.known; older = rw tx o.older };
  single = λ k j t u h g e.
      let (t', found_t, _, tx_t) = part k t h in
      let (u', found_u, _, tx_u) = part j u g in
      v.single k j t' u' found_t found_u (cc (tx_t, tx_u, e));
}

pub deregister-IsGood :
    (config : Config) (next : ℕ) (r : Registry) (s : Text)
    → IsGood config next r
    → IsGood config next (Registry.deregister r s)
deregister-IsGood config next r s v =
    IsGood-part config next r (Registry.deregister r s)
      (λ k t h. (t, ground (arith, get-deregister r s k), refl, refl))
      (deregister-IsSound r s v.sound) v

pub remove_idle-IsGood :
    (config : Config) (next : ℕ) (r : Registry) (limit now : ℕ)
    → IsGood config next r
    → IsGood config next (remove_idle r limit now)
remove_idle-IsGood config next r limit now v =
    IsGood-part config next r (remove_idle r limit now) (λ k t h. (t, kept-some k t h, refl, refl))
      (remove_idle-IsSound limit now r v.sound) v
  where
    kept-some :
        (k : Text) (t : Tunnel)
        → Registry.get (remove_idle r limit now) k ≡ some t
        → Registry.get r k ≡ some t
    kept-some k t h = elim (Option-cases (Registry.get r k)) [
      | inl missing ↦ ground (arith, remove_idle-get limit now r k)
      | inr (u, found) ↦ ground (arith, remove_idle-get limit now r k)
    ]

proxy_request-tunnel :
    (t : Tunnel) (req : Request) (ip : Text) (https : Bool) (x : Exchange)
    → (proxy_request t req ip https x).tunnel ≡ (increment_requests t x.now).0
unfolding proxy_request
proxy_request-tunnel t req ip https x = ground arith

-- A request changes at most the counters of one registered tunnel.
pub handle_request-cases :
    (state : ServerState) (up : Bool) (ip : Text) (req : Request) (x : Exchange)
    → ((handle_request state up ip req x).state ≡ state)
      ⊎ ((s : Text) × (t : Tunnel) × (Registry.get state.registry s ≡ some t)
          × ((handle_request state up ip req x).state
              ≡ put_tunnel state s (increment_requests t x.now).0))
unfolding handle_request proxy_through
handle_request-cases state up ip req x = elim (Bool-cases (req.path == control_path)) [
  | inl control ↦ inl (ground arith)
  | inr other ↦ elim (Option-cases (extract_subdomain (host_of req) state.config.server.domain)) [
    | inl unknown ↦ inl (ground arith)
    | inr (s, named) ↦ elim (Option-cases (Registry.get state.registry s)) [
      | inl missing ↦ inl (ground arith)
      | inr (t, found) ↦ inr (
        s,
        t,
        found,
        ground (arith, proxy_request-tunnel t req ip (is_some state.config.https) x),
      )
    ]
  ]
]

pub put_tunnel-IsGood :
    (config : Config) (next now : ℕ) (state : ServerState) (s : Text) (t : Tunnel)
    → Registry.get state.registry s ≡ some t
    → IsGood config next state.registry
    → IsGood config next (put_tunnel state s (increment_requests t now).0).registry
unfolding put_tunnel increment_requests Registry.get
put_tunnel-IsGood config next now state s t found v =
    IsGood-part config next state.registry
      (put_tunnel state s (increment_requests t now).0).registry
      (λ k u h. elim (Bool-cases (s == k)) [
        | inl here ↦ (
          t,
          rw (← (eq_iff s k).0 here) found,
          ground (arith, changed k),
          ground (arith, changed k),
        )
        | inr other ↦ (u, ground (arith, changed k), refl, refl)
      ])
      (record {
        reserved = v.sound.reserved;
        distinct =
            unfold Registry.subdomains in
            Distinct-insert state.registry.tunnels s _ v.sound.distinct;
        named = λ k u h. elim (Bool-cases (s == k)) [
          | inl here ↦
              let (label, free, name) = v.sound.named k t (rw (← (eq_iff s k).0 here) found) in
              (label, free, ground (arith, changed k))
          | inr other ↦ v.sound.named k u (ground (arith, changed k))
        ];
      })
      v
  where
    changed :
        (k : Text)
        → Map.get (Map.insert state.registry.tunnels s (increment_requests t now).0) k
          ≡ (if s == k then some (increment_requests t now).0 else Map.get state.registry.tunnels k)
    changed k = get-insert state.registry.tunnels s k (increment_requests t now).0

pub delete_tunnel-cases :
    (state : ServerState) (s : Text) (req : Request)
    → ((delete_tunnel state s req).0 ≡ state)
      ⊎ ((delete_tunnel state s req).0
          ≡ record state { registry = Registry.deregister state.registry s })
unfolding delete_tunnel
delete_tunnel-cases state s req = elim (Result-cases (validate_admin_auth req state.config)) [
  | inr (answer, refused) ↦ inl (ground arith)
  | inl (u, accepted) ↦ elim (Bool-cases (is_some (Registry.get state.registry s))) [
    | inl found ↦ inr (ground arith)
    | inr missing ↦ inl (ground arith)
  ]
]

pub register-IsGood :
    (config : Config) (next now : ℕ) (r : Registry) (token s : Text)
    → is_some (validate_token config token) ≡ true
    → IsGood config next r
    → IsGood config (suc next) (Registry.register r s (Tunnel.new s token next now)).0
unfolding Tunnel.new
register-IsGood config next now r token s known v = record {
  sound = register-IsSound r t v.sound;
  owned = λ k u h. elim (from k u h) [
    | inl old ↦ record {
      known = (v.owned k u old).known;
      older = omega (arith, (v.owned k u old).older);
    }
    | inr (_, here) ↦ record { known = rw here known; older = rw here (omega arith) }
  ];
  single = λ k j u w h g e. elim (from k u h) [
    | inl old ↦ elim (from j w g) [
      | inl old' ↦ v.single k j u w old old' e
      | inr (_, here') ↦
          absurd
            (omega (arith, (v.owned k u old).older, e, ap (λ (x : Tunnel). x.request_tx) here'))
    ]
    | inr (at_k, here) ↦ elim (from j w g) [
      | inl old' ↦
          absurd
            (omega (arith, (v.owned j w old').older, e, ap (λ (x : Tunnel). x.request_tx) here))
      | inr (at_j, here') ↦ sym at_k ∙ at_j
    ]
  ];
}
  where
    t : Tunnel
    t = Tunnel.new s token next now

    from :
        (k : Text) (u : Tunnel)
        → Registry.get (Registry.register r s t).0 k ≡ some u
        → (Registry.get r k ≡ some u) ⊎ ((s ≡ k) × (u ≡ t))
    from k u h =
        let found = (register_lem r s t).1 k in
        elim (Bool-cases (is_ok (Registry.register r s t).1 && s == k)) [
          | inl fresh ↦ inr ((eq_iff s k).0 (ground arith), ground arith)
          | inr other ↦ inl (ground arith)
        ]
