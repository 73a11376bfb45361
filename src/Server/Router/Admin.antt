-- ===== src/Server/Router/Admin.antt =====
-- The admin API: who may use it, what a deletion changes and what the list shows.
use loophole.Base.{
  ℕ, ◌≡◌, ◌≢◌, ◌⊎◌, ◌↔◌, refl, ap, ◌∙◌, inl, inr, true, none, some, List, [], ◌∷◌, ◌++◌, arith,
  Bool-cases, Option-cases, is_some, if◌then◌else◌, ok, err, length, map, All,
}
use loophole.Text.{Text, codes, ◌==◌, strip_prefix}
use loophole.Text.Laws.{eq_iff, strip_prefix-append, eq-append_of_strip_prefix}
use loophole.Map.{get-ne-none_of_keys}
use loophole.Server.Registry
use loophole.Server.Registry.{Registry}
use loophole.Server.Registry.Invariant.{IsSound, get-deregister}
use loophole.Server.Config.Defs.{Config, validate_admin_token}
use loophole.Server.Proxy.Defs.{Request}
use loophole.Server.Router.Defs.{
  ServerState, admin_error, tunnel_list, no_content, TunnelInfo, header_text, validate_admin_auth,
  tunnel_infos, list_tunnels, delete_tunnel,
}

-- The request carries an admin token of the configuration.
pub record IsAuthorized (req : Request) (config : Config) : Type 0 where
  pub token : Text
  pub bearer : header_text (codes "authorization") req ≡ some (codes "Bearer " ++ token)
  pub admin : validate_admin_token config token ≡ true

validate_admin_auth_iff :
    (req : Request) (config : Config)
    → (validate_admin_auth req config ≡ ok tt) ↔ IsAuthorized req config
unfolding validate_admin_auth
validate_admin_auth_iff req config = (to, from)
  where
    to : validate_admin_auth req config ≡ ok tt → IsAuthorized req config
    to h = elim (Option-cases (header_text (codes "authorization") req)) [
      | inl missing ↦ absurd (ground arith)
      | inr (given, found) ↦ elim (Option-cases (strip_prefix given (codes "Bearer "))) [
        | inl bad ↦ absurd (ground arith)
        | inr (token, stripped) ↦ record {
          token = token;
          bearer =
              found ∙ ap some (eq-append_of_strip_prefix given (codes "Bearer ") token stripped);
          admin = ground arith;
        }
      ]
    ]

    from : IsAuthorized req config → validate_admin_auth req config ≡ ok tt
    from v = ground (arith, v.bearer, v.admin, strip_prefix-append (codes "Bearer ") v.token)

validate_admin_auth-cases :
    (req : Request) (config : Config)
    → (validate_admin_auth req config ≡ ok tt)
      ⊎ ((message : Text) × (validate_admin_auth req config ≡ err (admin_error 401 message)))
unfolding validate_admin_auth
validate_admin_auth-cases req config =
    elim (Option-cases (header_text (codes "authorization") req)) [
      | inl missing ↦ inr (codes "Authorization header required", ground arith)
      | inr (given, found) ↦ elim (Option-cases (strip_prefix given (codes "Bearer "))) [
        | inl bad ↦ inr (codes "Invalid authorization format", ground arith)
        | inr (token, stripped) ↦ elim (Bool-cases (validate_admin_token config token)) [
          | inl t ↦ inl (ground arith)
          | inr f ↦ inr (codes "Invalid or non-admin token", ground arith)
        ]
      ]
    ]

-- Without an admin token both calls answer 401, and a deletion changes nothing.
pub admin-unauthorized :
    (state : ServerState) (now : ℕ) (subdomain : Text) (req : Request)
    → ¬ IsAuthorized req state.config
    → (message : Text) × (list_tunnels state now req ≡ admin_error 401 message)
      × (delete_tunnel state subdomain req ≡ (state, admin_error 401 message))
unfolding list_tunnels delete_tunnel
admin-unauthorized state now subdomain req h = elim (validate_admin_auth-cases req state.config) [
  | inl accepted ↦ absurd (h ((validate_admin_auth_iff req state.config).0 accepted))
  | inr (message, refused) ↦ (message, ground arith, ground arith)
]

-- With an admin token a deletion takes exactly the named tunnel out of the registry and answers 204
-- if it was there, else 404.
pub delete_tunnel-authorized :
    (state : ServerState) (subdomain j : Text) (req : Request)
    → IsAuthorized req state.config
    → (Registry.get (delete_tunnel state subdomain req).0.registry j
        ≡ (if subdomain == j then none else Registry.get state.registry j))
      × ((delete_tunnel state subdomain req).1 ≡ (
          if is_some (Registry.get state.registry subdomain)
          then no_content
          else admin_error 404 (codes "Tunnel '" ++ (subdomain ++ codes "' not found"))))
unfolding delete_tunnel
delete_tunnel-authorized state subdomain j req v =
    let accepted = (validate_admin_auth_iff req state.config).1 v in
    (ground (arith, get-deregister state.registry subdomain j, eq_iff subdomain j), ground arith)

tunnel_infos-subdomains :
    (r : Registry) (now : ℕ) (ss : List Text)
    → IsSound r
    → All (λ s. Registry.get r s ≢ none) ss
    → map (λ (i : TunnelInfo). i.subdomain) (tunnel_infos r now ss) ≡ ss
unfolding tunnel_infos
tunnel_infos-subdomains r now [] v h = refl
tunnel_infos-subdomains r now (s ∷ ss) v (here, h) = elim (Option-cases (Registry.get r s)) [
  | inl missing ↦ absurd (here missing)
  | inr (t, found) ↦
      let (_, _, name) = v.named s t found in ground (arith, tunnel_infos-subdomains r now ss v h)
]

-- With an admin token, and a registry that keeps its invariant, the list has the names of the
-- registry in their order, and the count is their number.
pub list_tunnels-authorized :
    (state : ServerState) (now : ℕ) (req : Request)
    → IsAuthorized req state.config
    → IsSound state.registry
    → (infos : List TunnelInfo) × (list_tunnels state now req ≡ tunnel_list infos (length infos))
      × (map (λ (i : TunnelInfo). i.subdomain) infos ≡ Registry.subdomains state.registry)
unfolding list_tunnels
list_tunnels-authorized state now req v sound =
    let accepted = (validate_admin_auth_iff req state.config).1 v in
    (
      tunnel_infos state.registry now (Registry.subdomains state.registry),
      ground arith,
      tunnel_infos-subdomains state.registry now _ sound
          (unfold Registry.get Registry.subdomains in get-ne-none_of_keys state.registry.tunnels),
    )
