-- ===== src/Server/Registry/Invariant.antt =====
-- What the registry promises: its operations as updates of a partial function from subdomains to
-- tunnels, and the invariant that every registered name is a label that is not reserved.
use loophole.Base.{
  ◌≡◌, refl, ◌↔◌, ◌∙◌, subst, true, false, ◌&&◌, none, some, [], ◌∷◌, is_ok, arith, is_some,
  Bool-cases, if◌then◌else◌, inl, inr,
}
use loophole.Text.{Text, mem, ◌==◌}
use loophole.Text.Laws.{eq_iff}
use loophole.Map
use loophole.Map.{map_laws, get-remove, Distinct, Distinct-insert, Distinct-remove}
use loophole.Server.Tunnel.{Tunnel}
use loophole.Server.Registry.Defs.{
  Registry, new, register, deregister, get, subdomains, reserved_names,
}
use loophole.Server.Registry.Validation.{IsLabel, validate_subdomain_iff}

-- `register` succeeds exactly for a label that is not reserved and not taken. Then it binds that
-- name to the tunnel; otherwise it changes no name.
pub register_lem :
    (r : Registry) (s : Text) (t : Tunnel)
    → ((is_ok (register r s t).1 ≡ true)
        ↔ (IsLabel s × (mem r.reserved s ≡ false) × (get r s ≡ none)))
      × ((j : Text)
          → get (register r s t).0 j
            ≡ (if is_ok (register r s t).1 && s == j then some t else get r j))
unfolding register get Map.contains_key
register_lem r s t = ((to, from), λ j. grind (arith, map_laws))
  where
    to : is_ok (register r s t).1 ≡ true → IsLabel s × (mem r.reserved s ≡ false) × (get r s ≡ none)
    to h = ((validate_subdomain_iff s).0 (ground arith), ground arith, ground arith)

    from :
        IsLabel s × (mem r.reserved s ≡ false) × (get r s ≡ none) → is_ok (register r s t).1 ≡ true
    from (v, free, vacant) = ground (arith, (validate_subdomain_iff s).1 v)

pub register-reserved :
    (r : Registry) (s : Text) (t : Tunnel) → (register r s t).0.reserved ≡ r.reserved
unfolding register
register-reserved r s t = ground arith

pub get-deregister :
    (r : Registry) (s j : Text) → get (deregister r s) j ≡ (if s == j then none else get r j)
unfolding deregister get
get-deregister r s j = get-remove r.tunnels s j

pub record IsSound (r : Registry) : Type 0 where
  pub reserved : r.reserved ≡ reserved_names
  pub distinct : Distinct (subdomains r)
  pub named :
      (k : Text) (t : Tunnel)
      → get r k ≡ some t
      → IsLabel k × (mem reserved_names k ≡ false) × (t.subdomain ≡ k)

pub new-IsSound : IsSound new
unfolding new get subdomains Map.get Map.keys
new-IsSound = record { reserved = refl; distinct = tt; named = λ k t h. cc }

register-Distinct :
    (r : Registry) (s : Text) (t : Tunnel)
    → Distinct (subdomains r)
    → Distinct (subdomains (register r s t).0)
unfolding register subdomains
register-Distinct r s t h = ground (arith, Distinct-insert r.tunnels s t h)

register-named :
    (r : Registry) (t : Tunnel) (k : Text) (u : Tunnel)
    → IsSound r
    → get (register r t.subdomain t).0 k ≡ some u
    → IsLabel k × (mem reserved_names k ≡ false) × (u.subdomain ≡ k)
register-named r t k u v h =
    let (accepted, found) = register_lem r t.subdomain t in
    elim (Bool-cases (is_ok (register r t.subdomain t).1 && t.subdomain == k)) [
      | inl fresh ↦
          let (label, free, vacant) = accepted.0 (ground arith) in
          let here : t.subdomain ≡ k = (eq_iff _ _).0 (ground arith) in
          let same : t ≡ u = ground (arith, found k) in
          (subst IsLabel here label, cc (here, free, v.reserved), cc (here, same))
      | inr old ↦ v.named k u (ground (arith, found k))
    ]

-- Registering a tunnel under its own subdomain, whatever the outcome, keeps every registered name a
-- label that is not reserved, bound to a tunnel of that name, and the names distinct.
pub register-IsSound :
    (r : Registry) (t : Tunnel) → IsSound r → IsSound (register r t.subdomain t).0
register-IsSound r t v = record {
  reserved = register-reserved r t.subdomain t ∙ v.reserved;
  distinct = register-Distinct r t.subdomain t v.distinct;
  named = λ k u h. register-named r t k u v h;
}

pub deregister-IsSound : (r : Registry) (s : Text) → IsSound r → IsSound (deregister r s)
unfolding deregister subdomains
deregister-IsSound r s v = record {
  reserved = v.reserved;
  distinct = Distinct-remove r.tunnels s v.distinct;
  named = λ k t h. v.named k t (ground (arith, get-deregister r s k));
}

keys-mem : (m : Map.Map Tunnel) (k : Text) → mem (Map.keys m) k ≡ is_some (Map.get m k)
unfolding mem Map.keys Map.get
keys-mem [] k = refl
keys-mem ((j, t) ∷ m) k = ground (arith, keys-mem m k)

-- The names that are listed for iteration are those that are registered.
pub mem-subdomains : (r : Registry) (k : Text) → mem (subdomains r) k ≡ is_some (get r k)
unfolding subdomains get
mem-subdomains r k = keys-mem r.tunnels k
