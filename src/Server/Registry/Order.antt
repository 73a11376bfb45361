-- ===== src/Server/Registry/Order.antt =====
-- The registry up to the order of its entries, which `DashMap` leaves open: what the operations of
-- server/registry.rs do to the lookups depends only on the lookups.
use loophole.Base.{◌≡◌, sym, ◌∙◌, arith}
use loophole.Text.{Text}
use loophole.Map
use loophole.Server.Tunnel.{Tunnel}
use loophole.Server.Registry.Defs.{Registry, register, deregister, get}
use loophole.Server.Registry.Invariant.{register_lem, register-reserved, get-deregister}

-- The same reserved names and the same lookups.
pub record IsSame (r q : Registry) : Type 0 where
  pub reserved : r.reserved ≡ q.reserved
  pub looks : (k : Text) → get r k ≡ get q k

pub register-result :
    (r q : Registry) (s : Text) (t : Tunnel) → IsSame r q → (register r s t).1 ≡ (register q s t).1
unfolding register get Map.contains_key
register-result r q s t v = ground (arith, v.reserved, v.looks s)

pub register-IsSame :
    (r q : Registry) (s : Text) (t : Tunnel)
    → IsSame r q
    → IsSame (register r s t).0 (register q s t).0
register-IsSame r q s t v = record {
  reserved = register-reserved r s t ∙ (v.reserved ∙ sym (register-reserved q s t));
  looks = λ k. ground (
    arith,
    (register_lem r s t).1 k,
    (register_lem q s t).1 k,
    register-result r q s t v,
    v.looks k,
  );
}

pub deregister-IsSame :
    (r q : Registry) (s : Text) → IsSame r q → IsSame (deregister r s) (deregister q s)
unfolding deregister
deregister-IsSame r q s v = record {
  reserved = v.reserved;
  looks = λ k.
      unfold deregister in ground (arith, get-deregister r s k, get-deregister q s k, v.looks k);
}
