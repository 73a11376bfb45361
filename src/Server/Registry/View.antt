-- ===== src/Server/Registry/View.antt =====
-- The registry as those who use it see it: a quotient that forgets the order of the entries.
use mathlib.Core.Quot
use mathlib.Core.Quot.{Quot, Quot-set}
use loophole.Base.{
  ◌≡◌, ◌≢◌, sym, ◌∙◌, false, some, arith, is_ok, ◌&&◌, if◌then◌else◌, eq-false_of_ne-true,
}
use loophole.Text.{Text, ◌==◌}
use loophole.Text.Laws.{eq_iff}
use loophole.Map
use loophole.Server.Tunnel.{Tunnel}
use loophole.Server.Registry.Defs.{Registry, register, get}
use loophole.Server.Registry.Invariant.{register_lem, register-reserved}
use loophole.Server.Registry.Order.{IsSame, register-IsSame}

abbrev pub View : Type 0
View = Quot IsSame

abbrev pub view : Registry → View
view r = Quot.mk r

-- The registration of a tunnel, as a map of views.
abbrev pub register_in : View → Text → Tunnel → View
register_in v s t =
    Quot.lift Quot-set (λ r. Quot.mk (register r s t).0)
      (λ r q h. Quot.sound (register-IsSame r q s t h)) v

module _ (r : Registry) (a b : Text) (t u : Tunnel) (other : (a == b) ≡ false) where
  -- Whether a name is accepted does not depend on the registration of another.
  register-result_other : (register (register r a t).0 b u).1 ≡ (register r b u).1
  unfolding register Map.contains_key get
  register-result_other =
      let kept : Map.get (register r a t).0.tunnels b ≡ Map.get r.tunnels b =
        ground (arith, (register_lem r a t).1 b) in
      ground (arith, kept, register-reserved r a t)

  register_twice-get :
      (k : Text)
      → get (register (register r a t).0 b u).0 k ≡ (
          if is_ok (register r b u).1 && b == k
          then some u
          else if is_ok (register r a t).1 && a == k
          then some t
          else get r k)
  register_twice-get k = ground (
    arith,
    (register_lem (register r a t).0 b u).1 k,
    register-result_other,
    (register_lem r a t).1 k,
  )

twice-IsSame :
    (r : Registry) (a b : Text) (t u : Tunnel)
    → (a == b) ≡ false
    → (b == a) ≡ false
    → IsSame (register (register r a t).0 b u).0 (register (register r b u).0 a t).0
twice-IsSame r a b t u ab ba = record {
  reserved =
      register-reserved (register r a t).0 b u
      ∙ (register-reserved r a t
          ∙ sym (register-reserved (register r b u).0 a t ∙ register-reserved r b u));
  looks = λ k. ground (
    arith,
    register_twice-get r a b t u ab k,
    register_twice-get r b a u t ba k,
    eq_iff a k,
    eq_iff b k,
  );
}

-- Connections that register different names may come in either order: the view of the registry that
-- results is the same, and each is answered as if it had come first.
pub register_comm :
    (r : Registry) (a b : Text) (t u : Tunnel)
    → a ≢ b
    → (register_in (register_in (view r) a t) b u ≡ register_in (register_in (view r) b u) a t)
      × ((register (register r a t).0 b u).1 ≡ (register r b u).1)
      × ((register (register r b u).0 a t).1 ≡ (register r a t).1)
register_comm r a b t u different =
    let ab : (a == b) ≡ false = eq-false_of_ne-true _ (λ e. different ((eq_iff a b).0 e)) in
    let ba : (b == a) ≡ false = eq-false_of_ne-true _ (λ e. different (sym ((eq_iff b a).0 e))) in
    (
      Quot.sound (twice-IsSame r a b t u ab ba),
      register-result_other r a b t u ab,
      register-result_other r b a u t ba,
    )
