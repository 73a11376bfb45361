-- ===== src/Server/Sessions/Replaced.antt =====
-- The end of a connection whose name another connection has taken over.
use mathlib.Core.List.{Memᴰ}
use mathlib.Core.List.Memᴰ.{head}
use loophole.Base.{ℕ, ◌≡◌, ◌<◌, refl, false, none, some, arith, eqb}
use loophole.Text.{Text, mem}
use loophole.Text.Laws.{eq_refl}
use loophole.Server.Tunnel
use loophole.Server.Registry
use loophole.Server.Registry.{Registry}
use loophole.Server.Registry.Validation.{IsLabel}
use loophole.Server.Registry.Invariant.{register_lem, get-deregister}
use loophole.Server.Handler.Defs.{enter, leave}
use loophole.Server.Sessions.Defs.{World, connected, disconnected, without}

-- Where a connection ends whose name was taken out of the registry and has been registered by
-- another connection since (a label that is not reserved), that connection's tunnel is gone, though
-- it still serves.
pub disconnected-removes_other :
    (w : World) (c : ℕ) (s token : Text) (now : ℕ)
    → c < w.next
    → IsLabel s
    → mem w.server.registry.reserved s ≡ false
    → Registry.get w.server.registry s ≡ none
    → (Registry.get (connected w token s now).server.registry s
        ≡ some (Tunnel.new s token w.next now))
      × (Registry.get (disconnected (connected w token s now) c s).server.registry s ≡ none)
      × Memᴰ (w.next, s) (disconnected (connected w token s now) c s).serving
unfolding connected disconnected enter leave without
disconnected-removes_other w c s token now older label free vacant =
    let t = Tunnel.new s token w.next now in
    let (accepted, found) = register_lem w.server.registry s t in
    let success = accepted.1 (label, free, vacant) in
    let kept : eqb c w.next ≡ false = ground arith in
    (
      ground (arith, found s, eq_refl s),
      ground (arith, get-deregister (Registry.register w.server.registry s t).0 s s, eq_refl s),
      rw (success, kept) (head refl),
    )
