-- ===== src/Server/Cleanup.antt =====
-- server/mod.rs: `idle_tunnel_cleanup_task`, the task that removes idle tunnels. `now` is the reading
-- of the clock in seconds.
use loophole.Base.{
  ℕ, ◌≡◌, refl, Bool, true, false, Option, none, some, List, [], ◌∷◌, arith, Bool-cases,
  Option-cases, if◌then◌else◌, inl, inr,
}
use loophole.Text.{Text, ◌==◌, mem}
use loophole.Text.Laws.{eq_iff}
use loophole.Server.Tunnel.{Tunnel, is_idle}
use loophole.Server.Registry
use loophole.Server.Registry.{Registry}
use loophole.Server.Registry.Invariant.{IsSound, get-deregister, deregister-IsSound, mem-subdomains}

unfoldable pub remove_if_idle : Registry → ℕ → ℕ → Text → Registry
remove_if_idle r limit now s = elim (Registry.get r s) [
  | none ↦ r
  | some tunnel ↦ if is_idle tunnel limit now then Registry.deregister r s else r
]

-- The inner loop, over the names that the registry had at its start.
unfoldable pub remove_idle_of : Registry → ℕ → ℕ → List Text → Registry
remove_idle_of r limit now [] = r
remove_idle_of r limit now (s ∷ ss) = remove_idle_of (remove_if_idle r limit now s) limit now ss

-- One round.
unfoldable pub remove_idle : Registry → ℕ → ℕ → Registry
unfolding remove_idle_of
remove_idle r limit now = remove_idle_of r limit now (Registry.subdomains r)

-- What wakes the task: its interval, at a time, or the shutdown.
pub data Wake : Type 0 where
  tick : ℕ → Wake
  shutdown : Wake

-- The registry, and whether the task has ended.
unfoldable pub idle_tunnel_cleanup_task : Registry → ℕ → List Wake → Registry × Bool
idle_tunnel_cleanup_task r limit [] = (r, false)
idle_tunnel_cleanup_task r limit (shutdown ∷ ws) = (r, true)
idle_tunnel_cleanup_task r limit (tick now ∷ ws) =
    idle_tunnel_cleanup_task (remove_idle r limit now) limit ws

-- What is left of an entry.
abbrev pub kept : ℕ → ℕ → Option Tunnel → Option Tunnel
kept limit now none = none
kept limit now (some t) = if is_idle t limit now then none else some t

kept-kept :
    (limit now : ℕ) (o : Option Tunnel) → kept limit now (kept limit now o) ≡ kept limit now o
kept-kept limit now none = refl
kept-kept limit now (some t) = elim (Bool-cases (is_idle t limit now)) [
  | inl old ↦ ground arith
  | inr fresh ↦ rw (fresh, fresh) refl
]

module _ (limit now : ℕ) where
  remove_if_idle-get :
      (r : Registry) (s j : Text)
      → Registry.get (remove_if_idle r limit now s) j
        ≡ (if s == j then kept limit now (Registry.get r j) else Registry.get r j)
  unfolding remove_if_idle
  remove_if_idle-get r s j = elim (Option-cases (Registry.get r s)) [
    | inl missing ↦ ground (arith, eq_iff s j)
    | inr (t, found) ↦ ground (arith, get-deregister r s j, eq_iff s j)
  ]

  remove_if_idle-IsSound :
      (r : Registry) (s : Text) → IsSound r → IsSound (remove_if_idle r limit now s)
  unfolding remove_if_idle
  remove_if_idle-IsSound r s v = elim (Option-cases (Registry.get r s)) [
    | inl missing ↦ rw (missing, remove_if_idle) v
    | inr (t, found) ↦ elim (Bool-cases (is_idle t limit now)) [
      | inl old ↦ rw (found, old, remove_if_idle) (deregister-IsSound r s v)
      | inr fresh ↦ rw (found, fresh, remove_if_idle) v
    ]
  ]

  remove_idle_of-get :
      (r : Registry) (ss : List Text) (j : Text)
      → Registry.get (remove_idle_of r limit now ss) j
        ≡ (if mem ss j then kept limit now (Registry.get r j) else Registry.get r j)
  unfolding remove_idle_of mem
  remove_idle_of-get r [] j = refl
  remove_idle_of-get r (s ∷ ss) j = ground (
    arith,
    remove_idle_of-get (remove_if_idle r limit now s) ss j,
    remove_if_idle-get r s j,
    kept-kept limit now (Registry.get r j),
  )

  -- A round removes exactly the tunnels that have been idle for longer than the limit.
  pub remove_idle-get :
      (r : Registry) (j : Text)
      → Registry.get (remove_idle r limit now) j ≡ kept limit now (Registry.get r j)
  unfolding remove_idle
  remove_idle-get r j = elim (Option-cases (Registry.get r j)) [
    | inl missing ↦ ground (arith, remove_idle_of-get r (Registry.subdomains r) j)
    | inr (t, found) ↦
        ground (arith, remove_idle_of-get r (Registry.subdomains r) j, mem-subdomains r j)
  ]

  remove_idle_of-IsSound :
      (r : Registry) (ss : List Text) → IsSound r → IsSound (remove_idle_of r limit now ss)
  unfolding remove_idle_of
  remove_idle_of-IsSound r [] v = v
  remove_idle_of-IsSound r (s ∷ ss) v =
      remove_idle_of-IsSound (remove_if_idle r limit now s) ss (remove_if_idle-IsSound r s v)

  pub remove_idle-IsSound : (r : Registry) → IsSound r → IsSound (remove_idle r limit now)
  unfolding remove_idle
  remove_idle-IsSound r v = remove_idle_of-IsSound r (Registry.subdomains r) v
