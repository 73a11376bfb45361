-- ===== src/Server/Sessions/Tests.antt =====
-- The theorems of the whole server at concrete runs.
use mathlib.Core.List.{Memᴰ}
use loophole.Base.{◌≡◌, refl, false, none, some, [], ◌∷◌, arith}
use loophole.Text.{codes, ◌==◌, mem, len, starts_with, ends_with}
use loophole.Map
use loophole.Server.Tunnel
use loophole.Server.Registry
use loophole.Server.Registry.Validation.{IsLabel, validate_subdomain_iff}
use loophole.Server.Config.Defs.{Config, default_limits, validate_token}
use loophole.Server.Cleanup.{remove_idle, remove_idle-get, kept, remove_if_idle, remove_idle_of}
use loophole.Server.Tunnel.{is_idle}
use loophole.Server.Sessions.Defs.{
  World, Step, start, connected, disconnected, cleaned, connect, clean, Reachable, started,
  then_step,
}
use loophole.Server.Handler.Defs.{enter}
use loophole.Server.Sessions.Invariant.{IsValid, Reachable-IsValid}
use loophole.Text.Laws.{eq_iff}
use loophole.Server.Registry.Order.{IsSame}
use loophole.Server.Sessions.Order.{world_with, Step-respects}
use loophole.Server.Sessions.Replaced.{disconnected-removes_other}

abbrev config : Config
config = record {
  version = 1;
  server = record { domain = codes "ex.com"; http_port = 80; https_port = 443 };
  tokens = (codes "tk_b", record { admin = false }) ∷ [];
  limits = default_limits;
  https = none;
}

abbrev one_connected : World
one_connected = connected (start config none) (codes "tk_b") (codes "my-app") 9

-- More than an hour later the tunnel has been removed.
abbrev one_cleaned : World
one_cleaned = cleaned one_connected 5000

my-app-IsLabel : IsLabel (codes "my-app")
unfolding Registry.validate_subdomain len starts_with ends_with
my-app-IsLabel = (validate_subdomain_iff (codes "my-app")).0 refl

one_cleaned-Reachable : Reachable config one_cleaned
unfolding validate_token start Map.get ◌==◌
one_cleaned-Reachable =
    then_step
      (then_step (started none)
        (connect (start config none) (codes "tk_b") (codes "my-app") 9 refl my-app-IsLabel))
      (clean one_connected 5000)

Reachable-IsValid_example : IsValid config one_cleaned
Reachable-IsValid_example = Reachable-IsValid config one_cleaned-Reachable

one_cleaned-vacant :
    (mem one_cleaned.server.registry.reserved (codes "my-app") ≡ false)
    × (Registry.get one_cleaned.server.registry (codes "my-app") ≡ none)
unfolding connected start mem remove_idle Registry.subdomains Map.keys enter Registry.register
    Registry.validate_subdomain len starts_with ends_with Registry.new ◌==◌ Map.contains_key
    Map.insert remove_if_idle remove_idle_of Registry.get is_idle Map.get Map.remove
    Registry.deregister Tunnel.new
one_cleaned-vacant = (refl, refl)

disconnected-removes_other_example :
    (Registry.get
        (connected one_cleaned (codes "tk_b") (codes "my-app") 5001).server.registry
        (codes "my-app")
      ≡ some (Tunnel.new (codes "my-app") (codes "tk_b") 1 5001))
    × (Registry.get
          (disconnected
            (connected one_cleaned (codes "tk_b") (codes "my-app") 5001)
            0
            (codes "my-app")).server.registry
          (codes "my-app")
        ≡ none)
    × Memᴰ
        (1, codes "my-app")
        (disconnected
          (connected one_cleaned (codes "tk_b") (codes "my-app") 5001)
          0
          (codes "my-app")).serving
unfolding connected start
disconnected-removes_other_example =
    disconnected-removes_other one_cleaned 0 (codes "my-app") (codes "tk_b") 5001 (omega arith)
      my-app-IsLabel one_cleaned-vacant.0 one_cleaned-vacant.1

remove_idle-get_example :
    Registry.get (remove_idle one_connected.server.registry 3600 5000) (codes "my-app")
    ≡ kept 3600 5000 (Registry.get one_connected.server.registry (codes "my-app"))
remove_idle-get_example = remove_idle-get 3600 5000 one_connected.server.registry (codes "my-app")

abbrev first : Tunnel.Tunnel
first = Tunnel.new (codes "my-app") (codes "tk_b") 0 9

abbrev second : Tunnel.Tunnel
second = Tunnel.new (codes "blog") (codes "tk_b") 1 4000

abbrev in_order : Registry.Registry
in_order = record (Registry.new) { tunnels = (codes "my-app", first) ∷ (codes "blog", second) ∷ [] }

abbrev swapped : Registry.Registry
swapped = record (Registry.new) { tunnels = (codes "blog", second) ∷ (codes "my-app", first) ∷ [] }

abbrev two_connected : World
two_connected = record {
  server = record { config = config; registry = in_order; cert_manager = none };
  serving = (1, codes "blog") ∷ (0, codes "my-app") ∷ [];
  next = 2;
}

names_differ : (codes "my-app" == codes "blog") ≡ false
unfolding ◌==◌
names_differ = refl

swapped-IsSame : IsSame in_order swapped
unfolding Registry.get Map.get
swapped-IsSame = record {
  reserved = refl;
  looks = λ k. ground (
    arith,
    names_differ,
    eq_iff (codes "my-app") k,
    eq_iff (codes "blog") k,
    eq_iff (codes "my-app") (codes "blog"),
  );
}

Step-respects_example :
    (p : Registry.Registry) × Step
      (world_with two_connected swapped)
      (world_with (cleaned two_connected 5000) p)
    × IsSame (cleaned two_connected 5000).server.registry p
Step-respects_example = Step-respects swapped (clean two_connected 5000) swapped-IsSame
