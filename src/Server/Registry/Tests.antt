-- ===== src/Server/Registry/Tests.antt =====
-- The theorems of the registry at concrete tunnels, and runs on the inputs of the repository's tests.
use loophole.Base.{◌≢◌, ◌≡◌, refl, ◌↔◌, true, false, none, ok, is_ok, [], ◌∷◌}
use loophole.Text.{codes, ◌==◌, mem, len, starts_with, ends_with}
use loophole.Map
use loophole.Server.Tunnel.{Tunnel}
use loophole.Server.Registry.Defs.{Registry, new, validate_subdomain, register, get, reserved_names}
use loophole.Server.Registry.Validation.{IsLabel, validate_subdomain_iff}
use loophole.Text.Laws.{eq_iff}
use loophole.Server.Registry.Invariant.{register_lem}
use loophole.Server.Registry.View.{view, register_in, register_comm}

abbrev my_app : Tunnel
my_app = record {
  subdomain = codes "my-app";
  token = codes "tk_a";
  request_tx = 1;
  created_at = 5;
  request_count = 0;
  last_activity = 5;
}

abbrev one_tunnel : Registry
one_tunnel = record { tunnels = (codes "my-app", my_app) ∷ []; reserved = reserved_names }

accepts_examples :
    (validate_subdomain (codes "myapp") ≡ ok tt)
    × (validate_subdomain (codes "my-app") ≡ ok tt)
    × (validate_subdomain (codes "app123") ≡ ok tt)
unfolding validate_subdomain len starts_with ends_with
accepts_examples = (refl, refl, refl)

rejects_examples :
    (is_ok (validate_subdomain (codes "ab")) ≡ false)
    × (is_ok (validate_subdomain (codes "-myapp")) ≡ false)
    × (is_ok (validate_subdomain (codes "myapp-")) ≡ false)
    × (is_ok (validate_subdomain (codes "my_app")) ≡ false)
    × (is_ok (validate_subdomain (codes "my.app")) ≡ false)
unfolding validate_subdomain len starts_with ends_with
rejects_examples = (refl, refl, refl, refl, refl)

register_runs : (register new (codes "my-app") my_app) ≡ (one_tunnel, ok tt)
unfolding register new validate_subdomain len starts_with ends_with mem ◌==◌ Map.contains_key
    Map.insert
register_runs = refl

validate_subdomain_iff_example :
    (validate_subdomain (codes "my-app") ≡ ok tt) ↔ IsLabel (codes "my-app")
validate_subdomain_iff_example = validate_subdomain_iff (codes "my-app")

register_lem_example : (is_ok (register one_tunnel (codes "my-app") my_app).1 ≡ true) ↔ (
    IsLabel (codes "my-app")
    × (mem reserved_names (codes "my-app") ≡ false)
    × (get one_tunnel (codes "my-app") ≡ none))
register_lem_example = (register_lem one_tunnel (codes "my-app") my_app).0

abbrev blog : Tunnel
blog = record my_app { subdomain = codes "blog"; request_tx = 2 }

names_differ : codes "my-app" ≢ codes "blog"
unfolding ◌==◌
names_differ e = let same : false ≡ true = (eq_iff (codes "my-app") (codes "blog")).1 e in cc

register_comm_example :
    (register_in (register_in (view new) (codes "my-app") my_app) (codes "blog") blog
      ≡ register_in (register_in (view new) (codes "blog") blog) (codes "my-app") my_app)
    × ((register (register new (codes "my-app") my_app).0 (codes "blog") blog).1
        ≡ (register new (codes "blog") blog).1)
    × ((register (register new (codes "blog") blog).0 (codes "my-app") my_app).1
        ≡ (register new (codes "my-app") my_app).1)
register_comm_example = register_comm new (codes "my-app") (codes "blog") my_app blog names_differ
