-- ===== src/Server/Registry/Defs.antt =====
-- The registry's state and operations.
use loophole.Base.{
  ℕ, Bool, ◌||◌, Option, List, [], ◌∷◌, ltb, eqb, all, not, ◌++◌, length, Result, ok, err,
  if◌then◌else◌,
}
use loophole.Text.{Text, mem, codes, len, starts_with, ends_with, is_ascii_alphanumeric}
use loophole.Map
use loophole.Map.{Map}
use loophole.Server.Tunnel.{Tunnel}

pub data RegistryError : Type 0 where
  subdomain_taken : RegistryError
  invalid_subdomain : Text → RegistryError
  reserved_subdomain : RegistryError

-- The message of `thiserror`.
unfoldable pub to_string : RegistryError → Text
to_string subdomain_taken = codes "Subdomain is already taken"
to_string (invalid_subdomain why) = codes "Invalid subdomain: " ++ why
to_string reserved_subdomain = codes "Reserved subdomain"

pub record Registry : Type 0 where
  pub tunnels : Map Tunnel
  pub reserved : List Text

abbrev pub reserved_names : List Text
reserved_names =
    codes "www"
    ∷ codes "api"
    ∷ codes "admin"
    ∷ codes "mail"
    ∷ codes "ftp"
    ∷ codes "ssh"
    ∷ codes "tunnel"
    ∷ []

unfoldable pub new : Registry
new = record { tunnels = []; reserved = reserved_names }

abbrev pub is_label_char : ℕ → Bool
is_label_char c = is_ascii_alphanumeric c || eqb c b'-'

unfoldable pub validate_subdomain : Text → Result RegistryError (Unit {0})
validate_subdomain s =
    if ltb (len s) 3 || ltb 63 (len s)
    then err (invalid_subdomain (codes "Subdomain must be 3-63 characters"))
    else if not (all is_label_char s)
    then err (
        invalid_subdomain (codes "Subdomain must contain only alphanumeric characters and hyphens"))
    else if starts_with s (codes "-") || ends_with s (codes "-")
    then err (invalid_subdomain (codes "Subdomain cannot start or end with a hyphen"))
    else ok tt

-- The registry after the call, and the result. The entry is looked up and filled under one lock.
unfoldable pub register : Registry → Text → Tunnel → Registry × Result RegistryError (Unit {0})
register r subdomain tunnel = elim (validate_subdomain subdomain) [
  | err e ↦ (r, err e)
  | ok _ ↦
      if mem r.reserved subdomain
      then (r, err reserved_subdomain)
      else if Map.contains_key r.tunnels subdomain
      then (r, err subdomain_taken)
      else (record r { tunnels = Map.insert r.tunnels subdomain tunnel }, ok tt)
]

unfoldable pub deregister : Registry → Text → Registry
deregister r subdomain = record r { tunnels = Map.remove r.tunnels subdomain }

unfoldable pub get : Registry → Text → Option Tunnel
get r subdomain = Map.get r.tunnels subdomain

unfoldable pub subdomains : Registry → List Text
subdomains r = Map.keys r.tunnels

unfoldable pub count : Registry → ℕ
count r = length r.tunnels
