-- ===== src/Cli/Status/Tests.antt =====
-- The report of a server's tunnels at a concrete server, with a JSON of lists that keeps the parts of
-- an entry by their lengths.
use loophole.Base.{
  ℕ, zero, suc, ◌≡◌, refl, true, false, Option, none, some, List, [], ◌∷◌, ◌++◌, length, take, drop,
}
use loophole.Text.{Text, codes}
use loophole.Text.Numbers.{to_string, digits_from}
use loophole.Console.{Console}
use loophole.Map
use loophole.Server.Tunnel as Tunnel
use loophole.Server.Tunnel.{Tunnel}
use loophole.Server.Registry
use loophole.Server.Config.Defs.{Config, default_limits}
use loophole.Server.Proxy.Defs.{Request}
use loophole.Server.Router.Defs.{ServerState, TunnelInfo}
use loophole.Cli.Status.{format_duration}
use loophole.Cli.Status.Report.{format_count}

abbrev encode : List TunnelInfo → Text
encode [] = []
encode (i ∷ is) =
    length i.subdomain
    ∷ i.created_at_secs
    ∷ i.request_count
    ∷ i.idle_secs
    ∷ (i.subdomain ++ encode is)

abbrev decode : ℕ → Text → List TunnelInfo
decode zero s = []
decode (suc k) (n ∷ a ∷ b ∷ c ∷ s) =
    record { subdomain = take n s; created_at_secs = a; request_count = b; idle_secs = c }
    ∷ decode k (drop n s)
decode (suc k) s = []

abbrev list_json : List TunnelInfo → ℕ → Text
list_json infos n = n ∷ length infos ∷ encode infos

abbrev from_json : Text → Option (List TunnelInfo × ℕ)
from_json (n ∷ k ∷ s) = some (decode k s, n)
from_json s = none

abbrev config : Config
config = record {
  version = 1;
  server = record { domain = codes "ex.com"; http_port = 80; https_port = 443 };
  tokens = (codes "tk_a", record { admin = false }) ∷ (codes "tk_b", record { admin = true }) ∷ [];
  limits = default_limits;
  https = none;
}

abbrev my_app : Tunnel
my_app = Tunnel.new (codes "my-app") (codes "tk_a") 0 9

abbrev state : ServerState
state = record {
  config = config;
  registry = (Registry.register Registry.new (codes "my-app") my_app).0;
  cert_manager = none;
}

abbrev request : Text → Text → Request
request url token = record {
  method = codes "GET";
  path = url;
  path_and_query = some url;
  headers = (codes "authorization", codes "Bearer " ++ token) ∷ [];
}

abbrev console : Console
console = record {
  stdin = [];
  secrets = [];
  printed = [];
  files = [];
  ran = [];
  may_write = λ _. true;
  may_create = λ _. true;
}

abbrev one_decimal : ℕ → ℕ → Text
one_decimal n d = []

counts : (format_count one_decimal 999 ≡ codes "999") × (format_count one_decimal 1_000 ≡ codes "K")
unfolding format_count to_string digits_from
counts = (refl, refl)

durations :
    (format_duration 59 ≡ codes "59s")
    × (format_duration 120 ≡ codes "2m")
    × (format_duration 150 ≡ codes "2m 30s")
    × (format_duration 7260 ≡ codes "2h 1m")
unfolding format_duration to_string
durations = (refl, refl, refl, refl)
