-- ===== src/Server/Config/Tests.antt =====
-- The theorems of the configuration at a concrete environment.
use loophole.Base.{
  ◌≡◌, refl, true, false, Option, none, some, ok, [], ◌∷◌, ◌||◌, is_some, if◌then◌else◌,
}
use loophole.Text.{Text, codes, ◌==◌, mem, trim, split}
use loophole.Text.Numbers.{parse_uint}
use loophole.Map
use loophole.Server.Config.Defs.{Config, default_limits, validate_token, validate_admin_token}
use loophole.Server.Config.Env.{
  from_env, domain_var, tokens_var, admin_tokens_var, http_port_var, token_names, all_tokens,
  load_or_from_env,
}
use loophole.Server.Config.Tokens.{from_env-tokens, admin_names}

abbrev sample_env : Text → Option Text
sample_env name =
    if name == domain_var
    then some (codes "tunnel.example.com")
    else if name == tokens_var
    then some (codes "tk_a, tk_b,,")
    else if name == admin_tokens_var
    then some (codes "tk_b")
    else if name == http_port_var
    then some (codes "8080")
    else none

abbrev loaded : Config
loaded = record {
  version = 1;
  server = record { domain = codes "tunnel.example.com"; http_port = 8080; https_port = 443 };
  tokens = (codes "tk_a", record { admin = false }) ∷ (codes "tk_b", record { admin = true }) ∷ [];
  limits = default_limits;
  https = none;
}

from_env_runs : from_env sample_env ≡ ok loaded
unfolding from_env all_tokens token_names trim split parse_uint ◌==◌ Map.insert
from_env_runs = refl

from_env-tokens_example :
    (s : Text) × (sample_env tokens_var ≡ some s)
    × (is_some (validate_token loaded (codes "tk_b")) ≡ (
        mem (token_names s) (codes "tk_b")
        || mem (admin_names (sample_env admin_tokens_var)) (codes "tk_b")))
    × (validate_admin_token loaded (codes "tk_b")
        ≡ mem (admin_names (sample_env admin_tokens_var)) (codes "tk_b"))
from_env-tokens_example = from_env-tokens sample_env (codes "tk_b") from_env_runs

loads_from_env :
    load_or_from_env (λ _. none) (λ _. none) (λ name. is_some (sample_env name)) sample_env none
    ≡ ok loaded
unfolding load_or_from_env ◌==◌
loads_from_env = from_env_runs
