-- ===== src/Server/Config/Tokens.antt =====
-- Which tokens a configuration from the environment accepts, and when it is accepted itself.
use loophole.Base.{
  ◌≡◌, refl, ◌↔◌, Bool, true, false, ◌||◌, Option, none, some, List, [], ◌∷◌, ok, is_ok, arith,
  is_some, Option-cases, if◌then◌else◌, is_empty, inl, inr,
}
use loophole.Text.{Text, mem}
use loophole.Text.Laws.{eq_refl}
use loophole.Map
use loophole.Map.{Map, get-insert}
use loophole.Server.Config.Defs.{TokenConfig, Config, validate_token, validate_admin_token}
use loophole.Server.Config.Env.{
  token_names, add_tokens, all_tokens, from_env, tokens_var, admin_tokens_var, domain_var, load,
  load_or_from_env,
}

-- The token's record after the names have been added.
add_tokens-get :
    (admin : Bool) (m : Map TokenConfig) (ts : List Text) (t : Text)
    → Map.get (add_tokens admin m ts) t
      ≡ (if mem ts t then some (record { admin = admin }) else Map.get m t)
unfolding add_tokens mem
add_tokens-get admin m [] t = refl
add_tokens-get admin m (u ∷ ts) t = ground (
  arith,
  add_tokens-get admin (Map.insert m u (record { admin = admin })) ts t,
  get-insert m u t (record { admin = admin }),
)

-- The names of an optional list.
abbrev pub admin_names : Option Text → List Text
admin_names none = []
admin_names (some s) = token_names s

all_tokens-get :
    (s : Text) (a : Option Text) (t : Text)
    → Map.get (all_tokens s a) t ≡ (
        if mem (admin_names a) t
        then some (record { admin = true })
        else if mem (token_names s) t
        then some (record { admin = false })
        else none)
unfolding all_tokens mem
all_tokens-get s none t = rw (add_tokens-get false [] (token_names s) t) (unfold Map.get in refl)
all_tokens-get s (some b) t =
    rw
      (
        add_tokens-get true (add_tokens false [] (token_names s)) (token_names b) t,
        add_tokens-get false [] (token_names s) t,
      )
      (unfold Map.get in refl)

-- What a successful `from_env` has read.
from_env-eq-ok :
    (env : Text → Option Text) {config : Config}
    → from_env env ≡ ok config
    → (s : Text) × (env tokens_var ≡ some s) × (config.tokens ≡ all_tokens s (env admin_tokens_var))
unfolding from_env
from_env-eq-ok env h = elim (Option-cases (env tokens_var)) [
  | inl missing ↦ ground arith
  | inr (s, e) ↦ (s, e, ground arith)
]

-- A configuration from the environment accepts exactly the tokens of the two lists, trimmed and
-- not empty, and gives admin rights exactly to those of the admin list, also to a token in both.
pub from_env-tokens :
    (env : Text → Option Text) {config : Config} (t : Text)
    → from_env env ≡ ok config
    → (s : Text) × (env tokens_var ≡ some s)
      × (is_some (validate_token config t)
          ≡ (mem (token_names s) t || mem (admin_names (env admin_tokens_var)) t))
      × (validate_admin_token config t ≡ mem (admin_names (env admin_tokens_var)) t)
unfolding validate_token validate_admin_token
from_env-tokens env t h =
    let (s, e, same) = from_env-eq-ok env h in
    let found = all_tokens-get s (env admin_tokens_var) t in
    (s, e, rw (same, found) (ground arith), rw (same, found) (ground arith))

get-of-ne-empty :
    (m : Map TokenConfig) → is_empty m ≡ false → (t : Text) × (is_some (Map.get m t) ≡ true)
unfolding Map.get
get-of-ne-empty [] h = cc
get-of-ne-empty ((j, c) ∷ m) h = (j, ground (arith, eq_refl j))

ne-empty-of-get :
    (m : Map TokenConfig) (t : Text) → is_some (Map.get m t) ≡ true → is_empty m ≡ false
unfolding Map.get
ne-empty-of-get [] t h = cc
ne-empty-of-get (e ∷ m) t h = refl

all_tokens-ne-empty_iff :
    (s : Text) (a : Option Text)
    → (is_empty (all_tokens s a) ≡ false)
      ↔ ((t : Text) × ((mem (token_names s) t || mem (admin_names a) t) ≡ true))
all_tokens-ne-empty_iff s a = (to, from)
  where
    to :
        is_empty (all_tokens s a) ≡ false
        → (t : Text) × ((mem (token_names s) t || mem (admin_names a) t) ≡ true)
    to h =
        let (t, found) = get-of-ne-empty (all_tokens s a) h in
        (t, ground (arith, all_tokens-get s a t))

    from :
        (t : Text) × ((mem (token_names s) t || mem (admin_names a) t) ≡ true)
        → is_empty (all_tokens s a) ≡ false
    from (t, h) = ne-empty-of-get (all_tokens s a) t (ground (arith, all_tokens-get s a t))

-- The environment is accepted exactly if it names a domain and a list of tokens, and the two lists
-- have at least one token that is not blank.
pub from_env_ok_iff :
    (env : Text → Option Text)
    → (is_ok (from_env env) ≡ true) ↔ (
        (d s t : Text) × (env domain_var ≡ some d)
        × (env tokens_var ≡ some s)
        × ((mem (token_names s) t || mem (admin_names (env admin_tokens_var)) t) ≡ true))
unfolding from_env
from_env_ok_iff env = (to, from)
  where
    to :
        is_ok (from_env env) ≡ true
        → (d s t : Text) × (env domain_var ≡ some d)
          × (env tokens_var ≡ some s)
          × ((mem (token_names s) t || mem (admin_names (env admin_tokens_var)) t) ≡ true)
    to h = elim (Option-cases (env domain_var)) [
      | inl no_domain ↦ absurd (ground arith)
      | inr (d, has_domain) ↦ elim (Option-cases (env tokens_var)) [
        | inl missing ↦ absurd (ground arith)
        | inr (s, has_tokens) ↦
            let (t, named) = (all_tokens-ne-empty_iff s (env admin_tokens_var)).0 (ground arith) in
            (d, s, t, has_domain, has_tokens, named)
      ]
    ]

    from :
        (d s t : Text) × (env domain_var ≡ some d)
          × (env tokens_var ≡ some s)
          × ((mem (token_names s) t || mem (admin_names (env admin_tokens_var)) t) ≡ true)
        → is_ok (from_env env) ≡ true
    from (d, s, t, has_domain, has_tokens, named) =
        ground (arith, (all_tokens-ne-empty_iff s (env admin_tokens_var)).1 (t, named))

-- However it is loaded, from the file or from the environment, a configuration has the supported
-- version.
pub load_or_from_env-version :
    (file : Text → Option Text) (toml : Text → Option Config) (present : Text → Bool)
    (env : Text → Option Text) (path : Option Text) {config : Config}
    → load_or_from_env file toml present env path ≡ ok config
    → config.version ≡ 1
unfolding load_or_from_env load from_env
load_or_from_env-version file toml present env none h = ground arith
load_or_from_env-version file toml present env (some path) h = ground arith
