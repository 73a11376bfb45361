-- ===== src/Server/Router/Routes.antt =====
-- The tables of routes. Which paths a pattern of the `axum` crate matches is an argument.
use loophole.Base.{
  ◌≡◌, ◌≢◌, refl, Bool, true, false, List, [], ◌∷◌, arith, if◌then◌else◌, All, Bool-cases, sym, inl,
  inr,
}
use loophole.Text.{Text, codes, contains_char}
use loophole.Server.Config.Defs.{control_path}

pub data Method : Type 0 where
  any get delete : Method

pub data Handler : Type 0 where
  handle_request list_tunnels delete_tunnel redirect_to_https : Handler

pub record Route : Type 0 where
  pub pattern_text : Text
  pub method : Method
  pub handler : Handler

abbrev route : Text → Method → Handler → Route
route p m h = record { pattern_text = p; method = m; handler = h }

-- The router for HTTPS.
unfoldable pub create_router : List Route
create_router =
    route control_path any handle_request
    ∷ route (codes "/*path") any handle_request
    ∷ route (codes "/") any handle_request
    ∷ route (codes "/_admin/tunnels") get list_tunnels
    ∷ route (codes "/_admin/tunnels/{subdomain}") delete delete_tunnel
    ∷ []

-- The router for HTTP, and its fallback.
unfoldable pub create_acme_router : Bool → List Route × Handler
create_acme_router has_https = (
  route control_path any handle_request
      ∷ route (codes "/_admin/tunnels") get list_tunnels
      ∷ route (codes "/_admin/tunnels/{subdomain}") delete delete_tunnel
      ∷ [],
  if has_https then redirect_to_https else handle_request,
)

module _ (matches : Text → Text → Bool) where
  -- The handlers of the routes that match a path.
  unfoldable pub handlers : List Route → Text → List Handler
  handlers [] path = []
  handlers (r ∷ rs) path =
      let rest = handlers rs path in if matches r.pattern_text path then r.handler ∷ rest else rest

abbrev pub IsOther : Handler → Type 0
IsOther h = h ≢ delete_tunnel

handlers-All :
    (matches : Text → Text → Bool) (rs : List Route) (path : Text)
    → All (λ (r : Route). matches r.pattern_text path ≡ true → IsOther r.handler) rs
    → All IsOther (handlers matches rs path)
unfolding handlers
handlers-All matches [] path h = tt
handlers-All matches (r ∷ rs) path (here, h) = elim (Bool-cases (matches r.pattern_text path)) [
  | inl t ↦ ground (arith, handlers-All matches rs path h, here t)
  | inr f ↦ ground (arith, handlers-All matches rs path h)
]

handle_request-IsOther : IsOther handle_request
handle_request-IsOther = λ e. absurd (ground arith)

list_tunnels-IsOther : IsOther list_tunnels
list_tunnels-IsOther = λ e. absurd (ground arith)

-- If a pattern with neither a colon nor a star matches its own text alone, as in version 0.7 of
-- `axum`, neither router hands a path to `delete_tunnel`, unless the path is the pattern's own
-- text.
pub delete_unreachable :
    (matches : Text → Text → Bool) (path : Text)
    → ((p q : Text)
        → contains_char b':' p ≡ false
        → contains_char b'*' p ≡ false
        → matches p q ≡ true
        → p ≡ q)
    → path ≢ codes "/_admin/tunnels/{subdomain}"
    → All IsOther (handlers matches create_router path)
      × All IsOther (handlers matches (create_acme_router true).0 path)
      × All IsOther (handlers matches (create_acme_router false).0 path)
unfolding create_router create_acme_router contains_char
delete_unreachable matches path literal n =
    let miss : matches (codes "/_admin/tunnels/{subdomain}") path ≡ true → IsOther delete_tunnel =
      λ e. absurd (n (sym (literal (codes "/_admin/tunnels/{subdomain}") path refl refl e))) in
    let h = λ (_ : matches control_path path ≡ true). handle_request-IsOther in
    (
      handlers-All matches create_router path (
        h,
        (
          λ _. handle_request-IsOther,
          (λ _. handle_request-IsOther, (λ _. list_tunnels-IsOther, (miss, tt))),
        ),
      ),
      handlers-All matches (create_acme_router true).0 path
          (h, (λ _. list_tunnels-IsOther, (miss, tt))),
      handlers-All matches (create_acme_router false).0 path
          (h, (λ _. list_tunnels-IsOther, (miss, tt))),
    )
