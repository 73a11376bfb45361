-- ===== src/Cli/Status/Admin.antt =====
-- status.rs and server/router.rs together: the admin token that the command finds in the server's
-- configuration, and what the server's admin API answers to it.
use mathlib.Core.Option
use loophole.Base.{ℕ, Option, List, []}
use loophole.Text.{Text}
use loophole.Map
use loophole.Map.{Map}
use loophole.Console.{Console}
use loophole.Server.Registry
use loophole.Server.Config.Defs.{Config}
use loophole.Server.Router.Defs.{Answer, admin_error, tunnel_list, TunnelInfo}

-- What a request is answered, as a number and a body: the list and the errors of the admin API are
-- JSON; nothing else is an answer of `list_tunnels`.
abbrev pub response : (List TunnelInfo → ℕ → Text) → (Text → Text) → Answer → ℕ × Text
response list_json error_json (tunnel_list infos count) = (200, list_json infos count)
response list_json error_json (admin_error code message) = (code, error_json message)
response list_json error_json _ = (500, [])
