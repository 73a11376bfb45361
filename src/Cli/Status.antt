-- ===== src/Cli/Status.antt =====
-- status.rs: the request to the admin API and how its answer is shown, and `parse_log_level` of
-- main.rs. What the server answers is an argument; a status is shown by its number alone.
pub mod Report
pub mod Admin
mod Tests
use loophole.Base.{
  ℕ, ◌/◌, ◌%◌, ◌||◌, Option, none, some, [], ◌∷◌, ◌++◌, Result, ok, err, eqb, ltb, leb, ◌&&◌, not,
  unwrap_or, if◌then◌else◌,
}
use loophole.Text.{Text, codes, starts_with, ◌==◌}
use loophole.Text.Numbers.{to_string}
use loophole.Text.Lines.{to_lowercase}
use loophole.Map.{Map}
use loophole.Server.Config.Defs.{Config, TokenConfig}
use loophole.Cli.Credentials.{ClientConfig, File, load}

unfoldable pub format_duration : ℕ → Text
format_duration secs =
    if ltb secs 60
    then to_string secs ++ codes "s"
    else if ltb secs 3600
    then (if eqb (secs % 60) 0
        then to_string (secs / 60) ++ codes "m"
        else to_string (secs / 60) ++ (codes "m " ++ (to_string (secs % 60) ++ codes "s")))
    else (if eqb (secs % 3600 / 60) 0
        then to_string (secs / 3600) ++ codes "h"
        else to_string (secs / 3600) ++ (codes "h " ++ (to_string (secs % 3600 / 60) ++ codes "m")))

unfoldable pub admin_url : Text → Text
admin_url server =
    if starts_with server (codes "https://") || starts_with server (codes "http://")
    then server ++ codes "/_admin/tunnels"
    else codes "https://" ++ (server ++ codes "/_admin/tunnels")

-- The first admin token, in the map's order.
unfoldable pub admin_token : Map TokenConfig → Option Text
admin_token [] = none
admin_token ((token, t) ∷ ts) = let later = admin_token ts in if t.admin then some token else later

-- The server and the token: those given, else those of the server's configuration, if it can be
-- loaded, else those of the client's.
unfoldable pub credentials :
    (Text → Option ClientConfig)
    → File
    → Option Config
    → Option Text
    → Option Text
    → Result Text (Text × Text)
credentials toml file server_config (some server) (some token) = ok (server, token)
credentials toml file (some config) server (some token) =
    ok (unwrap_or server (codes "https://" ++ config.server.domain), token)
credentials toml file (some config) server none = elim (admin_token config.tokens) [
  | none ↦ err (codes "No --token provided and no admin token found in server config")
  | some token ↦ ok (unwrap_or server (codes "https://" ++ config.server.domain), token)
]
credentials toml file none server token = elim (load toml file) [
  | err e ↦ err e
  | ok none ↦ err (codes "No --server/--token provided and no config found")
  | ok (some config) ↦ ok (unwrap_or server config.server, unwrap_or token config.token)
]

-- What the status of the answer means; `none` where its body is read.
unfoldable pub status_error : ℕ → Option Text
status_error status =
    if eqb status 401
    then some (codes "Invalid or non-admin token")
    else if eqb status 404
    then some (codes "Admin API not enabled on server")
    else if not (leb 200 status && leb status 299)
    then some (codes "Server returned error: " ++ to_string status)
    else none

pub data Level : Type 0 where
  trace debug info warn error : Level

unfoldable pub parse_log_level : Text → Level
parse_log_level s =
    let lower = to_lowercase s in
    if lower == codes "trace"
    then trace
    else if lower == codes "debug"
    then debug
    else if lower == codes "info"
    then info
    else if lower == codes "warn"
    then warn
    else if lower == codes "error"
    then error
    else info
