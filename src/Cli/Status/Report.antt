-- ===== src/Cli/Status/Report.antt =====
-- status.rs: `run`, with what it prints. The HTTP request, the reader of its JSON and the text of a
-- quotient with one decimal are arguments; colours are left out.
use loophole.Base.{
  ℕ, zero, suc, ◌-◌, Option, none, some, List, [], ◌∷◌, ◌++◌, map, length, leb, is_empty,
  if◌then◌else◌,
}
use loophole.Text.{Text, codes}
use loophole.Text.Numbers.{to_string}
use loophole.Console.{Action, pure, raise, or_raise, or_error, ◌>>=◌, ◌>>◌, say_all}
use loophole.Server.Config.Defs.{Config}
use loophole.Server.Router.Defs.{TunnelInfo}
use loophole.Cli.Credentials.{ClientConfig, File}
use loophole.Cli.Status.{format_duration, admin_url, credentials, status_error}

abbrev spaces : ℕ → Text
spaces zero = []
spaces (suc n) = 32 ∷ spaces n

-- `{:<n}`.
unfoldable pub pad : ℕ → Text → Text
pad n s = s ++ spaces (n - length s)

abbrev pub refuse : Option Text → Action (Unit {0})
refuse none = pure tt
refuse (some e) = raise e

module _ (one_decimal : ℕ → ℕ → Text) where
  unfoldable pub format_count : ℕ → Text
  format_count n =
      if leb 1_000_000 n
      then one_decimal n 1_000_000 ++ codes "M"
      else if leb 1_000 n
      then one_decimal n 1_000 ++ codes "K"
      else to_string n

  abbrev row : Text → Text → Text → Text → Text
  row a b c d =
      pad 20 a ++ (codes " " ++ (pad 12 b ++ (codes " " ++ (pad 12 c ++ (codes " " ++ pad 12 d)))))

  unfoldable pub tunnel_row : TunnelInfo → Text
  tunnel_row tunnel =
      row tunnel.subdomain (format_duration tunnel.created_at_secs)
        (format_count tunnel.request_count) (format_duration tunnel.idle_secs)

  -- The lines for an answer of the server.
  unfoldable pub report : List TunnelInfo → ℕ → List Text
  report tunnels count =
      (codes "Active Tunnels: " ++ to_string count)
      ∷ codes ""
      ∷ (if is_empty tunnels
          then codes "No active tunnels" ∷ []
          else row (codes "SUBDOMAIN") (codes "AGE") (codes "REQUESTS") (codes "IDLE")
            ∷ map tunnel_row tunnels)

  -- The request gives the number of the status and the body, if the server is reached.
  unfoldable pub run :
      (Text → Option ClientConfig)
      → File
      → Option Config
      → (Text → Text → Option (ℕ × Text))
      → (Text → Option (List TunnelInfo × ℕ))
      → Option Text
      → Option Text
      → Action (Unit {0})
  run client_toml file server_config http from_json server token = do
    given ← or_error (credentials client_toml file server_config server token)
    response ← or_raise (http (admin_url given.0) given.1) (codes "Failed to connect to server")
    refuse (status_error response.0)
    list ← or_raise (from_json response.1) (codes "Failed to parse server response")
    say_all (report list.0 list.1)
