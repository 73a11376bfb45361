-- ===== src/Expose/Run/Command.antt =====
-- expose/mod.rs: `run` before and inside its loop: the credentials, the name, the local address, and
-- what a session prints. The parser of socket addresses and the QR code are arguments; colours are
-- left out.
use loophole.Base.{
  ℕ, Bool, false, Option, none, some, List, [], ◌∷◌, ◌++◌, Result, ok, err, if◌then◌else◌,
  unwrap_or,
}
use loophole.Text.{Text, codes}
use loophole.Text.Numbers.{to_string}
use loophole.Socket.{Arrival, Polled}
use loophole.Proto.{Codec}
use loophole.Console.{Action, pure, or_error, ◌>>=◌, ◌>>◌, say}
use loophole.Expose.Client.Defs.{TunnelClient, new, wait_for_cert_status, wait_for_cert_ready}
use loophole.Expose.Reconnect as Reconnect
use loophole.Expose.Run.Defs.{Round, Outcome, run, generate_subdomain}
use loophole.Cli.Credentials.{ClientConfig, File, credentials}

-- A draw of the random numbers: an adjective, a noun and a number.
pub record Draw : Type 0 where
  pub adj : Text
  pub noun : Text
  pub num : ℕ

-- The name that is registered.
unfoldable pub chosen_subdomain : Option Text → Draw → Text
chosen_subdomain subdomain draw =
    unwrap_or subdomain (generate_subdomain draw.adj draw.noun draw.num)

-- What the wait for the certificate prints: nothing if it is there, or if nothing is said of it.
unfoldable pub certificate_lines : Codec → Polled → List Arrival → List Text
certificate_lines codec first items = elim (wait_for_cert_status codec first) [
  | some false ↦
      codes "⏳ Waiting for SSL certificate..."
      ∷ (if wait_for_cert_ready codec items
          then codes " ready!"
          else codes " timeout (HTTPS may not work immediately)")
      ∷ []
  | _ ↦ []
]

-- `print_qr_code`.
unfoldable pub qr_lines : (Text → Result Text Text) → Text → List Text
qr_lines qr_code url = elim (qr_code url) [
  | ok image ↦ image ∷ codes "" ∷ []
  | err e ↦ (codes "! Failed to generate QR code: " ++ e) ∷ []
]

-- The lines of a session that has been registered, until its tunnel runs.
unfoldable pub session_lines :
    Codec → (Text → Result Text Text) → Bool → Text → Text → Polled → List Arrival → List Text
session_lines codec qr_code show_qr server url first items =
    (codes "✓ Connected to " ++ server)
    ∷ (certificate_lines codec first items
        ++ ((codes "✓ Tunnel URL: " ++ url)
            ∷ codes ""
            ∷ (if show_qr then qr_lines qr_code url else [])))

abbrev pub parsed_address : Option Text → Result Text Text
parsed_address none = err (codes "invalid socket address syntax")
parsed_address (some addr) = ok addr

-- The client that each round connects with, and how the loop ends.
unfoldable pub expose :
    (Text → Option ClientConfig)
    → File
    → (Text → Option Text)
    → Draw
    → Option Text
    → Option Text
    → Option Text
    → Text
    → ℕ
    → ℕ
    → List Round
    → Action (TunnelClient × Outcome)
expose client_toml file parse_address draw server token subdomain host port max_retries rounds = do
  given ← or_error (credentials client_toml file server token)
  let name = chosen_subdomain subdomain draw
  local_addr ← or_error (parsed_address (parse_address (host ++ (codes ":" ++ to_string port))))
  say (codes "→ Forwarding to " ++ local_addr)
  pure (new given.0 given.1 name, run max_retries Reconnect.new rounds)
