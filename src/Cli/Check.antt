-- ===== src/Cli/Check.antt =====
-- test.rs: `check_connection`, which registers a throwaway name.
use loophole.Base.{
  ℕ, ◌<◌, ◌^◌, ◌≡◌, refl, Bool, true, Option, none, some, List, [], ◌∷◌, ◌++◌, Result, ok, err,
  if◌then◌else◌, arith, is_some, Bool-cases, inl, inr,
}
use loophole.Text.{Text, codes, starts_with}
use loophole.Socket.{text, Arrival, message, failed, ended}
use loophole.Proto.{
  register, ServerMessage, registered, error, invalid_token, subdomain_taken, Codec, IsCodec,
}
use loophole.Server.Registry.Validation.{IsLabel, all-is_label_char_iff}
use loophole.Server.Registry.Numbered.{append_digits-IsLabel}
use loophole.Text.Numbers.{to_string}
use loophole.Text.Digits.{to_string-All, to_string-length}
use loophole.Server.Config.Defs.{validate_token}
use loophole.Server.Acme.Client.{Order}
use loophole.Server.Tls.Defs.{Pem}
use loophole.Server.Router.Defs.{ServerState}
use loophole.Server.Handler.Defs.{
  provide_certificate, full_domain, tunnel_url, negotiate, welcome, wait_for_registration,
}
use loophole.Server.Handler.Registration.{negotiate-welcomes}
use loophole.Expose.Client.Defs.{replace}
use loophole.Expose.Client.Handshake.{sent_as}

-- The URL that is tried first, and the one that is tried if that fails.
unfoldable pub ws_urls : Text → Text × Option Text
ws_urls server =
    if starts_with server (codes "https://")
    then (
      replace server (codes "https://") (codes "wss://") ++ codes "/_tunnel/connect",
      some (replace server (codes "https://") (codes "ws://") ++ codes "/_tunnel/connect"),
    )
    else if starts_with server (codes "http://")
    then (replace server (codes "http://") (codes "ws://") ++ codes "/_tunnel/connect", none)
    else (
      codes "wss://" ++ (server ++ codes "/_tunnel/connect"),
      some (codes "ws://" ++ (server ++ codes "/_tunnel/connect")),
    )

-- The URL that is connected to, for what the network answers.
unfoldable pub connected_url : (Text → Bool) → Text → Option Text
unfolding ws_urls
connected_url reachable server =
    let (first, fallback) = ws_urls server in
    if reachable first
    then some first
    else elim fallback [ none ↦ none | some url ↦ if reachable url then some url else none ]

unfoldable pub check_response : Codec → Arrival → Result Text (Unit {0})
check_response codec ended = err (codes "Connection closed before response")
check_response codec (failed e) = err (codes "WebSocket error: " ++ e)
check_response codec (message (text t)) = elim (codec.server_from_json t) [
  | none ↦ err (codes "invalid JSON")
  | some (registered subdomain url) ↦ ok tt
  | some (error invalid_token m) ↦ err (codes "Invalid token")
  | some (error subdomain_taken m) ↦ ok tt
  | some (error _ m) ↦ err (codes "Server error: " ++ m)
  | some _ ↦ err (codes "Unexpected response from server")
]
check_response codec (message _) = err (codes "Unexpected response from server")

-- The name that is registered, from the id of the process.
unfoldable pub test_subdomain : ℕ → Text
test_subdomain pid = codes "test-" ++ to_string pid

-- What is sent first: the registration of that name.
abbrev pub test_registration : Codec → Text → ℕ → Option Arrival
test_registration codec token pid =
    some (message (text (codec.client_to_json (register token (test_subdomain pid)))))

test_subdomain-IsLabel : (pid : ℕ) → pid < 2 ^ 32 → IsLabel (test_subdomain pid)
unfolding test_subdomain
test_subdomain-IsLabel pid h =
    let (one, few) = to_string-length 9 pid (omega arith) in
    append_digits-IsLabel b't' (codes "est-") (to_string pid)
      ((all-is_label_char_iff (codes "test-")).0 refl) (omega arith) (to_string-All pid) one
      (omega (arith, one)) (omega (arith, few))

module _ (codec : Codec) (pem : Pem) (state : ServerState) (order : Order) (token : Text)
    (pid : ℕ) where
  -- The check of a connection, whose process id is a 32-bit number, against the first message of the
  -- server itself, reports success for a known token and a wrong token for an unknown one.
  pub check_response-token :
      IsCodec codec
      → pid < 2 ^ 32
      → (m : ServerMessage) × (rest : List ServerMessage) × ((negotiate codec pem state
            (test_registration codec token pid)
            true
            order).sent
          ≡ m ∷ rest)
        × (check_response codec (sent_as codec m) ≡ (
            if is_some (validate_token state.config token)
            then ok tt
            else err (codes "Invalid token")))
  unfolding check_response negotiate wait_for_registration welcome
  check_response-token c small =
      let name = test_subdomain pid in
      elim (Bool-cases (is_some (validate_token state.config token))) [
        | inl known ↦
            let hello = registered name (tunnel_url state.config name) in
            let welcomed =
              negotiate-welcomes codec pem state (test_registration codec token pid) true order
                token name
                (record {
                  json = codec.client_to_json (register token name);
                  came = refl;
                  parsed = c.client (register token name);
                  known = known;
                  label = test_subdomain-IsLabel pid small;
                }) in
            (
              hello,
              (provide_certificate pem state (full_domain state.config name) order).sent,
              ground (arith, welcomed),
              ground (arith, c.server hello),
            )
        | inr unknown ↦
            let refusal = error invalid_token (codes "Invalid token") in
            (
              refusal,
              [],
              ground (arith, c.client (register token name)),
              ground (arith, c.server refusal),
            )
      ]
