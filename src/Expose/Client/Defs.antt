-- ===== src/Expose/Client/Defs.antt =====
-- `TunnelClient`. What the server sends, and what comes before the end of each wait, are arguments.
-- The texts of errors that other crates word, of JSON and of a send that fails, are stand-ins.
use loophole.Base.{
  ℕ, zero, suc, Bool, true, false, Option, none, some, List, [], ◌∷◌, ◌++◌, length, drop, Result,
  ok, err, if◌then◌else◌,
}
use loophole.Text.{Text, codes, starts_with}
use loophole.Socket.{text, ping, pong, Arrival, message, failed, ended, Polled}
use loophole.Proto.{
  ClientMessage, register, ErrorCode, invalid_token, subdomain_taken, subdomain_invalid,
  tunnel_limit_reached, internal_error, registered, error, certificate_status, Codec,
}
use loophole.Server.Config.Defs.{control_path}

pub record TunnelClient : Type 0 where
  pub server : Text
  pub token : Text
  pub subdomain : Text
  pub control_path : Text

unfoldable pub new : Text → Text → Text → TunnelClient
new server token subdomain = record {
  server = server;
  token = token;
  subdomain = subdomain;
  control_path = loophole.Server.Config.Defs.control_path;
}

-- `str::replace`, on fuel: each round takes a character at least.
replace_rounds : ℕ → Text → Text → Text → Text
replace_rounds zero pattern_text by s = s
replace_rounds (suc rounds) pattern_text by [] = []
replace_rounds (suc rounds) pattern_text by (c ∷ s) =
    let next = replace_rounds rounds pattern_text by s in
    let after = replace_rounds rounds pattern_text by (drop (length pattern_text) (c ∷ s)) in
    if starts_with (c ∷ s) pattern_text then by ++ after else c ∷ next

unfoldable pub replace : Text → Text → Text → Text
unfolding replace_rounds
replace s pattern_text by = replace_rounds (length s) pattern_text by s

unfoldable pub ws_url : TunnelClient → Text
ws_url client =
    (if starts_with client.server (codes "https://")
      then replace client.server (codes "https://") (codes "wss://")
      else if starts_with client.server (codes "http://")
      then replace client.server (codes "http://") (codes "ws://")
      else codes "wss://" ++ client.server)
    ++ client.control_path

-- What the client sends first.
unfoldable pub register_msg : TunnelClient → ClientMessage
register_msg client = register client.token client.subdomain

unfoldable pub failure_message : ErrorCode → Text → Text
failure_message invalid_token m = codes "Invalid token"
failure_message subdomain_taken m = codes "Subdomain already taken"
failure_message subdomain_invalid m = codes "Invalid subdomain: " ++ m
failure_message tunnel_limit_reached m = codes "Tunnel limit reached"
failure_message internal_error m = codes "Server error: " ++ m

-- The answer to the registration: the subdomain and the URL.
unfoldable pub registration_result : Codec → Arrival → Result Text (Text × Text)
registration_result codec ended = err (codes "Connection closed before registration response")
registration_result codec (failed e) = err (codes "WebSocket error")
registration_result codec (message (text t)) = elim (codec.server_from_json t) [
  | none ↦ err (codes "invalid JSON")
  | some (registered subdomain url) ↦ ok (subdomain, url)
  | some (error code m) ↦ err (failure_message code m)
  | some _ ↦ err (codes "Unexpected server response")
]
registration_result codec (message _) = err (codes "Expected text message")

-- `connect`: whether the socket opens, whether the registration can be sent, and the answer.
unfoldable pub connect : Codec → TunnelClient → Bool → Bool → Arrival → Result Text (Text × Text)
unfolding registration_result
connect codec client opens sends response =
    if opens
    then (if sends
        then registration_result codec response
        else err (codes "the registration could not be sent"))
    else err (codes "Failed to connect to server")

unfoldable pub wait_for_cert_status : Codec → Polled → Option Bool
wait_for_cert_status codec (some (message (text t))) = elim (codec.server_from_json t) [
  | some (certificate_status ready) ↦ some ready
  | _ ↦ none
]
wait_for_cert_status codec _ = none

-- The items that come before the deadline.
unfoldable pub wait_for_cert_ready : Codec → List Arrival → Bool
wait_for_cert_ready codec [] = false
wait_for_cert_ready codec (message (text t) ∷ items) =
    let more = wait_for_cert_ready codec items in
    elim (codec.server_from_json t) [
      | some (certificate_status ready) ↦ if ready then true else more
      | _ ↦ more
    ]
wait_for_cert_ready codec (message ping ∷ items) = wait_for_cert_ready codec items
wait_for_cert_ready codec (message pong ∷ items) = wait_for_cert_ready codec items
wait_for_cert_ready codec (_ ∷ items) = false
