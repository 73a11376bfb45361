-- ===== src/Expose/Client/Handshake.antt =====
-- The registration, seen from both ends.
use loophole.Base.{◌≡◌, refl, true, false, some, List, [], ◌∷◌, arith, ok, err, is_some}
use loophole.Text.{codes}
use loophole.Socket.{text, Arrival, message, Polled}
use loophole.Proto.{ServerMessage, registered, error, invalid_token, Codec, IsCodec}
use loophole.Server.Registry.Validation.{IsLabel}
use loophole.Server.Config.Defs.{validate_token}
use loophole.Server.Acme.Client.{Order}
use loophole.Server.Tls.Defs.{Pem}
use loophole.Server.Router.Defs.{ServerState}
use loophole.Server.Handler.Defs.{
  tunnel_url, negotiate, welcome, wait_for_registration, provide_certificate, full_domain,
}
use loophole.Server.Handler.Registration.{negotiate-welcomes}
use loophole.Expose.Client.Defs.{
  TunnelClient, failure_message, register_msg, registration_result, connect,
}

-- A server's message on the wire.
abbrev pub sent_as : Codec → ServerMessage → Arrival
sent_as codec m = message (text (codec.server_to_json m))

-- A client's registration on the wire.
abbrev pub first_of : Codec → TunnelClient → Polled
first_of codec client = some (message (text (codec.client_to_json (register_msg client))))

module _ (codec : Codec) (pem : Pem) (state : ServerState) (order : Order)
    (client : TunnelClient) where
  -- A client with a known token and a label is connected, where the codec reads what it writes: the
  -- first message of the server gives it its own subdomain and the URL of the tunnel.
  pub handshake-succeeds :
      IsCodec codec
      → is_some (validate_token state.config client.token) ≡ true
      → IsLabel client.subdomain
      → (hello : ServerMessage) × (rest : List ServerMessage) × ((negotiate codec pem state
            (first_of codec client)
            true
            order).sent
          ≡ hello ∷ rest)
        × (connect codec client true true (sent_as codec hello)
            ≡ ok (client.subdomain, tunnel_url state.config client.subdomain))
  unfolding connect registration_result welcome register_msg
  handshake-succeeds c known label =
      let hello = registered client.subdomain (tunnel_url state.config client.subdomain) in
      let welcomed =
        negotiate-welcomes codec pem state (first_of codec client) true order client.token
          client.subdomain
          (record {
            json = codec.client_to_json (register_msg client);
            came = refl;
            parsed = c.client (register_msg client);
            known = known;
            label = label;
          }) in
      (
        hello,
        (provide_certificate pem state (full_domain state.config client.subdomain) order).sent,
        ground (arith, welcomed),
        ground (arith, c.server hello),
      )

  -- A client whose token is not known is told so, and connects nowhere.
  pub handshake-invalid_token :
      IsCodec codec
      → is_some (validate_token state.config client.token) ≡ false
      → (m : ServerMessage) × ((negotiate codec pem state (first_of codec client) true order).sent
          ≡ m ∷ [])
        × (connect codec client true true (sent_as codec m) ≡ err (codes "Invalid token"))
  unfolding connect registration_result negotiate wait_for_registration register_msg failure_message
  handshake-invalid_token c unknown =
      let m = error invalid_token (codes "Invalid token") in
      (m, ground (arith, c.client (register_msg client)), ground (arith, c.server m))
