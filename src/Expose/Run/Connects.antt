-- ===== src/Expose/Run/Connects.antt =====
-- expose/mod.rs, expose/client.rs and server/handler.rs together: the client that `loophole expose`
-- starts, and the server's answer to it.
use mathlib.Core.List.{Memᴰ}
use loophole.Base.{
  ℕ, ◌≡◌, ◌<◌, refl, ◌∙◌, ap, true, none, some, Option, List, [], ◌∷◌, ◌++◌, ok, is_some,
}
use loophole.Text.{Text, codes}
use loophole.Text.Numbers.{to_string}
use loophole.Console.{Console, or_error, bind-eq}
use loophole.Proto.{ServerMessage, Codec, IsCodec}
use loophole.Server.Registry.Validation.{IsLabel, validate_subdomain_iff}
use loophole.Server.Config.Defs.{validate_token}
use loophole.Server.Acme.Client.{Order}
use loophole.Server.Tls.Defs.{Pem}
use loophole.Server.Router.Defs.{ServerState}
use loophole.Server.Handler.Defs.{tunnel_url, negotiate}
use loophole.Expose.Client.Defs.{TunnelClient, new, connect}
use loophole.Expose.Client.Handshake.{sent_as, first_of, handshake-succeeds}
use loophole.Expose.Reconnect as Reconnect
use loophole.Expose.Run.Defs.{Round, run, adjectives, nouns, generate_subdomain}
use loophole.Expose.Run.Names.{validate_subdomain-generate_subdomain}
use loophole.Expose.Run.Command.{Draw, expose, parsed_address, chosen_subdomain}
use loophole.Cli.Credentials.{ClientConfig, File, credentials}

module _ (client_toml : Text → Option ClientConfig) (file : File)
    (parse_address : Text → Option Text) (draw : Draw) (given_server given_token : Option Text)
    (host : Text) (port max_retries : ℕ) (rounds : List Round) (codec : Codec) (pem : Pem)
    (state : ServerState) (order : Order) where
  -- `loophole expose` without a subdomain, with a token that the server knows among its options or in
  -- the saved credentials and a local address that can be parsed, starts a client for that server
  -- with a made-up name, and whenever this client connects, the server's first message gives it that
  -- name and its URL.
  pub expose-connects :
      (server token addr : Text) (c : Console)
      → IsCodec codec
      → credentials client_toml file given_server given_token ≡ ok (server, token)
      → parse_address (host ++ (codes ":" ++ to_string port)) ≡ some addr
      → Memᴰ draw.adj adjectives
      → Memᴰ draw.noun nouns
      → draw.num < 1000
      → is_some (validate_token state.config token) ≡ true
      → (client : TunnelClient) × ((expose client_toml file parse_address draw given_server
            given_token none host port max_retries rounds c).1
          ≡ ok (client, run max_retries Reconnect.new rounds))
        × (client.server ≡ server)
        × (hello : ServerMessage) × (rest : List ServerMessage) × ((negotiate codec pem state
              (first_of codec client)
              true
              order).sent
            ≡ hello ∷ rest)
        × (connect codec client true true (sent_as codec hello)
            ≡ ok (client.subdomain, tunnel_url state.config client.subdomain))
  unfolding expose chosen_subdomain new
  expose-connects server token addr c h given parsed adj noun num known =
      let name = generate_subdomain draw.adj draw.noun draw.num in
      let client = new server token name in
      let label : IsLabel name =
        (validate_subdomain_iff name).0
          (validate_subdomain-generate_subdomain draw.adj draw.noun draw.num adj noun num) in
      let (hello, rest, sent, answer) =
        handshake-succeeds codec pem state order client h known label in
      let found : or_error (credentials client_toml file given_server given_token) c
          ≡ (c, ok (server, token)) =
        ap (λ r. or_error r c) given in
      let addressed : or_error
            (parsed_address (parse_address (host ++ (codes ":" ++ to_string port)))) c
          ≡ (c, ok addr) =
        ap (λ o. or_error (parsed_address o) c) parsed in
      let started : expose client_toml file parse_address draw given_server given_token none host
            port max_retries rounds c
          ≡ (
            record c { printed = c.printed ++ ((codes "→ Forwarding to " ++ addr) ∷ []) },
            ok (client, run max_retries Reconnect.new rounds),
          ) =
        bind-eq _ _ found ∙ bind-eq _ _ addressed ∙ bind-eq _ _ refl in
      (client, ap (λ s. s.1) started, refl, hello, rest, sent, answer)
