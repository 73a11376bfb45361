-- ===== src/Journey.antt =====
-- From `loophole init` to a client that is logged in: init.rs, server/config.rs, server/handler.rs,
-- login.rs, test.rs and client_config.rs
-- together.
pub mod Tests
use loophole.Base.{
  ℕ, ◌<◌, ◌^◌, ◌≡◌, ◌≢◌, refl, sym, ◌∙◌, ap, Bool, true, Option, none, some, List, [], ◌∷◌, Result,
  ok, err, unwrap_or, All, ◌>>=◌, is_some, if◌then◌else◌,
}
use loophole.Text.{Text, codes}
use loophole.Text.Laws.{eq_refl}
use loophole.Text.Utf8.{Bytes}
use loophole.Map
use loophole.Socket.{Arrival, ended}
use loophole.Proto.{ServerMessage, Codec, IsCodec}
use loophole.Console.{Console}
use loophole.Server.Config.Defs.{Config, validate_token, validate_admin_token}
use loophole.Server.Config.Env.{load, ConfigError}
use loophole.Server.Config.Toml.{Toml, deserialize}
use loophole.Server.Acme.Client.{Order}
use loophole.Server.Tls.Defs.{Pem}
use loophole.Server.Router.Defs.{ServerState}
use loophole.Server.Handler.Defs.{negotiate}
use loophole.Setup.Token.{generate_token}
use loophole.Setup.Template.{default_config_path, service_path}
use loophole.Setup.Defs.{System}
use loophole.Setup.Run.{run}
use loophole.Setup.Laws.{HasParent}
use loophole.Setup.Written.{run-writes}
use loophole.Setup.Document.{Reads, document, is_plain}
use loophole.Setup.Loaded.{generated_config, load-generated}
use loophole.Expose.Client.Handshake.{sent_as}
use loophole.Cli.Credentials.{ClientConfig, credentials, credentials-save, normalized}
use loophole.Cli.Check.{test_registration, check_response, check_response-token}
use loophole.Cli.Test
use loophole.Cli.Login.{login, login-saves, config_dir, config_path, file_at}

-- The first message that arrives.
abbrev first_arrival : Codec → List ServerMessage → Arrival
first_arrival codec [] = ended
first_arrival codec (m ∷ ms) = sent_as codec m

-- The check of a connection against a server in a state, by a process with an id.
abbrev pub check_against :
    Codec → Pem → ServerState → Order → ℕ → Text → Text → Result Text (Unit {0})
check_against codec pem state order pid server token = check_response codec (
    first_arrival codec
      (negotiate codec pem state (test_registration codec token pid) true order).sent)

check_against_lem :
    (codec : Codec) (pem : Pem) (state : ServerState) (order : Order) (pid : ℕ)
    (server token : Text)
    → IsCodec codec
    → pid < 2 ^ 32
    → check_against codec pem state order pid server token
      ≡ (if is_some (validate_token state.config token) then ok tt else err (codes "Invalid token"))
check_against_lem codec pem state order pid server token h small =
    let (m, rest, sent, answer) = check_response-token codec pem state order token pid h small in
    ap (λ ms. check_response codec (first_arrival codec ms)) sent ∙ answer

-- Both tests of tokens accept the generated one.
generated_config-token :
    (d t e : Text)
    → (is_some (validate_token (generated_config d t e) t) ≡ true)
      × (validate_admin_token (generated_config d t e) t ≡ true)
unfolding validate_token validate_admin_token Map.get
generated_config-token d t e = (rw (eq_refl t) refl, rw (eq_refl t) refl)

module _ (toml : Text → Option Toml) (client_toml : Text → Option ClientConfig)
    (to_toml : ClientConfig → Text) (codec : Codec) (pem : Pem) (system : System) (random : Bytes)
    (d e : Text) (output home : Option Text) (install : Bool) (can_parse : Text → Bool) where
  -- Where TOML and JSON texts are read as they were written: a server's configuration is loaded from
  -- the file that init has written, with a plain domain and a plain email that were given, on a path
  -- that may be written, whose directory can be made, that was free and is not the service's. Then the
  -- login that init prints succeeds against that server, if its URL can be parsed and the client may
  -- write its configuration; the client's later commands use that server and that token, and
  -- `loophole test` without options succeeds; and the server takes the token for an admin's.
  pub login-after_init :
      (c client : Console) (state : ServerState) (order : Order) (pid : ℕ)
      → Reads toml (document d (generate_token (codes "tk") random) e)
      → ((config : ClientConfig) → client_toml (to_toml config) ≡ some config)
      → IsCodec codec
      → pid < 2 ^ 32
      → All (λ b. b < 256) random
      → is_plain d ≡ true
      → is_plain e ≡ true
      → Map.get c.files (unwrap_or output default_config_path) ≡ none
      → c.may_write (unwrap_or output default_config_path) ≡ true
      → HasParent c (unwrap_or output default_config_path)
      → service_path ≢ unwrap_or output default_config_path
      → load
          (Map.get (run system random (some d) (some e) output install c).0.files)
          (λ s. toml s >>= deserialize)
          (unwrap_or output default_config_path)
        ≡ ok state.config
      → can_parse (normalized d) ≡ true
      → client.may_create (config_dir home) ≡ true
      → client.may_write (config_path home) ≡ true
      → let token = generate_token (codes "tk") random in
        let after =
          login home to_toml can_parse
            (check_against codec pem state order pid)
            (some d)
            (some token)
            client in
        (after.1 ≡ ok tt)
        × (credentials client_toml (file_at after.0 (config_path home)) none none
            ≡ ok (normalized d, token))
        × ((Test.run client_toml
              (file_at after.0 (config_path home))
              (check_against codec pem state order pid)
              none
              none
              after.0).1
            ≡ ok tt)
        × (validate_admin_token state.config token ≡ true)
  login-after_init c client state order pid reads back h small bytes pd pe fresh allowed parented
        other loaded parsed made writable =
      let token = generate_token (codes "tk") random in
      let path = unwrap_or output default_config_path in
      let written = run-writes system random d e output install c fresh allowed parented other in
      let same : state.config ≡ generated_config d token e = ok-injective (
        sym loaded
        ∙ load-generated toml
            (Map.get (run system random (some d) (some e) output install c).0.files) path d e random
            reads bytes pd pe written) in
      let (known, admin) = generated_config-token d token e in
      let accepted : check_against codec pem state order pid (normalized d) token ≡ ok tt =
        check_against_lem codec pem state order pid (normalized d) token h small
        ∙ rw (same, known) refl in
      let (succeeds, saved) =
        login-saves home to_toml can_parse (check_against codec pem state order pid) d token client
          parsed accepted made writable in
      let after =
        login home to_toml can_parse (check_against codec pem state order pid) (some d) (some token)
          client in
      let kept : credentials client_toml (file_at after.0 (config_path home)) none none
          ≡ ok (normalized d, token) =
        ap (λ file. credentials client_toml file none none) saved
        ∙ credentials-save client_toml to_toml d token back in
      (
        succeeds,
        kept,
        Test.run-result client_toml (file_at after.0 (config_path home))
              (check_against codec pem state order pid) none none (normalized d) token after.0 kept
            ∙ accepted,
        rw same admin,
      )
    where
      ok-injective : {a b : Config} → ◌≡◌ {A = Result ConfigError Config} (ok a) (ok b) → a ≡ b
      ok-injective h = cc
