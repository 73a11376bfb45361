-- ===== src/Cli/Main.antt =====
-- main.rs: the commands with the defaults of their options, and what `main` calls. The parser of the
-- `clap` crate gives the options; the values of flags and numbers are read by it.
use loophole.Base.{ℕ, Bool, Option, unwrap_or}
use loophole.Text.{Text, codes}
use loophole.Setup.Template.{default_config_path}
use loophole.Cli.Status.{Level, parse_log_level}

-- The options of `expose`.
pub record ExposeOptions : Type 0 where
  pub server : Option Text
  pub token : Option Text
  pub subdomain : Option Text
  pub port : ℕ
  pub host : Text
  pub local_host : Option Text
  pub max_retries : ℕ
  pub forward_timeout : ℕ
  pub log_level : Text
  pub quiet : Bool
  pub qr : Bool

pub data Commands : Type 0 where
  init : Option Text → Option Text → Option Text → Bool → Commands
  server : Text → Text → Commands
  login test : Option Text → Option Text → Commands
  expose : ExposeOptions → Commands
  status : Option Text → Option Text → Text → Commands

-- A command line before the defaults: an option that is not given is `none`.
pub record GivenExpose : Type 0 where
  pub server : Option Text
  pub token : Option Text
  pub subdomain : Option Text
  pub port : Option ℕ
  pub host : Option Text
  pub local_host : Option Text
  pub max_retries : Option ℕ
  pub forward_timeout : Option ℕ
  pub log_level : Option Text
  pub quiet : Bool
  pub qr : Bool

pub data Given : Type 0 where
  given_init : Option Text → Option Text → Option Text → Bool → Given
  given_server : Option Text → Option Text → Given
  given_login given_test : Option Text → Option Text → Given
  given_expose : GivenExpose → Given
  given_status : Option Text → Option Text → Option Text → Given

unfoldable pub parse : Given → Commands
parse (given_init domain email output install) = init domain email output install
parse (given_server config log_level) =
    server (unwrap_or config default_config_path) (unwrap_or log_level (codes "info"))
parse (given_login s t) = login s t
parse (given_test s t) = test s t
parse (given_expose g) = expose (record {
  server = g.server;
  token = g.token;
  subdomain = g.subdomain;
  port = unwrap_or g.port 3000;
  host = unwrap_or g.host (codes "127.0.0.1");
  local_host = g.local_host;
  max_retries = unwrap_or g.max_retries 0;
  forward_timeout = unwrap_or g.forward_timeout 30;
  log_level = unwrap_or g.log_level (codes "info");
  quiet = g.quiet;
  qr = g.qr;
})
parse (given_status s t config) = status s t (unwrap_or config default_config_path)

-- The functions that the commands call.
pub record Handlers (R : Type 0) : Type 0 where
  pub init_run : Option Text → Option Text → Option Text → Bool → R
  pub server_run : Text → Level → R
  pub login_run : Option Text → Option Text → R
  pub test_run : Option Text → Option Text → R
  pub expose_run : ExposeOptions → Level → R
  pub status_run : Option Text → Option Text → Text → R

unfoldable pub main : {R : Type 0} → Handlers R → Commands → R
main h (init domain email output install) = h.init_run domain email output install
main h (server config log_level) = h.server_run config (parse_log_level log_level)
main h (login s t) = h.login_run s t
main h (test s t) = h.test_run s t
main h (expose options) = h.expose_run options (parse_log_level options.log_level)
main h (status s t config) = h.status_run s t config
