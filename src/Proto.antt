-- ===== src/Proto.antt =====
-- proto/messages.rs: the messages between the client and the server. The JSON text of a message is
-- the work of the `serde_json` crate: a `Codec` stands for it.
pub mod Sample
use loophole.Base.{◌≡◌, Bool, Option, some}
use loophole.Text.{Text}

pub data ClientMessage : Type 0 where
  register : Text → Text → ClientMessage
  ping disconnect : ClientMessage

pub data ErrorCode : Type 0 where
  invalid_token subdomain_taken subdomain_invalid tunnel_limit_reached internal_error : ErrorCode

pub data ServerMessage : Type 0 where
  registered : Text → Text → ServerMessage
  error : ErrorCode → Text → ServerMessage
  pong ping : ServerMessage
  certificate_status : Bool → ServerMessage
  shutdown : Text → ServerMessage

pub record Codec : Type 0 where
  pub client_to_json : ClientMessage → Text
  pub client_from_json : Text → Option ClientMessage
  pub server_to_json : ServerMessage → Text
  pub server_from_json : Text → Option ServerMessage

-- What a message is written as is read as that message.
pub record IsCodec (c : Codec) : Type 0 where
  pub client : (m : ClientMessage) → c.client_from_json (c.client_to_json m) ≡ some m
  pub server : (m : ServerMessage) → c.server_from_json (c.server_to_json m) ≡ some m
