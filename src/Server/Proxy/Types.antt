-- ===== src/Server/Proxy/Types.antt =====
-- The messages that `proxy_request` works on, and what the world does in one call.
use loophole.Base.{ℕ, Bool, Option, List}
use loophole.Text.{Text}
use loophole.Text.Utf8.{Bytes}
use loophole.Http.{Read}
use loophole.Server.Tunnel.{Reply}

-- Header names are texts, values are bytes, as in `HeaderMap`.
pub record Request : Type 0 where
  pub method : Text
  pub path : Text
  pub path_and_query : Option Text
  pub headers : List (Text × Bytes)

-- A frame of the request's body: data, with whether the tunnel takes it, trailers, or an error.
pub data Frame : Type 0 where
  data_frame : Bytes → Bool → Frame
  trailers body_failed : Frame

-- A piece of the response's body.
pub data Piece : Type 0 where
  piece : Bytes → Piece
  broken : Piece

pub data Response : Type 0 where
  bad_gateway gateway_timeout : Text → Response
  relayed : ℕ → List (Text × Text) → List Piece → Response

-- What the world does in one call. `accepts` is the check of the `http` crate's response builder on
-- a status and headers.
pub record Exchange : Type 0 where
  pub request_id : Text
  pub now : ℕ
  pub reply : Reply
  pub head_taken : Bool
  pub frames : List Frame
  pub flushed : Bool
  pub reads : List (ℕ × Read)
  pub accepts : ℕ → List (Text × Text) → Bool
