-- ===== src/Socket.antt =====
-- What a web socket delivers: the messages of the `axum` and `tungstenite` crates.
use loophole.Base.{Option}
use loophole.Text.{Text}
use loophole.Text.Utf8.{Bytes}

pub data Message : Type 0 where
  text : Text → Message
  binary : Bytes → Message
  close ping pong : Message

-- An item of the stream: a message, an error with its text, or the stream's end.
pub data Arrival : Type 0 where
  message : Message → Arrival
  failed : Text → Arrival
  ended : Arrival

-- A poll or a wait with a time limit: `none` where nothing has come.
abbrev pub Polled : Type 0
Polled = Option Arrival
