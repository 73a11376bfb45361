-- ===== src/Expose/Stream/Tests.antt =====
-- The two copies of the stream at concrete calls.
use loophole.Base.{◌≡◌, false, none, some, List, [], ◌∷◌, ok, err}
use loophole.Text.{codes}
use loophole.Socket.{message, binary}
use loophole.Expose.Stream.{WsCompat, as_compat}
use loophole.Expose.Stream.Same.{
  Call, read, write, flush, close, client_run, server_run, client_run-same,
}

abbrev ws : WsCompat
ws = record {
  inner = some (message (binary (codes "hello"))) ∷ [];
  read_buffer = [];
  closed = false;
}

abbrev calls : List Call
calls =
    read 2
    ∷ write (codes "ab") (some (ok tt)) (ok tt)
    ∷ flush none
    ∷ read 9
    ∷ read 9
    ∷ close (some (err (codes "broken")))
    ∷ []

client_run-same_example : client_run ws [] calls ≡ server_run (as_compat ws) [] calls
client_run-same_example = client_run-same ws [] calls
