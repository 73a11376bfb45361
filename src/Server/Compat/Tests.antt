-- ===== src/Server/Compat/Tests.antt =====
-- The theorems of the stream at concrete sockets.
use loophole.Base.{◌≡◌, refl, false, none, some, List, [], ◌∷◌, ◌++◌, ok}
use loophole.Text.{codes}
use loophole.Socket.{message, binary, close}
use loophole.Server.Compat.Defs.{Compat, new, read, poll_read, poll_inner}
use loophole.Server.Compat.Bytewise.{bytes, bytes_read, poll_read-bytes}
use loophole.Server.Compat.Frames.{Attempt}

abbrev socket : Compat
socket = record {
  inner = some (message (binary (codes "hello"))) ∷ some (message close) ∷ [];
  read_buffer = codes "ab" ∷ [];
  closed = false;
}

abbrev closing : Compat
closing = record { inner = some (message close) ∷ []; read_buffer = []; closed = false }

-- An empty message reads as the end of the stream, though more bytes follow.
empty_message_reads :
    poll_read (new (some (message (binary [])) ∷ some (message (binary (codes "x"))) ∷ [])) 8
    ≡ (new (some (message (binary (codes "x"))) ∷ []), read [])
unfolding poll_read new poll_inner
empty_message_reads = refl

poll_read-bytes_example :
    bytes_read (poll_read socket 1).1 ++ bytes (poll_read socket 1).0 ≡ bytes socket
poll_read-bytes_example = poll_read-bytes socket 1 (unfold poll_read in tt)

abbrev attempts : List Attempt
attempts =
    record { buf = codes "he"; ready = none; start_send = ok tt }
    ∷ record { buf = codes "he"; ready = some (ok tt); start_send = ok tt }
    ∷ record { buf = codes "llo"; ready = some (ok tt); start_send = ok tt }
    ∷ []
