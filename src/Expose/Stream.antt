-- ===== src/Expose/Stream.antt =====
-- expose/tunnel.rs: the client's copy of the stream over a web socket, and the loop of `run_tunnel`.
pub mod Same
mod Tests
use loophole.Base.{
  Result, ok, err, Option, ◌++◌, ℕ, ◌≡◌, refl, Bool, true, false, none, some, List, [], ◌∷◌, length,
  take, drop, ltb, min, if◌then◌else◌,
}
use loophole.Text.{Text}
use loophole.Text.Utf8.{Bytes}
use loophole.Socket.{Message, text, binary, close, ping, pong, message, failed, ended, Polled}
use loophole.Server.Compat.Defs as Server
use loophole.Server.Compat.Defs.{
  Compat, PollWrite, written, write_failed, write_pending, PollDone, done, done_failed,
  done_pending, PollRead, read, read_failed, read_pending, rest_of, poll_inner,
}

pub record WsCompat : Type 0 where
  pub inner : List Polled
  pub read_buffer : List Bytes
  pub closed : Bool

unfoldable pub poll_read : WsCompat → ℕ → WsCompat × PollRead
poll_read c n = elim c.read_buffer [
  | payload ∷ rest ↦ (
    record c { read_buffer = rest_of n payload rest },
    read (take (min (length payload) n) payload),
  )
  | [] ↦ if c.closed then (c, read []) else elim c.inner [
    | [] ↦ (c, read_pending)
    | some (message (binary payload)) ∷ polls ↦
        let len = min (length payload) n in
        (
          record c {
            inner = polls;
            read_buffer = if ltb len (length payload) then drop len payload ∷ [] else [];
          },
          read (take len payload),
        )
    | some (message close) ∷ polls ↦ (record c { inner = polls; closed = true }, read [])
    | some (message _) ∷ polls ↦ (record c { inner = polls }, read_pending)
    | some (failed e) ∷ polls ↦ (record c { inner = polls }, read_failed e)
    | some ended ∷ polls ↦ (record c { inner = polls; closed = true }, read [])
    | none ∷ polls ↦ (record c { inner = polls }, read_pending)
  ]
]

-- The messages sent, after a write, as in the server's copy.
unfoldable pub poll_write :
    List Message
    → Bytes
    → Option (Result Text (Unit {0}))
    → Result Text (Unit {0})
    → List Message × PollWrite
poll_write sent buf ready start_send = elim ready [
  | some (ok _) ↦ elim start_send [
    | ok _ ↦ (sent ++ (binary buf ∷ []), written (length buf))
    | err e ↦ (sent, write_failed e)
  ]
  | some (err e) ↦ (sent, write_failed e)
  | none ↦ (sent, write_pending)
]

unfoldable pub poll_flush : Option (Result Text (Unit {0})) → PollDone
poll_flush flushed = elim flushed [
  | some (ok _) ↦ done
  | some (err e) ↦ done_failed e
  | none ↦ done_pending
]

unfoldable pub poll_close : Option (Result Text (Unit {0})) → PollDone
poll_close closed = elim closed [
  | some (ok _) ↦ done
  | some (err e) ↦ done_failed e
  | none ↦ done_pending
]

-- What `yamux` delivers: a stream, with its number, an error, or the end.
pub data Inbound : Type 0 where
  stream : ℕ → Inbound
  yamux_error : Text → Inbound
  no_more : Inbound

-- The streams that are handed to `handle_tunnel_stream`, and whether the loop has ended.
unfoldable pub run_tunnel : List Inbound → List ℕ × Bool
run_tunnel [] = ([], false)
run_tunnel (stream s ∷ items) = (s ∷ (run_tunnel items).0, (run_tunnel items).1)
run_tunnel (yamux_error e ∷ items) = ([], true)
run_tunnel (no_more ∷ items) = ([], true)

-- The server's stream with the same state.
abbrev pub as_compat : WsCompat → Compat
as_compat c = record { inner = c.inner; read_buffer = c.read_buffer; closed = c.closed }

poll_read-of :
    (inner : List Polled) (buffer : List Bytes) (closed : Bool) (n : ℕ)
    → let c : WsCompat = record { inner = inner; read_buffer = buffer; closed = closed } in
      (as_compat (poll_read c n).0, (poll_read c n).1) ≡ Server.poll_read (as_compat c) n
unfolding poll_read Server.poll_read poll_inner
poll_read-of inner (payload ∷ rest) closed n = refl
poll_read-of inner [] true n = refl
poll_read-of [] [] false n = refl
poll_read-of (none ∷ ps) [] false n = refl
poll_read-of (some (failed x) ∷ ps) [] false n = refl
poll_read-of (some ended ∷ ps) [] false n = refl
poll_read-of (some (message close) ∷ ps) [] false n = refl
poll_read-of (some (message (text t)) ∷ ps) [] false n = refl
poll_read-of (some (message ping) ∷ ps) [] false n = refl
poll_read-of (some (message pong) ∷ ps) [] false n = refl
poll_read-of (some (message (binary b)) ∷ ps) [] false n = refl

-- The client's copy of the stream reads as the server's does.
pub poll_read-same :
    (c : WsCompat) (n : ℕ)
    → (as_compat (poll_read c n).0, (poll_read c n).1) ≡ Server.poll_read (as_compat c) n
poll_read-same c n = poll_read-of c.inner c.read_buffer c.closed n
