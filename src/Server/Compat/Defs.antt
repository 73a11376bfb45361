-- ===== src/Server/Compat/Defs.antt =====
-- `Compat`. The web socket is the list of what its polls give, one item for each poll; a list that is
-- used up gives nothing more. A read buffer of length `n` that is filled with `b` is the result
-- `read b`, for the code's length and the bytes copied.
use loophole.Base.{
  ℕ, Bool, true, false, Option, none, some, List, [], ◌∷◌, ◌++◌, length, take, drop, is_empty, ltb,
  min, if◌then◌else◌, Result, ok, err,
}
use loophole.Text.{Text}
use loophole.Text.Utf8.{Bytes}
use loophole.Socket.{Message, binary, close, message, failed, ended, Polled}

pub record Compat : Type 0 where
  pub inner : List Polled
  pub read_buffer : List Bytes
  pub closed : Bool

unfoldable pub new : List Polled → Compat
new inner = record { inner = inner; read_buffer = []; closed = false }

pub data PollRead : Type 0 where
  read : Bytes → PollRead
  read_failed : Text → PollRead
  read_pending : PollRead

-- What a frame leaves after its first bytes have gone.
abbrev pub rest_of : ℕ → Bytes → List Bytes → List Bytes
rest_of n payload rest =
    let left = drop (min (length payload) n) payload in if is_empty left then rest else left ∷ rest

-- The poll of the socket, where nothing is buffered.
unfoldable pub poll_inner : Compat → ℕ → Compat × PollRead
poll_inner c n = elim c.inner [
  | [] ↦ (c, read_pending)
  | none ∷ polls ↦ (record c { inner = polls }, read_pending)
  | some (failed e) ∷ polls ↦ (record c { inner = polls }, read_failed e)
  | some ended ∷ polls ↦ (record c { inner = polls; closed = true }, read [])
  | some (message m) ∷ polls ↦ elim m [
    | binary payload ↦
        let len = min (length payload) n in
        (
          record c {
            inner = polls;
            read_buffer = if ltb len (length payload) then drop len payload ∷ [] else [];
          },
          read (take len payload),
        )
    | close ↦ (record c { inner = polls; closed = true }, read [])
    | _ ↦ (record c { inner = polls }, read_pending)
  ]
]

unfoldable pub poll_read : Compat → ℕ → Compat × PollRead
unfolding poll_inner
poll_read c n = elim c.read_buffer [
  | payload ∷ rest ↦ (
    record c { read_buffer = rest_of n payload rest },
    read (take (min (length payload) n) payload),
  )
  | [] ↦ if c.closed then (c, read []) else poll_inner c n
]

pub data PollWrite : Type 0 where
  written : ℕ → PollWrite
  write_failed : Text → PollWrite
  write_pending : PollWrite

-- The messages sent, after a write: whether the sink is ready, and whether it takes the message, are
-- arguments.
unfoldable pub poll_write :
    List Message
    → Bytes
    → Option (Result Text (Unit {0}))
    → Result Text (Unit {0})
    → List Message × PollWrite
poll_write sent buf none start_send = (sent, write_pending)
poll_write sent buf (some (err e)) start_send = (sent, write_failed e)
poll_write sent buf (some (ok _)) (ok _) = (sent ++ (binary buf ∷ []), written (length buf))
poll_write sent buf (some (ok _)) (err e) = (sent, write_failed e)

pub data PollDone : Type 0 where
  done : PollDone
  done_failed : Text → PollDone
  done_pending : PollDone

-- What the socket answers is passed on.
unfoldable pub poll_flush : Option (Result Text (Unit {0})) → PollDone
poll_flush none = done_pending
poll_flush (some (ok _)) = done
poll_flush (some (err e)) = done_failed e

unfoldable pub poll_close : Option (Result Text (Unit {0})) → PollDone
poll_close none = done_pending
poll_close (some (ok _)) = done
poll_close (some (err e)) = done_failed e
