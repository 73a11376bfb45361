-- ===== src/Server/Compat/Bytewise.antt =====
-- The stream of bytes that a reader sees: the payloads of the binary messages, in order, up to the
-- close, whatever the lengths of the reads.
use mathlib.Core.List.{append_assoc, append-nil}
use loophole.Base.{
  ℕ, ◌≡◌, refl, sym, ap, ◌∙◌, inl, inr, Bool, true, false, none, some, List, [], ◌∷◌, ◌++◌, length,
  take, drop, is_empty, ltb, min, arith, if◌then◌else◌, Bool-cases, take-append-drop, take-all,
}
use loophole.Text.Utf8.{Bytes}
use loophole.Socket.{text, binary, close, ping, pong, message, failed, ended, Polled}
use loophole.Server.Compat.Defs.{
  Compat, PollRead, read, read_failed, read_pending, rest_of, poll_inner, poll_read,
}

abbrev pub flatten : List Bytes → Bytes
flatten [] = []
flatten (b ∷ bs) = b ++ flatten bs

-- The bytes that a socket still brings: those before its close, its end or an error.
abbrev pub inner_bytes : List Polled → Bytes
inner_bytes [] = []
inner_bytes (none ∷ ps) = inner_bytes ps
inner_bytes (some (message (binary b)) ∷ ps) = b ++ inner_bytes ps
inner_bytes (some (message (text t)) ∷ ps) = inner_bytes ps
inner_bytes (some (message ping) ∷ ps) = inner_bytes ps
inner_bytes (some (message pong) ∷ ps) = inner_bytes ps
inner_bytes (some (message close) ∷ ps) = []
inner_bytes (some (failed e) ∷ ps) = []
inner_bytes (some ended ∷ ps) = []

-- The bytes that a reader has still to see.
abbrev pub bytes : Compat → Bytes
bytes c = flatten c.read_buffer ++ (if c.closed then [] else inner_bytes c.inner)

-- What a read hands over.
abbrev pub bytes_read : PollRead → Bytes
bytes_read (read b) = b
bytes_read (read_failed e) = []
bytes_read read_pending = []

abbrev pub IsRead : PollRead → Type 0
IsRead (read_failed e) = ⊥
IsRead _ = Unit

nil_of_is_empty : (b : Bytes) → is_empty b ≡ true → b ≡ []
nil_of_is_empty [] h = refl
nil_of_is_empty (x ∷ b) h = cc

rest_of-flatten :
    (n : ℕ) (payload : Bytes) (rest : List Bytes)
    → take (min (length payload) n) payload ++ flatten (rest_of n payload rest)
      ≡ payload ++ flatten rest
rest_of-flatten n payload rest =
    let len = min (length payload) n in
    elim (Bool-cases (is_empty (drop len payload))) [
      | inl none_left ↦
          let gone = nil_of_is_empty (drop len payload) none_left in
          rw none_left (
            ap (λ b. b ++ flatten rest)
              (sym (append-nil (take len payload))
                ∙ sym (ap (λ b. take len payload ++ b) gone)
                ∙ take-append-drop len payload))
      | inr left ↦ rw left (
          sym (append_assoc (take len payload) (drop len payload) (flatten rest))
          ∙ ap (λ b. b ++ flatten rest) (take-append-drop len payload))
    ]

drop-rest :
    (len : ℕ) (payload : Bytes)
    → take len payload ++ flatten (if ltb len (length payload) then drop len payload ∷ [] else [])
      ≡ payload
drop-rest len payload = elim (Bool-cases (ltb len (length payload))) [
  | inl left ↦ rw (left, append-nil (drop len payload)) (take-append-drop len payload)
  | inr all_gone ↦
      rw (all_gone, append-nil (take len payload)) (take-all len payload (ground arith))
]

abbrev idle : List Polled → Compat
idle inner = record { inner = inner; read_buffer = []; closed = false }

poll_inner-bytes :
    (inner : List Polled) (n : ℕ)
    → IsRead (poll_inner (idle inner) n).1
    → bytes_read (poll_inner (idle inner) n).1 ++ bytes (poll_inner (idle inner) n).0
      ≡ inner_bytes inner
unfolding poll_inner
poll_inner-bytes [] n h = refl
poll_inner-bytes (none ∷ ps) n h = refl
poll_inner-bytes (some (failed e) ∷ ps) n h = absurd h
poll_inner-bytes (some ended ∷ ps) n h = refl
poll_inner-bytes (some (message close) ∷ ps) n h = refl
poll_inner-bytes (some (message (text t)) ∷ ps) n h = refl
poll_inner-bytes (some (message ping) ∷ ps) n h = refl
poll_inner-bytes (some (message pong) ∷ ps) n h = refl
poll_inner-bytes (some (message (binary payload)) ∷ ps) n h =
    let len = min (length payload) n in
    sym (append_assoc (take len payload) _ (inner_bytes ps))
    ∙ ap (λ b. b ++ inner_bytes ps) (drop-rest len payload)

poll_read-bytes_of :
    (inner : List Polled) (buffer : List Bytes) (closed : Bool) (n : ℕ)
    → IsRead (poll_read (record { inner = inner; read_buffer = buffer; closed = closed }) n).1
    → bytes_read (poll_read (record { inner = inner; read_buffer = buffer; closed = closed }) n).1
        ++ bytes (poll_read (record { inner = inner; read_buffer = buffer; closed = closed }) n).0
      ≡ bytes (record { inner = inner; read_buffer = buffer; closed = closed })
unfolding poll_read
poll_read-bytes_of inner [] true n h = refl
poll_read-bytes_of inner [] false n h = poll_inner-bytes inner n h
poll_read-bytes_of inner (payload ∷ rest) closed n h =
    let still = if closed then [] else inner_bytes inner in
    sym (
      append_assoc (take (min (length payload) n) payload) (flatten (rest_of n payload rest)) still)
    ∙ ap (λ b. b ++ still) (rest_of-flatten n payload rest)

-- What a read hands over, and what is still to be read after it, are what was to be read before it,
-- unless the socket reports an error.
pub poll_read-bytes :
    (c : Compat) (n : ℕ)
    → IsRead (poll_read c n).1
    → bytes_read (poll_read c n).1 ++ bytes (poll_read c n).0 ≡ bytes c
poll_read-bytes c n h = poll_read-bytes_of c.inner c.read_buffer c.closed n h
