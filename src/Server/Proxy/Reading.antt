-- ===== src/Server/Proxy/Reading.antt =====
-- The loop that reads the headers of a response: it splits the stream at the first terminator
-- however the stream is cut into reads, it ends, and its buffer is bounded.
use mathlib.Core.List.{append_assoc, append-nil}
use loophole.Base.{
  ℕ, ◌+◌, ◌-◌, ◌*◌, ◌/◌, ◌≤◌, ◌<◌, ◌≡◌, ◌≢◌, refl, ◌∙◌, none, some, All, ltb, Bool-cases, List, [],
  ◌∷◌, ◌++◌, arith, length, length-append, Option-cases, inl, inr,
}
use loophole.Text.Utf8.{Bytes}
use loophole.Http.{
  Read, chunk, closed, failed, timed_out, find_header_end, find_header_end-append,
  find_header_end-prefix,
}
use loophole.Server.Proxy.Defs.{
  header_read_timeout, headers, stopped, waiting, read_headers, Piece, piece, broken, stream_body,
  body_pieces, Response, bad_gateway, gateway_timeout, relayed,
}

-- The bytes that a stream gives before it ends.
unfoldable pub stream_bytes : List (ℕ × Read) → Bytes
stream_bytes [] = []
stream_bytes ((t, chunk b bs) ∷ es) = (b ∷ bs) ++ stream_bytes es
stream_bytes ((t, closed) ∷ es) = []
stream_bytes ((t, failed) ∷ es) = []
stream_bytes ((t, timed_out) ∷ es) = stream_bytes es

-- The bytes of the pieces of a body.
unfoldable pub pieces_bytes : List Piece → Bytes
pieces_bytes [] = []
pieces_bytes (piece bs ∷ ps) = bs ++ pieces_bytes ps
pieces_bytes (broken ∷ ps) = pieces_bytes ps

-- What the loop has read and what is to come are the stream, and the terminator is in what it has
-- read.
pub read_headers-stream :
    (buf : Bytes) (es : List (ℕ × Read)) (buf' : Bytes) (pos : ℕ) (es' : List (ℕ × Read))
    → read_headers buf es ≡ headers buf' pos es'
    → (buf' ++ stream_bytes es' ≡ buf ++ stream_bytes es) × (find_header_end buf' ≡ some pos)
unfolding read_headers stream_bytes
read_headers-stream buf [] buf' pos es' h = cc
read_headers-stream buf ((t, closed) ∷ es) buf' pos es' h = ground arith
read_headers-stream buf ((t, failed) ∷ es) buf' pos es' h = ground arith
read_headers-stream buf ((t, timed_out) ∷ es) buf' pos es' h =
    read_headers-stream buf es buf' pos es' (ground arith)
read_headers-stream buf ((t, chunk b bs) ∷ es) buf' pos es' h =
    elim (Option-cases (find_header_end (buf ++ b ∷ bs))) [
      | inl missing ↦
          let (same, found) = read_headers-stream (buf ++ b ∷ bs) es buf' pos es' (ground arith) in
          (same ∙ append_assoc buf (b ∷ bs) (stream_bytes es), found)
      | inr (k, found) ↦
          let here : buf ++ b ∷ bs ≡ buf' = ground arith in
          let rest : es ≡ es' = ground arith in
          let place : k ≡ pos = ground arith in
          (
            rw (← here, ← rest) (append_assoc buf (b ∷ bs) (stream_bytes es)),
            rw (← here, ← place) found,
          )
    ]

stream_body-bytes : (es : List (ℕ × Read)) → pieces_bytes (stream_body es) ≡ stream_bytes es
unfolding pieces_bytes stream_body stream_bytes
stream_body-bytes [] = refl
stream_body-bytes ((t, chunk b bs) ∷ es) = rw (stream_body-bytes es)
stream_body-bytes ((t, closed) ∷ es) = refl
stream_body-bytes ((t, failed) ∷ es) = refl
stream_body-bytes ((t, timed_out) ∷ es) = stream_body-bytes es

pub body_pieces-bytes :
    (initial : Bytes) (es : List (ℕ × Read))
    → pieces_bytes (body_pieces initial es) ≡ initial ++ stream_bytes es
unfolding pieces_bytes body_pieces
body_pieces-bytes [] es = stream_body-bytes es
body_pieces-bytes (b ∷ bs) es = rw (stream_body-bytes es)

-- The length of the time that a read is given, in nanoseconds.
abbrev pub read_timeout : ℕ
read_timeout = 5 * 1_000_000_000

-- The clock of the rounds: it does not run backwards, and a read that times out takes its time.
abbrev pub resume : ℕ → Read → ℕ
resume t timed_out = t + read_timeout
resume t _ = t

abbrev pub IsPaced : ℕ → List (ℕ × Read) → Type 0
IsPaced t [] = Unit
IsPaced t ((u, r) ∷ es) = (t ≤ u) × IsPaced (resume u r) es

read_headers_ends :
    (buf : Bytes) (t : ℕ) (es : List (ℕ × Read))
    → IsPaced t es
    → 65537 - length buf + (7 - t / read_timeout) < length es
    → read_headers buf es ≢ waiting
unfolding read_headers
read_headers_ends buf t [] p h = absurd (omega arith)
read_headers_ends buf t ((u, closed) ∷ es) p h = ground arith
read_headers_ends buf t ((u, failed) ∷ es) p h = ground arith
read_headers_ends buf t ((u, timed_out) ∷ es) p h =
    ground (arith, read_headers_ends buf (u + read_timeout) es p.1)
read_headers_ends buf t ((u, chunk b bs) ∷ es) p h =
    ground (arith, read_headers_ends (buf ++ b ∷ bs) u es p.1, length-append buf (b ∷ bs))

-- Reading the headers ends: whatever a stream gives, within 65,545 rounds there is a terminator, an
-- error or a timeout.
pub read_headers_total :
    (es : List (ℕ × Read)) → IsPaced 0 es → 65544 < length es → read_headers [] es ≢ waiting
read_headers_total es p h = read_headers_ends [] 0 es p (omega arith)

-- No read gives more than the 4096 bytes of its buffer.
abbrev pub FitsBuffer : List (ℕ × Read) → Type 0
FitsBuffer [] = Unit
FitsBuffer ((t, chunk b bs) ∷ es) = (length (b ∷ bs) ≤ 4096) × FitsBuffer es
FitsBuffer (e ∷ es) = FitsBuffer es

read_headers_bound :
    (buf : Bytes) (es : List (ℕ × Read)) (buf' : Bytes) (pos : ℕ) (es' : List (ℕ × Read))
    → length buf ≤ 65536
    → FitsBuffer es
    → read_headers buf es ≡ headers buf' pos es'
    → length buf' ≤ 65536 + 4096
unfolding read_headers
read_headers_bound buf [] buf' pos es' n f h = cc
read_headers_bound buf ((t, closed) ∷ es) buf' pos es' n f h = ground arith
read_headers_bound buf ((t, failed) ∷ es) buf' pos es' n f h = ground arith
read_headers_bound buf ((t, timed_out) ∷ es) buf' pos es' n f h =
    read_headers_bound buf es buf' pos es' n f (ground arith)
read_headers_bound buf ((t, chunk b bs) ∷ es) buf' pos es' n f h =
    ground (arith, length-append buf (b ∷ bs), read_headers_bound (buf ++ b ∷ bs) es buf' pos es')

-- The buffer of the headers stays below 65,536 bytes and one read.
pub read_headers-buffer_le :
    (es : List (ℕ × Read)) (buf' : Bytes) (pos : ℕ) (es' : List (ℕ × Read))
    → FitsBuffer es
    → read_headers [] es ≡ headers buf' pos es'
    → length buf' ≤ 65536 + 4096
read_headers-buffer_le es buf' pos es' f h = read_headers_bound [] es buf' pos es' (omega arith) f h

-- A response that the proxy makes itself.
abbrev pub IsError : Response → Type 0
IsError (bad_gateway why) = Unit
IsError (gateway_timeout why) = Unit
IsError (relayed status fields body) = ⊥

-- Where the loop stops, it answers with an error of its own.
pub read_headers-IsError :
    (buf : Bytes) (es : List (ℕ × Read)) (r : Response)
    → read_headers buf es ≡ stopped r
    → IsError r
unfolding read_headers
read_headers-IsError buf [] r h = cc
read_headers-IsError buf ((t, closed) ∷ es) r h = ground arith
read_headers-IsError buf ((t, failed) ∷ es) r h = ground arith
read_headers-IsError buf ((t, timed_out) ∷ es) r h = ground (arith, read_headers-IsError buf es r)
read_headers-IsError buf ((t, chunk b bs) ∷ es) r h =
    ground (arith, read_headers-IsError (buf ++ b ∷ bs) es r)

-- The rounds begin before the time for the headers is over.
abbrev pub IsTimely : List (ℕ × Read) → Type 0
IsTimely = All (λ e. e.0 ≤ header_read_timeout)

-- A head that ends within 65,536 bytes and in time is read, however it is cut into reads, and whatever
-- follows.
pub read_headers_complete :
    (buf : Bytes) (early late : List (ℕ × Read)) (pos : ℕ)
    → IsTimely early
    → find_header_end buf ≡ none
    → find_header_end (buf ++ stream_bytes early) ≡ some pos
    → pos + 4 ≤ 65536
    → (buf' : Bytes) × (es : List (ℕ × Read)) × (read_headers buf (early ++ late)
        ≡ headers buf' pos es)
unfolding read_headers stream_bytes
read_headers_complete buf [] late pos timely missing found small =
    absurd (ground (arith, append-nil buf))
read_headers_complete buf ((t, closed) ∷ es) late pos timely missing found small =
    absurd (ground (arith, append-nil buf))
read_headers_complete buf ((t, failed) ∷ es) late pos timely missing found small =
    absurd (ground (arith, append-nil buf))
read_headers_complete buf ((t, timed_out) ∷ es) late pos (now, timely) missing found small =
    let (buf', rest, same) = read_headers_complete buf es late pos timely missing found small in
    (buf', rest, ground arith)
read_headers_complete buf ((t, chunk b bs) ∷ es) late pos (now, timely) missing found small =
    let longer = buf ++ b ∷ bs in
    let later : find_header_end (longer ++ stream_bytes es) ≡ some pos =
      rw (append_assoc buf (b ∷ bs) (stream_bytes es)) found in
    elim (Option-cases (find_header_end longer)) [
      | inr (k, here) ↦ (
        longer,
        es ++ late,
        ground (arith, find_header_end-append longer (stream_bytes es) k here),
      )
      | inl still ↦ elim (Bool-cases (ltb 65536 (length longer))) [
        | inl large ↦ absurd (
            ground
              (arith, find_header_end-prefix longer (stream_bytes es) pos later (ground arith)))
        | inr fits ↦
            let (buf', rest, same) =
              read_headers_complete longer es late pos timely still later small in
            (buf', rest, ground arith)
      ]
    ]
