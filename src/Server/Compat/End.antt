-- ===== src/Server/Compat/End.antt =====
-- Where a reader sees the end of the stream, if no message is empty.
use loophole.Base.{
  ℕ, zero, suc, ◌≡◌, ◌≢◌, ◌<◌, refl, inl, inr, Bool, true, false, none, some, List, [], ◌∷◌, length,
  take, drop, is_empty, ltb, min, arith, Bool-cases, length-take, ap, All,
}
use loophole.Text.Utf8.{Bytes}
use loophole.Socket.{text, binary, close, ping, pong, message, failed, ended, Polled}
use loophole.Server.Compat.Defs.{Compat, read, rest_of, poll_inner, poll_read}
use loophole.Server.Compat.Bytewise.{bytes}

-- No buffered frame is empty, and no binary message that is still to come is.
abbrev pub IsFull : Bytes → Type 0
IsFull b = b ≢ []

abbrev pub IsFullFrame : Polled → Type 0
IsFullFrame (some (message (binary b))) = IsFull b
IsFullFrame _ = Unit

pub record NoEmpty (c : Compat) : Type 0 where
  pub buffered : All IsFull c.read_buffer
  pub coming : All IsFullFrame c.inner

take-IsFull : (n : ℕ) (b : Bytes) → IsFull b → 0 < n → IsFull (take (min (length b) n) b)
take-IsFull zero b v h = absurd (omega arith)
take-IsFull (suc n) [] v h = absurd (v refl)
take-IsFull (suc n) (x ∷ b) v h =
    λ e. omega (arith, length-take (min (length (x ∷ b)) (suc n)) (x ∷ b), ap length e)

drop-IsFull : (k : ℕ) (b : Bytes) → k < length b → IsFull (drop k b)
drop-IsFull zero [] h = absurd (omega arith)
drop-IsFull zero (x ∷ b) h = λ e. cc
drop-IsFull (suc k) [] h = absurd (omega arith)
drop-IsFull (suc k) (x ∷ b) h = drop-IsFull k b (omega arith)

rest_of-IsFull :
    (n : ℕ) (b : Bytes) (rest : List Bytes) → All IsFull rest → All IsFull (rest_of n b rest)
rest_of-IsFull n b rest v = elim (Bool-cases (is_empty (drop (min (length b) n) b))) [
  | inl gone ↦ rw gone v
  | inr left ↦ rw left ((λ e. ground arith), v)
]

poll_read-end_of :
    (inner : List Polled) (buffer : List Bytes) (closed : Bool) (n m : ℕ)
    → All IsFull buffer
    → All IsFullFrame inner
    → 0 < n
    → (poll_read (record { inner = inner; read_buffer = buffer; closed = closed }) n).1 ≡ read []
    → (bytes (record { inner = inner; read_buffer = buffer; closed = closed }) ≡ [])
      × (poll_read
            (poll_read (record { inner = inner; read_buffer = buffer; closed = closed }) n).0
            m
          ≡ (
            (poll_read (record { inner = inner; read_buffer = buffer; closed = closed }) n).0,
            read [],
          ))
unfolding poll_read poll_inner
poll_read-end_of inner (b ∷ rest) closed n m (v, _) w h e = absurd (take-IsFull n b v h (cc (e)))
poll_read-end_of inner [] true n m v w h e = (refl, refl)
poll_read-end_of [] [] false n m v w h e = cc
poll_read-end_of (none ∷ ps) [] false n m v w h e = cc
poll_read-end_of (some (failed x) ∷ ps) [] false n m v w h e = cc
poll_read-end_of (some ended ∷ ps) [] false n m v w h e = (refl, refl)
poll_read-end_of (some (message close) ∷ ps) [] false n m v w h e = (refl, refl)
poll_read-end_of (some (message (text t)) ∷ ps) [] false n m v w h e = cc
poll_read-end_of (some (message ping) ∷ ps) [] false n m v w h e = cc
poll_read-end_of (some (message pong) ∷ ps) [] false n m v w h e = cc
poll_read-end_of (some (message (binary b)) ∷ ps) [] false n m v (w, _) h e =
    absurd (take-IsFull n b w h (cc (e)))

-- A read into a buffer that is not empty reports the end of the stream only where nothing is left to
-- read, if no message is empty. After it the socket is closed, and every read reports the end.
pub poll_read-end :
    (c : Compat) (n m : ℕ)
    → NoEmpty c
    → 0 < n
    → (poll_read c n).1 ≡ read []
    → (bytes c ≡ []) × (poll_read (poll_read c n).0 m ≡ ((poll_read c n).0, read []))
poll_read-end c n m v h e =
    poll_read-end_of c.inner c.read_buffer c.closed n m v.buffered v.coming h e

poll_read-NoEmpty_of :
    (inner : List Polled) (buffer : List Bytes) (closed : Bool) (n : ℕ)
    → All IsFull buffer
    → All IsFullFrame inner
    → NoEmpty (poll_read (record { inner = inner; read_buffer = buffer; closed = closed }) n).0
unfolding poll_read poll_inner
poll_read-NoEmpty_of inner (b ∷ rest) closed n (v, vs) w = record {
  buffered = rest_of-IsFull n b rest vs;
  coming = w;
}
poll_read-NoEmpty_of inner [] true n v w = record { buffered = tt; coming = w }
poll_read-NoEmpty_of [] [] false n v w = record { buffered = tt; coming = tt }
poll_read-NoEmpty_of (none ∷ ps) [] false n v (_, w) = record { buffered = tt; coming = w }
poll_read-NoEmpty_of (some (failed x) ∷ ps) [] false n v (_, w) = record {
  buffered = tt;
  coming = w;
}
poll_read-NoEmpty_of (some ended ∷ ps) [] false n v (_, w) = record { buffered = tt; coming = w }
poll_read-NoEmpty_of (some (message close) ∷ ps) [] false n v (_, w) = record {
  buffered = tt;
  coming = w;
}
poll_read-NoEmpty_of (some (message (text t)) ∷ ps) [] false n v (_, w) = record {
  buffered = tt;
  coming = w;
}
poll_read-NoEmpty_of (some (message ping) ∷ ps) [] false n v (_, w) = record {
  buffered = tt;
  coming = w;
}
poll_read-NoEmpty_of (some (message pong) ∷ ps) [] false n v (_, w) = record {
  buffered = tt;
  coming = w;
}
poll_read-NoEmpty_of (some (message (binary b)) ∷ ps) [] false n v (_, w) = record {
  buffered = elim (Bool-cases (ltb (min (length b) n) (length b))) [
    | inl left ↦ rw left (drop-IsFull (min (length b) n) b (ground arith), tt)
    | inr gone ↦ rw gone tt
  ];
  coming = w;
}

-- A read keeps every buffered frame non-empty, and so does each read after it.
pub poll_read-NoEmpty : (c : Compat) (n : ℕ) → NoEmpty c → NoEmpty (poll_read c n).0
poll_read-NoEmpty c n v = poll_read-NoEmpty_of c.inner c.read_buffer c.closed n v.buffered v.coming
