-- ===== src/Expose/Forwarder/Copying.antt =====
-- What passes through the forwarder.
use mathlib.Core.List.{append_assoc, append-nil}
use loophole.Base.{
  ℕ, ◌+◌, ◌≤◌, some, ◌≡◌, ◌≢◌, refl, ap, ◌∙◌, inl, inr, Bool, true, false, none, List, [], ◌∷◌,
  ◌++◌, arith, length, ltb, Bool-cases, Option-cases, All,
}
use loophole.Text.Utf8.{Bytes}
use loophole.Http.{Read, chunk, closed, failed, timed_out, find_header_end, find_header_end-prefix}
use loophole.Expose.Forwarder.Defs.{complete, read_head, copy, taken, handle_tunnel_stream}

-- The bytes that a stream brings before it ends.
unfoldable pub received : List (Read × Bool) → Bytes
received [] = []
received ((chunk b bs, _) ∷ reads) = (b ∷ bs) ++ received reads
received ((closed, _) ∷ reads) = []
received ((failed, _) ∷ reads) = []
received ((timed_out, _) ∷ reads) = received reads

abbrev pub IsTaken : List (Read × Bool) → Type 0
IsTaken = All (λ r. r.1 ≡ true)

copy-received : (reads : List (Read × Bool)) → IsTaken reads → copy reads ≡ received reads
unfolding copy received
copy-received [] h = refl
copy-received ((chunk b bs, true) ∷ reads) (h, hs) =
    ap (λ x. (b ∷ bs) ++ x) (copy-received reads hs)
copy-received ((chunk b bs, false) ∷ reads) (h, hs) = cc
copy-received ((closed, t) ∷ reads) h = refl
copy-received ((failed, t) ∷ reads) h = refl
copy-received ((timed_out, t) ∷ reads) (h, hs) = copy-received reads hs

read_head-received :
    (buf : Bytes) (reads : List (Read × Bool)) {head : Bytes} {rest : List (Read × Bool)}
    → read_head buf reads ≡ complete head rest
    → IsTaken reads
    → (head ++ received rest ≡ buf ++ received reads) × IsTaken rest × (find_header_end head ≢ none)
unfolding read_head received
read_head-received buf [] h t = cc
read_head-received buf ((closed, _) ∷ reads) h t = cc
read_head-received buf ((failed, _) ∷ reads) h t = cc
read_head-received buf ((timed_out, _) ∷ reads) h (t, ts) = read_head-received buf reads h ts
read_head-received buf ((chunk b bs, _) ∷ reads) {head = head} {rest = rest} h (t, ts) =
    elim (Option-cases (find_header_end (buf ++ b ∷ bs))) [
      | inr (pos, found) ↦
          let here : buf ++ b ∷ bs ≡ head = ground arith in
          let after : reads ≡ rest = ground arith in
          (
            rw (← here, ← after) (append_assoc buf (b ∷ bs) (received reads)),
            rw (← after) ts,
            rw (← here, found) (λ e. cc),
          )
      | inl missing ↦ elim (Bool-cases (ltb 65536 (length (buf ++ b ∷ bs)))) [
        | inl large ↦ absurd (ground arith)
        | inr small ↦
            let (same, still, found) = read_head-received (buf ++ b ∷ bs) reads (ground arith) ts in
            (same ∙ append_assoc buf (b ∷ bs) (received reads), still, found)
      ]
    ]

-- Without a local host name, the local server gets exactly the bytes of the request and the tunnel
-- exactly those of the response, however both are cut into reads, if the head is complete and every
-- write is taken.
pub handle_tunnel_stream-transparent :
    (tunnel_reads local_reads : List (Read × Bool)) (head : Bytes) (rest : List (Read × Bool))
    → read_head [] tunnel_reads ≡ complete head rest
    → IsTaken tunnel_reads
    → IsTaken local_reads
    → handle_tunnel_stream none taken tunnel_reads local_reads
      ≡ record { to_local = received tunnel_reads; to_tunnel = received local_reads }
unfolding handle_tunnel_stream
handle_tunnel_stream-transparent ts ls head rest h t l =
    let (same, still, _) = read_head-received [] ts h t in
    ground (arith, copy-received rest still, copy-received ls l, same)

-- A head that ends within 65,536 bytes is read, however it is cut into reads.
pub read_head_complete :
    (buf : Bytes) (reads : List (Read × Bool)) (pos : ℕ)
    → find_header_end buf ≡ none
    → find_header_end (buf ++ received reads) ≡ some pos
    → pos + 4 ≤ 65536
    → (head : Bytes) × (rest : List (Read × Bool)) × (read_head buf reads ≡ complete head rest)
unfolding read_head received
read_head_complete buf [] pos missing found small = absurd (ground (arith, append-nil buf))
read_head_complete buf ((closed, t) ∷ reads) pos missing found small =
    absurd (ground (arith, append-nil buf))
read_head_complete buf ((failed, t) ∷ reads) pos missing found small =
    absurd (ground (arith, append-nil buf))
read_head_complete buf ((timed_out, t) ∷ reads) pos missing found small =
    read_head_complete buf reads pos missing found small
read_head_complete buf ((chunk b bs, t) ∷ reads) pos missing found small =
    let longer = buf ++ b ∷ bs in
    let later : find_header_end (longer ++ received reads) ≡ some pos =
      rw (append_assoc buf (b ∷ bs) (received reads)) found in
    elim (Option-cases (find_header_end longer)) [
      | inr (k, here) ↦ (longer, reads, ground arith)
      | inl still ↦ elim (Bool-cases (ltb 65536 (length longer))) [
        | inl large ↦ absurd (
            ground (arith, find_header_end-prefix longer (received reads) pos later (ground arith)))
        | inr fits ↦
            let (head, rest, same) = read_head_complete longer reads pos still later small in
            (head, rest, ground arith)
      ]
    ]
