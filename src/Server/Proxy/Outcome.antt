-- ===== src/Server/Proxy/Outcome.antt =====
-- What a proxied request comes to.
use loophole.Base.{
  ℕ, ◌+◌, ◌<◌, ◌≡◌, ◌≢◌, refl, Bool, true, false, none, some, List, [], ◌∷◌, ◌++◌, arith, subst,
  length, take-append_le, drop-append_le, take, drop, Option-cases, inl, inr,
}
use loophole.Text.{Text, codes}
use loophole.Text.Utf8.{Bytes, from_utf8}
use loophole.Text.Lines.{lines}
use loophole.Http.{Read, find_header_end-append, find_header_end_iff, terminator_fits, IsHeaderEnd}
use loophole.Server.Tunnel.{Tunnel, get_stream, increment_requests}
use loophole.Server.Proxy.Defs.{
  HeaderRead, headers, stopped, waiting, read_headers, Piece, Exchange, Request, Response, relayed,
  build_response, read_response, status_code, response_headers, first_line, other_lines,
  body_pieces, proxy_request, finish_request, send_body, Frame, data_frame, trailers, body_failed,
  request_head,
}
use loophole.Server.Proxy.Reading.{
  stream_bytes, pieces_bytes, read_headers-stream, body_pieces-bytes, IsPaced, read_headers_total,
  IsError, read_headers-IsError,
}

-- The response that a stream of bytes stands for: the head up to the first terminator, then the
-- body.
pub record IsResponse (x : Exchange) (status : ℕ) (fields : List (Text × Text)) (body : List Piece)
    : Type 0 where
  pub pos : ℕ
  pub head : Text
  pub first_end : IsHeaderEnd (stream_bytes x.reads) pos
  pub decoded : from_utf8 (take pos (stream_bytes x.reads)) ≡ some head
  pub status_read : status ≡ status_code (first_line (lines head))
  pub fields_read :
      fields ≡ (codes "X-Request-ID", x.request_id) ∷ response_headers (other_lines (lines head))
  pub body_read : pieces_bytes body ≡ drop (pos + 4) (stream_bytes x.reads)

module _ (x : Exchange) {status : ℕ} {fields : List (Text × Text)} {body : List Piece} where
  build_response-IsResponse :
      (buf : Bytes) (pos : ℕ) (es : List (ℕ × Read))
      → read_headers [] x.reads ≡ headers buf pos es
      → build_response x.request_id x.accepts buf pos es ≡ relayed status fields body
      → IsResponse x status fields body
  unfolding build_response
  build_response-IsResponse buf pos es r h =
      let (same, found) = read_headers-stream [] x.reads buf pos es r in
      let v = (find_header_end_iff buf pos).0 found in
      let fits = terminator_fits buf pos v.here in
      elim (Option-cases (from_utf8 (take pos buf))) [
        | inl bad ↦ absurd (ground arith)
        | inr (head, good) ↦ record {
          pos = pos;
          head = head;
          first_end =
              (find_header_end_iff _ pos).0
                (rw (← same) (find_header_end-append buf (stream_bytes es) pos found));
          decoded = rw (← same, take-append_le pos buf (stream_bytes es) (omega arith)) good;
          status_read = ground arith;
          fields_read = ground arith;
          body_read =
              let made : body ≡ body_pieces (drop (pos + 4) buf) es = ground arith in
              rw (made, ← same, drop-append_le (pos + 4) buf (stream_bytes es) fits)
                (body_pieces-bytes (drop (pos + 4) buf) es);
        }
      ]

  read_response-IsResponse :
      read_response x ≡ some (relayed status fields body) → IsResponse x status fields body
  unfolding read_response
  read_response-IsResponse h = go (read_headers [] x.reads) refl
    where
      go : (r : HeaderRead) → read_headers [] x.reads ≡ r → IsResponse x status fields body
      go waiting e = absurd (ground arith)
      go (stopped r) e =
          let same : r ≡ relayed status fields body = ground arith in
          absurd (subst IsError same (read_headers-IsError [] x.reads r e))
      go (headers buf pos es) e = build_response-IsResponse buf pos es e (ground arith)

-- The data of a request's body.
unfoldable pub body_bytes : List Frame → Bytes
body_bytes [] = []
body_bytes (data_frame bytes taken ∷ fs) = bytes ++ body_bytes fs
body_bytes (trailers ∷ fs) = body_bytes fs
body_bytes (body_failed ∷ fs) = body_bytes fs

-- Sending goes through without a response only if the tunnel has all of the body.
pub send_body-none : (fs : List Frame) → (send_body fs).1 ≡ none → (send_body fs).0 ≡ body_bytes fs
unfolding send_body body_bytes
send_body-none [] h = refl
send_body-none (data_frame bytes true ∷ fs) h = rw (send_body-none fs h)
send_body-none (data_frame bytes false ∷ fs) h = cc
send_body-none (trailers ∷ fs) h = send_body-none fs h
send_body-none (body_failed ∷ fs) h = cc

send_body-IsError : (fs : List Frame) (r : Response) → (send_body fs).1 ≡ some r → IsError r
unfolding send_body
send_body-IsError [] r h = cc
send_body-IsError (data_frame bytes true ∷ fs) r h = send_body-IsError fs r h
send_body-IsError (data_frame bytes false ∷ fs) r h = ground arith
send_body-IsError (trailers ∷ fs) r h = send_body-IsError fs r h
send_body-IsError (body_failed ∷ fs) r h = ground arith

finish_request-relayed :
    (x : Exchange) (status : ℕ) (fields : List (Text × Text)) (body : List Piece)
    → (finish_request x).1 ≡ some (relayed status fields body)
    → IsResponse x status fields body × ((finish_request x).0 ≡ body_bytes x.frames)
unfolding finish_request
finish_request-relayed x status fields body h = elim (Option-cases (send_body x.frames).1) [
  | inl through ↦
      (read_response-IsResponse x (ground arith), ground (arith, send_body-none x.frames through))
  | inr (r, stop) ↦
      let same : r ≡ relayed status fields body = ground arith in
      absurd (subst IsError same (send_body-IsError x.frames r stop))
]

-- A response that is passed on to the visitor is what the stream's bytes say, however they are cut
-- into reads: status and headers of the head before the first empty line, then all that follows as
-- the body. The tunnel has then received the head and the whole body of the request, and has
-- counted it.
pub proxy_request-relayed :
    (tunnel : Tunnel) (req : Request) (client_ip : Text) (is_https : Bool) (x : Exchange)
    (status : ℕ) (fields : List (Text × Text)) (body : List Piece)
    → (proxy_request tunnel req client_ip is_https x).response ≡ some (relayed status fields body)
    → IsResponse x status fields body
      × ((proxy_request tunnel req client_ip is_https x).sent
          ≡ request_head req client_ip is_https x.request_id ++ body_bytes x.frames)
      × ((proxy_request tunnel req client_ip is_https x).tunnel
          ≡ (increment_requests tunnel x.now).0)
unfolding proxy_request get_stream
proxy_request-relayed tunnel req client_ip is_https x status fields body h =
    let (response, sent) = finish_request-relayed x status fields body (ground arith) in
    (response, ground (arith, sent), ground arith)

-- A visitor is answered: with a clock that runs, and reads that time out after their five seconds,
-- 65,545 reads are enough for a response.
pub proxy_request_total :
    (tunnel : Tunnel) (req : Request) (client_ip : Text) (is_https : Bool) (x : Exchange)
    → IsPaced 0 x.reads
    → 65544 < length x.reads
    → (proxy_request tunnel req client_ip is_https x).response ≢ none
unfolding proxy_request get_stream finish_request read_response
proxy_request_total tunnel req client_ip is_https x paced enough =
    ground (arith, read_headers_total x.reads paced enough)
