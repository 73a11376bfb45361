-- ===== src/Server/Proxy/Defs.antt =====
-- `proxy_request` and its helpers. The yamux stream, the clock and the request's body are arguments:
-- whether each write is taken, and what each read gives. Times are in nanoseconds. The numbers that
-- the code only logs (content length, chunked, totals) are left out.
pub use loophole.Server.Proxy.Types.{
  Request, Frame, data_frame, trailers, body_failed, Piece, piece, broken, Response, bad_gateway,
  gateway_timeout, relayed, Exchange,
}
use mathlib.Core.Option
use loophole.Base.{
  ℕ, ◌+◌, ◌*◌, Bool, true, false, Option, none, some, List, [], ◌∷◌, ◌++◌, ltb, length, take, drop,
  if◌then◌else◌, is_empty, unwrap_or, ok, err, ◌>>=◌,
}
use loophole.Text.{Text, codes, mem, split_once, before, trim}
use loophole.Text.Utf8.{Bytes, as_bytes, from_utf8}
use loophole.Text.Lines.{lines, to_lowercase}
use loophole.Text.Numbers.{parse_uint}
use loophole.Http.{crlf, Read, chunk, closed, failed, timed_out, find_header_end}
use loophole.Server.Tunnel.{Tunnel, get_stream, increment_requests}

abbrev pub hop_by_hop_names : List Text
hop_by_hop_names =
    codes "connection"
    ∷ codes "keep-alive"
    ∷ codes "proxy-authenticate"
    ∷ codes "proxy-authorization"
    ∷ codes "te"
    ∷ codes "trailers"
    ∷ codes "transfer-encoding"
    ∷ codes "upgrade"
    ∷ []

unfoldable pub is_hop_by_hop_header : Text → Bool
is_hop_by_hop_header name = mem hop_by_hop_names (to_lowercase name)

unfoldable pub header_lines : List (Text × Bytes) → Bytes
header_lines [] = []
header_lines ((name, value) ∷ hs) =
    let rest = header_lines hs in
    if is_hop_by_hop_header name
    then rest
    else as_bytes (name ++ codes ": ") ++ (value ++ (crlf ++ rest))

unfoldable pub forwarded_lines : Text → Bool → Text → Bytes
forwarded_lines client_ip is_https request_id =
    as_bytes (codes "X-Forwarded-For: " ++ client_ip)
    ++ (crlf
        ++ (as_bytes
              (codes "X-Forwarded-Proto: " ++ (if is_https then codes "https" else codes "http"))
            ++ (crlf ++ (as_bytes (codes "X-Request-ID: " ++ request_id) ++ crlf))))

-- The head of the request that is sent through the tunnel.
unfoldable pub request_head : Request → Text → Bool → Text → Bytes
request_head req client_ip is_https request_id =
    as_bytes
      (req.method ++ (codes " " ++ (unwrap_or req.path_and_query (codes "/") ++ codes " HTTP/1.1")))
    ++ (crlf
        ++ (header_lines req.headers ++ (forwarded_lines client_ip is_https request_id ++ crlf)))

-- The bytes that the tunnel takes of the body, and the response if sending stops there.
unfoldable pub send_body : List Frame → Bytes × Option Response
send_body [] = ([], none)
send_body (data_frame bytes true ∷ fs) = let (sent, stop) = send_body fs in (bytes ++ sent, stop)
send_body (data_frame bytes false ∷ fs) =
    ([], some (bad_gateway (codes "Failed to send request body to tunnel")))
send_body (trailers ∷ fs) = send_body fs
send_body (body_failed ∷ fs) = ([], some (bad_gateway (codes "Failed to read request body")))

abbrev pub header_read_timeout : ℕ
header_read_timeout = 30 * 1_000_000_000

-- How reading the headers ends: with a buffer, the place of the terminator and the reads to come;
-- with a response; or not yet.
pub data HeaderRead : Type 0 where
  headers : Bytes → ℕ → List (ℕ × Read) → HeaderRead
  stopped : Response → HeaderRead
  waiting : HeaderRead

-- The loop over reads; each comes with the time since the loop began, when its round begins. A read
-- that times out goes on to the next round.
unfoldable pub read_headers : Bytes → List (ℕ × Read) → HeaderRead
read_headers buf [] = waiting
read_headers buf ((elapsed, timed_out) ∷ es) =
    let more = read_headers buf es in
    if ltb header_read_timeout elapsed
    then stopped (gateway_timeout (codes "Timeout waiting for response"))
    else more
read_headers buf ((elapsed, closed) ∷ es) =
    if ltb header_read_timeout elapsed
    then stopped (gateway_timeout (codes "Timeout waiting for response"))
    else stopped (bad_gateway (codes "Tunnel closed unexpectedly"))
read_headers buf ((elapsed, failed) ∷ es) =
    if ltb header_read_timeout elapsed
    then stopped (gateway_timeout (codes "Timeout waiting for response"))
    else stopped (bad_gateway (codes "Failed to read response from tunnel"))
read_headers buf ((elapsed, chunk b bs) ∷ es) =
    let longer = buf ++ b ∷ bs in
    let more = read_headers longer es in
    if ltb header_read_timeout elapsed
    then stopped (gateway_timeout (codes "Timeout waiting for response"))
    else elim (find_header_end longer) [
      | some pos ↦ headers longer pos es
      | none ↦ elim (ltb 65536 (length longer)) [
        | true ↦ stopped (bad_gateway (codes "Response headers too large"))
        | false ↦ more
      ]
    ]

-- `splitn(3, ' ')` and `get(1)`.
unfoldable pub second_word : Text → Option Text
second_word line = Option.map (λ p. before b' ' p.1) (split_once b' ' line)

unfoldable pub status_code : Text → ℕ
unfolding second_word
status_code line = unwrap_or (do word ← second_word line; parse_uint 16 word) 502

-- The headers of the response, up to the first empty line, without the hop-by-hop ones.
unfoldable pub response_headers : List Text → List (Text × Text)
response_headers [] = []
response_headers ([] ∷ ls) = []
response_headers ((c ∷ line) ∷ ls) =
    let rest = response_headers ls in
    elim (split_once b':' (c ∷ line)) [
      | none ↦ rest
      | some (name, value) ↦ elim (is_hop_by_hop_header (trim name)) [
        | true ↦ rest
        | false ↦ (trim name, trim value) ∷ rest
      ]
    ]

abbrev pub first_line : List Text → Text
first_line [] = codes "HTTP/1.1 502 Bad Gateway"
first_line (l ∷ ls) = l

abbrev pub other_lines : List Text → List Text
other_lines [] = []
other_lines (l ∷ ls) = ls

-- The task that streams the rest of the body: no timeout applies there, so a read that would have
-- timed out only waits.
unfoldable pub stream_body : List (ℕ × Read) → List Piece
stream_body [] = []
stream_body ((t, chunk b bs) ∷ es) = piece (b ∷ bs) ∷ stream_body es
stream_body ((t, closed) ∷ es) = []
stream_body ((t, failed) ∷ es) = broken ∷ []
stream_body ((t, timed_out) ∷ es) = stream_body es

unfoldable pub body_pieces : Bytes → List (ℕ × Read) → List Piece
unfolding stream_body
body_pieces initial es = if is_empty initial then stream_body es else piece initial ∷ stream_body es

-- The response from the buffer, the place of the terminator and the reads to come.
unfoldable pub build_response :
    Text → (ℕ → List (Text × Text) → Bool) → Bytes → ℕ → List (ℕ × Read) → Response
unfolding status_code response_headers body_pieces
build_response request_id accepts buf pos es = elim (from_utf8 (take pos buf)) [
  | none ↦ bad_gateway (codes "Invalid response from backend")
  | some head ↦
      let status = status_code (first_line (lines head)) in
      let fields =
        (codes "X-Request-ID", request_id) ∷ response_headers (other_lines (lines head)) in
      if accepts status fields
      then relayed status fields (body_pieces (drop (pos + 4) buf) es)
      else bad_gateway (codes "Failed to build response")
]

unfoldable pub read_response : Exchange → Option Response
unfolding build_response
read_response x = elim (read_headers [] x.reads) [
  | waiting ↦ none
  | stopped r ↦ some r
  | headers buf pos es ↦ some (build_response x.request_id x.accepts buf pos es)
]

-- The tunnel after the call, the bytes that went into it, and the response, if one has come.
pub record Proxied : Type 0 where
  pub tunnel : Tunnel
  pub sent : Bytes
  pub response : Option Response

-- After the head has been taken.
unfoldable pub finish_request : Exchange → Bytes × Option Response
unfolding send_body
finish_request x =
    let (sent, stop) = send_body x.frames in
    elim stop [
      | some r ↦ (sent, some r)
      | none ↦
          if x.flushed
          then (sent, read_response x)
          else (sent, some (bad_gateway (codes "Failed to send request to tunnel")))
    ]

unfoldable pub proxy_request : Tunnel → Request → Text → Bool → Exchange → Proxied
proxy_request tunnel req client_ip is_https x =
    let counted = (increment_requests tunnel x.now).0 in
    let head = request_head req client_ip is_https x.request_id in
    let rest = finish_request x in
    elim (get_stream x.reply) [
      | err e ↦ record {
        tunnel = counted;
        sent = [];
        response = some (bad_gateway (codes "Failed to connect to tunnel"));
      }
      | ok _ ↦
          if x.head_taken
          then record { tunnel = counted; sent = head ++ rest.0; response = rest.1 }
          else record {
            tunnel = counted;
            sent = [];
            response = some (bad_gateway (codes "Failed to send request to tunnel"));
          }
    ]
