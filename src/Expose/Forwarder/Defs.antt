-- ===== src/Expose/Forwarder/Defs.antt =====
-- `handle_tunnel_stream` and `rewrite_host_header`. What each read of the two streams gives, and
-- whether each write is taken, are arguments. The log lines are left out. `find_header_end` is the
-- same function as the server's.
use loophole.Base.{
  Bool, true, false, Option, none, some, List, [], ◌∷◌, ◌++◌, length, ltb, if◌then◌else◌,
}
use loophole.Text.{Text, codes, starts_with}
use loophole.Text.Lines.{lines, to_lowercase}
use loophole.Text.Utf8.{Bytes, as_bytes, from_utf8}
use loophole.Http.{Read, chunk, closed, failed, timed_out, find_header_end}

abbrev pub is_host_line : Text → Bool
is_host_line line = starts_with (to_lowercase line) (codes "host:")

-- The loop over the lines.
unfoldable pub rewrite_lines : List Text → Text → Text
rewrite_lines [] new_host = []
rewrite_lines (line ∷ ls) new_host =
    (if is_host_line line
      then codes "Host: " ++ (new_host ++ codes "\r\n")
      else line ++ codes "\r\n")
    ++ rewrite_lines ls new_host

unfoldable pub rewrite_host_header : Bytes → Text → Bytes
unfolding rewrite_lines
rewrite_host_header request new_host = elim (from_utf8 request) [
  | none ↦ request
  | some request_str ↦ as_bytes (rewrite_lines (lines request_str) new_host)
]

-- The loop that reads the head: the stream ends or the head is too large, more is awaited, or the
-- bytes read with the reads that are left.
pub data Head : Type 0 where
  gone waiting : Head
  complete : Bytes → List (Read × Bool) → Head

unfoldable pub read_head : Bytes → List (Read × Bool) → Head
read_head header_buf [] = waiting
read_head header_buf ((closed, _) ∷ reads) = gone
read_head header_buf ((failed, _) ∷ reads) = gone
read_head header_buf ((timed_out, _) ∷ reads) = read_head header_buf reads
read_head header_buf ((chunk b bs, _) ∷ reads) =
    let more = read_head (header_buf ++ b ∷ bs) reads in
    elim (find_header_end (header_buf ++ b ∷ bs)) [
      | some pos ↦ complete (header_buf ++ b ∷ bs) reads
      | none ↦ if ltb 65536 (length (header_buf ++ b ∷ bs)) then gone else more
    ]

-- A loop that copies: a read is paired with whether what it gives is taken on the other side.
unfoldable pub copy : List (Read × Bool) → Bytes
copy [] = []
copy ((chunk b bs, true) ∷ reads) = (b ∷ bs) ++ copy reads
copy ((chunk b bs, false) ∷ reads) = []
copy ((closed, _) ∷ reads) = []
copy ((failed, _) ∷ reads) = []
copy ((timed_out, _) ∷ reads) = copy reads

abbrev pub cannot_connect : Bytes
cannot_connect =
    codes "HTTP/1.1 502 Bad Gateway\r\nContent-Length: 26\r\n\r\nCannot connect to backend"

abbrev pub cannot_send : Bytes
cannot_send = codes "HTTP/1.1 502 Bad Gateway\r\nContent-Length: 24\r\n\r\nFailed to send request"

-- What has gone to the local server and into the tunnel.
pub record Forwarded : Type 0 where
  pub to_local : Bytes
  pub to_tunnel : Bytes

-- Whether the local server accepts the connection, and takes the head.
pub data Local : Type 0 where
  refused connected_only taken : Local

abbrev request_data : Bytes → Option Text → Bytes
request_data header_buf none = header_buf
request_data header_buf (some host) = rewrite_host_header header_buf host

unfoldable pub handle_tunnel_stream :
    Option Text → Local → List (Read × Bool) → List (Read × Bool) → Forwarded
unfolding rewrite_host_header
handle_tunnel_stream local_host local tunnel_reads local_reads = elim (read_head [] tunnel_reads) [
  | gone ↦ record { to_local = []; to_tunnel = [] }
  | waiting ↦ record { to_local = []; to_tunnel = [] }
  | complete header_buf reads ↦ elim local [
    | refused ↦ record { to_local = []; to_tunnel = cannot_connect }
    | connected_only ↦ record { to_local = []; to_tunnel = cannot_send }
    | taken ↦ record {
      to_local = request_data header_buf local_host ++ copy reads;
      to_tunnel = copy local_reads;
    }
  ]
]
