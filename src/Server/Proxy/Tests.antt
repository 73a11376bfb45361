-- ===== src/Server/Proxy/Tests.antt =====
-- The theorems of the proxy at concrete requests and responses.
use loophole.Base.{
  ℕ, zero, suc, ◌≡◌, ◌≢◌, ◌+◌, refl, true, none, some, List, [], ◌∷◌, ◌++◌, arith, length,
}
use loophole.Text.{
  codes, ◌==◌, mem, split_once, before, trim, strip_prefix, strip_suffix, contains_char,
}
use loophole.Text.Utf8.{from_utf8}
use loophole.Text.Lines.{lines, to_lowercase}
use loophole.Text.Numbers.{parse_uint}
use loophole.Http.{Read, chunk, closed, timed_out, find_header_end, crlf}
use loophole.Http.Blocks.{block}
use loophole.Server.Tunnel.{Tunnel, opened, get_stream}
use loophole.Server.Proxy.Defs.{
  Request, Exchange, data_frame, trailers, relayed, piece, proxy_request, request_head,
  read_headers, finish_request, read_response, is_hop_by_hop_header, build_response, status_code,
  body_pieces,
}
use loophole.Server.Proxy.Reading.{IsPaced}
use loophole.Server.Proxy.Outcome.{body_bytes, proxy_request-relayed, proxy_request_total}
use loophole.Server.Proxy.Heads.{IsClean, request_line, request_lines, request_head-split}

abbrev tunnel : Tunnel
tunnel = record {
  subdomain = codes "my-app";
  token = codes "tk_a";
  request_tx = 1;
  created_at = 5;
  request_count = 7;
  last_activity = 5;
}

abbrev upload : Request
upload = record {
  method = codes "POST";
  path = codes "/up";
  path_and_query = some (codes "/up?a=1");
  headers =
      (codes "host", codes "my-app.example.com") ∷ (codes "connection", codes "keep-alive") ∷ [];
}

-- The terminator arrives in two reads.
abbrev split_response : List (ℕ × Read)
split_response =
    (0, chunk b'H' (codes "TTP/1.1 200 OK\r\nContent-Type: text/plain\r\nTE: x\r\n\r"))
    ∷ (5, timed_out)
    ∷ (5_000_000_005, chunk 10 (codes "hel"))
    ∷ (5_000_000_009, chunk b'l' (codes "o"))
    ∷ (5_000_000_010, closed)
    ∷ []

abbrev exchange : Exchange
exchange = record {
  request_id = codes "id";
  now = 9;
  reply = opened;
  head_taken = true;
  frames = data_frame (codes "hi") true ∷ trailers ∷ data_frame (codes "!") true ∷ [];
  flushed = true;
  reads = split_response;
  accepts = λ _ _. true;
}

proxy_request_runs :
    (proxy_request tunnel upload (codes "1.2.3.4") true exchange).response
    ≡ some (
        relayed 200
          ((codes "X-Request-ID", codes "id") ∷ (codes "Content-Type", codes "text/plain") ∷ [])
          (piece (codes "hel") ∷ piece (codes "lo") ∷ []))
unfolding proxy_request get_stream finish_request read_response read_headers find_header_end
    build_response from_utf8 lines strip_suffix status_code body_pieces is_hop_by_hop_header
    to_lowercase split_once before trim parse_uint mem ◌==◌ strip_prefix
proxy_request_runs = refl

proxy_request-relayed_example :
    (proxy_request tunnel upload (codes "1.2.3.4") true exchange).sent
    ≡ request_head upload (codes "1.2.3.4") true (codes "id") ++ body_bytes exchange.frames
proxy_request-relayed_example =
    (proxy_request-relayed tunnel upload (codes "1.2.3.4") true exchange 200 _ _
      proxy_request_runs).1

upload-IsClean : IsClean upload (codes "1.2.3.4") (codes "id")
unfolding contains_char
upload-IsClean = record {
  method = refl;
  target = refl;
  headers = ((refl, refl), ((refl, refl), tt));
  ip = refl;
  id = refl;
}

request_head-split_example :
    (request_head upload (codes "1.2.3.4") true (codes "id")
      ≡ block (request_line upload ∷ request_lines upload (codes "1.2.3.4") true (codes "id"))
        ++ crlf)
    × (pos : ℕ) × (find_header_end
          (request_head upload (codes "1.2.3.4") true (codes "id") ++ codes "hi")
        ≡ some pos)
    × (pos + 4 ≡ length (request_head upload (codes "1.2.3.4") true (codes "id")))
request_head-split_example =
    request_head-split upload (codes "1.2.3.4") true (codes "id") (codes "hi") upload-IsClean

-- Reads that bring one byte each.
unfoldable drip : ℕ → List (ℕ × Read)
drip zero = []
drip (suc n) = (0, chunk b'a' []) ∷ drip n

length-drip : (n : ℕ) → length (drip n) ≡ n
unfolding drip
length-drip zero = refl
length-drip (suc n) = omega (arith, length-drip n)

drip-IsPaced : (n : ℕ) → IsPaced 0 (drip n)
unfolding drip
drip-IsPaced zero = tt
drip-IsPaced (suc n) = (omega arith, drip-IsPaced n)

proxy_request_total_example :
    (proxy_request tunnel upload
      (codes "1.2.3.4")
      true
      (record exchange { reads = drip 65545 })).response
    ≢ none
proxy_request_total_example =
    proxy_request_total tunnel upload (codes "1.2.3.4") true
      (record exchange { reads = drip 65545 }) (drip-IsPaced 65545)
      (omega (arith, length-drip 65545))
