-- ===== src/Visit/Sample.antt =====
-- A visit with a body and a response in two parts, as data for the tests.
use mathlib.Core.List.{append-nil}
use loophole.Base.{
  ℕ, ◌≡◌, refl, true, false, none, some, List, [], ◌∷◌, ◌++◌, arith, length, ◌≤◌, Bool,
}
use loophole.Text.{Text, codes, ◌==◌, mem, contains_char}
use loophole.Text.Lines.{to_lowercase}
use loophole.Text.Utf8.{Bytes, from_utf8, as_bytes}
use loophole.Http.{Read, chunk, closed, find_header_end, scan}
use loophole.Server.Tunnel as Tunnel
use loophole.Server.Tunnel.{Tunnel}
use loophole.Server.Config.Defs.{Config, default_limits}
use loophole.Server.Proxy.Defs.{
  Request, Exchange, data_frame, request_head, header_lines, forwarded_lines, is_hop_by_hop_header,
}
use loophole.Server.Proxy.Reading.{stream_bytes}
use loophole.Server.Proxy.Heads.{IsClean}
use loophole.Expose.Forwarder.Copying.{received, IsTaken}
use loophole.Visit.{Responds}

abbrev pub config : Config
config = record {
  version = 1;
  server = record { domain = codes "ex.com"; http_port = 80; https_port = 443 };
  tokens = (codes "tk_b", record { admin = true }) ∷ [];
  limits = default_limits;
  https = none;
}

abbrev pub visit : Request
visit = record {
  method = codes "POST";
  path = codes "/";
  path_and_query = some (codes "/");
  headers = (codes "host", codes "my-app.ex.com") ∷ [];
}

abbrev pub head : Text
head = codes "HTTP/1.1 200 OK\r\nA: b"

abbrev pub early : List (ℕ × Read)
early = (0, chunk b'H' (codes "TTP/1.1 200 OK\r\nA: b\r\n\r\no")) ∷ []

abbrev pub late : List (ℕ × Read)
late = (60_000_000_000, chunk b'k' []) ∷ (60_000_000_001, closed) ∷ []

abbrev pub exchange : Exchange
exchange = record {
  request_id = codes "id";
  now = 9;
  reply = Tunnel.opened;
  head_taken = true;
  frames = data_frame (codes "hi") true ∷ [];
  flushed = true;
  reads = early ++ late;
  accepts = λ _ _. true;
}

-- All bytes in one read, then the end.
abbrev pub at_once : Bytes → List (Read × Bool)
at_once [] = (closed, true) ∷ []
at_once (b ∷ bs) = (chunk b bs, true) ∷ (closed, true) ∷ []

pub received-at_once : (bs : Bytes) → received (at_once bs) ≡ bs
unfolding received
received-at_once [] = refl
received-at_once (b ∷ bs) = ground (arith, append-nil bs)

pub at_once-IsTaken : (bs : Bytes) → IsTaken (at_once bs)
at_once-IsTaken [] = (refl, tt)
at_once-IsTaken (b ∷ bs) = (refl, (refl, tt))

abbrev pub response : Bytes
response = codes "HTTP/1.1 200 OK\r\nA: b\r\n\r\nok"

pub visit-IsClean : IsClean visit (codes "1.2.3.4") (codes "id")
unfolding contains_char
visit-IsClean = record {
  method = refl;
  target = refl;
  headers = ((refl, refl), tt);
  ip = refl;
  id = refl;
}

pub visit-Responds : Responds exchange (received (at_once response)) 21 head
unfolding received find_header_end scan stream_bytes ◌==◌ from_utf8
visit-Responds = record {
  early = early;
  late = late;
  reads = refl;
  timely = (omega arith, tt);
  ends = refl;
  small = omega arith;
  decoded = refl;
  accepted = refl;
}

pub visit_small : length (request_head visit (codes "1.2.3.4") false (codes "id")) ≤ 65536
unfolding request_head header_lines forwarded_lines is_hop_by_hop_header mem ◌==◌ as_bytes
    to_lowercase
visit_small = omega arith
