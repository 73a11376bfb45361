-- ===== src/Visit.antt =====
-- A visit through both ends of the tunnel: `handle_request` of server/router.rs and `proxy_request` of
-- server/proxy.rs at the server, `handle_tunnel_stream` of expose/forwarder.rs at the client.
pub mod Opened
mod Sample
mod Tests
use mathlib.Core.Option
use loophole.Base.{ℕ, ◌+◌, ◌≤◌, ◌≡◌, Bool, true, none, some, List, ◌∷◌, ◌++◌, ok, is_some, take}
use loophole.Text.{Text, codes}
use loophole.Text.Utf8.{Bytes, from_utf8}
use loophole.Text.Lines.{lines}
use loophole.Http.{Read, find_header_end}
use loophole.Server.Tunnel.{Tunnel, opened}
use loophole.Server.Proxy.Defs.{
  Request, Exchange, status_code, response_headers, first_line, other_lines, send_body,
}
use loophole.Server.Proxy.Reading.{stream_bytes, IsTimely}
use loophole.Server.Router.Defs.{ServerState}
use loophole.Expose.Forwarder.Defs.{taken, handle_tunnel_stream}
use loophole.Expose.Forwarder.Copying.{received, IsTaken}

-- The tunnel works: a stream is opened, it takes the head and the body of the request, and the reads
-- at each end bring what the other end has sent, however that is cut.
pub record Carries (x : Exchange) (sent : Bytes) (tunnel_reads local_reads : List (Read × Bool))
    : Type 0 where
  pub reached : x.reply ≡ opened
  pub head_taken : x.head_taken ≡ true
  pub body_taken : (send_body x.frames).1 ≡ none
  pub flushed : x.flushed ≡ true
  pub there : received tunnel_reads ≡ sent
  pub taken_there : IsTaken tunnel_reads
  pub taken_back : IsTaken local_reads
  pub back :
      stream_bytes x.reads ≡ (handle_tunnel_stream none taken tunnel_reads local_reads).to_tunnel

-- The head of the response of the local server, in time: its end is among the early reads and within
-- 65,536 bytes, it is text, and the `http` crate accepts what is read from it.
pub record Responds (x : Exchange) (response : Bytes) (pos : ℕ) (head : Text) : Type 0 where
  pub early : List (ℕ × Read)
  pub late : List (ℕ × Read)
  pub reads : x.reads ≡ early ++ late
  pub timely : IsTimely early
  pub ends : find_header_end (stream_bytes early) ≡ some pos
  pub small : pos + 4 ≤ 65536
  pub decoded : from_utf8 (take pos response) ≡ some head
  pub accepted :
      x.accepts
        (status_code (first_line (lines head)))
        ((codes "X-Request-ID", x.request_id) ∷ response_headers (other_lines (lines head)))
      ≡ true

module _ (state : ServerState) (is_upgrade : Bool) (client_ip : Text) (req : Request)
    (x : Exchange) where
  abbrev secured : Bool
  secured = is_some state.config.https
