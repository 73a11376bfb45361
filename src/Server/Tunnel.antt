-- ===== src/Server/Tunnel.antt =====
-- server/tunnel.rs: a tunnel's record and its counters. `now` is the reading of `Instant::now()`, in
-- seconds; `elapsed` is the truncated difference, as `Instant::elapsed` saturates at zero.
-- `request_tx` is the number of the connection that reads the channel. The lock of
-- `last_activity` is never poisoned, since nothing panics while it is held.
use loophole.Base.{ℕ, ◌+◌, ◌-◌, ◌%◌, ◌^◌, Bool, ltb, Result, ok, err}
use loophole.Text.{Text, codes}

pub data ProxyError : Type 0 where
  stream_open_failed write_failed read_failed timeout connection_closed : ProxyError

unfoldable pub display : ProxyError → Text
display stream_open_failed = codes "Failed to open stream"
display write_failed = codes "Failed to write to stream"
display read_failed = codes "Failed to read from stream"
display timeout = codes "Timeout"
display connection_closed = codes "Connection closed"

pub record Tunnel : Type 0 where
  pub subdomain : Text
  pub token : Text
  pub request_tx : ℕ
  pub created_at : ℕ
  pub request_count : ℕ
  pub last_activity : ℕ

unfoldable pub new : Text → Text → ℕ → ℕ → Tunnel
new subdomain token request_tx now = record {
  subdomain = subdomain;
  token = token;
  request_tx = request_tx;
  created_at = now;
  request_count = 0;
  last_activity = now;
}

-- `fetch_add` on an `AtomicU64` wraps.
abbrev pub u64_mod : ℕ
u64_mod = 2 ^ 64

unfoldable pub touch : Tunnel → ℕ → Tunnel
touch t now = record t { last_activity = now }

-- The new tunnel and the count before the call.
unfoldable pub increment_requests : Tunnel → ℕ → Tunnel × ℕ
unfolding touch
increment_requests t now =
    let touched = touch t now in
    (record touched { request_count = (t.request_count + 1) % u64_mod }, t.request_count)

unfoldable pub is_idle : Tunnel → ℕ → ℕ → Bool
is_idle t limit now = ltb limit (now - t.last_activity)

-- What the channel does with a request: the send may fail, and the reply may never come.
pub data Reply : Type 0 where
  send_failed dropped opened open_failed : Reply

unfoldable pub get_stream : Reply → Result ProxyError (Unit {0})
get_stream send_failed = err connection_closed
get_stream dropped = err connection_closed
get_stream opened = ok tt
get_stream open_failed = err stream_open_failed
