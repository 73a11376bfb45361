-- ===== src/Expose/Stream/Same.antt =====
-- expose/tunnel.rs and server/compat.rs: the two copies of the stream, side by side.
use loophole.Base.{ℕ, ◌≡◌, refl, Option, none, some, List, [], ◌∷◌, arith, Result, ok, err}
use loophole.Text.{Text}
use loophole.Text.Utf8.{Bytes}
use loophole.Socket.{Message}
use loophole.Server.Compat.Defs as Server
use loophole.Server.Compat.Defs.{Compat, PollRead, PollWrite, PollDone}
use loophole.Expose.Stream as Client
use loophole.Expose.Stream.{WsCompat, as_compat, poll_read-same}

-- A call of the stream, with what the socket answers to it.
pub data Call : Type 0 where
  read : ℕ → Call
  write : Bytes → Option (Result Text (Unit {0})) → Result Text (Unit {0}) → Call
  flush close : Option (Result Text (Unit {0})) → Call

pub data Answer : Type 0 where
  was_read : PollRead → Answer
  was_written : PollWrite → Answer
  was_done : PollDone → Answer

-- The messages sent and the answers, over a run of calls.
unfoldable pub client_run : WsCompat → List Message → List Call → List Message × List Answer
client_run c sent [] = (sent, [])
client_run c sent (read n ∷ calls) =
    let (d, answer) = Client.poll_read c n in
    let (final, answers) = client_run d sent calls in (final, was_read answer ∷ answers)
client_run c sent (write buf ready start_send ∷ calls) =
    let (more, answer) = Client.poll_write sent buf ready start_send in
    let (final, answers) = client_run c more calls in (final, was_written answer ∷ answers)
client_run c sent (flush flushed ∷ calls) =
    let (final, answers) = client_run c sent calls in
    (final, was_done (Client.poll_flush flushed) ∷ answers)
client_run c sent (close closed ∷ calls) =
    let (final, answers) = client_run c sent calls in
    (final, was_done (Client.poll_close closed) ∷ answers)

unfoldable pub server_run : Compat → List Message → List Call → List Message × List Answer
server_run c sent [] = (sent, [])
server_run c sent (read n ∷ calls) =
    let (d, answer) = Server.poll_read c n in
    let (final, answers) = server_run d sent calls in (final, was_read answer ∷ answers)
server_run c sent (write buf ready start_send ∷ calls) =
    let (more, answer) = Server.poll_write sent buf ready start_send in
    let (final, answers) = server_run c more calls in (final, was_written answer ∷ answers)
server_run c sent (flush flushed ∷ calls) =
    let (final, answers) = server_run c sent calls in
    (final, was_done (Server.poll_flush flushed) ∷ answers)
server_run c sent (close closed ∷ calls) =
    let (final, answers) = server_run c sent calls in
    (final, was_done (Server.poll_close closed) ∷ answers)

poll_write-same :
    (sent : List Message) (buf : Bytes) (ready : Option (Result Text (Unit {0})))
    (start_send : Result Text (Unit {0}))
    → Client.poll_write sent buf ready start_send ≡ Server.poll_write sent buf ready start_send
unfolding Client.poll_write Server.poll_write
poll_write-same sent buf none start_send = refl
poll_write-same sent buf (some (err e)) start_send = refl
poll_write-same sent buf (some (ok _)) (ok _) = refl
poll_write-same sent buf (some (ok _)) (err e) = refl

done-same :
    (r : Option (Result Text (Unit {0})))
    → (Client.poll_flush r ≡ Server.poll_flush r) × (Client.poll_close r ≡ Server.poll_close r)
unfolding Client.poll_flush Server.poll_flush Client.poll_close Server.poll_close
done-same none = (refl, refl)
done-same (some (ok _)) = (refl, refl)
done-same (some (err e)) = (refl, refl)

-- The client's copy of the stream behaves as the server's: from the same state, every run of reads,
-- writes, flushes and closes sends the same messages and gets the same answers.
pub client_run-same :
    (c : WsCompat) (sent : List Message) (calls : List Call)
    → client_run c sent calls ≡ server_run (as_compat c) sent calls
unfolding client_run server_run
client_run-same c sent [] = refl
client_run-same c sent (read n ∷ calls) =
    ground (arith, client_run-same (Client.poll_read c n).0 sent calls, poll_read-same c n)
client_run-same c sent (write buf ready start_send ∷ calls) = ground (
  arith,
  client_run-same c (Client.poll_write sent buf ready start_send).0 calls,
  poll_write-same sent buf ready start_send,
)
client_run-same c sent (flush flushed ∷ calls) =
    ground (arith, client_run-same c sent calls, done-same flushed)
client_run-same c sent (close closed ∷ calls) =
    ground (arith, client_run-same c sent calls, done-same closed)
