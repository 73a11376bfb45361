-- ===== src/Server/Compat/Frames.antt =====
-- What one side writes, the other side reads.
use loophole.Base.{◌≡◌, Option, some, List, [], ◌∷◌, ◌++◌, map, Result}
use loophole.Text.{Text}
use loophole.Text.Utf8.{Bytes}
use loophole.Socket.{Message, binary, message, Polled}
use loophole.Server.Compat.Defs.{written, poll_write}
use loophole.Server.Compat.Bytewise.{inner_bytes}

-- An attempt to write: the bytes, and what the sink says.
pub record Attempt : Type 0 where
  pub buf : Bytes
  pub ready : Option (Result Text (Unit {0}))
  pub start_send : Result Text (Unit {0})

-- The messages sent, and the bytes of the attempts that reported success.
unfoldable pub write_all : List Message → List Attempt → List Message × Bytes
write_all sent [] = (sent, [])
write_all sent (a ∷ rest) =
    let (more, result) = poll_write sent a.buf a.ready a.start_send in
    let (final, taken) = write_all more rest in
    (final, elim result [ written n ↦ a.buf ++ taken | _ ↦ taken ])

abbrev pub delivered : List Message → List Polled
delivered = map (λ m. some (message m))

-- Only binary messages have been sent.
abbrev pub AllBinary : List Message → Type 0
AllBinary [] = Unit
AllBinary (binary b ∷ ms) = AllBinary ms
AllBinary (_ ∷ ms) = ⊥

abbrev IsSent : List Message → List Message × Bytes → Type 0
IsSent sent result = inner_bytes (delivered result.0) ≡ inner_bytes (delivered sent) ++ result.1
