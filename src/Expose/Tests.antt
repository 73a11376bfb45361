-- ===== src/Expose/Tests.antt =====
-- The theorems of the client at concrete connections and requests.
use loophole.Base.{
  ℕ, zero, suc, ◌≡◌, ◌≤◌, ◌+◌, ◌*◌, ◌^◌, refl, inl, min, true, false, some, List, [], ◌∷◌, ◌++◌,
  err, arith, All, all, ltb,
}
use loophole.Text.{Text, codes, starts_with, contains_char}
use loophole.Text.Lines.{joined, to_lowercase}
use loophole.Text.Utf8.{as_bytes, IsScalar}
use loophole.Expose.Reconnect.{new, next_delay, max_delay, next_delay_lem}
use loophole.Expose.Forwarder.Defs.{rewrite_host_header}
use loophole.Expose.Forwarder.Rewriting.{IsHead, replaced_all, rewrite_host_header-body}
use loophole.Expose.Run.Defs.{Round, retries_exceeded, panicked, is_fatal, run, contains_text}
use loophole.Expose.Run.Retries.{AllFail, run-gives_up, run-panics}

next_delay_lem_example :
    (delay : ℕ) × (next_delay (record { attempts = 3 }) 250
      ≡ some (record { attempts = 3 + 1 }, delay))
    × (delay ≤ max_delay)
    × (min (9_000 * 2 ^ 3) max_delay ≤ delay)
    × (delay ≤ 11_000 * 2 ^ 3)
next_delay_lem_example = next_delay_lem (record { attempts = 3 }) 250 (omega arith)

abbrev failing : Round
failing = record { connection = err (codes "Failed to connect to server"); nanos = 5 }

abbrev copies : ℕ → List Round
copies zero = []
copies (suc n) = failing ∷ copies n

failing-fails : is_fatal (codes "Failed to connect to server") ≡ false
unfolding is_fatal contains_text starts_with
failing-fails = refl

copies-AllFail : (n : ℕ) → AllFail (copies n)
copies-AllFail zero = tt
copies-AllFail (suc n) = (failing-fails, copies-AllFail n)

run-gives_up_example : run 3 new (copies 5) ≡ retries_exceeded
run-gives_up_example =
    run-gives_up 3 (copies 5) (copies-AllFail 5) (omega arith) (omega arith) (omega arith)

run-panics_example : run 0 new (copies 65) ≡ panicked
run-panics_example = run-panics 0 (copies 65) (copies-AllFail 65) (inl refl) (omega arith)

ascii-IsScalar : (s : Text) → all (λ c. ltb c 128) s ≡ true → All IsScalar s
ascii-IsScalar [] h = tt
ascii-IsScalar (c ∷ s) h = (inl (ground arith), ascii-IsScalar s (ground arith))

abbrev head_lines : List Text
head_lines = codes "GET / HTTP/1.1" ∷ codes "Host: a" ∷ [] ∷ []

with_body-IsHead : IsHead head_lines (codes "x=1")
unfolding joined contains_char
with_body-IsHead = record {
  clean = (refl, (refl, (refl, tt)));
  clean_last = refl;
  scalars = ascii-IsScalar (joined head_lines ++ codes "x=1") refl;
}

rewrite_host_header-body_example :
    rewrite_host_header (as_bytes (joined head_lines ++ codes "x=1")) (codes "b")
    ≡ as_bytes (joined (replaced_all (codes "b") head_lines) ++ (codes "x=1" ++ codes "\r\n"))
rewrite_host_header-body_example =
    rewrite_host_header-body head_lines (codes "x=1") (codes "b") with_body-IsHead (λ e. cc)
      (unfold to_lowercase starts_with in refl)
