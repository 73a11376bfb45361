-- ===== src/Expose/Forwarder/Rewriting.antt =====
-- What `rewrite_host_header` does to a head, and to what follows it.
use mathlib.Core.List.{append_assoc, append-nil}
use loophole.Base.{
  ◌≡◌, ◌≢◌, refl, sym, ap, ◌∙◌, inl, inr, false, some, List, [], ◌∷◌, ◌++◌, arith, map, is_empty,
  if◌then◌else◌, Bool-cases, All,
}
use loophole.Text.{Text, codes, contains_char}
use loophole.Text.Lines.{lines, joined, lines-joined}
use loophole.Text.Utf8.{Bytes, as_bytes, from_utf8, IsScalar, from_utf8-as_bytes}
use loophole.Expose.Forwarder.Defs.{is_host_line, rewrite_lines, rewrite_host_header}

abbrev pub replaced : Text → Text → Text
replaced new_host line = if is_host_line line then codes "Host: " ++ new_host else line

abbrev pub replaced_all : Text → List Text → List Text
replaced_all new_host = map (replaced new_host)

rewrite_lines-joined :
    (ls : List Text) (new_host : Text)
    → rewrite_lines ls new_host ≡ joined (replaced_all new_host ls)
unfolding rewrite_lines joined
rewrite_lines-joined [] new_host = refl
rewrite_lines-joined (l ∷ ls) new_host = elim (Bool-cases (is_host_line l)) [
  | inl host ↦ rw host (
      ap (λ x. codes "Host: " ++ x)
        (append_assoc new_host (codes "\r\n") (rewrite_lines ls new_host)
          ∙ ap (λ x. new_host ++ 13 ∷ 10 ∷ x) (rewrite_lines-joined ls new_host)))
  | inr other ↦ rw other (
      append_assoc l (codes "\r\n") (rewrite_lines ls new_host)
      ∙ ap (λ x. l ++ 13 ∷ 10 ∷ x) (rewrite_lines-joined ls new_host))
]

-- A text of whole lines and a last part, both without line feeds.
pub record IsHead (ls : List Text) (last : Text) : Type 0 where
  pub clean : All (λ l. contains_char 10 l ≡ false) ls
  pub clean_last : contains_char 10 last ≡ false
  pub scalars : All IsScalar (joined ls ++ last)

rewrite_host_header-decoded :
    (request : Bytes) (s new_host : Text)
    → from_utf8 request ≡ some s
    → rewrite_host_header request new_host ≡ as_bytes (rewrite_lines (lines s) new_host)
unfolding rewrite_host_header
rewrite_host_header-decoded request s new_host h = ground (arith, h)

rewrite_host_header-eq :
    (ls : List Text) (last new_host : Text)
    → IsHead ls last
    → rewrite_host_header (as_bytes (joined ls ++ last)) new_host
      ≡ as_bytes (joined (replaced_all new_host (ls ++ (if is_empty last then [] else last ∷ []))))
rewrite_host_header-eq ls last new_host v =
    rewrite_host_header-decoded (as_bytes (joined ls ++ last)) (joined ls ++ last) new_host
      (from_utf8-as_bytes (joined ls ++ last) v.scalars)
    ∙ ap as_bytes (
        ap (λ x. rewrite_lines x new_host) (lines-joined ls last v.clean v.clean_last)
        ∙ rewrite_lines-joined (ls ++ (if is_empty last then [] else last ∷ [])) new_host)

joined-replaced-append :
    (ls : List Text) (last new_host : Text)
    → joined (replaced_all new_host (ls ++ last ∷ []))
      ≡ joined (replaced_all new_host ls) ++ (replaced new_host last ++ codes "\r\n")
unfolding joined
joined-replaced-append [] last new_host = refl
joined-replaced-append (l ∷ ls) last new_host =
    ap (λ x. replaced new_host l ++ 13 ∷ 10 ∷ x) (joined-replaced-append ls last new_host)
    ∙ sym (append_assoc (replaced new_host l) (13 ∷ 10 ∷ joined (replaced_all new_host ls)) _)

-- In a head of whole lines exactly the host lines, in any case of their letters, are replaced.
pub rewrite_host_header-head :
    (ls : List Text) (new_host : Text)
    → IsHead ls []
    → rewrite_host_header (as_bytes (joined ls)) new_host
      ≡ as_bytes (joined (replaced_all new_host ls))
rewrite_host_header-head ls new_host v =
    ap (λ x. rewrite_host_header (as_bytes x) new_host) (sym (append-nil (joined ls)))
    ∙ rewrite_host_header-eq ls [] new_host v
    ∙ ap (λ x. as_bytes (joined (replaced_all new_host x))) (append-nil ls)

-- The first part of a body that comes with the head, if it has no line feed and looks like no host
-- line, gets a line break that the client did not send.
pub rewrite_host_header-body :
    (ls : List Text) (body new_host : Text)
    → IsHead ls body
    → body ≢ []
    → is_host_line body ≡ false
    → rewrite_host_header (as_bytes (joined ls ++ body)) new_host
      ≡ as_bytes (joined (replaced_all new_host ls) ++ (body ++ codes "\r\n"))
rewrite_host_header-body ls [] new_host v full other = absurd (full refl)
rewrite_host_header-body ls (c ∷ body) new_host v full other =
    rewrite_host_header-eq ls (c ∷ body) new_host v
    ∙ ap as_bytes (joined-replaced-append ls (c ∷ body) new_host)
    ∙ rw other refl
