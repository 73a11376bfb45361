-- ===== src/Server/Proxy/Heads.antt =====
-- The head that the proxy sends: its lines, and where the other end finds its end.
use mathlib.Core.List.{append_assoc}
use loophole.Base.{
  ℕ, ◌+◌, ◌≡◌, ◌≢◌, refl, ap, Bool, false, some, List, [], ◌∷◌, ◌++◌, arith, length, length-append,
  All, All-append, unwrap_or, if◌then◌else◌, Bool-cases, inl, inr, ◌⊎◌,
}
use loophole.Text.{Text, codes, contains_char}
use loophole.Text.Laws.{contains_char-append}
use loophole.Text.Utf8.{Bytes, as_bytes, encode_char}
use loophole.Http.{crlf, find_header_end}
use loophole.Http.Blocks.{block, block-append, IsLine, find_header_end-block}
use loophole.Server.Proxy.Defs.{
  Request, is_hop_by_hop_header, header_lines, forwarded_lines, request_head,
}

-- The lines of the headers that are passed on: those whose names are not hop-by-hop, in order.
unfoldable pub kept_lines : List (Text × Bytes) → List Bytes
kept_lines [] = []
kept_lines ((name, value) ∷ hs) =
    let rest = kept_lines hs in
    if is_hop_by_hop_header name then rest else (as_bytes (name ++ codes ": ") ++ value) ∷ rest

unfoldable pub request_lines : Request → Text → Bool → Text → List Bytes
request_lines req client_ip is_https request_id =
    kept_lines req.headers
    ++ (as_bytes (codes "X-Forwarded-For: " ++ client_ip)
        ∷ as_bytes
            (codes "X-Forwarded-Proto: " ++ (if is_https then codes "https" else codes "http"))
        ∷ as_bytes (codes "X-Request-ID: " ++ request_id)
        ∷ [])

unfoldable pub request_line : Request → Bytes
request_line req =
    as_bytes
      (req.method ++ (codes " " ++ (unwrap_or req.path_and_query (codes "/") ++ codes " HTTP/1.1")))

-- No carriage return, as the `http` crate ensures for methods, targets, names and values.
abbrev pub NoCr : List ℕ → Type 0
NoCr s = contains_char 13 s ≡ false

pub record IsClean (req : Request) (client_ip request_id : Text) : Type 0 where
  pub method : NoCr req.method
  pub target : NoCr (unwrap_or req.path_and_query (codes "/"))
  pub headers : All (λ h. NoCr h.0 × NoCr h.1) req.headers
  pub ip : NoCr client_ip
  pub id : NoCr request_id

encode_char-NoCr : (c : ℕ) → c ≢ 13 → NoCr (encode_char c)
unfolding contains_char
encode_char-NoCr c h = ground arith

as_bytes-NoCr : (s : Text) → NoCr s → NoCr (as_bytes s)
unfolding as_bytes
as_bytes-NoCr [] h = h
as_bytes-NoCr (c ∷ s) h =
    contains_char-append 13 (encode_char c) (as_bytes s)
      (encode_char-NoCr c (λ e. unfold contains_char in ground arith))
      (as_bytes-NoCr s (unfold contains_char in ground arith))

header_lines-eq-block : (hs : List (Text × Bytes)) → header_lines hs ≡ block (kept_lines hs)
unfolding header_lines kept_lines block
header_lines-eq-block [] = refl
header_lines-eq-block ((name, value) ∷ hs) = ground (
  arith,
  header_lines-eq-block hs,
  append_assoc (as_bytes (name ++ codes ": ")) value (crlf ++ header_lines hs),
)

request_head-eq-block :
    (req : Request) (client_ip : Text) (is_https : Bool) (request_id : Text)
    → request_head req client_ip is_https request_id
      ≡ block (request_line req ∷ request_lines req client_ip is_https request_id) ++ crlf
unfolding request_head request_line request_lines forwarded_lines as_bytes block
request_head-eq-block req client_ip is_https request_id =
    rw (header_lines-eq-block req.headers, block-append (kept_lines req.headers))
      (simp append_assoc)

append-ne-nil_right : (s t : Bytes) → t ≢ [] → s ++ t ≢ []
append-ne-nil_right [] t h = h
append-ne-nil_right (c ∷ s) t h = λ e. cc

append-ne-nil_left : (s t : Bytes) → s ≢ [] → s ++ t ≢ []
append-ne-nil_left [] t h = absurd (h refl)
append-ne-nil_left (c ∷ s) t h = λ e. cc

encode_char-ne-nil : (c : ℕ) → encode_char c ≢ []
encode_char-ne-nil c = ground arith

as_bytes-ne-nil : (s : Text) → s ≢ [] → as_bytes s ≢ []
unfolding as_bytes
as_bytes-ne-nil [] h = absurd (h refl)
as_bytes-ne-nil (c ∷ s) h = append-ne-nil_left (encode_char c) (as_bytes s) (encode_char-ne-nil c)

-- A text with a fixed part and no carriage return is a line.
as_bytes-IsLine : (s t : Text) → NoCr s → NoCr t → (s ≢ []) ⊎ (t ≢ []) → IsLine (as_bytes (s ++ t))
as_bytes-IsLine s t h k (inl n) = (
  as_bytes-ne-nil (s ++ t) (append-ne-nil_left s t n),
  as_bytes-NoCr (s ++ t) (contains_char-append 13 s t h k),
)
as_bytes-IsLine s t h k (inr n) = (
  as_bytes-ne-nil (s ++ t) (append-ne-nil_right s t n),
  as_bytes-NoCr (s ++ t) (contains_char-append 13 s t h k),
)

kept_lines-IsLine :
    (hs : List (Text × Bytes)) → All (λ h. NoCr h.0 × NoCr h.1) hs → All IsLine (kept_lines hs)
unfolding kept_lines
kept_lines-IsLine [] h = tt
kept_lines-IsLine ((name, value) ∷ hs) ((n, v), h) =
    let (some_bytes, no_cr) =
      as_bytes-IsLine name (codes ": ") n (unfold contains_char in refl) (inr (λ e. cc)) in
    let line : IsLine (as_bytes (name ++ codes ": ") ++ value) =
      (append-ne-nil_left _ value some_bytes, contains_char-append 13 _ value no_cr v) in
    elim (Bool-cases (is_hop_by_hop_header name)) [
      | inl hop ↦ rw hop (kept_lines-IsLine hs h)
      | inr kept ↦ rw kept (line, kept_lines-IsLine hs h)
    ]

request_lines-IsLine :
    (req : Request) (client_ip : Text) (is_https : Bool) (request_id : Text)
    → IsClean req client_ip request_id
    → All IsLine (request_lines req client_ip is_https request_id)
unfolding request_lines contains_char
request_lines-IsLine req client_ip is_https request_id v =
    All-append IsLine (kept_lines req.headers) _ (kept_lines-IsLine req.headers v.headers) (
      as_bytes-IsLine (codes "X-Forwarded-For: ") client_ip refl v.ip (inl (λ e. cc)),
      (
        as_bytes-IsLine (codes "X-Forwarded-Proto: ")
            (if is_https then codes "https" else codes "http") refl (ground arith) (inl (λ e. cc)),
        (as_bytes-IsLine (codes "X-Request-ID: ") request_id refl v.id (inl (λ e. cc)), tt),
      ),
    )

request_line-IsLine :
    (req : Request) (client_ip request_id : Text)
    → IsClean req client_ip request_id
    → IsLine (request_line req)
unfolding request_line contains_char
request_line-IsLine req client_ip request_id v =
    let target : Text = unwrap_or req.path_and_query (codes "/") in
    as_bytes-IsLine req.method (codes " " ++ (target ++ codes " HTTP/1.1")) v.method
      (contains_char-append 13 (codes " ") (target ++ codes " HTTP/1.1") refl
        (contains_char-append 13 target (codes " HTTP/1.1") v.target refl))
      (inr (λ e. cc))

-- The head that the proxy sends is a request line, the headers whose names are not hop-by-hop in
-- their order, and the three forwarded headers, each ended by CRLF, and an empty line. Whatever body
-- follows, `find_header_end` at the other end of the tunnel splits it exactly there, if nothing that
-- came from the visitor has a carriage return.
pub request_head-split :
    (req : Request) (client_ip : Text) (is_https : Bool) (request_id : Text) (body : Bytes)
    → IsClean req client_ip request_id
    → (request_head req client_ip is_https request_id
        ≡ block (request_line req ∷ request_lines req client_ip is_https request_id) ++ crlf)
      × (pos : ℕ) × (find_header_end (request_head req client_ip is_https request_id ++ body)
          ≡ some pos)
      × (pos + 4 ≡ length (request_head req client_ip is_https request_id))
request_head-split req client_ip is_https request_id body v =
    let same = request_head-eq-block req client_ip is_https request_id in
    let lines = request_lines req client_ip is_https request_id in
    let (pos, found, size) =
      find_header_end-block (request_line req) lines body
        (request_line-IsLine req client_ip request_id v)
        (request_lines-IsLine req client_ip is_https request_id v) in
    (
      same,
      pos,
      rw (same, append_assoc (block (request_line req ∷ lines)) crlf body) found,
      omega (arith, ap length same, length-append (block (request_line req ∷ lines)) crlf, size),
    )
