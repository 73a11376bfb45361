-- ===== src/Setup/Document.antt =====
-- init.rs: the generated configuration as a TOML document. The reader of the `toml` crate is an
-- argument, of which it is assumed that it reads a document of plain lines as the tables they write.
use loophole.Base.{
  not, is_empty, leb, ltb, eqb, all, ◌&&◌, ◌||◌, ℕ, ◌^◌, ◌≡◌, Bool, true, false, Option, some, List,
  [], ◌∷◌, ◌++◌, map, if◌then◌else◌,
}
use loophole.Text.{Text, codes, ◌==◌, is_ascii_alphanumeric}
use loophole.Text.Numbers.{to_string}
use loophole.Map
use loophole.Map.{Map}
use loophole.Server.Config.Toml.{Value, string, integer, boolean, other, Toml}
use loophole.Setup.Template.{quoted, unlines}
use loophole.Setup.Run.{certs_dir}

-- The kinds of lines that are used.
pub data Line : Type 0 where
  blank : Line
  comment : Text → Line
  header : List Text → Line
  entry : Text → Value → Line

abbrev dotted : List Text → Text
dotted [] = []
dotted (p ∷ []) = p
dotted (p ∷ q ∷ ps) = p ++ (codes "." ++ dotted (q ∷ ps))

abbrev render_value : Value → Text
render_value (string s) = quoted s
render_value (integer n) = to_string n
render_value (boolean true) = codes "true"
render_value (boolean false) = codes "false"
render_value other = []

abbrev pub render : Line → Text
render blank = []
render (comment s) = codes "#" ++ s
render (header path) = codes "[" ++ (dotted path ++ codes "]")
render (entry key value) = key ++ (codes " = " ++ render_value value)

-- A bare key, and a text that is written between quotation marks as it is: no control characters, no
-- quotation mark, no backslash.
abbrev pub is_key_char : ℕ → Bool
is_key_char c = is_ascii_alphanumeric c || eqb c b'_' || eqb c b'-'

abbrev pub is_key : Text → Bool
is_key s = not (is_empty s) && all is_key_char s

abbrev pub is_plain_char : ℕ → Bool
is_plain_char c = leb 32 c && not (eqb c 127 || eqb c b'"' || eqb c 92)

abbrev pub is_plain : Text → Bool
is_plain s = all is_plain_char s

abbrev is_plain_value : Value → Bool
is_plain_value (string s) = is_plain s
is_plain_value (integer n) = ltb n (2 ^ 63)
is_plain_value (boolean b) = true
is_plain_value other = false

abbrev pub is_plain_line : Line → Bool
is_plain_line blank = true
is_plain_line (comment s) = is_plain s
is_plain_line (header path) = not (is_empty path) && all is_key path
is_plain_line (entry key value) = is_key key && is_plain_value value

abbrev same_path : List Text → List Text → Bool
same_path [] [] = true
same_path [] (q ∷ qs) = false
same_path (p ∷ ps) [] = false
same_path (p ∷ ps) (q ∷ qs) = if p == q then same_path ps qs else false

-- The tables that a header opens: those of its path that are not there yet.
abbrev add_table : Toml → List Text → Toml
add_table [] path = (path, []) ∷ []
add_table ((p, t) ∷ ts) path = if same_path p path then (p, t) ∷ ts else (p, t) ∷ add_table ts path

abbrev open_tables : Toml → List Text → List Text → Toml
open_tables doc above [] = doc
open_tables doc above (p ∷ ps) =
    open_tables (add_table doc (above ++ (p ∷ []))) (above ++ (p ∷ [])) ps

abbrev add_entry : Toml → List Text → Text → Value → Toml
add_entry [] path key value = []
add_entry ((p, t) ∷ ts) path key value =
    if same_path p path
    then (p, Map.insert t key value) ∷ ts
    else (p, t) ∷ add_entry ts path key value

-- The tables that lines write, from those before them and the path of the last header.
unfoldable pub tables_from : Toml → List Text → List Line → Toml
tables_from doc path [] = doc
tables_from doc path (blank ∷ ls) = tables_from doc path ls
tables_from doc path (comment s ∷ ls) = tables_from doc path ls
tables_from doc path (header p ∷ ls) = tables_from (open_tables doc [] p) p ls
tables_from doc path (entry key value ∷ ls) = tables_from (add_entry doc path key value) path ls

unfoldable pub tables : List Line → Toml
unfolding tables_from
tables = tables_from (([], []) ∷ []) []

-- The assumption on the reader, at one document.
abbrev pub Reads : (Text → Option Toml) → List Line → Type 0
Reads toml lines =
    all is_plain_line lines ≡ true → toml (unlines (map render lines)) ≡ some (tables lines)

-- The lines of the generated file.
abbrev pub document : Text → Text → Text → List Line
document domain token email =
    comment (codes " Loophole Server Configuration")
    ∷ entry (codes "version") (integer 1)
    ∷ blank
    ∷ header (codes "server" ∷ [])
    ∷ comment (codes " Base domain for tunnels (e.g., tunnel.example.com)")
    ∷ comment (codes " Clients will get subdomains like myapp.tunnel.example.com")
    ∷ entry (codes "domain") (string domain)
    ∷ blank
    ∷ comment (codes " HTTP port - used for ACME challenges and HTTP->HTTPS redirect")
    ∷ comment (codes " Default: 80 (required for Let's Encrypt)")
    ∷ comment (codes " http_port = 80")
    ∷ blank
    ∷ comment (codes " HTTPS port - used for tunnel traffic")
    ∷ comment (codes " Default: 443")
    ∷ comment (codes " https_port = 443")
    ∷ blank
    ∷ header (codes "tokens" ∷ token ∷ [])
    ∷ comment (codes " Token with admin privileges (can access admin API)")
    ∷ entry (codes "admin") (boolean true)
    ∷ blank
    ∷ comment (codes " Example: non-admin token")
    ∷ comment (codes " [tokens.tk_example123]")
    ∷ comment (codes " admin = false")
    ∷ blank
    ∷ header (codes "limits" ∷ [])
    ∷ comment (codes " Timeout for proxied requests (seconds)")
    ∷ comment (codes " request_timeout_secs = 30")
    ∷ blank
    ∷ comment (codes " Maximum request body size (bytes)")
    ∷ comment (codes " max_request_body_bytes = 10485760")
    ∷ blank
    ∷ comment (codes " Disconnect tunnels idle for this long (seconds)")
    ∷ comment (codes " idle_tunnel_timeout_secs = 3600")
    ∷ blank
    ∷ header (codes "https" ∷ [])
    ∷ comment (codes " HTTPS configuration with automatic Let's Encrypt certificates")
    ∷ entry (codes "email") (string email)
    ∷ blank
    ∷ comment (codes " Directory to store certificates")
    ∷ entry (codes "certs_dir") (string certs_dir)
    ∷ blank
    ∷ comment (codes " Use Let's Encrypt staging for testing (avoids rate limits)")
    ∷ comment (codes " staging = false")
    ∷ []
