-- ===== src/Proto/Sample.antt =====
-- A concrete codec of the messages, which shows that the hypothesis on codecs can hold.
use loophole.Base.{
  ℕ, zero, suc, ◌≡◌, refl, true, false, Option, none, some, [], ◌∷◌, ◌++◌, length, take, drop,
  take-append_left, drop-append_left,
}
use loophole.Text.{Text}
use loophole.Proto.{
  ClientMessage, register, ping, disconnect, ServerMessage, registered, error, pong,
  certificate_status, shutdown, ErrorCode, invalid_token, subdomain_taken, subdomain_invalid,
  tunnel_limit_reached, internal_error, Codec, IsCodec,
}
use loophole.Proto

-- Messages as a tag and their parts.
abbrev client_text : ClientMessage → Text
client_text (register token subdomain) = 2 ∷ length token ∷ (token ++ subdomain)
client_text ping = 0 ∷ []
client_text disconnect = 1 ∷ []

abbrev client_message : Text → Option ClientMessage
client_message (zero ∷ s) = some ping
client_message ((suc zero) ∷ s) = some disconnect
client_message (n ∷ k ∷ s) = some (register (take k s) (drop k s))
client_message s = none

abbrev code_number : ErrorCode → ℕ
code_number invalid_token = 0
code_number subdomain_taken = 1
code_number subdomain_invalid = 2
code_number tunnel_limit_reached = 3
code_number internal_error = 4

abbrev code_of : ℕ → ErrorCode
code_of zero = invalid_token
code_of (suc zero) = subdomain_taken
code_of (suc (suc zero)) = subdomain_invalid
code_of (suc (suc (suc zero))) = tunnel_limit_reached
code_of n = internal_error

abbrev server_text : ServerMessage → Text
server_text (registered subdomain url) = 0 ∷ length subdomain ∷ (subdomain ++ url)
server_text (error code m) = 1 ∷ code_number code ∷ m
server_text pong = 2 ∷ []
server_text Proto.ping = 3 ∷ []
server_text (certificate_status true) = 4 ∷ []
server_text (certificate_status false) = 5 ∷ []
server_text (shutdown m) = 6 ∷ m

abbrev server_message : Text → Option ServerMessage
server_message (zero ∷ k ∷ s) = some (registered (take k s) (drop k s))
server_message ((suc zero) ∷ c ∷ m) = some (error (code_of c) m)
server_message ((suc (suc zero)) ∷ s) = some pong
server_message ((suc (suc (suc zero))) ∷ s) = some Proto.ServerMessage.ping
server_message ((suc (suc (suc (suc zero)))) ∷ s) = some (certificate_status true)
server_message ((suc (suc (suc (suc (suc zero))))) ∷ s) = some (certificate_status false)
server_message ((suc (suc (suc (suc (suc (suc zero)))))) ∷ m) = some (shutdown m)
server_message s = none

abbrev pub codec : Codec
codec = record {
  client_to_json = client_text;
  client_from_json = client_message;
  server_to_json = server_text;
  server_from_json = server_message;
}

client_read : (m : ClientMessage) → client_message (client_text m) ≡ some m
client_read (register token subdomain) =
    rw (take-append_left token subdomain, drop-append_left token subdomain) refl
client_read ping = refl
client_read disconnect = refl

server_read : (m : ServerMessage) → server_message (server_text m) ≡ some m
server_read (registered subdomain url) =
    rw (take-append_left subdomain url, drop-append_left subdomain url) refl
server_read (error invalid_token m) = refl
server_read (error subdomain_taken m) = refl
server_read (error subdomain_invalid m) = refl
server_read (error tunnel_limit_reached m) = refl
server_read (error internal_error m) = refl
server_read pong = refl
server_read Proto.ping = refl
server_read (certificate_status true) = refl
server_read (certificate_status false) = refl
server_read (shutdown m) = refl

pub codec-IsCodec : IsCodec codec
codec-IsCodec = record { client = client_read; server = server_read }
