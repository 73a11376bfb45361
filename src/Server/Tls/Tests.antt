-- ===== src/Server/Tls/Tests.antt =====
-- The theorems of the certificate manager at concrete managers.
use loophole.Base.{map, ◌≡◌, ◌↔◌, refl, true, some, [], ◌∷◌, ok}
use loophole.Text.{codes, ◌==◌, mem}
use loophole.Map
use loophole.Server.Acme.Store
use loophole.Server.Tls.Defs.{new, Pem, CertifiedKey, CertManager, resolve, parse_certificate}
use loophole.Console.{Console, ◌>>=◌}
use loophole.Server.Acme.Files.{save_certificate}
use loophole.Server.Acme.Client.{Certificate}
use loophole.Server.Tls.Defs.{start_request, load_existing_certs}
use loophole.Server.Tls.Requests.{
  checked, Run, here, then_step, arrive, check, IsMarked, Keeps, Run-IsMarked,
}
use loophole.Server.Tls.Restart.{entry_at, resolve-save_certificate}
use loophole.Server.Tls.Laws.{IsFor, resolve_iff}

abbrev pem : Pem
pem = record {
  certs = λ t. t ∷ [];
  private_key = λ t. ok (some t);
  any_supported_type = λ t. some t;
}

abbrev wildcard_key : CertifiedKey
wildcard_key = record { certs = codes "w" ∷ []; signing_key = codes "k" }

abbrev manager : CertManager
manager = record {
  certs = (codes "*.ex.com", wildcard_key) ∷ [];
  pending = codes "b.ex.com" ∷ [];
  has_acme_client = true;
  challenge_store = Store.new;
  base_domain = codes "ex.com";
}

resolve_iff_example :
    (resolve manager (some (codes "a.ex.com")) ≡ some wildcard_key)
    ↔ IsFor manager (codes "a.ex.com") wildcard_key
resolve_iff_example = resolve_iff manager (codes "a.ex.com") wildcard_key

abbrev console : Console
console = record {
  stdin = [];
  secrets = [];
  printed = [];
  files = [];
  ran = [];
  may_write = λ _. true;
  may_create = λ _. true;
}

abbrev certificate : Certificate
certificate = record { cert_pem = codes "c"; key_pem = codes "k" }

abbrev saved : Console
saved = record console {
  files =
      (codes "certs/a.ex.com/cert.pem", codes "c")
      ∷ (codes "certs/a.ex.com/key.pem", codes "k")
      ∷ [];
}

save_runs : save_certificate (codes "certs") (codes "a.ex.com") certificate console ≡ (saved, ok tt)
unfolding save_certificate ◌>>=◌ Map.insert ◌==◌
save_runs = refl

abbrev key : CertifiedKey
key = record { certs = codes "c" ∷ []; signing_key = codes "k" }

key_reads : parse_certificate pem (codes "c") (codes "k") ≡ ok key
unfolding parse_certificate
key_reads = refl

resolve-save_certificate_example :
    resolve
      (new pem
        (map (entry_at saved.files (codes "certs")) (codes "b.ex.com" ∷ codes "a.ex.com" ∷ []))
        true
        Store.new
        (codes "ex.com"))
      (some (codes "a.ex.com"))
    ≡ some key
resolve-save_certificate_example =
    resolve-save_certificate pem (codes "certs") (codes "a.ex.com") certificate key console saved
      (codes "b.ex.com" ∷ codes "a.ex.com" ∷ []) true Store.new (codes "ex.com") save_runs key_reads
      (unfold mem ◌==◌ in refl)

-- A manager at the start of a server.
abbrev empty : CertManager
empty = new pem [] true Store.new (codes "ex.com")

empty-passes : (start_request empty (codes "a.ex.com")).1 ≡ true
unfolding start_request new mem Map.contains_key Map.get load_existing_certs
empty-passes = refl

one_arrived-Run :
    Run pem
      (record { manager = empty; requests = [] })
      (record { manager = empty; requests = (codes "a.ex.com", checked) ∷ [] })
one_arrived-Run =
    then_step (then_step here (arrive empty [] (codes "a.ex.com")))
      (check empty [] [] (codes "a.ex.com") empty-passes)

Run-IsMarked_example :
    IsMarked (record { manager = empty; requests = (codes "a.ex.com", checked) ∷ [] })
    × Keeps empty empty
Run-IsMarked_example = Run-IsMarked pem (λ d. unfold new mem in refl) one_arrived-Run
