-- ===== src/Server/Acme/Files.antt =====
-- server/acme.rs: `save_certificate` and `load_certificate`, the files of a certificate.
use mathlib.Core.List.{append_cancel_left}
use loophole.Base.{
  ◌≡◌, refl, sym, ◌∙◌, ap, false, Option, none, some, ◌++◌, arith, ok, err, if◌then◌else◌,
  eq-false_of_ne-true,
}
use loophole.Text.{Text, codes, ◌==◌}
use loophole.Text.Laws.{eq_iff}
use loophole.Map
use loophole.Map.{get-insert, get-insert_self}
use loophole.Console.{Console, Action, pure, ◌>>◌, write_file, >>=-eq-ok}
use loophole.Server.Acme.Client.{Certificate}

abbrev pub cert_dir : Text → Text → Text
cert_dir certs_dir domain = certs_dir ++ (codes "/" ++ domain)

abbrev pub cert_path : Text → Text → Text
cert_path certs_dir domain = cert_dir certs_dir domain ++ codes "/cert.pem"

abbrev pub key_path : Text → Text → Text
key_path certs_dir domain = cert_dir certs_dir domain ++ codes "/key.pem"

abbrev create_cert_dir : Text → Action (Unit {0})
create_cert_dir dir c =
    if c.may_create dir then (c, ok tt) else (c, err (codes "Failed to create directory"))

unfoldable pub save_certificate : Text → Text → Certificate → Action (Unit {0})
save_certificate certs_dir domain cert = do
  create_cert_dir (cert_dir certs_dir domain)
  write_file (cert_path certs_dir domain) cert.cert_pem (codes "Failed to write file")
  write_file (key_path certs_dir domain) cert.key_pem (codes "Failed to write file")

unfoldable pub load_certificate : Text → Text → Action (Option Certificate)
load_certificate certs_dir domain c = elim (Map.get c.files (cert_path certs_dir domain)) [
  | none ↦ pure none c
  | some cert_pem ↦ elim (Map.get c.files (key_path certs_dir domain)) [
    | none ↦ pure none c
    | some key_pem ↦ pure (some (record { cert_pem = cert_pem; key_pem = key_pem })) c
  ]
]

names-differ : (codes "/key.pem" == codes "/cert.pem") ≡ false
unfolding ◌==◌
names-differ = refl

paths-differ :
    (certs_dir domain : Text) → (key_path certs_dir domain == cert_path certs_dir domain) ≡ false
paths-differ certs_dir domain = eq-false_of_ne-true _ (λ e.
    let same : codes "/key.pem" ≡ codes "/cert.pem" =
      append_cancel_left (cert_dir certs_dir domain) _ _ ((eq_iff _ _).0 e) in
    let hit = (eq_iff (codes "/key.pem") (codes "/cert.pem")).1 same in
    let miss = names-differ in cc)

write_file-ok :
    (path content failure : Text) (c d : Console)
    → write_file path content failure c ≡ (d, ok tt)
    → Map.insert c.files path content ≡ d.files
write_file-ok path content failure c d h = ground arith

-- The two files after a save that succeeds.
pub save_certificate-get :
    (certs_dir domain : Text) (cert : Certificate) (c d : Console)
    → save_certificate certs_dir domain cert c ≡ (d, ok tt)
    → (Map.get d.files (cert_path certs_dir domain) ≡ some cert.cert_pem)
      × (Map.get d.files (key_path certs_dir domain) ≡ some cert.key_pem)
unfolding save_certificate
save_certificate-get certs_dir domain cert c d h =
    let (c1, _, made, h) = >>=-eq-ok _ _ c h in
    let (c2, _, first, h) = >>=-eq-ok _ _ c1 h in
    let one = write_file-ok (cert_path certs_dir domain) cert.cert_pem _ c1 c2 first in
    let two = write_file-ok (key_path certs_dir domain) cert.key_pem _ c2 d h in
    (
      ground (
        arith,
        ap (λ m. Map.get m (cert_path certs_dir domain)) two,
        get-insert c2.files (key_path certs_dir domain) (cert_path certs_dir domain) cert.key_pem,
        paths-differ certs_dir domain,
        ap (λ m. Map.get m (cert_path certs_dir domain)) one,
        get-insert_self c1.files (cert_path certs_dir domain) cert.cert_pem,
      ),
      ap (λ m. Map.get m (key_path certs_dir domain)) (sym two)
          ∙ get-insert_self c2.files (key_path certs_dir domain) cert.key_pem,
    )

-- A certificate that was saved is the one that is loaded.
pub load_certificate-save_certificate :
    (certs_dir domain : Text) (cert : Certificate) (c d : Console)
    → save_certificate certs_dir domain cert c ≡ (d, ok tt)
    → load_certificate certs_dir domain d ≡ (d, ok (some cert))
unfolding load_certificate
load_certificate-save_certificate certs_dir domain cert c d h =
    let (found, key) = save_certificate-get certs_dir domain cert c d h in
    ground (arith, found, key)
