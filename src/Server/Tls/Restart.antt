-- ===== src/Server/Tls/Restart.antt =====
-- server/acme.rs and server/tls.rs together: what a server that starts again finds of the certificates
-- that were saved.
use loophole.Base.{
  ◌≡◌, ◌∙◌, Bool, true, false, some, List, [], ◌∷◌, map, arith, ok, Bool-cases, Result-cases, inl,
  inr, Option-cases,
}
use loophole.Text.{Text, ◌==◌, mem}
use loophole.Text.Laws.{eq_iff}
use loophole.Map
use loophole.Map.{Map, get-insert, get-insert_self}
use loophole.Console.{Console}
use loophole.Server.Acme.Store.{ChallengeStore}
use loophole.Server.Acme.Client.{Certificate}
use loophole.Server.Acme.Files.{cert_path, key_path, save_certificate, save_certificate-get}
use loophole.Server.Tls.Defs.{
  Pem, DirEntry, CertifiedKey, parse_certificate, load_existing_certs, new, resolve,
}

-- An entry of the directory of certificates, as the files are.
abbrev pub entry_at : Map Text → Text → Text → DirEntry
entry_at files certs_dir name = record {
  name = some name;
  cert_pem = Map.get files (cert_path certs_dir name);
  key_pem = Map.get files (key_path certs_dir name);
}

module _ (pem : Pem) (files : Map Text) (certs_dir : Text) where
  abbrev load_one : Map CertifiedKey → Text → Map CertifiedKey
  load_one certs name = load_existing_certs pem certs (entry_at files certs_dir name ∷ [])

  load_one-other :
      (certs : Map CertifiedKey) (name domain : Text)
      → (name == domain) ≡ false
      → Map.get (load_one certs name) domain ≡ Map.get certs domain
  unfolding load_existing_certs
  load_one-other certs name domain other =
      elim (Option-cases (Map.get files (cert_path certs_dir name))) [
        | inl missing ↦ ground arith
        | inr (cert_pem, c) ↦ elim (Option-cases (Map.get files (key_path certs_dir name))) [
          | inl missing ↦ ground arith
          | inr (key_pem, k) ↦ elim (Result-cases (parse_certificate pem cert_pem key_pem)) [
            | inl (key, parsed) ↦ ground (arith, get-insert certs name domain key)
            | inr (e, failed) ↦ ground arith
          ]
        ]
      ]

  module _ (domain : Text) (key : CertifiedKey) (cert_pem key_pem : Text)
      (found_cert : Map.get files (cert_path certs_dir domain) ≡ some cert_pem)
      (found_key : Map.get files (key_path certs_dir domain) ≡ some key_pem)
      (parsed : parse_certificate pem cert_pem key_pem ≡ ok key) where
    load_one-own : (certs : Map CertifiedKey) → Map.get (load_one certs domain) domain ≡ some key
    unfolding load_existing_certs
    load_one-own certs =
        ground (arith, found_cert, found_key, parsed, get-insert_self certs domain key)

    -- A certificate that is there stays, since its own entry gives it again.
    load_existing_certs-keeps :
        (certs : Map CertifiedKey) (names : List Text)
        → Map.get certs domain ≡ some key
        → Map.get (load_existing_certs pem certs (map (entry_at files certs_dir) names)) domain
          ≡ some key
    unfolding load_existing_certs
    load_existing_certs-keeps certs [] there = there
    load_existing_certs-keeps certs (n ∷ ns) there =
        load_existing_certs-keeps (load_one certs n) ns (load_one-keeps certs n there)
      where
        load_one-keeps :
            (certs : Map CertifiedKey) (n : Text)
            → Map.get certs domain ≡ some key
            → Map.get (load_one certs n) domain ≡ some key
        load_one-keeps certs n there = elim (Bool-cases (n == domain)) [
          | inl own ↦ rw ((eq_iff n domain).0 own) (load_one-own certs)
          | inr other ↦ load_one-other certs n domain other ∙ there
        ]

    load_existing_certs-get :
        (certs : Map CertifiedKey) (names : List Text)
        → mem names domain ≡ true
        → Map.get (load_existing_certs pem certs (map (entry_at files certs_dir) names)) domain
          ≡ some key
    unfolding load_existing_certs mem
    load_existing_certs-get certs [] listed = cc
    load_existing_certs-get certs (n ∷ ns) listed = elim (Bool-cases (n == domain)) [
      | inl own ↦
          load_existing_certs-keeps (load_one certs n) ns
            (rw ((eq_iff n domain).0 own) (load_one-own certs))
      | inr other ↦ load_existing_certs-get (load_one certs n) ns (ground arith)
    ]

-- A certificate that was saved for a domain and can be read is the one with which a server answers
-- for that domain after it starts again on those files, if the directory lists the domain.
pub resolve-save_certificate :
    (pem : Pem) (certs_dir domain : Text) (cert : Certificate) (key : CertifiedKey) (c d : Console)
    (names : List Text) (has_acme_client : Bool) (store : ChallengeStore) (base_domain : Text)
    → save_certificate certs_dir domain cert c ≡ (d, ok tt)
    → parse_certificate pem cert.cert_pem cert.key_pem ≡ ok key
    → mem names domain ≡ true
    → resolve
        (new pem (map (entry_at d.files certs_dir) names) has_acme_client store base_domain)
        (some domain)
      ≡ some key
unfolding resolve new
resolve-save_certificate pem certs_dir domain cert key c d names has_acme_client store base_domain
      saved parsed listed =
    let (found_cert, found_key) = save_certificate-get certs_dir domain cert c d saved in
    ground (
      arith,
      load_existing_certs-get pem d.files certs_dir domain key cert.cert_pem cert.key_pem found_cert
          found_key parsed [] names listed,
    )
