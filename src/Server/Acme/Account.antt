-- ===== src/Server/Acme/Account.antt =====
-- server/acme.rs: `AcmeClient::new_with_roots`, with the account that it loads or creates. Accounts,
-- credentials and their JSON are those of other crates, arguments; a file that exists can be read.
use loophole.Base.{
  ◌≡◌, refl, sym, ◌∙◌, ap, Bool, Option, none, some, List, [], ◌∷◌, ◌++◌, arith, ok, err,
  if◌then◌else◌, Option-cases, inl, inr,
}
use loophole.Text.{Text, codes}
use loophole.Map
use loophole.Map.{get-insert_self}
use loophole.Console.{Console, Action, pure, or_raise, ◌>>=◌, ◌>>◌, write_file}

-- `filter_map(|r| r.ok())` of the certificates read, after the roots that are built in; those that
-- the store does not take are left out.
unfoldable pub root_store : (Text → Bool) → List Text → List (Option Text) → List Text
root_store takes roots [] = roots
root_store takes roots (none ∷ cs) = root_store takes roots cs
root_store takes roots (some c ∷ cs) =
    root_store takes (if takes c then roots ++ (c ∷ []) else roots) cs

-- What the `instant_acme` crate gives: the JSON of credentials, an account by its credentials, and a
-- new account at a directory, each with the roots that are trusted.
pub record Accounts (Account Credentials : Type 0) : Type 0 where
  pub from_json : Text → Option Credentials
  pub to_json : Credentials → Option Text
  pub from_credentials : Credentials → List Text → Option Account
  pub create : Text → Text → List Text → Option (Account × Credentials)

-- What is documented of them: credentials are read as they were written, and those of a new account
-- give that account.
pub record IsLawful {Account Credentials : Type 0} (acme : Accounts Account Credentials)
    : Type 0 where
  pub json : (x : Credentials) (s : Text) → acme.to_json x ≡ some s → acme.from_json s ≡ some x
  pub credentials :
      (email url : Text) (roots : List Text) (a : Account) (x : Credentials)
      → acme.create email url roots ≡ some (a, x)
      → acme.from_credentials x roots ≡ some a

abbrev pub account_path : Text → Text
account_path certs_dir = certs_dir ++ codes "/account.json"

module _ {Account Credentials : Type 0} (acme : Accounts Account Credentials) where
  unfoldable pub create_account : Text → Text → Text → List Text → Action Account
  create_account email directory_url certs_dir roots = do
    created ←
        or_raise (acme.create (codes "mailto:" ++ email) directory_url roots)
          (codes "Failed to create ACME account")
    account_json ← or_raise (acme.to_json created.1) (codes "Failed to serialize credentials")
    write_file (account_path certs_dir) account_json (codes "Failed to write credentials")
    pure created.0

  unfoldable pub get_or_create_account : Text → Text → Text → List Text → Action Account
  get_or_create_account email directory_url certs_dir roots c =
      elim (Map.get c.files (account_path certs_dir)) [
        | none ↦ create_account email directory_url certs_dir roots c
        | some account_data ↦ elim (acme.from_json account_data) [
          | none ↦ create_account email directory_url certs_dir roots c
          | some credentials ↦
              or_raise (acme.from_credentials credentials roots)
                (codes "Failed to load ACME account from credentials") c
        ]
      ]

  abbrev create_certs_dir : Text → Action (Unit {0})
  create_certs_dir certs_dir c =
      if c.may_create certs_dir
      then (c, ok tt)
      else (c, err (codes "Failed to create certs directory"))

  unfoldable pub new_with_roots : Text → Text → Text → List Text → Action Account
  new_with_roots email directory_url certs_dir roots = do
    create_certs_dir certs_dir
    get_or_create_account email directory_url certs_dir roots

  -- An account that was saved is used whatever email and directory are configured, and no file
  -- changes.
  pub get_or_create_account-saved :
      (email directory_url certs_dir saved : Text) (roots : List Text) (c : Console)
      (credentials : Credentials) (account : Account)
      → Map.get c.files (account_path certs_dir) ≡ some saved
      → acme.from_json saved ≡ some credentials
      → acme.from_credentials credentials roots ≡ some account
      → get_or_create_account email directory_url certs_dir roots c ≡ (c, ok account)
  unfolding get_or_create_account
  get_or_create_account-saved email directory_url certs_dir saved roots c credentials account found
        read loads =
      rw (found, get_or_create_account, read, loads) refl

  get_or_create_account-fresh :
      (email url certs_dir : Text) (roots : List Text) (c : Console)
      → Map.get c.files (account_path certs_dir) ≡ none
      → get_or_create_account email url certs_dir roots c
        ≡ create_account email url certs_dir roots c
  unfolding get_or_create_account
  get_or_create_account-fresh email url certs_dir roots c fresh =
      rw (fresh, get_or_create_account) refl

  -- The files and the account after a creation that succeeds.
  saved :
      (email url certs_dir : Text) (roots : List Text) (c d : Console) (a b : Account)
      (x : Credentials) (s : Text)
      → acme.create (codes "mailto:" ++ email) url roots ≡ some (b, x)
      → acme.to_json x ≡ some s
      → create_account email url certs_dir roots c ≡ (d, ok a)
      → (Map.insert c.files (account_path certs_dir) s ≡ d.files) × (b ≡ a)
  unfolding create_account ◌>>=◌
  saved email url certs_dir roots c d a b x s created written h = ground arith

  module _ (lawful : IsLawful acme) where
    -- What a creation that succeeds leaves in the account's file.
    create_account-get :
        (email url certs_dir : Text) (roots : List Text) (c d : Console) (a : Account)
        → create_account email url certs_dir roots c ≡ (d, ok a)
        → ((s : Text) × (x : Credentials) × (Map.get d.files (account_path certs_dir) ≡ some s)
            × (acme.from_json s ≡ some x)
            × (acme.from_credentials x roots ≡ some a))
    unfolding create_account ◌>>=◌
    create_account-get email url certs_dir roots c d a h =
        elim (Option-cases (acme.create (codes "mailto:" ++ email) url roots)) [
          | inl no_account ↦ absurd (ground arith)
          | inr ((b, x), created) ↦ elim (Option-cases (acme.to_json x)) [
            | inl no_json ↦ absurd (ground arith)
            | inr (s, written) ↦
                let (same, e) = saved email url certs_dir roots c d a b x s created written h in
                (
                  s,
                  x,
                  ap (λ files. Map.get files (account_path certs_dir)) (sym same)
                      ∙ get-insert_self c.files (account_path certs_dir) s,
                  lawful.json x s written,
                  rw (← e) (lawful.credentials _ url roots b x created),
                )
          ]
        ]

    -- An account that was created is the one that every later start loads, whatever email and
    -- directory are configured then, with no further change of a file.
    pub get_or_create_account-again :
        (email url later_email later_url certs_dir : Text) (roots : List Text) (c d : Console)
        (a : Account)
        → Map.get c.files (account_path certs_dir) ≡ none
        → get_or_create_account email url certs_dir roots c ≡ (d, ok a)
        → get_or_create_account later_email later_url certs_dir roots d ≡ (d, ok a)
    get_or_create_account-again email url later_email later_url certs_dir roots c d a fresh h =
        let created : create_account email url certs_dir roots c ≡ (d, ok a) =
          sym (get_or_create_account-fresh email url certs_dir roots c fresh) ∙ h in
        let (s, x, found, read, loads) =
          create_account-get email url certs_dir roots c d a created in
        get_or_create_account-saved later_email later_url certs_dir s roots d x a found read loads
