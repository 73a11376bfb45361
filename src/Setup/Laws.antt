-- ===== src/Setup/Laws.antt =====
-- init.rs: what `run` does to the files.
use loophole.Base.{
  ◌≡◌, refl, sym, ap, subst, inl, inr, Bool, true, false, Option, none, some, [], arith, ok, ◌||◌,
  unwrap_or, is_empty, All, Bool-cases, Option-cases, List-cases,
}
use loophole.Text.{Text, codes, trim, trim_start}
use loophole.Text.Lines.{to_lowercase}
use loophole.Text.Utf8.{Bytes}
use loophole.Map
use loophole.Map.{Map, get-insert, remove-insert_fresh}
use loophole.Console.{
  Console, Action, branch, ◌>>=◌, say, prompt, prompt_yes_no, is_yes, create_file, Leads,
  Leads-bind, bind-ok, Keeps-pure, given_or, Keeps, keeps_rules,
}
use loophole.Setup.Template.{default_config_path}
use loophole.Setup.Defs.{System, parent, make_parent, can_write, validate_config_path}
use loophole.Setup.Run.{ask_domain, ask_email, confirm_overwrite, run}

can_write_lem : (path : Text) (c : Console) → can_write path c ≡ (c, ok (c.may_write path))
unfolding can_write Map.contains_key ◌>>=◌
can_write_lem path c = elim (Option-cases (Map.get c.files path)) [
  | inl fresh ↦
      let back = remove-insert_fresh c.files path [] fresh in
      elim (Bool-cases (c.may_write path)) [
        | inl allowed ↦
            rw (fresh, ◌>>=◌, allowed)
              (rw (create_file, allowed) (ap (λ files. (record c { files = files }, ok true)) back))
        | inr denied ↦ rw (fresh, ◌>>=◌, denied) (rw (create_file, denied) refl)
      ]
  | inr (old, found) ↦ rw (found, can_write) refl
]

-- The directory of a path can be made, or is there.
abbrev pub HasParent : Console → Text → Type 0
HasParent c path = (dir : Text) → parent path ≡ some dir → (is_empty dir || c.may_create dir) ≡ true

-- The check of a path leaves everything as it was.
validate_config_path-same : (path : Text) (c : Console) → (validate_config_path path c).0 ≡ c
unfolding validate_config_path make_parent ◌>>=◌
validate_config_path-same path c = elim (Option-cases (parent path)) [
  | inl top ↦ ground (arith, can_write_lem path c)
  | inr (dir, e) ↦ ground (arith, can_write_lem path c)
]

pub validate_config_path-ok :
    (path : Text) (c : Console)
    → c.may_write path ≡ true
    → HasParent c path
    → validate_config_path path c ≡ (c, ok tt)
unfolding validate_config_path make_parent ◌>>=◌
validate_config_path-ok path c w h = elim (Option-cases (parent path)) [
  | inl top ↦ ground (arith, can_write_lem path c)
  | inr (dir, e) ↦ ground (arith, can_write_lem path c, h dir e)
]

-- The end of the input is no consent.
is_yes-empty : is_yes false [] ≡ false
unfolding is_yes trim trim_start to_lowercase
is_yes-empty = refl

module _ (files : Map Text) where
  -- The files are these, and no answer that is left means yes.
  abbrev Untouched : Console → Type 0
  Untouched c = (c.files ≡ files) × All (λ line. is_yes false line ≡ false) c.stdin

  prompt-Keeps : (message : Text) → Keeps Untouched (prompt message)
  unfolding prompt ◌>>=◌
  prompt-Keeps message = record {
    at = λ c h. elim (List-cases c.stdin) [
      | inl e ↦ ground arith
      | inr (line, lines, e) ↦ ground arith
    ];
  }

  given_or-Keeps :
      (value : Option Text) (message missing : Text)
      → Keeps Untouched (given_or value (prompt message) missing)
  unfolding given_or
  given_or-Keeps (some value) message missing = Keeps-pure value
  given_or-Keeps none message missing = search (keeps_rules, prompt-Keeps)

  -- Where the file exists, the question is answered by no.
  confirm_overwrite-no :
      (path : Text) (c : Console)
      → Map.contains_key files path ≡ true
      → Untouched c
      → ((confirm_overwrite path c).0.files ≡ files) × ((confirm_overwrite path c).1 ≡ ok false)
  unfolding confirm_overwrite prompt_yes_no ◌>>=◌
  confirm_overwrite-no path c present (same, answers) = elim (List-cases c.stdin) [
    | inl e ↦ ground (arith, is_yes-empty, ap (λ m. Map.contains_key m path) same)
    | inr (line, lines, e) ↦ ground (arith, ap (λ m. Map.contains_key m path) same)
  ]

  ask_domain-Keeps : (domain : Option Text) → Keeps Untouched (ask_domain domain)
  unfolding ask_domain
  ask_domain-Keeps domain = search given_or-Keeps

  ask_email-Keeps : (email : Option Text) → Keeps Untouched (ask_email email)
  unfolding ask_email
  ask_email-Keeps email = search given_or-Keeps

  -- What is done on a confirmation is not done.
  declined :
      (path : Text)
      → Map.contains_key files path ≡ true
      → (m : Action (Unit {0}))
      → Leads Untouched
          (λ d. d.files ≡ files)
          (confirm_overwrite path >>= λ confirmed. branch confirmed m (say (codes "Aborted.")))
  declined path present m = record {
    at = λ c h.
        let (same, refused) = confirm_overwrite-no path c present h in
        rw
          (bind-ok (confirm_overwrite path)
            (λ confirmed. branch confirmed m (say (codes "Aborted."))) c false refused)
          same;
  }

  -- A configuration that exists is not overwritten, and no file is changed, unless an answer means
  -- yes, whatever the arguments are and however the command ends.
  pub run-keeps_files :
      (system : System) (random : Bytes) (domain email output : Option Text) (install : Bool)
      (c : Console)
      → Map.contains_key files (unwrap_or output default_config_path) ≡ true
      → Untouched c
      → (run system random domain email output install c).0.files ≡ files
  unfolding run
  run-keeps_files system random domain email output install c present h =
      let path = unwrap_or output default_config_path in
      let checked : Keeps Untouched (validate_config_path path) = record {
        at = λ d v. subst Untouched (sym (validate_config_path-same path d)) v;
      } in
      (Leads-bind checked (λ d v. v.0)
          (λ _.
            Leads-bind (ask_domain-Keeps domain) (λ d v. v.0)
              (λ name.
                Leads-bind (ask_email-Keeps email) (λ d v. v.0)
                  (λ address. declined path present _)))).at
        c h
