-- ===== src/Server/Acme/Renewal.antt =====
-- server/acme.rs: `needs_renewal` and the daily pass of `certificate_renewal_task`, over the
-- directories of the certificates. The readers of PEM are arguments.
use loophole.Base.{
  ◌≡◌, refl, inl, inr, Bool, true, false, not, Option, none, some, List, [], ◌∷◌, map, ◌++◌, arith,
  is_ok, if◌then◌else◌, Option-cases, All,
}
use mathlib.Core.Option
use loophole.Text.{Text, codes, ◌==◌}
use loophole.Text.Utf8.{Bytes}
use loophole.Server.Acme.Store.{ChallengeStore}
use loophole.Server.Acme.Client.{Order, request_certificate}
use loophole.Server.Acme.Laws.{Answers, AllAnswer, request_certificate_total}

-- A directory entry: its name where that is UTF-8, whether a cert.pem is there and what reading it
-- gives, and what the ACME server answers if a certificate is ordered.
pub record Entry : Type 0 where
  pub is_dir : Bool
  pub file_name : Option Text
  pub exists : Bool
  pub cert_pem : Option Text
  pub order : Order

-- `parse` of the pem crate gives the contents of the first block, and `certs` of rustls_pemfile the
-- certificates of a PEM text, `none` for one that is an error.
module _ (parse : Text → Option Bytes) (certs : Bytes → List (Option Bytes)) where
  unfoldable pub needs_renewal : Text → Bool
  needs_renewal cert_pem = elim (parse cert_pem) [
    | none ↦ true
    | some contents ↦ elim (certs contents) [ [] ↦ true | none ∷ _ ↦ true | some cert ∷ _ ↦ false ]
  ]

  -- The domain whose certificate is ordered again.
  unfoldable pub due : Entry → Option Text
  due entry = if not entry.is_dir then none else elim entry.file_name [
    | none ↦ none
    | some domain ↦
        if domain == codes "account.json"
        then none
        else if not entry.exists
        then none
        else elim entry.cert_pem [
          | none ↦ none
          | some cert_pem ↦ if needs_renewal cert_pem then some domain else none
        ]
  ]

  -- The store after a pass, and the domains it ordered with their success; `none` where the ACME
  -- server stops answering.
  unfoldable pub renewal_pass :
      ChallengeStore → List Entry → ChallengeStore × Option (List (Text × Bool))
  renewal_pass store [] = (store, some [])
  renewal_pass store (entry ∷ entries) = elim (due entry) [
    | none ↦ renewal_pass store entries
    | some domain ↦
        let (ordered, result) = request_certificate store entry.order in
        elim result [
          | none ↦ (ordered, none)
          | some r ↦
              let (after, rest) = renewal_pass ordered entries in
              (after, Option.map (λ ds. (domain, is_ok r) ∷ ds) rest)
        ]
  ]

  -- The days that pass: what reading the directory gives on each.
  unfoldable pub certificate_renewal_task :
      ChallengeStore → List (Option (List Entry)) → ChallengeStore × Option (List (Text × Bool))
  certificate_renewal_task store [] = (store, some [])
  certificate_renewal_task store (none ∷ days) = certificate_renewal_task store days
  certificate_renewal_task store (some entries ∷ days) =
      let (after, ordered) = renewal_pass store entries in
      elim ordered [
        | none ↦ (after, none)
        | some domains ↦
            let (last, more) = certificate_renewal_task after days in
            (last, Option.map (λ ds. domains ++ ds) more)
      ]

  unfoldable pub dues : List Entry → List Text
  dues [] = []
  dues (entry ∷ entries) = elim (due entry) [ none ↦ dues entries | some d ↦ d ∷ dues entries ]

  -- The ACME server answers every poll of the order that an entry may ask for.
  abbrev pub EntryAnswers : Entry → Type 0
  EntryAnswers entry = AllAnswer entry.order.authorizations × Answers entry.order.polls

  -- A pass over directories for which the ACME server answers ends, and has ordered a certificate for
  -- each domain that is due, in the order of the directory, whether or not earlier ones succeed.
  pub renewal_pass_total :
      (store : ChallengeStore) (entries : List Entry)
      → All EntryAnswers entries
      → (out : List (Text × Bool)) × ((renewal_pass store entries).1 ≡ some out)
        × (map (λ (d, _). d) out ≡ dues entries)
  unfolding renewal_pass dues
  renewal_pass_total store [] h = ([], refl, refl)
  renewal_pass_total store (entry ∷ entries) ((a, p), h) = elim (Option-cases (due entry)) [
    | inl skipped ↦
        let (out, e, same) = renewal_pass_total store entries h in
        (out, ground (arith, skipped, e), ground (arith, skipped, same))
    | inr (domain, found) ↦ elim (Option-cases (request_certificate store entry.order).1) [
      | inl stuck ↦ absurd (request_certificate_total store entry.order a p stuck)
      | inr (r, came) ↦
          let (out, e, same) =
            renewal_pass_total (request_certificate store entry.order).0 entries h in
          ((domain, is_ok r) ∷ out, ground (arith, found, came, e), ground (arith, found, same))
    ]
  ]
