-- ===== src/Server/Router/Subdomain.antt =====
-- `extract_subdomain` against an independent description, and the names that the server hands out.
use mathlib.Core.List.{append-nil}
use loophole.Base.{
  ◌≡◌, ◌≢◌, ◌⊎◌, ◌↔◌, refl, sym, ap, subst, ◌∙◌, inl, inr, true, false, some, [], ◌∷◌, ◌++◌, arith,
  length, length-append, All, Bool-cases, Option-cases, eq-false_of_ne-true,
}
use loophole.Text.{Text, codes, ◌==◌, before, strip_suffix, ends_with, contains_char}
use loophole.Text.Laws.{
  eq_iff, strip_suffix-append, eq-append_of_strip_suffix, ends_with_iff, ends_with-eq-is_some,
  before-append, before_free, contains_char-append,
}
use loophole.Server.Registry.Validation.{IsLabel, IsLabelChar}
use loophole.Server.Router.Defs.{extract_subdomain}

-- A host names a subdomain: without its port it is the subdomain, a dot and the domain, and the
-- subdomain has no dot, unless the domain is `localhost`.
pub record Names (host domain s : Text) : Type 0 where
  pub parts : before b':' host ≡ s ++ (codes "." ++ domain)
  pub single : (domain ≡ codes "localhost") ⊎ (contains_char b'.' s ≡ false)

longer : (s domain : Text) → s ++ (codes "." ++ domain) ≢ domain
longer s domain e = omega (arith, ap length e, length-append s (codes "." ++ domain))

-- A subdomain is extracted from a host exactly if the host names it: without its port the host is
-- the subdomain, a dot and the domain, and the subdomain has no dot, unless the domain is
-- `localhost`.
pub extract_subdomain_iff :
    (host domain s : Text) → (extract_subdomain host domain ≡ some s) ↔ Names host domain s
unfolding extract_subdomain
extract_subdomain_iff host domain s = (to, from)
  where
    bare : Text
    bare = before b':' host

    suffix : Text
    suffix = codes "." ++ domain

    local :
        domain ≡ codes "localhost" → extract_subdomain host domain ≡ some s → Names host domain s
    local e h = record {
      parts = rw e (
          eq-append_of_strip_suffix bare (codes ".localhost") s
            (ground (arith, eq_iff domain (codes "localhost"), ends_with-eq-is_some bare suffix)));
      single = inl e;
    }

    nested :
        domain ≢ codes "localhost" → extract_subdomain host domain ≡ some s → Names host domain s
    nested n h = elim (Option-cases (strip_suffix bare suffix)) [
      | inl missing ↦ absurd (ground (arith, eq_iff domain (codes "localhost")))
      | inr (r, found) ↦
          let same : r ≡ s = ground (arith, eq_iff domain (codes "localhost")) in
          record {
            parts = rw (← same) (eq-append_of_strip_suffix bare suffix r found);
            single = inr (ground (arith, eq_iff domain (codes "localhost")));
          }
    ]

    to : extract_subdomain host domain ≡ some s → Names host domain s
    to h = elim (Bool-cases (domain == codes "localhost")) [
      | inl same ↦ local ((eq_iff domain (codes "localhost")).0 same) h
      | inr other ↦ nested (λ e. ground (arith, eq_iff domain (codes "localhost"))) h
    ]

    from : Names host domain s → extract_subdomain host domain ≡ some s
    from v =
        let not_domain : (bare == domain) ≡ false =
          eq-false_of_ne-true _ (λ e. longer s domain (sym v.parts ∙ (eq_iff bare domain).0 e)) in
        let stripped : strip_suffix bare suffix ≡ some s =
          rw v.parts (strip_suffix-append s suffix) in
        let ends : ends_with bare suffix ≡ true = (ends_with_iff bare suffix).1 (s, v.parts) in
        elim (Bool-cases (domain == codes "localhost")) [
          | inl is_local ↦
              let e : domain ≡ codes "localhost" = (eq_iff domain (codes "localhost")).0 is_local in
              let local_stripped : strip_suffix bare (codes ".localhost") ≡ some s =
                subst (λ (d : Text). strip_suffix bare (codes "." ++ d) ≡ some s) e stripped in
              let local_ends : ends_with bare (codes ".localhost") ≡ true =
                subst (λ (d : Text). ends_with bare (codes "." ++ d) ≡ true) e ends in
              ground arith
          | inr other ↦ ground (arith, eq_iff domain (codes "localhost"))
        ]

-- The characters of a label are no dots, colons or slashes.
pub label-free :
    (s : Text)
    → All IsLabelChar s
    → (contains_char b'.' s ≡ false)
      × (contains_char b':' s ≡ false)
      × (contains_char b'/' s ≡ false)
unfolding contains_char
label-free [] h = (refl, refl, refl)
label-free (c ∷ s) h = ground (arith, label-free s h.1)

-- What may follow the host name in a `Host` header: nothing, or a colon and a port.
abbrev pub IsPortSuffix : Text → Type 0
IsPortSuffix p = (p ≡ []) ⊎ ((q : Text) × (p ≡ b':' ∷ q))

before-port :
    (h p : Text) → contains_char b':' h ≡ false → IsPortSuffix p → before b':' (h ++ p) ≡ h
before-port h p free (inl e) = rw (e, append-nil h) (before_free b':' h free)
before-port h p free (inr (q, e)) = rw e (before-append b':' h q free)

-- A request to a label under the domain, with or without a port, is for that label, whatever the
-- domain is, if it has no colon.
pub extract_subdomain-label :
    (s domain port : Text)
    → IsLabel s
    → contains_char b':' domain ≡ false
    → IsPortSuffix port
    → extract_subdomain ((s ++ (codes "." ++ domain)) ++ port) domain ≡ some s
extract_subdomain-label s domain port label free p =
    let (no_dot, no_colon, _) = label-free s label.chars in
    let no_colon_after : contains_char b':' (codes "." ++ domain) ≡ false =
      unfold contains_char in ground arith in
    (extract_subdomain_iff _ domain s).1 (record {
      parts =
          before-port (s ++ (codes "." ++ domain)) port
            (contains_char-append b':' s (codes "." ++ domain) no_colon no_colon_after) p;
      single = inr no_dot;
    })
