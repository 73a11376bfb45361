-- ===== src/Server/Handler/Lifetime.antt =====
-- What a whole connection does to the registry.
use loophole.Base.{
  ℕ, ◌≡◌, not, ◌≢◌, ◌⊎◌, eq-false_of_ne-true, inl, inr, Bool, true, false, ◌&&◌, none, some, List,
  ◌∷◌, arith, is_ok, if◌then◌else◌,
}
use loophole.Text.{Text, ◌==◌, mem}
use loophole.Text.Laws.{eq_iff}
use loophole.Socket.{Polled}
use loophole.Proto.{registered, Codec}
use loophole.Server.Tunnel
use loophole.Server.Registry
use loophole.Server.Registry.{Registry}
use loophole.Server.Registry.Invariant.{register_lem, get-deregister}
use loophole.Server.Acme.Client.{Order}
use loophole.Server.Tls.Defs.{Pem}
use loophole.Server.Router.Defs.{ServerState}
use loophole.Server.Handler.Defs.{
  full_domain, tunnel_url, provide_certificate, welcome, enter, Event, serve, leave, Session,
  handle_websocket, run_connection,
}
use loophole.Server.Handler.Registration.{
  Registers, IsRefusal, negotiate-welcomes, negotiate-refuses,
}

not_free :
    {P : Type 0}
    → (r : Registry) (s : Text) → P × (mem r.reserved s ≡ false) × (Registry.get r s ≡ none)
    → ¬ ((mem r.reserved s ≡ true) ⊎ (Registry.get r s ≢ none))
not_free r s (_, free, vacant) (inl reserved) = cc
not_free r s (_, free, vacant) (inr taken) = taken vacant

module _ (codec : Codec) (pem : Pem) (state : ServerState) (first : Polled) (order : Order)
    (connection now : ℕ) (events : List Event) where
  abbrev session : Bool → Session
  session delivered = handle_websocket codec pem state first delivered order connection now events

  -- A client that registers a label with a known token, where the answer is delivered, the wait for
  -- the certificate ends, the name is neither reserved nor taken, and nothing else changes the
  -- state meanwhile, is registered while its connection lasts; after that the registry maps every
  -- name as before.
  pub handle_websocket-Registers :
      (token subdomain j : Text)
      → Registers codec state.config first token subdomain
      → (provide_certificate pem state (full_domain state.config subdomain) order).done ≡ true
      → mem state.registry.reserved subdomain ≡ false
      → Registry.get state.registry subdomain ≡ none
      → Registry.get (session true).state.registry j ≡ (
          if not (serve events).1 && subdomain == j
          then some (Tunnel.new subdomain token connection now)
          else Registry.get state.registry j)
  unfolding handle_websocket welcome enter run_connection leave
  handle_websocket-Registers token subdomain j v done free vacant =
      let welcomed = negotiate-welcomes codec pem state first true order token subdomain v in
      let t = Tunnel.new subdomain token connection now in
      let (accepted, found) = register_lem state.registry subdomain t in
      let success = accepted.1 (v.label, free, vacant) in
      rw welcomed (
        ground (
          arith,
          found j,
          get-deregister (Registry.register state.registry subdomain t).0 subdomain j,
          eq_iff subdomain j,
        ))

  -- A client that registers a label with a known token, where the answer is delivered and the wait for
  -- the certificate ends, but the name is reserved or taken, is told all the same that it is
  -- registered: it is sent what a success is sent, and the registry maps every name as before.
  pub handle_websocket-taken :
      (token subdomain j : Text)
      → Registers codec state.config first token subdomain
      → (provide_certificate pem state (full_domain state.config subdomain) order).done ≡ true
      → (mem state.registry.reserved subdomain ≡ true)
        ⊎ (Registry.get state.registry subdomain ≢ none)
      → ((session true).sent
          ≡ registered subdomain (tunnel_url state.config subdomain)
            ∷ (provide_certificate pem state (full_domain state.config subdomain) order).sent)
        × (Registry.get (session true).state.registry j ≡ Registry.get state.registry j)
  unfolding handle_websocket welcome enter run_connection
  handle_websocket-taken token subdomain j v done busy =
      let welcomed = negotiate-welcomes codec pem state first true order token subdomain v in
      let t = Tunnel.new subdomain token connection now in
      let (accepted, found) = register_lem state.registry subdomain t in
      let fails : is_ok (Registry.register state.registry subdomain t).1 ≡ false =
        eq-false_of_ne-true _ (λ e. not_free _ _ (accepted.0 e) busy) in
      (rw welcomed (ground arith), rw welcomed (ground (arith, found j)))

  -- A client whose first message does not register a label with a known token changes nothing and
  -- is sent at most one message, an error.
  pub handle_websocket-refused :
      (delivered : Bool)
      → ((token subdomain : Text) → ¬ Registers codec state.config first token subdomain)
      → ((session delivered).state ≡ state) × IsRefusal (session delivered).sent
  unfolding handle_websocket run_connection
  handle_websocket-refused delivered other =
      let (nothing, same, refusal) =
        negotiate-refuses codec pem state first delivered order other in
      (ground arith, ground (arith, refusal))
