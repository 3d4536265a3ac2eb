-- ===== src/Adapters/Client/Waits.antt =====
-- What Connect and Close of api/client.go come to over the identity service.
use ephemos.Services.State.Replies.{reply-none}
use ephemos.Services.Create.Laws.{Reachable-create_waits}
use ephemos.Base.{
  ◌≢◌, sym, ap, ◌⊎◌, inl, inr, if◌then◌else◌, >>=-eq-ok, wrap-eq-ok, err, ℕ, ◌≡◌, refl, Bool, true,
  false, not, Option, none, some, Result, ok, fail_if, wrap,
}
use mathlib.Core.Path.{subst, ◌∙◌}
use ephemos.GoText.{Text}
use ephemos.GoTime.{Time}
use ephemos.Domain.Spiffe.{Sdk, SpiffeId}
use ephemos.Domain.ServiceName.{ServiceName, new_service_name}
use ephemos.Domain.ServiceAddress.{ServiceAddress, Net, new_service_address}
use ephemos.Services.State.{
  service_name, State, CacheConfig, new_state, hangs, Ports, Readings, Call, returns, waits,
  ServiceError,
}
use ephemos.Services.Lookup.Reach.{Reachable}
use ephemos.Services.Create.{create_client_identity}
use ephemos.Adapters.Client.{
  with_opened, opened, with_target, ClientConnection, close_held, ClientError, PeerAuthorizer,
  Client, nil_context, bad_service_name, bad_service_address, ConnectAnswers, checked_target,
  identity_client, connect, close_client,
}

-- What a caller gets of a call of the identity service.
abbrev pub answer_of {ℓ} : {A : Type ℓ} → Call A → Option (Result ServiceError A)
answer_of (returns s r) = some r
answer_of (waits s) = none

there : (b : Bool) {u : Unit {0}} → fail_if (not b) nil_context ≡ ok u → b ≡ true
there true h = refl
there false h = cc

abbrev failed : ClientError → Result ClientError (ServiceName × ServiceAddress)
failed e = err e

err_ok : (t : ServiceName × ServiceAddress) (e : ClientError) → failed e ≢ ok t
err_ok t e h = cc

module _ (sdk : Sdk) (net : Net) (id : SpiffeId) (config : Option CacheConfig) where
  -- What the client asks: the identity service, in a state that its calls reach, and a domain client.
  pub record Around : Type 0 where
    pub service : State
    pub reached : Reachable (new_state id config) service
    pub ports : Ports
    pub readings : Readings
    pub instant : Time
    pub later : Readings
    pub dials : ℕ → Text → Text → Result Text (Option ℕ)

  abbrev pub answers_of : Around → ConnectAnswers
  answers_of w = record {
    created = answer_of (create_client_identity w.ports w.readings w.instant w.later w.service);
    connects = w.dials;
  }

  -- A client that calls have led to from a new one.
  pub data Reached : Client → Type 0 where
    born :
        {c : Client} (a : Option PeerAuthorizer) (td : Text)
        → identity_client true true true (ok tt) a td ≡ ok c
        → Reached c
    connected :
        {c : Client} (w : Around) (with_context : Bool) (name address : Text)
        → Reached c
        → Reached (connect sdk net (answers_of w) with_context name address c).0
    closed :
        {c : Client} (closing : Result Text (Unit {0}))
        → Reached c
        → Reached (close_client closing c).0

  -- The arguments that Connect takes.
  abbrev pub IsTaken : Bool → Text → Text → Type 0
  IsTaken with_context name address =
      (with_context ≡ true)
      × ((n : ServiceName) × (new_service_name name ≡ ok n))
      × ((a : ServiceAddress) × (new_service_address net address ≡ ok a))

  checked-IsTaken :
      (with_context : Bool) (name address : Text) (t : ServiceName × ServiceAddress)
      → checked_target net with_context name address ≡ ok t
      → IsTaken with_context name address
  checked-IsTaken with_context name address t h =
      let (u, g, h1) = >>=-eq-ok (fail_if (not with_context) nil_context) (λ x. _) h in
      let (m, i, h2) = >>=-eq-ok (wrap bad_service_name (new_service_name name)) (λ x. _) h1 in
      let (b, j, h3) =
        >>=-eq-ok (wrap bad_service_address (new_service_address net address)) (λ x. _) h2 in
      (
        there with_context g,
        (m, wrap-eq-ok bad_service_name (new_service_name name) i),
        (b, wrap-eq-ok bad_service_address (new_service_address net address) j),
      )

  taken-checked :
      (with_context : Bool) (name address : Text)
      → IsTaken with_context name address
      → (t : ServiceName × ServiceAddress) × (checked_target net with_context name address ≡ ok t)
  taken-checked with_context name address (c, (n, e), (a, f)) = ((n, a), rw (c, e, f) refl)

  -- The call never returns: it keeps the mutex, and the client has no domain client.
  abbrev pub Stuck : Client × Option (Result ClientError ClientConnection) → Type 0
  Stuck (c, r) = (r ≡ none) × (c.is_locked ≡ true) × (c.domain_client ≡ none)

  -- The call returns an error and leaves the client as it is.
  abbrev pub Errs : Client → Client × Option (Result ClientError ClientConnection) → Type 0
  Errs c (left, r) = ((e : ClientError) × (r ≡ some (err e))) × (left ≡ c)

  module _ (n : Text) (path : service_name id ≡ some n) where
    gate :
        (answers : ConnectAnswers) (c : Client) (t : ServiceName × ServiceAddress) (b : Bool)
        → c.domain_client ≡ none
        → opened answers c.domain_client ≡ err hangs
        → c.is_locked ≡ b
        → Stuck
            (if b then (c, none) else with_opened sdk answers c t (opened answers c.domain_client))
    gate answers c t true d h e = (refl, e, d)
    gate answers c t false d h e =
        subst (λ o. Stuck (with_opened sdk answers c t o)) (sym h) (refl, refl, d)

    never_made :
        (w : Around) (c : Client)
        → c.domain_client ≡ none
        → opened (answers_of w) c.domain_client ≡ err hangs
    never_made w c d =
        let (v, e) =
          (Reachable-create_waits id n config w.service path w.reached w.ports w.readings w.instant
            w.later).1 in
        ap (opened (answers_of w)) d ∙ reply-none _ (ap answer_of e)

    target_lem :
        (w : Around) (c : Client) (t : Result ClientError (ServiceName × ServiceAddress))
        → c.domain_client ≡ none
        → (((x : ServiceName × ServiceAddress) × (t ≡ ok x))
            × Stuck (with_target sdk (answers_of w) c t))
          ⊎ (((e : ClientError) × (t ≡ err e)) × Errs c (with_target sdk (answers_of w) c t))
    target_lem w c (err e) d = inr ((e, refl), ((e, refl), refl))
    target_lem w c (ok x) d =
        inl ((x, refl), gate (answers_of w) c x c.is_locked d (never_made w c d) refl)

    Stuck-none :
        (c : Client) (x : Client × Option (Result ClientError ClientConnection))
        → c.domain_client ≡ none
        → Stuck x ⊎ Errs c x
        → x.0.domain_client ≡ none
    Stuck-none c x d (inl (r, l, e)) = e
    Stuck-none c x d (inr (e, same)) = ap (λ (k : Client). k.domain_client) same ∙ d

    made_client : Client → Result ClientError Client → Client
    made_client d (ok c) = c
    made_client d (err e) = d

    closed_lem :
        (closing : Result Text (Unit {0})) (c : Client) (b : Bool)
        → c.domain_client ≡ none
        → (if b then (c, none) else close_held closing c c.domain_client).0.domain_client ≡ none
    closed_lem closing c true d = d
    closed_lem closing c false d =
        subst (λ o. (close_held closing c o).0.domain_client ≡ none) (sym d) d

    Reached-none : (c : Client) → Reached c → c.domain_client ≡ none
    unfolding identity_client made_client connect close_client
    Reached-none c (born a td h) = ap (λ r. (made_client c r).domain_client) (sym h)
    Reached-none c (connected {c = k} w with_context name address r) =
        let d = Reached-none k r in
        Stuck-none k _ d (elim (target_lem w k (checked_target net with_context name address) d) [
          | inl (t, x) ↦ inl x
          | inr (e, x) ↦ inr x
        ])
    Reached-none c (closed {c = k} closing r) = closed_lem closing k k.is_locked (Reached-none k r)

    -- Over an identity service in any state that its lookups reach from a new one, whose ID has a
    -- path that is not empty, and for a client that any calls of Connect and Close have led to from
    -- a new one: a Connect with a context, a name that NewServiceName takes and an address that
    -- NewServiceAddress takes never returns, and leaves the client's mutex locked and the client
    -- without a domain client; any other Connect returns an error and leaves the client as it is.
    pub Reached-Stuck :
        (c : Client)
        → Reached c
        → (w : Around) (with_context : Bool) (name address : Text)
        → (IsTaken with_context name address
            → Stuck (connect sdk net (answers_of w) with_context name address c))
          × ((¬ IsTaken with_context name address)
              → Errs c (connect sdk net (answers_of w) with_context name address c))
    unfolding connect
    Reached-Stuck c r w with_context name address =
        let d = Reached-none c r in
        elim (target_lem w c (checked_target net with_context name address) d) [
          | inl ((t, h), x) ↦
              (λ k. x, λ k. absurd (k (checked-IsTaken with_context name address t h)))
          | inr ((e, h), x) ↦ (
            λ k.
                let (t, g) = taken-checked with_context name address k in
                absurd (err_ok t e (sym h ∙ g)),
            λ k. x,
          )
        ]
