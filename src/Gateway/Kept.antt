-- ===== src/Gateway/Kept.antt =====
-- src/factory_agent/data_api/token_gateway.py: what the two dicts hold after any sequence of calls.
use factory_agent.Prelude.{
  ℕ, ◌+◌, ◌≡◌, refl, sym, subst, ◌∙◌, inl, inr, Option, none, some, List, [], ◌∷◌, ◌==◌, nat_eq,
  list_eq, pair_eq, pair_beq_iff, is_empty, get, get-put-eq-some, Text, strip, Result, ok, err,
  Bool-cases,
}
use factory_agent.Identity.{non_empty_id}
use factory_agent.Authorization.{TrustedCredential}
use factory_agent.Gateway.{
  MesCredentialBundle, ResolvedPrincipal, principal_from_bundle, GatewayError, unauthenticated,
  CredentialBundleResponse,
}
use factory_agent.Gateway.Stands.{StandsFor, StandsFor-credential}
use factory_agent.Gateway.Exchange.{
  Ports, LiveEntry, Key, identity_key, State, fresh_state, principal_of, bundle_of, principal_for,
  bundle_for, bind_for, answer, exchange, remember, admitted, fresh_principal, authenticate,
  exchanged, authenticated, reuse_or_exchange,
}
use factory_agent.Gateway.Refresh.{
  stored, refreshed, refresh_entry, refresh_tenant, replaced, refresh_bundle, has_scope_of, adopted,
  refresh_with, refresh, Call, authenticates, refreshes_bundle, refreshes, binds, unbinds,
  bound_state, step, run,
}

-- An entry belongs to the caller under whose key it is kept.
abbrev pub Owns : Key → LiveEntry → Type 0
Owns key entry =
    (identity_key entry.principal.credential ≡ key) × StandsFor entry.bundle entry.principal

module _ (ports : Ports) where
  -- An entry was exchanged for a credential of the digest under which it is kept.
  abbrev pub IsOf : Text → LiveEntry → Type 0
  IsOf digest entry =
      (ports.digest_of entry.encrypted_credential ≡ digest) × StandsFor entry.bundle entry.principal

  abbrev pub IsKept : State → Type 0
  IsKept s =
      ((key : Key) (entry : LiveEntry)
        → get key s.entries_by_identity ≡ some entry
        → Owns key entry)
      × ((digest : Text) (entry : LiveEntry)
          → get digest s.entries_by_digest ≡ some entry
          → IsOf digest entry)

  remember-IsKept :
      (key : Key) (entry : LiveEntry) (s : State)
      → Owns key entry
      → IsKept s
      → IsKept (remember ports key entry s)
  unfolding remember
  remember-IsKept key entry s h (hi, hd) = (
    get-put-eq-some Owns key entry s.entries_by_identity h hi,
    get-put-eq-some IsOf (ports.digest_of entry.encrypted_credential) entry s.entries_by_digest
        (refl, h.1) hd,
  )

  exchanged-IsKept :
      (s : State) (r : Result GatewayError CredentialBundleResponse)
      → IsKept s
      → IsKept (exchanged ports s r).0
  unfolding exchanged
  exchanged-IsKept s (err raised) h = h
  exchanged-IsKept s (ok result) h = h

  exchange-IsKept :
      (s : State) (encrypted_credential : Text)
      → IsKept s
      → IsKept (exchange ports s encrypted_credential).0
  unfolding exchange
  exchange-IsKept s encrypted_credential h =
      exchanged-IsKept s (answer ports s.attempts encrypted_credential) h

  admitted-IsKept :
      (encrypted_credential : Text) (now : ℕ) (bundle : MesCredentialBundle) (s : State)
      (r : Result GatewayError ResolvedPrincipal)
      → principal_from_bundle bundle ≡ r
      → IsKept s
      → IsKept (admitted ports encrypted_credential now bundle s r).0
  unfolding admitted
  admitted-IsKept encrypted_credential now bundle s (err raised) e h = h
  admitted-IsKept encrypted_credential now bundle s (ok principal) e h =
      remember-IsKept _ _ s (refl, e) h

  authenticated-IsKept :
      (encrypted_credential : Text) (now : ℕ) (x : State × Result GatewayError MesCredentialBundle)
      → IsKept x.0
      → IsKept (authenticated ports encrypted_credential now x).0
  unfolding authenticated
  authenticated-IsKept encrypted_credential now (s, err raised) h = h
  authenticated-IsKept encrypted_credential now (s, ok bundle) h =
      admitted-IsKept encrypted_credential now bundle s _ refl h

  reuse-IsKept :
      (encrypted_credential : Text) (now : ℕ) (s : State) (o : Option ResolvedPrincipal)
      → IsKept s
      → IsKept (reuse_or_exchange ports encrypted_credential now s o).0
  unfolding reuse_or_exchange
  reuse-IsKept encrypted_credential now s (some principal) h = h
  reuse-IsKept encrypted_credential now s none h =
      authenticated-IsKept encrypted_credential now (exchange ports s encrypted_credential)
        (exchange-IsKept s encrypted_credential h)

  authenticate-IsKept :
      (s : State) (encrypted_credential : Text)
      → IsKept s
      → IsKept (authenticate ports s encrypted_credential).0
  unfolding authenticate
  authenticate-IsKept s encrypted_credential h =
      elim (Bool-cases (is_empty (strip encrypted_credential))) [
        | inl blank ↦ rw blank h
        | inr given ↦ rw given (
            reuse-IsKept encrypted_credential (ports.clock s.readings) _
              (fresh_principal ports
                (get (ports.digest_of encrypted_credential) s.entries_by_digest)
                (ports.clock s.readings))
              h)
      ]

  replaced-IsKept :
      (key : Key) (entry : LiveEntry) (bundle : MesCredentialBundle) (s : State)
      (r : Result GatewayError ResolvedPrincipal)
      → principal_from_bundle bundle ≡ r
      → IsKept s
      → IsKept (replaced ports key entry bundle s r).0
  unfolding replaced stored
  replaced-IsKept key entry bundle s (err raised) e h = h
  replaced-IsKept key entry bundle s (ok principal) e h =
      elim (Bool-cases (identity_key principal.credential == key)) [
        | inl same ↦ rw same (
            remember-IsKept key _ (record s { readings = s.readings + 1 })
              ((pair_beq_iff (identity_key principal.credential) key).0 same, e) h)
        | inr other ↦ rw other h
      ]

  refreshed-IsKept :
      (key : Key) (entry : LiveEntry) (x : State × Result GatewayError MesCredentialBundle)
      → IsKept x.0
      → IsKept (refreshed ports key entry x).0
  unfolding refreshed
  refreshed-IsKept key entry (s, err raised) h = h
  refreshed-IsKept key entry (s, ok bundle) h = replaced-IsKept key entry bundle s _ refl h

  refresh_entry-IsKept :
      (key : Key) (s : State) (o : Option LiveEntry)
      → IsKept s
      → IsKept (refresh_entry ports key s o).0
  unfolding refresh_entry
  refresh_entry-IsKept key s none h = h
  refresh_entry-IsKept key s (some entry) h =
      refreshed-IsKept key entry (exchange ports s entry.encrypted_credential)
        (exchange-IsKept s entry.encrypted_credential h)

  refresh_bundle-IsKept :
      (s : State) (tenant_id user_id : Text)
      → IsKept s
      → IsKept (refresh_bundle ports s tenant_id user_id).0
  unfolding refresh_bundle
  refresh_bundle-IsKept s tenant_id user_id h =
      refresh_entry-IsKept (tenant_id, user_id) s (get (tenant_id, user_id) s.entries_by_identity) h

  adopted-IsKept :
      (bundle : MesCredentialBundle) (x : State × Result GatewayError MesCredentialBundle)
      → IsKept x.0
      → IsKept (adopted bundle x).0
  unfolding adopted
  adopted-IsKept bundle (s, err raised) h = h
  adopted-IsKept bundle (s, ok refreshed) h = elim (Bool-cases (has_scope_of refreshed bundle)) [
    | inl same ↦ rw same h
    | inr other ↦ rw other h
  ]

  refresh_tenant-IsKept :
      (bundle : MesCredentialBundle) (s : State) (o : Option Text)
      → IsKept s
      → IsKept (refresh_tenant ports bundle s o).0
  unfolding refresh_tenant
  refresh_tenant-IsKept bundle s none h = h
  refresh_tenant-IsKept bundle s (some tenant_id) h =
      adopted-IsKept bundle (refresh_bundle ports s tenant_id bundle.user)
        (refresh_bundle-IsKept s tenant_id bundle.user h)

  refresh_with-IsKept :
      (o : Option MesCredentialBundle) (s : State) → IsKept s → IsKept (refresh_with ports o s).0
  unfolding refresh_with
  refresh_with-IsKept none s h = h
  refresh_with-IsKept (some bundle) s h =
      refresh_tenant-IsKept bundle s (non_empty_id bundle.app_key) h

  bound_state-IsKept :
      (credential : TrustedCredential) (s : State)
      → IsKept s
      → IsKept (bound_state s (bind_for credential s))
  unfolding bind_for
  bound_state-IsKept credential s h = go (get (identity_key credential) s.entries_by_identity)
    where
      go :
          (o : Option LiveEntry)
          → IsKept (
              bound_state s (elim o [
                | none ↦ err unauthenticated
                | some entry ↦ ok (record s { current = some entry.bundle }, s.current)
              ]))
      go none = h
      go (some entry) = h

  step-IsKept : (call : Call) (s : State) → IsKept s → IsKept (step ports call s)
  unfolding step refresh
  step-IsKept (authenticates encrypted_credential) s h =
      authenticate-IsKept s encrypted_credential h
  step-IsKept (refreshes_bundle tenant_id user_id) s h = refresh_bundle-IsKept s tenant_id user_id h
  step-IsKept refreshes s h = refresh_with-IsKept s.current s h
  step-IsKept (binds credential) s h = bound_state-IsKept credential s h
  step-IsKept (unbinds token) s h = h

  pub run-IsKept : (calls : List Call) (s : State) → IsKept s → IsKept (run ports calls s)
  unfolding run
  run-IsKept [] s h = h
  run-IsKept (call ∷ calls) s h = run-IsKept calls (step ports call s) (step-IsKept call s h)

  pub fresh_state-IsKept : IsKept fresh_state
  unfolding get
  fresh_state-IsKept = (λ key entry h. cc, λ digest entry h. cc)

  kept_entry :
      (key : Key) (o : Option LiveEntry) (principal : ResolvedPrincipal)
      (bundle : MesCredentialBundle)
      → ((entry : LiveEntry) → o ≡ some entry → Owns key entry)
      → principal_of o ≡ some principal
      → bundle_of o ≡ some bundle
      → (identity_key principal.credential ≡ key)
        × ((bundle.app_key, bundle.user) ≡ key)
        × StandsFor bundle principal
  kept_entry key none principal bundle h p b = cc
  kept_entry key (some entry) principal bundle h p b =
      let (mine, stands) = h entry refl in
      let same_principal : entry.principal ≡ principal = cc in
      let same_bundle : entry.bundle ≡ bundle = cc in
      let stands' : StandsFor bundle principal =
        subst (λ x. StandsFor x principal) same_bundle
          (subst (StandsFor entry.bundle) same_principal stands) in
      let mine' : identity_key principal.credential ≡ key =
        subst (λ x. identity_key x.credential ≡ key) same_principal mine in
      (mine', sym (StandsFor-credential bundle principal stands') ∙ mine', stands')

  -- After any sequence of calls on a new gateway, the principal and the bundle that are found for a
  -- caller are the caller's own: both name the caller's tenant and user, and the principal, with its
  -- role and its departments, is the one that the bundle stands for.
  pub run-IsOwn :
      (calls : List Call) (credential : TrustedCredential) (principal : ResolvedPrincipal)
      (bundle : MesCredentialBundle)
      → principal_for credential (run ports calls fresh_state) ≡ some principal
      → bundle_for credential (run ports calls fresh_state) ≡ some bundle
      → (identity_key principal.credential ≡ identity_key credential)
        × ((bundle.app_key, bundle.user) ≡ identity_key credential)
        × StandsFor bundle principal
  unfolding principal_for bundle_for
  run-IsOwn calls credential principal bundle p b =
      kept_entry (identity_key credential)
        (get (identity_key credential) (run ports calls fresh_state).entries_by_identity) principal
        bundle ((run-IsKept calls fresh_state fresh_state-IsKept).0 (identity_key credential)) p b
