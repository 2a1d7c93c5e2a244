-- ===== src/Gateway/Scope.antt =====
-- src/factory_agent/data_api/token_gateway.py: `GatewayTokenRefresher.refresh` does not change what the
-- interaction may see.
use factory_agent.Prelude.{
  ◌≡◌, refl, sym, ap, subst, ◌∙◌, inl, inr, Bool, true, false, not, ◌||◌, Option, none, some,
  if◌then◌else◌, ◌==◌, nat_eq, list_eq, list_beq_iff, pair_eq, pair_beq_iff, ==_refl, set_beq, get,
  get-put, Text, Result, ok, err, Bool-cases,
}
use factory_agent.Identity.{non_empty_id}
use factory_agent.Gateway.{
  MesCredentialBundle, effective_bound_depts, ResolvedPrincipal, principal_from_bundle,
  GatewayError, forbidden, CredentialBundleResponse,
}
use factory_agent.Gateway.Exchange.{
  Ports, LiveEntry, Key, identity_key, State, bundle_of, remember, answer, exchanged, exchange,
}
use factory_agent.Gateway.Refresh.{
  stored, replaced, refreshed, refresh_entry, refresh_bundle, has_scope_of, adopted, refresh_tenant,
  refresh_with, refresh,
}
use factory_agent.Gateway.Stands.{StandsFor-credential, non_empty_id-some}

-- Whom a bundle names.
abbrev pub caller : MesCredentialBundle → Key
caller bundle = (bundle.app_key, bundle.user)

-- The two bundles name one caller, and the same roles, department and set of bound departments.
abbrev pub SameScope : MesCredentialBundle → MesCredentialBundle → Type 0
SameScope new old =
    (caller new ≡ caller old)
    × (new.roles ≡ old.roles)
    × (new.dept ≡ old.dept)
    × (set_beq (effective_bound_depts new) (effective_bound_depts old) ≡ true)

has_scope_of-SameScope :
    (new old : MesCredentialBundle)
    → caller new ≡ caller old
    → has_scope_of new old ≡ true
    → SameScope new old
unfolding has_scope_of
has_scope_of-SameScope new old caller h =
    let (roles, dept, bound) =
      all_three (new.roles == old.roles) (new.dept == old.dept)
        (set_beq (effective_bound_depts new) (effective_bound_depts old)) h in
    (
      caller,
      (list_beq_iff new.roles old.roles).0 roles,
      (list_beq_iff new.dept old.dept).0 dept,
      bound,
    )
  where
    all_three :
        (a b c : Bool)
        → not (not a || (not b || not c)) ≡ true
        → (a ≡ true) × (b ≡ true) × (c ≡ true)
    all_three true true true e = (refl, refl, refl)
    all_three true true false e = cc
    all_three true false c e = cc
    all_three false b c e = cc

-- What `refresh_bundle` gives names the caller of the key, for whom it is kept, and an error leaves
-- what is bound.
abbrev Names :
    Key → Option MesCredentialBundle → State × Result GatewayError MesCredentialBundle → Type 0
Names key current (s, err raised) = s.current ≡ current
Names key current (s, ok bundle) =
    (caller bundle ≡ key) × (bundle_of (get key s.entries_by_identity) ≡ some bundle)

-- The outcomes of `refresh`: an error leaves the bundle that is bound; a bundle becomes the bound
-- one, has the scope of the one before, and is what is kept for its caller.
abbrev pub KeepsScope :
    Option MesCredentialBundle → State × Result GatewayError MesCredentialBundle → Type 0
KeepsScope old (s, err raised) = s.current ≡ old
KeepsScope none (s, ok new) = ⊥
KeepsScope (some old) (s, ok new) =
    (s.current ≡ some new)
    × SameScope new old
    × (bundle_of (get (caller new) s.entries_by_identity) ≡ some new)

module _ (ports : Ports) where
  -- A bundle that is stored is kept under its key.
  stored-entry :
      (key : Key) (entry : LiveEntry) (bundle : MesCredentialBundle) (principal : ResolvedPrincipal)
      (s : State)
      → bundle_of (get key (stored ports key entry bundle principal s).0.entries_by_identity)
        ≡ some bundle
  unfolding stored remember
  stored-entry key entry bundle principal s =
      let entry' = record entry {
        principal = principal;
        bundle = bundle;
        exchanged_at = ports.clock s.readings;
      } in
      rw (get-put key key entry' s.entries_by_identity, ==_refl key) refl

  replaced-Names :
      (key : Key) (entry : LiveEntry) (bundle : MesCredentialBundle) (s : State)
      (r : Result GatewayError ResolvedPrincipal)
      → principal_from_bundle bundle ≡ r
      → Names key s.current (replaced ports key entry bundle s r)
  unfolding replaced stored
  replaced-Names key entry bundle s (err raised) e = refl
  replaced-Names key entry bundle s (ok principal) e =
      go (identity_key principal.credential == key) refl
    where
      go :
          (b : Bool)
          → (identity_key principal.credential == key) ≡ b
          → Names key s.current
              (if not b then (s, err forbidden) else stored ports key entry bundle principal s)
      go true same = (
        sym (StandsFor-credential bundle principal e)
            ∙ (pair_beq_iff (identity_key principal.credential) key).0 same,
        stored-entry key entry bundle principal s,
      )
      go false other = refl

  refreshed-Names :
      (key : Key) (entry : LiveEntry) (current : Option MesCredentialBundle)
      (x : State × Result GatewayError MesCredentialBundle)
      → x.0.current ≡ current
      → Names key current (refreshed ports key entry x)
  unfolding refreshed
  refreshed-Names key entry current (s, err raised) h = h
  refreshed-Names key entry current (s, ok bundle) h =
      subst (λ c. Names key c (replaced ports key entry bundle s (principal_from_bundle bundle))) h
        (replaced-Names key entry bundle s (principal_from_bundle bundle) refl)

  exchanged-current :
      (s : State) (r : Result GatewayError CredentialBundleResponse)
      → (exchanged ports s r).0.current ≡ s.current
  unfolding exchanged
  exchanged-current s (err raised) = refl
  exchanged-current s (ok result) = refl

  refresh_entry-Names :
      (key : Key) (s : State) (o : Option LiveEntry)
      → Names key s.current (refresh_entry ports key s o)
  unfolding refresh_entry exchange
  refresh_entry-Names key s none = refl
  refresh_entry-Names key s (some entry) =
      refreshed-Names key entry s.current (exchange ports s entry.encrypted_credential)
        (exchanged-current s (answer ports s.attempts entry.encrypted_credential))

  adopted-KeepsScope :
      (bundle : MesCredentialBundle) (x : State × Result GatewayError MesCredentialBundle)
      → Names (caller bundle) (some bundle) x
      → KeepsScope (some bundle) (adopted bundle x)
  unfolding adopted
  adopted-KeepsScope bundle (s, err raised) h = h
  adopted-KeepsScope bundle (s, ok new) h = elim (Bool-cases (has_scope_of new bundle)) [
    | inl same ↦ rw same (
      refl,
      has_scope_of-SameScope new bundle h.0 same,
      ap bundle_of (ap (λ k. get k s.entries_by_identity) h.0) ∙ h.1,
    )
    | inr other ↦ rw other refl
  ]

  refresh_tenant-KeepsScope :
      (bundle : MesCredentialBundle) (s : State) (o : Option Text)
      → s.current ≡ some bundle
      → non_empty_id bundle.app_key ≡ o
      → KeepsScope (some bundle) (refresh_tenant ports bundle s o)
  unfolding refresh_tenant refresh_bundle
  refresh_tenant-KeepsScope bundle s none h e = h
  refresh_tenant-KeepsScope bundle s (some tenant_id) h e =
      let same : ◌≡◌ {A = Key} (tenant_id, bundle.user) (caller bundle) =
        ap (λ t. (t, bundle.user)) (sym (non_empty_id-some bundle.app_key tenant_id e)) in
      adopted-KeepsScope bundle (refresh_bundle ports s tenant_id bundle.user) (
        subst (λ k. Names k (some bundle) (refresh_bundle ports s tenant_id bundle.user)) same
          (subst
            (λ c. Names (tenant_id, bundle.user) c (refresh_bundle ports s tenant_id bundle.user)) h
            (refresh_entry-Names (tenant_id, bundle.user) s
              (get (tenant_id, bundle.user) s.entries_by_identity))))

  refresh_with-KeepsScope :
      (o : Option MesCredentialBundle) (s : State)
      → s.current ≡ o
      → KeepsScope o (refresh_with ports o s)
  unfolding refresh_with
  refresh_with-KeepsScope none s h = h
  refresh_with-KeepsScope (some bundle) s h =
      refresh_tenant-KeepsScope bundle s (non_empty_id bundle.app_key) h refl

-- A refresh of the bound bundle either raises, and then the same bundle stays bound; or it answers
-- with a bundle that is bound from then on, that names the same tenant and user, the same roles and
-- department and the same set of bound departments, and that is from then on the bundle kept for
-- that tenant and user.
pub refresh-KeepsScope : (ports : Ports) (s : State) → KeepsScope s.current (refresh ports s)
unfolding refresh
refresh-KeepsScope ports s = refresh_with-KeepsScope ports s.current s refl
