-- ===== src/Gateway/Members.antt =====
-- src/factory_agent/data_api/token_gateway.py and src/factory_agent/application/authorization.py: the
-- memberships of the token gateway pass the test of the authorization service.
use factory_agent.Prelude.{
  ℕ, ◌≡◌, refl, sym, ap, ◌∙◌, true, Option, none, some, List, ◌==◌, ==_refl, nat_eq, list_eq,
  pair_eq, get, Text, Result, ok,
}
use factory_agent.Identity.{TenantMembership}
use factory_agent.Authorization.{TrustedCredential, PortError, check_membership}
use factory_agent.Gateway.Exchange.{
  Ports, LiveEntry, identity_key, principal_of, principal_for, fresh_state, membership_of, resolve,
}
use factory_agent.Gateway.Refresh.{Call, run}
use factory_agent.Gateway.Kept.{Owns, run-IsKept, fresh_state-IsKept}

module _ (memberships : TrustedCredential → ℕ → Result PortError TenantMembership)
    (organizations : ℕ → (tenant_id employee_id : Text) → Result PortError (List Text))
    (new_version : ℕ → Text) where
  own_membership :
      (credential : TrustedCredential) (membership : TenantMembership)
      → membership.tenant_id ≡ credential.tenant_id
      → membership.user_id ≡ credential.user_id
      → check_membership memberships organizations new_version credential membership ≡ ok membership
  unfolding check_membership
  own_membership credential membership t u =
      let same_tenant : (membership.tenant_id == credential.tenant_id) ≡ true =
        ap (λ x. x == credential.tenant_id) t ∙ ==_refl credential.tenant_id in
      let same_user : (membership.user_id == credential.user_id) ≡ true =
        ap (λ x. x == credential.user_id) u ∙ ==_refl credential.user_id in
      rw (same_tenant, same_user) refl

  found_membership :
      (credential : TrustedCredential) (o : Option LiveEntry) (membership : TenantMembership)
      → ((entry : LiveEntry) → o ≡ some entry → Owns (identity_key credential) entry)
      → ◌≡◌ {A = Option TenantMembership}
          (elim (principal_of o) [ none ↦ none | some principal ↦ some (membership_of principal) ])
          (some membership)
      → check_membership memberships organizations new_version credential membership ≡ ok membership
  found_membership credential none membership h e = cc
  found_membership credential (some entry) membership h e =
      let same : membership_of entry.principal ≡ membership = cc in
      let key = (h entry refl).0 in
      own_membership credential membership (ap (λ m. m.tenant_id) (sym same) ∙ ap (λ k. k.0) key)
        (ap (λ m. m.user_id) (sym same) ∙ ap (λ k. k.1) key)

  -- After any sequence of calls on a new gateway, a membership that the gateway resolves for a caller
  -- passes the authorization service's test that it is the caller's.
  pub resolve-check_membership :
      (ports : Ports) (calls : List Call) (credential : TrustedCredential)
      (membership : TenantMembership)
      → resolve (run ports calls fresh_state) credential ≡ some membership
      → check_membership memberships organizations new_version credential membership ≡ ok membership
  unfolding resolve principal_for
  resolve-check_membership ports calls credential membership h =
      found_membership credential
        (get (identity_key credential) (run ports calls fresh_state).entries_by_identity) membership
        ((run-IsKept ports calls fresh_state (fresh_state-IsKept ports)).0
          (identity_key credential))
        h
