-- ===== src/Gateway/Refresh.antt =====
-- src/factory_agent/data_api/token_gateway.py: `refresh_bundle`, `GatewayTokenRefresher`, and sequences
-- of calls.
use factory_agent.Prelude.{
  ◌+◌, Bool, not, ◌||◌, Option, none, some, List, [], ◌∷◌, if◌then◌else◌, ◌==◌, nat_eq, list_eq,
  pair_eq, set_beq, get, Text, Result, ok, err,
}
use factory_agent.Identity.{non_empty_id}
use factory_agent.Authorization.{TrustedCredential}
use factory_agent.Gateway.{
  MesCredentialBundle, effective_bound_depts, ResolvedPrincipal, principal_from_bundle,
  GatewayError, unauthenticated, forbidden, value_error,
}
use factory_agent.Gateway.Exchange.{
  LiveEntry, Key, identity_key, State, is_current, bind_for, unbind, Ports, exchange, remember,
  authenticate,
}

-- The scope of the refreshed bundle is the scope of the bundle that was bound.
unfoldable pub has_scope_of : MesCredentialBundle → MesCredentialBundle → Bool
unfolding effective_bound_depts set_beq
has_scope_of refreshed bundle = not (
    not (refreshed.roles == bundle.roles)
    || (not (refreshed.dept == bundle.dept)
        || not (set_beq (effective_bound_depts refreshed) (effective_bound_depts bundle))))

-- `refresh` of the refresher behind `refresh_bundle`.
unfoldable pub adopted :
    MesCredentialBundle
    → State × Result GatewayError MesCredentialBundle
    → State × Result GatewayError MesCredentialBundle
unfolding has_scope_of
adopted bundle (s, err raised) = (s, err raised)
adopted bundle (s, ok refreshed) =
    if has_scope_of refreshed bundle
    then (record s { current = some refreshed }, ok refreshed)
    else (record s { current = some bundle }, err forbidden)

-- One call of the gateway, whatever it gives back.
pub data Call : Type 0 where
  authenticates : (encrypted_credential : Text) → Call
  refreshes_bundle : (tenant_id user_id : Text) → Call
  refreshes : Call
  binds : TrustedCredential → Call
  unbinds : Option MesCredentialBundle → Call

abbrev pub bound_state : State → Result GatewayError (State × Option MesCredentialBundle) → State
bound_state s (err raised) = s
bound_state s (ok (s', token)) = s'

module _ (ports : Ports) where
  -- The end of `refresh_bundle`.
  unfoldable pub stored :
      Key
      → LiveEntry
      → MesCredentialBundle
      → ResolvedPrincipal
      → State
      → State × Result GatewayError MesCredentialBundle
  unfolding remember
  stored key entry bundle principal s =
      let kept =
        remember ports key
          (record entry {
            principal = principal;
            bundle = bundle;
            exchanged_at = ports.clock s.readings;
          })
          (record s { readings = s.readings + 1 }) in
      (
        record kept {
          current = if is_current s.current entry.bundle then some bundle else s.current;
        },
        ok bundle,
      )

  -- `refresh_bundle` behind `_principal_from_bundle`.
  unfoldable pub replaced :
      Key
      → LiveEntry
      → MesCredentialBundle
      → State
      → Result GatewayError ResolvedPrincipal
      → State × Result GatewayError MesCredentialBundle
  unfolding stored
  replaced key entry bundle s (err raised) = (s, err raised)
  replaced key entry bundle s (ok principal) =
      if not (identity_key principal.credential == key)
      then (s, err forbidden)
      else stored key entry bundle principal s

  -- `refresh_bundle` behind `_exchange`.
  unfoldable pub refreshed :
      Key
      → LiveEntry
      → State × Result GatewayError MesCredentialBundle
      → State × Result GatewayError MesCredentialBundle
  unfolding principal_from_bundle replaced
  refreshed key entry (s, err raised) = (s, err raised)
  refreshed key entry (s, ok bundle) = replaced key entry bundle s (principal_from_bundle bundle)

  unfoldable pub refresh_entry :
      Key → State → Option LiveEntry → State × Result GatewayError MesCredentialBundle
  unfolding exchange refreshed
  refresh_entry key s none = (s, err unauthenticated)
  refresh_entry key s (some entry) =
      refreshed key entry (exchange ports s entry.encrypted_credential)

  unfoldable pub refresh_bundle :
      State → (tenant_id user_id : Text) → State × Result GatewayError MesCredentialBundle
  unfolding refresh_entry get
  refresh_bundle s tenant_id user_id =
      refresh_entry (tenant_id, user_id) s (get (tenant_id, user_id) s.entries_by_identity)

  unfoldable pub refresh_tenant :
      MesCredentialBundle → State → Option Text → State × Result GatewayError MesCredentialBundle
  unfolding refresh_bundle adopted
  refresh_tenant bundle s none = (s, err value_error)
  refresh_tenant bundle s (some tenant_id) = adopted bundle (refresh_bundle s tenant_id bundle.user)

  unfoldable pub refresh_with :
      Option MesCredentialBundle → State → State × Result GatewayError MesCredentialBundle
  unfolding refresh_tenant non_empty_id
  refresh_with none s = (s, err unauthenticated)
  refresh_with (some bundle) s = refresh_tenant bundle s (non_empty_id bundle.app_key)

  -- `GatewayTokenRefresher.refresh`; the tenant of a bundle has to be an identifier.
  unfoldable pub refresh : State → State × Result GatewayError MesCredentialBundle
  unfolding refresh_with
  refresh s = refresh_with s.current s

  unfoldable pub step : Call → State → State
  unfolding authenticate refresh_bundle refresh bind_for
  step (authenticates encrypted_credential) s = (authenticate ports s encrypted_credential).0
  step (refreshes_bundle tenant_id user_id) s = (refresh_bundle s tenant_id user_id).0
  step refreshes s = (refresh s).0
  step (binds credential) s = bound_state s (bind_for credential s)
  step (unbinds token) s = unbind token s

  unfoldable pub run : List Call → State → State
  unfolding step
  run [] s = s
  run (call ∷ calls) s = run calls (step call s)
