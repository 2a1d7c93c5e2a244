-- ===== src/Gateway/Examples.antt =====
-- A manager of two departments logs in twice and is refreshed while the bundle is bound; another
-- answer of the endpoint has one department less.
use factory_agent.Prelude.{
  ℕ, zero, suc, ◌≡◌, refl, Option, none, some, List, [], ◌∷◌, nat_eq, list_eq, pair_eq, get, put,
  set_beq, Text, text, strip, lstrip, Result, ok, err,
}
use factory_agent.Identity.{
  manager, non_empty_id, from_mes_code, role_by_mes_code, TenantMembership,
}
use factory_agent.Authorization.{TrustedCredential, PortError, lookup_error, check_membership}
use factory_agent.Gateway.{
  MesCredentialBundle, effective_bound_depts, needs_refresh, ResolvedPrincipal, dept_ids,
  principal_with, principal_from_bundle, CredentialBundleResponse, split_commas, bound_dept_codes,
  parse_expiry, bundle_from_response, forbidden, pos, valid, envelope, replied, payload_of, body_of,
  received,
}
use factory_agent.Gateway.Exchange.{
  Ports, identity_key, State, fresh_state, principal_for, bundle_for, bind_for, answer, exchanged,
  exchange, remember, admitted, authenticated, fresh_principal, reuse_or_exchange, authenticate,
  resolve, membership_of,
}
use factory_agent.Gateway.Refresh.{
  stored, replaced, refreshed, refresh_entry, refresh_bundle, has_scope_of, adopted, refresh_tenant,
  refresh_with, refresh, Call, authenticates, binds, step, run,
}
use factory_agent.Gateway.Stands.{StandsFor}
use factory_agent.Gateway.Kept.{run-IsOwn}
use factory_agent.Gateway.Scope.{KeepsScope, refresh-KeepsScope}
use factory_agent.Gateway.Members.{resolve-check_membership}

abbrev response : Text → CredentialBundleResponse
response departments = record {
  access_token = text "t";
  expires_in = pos 7200;
  expires_at = [];
  user = text "u7";
  uname = text "Wu";
  dept = text "001";
  appkey = text "factory";
  sign = text "s";
  timestamp = 5;
  roles = text "02" ∷ [];
  bound_depts = [];
  manage_dept = departments;
  permissions = [];
}

-- The first answer has two departments, the later ones what is given.
abbrev departments_at : ℕ → Text → Text
departments_at zero later = text "001, 005"
departments_at (suc n) later = later

abbrev ports : Text → Ports
ports later = record {
  attempt = λ n. none;
  post = λ n c. replied 200 (envelope (pos 1) [] (valid (response (departments_at n later))));
  clock = λ n. n;
  fromisoformat = λ raw. none;
  digest_of = λ c. c;
  refresh_threshold_seconds = 300;
}

abbrev who : TrustedCredential
who = record { tenant_id = text "factory"; user_id = text "u7" }

abbrev calls : List Call
calls = authenticates (text "secret") ∷ authenticates (text "secret") ∷ binds who ∷ []

abbrev after : Text → State
after later = run (ports later) calls fresh_state

abbrev some_principal : Option ResolvedPrincipal → ResolvedPrincipal
some_principal none = record {
  credential = who;
  display_name = [];
  role = manager;
  bound_dept_ids = [];
}
some_principal (some principal) = principal

abbrev no_bundle : MesCredentialBundle
no_bundle = record {
  object = 0;
  access_token = [];
  app_key = [];
  sign = [];
  timestamp = 0;
  expires_at = 0;
  user = [];
  uname = [];
  roles = [];
  permissions = [];
  dept = [];
  bound_depts = [];
}

abbrev some_bundle : Option MesCredentialBundle → MesCredentialBundle
some_bundle none = no_bundle
some_bundle (some bundle) = bundle

-- The second login reuses the entry: one exchange, and the two departments.
two_departments :
    ((after []).attempts ≡ 1)
    × ((some_principal (principal_for who (after []))).bound_dept_ids
        ≡ text "001" ∷ text "005" ∷ [])
unfolding run step authenticate reuse_or_exchange fresh_principal authenticated admitted exchange
    exchanged answer remember received body_of payload_of bundle_from_response parse_expiry
    bound_dept_codes split_commas principal_from_bundle principal_with dept_ids
    effective_bound_depts needs_refresh from_mes_code role_by_mes_code non_empty_id strip lstrip get
    put bind_for principal_for
two_departments = (refl, refl)

run-IsOwn_example :
    (identity_key (some_principal (principal_for who (after []))).credential ≡ identity_key who)
    × (◌≡◌ {A = Text × Text}
        (
          (some_bundle (bundle_for who (after []))).app_key,
          (some_bundle (bundle_for who (after []))).user,
        )
        (identity_key who))
    × StandsFor
        (some_bundle (bundle_for who (after [])))
        (some_principal (principal_for who (after [])))
unfolding run step authenticate reuse_or_exchange fresh_principal authenticated admitted exchange
    exchanged answer remember received body_of payload_of bundle_from_response parse_expiry
    bound_dept_codes split_commas principal_from_bundle principal_with dept_ids
    effective_bound_depts needs_refresh from_mes_code role_by_mes_code non_empty_id strip lstrip get
    put bind_for principal_for bundle_for
run-IsOwn_example =
    run-IsOwn (ports []) calls who (some_principal (principal_for who (after [])))
      (some_bundle (bundle_for who (after []))) refl refl

-- The refresh that has lost a department is refused.
narrowed : (refresh (ports (text "001")) (after (text "001"))).1 ≡ err forbidden
unfolding run step authenticate reuse_or_exchange fresh_principal authenticated admitted exchange
    exchanged answer remember received body_of payload_of bundle_from_response parse_expiry
    bound_dept_codes split_commas principal_from_bundle principal_with dept_ids
    effective_bound_depts needs_refresh from_mes_code role_by_mes_code non_empty_id strip lstrip get
    put bind_for refresh refresh_with refresh_tenant refresh_bundle refresh_entry refreshed replaced
    stored adopted has_scope_of set_beq
narrowed = refl

refresh-KeepsScope_example :
    KeepsScope
      (after (text "005,001")).current
      (refresh (ports (text "005,001")) (after (text "005,001")))
refresh-KeepsScope_example = refresh-KeepsScope (ports (text "005,001")) (after (text "005,001"))

abbrev no_memberships : TrustedCredential → ℕ → Result PortError TenantMembership
no_memberships credential as_of = err lookup_error

abbrev no_organizations : ℕ → (tenant_id employee_id : Text) → Result PortError (List Text)
no_organizations at tenant_id employee_id = err lookup_error

abbrev the_membership : TenantMembership
the_membership = membership_of (some_principal (principal_for who (after [])))

resolve-check_membership_example :
    check_membership no_memberships no_organizations (λ n. text "v") who the_membership
    ≡ ok the_membership
unfolding run step authenticate reuse_or_exchange fresh_principal authenticated admitted exchange
    exchanged answer remember received body_of payload_of bundle_from_response parse_expiry
    bound_dept_codes split_commas principal_from_bundle principal_with dept_ids
    effective_bound_depts needs_refresh from_mes_code role_by_mes_code non_empty_id strip lstrip get
    put bind_for principal_for resolve
resolve-check_membership_example =
    resolve-check_membership no_memberships no_organizations (λ n. text "v") (ports []) calls who
      the_membership refl
