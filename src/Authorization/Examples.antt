-- ===== src/Authorization/Examples.antt =====
-- application/authorization.py: a group leader with one bound department.
use factory_agent.Prelude.{
  ℕ, ◌≡◌, refl, true, false, none, some, List, [], ◌∷◌, Text, text, Result, ok, err, contains,
  nat_eq, list_eq, ◌==◌,
}
use factory_agent.Identity.{group_leader, owner, role_eq, TenantMembership}
use factory_agent.Authorization.{
  PortError, lookup_error, rejected, not_found, TrustedCredential, ResolvedAuthorization, Calls,
  authorize, is_current, resolve_membership, current_depts,
}
use factory_agent.Authorization.Snapshot.{
  IsBound, authorize-IsBound, authorize-failed, authorize-is_current, is_current-agrees,
}

abbrev credential : TrustedCredential
credential = record { tenant_id = text "t"; user_id = text "u" }

abbrev leader : TenantMembership
leader = record {
  user_id = text "u";
  tenant_id = text "t";
  employee_id = text "e";
  display_name = text "n";
  role = group_leader;
  bound_dept_ids = text "d" ∷ [];
}

abbrev members : TrustedCredential → ℕ → Result PortError TenantMembership
members c at = ok leader

abbrev nobody : TrustedCredential → ℕ → Result PortError TenantMembership
nobody c at = err lookup_error

abbrev directory : ℕ → Text → Text → Result PortError (List Text)
directory at t e = err lookup_error

abbrev version : ℕ → Text
version n = n ∷ []

abbrev before : Calls
before = record { versions_issued = 3; bound_tenant = none }

abbrev after : Calls
after = record { versions_issued = 4; bound_tenant = some (text "t") }

abbrev granted : ResolvedAuthorization
granted = record {
  identity = record { tenant_id = text "t"; user_id = text "u" };
  tenant_context = record {
    tenant_id = text "t";
    user_id = text "u";
    employee_id = text "e";
    role = group_leader;
    resolved_at = 9;
  };
  data_scope = record {
    tenant_id = text "t";
    employee_ids = text "e" ∷ [];
    dept_ids = text "d" ∷ [];
    evaluated_at = 9;
    scope_version = 3 ∷ [];
    mes_filtered = false;
  };
}

authorize-leader : authorize members directory version credential 9 before ≡ (ok granted, after)
unfolding authorize resolve_membership current_depts
authorize-leader = refl

authorize-nobody :
    authorize nobody directory version credential 9 before ≡ (err (rejected not_found), before)
unfolding authorize resolve_membership
authorize-nobody = refl

authorize-IsBound_example : IsBound members directory version credential 9 before granted after
authorize-IsBound_example =
    authorize-IsBound members directory version credential 9 before after granted authorize-leader

authorize-failed_example : before.versions_issued ≡ before.versions_issued
authorize-failed_example =
    authorize-failed nobody directory version credential 9 before before (rejected not_found)
      authorize-nobody

authorize-is_current_example : is_current members directory version granted credential 50 ≡ ok true
authorize-is_current_example =
    authorize-is_current members directory version credential 9 50 before after granted
      authorize-leader refl refl

granted_current : is_current members directory version granted credential 50 ≡ ok true
granted_current =
    authorize-is_current members directory version credential 9 50 before after granted
      authorize-leader refl refl

is_current-agrees_example :
    (m : TenantMembership) × (depts : List Text) × (resolve_membership members directory version
        credential 50
      ≡ ok m)
    × (current_depts members directory version 50 m ≡ ok depts)
    × (text "t" ≡ text "t")
    × (text "u" ≡ text "u")
    × (text "e" ≡ m.employee_id)
    × (group_leader ≡ m.role)
    × (false ≡ (m.role == owner))
    × ((x : Text) → contains (text "e" ∷ []) x ≡ contains (m.employee_id ∷ []) x)
    × ((x : Text) → contains (text "d" ∷ []) x ≡ contains depts x)
is_current-agrees_example =
    is_current-agrees members directory version granted credential 50 granted_current
