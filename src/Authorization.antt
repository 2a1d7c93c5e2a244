-- ===== src/Authorization.antt =====
-- src/factory_agent/application/authorization.py: `AuthorizationService`. The membership source,
-- the organization source and the version assigner are ports: a source answers or raises, and the
-- assigner's n-th call returns its n-th version. The organization source is not told the instant, but
-- what it answers may change with it. The state is what the calls leave behind: how many
-- versions were issued, and the tenant bound to the log context.
pub mod Snapshot
mod Examples
use factory_agent.Prelude.{
  ℕ, zero, suc, ◌+◌, Bool, true, false, not, ◌&&◌, ◌||◌, Option, none, some, List, [], ◌∷◌,
  if◌then◌else◌, ◌==◌, nat_eq, list_eq, contains, set_beq, is_empty, Text, Result, ok, err, ◌>>=◌,
}
use factory_agent.Identity.{
  Role, owner, role_eq, TenantMembership, Identity, TenantContext, DataScope,
}

pub data IdentityErrorCode : Type 0 where
  unauthenticated not_found forbidden invalid_request internal_error : IdentityErrorCode

-- What a port raises: the two classes that the service catches, and any other.
pub data PortError : Type 0 where
  lookup_error runtime_error other_error : PortError

-- What the service raises: its own rejection, or an exception of a port that it does not catch.
pub data AuthorizationError : Type 0 where
  rejected : IdentityErrorCode → AuthorizationError
  propagated : PortError → AuthorizationError

pub record TrustedCredential : Type 0 where
  pub tenant_id : Text
  pub user_id : Text

pub record ResolvedAuthorization : Type 0 where
  pub identity : Identity
  pub tenant_context : TenantContext
  pub data_scope : DataScope

pub record Calls : Type 0 where
  pub versions_issued : ℕ
  pub bound_tenant : Option Text

-- The `except` clauses around `resolve`.
unfoldable pub membership_failed : PortError → AuthorizationError
membership_failed lookup_error = rejected not_found
membership_failed runtime_error = rejected internal_error
membership_failed other_error = propagated other_error

-- The `except` clause around `list_current_depts`.
unfoldable pub depts_failed : PortError → AuthorizationError
depts_failed lookup_error = rejected not_found
depts_failed runtime_error = propagated runtime_error
depts_failed other_error = propagated other_error

abbrev pub caught {ℓ} : {A : Type ℓ} {E F : Type ℓ} → (E → F) → Result E A → Result F A
caught handler (ok a) = ok a
caught handler (err e) = err (handler e)

-- `==` on Booleans.
abbrev pub bool_beq : Bool → Bool → Bool
bool_beq true b = b
bool_beq false b = not b

module _ (memberships : TrustedCredential → ℕ → Result PortError TenantMembership)
    (organizations : ℕ → (tenant_id employee_id : Text) → Result PortError (List Text))
    (new_version : ℕ → Text) where
  -- The test behind `resolve`.
  unfoldable pub check_membership :
      TrustedCredential → TenantMembership → Result AuthorizationError TenantMembership
  check_membership credential m =
      if not (m.tenant_id == credential.tenant_id) || not (m.user_id == credential.user_id)
      then err (rejected forbidden)
      else ok m

  unfoldable pub resolve_membership :
      TrustedCredential → ℕ → Result AuthorizationError TenantMembership
  unfolding membership_failed check_membership
  resolve_membership credential as_of = do
    m ← caught membership_failed (memberships credential as_of)
    check_membership credential m

  unfoldable pub current_depts : ℕ → TenantMembership → Result AuthorizationError (List Text)
  unfolding depts_failed
  current_depts as_of m =
      if is_empty m.bound_dept_ids
      then caught depts_failed (organizations as_of m.tenant_id m.employee_id)
      else ok m.bound_dept_ids

  -- The three values that `authorize` builds.
  unfoldable pub authorization : TenantMembership → List Text → Text → ℕ → ResolvedAuthorization
  authorization m depts version as_of = record {
    identity = record { tenant_id = m.tenant_id; user_id = m.user_id };
    tenant_context = record {
      tenant_id = m.tenant_id;
      user_id = m.user_id;
      employee_id = m.employee_id;
      role = m.role;
      resolved_at = as_of;
    };
    data_scope = record {
      tenant_id = m.tenant_id;
      employee_ids = m.employee_id ∷ [];
      dept_ids = depts;
      evaluated_at = as_of;
      scope_version = version;
      mes_filtered = m.role == owner;
    };
  }

  -- The part of `authorize` behind the departments.
  unfoldable pub finish :
      TenantMembership
      → ℕ
      → Calls
      → Result AuthorizationError (List Text)
      → Result AuthorizationError ResolvedAuthorization × Calls
  unfolding authorization
  finish m as_of calls (err e) = (err e, calls)
  finish m as_of calls (ok depts) = (
    ok (authorization m depts (new_version calls.versions_issued) as_of),
    record calls { versions_issued = calls.versions_issued + 1 },
  )

  unfoldable pub proceed :
      ℕ
      → Calls
      → Result AuthorizationError TenantMembership
      → Result AuthorizationError ResolvedAuthorization × Calls
  unfolding finish
  proceed as_of calls (err e) = (err e, calls)
  proceed as_of calls (ok m) =
      finish m as_of (record calls { bound_tenant = some m.tenant_id }) (current_depts as_of m)

  unfoldable pub authorize :
      TrustedCredential → ℕ → Calls → Result AuthorizationError ResolvedAuthorization × Calls
  unfolding proceed
  authorize credential as_of calls = proceed as_of calls (resolve_membership credential as_of)

  unfoldable pub matches : ResolvedAuthorization → TenantMembership → List Text → Bool
  matches a m depts =
      m.tenant_id == a.tenant_context.tenant_id
      && m.user_id == a.tenant_context.user_id
      && m.employee_id == a.tenant_context.employee_id
      && m.role == a.tenant_context.role
      && set_beq a.data_scope.employee_ids (m.employee_id ∷ [])
      && set_beq a.data_scope.dept_ids depts
      && bool_beq a.data_scope.mes_filtered (m.role == owner)

  unfoldable pub is_current :
      ResolvedAuthorization → TrustedCredential → ℕ → Result AuthorizationError Bool
  unfolding matches resolve_membership current_depts
  is_current a credential as_of = do
    m ← resolve_membership credential as_of
    depts ← current_depts as_of m
    ok (matches a m depts)
