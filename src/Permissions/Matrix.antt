-- ===== src/Permissions/Matrix.antt =====
-- application/permission_matrix.py: who may use what, and what a refusal tells.
use factory_agent.Prelude.{
  ◌≡◌, refl, ap, ◌∙◌, true, false, ◌&&◌, map, ◌==◌, nat_eq, list_eq, contains, sorted,
  contains-sorted, Bool-cases, inl, inr, [], leb, not,
}
use factory_agent.Identity.{
  Role, role_index, employee, group_leader, manager, owner, role_eq, TenantContext, DataScope,
}
use factory_agent.Permissions.{
  Capability, own_output, own_payroll_summary, own_payroll_detail, factory_order_overview,
  factory_payroll_stats, factory_output_dashboard, value, capability_roles, capabilities_for_role,
  deny, is_registered, authorize_capability,
}

is_registered_all : (c : Capability) → is_registered c ≡ true
unfolding is_registered
is_registered_all own_output = refl
is_registered_all _ = refl

-- The narrowest role that may use a capability.
abbrev pub needed : Capability → Role
needed own_output = employee
needed own_payroll_summary = employee
needed own_payroll_detail = employee
needed factory_order_overview = owner
needed factory_payroll_stats = owner
needed factory_output_dashboard = owner
needed _ = group_leader

authorize_capability_allowed_lem :
    (c : Capability) (context : TenantContext) (scope : DataScope)
    → (authorize_capability c context scope).allowed
      ≡ (scope.tenant_id == context.tenant_id && contains (capability_roles c) context.role)
unfolding authorize_capability deny
authorize_capability_allowed_lem c context scope =
    elim (Bool-cases (scope.tenant_id == context.tenant_id)) [
      | inr other ↦ rw other refl
      | inl same ↦ elim (Bool-cases (contains (capability_roles c) context.role)) [
        | inl role ↦ rw (same, is_registered_all c, role) refl
        | inr role ↦ rw (same, is_registered_all c, role) refl
      ]
    ]

contains-capabilities_for_role :
    (role : Role) (d : Capability)
    → contains (map value (capabilities_for_role role)) (value d)
      ≡ contains (capability_roles d) role
unfolding capabilities_for_role value
contains-capabilities_for_role employee own_output = refl
contains-capabilities_for_role employee _ = refl
contains-capabilities_for_role group_leader own_output = refl
contains-capabilities_for_role group_leader _ = refl
contains-capabilities_for_role manager own_output = refl
contains-capabilities_for_role manager _ = refl
contains-capabilities_for_role owner own_output = refl
contains-capabilities_for_role owner _ = refl

authorize_capability_denied :
    (c : Capability) (context : TenantContext) (scope : DataScope)
    → (authorize_capability c context scope).allowed ≡ false
    → (authorize_capability c context scope).available_capabilities
      ≡ sorted (map value (capabilities_for_role context.role))
unfolding authorize_capability deny
authorize_capability_denied c context scope h =
    elim (Bool-cases (scope.tenant_id == context.tenant_id)) [
      | inr other ↦ rw other refl
      | inl same ↦ elim (Bool-cases (contains (capability_roles c) context.role)) [
        | inl role ↦ absurd (cc (rw (same, is_registered_all c, role) at h))
        | inr role ↦ rw (same, is_registered_all c, role) refl
      ]
    ]

authorize_capability_granted :
    (c : Capability) (context : TenantContext) (scope : DataScope)
    → (authorize_capability c context scope).allowed ≡ true
    → (authorize_capability c context scope).available_capabilities ≡ []
unfolding authorize_capability deny
authorize_capability_granted c context scope h =
    elim (Bool-cases (scope.tenant_id == context.tenant_id)) [
      | inr other ↦ absurd (cc (rw other at h))
      | inl same ↦ elim (Bool-cases (contains (capability_roles c) context.role)) [
        | inl role ↦ rw (same, is_registered_all c, role) refl
        | inr role ↦ absurd (cc (rw (same, is_registered_all c, role) at h))
      ]
    ]

-- The matrix is an order of the roles: whoever is as wide as the capability needs is in it.
capability_roles-needed :
    (d : Capability) (role : Role)
    → contains (capability_roles d) role ≡ leb (role_index (needed d)) (role_index role)
unfolding capability_roles
capability_roles-needed own_output employee = refl
capability_roles-needed _ employee = refl
capability_roles-needed own_output group_leader = refl
capability_roles-needed _ group_leader = refl
capability_roles-needed own_output manager = refl
capability_roles-needed _ manager = refl
capability_roles-needed own_output owner = refl
capability_roles-needed _ owner = refl

-- A request is allowed exactly when the scope is of the active tenant and the caller's role is at
-- least the narrowest one that may use the capability, in the order employee, group leader,
-- manager, owner; and a request that is refused lists exactly the capabilities that the role is
-- wide enough for, whatever the reason of the refusal is.
pub authorize_capability-allowed :
    (c d : Capability) (context : TenantContext) (scope : DataScope)
    → ((authorize_capability c context scope).allowed ≡ (
        scope.tenant_id == context.tenant_id
        && leb (role_index (needed c)) (role_index context.role)))
      × (contains (authorize_capability c context scope).available_capabilities (value d) ≡ (
          not (authorize_capability c context scope).allowed
          && leb (role_index (needed d)) (role_index context.role)))
authorize_capability-allowed c d context scope = (
  authorize_capability_allowed_lem c context scope
      ∙ ap (λ b. scope.tenant_id == context.tenant_id && b)
          (capability_roles-needed c context.role),
  elim (Bool-cases (authorize_capability c context scope).allowed) [
    | inl granted ↦
        ap (λ l. contains l (value d)) (authorize_capability_granted c context scope granted)
        ∙ rw granted refl
    | inr denied ↦
        ap (λ l. contains l (value d)) (authorize_capability_denied c context scope denied)
        ∙ contains-sorted (map value (capabilities_for_role context.role)) (value d)
        ∙ contains-capabilities_for_role context.role d
        ∙ capability_roles-needed d context.role
        ∙ rw denied refl
  ],
)
