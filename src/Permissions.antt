-- ===== src/Permissions.antt =====
-- src/factory_agent/application/permission_matrix.py: the capabilities, the capability-role matrix
-- and the decision on one request.
pub mod Matrix
mod Examples
use factory_agent.Prelude.{
  ℕ, zero, suc, Bool, true, false, not, ◌&&◌, ◌||◌, Option, none, some, List, [], ◌∷◌, map,
  if◌then◌else◌, ◌==◌, nat_beq, nat_eq, list_eq, contains, select, Text, text, sorted,
}
use factory_agent.Identity.{
  Role, employee, group_leader, manager, owner, role_eq, TenantContext, DataScope,
}

pub data Capability : Type 0 where
  own_output own_payroll_summary own_payroll_detail group_income_rank : Capability
  order_progress order_output workshop_comparison team_payroll_list : Capability
  factory_order_overview workshop_output_overview factory_payroll_stats : Capability
  any_employee_payroll factory_output_dashboard : Capability

-- The enumeration's values.
unfoldable pub value : Capability → Text
value own_output = text "FR-001"
value own_payroll_summary = text "FR-002"
value own_payroll_detail = text "FR-003"
value group_income_rank = text "FR-004"
value order_progress = text "FR-005"
value order_output = text "FR-006"
value workshop_comparison = text "FR-007"
value team_payroll_list = text "FR-008"
value factory_order_overview = text "FR-009"
value workshop_output_overview = text "FR-010"
value factory_payroll_stats = text "FR-011"
value any_employee_payroll = text "FR-012"
value factory_output_dashboard = text "FR-013"

abbrev pub all_roles : List Role
all_roles = employee ∷ group_leader ∷ manager ∷ owner ∷ []

abbrev pub owner_roles : List Role
owner_roles = owner ∷ []

abbrev pub management_and_owner_roles : List Role
management_and_owner_roles = group_leader ∷ manager ∷ owner ∷ []

-- `CAPABILITY_ROLES[capability]`
unfoldable pub capability_roles : Capability → List Role
capability_roles own_output = all_roles
capability_roles own_payroll_summary = all_roles
capability_roles own_payroll_detail = all_roles
capability_roles group_income_rank = management_and_owner_roles
capability_roles order_progress = management_and_owner_roles
capability_roles order_output = management_and_owner_roles
capability_roles workshop_comparison = management_and_owner_roles
capability_roles team_payroll_list = management_and_owner_roles
capability_roles factory_order_overview = owner_roles
capability_roles workshop_output_overview = management_and_owner_roles
capability_roles factory_payroll_stats = owner_roles
capability_roles any_employee_payroll = management_and_owner_roles
capability_roles factory_output_dashboard = owner_roles

-- The keys of the matrix, which are `REGISTERED_CAPABILITIES`.
abbrev pub registered : List Capability
registered =
    own_output ∷ own_payroll_summary ∷ own_payroll_detail ∷ group_income_rank ∷ order_progress
    ∷ order_output ∷ workshop_comparison ∷ team_payroll_list ∷ factory_order_overview
    ∷ workshop_output_overview ∷ factory_payroll_stats ∷ any_employee_payroll
    ∷ factory_output_dashboard ∷ []

unfoldable pub capabilities_for_role : Role → List Capability
unfolding capability_roles
capabilities_for_role role = select (λ c. contains (capability_roles c) role) registered

pub data DenyReason : Type 0 where
  wrong_tenant not_registered not_available : DenyReason

pub record AuthorizationDecision : Type 0 where
  pub allowed : Bool
  pub capability_id : Text
  pub reason : Option DenyReason
  pub available_capabilities : List Text

-- `AuthorizationDecision.deny`
unfoldable pub deny : Text → DenyReason → Option Role → AuthorizationDecision
unfolding capabilities_for_role value sorted
deny capability_id reason role = record {
  allowed = false;
  capability_id = capability_id;
  reason = some reason;
  available_capabilities = elim role [
    | none ↦ sorted (map value registered)
    | some r ↦ sorted (map value (capabilities_for_role r))
  ];
}

-- `capability not in REGISTERED_CAPABILITIES`
unfoldable pub is_registered : Capability → Bool
unfolding value
is_registered c = contains (map value registered) (value c)

unfoldable pub authorize_capability : Capability → TenantContext → DataScope → AuthorizationDecision
unfolding deny is_registered
authorize_capability capability context scope =
    if not (scope.tenant_id == context.tenant_id)
    then deny (value capability) wrong_tenant (some context.role)
    else if not (is_registered capability)
    then deny (value capability) not_registered (some context.role)
    else if not (contains (capability_roles capability) context.role)
    then deny (value capability) not_available (some context.role)
    else record {
      allowed = true;
      capability_id = value capability;
      reason = none;
      available_capabilities = [];
    }
