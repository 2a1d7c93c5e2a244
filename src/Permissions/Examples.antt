-- ===== src/Permissions/Examples.antt =====
-- application/permission_matrix.py: an employee asks for the factory's payroll.
use factory_agent.Prelude.{
  ◌≡◌, refl, false, ◌&&◌, [], ◌∷◌, ◌==◌, nat_eq, list_eq, contains, text, leb, not,
}
use factory_agent.Identity.{employee, role_eq, TenantContext, DataScope}
use factory_agent.Permissions.{own_output, factory_payroll_stats, authorize_capability, value}
use factory_agent.Permissions.Matrix.{authorize_capability-allowed}

abbrev context : TenantContext
context = record {
  tenant_id = text "t";
  user_id = text "u";
  employee_id = text "e";
  role = employee;
  resolved_at = 1;
}

abbrev scope : DataScope
scope = record {
  tenant_id = text "t";
  employee_ids = text "e" ∷ [];
  dept_ids = [];
  evaluated_at = 1;
  scope_version = text "v";
  mes_filtered = false;
}

refused : (authorize_capability factory_payroll_stats context scope).allowed ≡ false
unfolding authorize_capability
refused = refl

authorize_capability-allowed_example :
    ((authorize_capability factory_payroll_stats context scope).allowed
      ≡ (text "t" == text "t" && leb 3 0))
    × (contains
          (authorize_capability factory_payroll_stats context scope).available_capabilities
          (value own_output)
        ≡ (not (authorize_capability factory_payroll_stats context scope).allowed && leb 0 0))
authorize_capability-allowed_example =
    authorize_capability-allowed factory_payroll_stats own_output context scope
