-- ===== src/Filters/Examples.antt =====
-- application/filters.py: a manager of two departments asks for one of them and a foreign one.
use factory_agent.Prelude.{◌≡◌, true, false, none, some, [], ◌∷◌, text, is_ok}
use factory_agent.Identity.{DataScope}
use factory_agent.Filters.{FilterRequest, NarrowedFilters, narrow}
use factory_agent.Filters.Within.{admits, narrow-admits}

abbrev scope : DataScope
scope = record {
  tenant_id = text "t";
  employee_ids = text "e" ∷ [];
  dept_ids = text "d1" ∷ text "d2" ∷ [];
  evaluated_at = 1;
  scope_version = text "v";
  mes_filtered = false;
}

abbrev request : FilterRequest
request = record {
  employee_ids = none;
  dept_ids = some (text "d2" ∷ text "d3" ∷ []);
  order_ids = some [];
  style_ids = none;
  plan_ids = none;
  material_ids = none;
  tenant_resolved_employee_ids = none;
  restrict_to_scope_employees = true;
  bed_codes = some (text "07" ∷ []);
}

abbrev narrowed : NarrowedFilters
narrowed = record {
  tenant_id = text "t";
  employee_ids = some (text "e" ∷ []);
  dept_ids = some (text "d2" ∷ []);
  order_codes = none;
  style_codes = none;
  plan_codes = none;
  material_ids = none;
  requested_dept_ids = some (text "d2" ∷ []);
  bed_codes = some (text "07" ∷ []);
}

narrow-admits_example : is_ok (narrow scope request) ≡ admits scope request
narrow-admits_example = narrow-admits scope request
