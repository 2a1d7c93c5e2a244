-- ===== src/Filters.antt =====
-- src/factory_agent/application/filters.py: `FilterNarrower.narrow`, and the value that it returns
-- (src/factory_agent/domain/queries.py). A `bed_codes` entry is a text, so `isinstance` holds.
pub mod Within
mod Examples
use factory_agent.Prelude.{
  ℕ, Bool, true, false, not, ◌&&◌, Option, none, some, List, [], ◌∷◌, if◌then◌else◌, any, is_empty,
  Text, Result, ok, err, ◌>>=◌,
}
use factory_agent.Identity.{DataScope, narrow_to_employees, narrow_to_depts}

pub record NarrowedFilters : Type 0 where
  pub tenant_id : Text
  pub employee_ids : Option (List Text)
  pub dept_ids : Option (List Text)
  pub order_codes : Option (List Text)
  pub style_codes : Option (List Text)
  pub plan_codes : Option (List Text)
  pub material_ids : Option (List Text)
  pub requested_dept_ids : Option (List Text)
  pub bed_codes : Option (List Text)

-- The arguments of `narrow` behind the scope.
pub record FilterRequest : Type 0 where
  pub employee_ids : Option (List Text)
  pub dept_ids : Option (List Text)
  pub order_ids : Option (List Text)
  pub style_ids : Option (List Text)
  pub plan_ids : Option (List Text)
  pub material_ids : Option (List Text)
  pub tenant_resolved_employee_ids : Option (List Text)
  pub restrict_to_scope_employees : Bool
  pub bed_codes : Option (List Text)

-- The five places where a `FilterRejectionError` is raised.
pub data FilterRejection : Type 0 where
  bed_codes_invalid employees_outside depts_outside : FilterRejection
  employees_empty depts_empty : FilterRejection

pub data RejectionCode : Type 0 where
  invalid_filter forbidden : RejectionCode

unfoldable pub code : FilterRejection → RejectionCode
code bed_codes_invalid = invalid_filter
code _ = forbidden

-- `_as_set`
unfoldable pub as_set : Option (List Text) → Option (List Text)
as_set none = none
as_set (some values) = if is_empty values then none else some values

unfoldable pub check_bed_codes : Option (List Text) → Result FilterRejection (Unit {0})
check_bed_codes none = ok tt
check_bed_codes (some codes) = if any is_empty codes then err bed_codes_invalid else ok tt

abbrev pub employees_of : Option DataScope → Result FilterRejection (Option (List Text))
employees_of none = err employees_outside
employees_of (some s) = ok (some s.employee_ids)

-- The first ladder: asked employees, then employees resolved in the tenant, then the scope's own,
-- then no restriction.
unfoldable pub narrow_employees :
    DataScope
    → Option (List Text)
    → Option (List Text)
    → Bool
    → Result FilterRejection (Option (List Text))
narrow_employees scope (some ids) resolved restrict = employees_of (narrow_to_employees scope ids)
narrow_employees scope none (some ids) restrict = ok (some ids)
narrow_employees scope none none true = ok (some scope.employee_ids)
narrow_employees scope none none false = ok none

-- `narrowed_depts` and `requested_depts`
abbrev pub Depts : Type 0
Depts = List Text × Option (List Text)

abbrev pub depts_of : Option DataScope → Result FilterRejection Depts
depts_of none = err depts_outside
depts_of (some s) = ok (s.dept_ids, some s.dept_ids)

unfoldable pub narrow_depts : DataScope → Option (List Text) → Result FilterRejection Depts
narrow_depts scope none = ok (scope.dept_ids, none)
narrow_depts scope (some ids) =
    if scope.mes_filtered then ok (ids, some ids) else depts_of (narrow_to_depts scope ids)

abbrev pub lacks : Option (List Text) → Option (List Text) → Bool
lacks none narrowed = false
lacks (some asked) none = true
lacks (some asked) (some narrowed) = is_empty narrowed

-- The two tests behind the ladders.
unfoldable pub check_nonempty :
    FilterRequest → Option (List Text) → Depts → Result FilterRejection (Unit {0})
check_nonempty req employees depts =
    if lacks req.employee_ids employees
    then err employees_empty
    else if lacks req.dept_ids (some depts.0)
    then err depts_empty
    else ok tt

unfoldable pub assemble : DataScope → FilterRequest → Option (List Text) → Depts → NarrowedFilters
unfolding as_set
assemble scope req employees depts = record {
  tenant_id = scope.tenant_id;
  employee_ids = employees;
  dept_ids = some depts.0;
  order_codes = as_set req.order_ids;
  style_codes = as_set req.style_ids;
  plan_codes = as_set req.plan_ids;
  material_ids = as_set req.material_ids;
  requested_dept_ids = depts.1;
  bed_codes = as_set req.bed_codes;
}

unfoldable pub narrow : DataScope → FilterRequest → Result FilterRejection NarrowedFilters
unfolding check_bed_codes narrow_employees narrow_depts check_nonempty assemble
narrow scope req = do
  _ ← check_bed_codes req.bed_codes
  employees ←
      narrow_employees scope req.employee_ids req.tenant_resolved_employee_ids
        req.restrict_to_scope_employees
  depts ← narrow_depts scope req.dept_ids
  _ ← check_nonempty req employees depts
  ok (assemble scope req employees depts)
