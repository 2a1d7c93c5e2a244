-- ===== src/Filters/Within.antt =====
-- application/filters.py: what narrowing lets through.
use factory_agent.Prelude.{
  ◌≡◌, ◌⊎◌, Bool, true, false, not, ◌&&◌, Option, none, some, List, if◌then◌else◌, any, is_empty,
  contains, inter, nat_eq, list_eq, Text, is_ok, arith,
}
use factory_agent.Identity.{DataScope, narrow_to_employees, narrow_to_depts}
use factory_agent.Filters.{FilterRequest, Depts, narrow}

-- An independent statement of when a request is let through: the bed codes are texts that are not
-- empty, the asked employees meet the scope, and the asked departments meet the scope, or are some
-- at all where the MES filters.
abbrev pub beds_fine : Option (List Text) → Bool
beds_fine none = true
beds_fine (some codes) = not (any is_empty codes)

abbrev pub meets : Option (List Text) → List Text → Bool
meets none scope_ids = true
meets (some ids) scope_ids = not (is_empty (inter scope_ids ids))

abbrev pub some_asked : Option (List Text) → Bool
some_asked none = true
some_asked (some ids) = not (is_empty ids)

abbrev pub admits : DataScope → FilterRequest → Bool
admits scope req =
    beds_fine req.bed_codes
    && meets req.employee_ids scope.employee_ids
    && (if scope.mes_filtered then some_asked req.dept_ids else meets req.dept_ids scope.dept_ids)

-- A request is narrowed exactly when it is admitted; every other request is rejected.
pub narrow-admits :
    (scope : DataScope) (req : FilterRequest) → is_ok (narrow scope req) ≡ admits scope req
unfolding narrow narrow_to_employees narrow_to_depts
narrow-admits scope req = ground arith

-- What the asked employees become, and where the others come from.
pub record EmployeesWithin (scope : DataScope) (asked resolved : Option (List Text))
    (restrict : Bool) (employees : Option (List Text)) : Type 0 where
  pub within :
      (es : List Text) (a : Text)
      → employees ≡ some es
      → contains es a ≡ true
      → (contains scope.employee_ids a ≡ true)
        ⊎ ((ids : List Text) × (asked ≡ none) × (resolved ≡ some ids) × (contains ids a ≡ true))
  pub chosen :
      (ids : List Text)
      → asked ≡ some ids
      → (es : List Text) × (employees ≡ some es)
        × (is_empty es ≡ false)
        × ((a : Text) → contains es a ≡ (contains scope.employee_ids a && contains ids a))
  pub directory : (ids : List Text) → asked ≡ none → resolved ≡ some ids → employees ≡ some ids
  pub own_only :
      asked ≡ none → resolved ≡ none → restrict ≡ true → employees ≡ some scope.employee_ids
  pub unrestricted : employees ≡ none → (asked ≡ none) × (resolved ≡ none) × (restrict ≡ false)

pub record DeptsWithin (scope : DataScope) (asked : Option (List Text)) (depts : Depts)
    : Type 0 where
  pub within :
      (a : Text)
      → contains depts.0 a ≡ true
      → (contains scope.dept_ids a ≡ true)
        ⊎ ((ids : List Text) × (scope.mes_filtered ≡ true)
            × (asked ≡ some ids)
            × (contains ids a ≡ true))
  pub chosen :
      (ids : List Text) (a : Text)
      → asked ≡ some ids
      → contains depts.0 a ≡ true
      → contains ids a ≡ true
  pub filtered : (ids : List Text) → asked ≡ some ids → scope.mes_filtered ≡ true → depts.0 ≡ ids
  pub cut :
      (ids : List Text) (a : Text)
      → asked ≡ some ids
      → scope.mes_filtered ≡ false
      → contains depts.0 a ≡ (contains scope.dept_ids a && contains ids a)
  pub requested : (ids : List Text) → asked ≡ some ids → depts.1 ≡ some depts.0
  pub unrequested : asked ≡ none → (depts.0 ≡ scope.dept_ids) × (depts.1 ≡ none)
