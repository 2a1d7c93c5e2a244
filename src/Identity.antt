-- ===== src/Identity.antt =====
-- src/factory_agent/domain/identity.py: roles, memberships, the data scope and the expected range.
-- An identifier is its text; instants are numbers; a `frozenset` is read through membership only.
pub mod Codes
mod Examples
use factory_agent.Prelude.{
  ℕ, zero, suc, ◌≡◌, refl, ◌↔◌, Bool, true, false, not, ◌&&◌, ◌||◌, Option, none, some, List, [],
  ◌∷◌, if◌then◌else◌, Eq, ◌==◌, nat_beq, nat_eq, list_eq, beq_of_index_iff, contains, inter,
  is_empty, Text, text, strip,
}

-- `NonEmptyId.__new__`: `none` stands for the `ValueError`.
unfoldable pub non_empty_id : Text → Option Text
non_empty_id value = if is_empty value || not (value == strip value) then none else some value

pub data Role : Type 0 where
  employee group_leader manager owner : Role

abbrev pub role_index : Role → ℕ
role_index employee = 0
role_index group_leader = 1
role_index manager = 2
role_index owner = 3

abbrev pub role_of_index : ℕ → Role
role_of_index zero = employee
role_of_index (suc zero) = group_leader
role_of_index (suc (suc zero)) = manager
role_of_index _ = owner

role_of_index-role_index : (r : Role) → role_of_index (role_index r) ≡ r
role_of_index-role_index employee = refl
role_of_index-role_index _ = refl

pub role_beq_iff : (r s : Role) → (nat_beq (role_index r) (role_index s) ≡ true) ↔ (r ≡ s)
role_beq_iff = beq_of_index_iff role_index role_of_index role_of_index-role_index

instance abbrev pub role_eq : Eq Role
role_eq = record { same = λ r s. nat_beq (role_index r) (role_index s); same_iff = role_beq_iff }

-- `_MES_CODE_BY_ROLE`
unfoldable pub mes_code : Role → Text
mes_code employee = text "00"
mes_code group_leader = text "01"
mes_code manager = text "02"
mes_code owner = text "99"

-- `_ROLE_BY_MES_CODE[code]`; `none` stands for the `KeyError`.
unfoldable pub role_by_mes_code : Text → Option Role
role_by_mes_code code =
    if code == text "00"
    then some employee
    else if code == text "01"
    then some group_leader
    else if code == text "02"
    then some manager
    else if code == text "99"
    then some owner
    else none

-- `Role.from_mes_code`; `none` stands for the `ValueError`.
unfoldable pub from_mes_code : Text → Option Role
unfolding role_by_mes_code
from_mes_code code = role_by_mes_code (strip code)

pub record TenantMembership : Type 0 where
  pub user_id : Text
  pub tenant_id : Text
  pub employee_id : Text
  pub display_name : Text
  pub role : Role
  pub bound_dept_ids : List Text

pub record Identity : Type 0 where
  pub tenant_id : Text
  pub user_id : Text

pub record TenantContext : Type 0 where
  pub tenant_id : Text
  pub user_id : Text
  pub employee_id : Text
  pub role : Role
  pub resolved_at : ℕ

pub data PlatformCapability : Type 0 where
  usage_aggregate usage_report : PlatformCapability

abbrev pub platform_beq : PlatformCapability → PlatformCapability → Bool
platform_beq usage_aggregate usage_aggregate = true
platform_beq usage_aggregate usage_report = false
platform_beq usage_report usage_aggregate = false
platform_beq usage_report usage_report = true

pub record PlatformScope : Type 0 where
  pub principal_id : Text
  pub tenant_ids : List Text
  pub capabilities : List PlatformCapability

unfoldable pub has_capability : List PlatformCapability → PlatformCapability → Bool
has_capability [] c = false
has_capability (d ∷ ds) c = platform_beq d c || has_capability ds c

unfoldable pub allows : PlatformScope → PlatformCapability → Bool
unfolding has_capability
allows s capability = has_capability s.capabilities capability

unfoldable pub covers : PlatformScope → Text → Bool
covers s tenant_id = contains s.tenant_ids tenant_id

pub record DataScope : Type 0 where
  pub tenant_id : Text
  pub employee_ids : List Text
  pub dept_ids : List Text
  pub evaluated_at : ℕ
  pub scope_version : Text
  pub mes_filtered : Bool

unfoldable pub is_whole_tenant : DataScope → Bool
is_whole_tenant s = false

unfoldable pub narrow_to_employees : DataScope → List Text → Option DataScope
narrow_to_employees s employee_ids =
    let narrowed = inter s.employee_ids employee_ids in
    if is_empty narrowed then none else some (record s { employee_ids = narrowed })

unfoldable pub narrow_to_depts : DataScope → List Text → Option DataScope
narrow_to_depts s dept_ids =
    let narrowed = inter s.dept_ids dept_ids in
    if is_empty narrowed then none else some (record s { dept_ids = narrowed })

pub data ExpectedRangeKind : Type 0 where
  self group dept whole_tenant : ExpectedRangeKind

pub record ExpectedRange : Type 0 where
  pub role : Role
  pub employee_id : Option Text
  pub dept_ids : List Text
  pub is_whole : Bool

-- `ExpectedRange.from_context`
unfoldable pub from_context : TenantContext → DataScope → ExpectedRange
from_context context scope = record {
  role = context.role;
  employee_id = some context.employee_id;
  dept_ids = scope.dept_ids;
  is_whole = context.role == owner;
}

unfoldable pub kind : ExpectedRange → ExpectedRangeKind
kind r =
    if r.is_whole
    then whole_tenant
    else if r.role == employee
    then self
    else if r.role == group_leader
    then group
    else dept

unfoldable pub allows_employee : ExpectedRange → Option Text → Bool
allows_employee r none = true
allows_employee r (some uid) =
    if r.is_whole then true else elim r.employee_id [ none ↦ false | some id ↦ uid == id ]

unfoldable pub allows_dept : ExpectedRange → Option Text → Bool
allows_dept r none = true
allows_dept r (some d) = if r.is_whole then true else contains r.dept_ids d
