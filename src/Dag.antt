-- ===== src/Dag.antt =====
-- src/factory_agent/execution/dag.py: the waves of a recipe (`_parallel_groups`) and the budgets of a
-- run. The dict of the remaining steps is the list of its values, each under its own `step_id`.
-- The step runner is a parameter; the concurrent run of one wave is not modelled.
pub mod Waves
pub mod Progress
pub mod Budget
pub mod Runs
mod Examples
use factory_agent.Prelude.{
  ℕ, zero, suc, ◌+◌, Bool, true, false, not, Option, none, some, List, [], ◌∷◌, ltb, leb,
  if◌then◌else◌, ◌==◌, nat_eq, list_eq, contains, all, select, take, length, is_empty, Text, add,
  Result, ok, err, ◌>>=◌,
}

pub record Step : Type 0 where
  pub step_id : Text
  pub kind : Text
  pub depends_on : List Text
  pub parallel_group : Option Text
  pub optional : Bool

abbrev pub ids : List Step → List Text
ids [] = []
ids (s ∷ steps) = s.step_id ∷ ids steps

-- remaining[step.step_id] = step
unfoldable pub put_step : Step → List Step → List Step
put_step s [] = s ∷ []
put_step s (t ∷ steps) = if t.step_id == s.step_id then s ∷ steps else t ∷ put_step s steps

-- `{step.step_id: step for step in steps}`, onto the entries that are there.
unfoldable pub by_id : List Step → List Step → List Step
unfolding put_step
by_id remaining [] = remaining
by_id remaining (s ∷ steps) = by_id (put_step s remaining) steps

-- `for step in wave: del remaining[step.step_id]`
unfoldable pub without : List Step → List Step → List Step
without [] remaining = remaining
without (s ∷ wave) remaining = without wave (select (λ t. not (t.step_id == s.step_id)) remaining)

-- `for step in wave: done.add(step.step_id)`
unfoldable pub with_done : List Step → List Text → List Text
unfolding add
with_done [] done = done
with_done (s ∷ wave) done = with_done wave (add s.step_id done)

abbrev pub is_ready : List Text → Step → Bool
is_ready done s = all (contains done) s.depends_on

abbrev pub is_grouped : Step → Bool
is_grouped s = elim s.parallel_group [ none ↦ false | some g ↦ true ]

-- The ready members of parallel groups, or else the first ready step.
unfoldable pub wave_of : List Step → List Step
wave_of ready =
    let wave = select is_grouped ready in
    if is_empty wave then take 1 (select (λ s. not (is_grouped s)) ready) else wave

pub data PlanError : Type 0 where
  cyclic out_of_fuel : PlanError

-- `while remaining`
unfoldable pub waves : ℕ → List Step → List Text → Result PlanError (List (List Step))
unfolding wave_of without with_done
waves fuel [] done = ok []
waves zero (s ∷ steps) done = err out_of_fuel
waves (suc fuel) (s ∷ steps) done =
    let ready = select (is_ready done) (s ∷ steps) in
    let wave = wave_of ready in
    let later = waves fuel (without wave (s ∷ steps)) (with_done wave done) in
    if is_empty ready then err cyclic else (do rest ← later; ok (wave ∷ rest))

-- Every wave takes a step away, so there are at most as many waves as steps.
unfoldable pub parallel_groups : List Step → Result PlanError (List (List Step))
unfolding waves by_id
parallel_groups steps = waves (length steps) (by_id [] steps) []

pub record ExecutionBudget : Type 0 where
  pub max_api_calls : ℕ
  pub max_pages : ℕ
  pub max_rows : ℕ

pub record BudgetTracker : Type 0 where
  pub api_calls : ℕ
  pub pages : ℕ
  pub rows : ℕ

pub data BudgetExceeded : Type 0 where
  api_call_budget_exhausted page_budget_exhausted row_budget_exhausted : BudgetExceeded

-- The counter is raised first and stays raised.
unfoldable pub charge_call : ExecutionBudget → BudgetTracker → BudgetTracker × Option BudgetExceeded
charge_call budget t =
    let count = t.api_calls + 1 in
    (
      record t { api_calls = count },
      if ltb budget.max_api_calls count then some api_call_budget_exhausted else none,
    )

unfoldable pub charge_pages :
    ExecutionBudget → BudgetTracker → ℕ → BudgetTracker × Option BudgetExceeded
charge_pages budget t n =
    let count = t.pages + n in
    (
      record t { pages = count },
      if ltb budget.max_pages count then some page_budget_exhausted else none,
    )

unfoldable pub charge_rows :
    ExecutionBudget → BudgetTracker → ℕ → BudgetTracker × Option BudgetExceeded
charge_rows budget t n =
    let count = t.rows + n in
    (
      record t { rows = count },
      if ltb budget.max_rows count then some row_budget_exhausted else none,
    )
