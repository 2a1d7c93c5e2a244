-- ===== src/Dag/Budget.antt =====
-- src/factory_agent/execution/dag.py: the charges of one run against its budgets.
use factory_agent.Prelude.{
  ℕ, suc, ◌+◌, ◌≤◌, ◌≡◌, ◌↔◌, refl, Bool, true, false, Option, none, some, List, [], ◌∷◌, ltb,
  if◌then◌else◌, arith,
}
use factory_agent.Dag.{
  ExecutionBudget, BudgetTracker, BudgetExceeded, charge_call, charge_pages, charge_rows,
  api_call_budget_exhausted, page_budget_exhausted, row_budget_exhausted,
}

pub data Charge : Type 0 where
  one_call : Charge
  some_pages some_rows : ℕ → Charge

abbrev pub charge : ExecutionBudget → BudgetTracker → Charge → BudgetTracker × Option BudgetExceeded
charge budget t one_call = charge_call budget t
charge budget t (some_pages n) = charge_pages budget t n
charge budget t (some_rows n) = charge_rows budget t n

-- The charges up to the first that raises.
abbrev pub charge_all : ExecutionBudget → BudgetTracker → List Charge → Option BudgetExceeded
charge_all budget t [] = none
charge_all budget t (c ∷ cs) =
    let (t', raised) = charge budget t c in
    let later = charge_all budget t' cs in elim raised [ none ↦ later | some why ↦ some why ]

abbrev pub calls_of : List Charge → ℕ
calls_of [] = 0
calls_of (one_call ∷ cs) = suc (calls_of cs)
calls_of (_ ∷ cs) = calls_of cs

abbrev pub pages_of : List Charge → ℕ
pages_of [] = 0
pages_of (some_pages n ∷ cs) = n + pages_of cs
pages_of (_ ∷ cs) = pages_of cs

abbrev pub rows_of : List Charge → ℕ
rows_of [] = 0
rows_of (some_rows n ∷ cs) = n + rows_of cs
rows_of (_ ∷ cs) = rows_of cs

-- Whether the counters, with what the charges add, are within the budget.
abbrev pub IsWithin : ExecutionBudget → BudgetTracker → List Charge → Type 0
IsWithin b t cs =
    (t.api_calls + calls_of cs ≤ b.max_api_calls)
    × (t.pages + pages_of cs ≤ b.max_pages)
    × (t.rows + rows_of cs ≤ b.max_rows)

-- A charge that may raise, before the others.
charged_iff :
    (over : Bool) (why : BudgetExceeded) (later : Option BudgetExceeded) (W : Type 0)
    → (over ≡ true → ¬ W)
    → (over ≡ false → (later ≡ none) ↔ W)
    → ((elim (if over then some why else none) [ none ↦ later | some w ↦ some w ]) ≡ none) ↔ W
charged_iff true why later W no_way way = (λ e. cc, λ w. absurd (no_way refl w))
charged_iff false why later W no_way way = way refl

-- From counters within the budget, charges of calls, pages and rows in any order all pass exactly
-- when the counters and what the charges add up to are within the budget.
pub charge_all-IsWithin :
    (b : ExecutionBudget) (t : BudgetTracker) (cs : List Charge)
    → IsWithin b t []
    → (charge_all b t cs ≡ none) ↔ IsWithin b t cs
unfolding charge_call charge_pages charge_rows
charge_all-IsWithin b t [] h = (λ e. h, λ k. refl)
charge_all-IsWithin b t (one_call ∷ cs) h =
    let t' = record t { api_calls = t.api_calls + 1 } in
    charged_iff (ltb b.max_api_calls (t.api_calls + 1)) api_call_budget_exhausted
      (charge_all b t' cs) (IsWithin b t (one_call ∷ cs)) (λ over w. ground (arith, over, w))
      (λ under.
        let (f, g) = charge_all-IsWithin b t' cs (ground (arith, under, h)) in
        (λ e. let w = f e in ground (arith, w), λ w. g (ground (arith, w))))
charge_all-IsWithin b t (some_pages n ∷ cs) h =
    let t' = record t { pages = t.pages + n } in
    charged_iff (ltb b.max_pages (t.pages + n)) page_budget_exhausted (charge_all b t' cs)
      (IsWithin b t (some_pages n ∷ cs)) (λ over w. ground (arith, over, w))
      (λ under.
        let (f, g) = charge_all-IsWithin b t' cs (ground (arith, under, h)) in
        (λ e. let w = f e in ground (arith, w), λ w. g (ground (arith, w))))
charge_all-IsWithin b t (some_rows n ∷ cs) h =
    let t' = record t { rows = t.rows + n } in
    charged_iff (ltb b.max_rows (t.rows + n)) row_budget_exhausted (charge_all b t' cs)
      (IsWithin b t (some_rows n ∷ cs)) (λ over w. ground (arith, over, w))
      (λ under.
        let (f, g) = charge_all-IsWithin b t' cs (ground (arith, under, h)) in
        (λ e. let w = f e in ground (arith, w), λ w. g (ground (arith, w))))
