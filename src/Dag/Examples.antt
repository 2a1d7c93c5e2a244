-- ===== src/Dag/Examples.antt =====
-- The waves and the budgets on small recipes.
use factory_agent.Prelude.{
  arith, get, put, ℕ, ◌≡◌, ◌≢◌, ◌↔◌, refl, true, Option, none, some, List, [], ◌∷◌, contains, Text,
  text, Result, ok, err, nat_eq, list_eq, add,
}
use factory_agent.Dag.{
  Step, ids, put_step, by_id, without, with_done, wave_of, waves, parallel_groups, cyclic,
  out_of_fuel, ExecutionBudget, BudgetTracker, charge_call,
}
use factory_agent.Dag.Runs.{
  Run, StepOutcome, complete, StepError, run_step, settle, charged, from_cache, run_step-again,
}
use factory_agent.Dag.Waves.{concat, AreOrdered, parallel_groups-AreOrdered}
use factory_agent.Dag.Progress.{parallel_groups-Ends, parallel_groups-ranked}
use factory_agent.Dag.Budget.{
  Charge, one_call, some_pages, some_rows, charge_all, IsWithin, charge_all-IsWithin,
}

abbrev step : Text → List Text → Option Text → Step
step name depends_on group = record {
  step_id = name;
  kind = text "api";
  depends_on = depends_on;
  parallel_group = group;
  optional = true;
}

abbrev load : Step
load = step (text "a") [] none

abbrev left : Step
left = step (text "b") (text "a" ∷ []) (some (text "g"))

abbrev right : Step
right = step (text "c") (text "a" ∷ []) (some (text "g"))

abbrev join : Step
join = step (text "d") (text "b" ∷ text "c" ∷ []) none

abbrev recipe : List Step
recipe = join ∷ left ∷ right ∷ load ∷ []

abbrev planned : List (List Step)
planned = (load ∷ []) ∷ (left ∷ right ∷ []) ∷ (join ∷ []) ∷ []

recipe-planned : parallel_groups recipe ≡ ok planned
unfolding parallel_groups waves by_id put_step wave_of without with_done add
recipe-planned = refl

looped : parallel_groups (step (text "a") (text "a" ∷ []) none ∷ []) ≡ err cyclic
unfolding parallel_groups waves by_id put_step wave_of without with_done
looped = refl

abbrev rank : Text → ℕ
rank [] = 0
rank (c ∷ t) = c

parallel_groups-AreOrdered_example :
    AreOrdered [] planned
    × ((i : Text) → contains (ids (concat planned)) i ≡ contains (ids recipe) i)
parallel_groups-AreOrdered_example = parallel_groups-AreOrdered recipe planned recipe-planned

parallel_groups-Ends_example : parallel_groups recipe ≢ err out_of_fuel
parallel_groups-Ends_example = parallel_groups-Ends recipe

parallel_groups-ranked_example : (ws : List (List Step)) × (parallel_groups recipe ≡ ok ws)
parallel_groups-ranked_example = parallel_groups-ranked rank recipe refl

abbrev small : ExecutionBudget
small = record { max_api_calls = 1; max_pages = 3; max_rows = 10 }

abbrev unused : BudgetTracker
unused = record { api_calls = 0; pages = 0; rows = 0 }

abbrev charges : List Charge
charges = one_call ∷ some_pages 2 ∷ some_rows 7 ∷ some_pages 2 ∷ []

charge_all-IsWithin_example :
    (charge_all small unused charges ≡ none) ↔ IsWithin small unused charges
charge_all-IsWithin_example =
    charge_all-IsWithin small unused charges (omega arith, omega arith, omega arith)

-- Every step is answered with the same row.
abbrev runner : Step → BudgetTracker → BudgetTracker × Result StepError (StepOutcome ℕ)
runner s t =
    (t, ok (record { step_id = s.step_id; status = complete; rows = 5 ∷ []; reason = none }))

-- One request for every step.
abbrev request : Step → Text
request s = text "q"

abbrev start : Run Text ℕ
start = record { tracker = unused; cache = [] }

run_step-again_example :
    run_step request runner small (run_step request runner small start left).0 right ≡ (
      (run_step request runner small start left).0,
      ok (record {
        step_id = text "c";
        status = complete;
        rows = 5 ∷ [];
        reason = some (text "deduplicated");
      }),
    )
unfolding run_step from_cache charged settle charge_call get put
run_step-again_example =
    run_step-again request runner small start left right
      (record { step_id = text "b"; status = complete; rows = 5 ∷ []; reason = none }) refl refl
      refl refl refl
