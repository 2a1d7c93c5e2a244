-- ===== src/Dag/Runs.antt =====
-- src/factory_agent/execution/dag.py: `_run_step`, one step from its start to its end, and
-- `rows_for`. The runner, which may charge the tracker, and the cache key of a step are parameters.
use factory_agent.Prelude.{
  ◌≡◌, refl, sym, ap, ap₂, ◌∙◌, subst, Bool, true, false, not, Option, none, some, List, [], ◌∷◌,
  if◌then◌else◌, Eq, ◌==◌, ==_refl, nat_eq, list_eq, Text, text, get, put, get-put, Result, ok,
  ok-injective, err, arith,
}
use factory_agent.Dag.{Step, ExecutionBudget, BudgetTracker, BudgetExceeded, charge_call}

pub data Status : Type 0 where
  complete incomplete failed skipped : Status

pub record StepOutcome (Row : Type 0) : Type 0 where
  pub step_id : Text
  pub status : Status
  pub rows : List Row
  pub reason : Option Text

-- What the runner or a charge may raise; `mes_error` is any other `MesError`.
pub data StepError : Type 0 where
  budget_exceeded : BudgetExceeded → StepError
  upstream_invalid mes_error other_error : StepError

-- `DagResult.rows_for`: the first outcome of that name.
unfoldable pub rows_for : {Row : Type 0} → List (StepOutcome Row) → Text → List Row
rows_for [] step_id = []
rows_for (o ∷ outcomes) step_id = if o.step_id == step_id then o.rows else rows_for outcomes step_id

-- The tracker and the cache, which the steps of a recipe share.
pub record Run (Key Row : Type 0) : Type 0 where
  pub tracker : BudgetTracker
  pub cache : List (Key × StepOutcome Row)

-- `"deduplicated" if cached.status == "complete" else cached.reason`
abbrev pub reused_reason : Status → Option Text → Option Text
reused_reason complete reason = some (text "deduplicated")
reused_reason _ reason = reason

module _ {Key Row : Type 0} ⦃keys : Eq Key⦄ (cache_key : Step → Key)
    (runner : Step → BudgetTracker → BudgetTracker × Result StepError (StepOutcome Row))
    (budget : ExecutionBudget) where
  abbrev pub Ran : Type 0
  Ran = Run Key Row × Result StepError (StepOutcome Row)

  abbrev incomplete_for : Step → Text → StepOutcome Row
  incomplete_for s reason = record {
    step_id = s.step_id;
    status = incomplete;
    rows = [];
    reason = some reason;
  }

  -- An optional step's error from the MES is data; any other error is raised again.
  unfoldable pub failed_step : Step → Bool → StepError → Result StepError (StepOutcome Row)
  failed_step s true upstream_invalid = ok (incomplete_for s (text "upstream_invalid"))
  failed_step s true mes_error = ok (incomplete_for s (text "optional_failed"))
  failed_step s _ e = err e

  unfoldable pub settle :
      Run Key Row → Step → BudgetTracker × Result StepError (StepOutcome Row) → Ran
  unfolding failed_step put
  settle run s (t, err e) = (record run { tracker = t }, failed_step s s.optional e)
  settle run s (t, ok outcome) = (
    record { tracker = t; cache = put (cache_key s) outcome run.cache },
    ok (record {
      step_id = s.step_id;
      status = outcome.status;
      rows = outcome.rows;
      reason = none;
    }),
  )

  unfoldable pub charged : Run Key Row → Step → BudgetTracker × Option BudgetExceeded → Ran
  unfolding settle
  charged run s (t, some why) = (record run { tracker = t }, err (budget_exceeded why))
  charged run s (t, none) = settle run s (runner s t)

  unfoldable pub from_cache : Run Key Row → Step → Option (StepOutcome Row) → Ran
  unfolding charged charge_call
  from_cache run s (some cached) = (
    run,
    ok (record {
      step_id = s.step_id;
      status = cached.status;
      rows = cached.rows;
      reason = reused_reason cached.status cached.reason;
    }),
  )
  from_cache run s none = charged run s (charge_call budget run.tracker)

  unfoldable pub run_step : Run Key Row → Step → Ran
  unfolding from_cache get
  run_step run s =
      if not (s.kind == text "api")
      then (run, ok (record { step_id = s.step_id; status = complete; rows = []; reason = none }))
      else from_cache run s (get (cache_key s) run.cache)

  -- The outcome is that of the entry.
  abbrev Serves : Run Key Row → Step → StepOutcome Row → Type 0
  Serves run s o =
      (cached : StepOutcome Row) × (get (cache_key s) run.cache ≡ some cached)
      × (cached.status ≡ o.status)
      × (cached.rows ≡ o.rows)

  failed_step-status :
      (s : Step) (optional : Bool) (e : StepError) (o : StepOutcome Row)
      → failed_step s optional e ≡ ok o
      → o.status ≡ incomplete
  unfolding failed_step
  failed_step-status s true upstream_invalid o h = ap (λ x. x.status) (sym (ok-injective h))
  failed_step-status s true mes_error o h = ap (λ x. x.status) (sym (ok-injective h))
  failed_step-status s true (budget_exceeded w) o h = cc
  failed_step-status s true other_error o h = cc
  failed_step-status s false e o h = cc

  settle-Serves :
      (run : Run Key Row) (s : Step) (r : BudgetTracker × Result StepError (StepOutcome Row))
      (o : StepOutcome Row)
      → (settle run s r).1 ≡ ok o
      → o.status ≡ complete
      → Serves (settle run s r).0 s o
  unfolding settle
  settle-Serves run s (t, err e) o h c = let i = failed_step-status s s.optional e o h in cc
  settle-Serves run s (t, ok outcome) o h c =
      let served = ok-injective h in
      (
        outcome,
        ground
            (arith, get-put (cache_key s) (cache_key s) outcome run.cache, ==_refl (cache_key s)),
        ap (λ x. x.status) served,
        ap (λ x. x.rows) served,
      )

  charged-Serves :
      (run : Run Key Row) (s : Step) (r : BudgetTracker × Option BudgetExceeded)
      (o : StepOutcome Row)
      → (charged run s r).1 ≡ ok o
      → o.status ≡ complete
      → Serves (charged run s r).0 s o
  unfolding charged
  charged-Serves run s (t, some why) o h c = cc
  charged-Serves run s (t, none) o h c = settle-Serves run s (runner s t) o h c

  from_cache-Serves :
      (run : Run Key Row) (s : Step) (r : Option (StepOutcome Row)) (o : StepOutcome Row)
      → get (cache_key s) run.cache ≡ r
      → (from_cache run s r).1 ≡ ok o
      → o.status ≡ complete
      → Serves (from_cache run s r).0 s o
  unfolding from_cache
  from_cache-Serves run s none o e h c = charged-Serves run s _ o h c
  from_cache-Serves run s (some cached) o e h c =
      let served = ok-injective h in (cached, e, ap (λ x. x.status) served, ap (λ x. x.rows) served)

  run_step-api :
      (run : Run Key Row) (s : Step)
      → (s.kind == text "api") ≡ true
      → run_step run s ≡ from_cache run s (get (cache_key s) run.cache)
  unfolding run_step
  run_step-api run s api = rw api refl

  from_cache_complete :
      (run : Run Key Row) (s : Step) (cached o : StepOutcome Row)
      → cached.status ≡ complete
      → cached.rows ≡ o.rows
      → from_cache run s (some cached) ≡ (
        run,
        ok (record {
          step_id = s.step_id;
          status = complete;
          rows = o.rows;
          reason = some (text "deduplicated");
        }),
      )
  unfolding from_cache
  from_cache_complete run s cached o st rs =
      ap₂
        (λ status rows. (
          run,
          ok (record {
            step_id = s.step_id;
            status = status;
            rows = rows;
            reason = reused_reason status cached.reason;
          }),
        ))
        st rs

  -- After an API step has completed, another API step with the same cache key changes nothing and
  -- gets the same rows, marked as deduplicated, whatever the runner would do.
  pub run_step-again :
      (run : Run Key Row) (s again : Step) (o : StepOutcome Row)
      → (s.kind == text "api") ≡ true
      → (again.kind == text "api") ≡ true
      → cache_key again ≡ cache_key s
      → (run_step run s).1 ≡ ok o
      → o.status ≡ complete
      → run_step (run_step run s).0 again ≡ (
        (run_step run s).0,
        ok (record {
          step_id = again.step_id;
          status = complete;
          rows = o.rows;
          reason = some (text "deduplicated");
        }),
      )
  run_step-again run s again o api api' same h c =
      let e = run_step-api run s api in
      let (cached, found, st, rs) =
        subst (λ r. Serves r.0 s o) (sym e)
          (from_cache-Serves run s (get (cache_key s) run.cache) o refl (ap (λ r. r.1) (sym e) ∙ h)
            c) in
      let after = (run_step run s).0 in
      run_step-api after again api'
      ∙ ap (from_cache after again) (ap (λ k. get k after.cache) same ∙ found)
      ∙ from_cache_complete after again cached o (st ∙ c) rs
