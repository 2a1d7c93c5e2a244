-- ===== src/Rollup/Examples.antt =====
-- Two tenants: a question routed and answered, one that failed, and three calls of the MES in a day.
use factory_agent.Prelude.{
  ℕ, ◌+◌, ◌*◌, ◌≡◌, refl, true, Option, none, some, List, [], ◌∷◌, nat_eq, list_eq, Text, text, get,
  put, add,
}
use factory_agent.Rollup.{
  InteractionFactRow, LlmCallFactRow, MesCallFactRow, hour, day, mes_categories, Buckets, is_some,
  bucket_key, apply, apply_all, status_updates, interaction_updates, llm_updates, mes_updates,
  updates_of, add_member, users_of, calls_of, with_sizes, compute_bucket_metrics,
}
use factory_agent.Rollup.Totals.{value}
use factory_agent.Rollup.Hours.{day_start, hour_start, sum_below, compute_bucket_metrics-hours}
use factory_agent.Rollup.Split.{names, status_metrics, sum_over, compute_bucket_metrics-split}
use factory_agent.Rollup.Range.{
  RollupRow, RollupRun, Facts, own, computed, gathered, gather, add_buckets, rollup_range,
}
use factory_agent.Rollup.Tenants.{tenant_rows, written, rollup_range-own}
use factory_agent.Rollup.Returns.{rollup_range-known}

abbrev at_hour : ℕ → ℕ
at_hour i = 86400000000 * 20000 + 3600000000 * i + 1

abbrev interactions : List InteractionFactRow
interactions =
    record {
      tenant_id = text "a";
      occurred_at = at_hour 1;
      event_type = text "interaction_started";
      user_subject_id = text "u";
      capability_id = none;
      status = none;
      duration_ms = none;
      mes_duration_ms = none;
      llm_duration_ms = none;
      local_duration_ms = none;
    }
    ∷ record {
      tenant_id = text "a";
      occurred_at = at_hour 2;
      event_type = text "interaction_completed";
      user_subject_id = text "u";
      capability_id = none;
      status = some (text "failed");
      duration_ms = some 1500;
      mes_duration_ms = none;
      llm_duration_ms = none;
      local_duration_ms = none;
    }
    ∷ []

abbrev llm_calls : List LlmCallFactRow
llm_calls =
    record {
      tenant_id = text "a";
      occurred_at = at_hour 1;
      logical_call_id = text "c";
      prompt_tokens = 7;
      completion_tokens = 5;
      cached_tokens = 0;
      reasoning_tokens = 0;
    }
    ∷ []

abbrev mes_call_at : Text → ℕ → Text → MesCallFactRow
mes_call_at tenant i status = record {
  tenant_id = tenant;
  occurred_at = at_hour i;
  operation_id = text "op";
  status = status;
}

abbrev mes_calls : List MesCallFactRow
mes_calls =
    mes_call_at (text "a") 1 (text "completed")
    ∷ mes_call_at (text "a") 1 (text "failed")
    ∷ mes_call_at (text "a") 23 (text "completed")
    ∷ []

abbrev categories : List (Text × Text)
categories = (text "op", text "order") ∷ []

abbrev got : Option Buckets → Buckets
got none = []
got (some buckets) = buckets

compute_bucket_metrics-hours_example :
    value
      (got (compute_bucket_metrics interactions llm_calls mes_calls categories day))
      (day_start 20000)
      (text "mes_calls")
    ≡ sum_below 24 (λ i.
      value
        (got (compute_bucket_metrics interactions llm_calls mes_calls categories hour))
        (hour_start 20000 i)
        (text "mes_calls"))
unfolding get put add bucket_key apply apply_all status_updates interaction_updates llm_updates
    mes_updates updates_of add_member users_of calls_of with_sizes compute_bucket_metrics
compute_bucket_metrics-hours_example =
    compute_bucket_metrics-hours interactions llm_calls mes_calls categories
      (got (compute_bucket_metrics interactions llm_calls mes_calls categories day))
      (got (compute_bucket_metrics interactions llm_calls mes_calls categories hour)) 20000
      (text "mes_calls") refl refl refl refl

abbrev hourly : Option Buckets
hourly = compute_bucket_metrics interactions llm_calls mes_calls categories hour

compute_bucket_metrics-split_example :
    (value (got hourly) (hour_start 20000 1) (text "mes_calls")
      ≡ sum_over status_metrics (value (got hourly) (hour_start 20000 1)))
    × (value (got hourly) (hour_start 20000 1) (text "mes_calls")
        ≡ sum_over (names mes_categories) (value (got hourly) (hour_start 20000 1)))
unfolding get put add bucket_key apply apply_all status_updates interaction_updates llm_updates
    mes_updates updates_of add_member users_of calls_of with_sizes compute_bucket_metrics
compute_bucket_metrics-split_example =
    compute_bucket_metrics-split interactions llm_calls mes_calls categories hour (got hourly)
      (hour_start 20000 1) refl refl

two_calls : value (got hourly) (hour_start 20000 1) (text "mes_calls") ≡ 2
unfolding get put add bucket_key apply apply_all status_updates interaction_updates llm_updates
    mes_updates updates_of add_member users_of calls_of with_sizes compute_bucket_metrics
two_calls = refl

abbrev alone : List Text → ℕ → ℕ → Facts
alone tenants start end = record { interactions = interactions; llm = llm_calls; mes = mes_calls }

-- The same, with a call of another tenant.
abbrev shared : List Text → ℕ → ℕ → Facts
shared tenants start end = record {
  interactions = interactions;
  llm = llm_calls;
  mes = mes_call_at (text "b") 1 (text "failed") ∷ mes_calls;
}

abbrev the_run : (List Text → ℕ → ℕ → Facts) → Option (RollupRun × Option (List RollupRow))
the_run list_facts =
    rollup_range list_facts categories (text "v1") 5 (text "b" ∷ text "a" ∷ []) 0 (at_hour 24)

abbrev run_of : Option (RollupRun × Option (List RollupRow)) → RollupRun
run_of none = record { tenant_ids = []; start = 0; end = 0; hourly_rows = 0; daily_rows = 0 }
run_of (some (run, rows)) = run

abbrev rows_in : Option (RollupRun × Option (List RollupRow)) → Option (List RollupRow)
rows_in none = none
rows_in (some (run, rows)) = rows

rollup_range-own_example :
    tenant_rows (text "a") (written (rows_in (the_run alone)))
    ≡ tenant_rows (text "a") (written (rows_in (the_run shared)))
unfolding get put add bucket_key apply apply_all status_updates interaction_updates llm_updates
    mes_updates updates_of add_member users_of calls_of with_sizes compute_bucket_metrics own
    computed gathered gather add_buckets rollup_range
rollup_range-own_example =
    rollup_range-own (text "a") alone shared categories (text "v1") 5 (text "b" ∷ text "a" ∷ []) 0
      (at_hour 24) (run_of (the_run alone)) (run_of (the_run shared)) (rows_in (the_run alone))
      (rows_in (the_run shared)) (refl, refl, refl) refl refl

rollup_range-known_example : is_some (the_run shared) ≡ true
rollup_range-known_example =
    rollup_range-known shared categories (text "v1") 5 (text "b" ∷ text "a" ∷ []) 0 (at_hour 24)
      refl
