-- ===== src/Rollup/Range.antt =====
-- src/factory_agent/application/rollup.py: `RollupEngine.rollup_range`. The store is a parameter, as the
-- `RollupStore` protocol has it: `list_facts` and `list_mes_categories` are its answers, and the rows
-- given to `upsert_rollup_rows` are in the result; they are none when the store is not called at all.
-- A set of tenants is a list, in the order in which the code goes through it.
use factory_agent.Prelude.{
  ℕ, ◌||◌, Option, none, some, List, [], ◌∷◌, ◌++◌, leb, select, is_empty, length, if◌then◌else◌,
  ◌==◌, nat_eq, list_eq, Text, add,
}
use factory_agent.Rollup.{
  InteractionFactRow, LlmCallFactRow, MesCallFactRow, Metrics, Granularity, hour, day, Buckets,
  compute_bucket_metrics,
}

pub record RollupRow : Type 0 where
  pub tenant_id : Text
  pub bucket_start : ℕ
  pub metric : Text
  pub value : ℕ
  pub rollup_version : Text
  pub rolled_up_at : ℕ
  pub granularity : Granularity

pub record RollupRun : Type 0 where
  pub tenant_ids : List Text
  pub start : ℕ
  pub end : ℕ
  pub hourly_rows : ℕ
  pub daily_rows : ℕ

-- What `list_facts` answers.
pub record Facts : Type 0 where
  pub interactions : List InteractionFactRow
  pub llm : List LlmCallFactRow
  pub mes : List MesCallFactRow

-- The facts of a tenant.
unfoldable pub own : Text → Facts → Facts
own tenant facts = record {
  interactions = select (λ f. f.tenant_id == tenant) facts.interactions;
  llm = select (λ f. f.tenant_id == tenant) facts.llm;
  mes = select (λ f. f.tenant_id == tenant) facts.mes;
}

-- `_row` for each metric of a bucket.
abbrev pub bucket_rows : Text → ℕ → Metrics → Text → ℕ → Granularity → List RollupRow
bucket_rows tenant bucket [] version now g = []
bucket_rows tenant bucket ((name, n) ∷ metrics) version now g =
    record {
      tenant_id = tenant;
      bucket_start = bucket;
      metric = name;
      value = n;
      rollup_version = version;
      rolled_up_at = now;
      granularity = g;
    }
    ∷ bucket_rows tenant bucket metrics version now g

abbrev pub rows_of : Text → Buckets → Text → ℕ → Granularity → List RollupRow
rows_of tenant [] version now g = []
rows_of tenant ((bucket, metrics) ∷ buckets) version now g =
    bucket_rows tenant bucket metrics version now g ++ rows_of tenant buckets version now g

-- `set.update` with the keys of the buckets.
unfoldable pub add_buckets : Buckets → List ℕ → List ℕ
unfolding add
add_buckets [] s = s
add_buckets ((bucket, metrics) ∷ buckets) s = add_buckets buckets (add bucket s)

-- What the loop over the tenants gathers.
pub record Gathered : Type 0 where
  pub rows : List RollupRow
  pub hour_buckets : List ℕ
  pub day_buckets : List ℕ

unfoldable pub computed : Text → Facts → List (Text × Text) → Granularity → Option Buckets
unfolding own compute_bucket_metrics
computed tenant facts categories g =
    let mine = own tenant facts in
    compute_bucket_metrics mine.interactions mine.llm mine.mes categories g

unfoldable pub gathered : Text → Buckets → Buckets → Text → ℕ → Gathered → Gathered
unfolding add_buckets
gathered tenant hourly daily version now old = record {
  rows =
      old.rows ++ (rows_of tenant hourly version now hour ++ rows_of tenant daily version now day);
  hour_buckets = add_buckets hourly old.hour_buckets;
  day_buckets = add_buckets daily old.day_buckets;
}

unfoldable pub gather :
    List Text → Facts → List (Text × Text) → Text → ℕ → Gathered → Option Gathered
unfolding computed gathered
gather [] facts categories version now old = some old
gather (tenant ∷ tenants) facts categories version now old =
    elim (computed tenant facts categories hour) [
      | none ↦ none
      | some hourly ↦ elim (computed tenant facts categories day) [
        | none ↦ none
        | some daily ↦
            gather tenants facts categories version now
              (gathered tenant hourly daily version now old)
      ]
    ]

abbrev pub empty : Gathered
empty = record { rows = []; hour_buckets = []; day_buckets = [] }

-- A run, and the rows given to the store.
unfoldable pub rollup_range :
    (List Text → ℕ → ℕ → Facts)
    → List (Text × Text)
    → Text
    → ℕ
    → List Text
    → ℕ
    → ℕ
    → Option (RollupRun × Option (List RollupRow))
unfolding gather
rollup_range list_facts categories version now tenant_ids start end =
    if is_empty tenant_ids || leb end start
    then some (
      record { tenant_ids = tenant_ids; start = start; end = end; hourly_rows = 0; daily_rows = 0 },
      none,
    )
    else elim (gather tenant_ids (list_facts tenant_ids start end) categories version now empty) [
      | none ↦ none
      | some all ↦ some (
        record {
          tenant_ids = tenant_ids;
          start = start;
          end = end;
          hourly_rows = length all.hour_buckets;
          daily_rows = length all.day_buckets;
        },
        some all.rows,
      )
    ]
