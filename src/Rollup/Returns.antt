-- ===== src/Rollup/Returns.antt =====
-- src/factory_agent/application/rollup.py: a run over reviewed categories writes its rows.
use factory_agent.Prelude.{
  ℕ, ◌≡◌, refl, Bool, true, false, ◌||◌, Option, none, some, List, [], ◌∷◌, all, leb, is_empty,
  length, if◌then◌else◌, nat_eq, list_eq, Text,
}
use factory_agent.Rollup.{Granularity, hour, day, Buckets, is_some}
use factory_agent.Rollup.Known.{are_reviewed, compute_bucket_metrics-known}
use factory_agent.Rollup.Range.{
  RollupRow, RollupRun, Facts, own, computed, Gathered, gathered, gather, empty, rollup_range,
}

computed-known :
    (u : Text) (facts : Facts) (categories : List (Text × Text)) (g : Granularity)
    → are_reviewed categories ≡ true
    → is_some (computed u facts categories g) ≡ true
unfolding computed
computed-known u facts categories g h =
    let mine = own u facts in
    compute_bucket_metrics-known mine.interactions mine.llm mine.mes categories g h

gather-known :
    (tenants : List Text) (facts : Facts) (categories : List (Text × Text)) (version : Text)
    (now : ℕ) (old : Gathered)
    → are_reviewed categories ≡ true
    → is_some (gather tenants facts categories version now old) ≡ true
unfolding gather
gather-known [] facts categories version now old h = refl
gather-known (u ∷ tenants) facts categories version now old h =
    go (computed u facts categories hour) (computed u facts categories day) (known hour) (known day)
      (λ hourly daily.
        gather-known tenants facts categories version now (gathered u hourly daily version now old)
          h)
  where
    known : (g : Granularity) → is_some (computed u facts categories g) ≡ true
    known g = computed-known u facts categories g h

    go :
        (a b : Option Buckets)
        → is_some a ≡ true
        → is_some b ≡ true
        → ((hourly daily : Buckets)
            → is_some (
                gather tenants facts categories version now
                  (gathered u hourly daily version now old))
              ≡ true)
        → is_some {A = Gathered} (elim a [
          | none ↦ none
          | some hourly ↦ elim b [
            | none ↦ none
            | some daily ↦
                gather tenants facts categories version now
                  (gathered u hourly daily version now old)
          ]
        ])
          ≡ true
    go none b ha hb next = ha
    go (some hourly) none ha hb next = hb
    go (some hourly) (some daily) ha hb next = next hourly daily

-- When every category that the operations have is one of the four, a run returns, whatever the facts
-- are: no name is missing in a bucket.
pub rollup_range-known :
    (list_facts : List Text → ℕ → ℕ → Facts) (categories : List (Text × Text)) (version : Text)
    (now : ℕ) (tenant_ids : List Text) (start end : ℕ)
    → are_reviewed categories ≡ true
    → is_some (rollup_range list_facts categories version now tenant_ids start end) ≡ true
unfolding rollup_range
rollup_range-known list_facts categories version now tenant_ids start end h =
    go (is_empty tenant_ids || leb end start)
      (gather tenant_ids (list_facts tenant_ids start end) categories version now empty)
      (gather-known tenant_ids (list_facts tenant_ids start end) categories version now empty h)
  where
    go :
        (b : Bool) (o : Option Gathered)
        → is_some o ≡ true
        → is_some {A = RollupRun × Option (List RollupRow)} (
            if b
            then some (
              record {
                tenant_ids = tenant_ids;
                start = start;
                end = end;
                hourly_rows = 0;
                daily_rows = 0;
              },
              none,
            )
            else elim o [
              | none ↦ none
              | some all ↦ some (
                record {
                  tenant_ids = tenant_ids;
                  start = start;
                  end = end;
                  hourly_rows = length all.hour_buckets;
                  daily_rows = length all.day_buckets;
                },
                some all.rows,
              )
            ])
          ≡ true
    go true o k = refl
    go false none k = k
    go false (some all) k = refl
