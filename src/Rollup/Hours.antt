-- ===== src/Rollup/Hours.antt =====
-- src/factory_agent/application/rollup.py: the daily buckets and the hourly buckets of the same rows.
use factory_agent.Prelude.{
  ℕ, zero, suc, ◌+◌, ◌*◌, ◌/◌, ◌≡◌, refl, sym, ap, ap₂, ◌∙◌, false, ◌&&◌, some, List, [], ◌∷◌, ◌++◌,
  leb, ltb, nat_beq, if◌then◌else◌, ◌==◌, nat_eq, list_eq, Text, text, arith,
}
use factory_agent.Rollup.{
  InteractionFactRow, LlmCallFactRow, MesCallFactRow, hour, day, bucket_key, Update, Buckets, keyed,
  interaction_updates, llm_updates, mes_updates, updates_of, compute_bucket_metrics,
}
use factory_agent.Rollup.Totals.{value, amount, total, compute_bucket_metrics-total}

-- f 0 + … + f (n - 1)
abbrev pub sum_below : ℕ → (ℕ → ℕ) → ℕ
sum_below zero f = 0
sum_below (suc n) f = f n + sum_below n f

sum_below-add : (n : ℕ) (f g : ℕ → ℕ) → sum_below n (λ i. f i + g i) ≡ sum_below n f + sum_below n g
sum_below-add zero f g = omega arith
sum_below-add (suc n) f g = omega (arith, sum_below-add n f g)

sum_below-zero : (n : ℕ) → sum_below n (λ i. 0) ≡ 0
sum_below-zero zero = refl
sum_below-zero (suc n) = omega (arith, sum_below-zero n)

pub sum_below-ext : (n : ℕ) (f g : ℕ → ℕ) → ((i : ℕ) → f i ≡ g i) → sum_below n f ≡ sum_below n g
sum_below-ext zero f g h = refl
sum_below-ext (suc n) f g h = ap₂ (λ a b. a + b) (h n) (sum_below-ext n f g h)

abbrev pub day_start : ℕ → ℕ
day_start q = q * 86400000000

abbrev pub hour_start : ℕ → ℕ → ℕ
hour_start q i = q * 86400000000 + i * 3600000000

-- Among the hours of a day from its start on, one hour at most is the one that is sought.
hours_before :
    (x q k n : ℕ)
    → sum_below k (λ i. if nat_beq (x * 3600000000) (hour_start q i) then n else 0)
      ≡ (if leb (q * 24) x && ltb x (q * 24 + k) then n else 0)
hours_before x q zero n = ground arith
hours_before x q (suc k) n = ground (arith, hours_before x q k n)

-- An instant is in a day exactly when it is in one of the day's hours.
row-hours :
    (t q n : ℕ)
    → (if bucket_key t day == day_start q then n else 0)
      ≡ sum_below 24 (λ i. if bucket_key t hour == hour_start q i then n else 0)
unfolding bucket_key
row-hours t q n = in_day ∙ sym (hours_before (t / 3600000000) q 24 n)
  where
    in_day :
        (if nat_beq (t / 86400000000 * 86400000000) (q * 86400000000) then n else 0)
        ≡ (if leb (q * 24) (t / 3600000000) && ltb (t / 3600000000) (q * 24 + 24) then n else 0)
    in_day = ground arith

abbrev pub amounts : List Update → Text → ℕ
amounts [] metric = 0
amounts (u ∷ updates) metric = amount u metric + amounts updates metric

pub total-keyed :
    (k key : ℕ) (updates : List Update) (metric : Text)
    → total (keyed k updates) key metric ≡ (if k == key then amounts updates metric else 0)
total-keyed k key [] metric = ground arith
total-keyed k key (u ∷ updates) metric = ground (arith, total-keyed k key updates metric)

pub total-append :
    (xs ys : List (ℕ × Update)) (key : ℕ) (metric : Text)
    → total (xs ++ ys) key metric ≡ total xs key metric + total ys key metric
total-append [] ys key metric = omega arith
total-append ((k, u) ∷ xs) ys key metric = omega (arith, total-append xs ys key metric)

-- The rows of one more instant.
step-hours :
    (t q : ℕ) (updates : List Update) (daily hourly : List (ℕ × Update)) (metric : Text)
    → total daily (day_start q) metric ≡ sum_below 24 (λ i. total hourly (hour_start q i) metric)
    → total (keyed (bucket_key t day) updates ++ daily) (day_start q) metric
      ≡ sum_below 24
          (λ i. total (keyed (bucket_key t hour) updates ++ hourly) (hour_start q i) metric)
step-hours t q updates daily hourly metric h =
    total-append (keyed (bucket_key t day) updates) daily (day_start q) metric
    ∙ ap₂ (λ a b. a + b)
        (total-keyed (bucket_key t day) (day_start q) updates metric
          ∙ row-hours t q (amounts updates metric))
        h
    ∙ sym (
        sum_below-ext 24 _ _ (λ i.
          total-append (keyed (bucket_key t hour) updates) hourly (hour_start q i) metric
          ∙ ap (λ a. a + total hourly (hour_start q i) metric)
              (total-keyed (bucket_key t hour) (hour_start q i) updates metric))
        ∙ sum_below-add 24
            (λ i. if bucket_key t hour == hour_start q i then amounts updates metric else 0)
            (λ i. total hourly (hour_start q i) metric))

updates_of-hours :
    (interactions : List InteractionFactRow) (llm : List LlmCallFactRow) (mes : List MesCallFactRow)
    (categories : List (Text × Text)) (q : ℕ) (metric : Text)
    → total (updates_of interactions llm mes categories day) (day_start q) metric
      ≡ sum_below 24
          (λ i. total (updates_of interactions llm mes categories hour) (hour_start q i) metric)
unfolding updates_of
updates_of-hours [] [] [] categories q metric = sym (sum_below-zero 24)
updates_of-hours [] [] (f ∷ mes) categories q metric =
    step-hours f.occurred_at q (mes_updates categories f) _ _ metric
      (updates_of-hours [] [] mes categories q metric)
updates_of-hours [] (f ∷ llm) mes categories q metric =
    step-hours f.occurred_at q (llm_updates f) _ _ metric
      (updates_of-hours [] llm mes categories q metric)
updates_of-hours (f ∷ interactions) llm mes categories q metric =
    step-hours f.occurred_at q (interaction_updates f) _ _ metric
      (updates_of-hours interactions llm mes categories q metric)

-- For the same rows, each metric of a daily bucket but the two set sizes is the sum of that metric
-- over the hourly buckets of the day's twenty-four hours; an hour without a bucket counts nothing.
pub compute_bucket_metrics-hours :
    (interactions : List InteractionFactRow) (llm : List LlmCallFactRow) (mes : List MesCallFactRow)
    (categories : List (Text × Text)) (daily hourly : Buckets) (q : ℕ) (metric : Text)
    → compute_bucket_metrics interactions llm mes categories day ≡ some daily
    → compute_bucket_metrics interactions llm mes categories hour ≡ some hourly
    → (text "users" == metric) ≡ false
    → (text "llm_logical_calls" == metric) ≡ false
    → value daily (day_start q) metric ≡ sum_below 24 (λ i. value hourly (hour_start q i) metric)
compute_bucket_metrics-hours interactions llm mes categories daily hourly q metric hd hh hu hc =
    compute_bucket_metrics-total interactions llm mes categories day daily (day_start q) metric hd
      hu hc
    ∙ updates_of-hours interactions llm mes categories q metric
    ∙ sym (
        sum_below-ext 24 _ _ (λ i.
          compute_bucket_metrics-total interactions llm mes categories hour hourly (hour_start q i)
            metric hh hu hc))
