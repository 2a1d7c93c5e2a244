-- ===== src/Rollup/Totals.antt =====
-- src/factory_agent/application/rollup.py: what a bucket holds is the sum of what the rows add to it.
use factory_agent.Prelude.{
  ℕ, ◌+◌, ◌≡◌, refl, sym, ap, ◌∙◌, inl, inr, Bool, true, false, Option, none, some, List, [], ◌∷◌,
  all, nat_beq, if◌then◌else◌, ◌==◌, nat_eq, list_eq, list_beq_iff, nat_beq_iff, Text, text, get,
  put, get-put, arith, Bool-cases,
}
use factory_agent.Rollup.{
  InteractionFactRow, LlmCallFactRow, MesCallFactRow, Metrics, base_bucket, Granularity, Update,
  touches, adds, Buckets, bucket_or_base, apply, apply_all, updates_of, with_sizes, users_of,
  calls_of, compute_bucket_metrics,
}

abbrev pub or_zero : Option ℕ → ℕ
or_zero none = 0
or_zero (some n) = n

abbrev pub value_in : Option Metrics → Text → ℕ
value_in none metric = 0
value_in (some metrics) metric = or_zero (get metric metrics)

-- What a bucket holds of a metric; nothing when there is no bucket.
abbrev pub value : Buckets → ℕ → Text → ℕ
value buckets key metric = value_in (get key buckets) metric

-- What an update adds to a metric.
abbrev pub amount : Update → Text → ℕ
amount touches metric = 0
amount (adds name n) metric = if name == metric then n else 0

abbrev pub total : List (ℕ × Update) → ℕ → Text → ℕ
total [] key metric = 0
total ((k, u) ∷ updates) key metric =
    (if k == key then amount u metric else 0) + total updates key metric

get-zero :
    (metrics : Metrics) (metric : Text)
    → all (λ entry. nat_beq entry.1 0) metrics ≡ true
    → or_zero (get metric metrics) ≡ 0
unfolding get
get-zero [] metric h = refl
get-zero ((name, n) ∷ metrics) metric h = elim (Bool-cases (name == metric)) [
  | inl here ↦ ground (arith, here, h)
  | inr there ↦ rw there (get-zero metrics metric (ground (arith, h)))
]

value-bucket_or_base :
    (o : Option Metrics) (metric : Text)
    → or_zero (get metric (bucket_or_base o)) ≡ value_in o metric
value-bucket_or_base none metric = get-zero base_bucket metric refl
value-bucket_or_base (some metrics) metric = refl

value_in-if :
    (b : Bool) (metrics : Metrics) (o : Option Metrics) (metric : Text)
    → value_in (if b then some metrics else o) metric
      ≡ (if b then or_zero (get metric metrics) else value_in o metric)
value_in-if true metrics o metric = refl
value_in-if false metrics o metric = refl

or_zero-if :
    (b : Bool) (n : ℕ) (o : Option ℕ)
    → or_zero (if b then some n else o) ≡ (if b then n else or_zero o)
or_zero-if true n o = refl
or_zero-if false n o = refl

-- A bucket that is put into its place.
value-put :
    (k key : ℕ) (metrics : Metrics) (buckets : Buckets) (metric : Text)
    → value (put k metrics buckets) key metric
      ≡ (if k == key then or_zero (get metric metrics) else value buckets key metric)
value-put k key metrics buckets metric =
    ap (λ o. value_in o metric) (get-put k key metrics buckets)
    ∙ value_in-if (k == key) metrics (get key buckets) metric

add-value :
    (name metric : Text) (v n : ℕ) (metrics : Metrics)
    → get name metrics ≡ some v
    → or_zero (get metric (put name (v + n) metrics))
      ≡ or_zero (get metric metrics) + (if name == metric then n else 0)
add-value name metric v n metrics h =
    ap or_zero (get-put name metric (v + n) metrics)
    ∙ or_zero-if (name == metric) (v + n) (get metric metrics)
    ∙ elim (Bool-cases (name == metric)) [
      | inl here ↦
          let old : get metric metrics ≡ some v =
            ap (λ x. get x metrics) (sym ((list_beq_iff name metric).0 here)) ∙ h in
          rw (here, old) refl
      | inr there ↦ rw there (omega arith)
    ]

abbrev Adds : Buckets → ℕ → Update → Option Buckets → Type 0
Adds buckets k u none = Unit
Adds buckets k u (some buckets') =
    (key : ℕ) (metric : Text)
    → value buckets' key metric
      ≡ value buckets key metric + (if k == key then amount u metric else 0)

-- A bucket that grows in place.
grown :
    (k key : ℕ) (old new : Metrics) (buckets : Buckets) (metric : Text) (n : ℕ)
    → or_zero (get metric old) ≡ value buckets k metric
    → or_zero (get metric new) ≡ or_zero (get metric old) + n
    → value (put k new buckets) key metric ≡ value buckets key metric + (if k == key then n else 0)
grown k key old new buckets metric n h g =
    value-put k key new buckets metric ∙ elim (Bool-cases (k == key)) [
      | inl here ↦
          rw here (
            g ∙ ap (λ x. x + n) (h ∙ ap (λ j. value buckets j metric) ((nat_beq_iff k key).0 here)))
      | inr there ↦ rw there (omega arith)
    ]

apply-Adds : (k : ℕ) (u : Update) (buckets : Buckets) → Adds buckets k u (apply k u buckets)
unfolding apply
apply-Adds k touches buckets = λ key metric.
    let old = bucket_or_base (get k buckets) in
    grown k key old old buckets metric 0 (value-bucket_or_base (get k buckets) metric) (omega arith)
apply-Adds k (adds name n) buckets = go (get name (bucket_or_base (get k buckets))) refl
  where
    go :
        (o : Option ℕ)
        → get name (bucket_or_base (get k buckets)) ≡ o
        → Adds buckets k (adds name n) (elim o [
          | none ↦ none
          | some v ↦ some (put k (put name (v + n) (bucket_or_base (get k buckets))) buckets)
        ])
    go none h = tt
    go (some v) h = λ key metric.
        grown k key (bucket_or_base (get k buckets)) _ buckets metric _
          (value-bucket_or_base (get k buckets) metric)
          (add-value name metric v n (bucket_or_base (get k buckets)) h)

apply_all-total :
    (updates : List (ℕ × Update)) (buckets buckets' : Buckets) (key : ℕ) (metric : Text)
    → apply_all updates buckets ≡ some buckets'
    → value buckets' key metric ≡ value buckets key metric + total updates key metric
unfolding apply_all
apply_all-total [] buckets buckets' key metric h =
    let same : buckets ≡ buckets' = cc in ap (λ b. value b key metric) (sym same) ∙ omega arith
apply_all-total ((k, u) ∷ updates) buckets buckets' key metric h =
    go (apply k u buckets) (apply-Adds k u buckets)
      (λ b. apply_all-total updates b buckets' key metric) h
  where
    go :
        (o : Option Buckets)
        → Adds buckets k u o
        → ((b : Buckets)
            → apply_all updates b ≡ some buckets'
            → value buckets' key metric ≡ value b key metric + total updates key metric)
        → ◌≡◌ {A = Option Buckets}
            (elim o [ none ↦ none | some b ↦ apply_all updates b ])
            (some buckets')
        → value buckets' key metric
          ≡ value buckets key metric
            + ((if k == key then amount u metric else 0) + total updates key metric)
    go none a ih e = cc
    go (some b) a ih e = omega (arith, ih b e, a key metric)

skip :
    (name metric : Text) (n : ℕ) (metrics : Metrics)
    → (name == metric) ≡ false
    → get metric (put name n metrics) ≡ get metric metrics
skip name metric n metrics h = get-put name metric n metrics ∙ rw h refl

zero_value : (key : ℕ) (metric : Text) (n : ℕ) → value [] key metric + n ≡ n
unfolding get
zero_value key metric n = omega arith

value-with_sizes :
    (users calls : List (ℕ × List Text)) (buckets : Buckets) (key : ℕ) (metric : Text)
    → (text "users" == metric) ≡ false
    → (text "llm_logical_calls" == metric) ≡ false
    → value (with_sizes users calls buckets) key metric ≡ value buckets key metric
unfolding with_sizes get
value-with_sizes users calls [] key metric hu hc = refl
value-with_sizes users calls ((k, metrics) ∷ buckets) key metric hu hc =
    elim (Bool-cases (k == key)) [
      | inl here ↦ rw here (
          ap or_zero (
            skip (text "llm_logical_calls") metric _ (put (text "users") _ metrics) hc
            ∙ skip (text "users") metric _ metrics hu))
      | inr there ↦ rw there (value-with_sizes users calls buckets key metric hu hc)
    ]

-- In every bucket that is computed, each metric but the two set sizes is the sum of what the rows
-- of the bucket add to it.
pub compute_bucket_metrics-total :
    (interactions : List InteractionFactRow) (llm : List LlmCallFactRow) (mes : List MesCallFactRow)
    (categories : List (Text × Text)) (g : Granularity) (buckets : Buckets) (key : ℕ)
    (metric : Text)
    → compute_bucket_metrics interactions llm mes categories g ≡ some buckets
    → (text "users" == metric) ≡ false
    → (text "llm_logical_calls" == metric) ≡ false
    → value buckets key metric ≡ total (updates_of interactions llm mes categories g) key metric
unfolding compute_bucket_metrics
compute_bucket_metrics-total interactions llm mes categories g buckets key metric h hu hc =
    go (apply_all (updates_of interactions llm mes categories g) []) refl h
  where
    go :
        (o : Option Buckets)
        → apply_all (updates_of interactions llm mes categories g) [] ≡ o
        → ◌≡◌ {A = Option Buckets}
            (elim o [
              | none ↦ none
              | some b ↦ some (with_sizes (users_of interactions g []) (calls_of llm g []) b)
            ])
            (some buckets)
        → value buckets key metric ≡ total (updates_of interactions llm mes categories g) key metric
    go none a e = cc
    go (some b) a e =
        let same : with_sizes (users_of interactions g []) (calls_of llm g []) b ≡ buckets = cc in
        ap (λ x. value x key metric) (sym same)
        ∙ value-with_sizes (users_of interactions g []) (calls_of llm g []) b key metric hu hc
        ∙ apply_all-total (updates_of interactions llm mes categories g) [] b key metric a
        ∙ zero_value key metric (total (updates_of interactions llm mes categories g) key metric)
