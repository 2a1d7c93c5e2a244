-- ===== src/Rollup/Known.antt =====
-- src/factory_agent/application/rollup.py: no `KeyError` while the categories are the reviewed ones.
use factory_agent.Prelude.{
  ℕ, ◌+◌, ◌≡◌, refl, sym, ap, ◌∙◌, inl, inr, Bool, true, false, ◌&&◌, Option, none, some, List, [],
  ◌∷◌, ◌++◌, all, if◌then◌else◌, ◌==◌, nat_eq, list_eq, list_beq_iff, contains, contains_of_all,
  and-eq-true, Text, text, get, put, get-put, Bool-cases,
}
use factory_agent.Rollup.Names.{is_base_name, satisfies, interaction_updates-satisfies}
use factory_agent.Rollup.{
  InteractionFactRow, LlmCallFactRow, MesCallFactRow, Metrics, base_bucket, mes_categories,
  Granularity, bucket_key, Update, touches, adds, Buckets, bucket_or_base, apply, apply_all,
  is_some, interaction_updates, llm_updates, category_or_other, mes_updates, keyed, updates_of,
  compute_bucket_metrics,
}

-- The bucket has the names of a new bucket.
abbrev HasNames : Metrics → Type 0
HasNames metrics = (name : Text) → is_some (get name metrics) ≡ is_some (get name base_bucket)

abbrev HaveNames : Buckets → Type 0
HaveNames buckets = (key : ℕ) → HasNames (bucket_or_base (get key buckets))

abbrev is_known : Update → Bool
is_known = satisfies is_base_name

is_some-if :
    (b : Bool) (n : ℕ) (o : Option ℕ)
    → is_some (if b then some n else o) ≡ (if b then true else is_some o)
is_some-if true n o = refl
is_some-if false n o = refl

bucket_or_base-if :
    (b : Bool) (metrics : Metrics) (o : Option Metrics)
    → HasNames metrics
    → HasNames (bucket_or_base o)
    → HasNames (bucket_or_base (if b then some metrics else o))
bucket_or_base-if true metrics o h k = h
bucket_or_base-if false metrics o h k = k

put-HaveNames :
    (k : ℕ) (metrics : Metrics) (buckets : Buckets)
    → HasNames metrics
    → HaveNames buckets
    → HaveNames (put k metrics buckets)
put-HaveNames k metrics buckets h hs = λ key name.
    ap (λ o. is_some (get name (bucket_or_base o))) (get-put k key metrics buckets)
    ∙ bucket_or_base-if (k == key) metrics (get key buckets) h (hs key) name

put-HasNames :
    (name : Text) (n : ℕ) (metrics : Metrics)
    → HasNames metrics
    → is_some (get name base_bucket) ≡ true
    → HasNames (put name n metrics)
put-HasNames name n metrics h k = λ other.
    ap is_some (get-put name other n metrics)
    ∙ is_some-if (name == other) n (get other metrics)
    ∙ elim (Bool-cases (name == other)) [
      | inl here ↦
          let same : is_some (get other base_bucket) ≡ true =
            ap (λ x. is_some (get x base_bucket)) (sym ((list_beq_iff name other).0 here)) ∙ k in
          rw (here, same) refl
      | inr there ↦ rw there (h other)
    ]

apply-HaveNames :
    (k : ℕ) (u : Update) (buckets : Buckets)
    → HaveNames buckets
    → is_known u ≡ true
    → (buckets' : Buckets) × (apply k u buckets ≡ some buckets') × HaveNames buckets'
unfolding apply
apply-HaveNames k touches buckets hs h = (
  put k (bucket_or_base (get k buckets)) buckets,
  refl,
  put-HaveNames k (bucket_or_base (get k buckets)) buckets (hs k) hs,
)
apply-HaveNames k (adds name n) buckets hs h =
    go (get name (bucket_or_base (get k buckets))) (hs k name ∙ h)
  where
    go :
        (o : Option ℕ)
        → is_some o ≡ true
        → (buckets' : Buckets) × (◌≡◌ {A = Option Buckets}
            (elim o [
              | none ↦ none
              | some v ↦ some (put k (put name (v + n) (bucket_or_base (get k buckets))) buckets)
            ])
            (some buckets'))
          × HaveNames buckets'
    go none e = cc
    go (some v) e = (
      put k (put name (v + n) (bucket_or_base (get k buckets))) buckets,
      refl,
      put-HaveNames k (put name (v + n) (bucket_or_base (get k buckets))) buckets
          (put-HasNames name (v + n) (bucket_or_base (get k buckets)) (hs k) h) hs,
    )

abbrev are_known : List (ℕ × Update) → Bool
are_known [] = true
are_known ((k, u) ∷ updates) = is_known u && are_known updates

apply_all-some :
    (updates : List (ℕ × Update)) (buckets : Buckets)
    → HaveNames buckets
    → are_known updates ≡ true
    → (buckets' : Buckets) × (apply_all updates buckets ≡ some buckets')
unfolding apply_all
apply_all-some [] buckets hs h = (buckets, refl)
apply_all-some ((k, u) ∷ updates) buckets hs h =
    let (hu, hus) = (and-eq-true (is_known u) (are_known updates)).0 h in
    let (b, e, hb) = apply-HaveNames k u buckets hs hu in
    let (b', e') = apply_all-some updates b hb hus in (b', rw (e, apply_all) e')

are_known-append :
    (xs ys : List (ℕ × Update))
    → are_known xs ≡ true
    → are_known ys ≡ true
    → are_known (xs ++ ys) ≡ true
are_known-append [] ys h k = k
are_known-append ((i, u) ∷ xs) ys h k =
    let (hu, hus) = (and-eq-true (is_known u) (are_known xs)).0 h in
    (and-eq-true _ _).1 (hu, are_known-append xs ys hus k)

are_known-keyed :
    (k : ℕ) (updates : List Update)
    → all is_known updates ≡ true
    → are_known (keyed k updates) ≡ true
are_known-keyed k [] h = refl
are_known-keyed k (u ∷ updates) h =
    let (hu, hus) = (and-eq-true (is_known u) (all is_known updates)).0 h in
    (and-eq-true _ _).1 (hu, are_known-keyed k updates hus)

interaction_updates-known :
    (fact : InteractionFactRow) → all is_known (interaction_updates fact) ≡ true
unfolding get
interaction_updates-known fact =
    interaction_updates-satisfies is_base_name fact refl (λ status h. h)

llm_updates-known : (fact : LlmCallFactRow) → all is_known (llm_updates fact) ≡ true
unfolding llm_updates get
llm_updates-known fact = refl

-- Each category that an operation has is one of the four.
abbrev pub are_reviewed : List (Text × Text) → Bool
are_reviewed categories = all (λ entry. contains mes_categories entry.1) categories

pub category-known :
    (categories : List (Text × Text)) (operation_id : Text)
    → are_reviewed categories ≡ true
    → contains mes_categories (category_or_other (get operation_id categories)) ≡ true
unfolding get
category-known [] operation_id h = refl
category-known ((operation, category) ∷ categories) operation_id h =
    let (hc, hcs) =
      (and-eq-true (contains mes_categories category) (are_reviewed categories)).0 h in
    elim (Bool-cases (operation == operation_id)) [
      | inl here ↦ rw here hc
      | inr there ↦ rw there (category-known categories operation_id hcs)
    ]

mes_calls-known :
    (category : Text)
    → contains mes_categories category ≡ true
    → is_some (get (text "mes_calls." ++ category) base_bucket) ≡ true
unfolding get
mes_calls-known category h =
    contains_of_all (λ c. is_some (get (text "mes_calls." ++ c) base_bucket)) mes_categories
      category refl h

mes_updates-known :
    (categories : List (Text × Text)) (fact : MesCallFactRow)
    → are_reviewed categories ≡ true
    → all is_known (mes_updates categories fact) ≡ true
unfolding mes_updates
mes_updates-known categories fact h =
    let known =
      mes_calls-known (category_or_other (get fact.operation_id categories))
        (category-known categories fact.operation_id h) in
    elim (Bool-cases (fact.status == text "completed")) [
      | inl here ↦ rw (here, known) refl
      | inr there ↦ rw (there, known) refl
    ]

step-known :
    (k : ℕ) (updates : List Update) (rest : List (ℕ × Update))
    → all is_known updates ≡ true
    → are_known rest ≡ true
    → are_known (keyed k updates ++ rest) ≡ true
step-known k updates rest h r =
    are_known-append (keyed k updates) rest (are_known-keyed k updates h) r

updates_of-known :
    (interactions : List InteractionFactRow) (llm : List LlmCallFactRow) (mes : List MesCallFactRow)
    (categories : List (Text × Text)) (g : Granularity)
    → are_reviewed categories ≡ true
    → are_known (updates_of interactions llm mes categories g) ≡ true
unfolding updates_of
updates_of-known [] [] [] categories g h = refl
updates_of-known [] [] (f ∷ mes) categories g h =
    step-known (bucket_key f.occurred_at g) (mes_updates categories f)
      (updates_of [] [] mes categories g) (mes_updates-known categories f h)
      (updates_of-known [] [] mes categories g h)
updates_of-known [] (f ∷ llm) mes categories g h =
    step-known (bucket_key f.occurred_at g) (llm_updates f) (updates_of [] llm mes categories g)
      (llm_updates-known f) (updates_of-known [] llm mes categories g h)
updates_of-known (f ∷ interactions) llm mes categories g h =
    step-known (bucket_key f.occurred_at g) (interaction_updates f)
      (updates_of interactions llm mes categories g) (interaction_updates-known f)
      (updates_of-known interactions llm mes categories g h)

-- When every category that the operations have is one of the four, the metrics are computed for any
-- rows and either granularity: no name is missing in a bucket.
pub compute_bucket_metrics-known :
    (interactions : List InteractionFactRow) (llm : List LlmCallFactRow) (mes : List MesCallFactRow)
    (categories : List (Text × Text)) (g : Granularity)
    → are_reviewed categories ≡ true
    → is_some (compute_bucket_metrics interactions llm mes categories g) ≡ true
unfolding compute_bucket_metrics get
compute_bucket_metrics-known interactions llm mes categories g h =
    let (buckets, e) =
      apply_all-some (updates_of interactions llm mes categories g) [] (λ key name. refl)
        (updates_of-known interactions llm mes categories g h) in
    rw (e, compute_bucket_metrics) refl
