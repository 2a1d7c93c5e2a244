-- ===== src/Rollup/Split.antt =====
-- src/factory_agent/application/rollup.py: the calls of the MES are split by status and by category
-- without loss.
use factory_agent.Prelude.{
  ℕ, ◌+◌, ◌≡◌, refl, sym, ap, ap₂, ◌∙◌, inl, inr, Bool, true, false, not, and-eq-true, list_beq_iff,
  some, List, [], ◌∷◌, ◌++◌, all, if◌then◌else◌, ◌==◌, nat_eq, list_eq, contains, contains_of_all,
  nat_beq_iff, nat_beq, Text, text, get, arith, Bool-cases,
}
use factory_agent.Rollup.{
  InteractionFactRow, LlmCallFactRow, MesCallFactRow, mes_categories, Granularity, bucket_key,
  Update, touches, adds, Buckets, interaction_updates, llm_updates, category_or_other, mes_updates,
  keyed, updates_of, compute_bucket_metrics,
}
use factory_agent.Rollup.Totals.{value, total, compute_bucket_metrics-total}
use factory_agent.Rollup.Hours.{amounts, total-keyed, total-append}
use factory_agent.Rollup.Known.{are_reviewed, category-known}
use factory_agent.Rollup.Names.{satisfies, interaction_updates-satisfies}

-- The sum of f over the metrics.
abbrev pub sum_over : List Text → (Text → ℕ) → ℕ
sum_over [] f = 0
sum_over (metric ∷ metrics) f = f metric + sum_over metrics f

abbrev pub status_metrics : List Text
status_metrics = text "mes_calls.completed" ∷ text "mes_calls.failed" ∷ []

abbrev pub names : List Text → List Text
names [] = []
names (c ∷ categories) = (text "mes_calls." ++ c) ∷ names categories

sum_over-add :
    (metrics : List Text) (f g : Text → ℕ)
    → sum_over metrics (λ m. f m + g m) ≡ sum_over metrics f + sum_over metrics g
sum_over-add [] f g = refl
sum_over-add (m ∷ metrics) f g = omega (arith, sum_over-add metrics f g)

sum_over-if :
    (b : Bool) (metrics : List Text) (f : Text → ℕ)
    → sum_over metrics (λ m. if b then f m else 0) ≡ (if b then sum_over metrics f else 0)
sum_over-if true metrics f = refl
sum_over-if false [] f = refl
sum_over-if false (m ∷ metrics) f = omega (arith, sum_over-if false metrics f)

sum_over-ext :
    (metrics : List Text) (f g : Text → ℕ)
    → ((m : Text) → f m ≡ g m)
    → sum_over metrics f ≡ sum_over metrics g
sum_over-ext [] f g h = refl
sum_over-ext (m ∷ metrics) f g h = ap₂ (λ a b. a + b) (h m) (sum_over-ext metrics f g h)

-- The updates split the calls over the metrics.
abbrev IsSplit : List Text → List Update → Type 0
IsSplit metrics updates = amounts updates (text "mes_calls") ≡ sum_over metrics (amounts updates)

if-ap : (b : Bool) (m n : ℕ) → m ≡ n → (if b then m else 0) ≡ (if b then n else 0)
if-ap b m n h = ap (λ x. if b then x else 0) h

step-split :
    (metrics : List Text) (k key : ℕ) (updates : List Update) (rest : List (ℕ × Update))
    → IsSplit metrics updates
    → total rest key (text "mes_calls") ≡ sum_over metrics (total rest key)
    → total (keyed k updates ++ rest) key (text "mes_calls")
      ≡ sum_over metrics (total (keyed k updates ++ rest) key)
step-split metrics k key updates rest h r =
    each (text "mes_calls")
    ∙ ap₂ (λ a b. a + b)
        (if-ap (k == key) _ _ h ∙ sym (sum_over-if (k == key) metrics (amounts updates))) r
    ∙ sym (
        sum_over-ext metrics _ _ each
        ∙ sum_over-add metrics (λ m. if k == key then amounts updates m else 0) (total rest key))
  where
    each :
        (m : Text)
        → total (keyed k updates ++ rest) key m
          ≡ (if k == key then amounts updates m else 0) + total rest key m
    each m =
        total-append (keyed k updates) rest key m
        ∙ ap (λ a. a + total rest key m) (total-keyed k key updates m)

updates_of-split :
    (metrics : List Text) (interactions : List InteractionFactRow) (llm : List LlmCallFactRow)
    (mes : List MesCallFactRow) (categories : List (Text × Text)) (g : Granularity) (key : ℕ)
    → sum_over metrics (λ m. 0) ≡ 0
    → ((fact : InteractionFactRow) → IsSplit metrics (interaction_updates fact))
    → ((fact : LlmCallFactRow) → IsSplit metrics (llm_updates fact))
    → ((fact : MesCallFactRow) → IsSplit metrics (mes_updates categories fact))
    → total (updates_of interactions llm mes categories g) key (text "mes_calls")
      ≡ sum_over metrics (total (updates_of interactions llm mes categories g) key)
unfolding updates_of
updates_of-split metrics [] [] [] categories g key z hi hl hm = sym z
updates_of-split metrics [] [] (f ∷ mes) categories g key z hi hl hm =
    step-split metrics (bucket_key f.occurred_at g) key (mes_updates categories f)
      (updates_of [] [] mes categories g) (hm f)
      (updates_of-split metrics [] [] mes categories g key z hi hl hm)
updates_of-split metrics [] (f ∷ llm) mes categories g key z hi hl hm =
    step-split metrics (bucket_key f.occurred_at g) key (llm_updates f)
      (updates_of [] llm mes categories g) (hl f)
      (updates_of-split metrics [] llm mes categories g key z hi hl hm)
updates_of-split metrics (f ∷ interactions) llm mes categories g key z hi hl hm =
    step-split metrics (bucket_key f.occurred_at g) key (interaction_updates f)
      (updates_of interactions llm mes categories g) (hi f)
      (updates_of-split metrics interactions llm mes categories g key z hi hl hm)

abbrev split_names : List Text
split_names = text "mes_calls" ∷ status_metrics ++ names mes_categories

-- The name is not one that the calls are split over.
abbrev is_quiet : Text → Bool
is_quiet name = not (contains split_names name)

quiet-amounts :
    (updates : List Update) (metric : Text)
    → all (satisfies is_quiet) updates ≡ true
    → contains split_names metric ≡ true
    → amounts updates metric ≡ 0
quiet-amounts [] metric h m = refl
quiet-amounts (touches ∷ updates) metric h m = omega (arith, quiet-amounts updates metric h m)
quiet-amounts (adds name n ∷ updates) metric h m =
    let (hn, hs) = (and-eq-true (is_quiet name) (all (satisfies is_quiet) updates)).0 h in
    elim (Bool-cases (name == metric)) [
      | inl here ↦
          let same : contains split_names name ≡ contains split_names metric =
            ap (contains split_names) ((list_beq_iff name metric).0 here) in
          let clash : not (contains split_names name) ≡ false = rw (same, m) refl in cc
      | inr there ↦ rw there (omega (arith, quiet-amounts updates metric hs m))
    ]

sum_over-zero :
    (metrics : List Text) (f : Text → ℕ)
    → ((m : Text) → contains split_names m ≡ true → f m ≡ 0)
    → all (contains split_names) metrics ≡ true
    → sum_over metrics f ≡ 0
sum_over-zero [] f h k = refl
sum_over-zero (m ∷ metrics) f h k =
    let (km, ks) =
      (and-eq-true (contains split_names m) (all (contains split_names) metrics)).0 k in
    omega (arith, h m km, sum_over-zero metrics f h ks)

quiet-IsSplit :
    (metrics : List Text) (updates : List Update)
    → all (contains split_names) metrics ≡ true
    → all (satisfies is_quiet) updates ≡ true
    → IsSplit metrics updates
quiet-IsSplit metrics updates k h =
    quiet-amounts updates (text "mes_calls") h refl
    ∙ sym (sum_over-zero metrics (amounts updates) (λ m c. quiet-amounts updates m h c) k)

interactions-IsSplit :
    (metrics : List Text)
    → all (contains split_names) metrics ≡ true
    → (fact : InteractionFactRow) → IsSplit metrics (interaction_updates fact)
interactions-IsSplit metrics k fact =
    quiet-IsSplit metrics (interaction_updates fact) k
      (interaction_updates-satisfies is_quiet fact refl (λ status h. refl))

llm-IsSplit :
    (metrics : List Text)
    → all (contains split_names) metrics ≡ true
    → (fact : LlmCallFactRow) → IsSplit metrics (llm_updates fact)
unfolding llm_updates
llm-IsSplit metrics k fact = quiet-IsSplit metrics (llm_updates fact) k refl

-- What a row of the MES adds, by whether it completed and by its category.
abbrev mes_call : Bool → Text → List Update
mes_call completed category =
    adds (text "mes_calls") 1
    ∷ adds (text "mes_calls." ++ (if completed then text "completed" else text "failed")) 1
    ∷ adds (text "mes_calls." ++ category) 1
    ∷ []

abbrev is_split : List Text → List Update → Bool
is_split metrics updates =
    nat_beq (amounts updates (text "mes_calls")) (sum_over metrics (amounts updates))

mes_call-IsSplit :
    (metrics : List Text) (completed : Bool) (category : Text)
    → all (λ c. is_split metrics (mes_call true c)) mes_categories ≡ true
    → all (λ c. is_split metrics (mes_call false c)) mes_categories ≡ true
    → contains mes_categories category ≡ true
    → IsSplit metrics (mes_call completed category)
mes_call-IsSplit metrics true category t f h =
    (nat_beq_iff _ _).0
      (contains_of_all (λ c. is_split metrics (mes_call true c)) mes_categories category t h)
mes_call-IsSplit metrics false category t f h =
    (nat_beq_iff _ _).0
      (contains_of_all (λ c. is_split metrics (mes_call false c)) mes_categories category f h)

mes-IsSplit :
    (metrics : List Text) (categories : List (Text × Text)) (fact : MesCallFactRow)
    → all (λ c. is_split metrics (mes_call true c)) mes_categories ≡ true
    → all (λ c. is_split metrics (mes_call false c)) mes_categories ≡ true
    → are_reviewed categories ≡ true
    → IsSplit metrics (mes_updates categories fact)
unfolding mes_updates
mes-IsSplit metrics categories fact t f h =
    mes_call-IsSplit metrics (fact.status == text "completed")
      (category_or_other (get fact.operation_id categories)) t f
      (category-known categories fact.operation_id h)

-- One way to split the calls, over every row.
split_over :
    (metrics : List Text) (interactions : List InteractionFactRow) (llm : List LlmCallFactRow)
    (mes : List MesCallFactRow) (categories : List (Text × Text)) (g : Granularity) (key : ℕ)
    → are_reviewed categories ≡ true
    → all (contains split_names) metrics ≡ true
    → all (λ c. is_split metrics (mes_call true c)) mes_categories ≡ true
    → all (λ c. is_split metrics (mes_call false c)) mes_categories ≡ true
    → total (updates_of interactions llm mes categories g) key (text "mes_calls")
      ≡ sum_over metrics (total (updates_of interactions llm mes categories g) key)
split_over metrics interactions llm mes categories g key h k t f =
    updates_of-split metrics interactions llm mes categories g key
      (sum_over-zero metrics (λ m. 0) (λ m c. refl) k) (interactions-IsSplit metrics k)
      (llm-IsSplit metrics k) (λ fact. mes-IsSplit metrics categories fact t f h)

-- When every category that the operations have is one of the four, in every bucket that is computed
-- the calls of the MES are the completed calls and the failed ones, and are also the sum of the
-- calls over the four categories.
pub compute_bucket_metrics-split :
    (interactions : List InteractionFactRow) (llm : List LlmCallFactRow) (mes : List MesCallFactRow)
    (categories : List (Text × Text)) (g : Granularity) (buckets : Buckets) (key : ℕ)
    → compute_bucket_metrics interactions llm mes categories g ≡ some buckets
    → are_reviewed categories ≡ true
    → (value buckets key (text "mes_calls") ≡ sum_over status_metrics (value buckets key))
      × (value buckets key (text "mes_calls") ≡ sum_over (names mes_categories) (value buckets key))
compute_bucket_metrics-split interactions llm mes categories g buckets key e h = (
  held (text "mes_calls") refl refl
      ∙ split_over status_metrics interactions llm mes categories g key h refl refl refl
      ∙ sym (
          ap₂ (λ a b. a + (b + 0)) (held (text "mes_calls.completed") refl refl)
            (held (text "mes_calls.failed") refl refl)),
  held (text "mes_calls") refl refl
      ∙ split_over (names mes_categories) interactions llm mes categories g key h refl refl refl
      ∙ sym (
          ap₂ (λ a b. a + b) (held (text "mes_calls.output") refl refl)
            (ap₂ (λ a b. a + b) (held (text "mes_calls.payroll") refl refl)
              (ap₂ (λ a b. a + (b + 0)) (held (text "mes_calls.order") refl refl)
                (held (text "mes_calls.other") refl refl)))),
)
  where
    held :
        (metric : Text)
        → (text "users" == metric) ≡ false
        → (text "llm_logical_calls" == metric) ≡ false
        → value buckets key metric ≡ total (updates_of interactions llm mes categories g) key metric
    held metric hu hc =
        compute_bucket_metrics-total interactions llm mes categories g buckets key metric e hu hc
