-- ===== src/Rollup.antt =====
-- src/factory_agent/application/rollup.py: `compute_bucket_metrics` (`rollup_range` is in Range.antt) over
-- the rows of src/factory_agent/ports/rollup.py. An instant is a number of microseconds, from 1970 on;
-- the metrics, which are counts and sums of whole numbers, are natural numbers. What one row adds to
-- the buckets is a list of updates, in the order of the code. The worker's loop is not modelled.
pub mod Totals
pub mod Hours
pub mod Names
pub mod Known
pub mod Split
pub mod Range
pub mod Tenants
pub mod Returns
mod Examples
use factory_agent.Prelude.{
  ℕ, zero, suc, ◌+◌, ◌*◌, ◌/◌, Bool, true, false, not, ◌&&◌, ◌||◌, Option, none, some, List, [],
  ◌∷◌, ◌++◌, leb, select, is_empty, length, if◌then◌else◌, ◌==◌, nat_eq, list_eq, contains, Text,
  text, get, put, add,
}

pub record InteractionFactRow : Type 0 where
  pub tenant_id : Text
  pub occurred_at : ℕ
  pub event_type : Text
  pub user_subject_id : Text
  pub capability_id : Option Text
  pub status : Option Text
  pub duration_ms : Option ℕ
  pub mes_duration_ms : Option ℕ
  pub llm_duration_ms : Option ℕ
  pub local_duration_ms : Option ℕ

pub record LlmCallFactRow : Type 0 where
  pub tenant_id : Text
  pub occurred_at : ℕ
  pub logical_call_id : Text
  pub prompt_tokens : ℕ
  pub completion_tokens : ℕ
  pub cached_tokens : ℕ
  pub reasoning_tokens : ℕ

pub record MesCallFactRow : Type 0 where
  pub tenant_id : Text
  pub occurred_at : ℕ
  pub operation_id : Text
  pub status : Text

abbrev pub mes_categories : List Text
mes_categories = text "output" ∷ text "payroll" ∷ text "order" ∷ text "other" ∷ []

abbrev pub interaction_metrics : List Text
interaction_metrics =
    text "questions"
    ∷ text "valid_questions"
    ∷ text "e2e_duration_ms"
    ∷ text "mes_duration_ms"
    ∷ text "llm_duration_ms"
    ∷ text "local_duration_ms"
    ∷ []

abbrev pub llm_metrics : List Text
llm_metrics =
    text "llm_physical_attempts"
    ∷ text "prompt_tokens"
    ∷ text "completion_tokens"
    ∷ text "cached_tokens"
    ∷ text "reasoning_tokens"
    ∷ []

abbrev pub interaction_status_labels : List Text
interaction_status_labels =
    text "completed" ∷ text "failed" ∷ text "cancelled" ∷ text "rejected" ∷ []

abbrev pub Metrics : Type 0
Metrics = List (Text × ℕ)

-- The names with a prefix and a suffix, each at 0.
abbrev pub zeros : Text → Text → List Text → Metrics → Metrics
zeros before behind [] metrics = metrics
zeros before behind (name ∷ names) metrics =
    (before ++ (name ++ behind), 0) ∷ zeros before behind names metrics

-- `_base_bucket`
abbrev pub base_bucket : Metrics
base_bucket = zeros [] [] interaction_metrics (
    zeros [] [] llm_metrics (
      zeros (text "status.") [] interaction_status_labels (
        zeros [] (text ".count") interaction_metrics (
          zeros [] (text ".count") llm_metrics (
            (text "users", 0)
            ∷ (text "llm_logical_calls", 0)
            ∷ (text "mes_calls", 0)
            ∷ (text "mes_calls.completed", 0)
            ∷ (text "mes_calls.failed", 0)
            ∷ zeros (text "mes_calls.") [] mes_categories [])))))

pub data Granularity : Type 0 where
  hour day : Granularity

abbrev pub microseconds : Granularity → ℕ
microseconds hour = 3600000000
microseconds day = 86400000000

-- `_bucket_key`: the start of the hour or of the day, in UTC.
unfoldable pub bucket_key : ℕ → Granularity → ℕ
bucket_key occurred_at granularity =
    occurred_at / microseconds granularity * microseconds granularity

-- `buckets[key]` alone, and `buckets[key][metric] += n`.
pub data Update : Type 0 where
  touches : Update
  adds : Text → ℕ → Update

abbrev pub Buckets : Type 0
Buckets = List (ℕ × Metrics)

-- `buckets[key]` of the `defaultdict`.
abbrev pub bucket_or_base : Option Metrics → Metrics
bucket_or_base none = base_bucket
bucket_or_base (some metrics) = metrics

-- `none` stands for the `KeyError` at a metric that the bucket does not have.
unfoldable pub apply : ℕ → Update → Buckets → Option Buckets
unfolding get put
apply key touches buckets = some (put key (bucket_or_base (get key buckets)) buckets)
apply key (adds metric n) buckets =
    let bucket = bucket_or_base (get key buckets) in
    elim (get metric bucket) [
      | none ↦ none
      | some v ↦ some (put key (put metric (v + n) bucket) buckets)
    ]

unfoldable pub apply_all : List (ℕ × Update) → Buckets → Option Buckets
unfolding apply
apply_all [] buckets = some buckets
apply_all ((key, u) ∷ updates) buckets = elim (apply key u buckets) [
  | none ↦ none
  | some buckets' ↦ apply_all updates buckets'
]

-- A duration or a token count that is there is added, and counted.
abbrev pub measured : Text → Option ℕ → List Update → List Update
measured metric none rest = rest
measured metric (some n) rest = adds metric n ∷ adds (metric ++ text ".count") 1 ∷ rest

abbrev pub is_some : {A : Type 0} → Option A → Bool
is_some none = false
is_some (some a) = true

-- `questions` at the start, `valid_questions` when a capability was found.
abbrev pub question_updates : InteractionFactRow → List Update → List Update
question_updates fact rest =
    if fact.event_type == text "interaction_started"
    then adds (text "questions") 1 ∷ rest
    else if (fact.event_type == text "interaction_routed") && is_some fact.capability_id
    then adds (text "valid_questions") 1 ∷ rest
    else rest

-- A status that is not empty looks the bucket up, and counts when the bucket has it.
unfoldable pub status_updates : Option Text → List Update → List Update
unfolding get
status_updates none rest = rest
status_updates (some []) rest = rest
status_updates (some (c ∷ s)) rest =
    let name = text "status." ++ (c ∷ s) in
    if is_some (get name base_bucket) then touches ∷ adds name 1 ∷ rest else touches ∷ rest

unfoldable pub interaction_updates : InteractionFactRow → List Update
unfolding status_updates
interaction_updates fact = question_updates fact (
    status_updates fact.status (
      measured (text "e2e_duration_ms") fact.duration_ms (
        measured (text "mes_duration_ms") fact.mes_duration_ms (
          measured (text "llm_duration_ms") fact.llm_duration_ms
            (measured (text "local_duration_ms") fact.local_duration_ms [])))))

unfoldable pub llm_updates : LlmCallFactRow → List Update
llm_updates fact =
    adds (text "llm_physical_attempts") 1
    ∷ measured (text "prompt_tokens") (some fact.prompt_tokens) (
        measured (text "completion_tokens") (some fact.completion_tokens) (
          measured (text "cached_tokens") (some fact.cached_tokens)
            (measured (text "reasoning_tokens") (some fact.reasoning_tokens) [])))

abbrev pub category_or_other : Option Text → Text
category_or_other none = text "other"
category_or_other (some category) = category

unfoldable pub mes_updates : List (Text × Text) → MesCallFactRow → List Update
unfolding get
mes_updates categories fact =
    adds (text "mes_calls") 1
    ∷ adds
        (text "mes_calls."
          ++ (if fact.status == text "completed" then text "completed" else text "failed"))
        1
    ∷ adds (text "mes_calls." ++ category_or_other (get fact.operation_id categories)) 1
    ∷ []

abbrev pub keyed : ℕ → List Update → List (ℕ × Update)
keyed key [] = []
keyed key (u ∷ updates) = (key, u) ∷ keyed key updates

unfoldable pub updates_of :
    List InteractionFactRow
    → List LlmCallFactRow
    → List MesCallFactRow
    → List (Text × Text)
    → Granularity
    → List (ℕ × Update)
unfolding interaction_updates llm_updates mes_updates bucket_key
updates_of [] [] [] categories g = []
updates_of [] [] (f ∷ mes) categories g =
    keyed (bucket_key f.occurred_at g) (mes_updates categories f)
    ++ updates_of [] [] mes categories g
updates_of [] (f ∷ llm) mes categories g =
    keyed (bucket_key f.occurred_at g) (llm_updates f) ++ updates_of [] llm mes categories g
updates_of (f ∷ interactions) llm mes categories g =
    keyed (bucket_key f.occurred_at g) (interaction_updates f)
    ++ updates_of interactions llm mes categories g

-- A `defaultdict(set)` and `.add`.
abbrev pub set_or_empty : Option (List Text) → List Text
set_or_empty none = []
set_or_empty (some s) = s

unfoldable pub add_member : ℕ → Text → List (ℕ × List Text) → List (ℕ × List Text)
unfolding get put add
add_member key member sets =
    if is_empty member then sets else put key (add member (set_or_empty (get key sets))) sets

unfoldable pub users_of :
    List InteractionFactRow → Granularity → List (ℕ × List Text) → List (ℕ × List Text)
unfolding add_member bucket_key
users_of [] g sets = sets
users_of (f ∷ facts) g sets =
    users_of facts g (add_member (bucket_key f.occurred_at g) f.user_subject_id sets)

unfoldable pub calls_of :
    List LlmCallFactRow → Granularity → List (ℕ × List Text) → List (ℕ × List Text)
unfolding add_member bucket_key
calls_of [] g sets = sets
calls_of (f ∷ facts) g sets =
    calls_of facts g (add_member (bucket_key f.occurred_at g) f.logical_call_id sets)

-- The last loop: the sizes of the two sets.
unfoldable pub with_sizes : List (ℕ × List Text) → List (ℕ × List Text) → Buckets → Buckets
unfolding get put
with_sizes users calls [] = []
with_sizes users calls ((key, metrics) ∷ buckets) =
    (
      key,
      put (text "llm_logical_calls") (length (set_or_empty (get key calls)))
          (put (text "users") (length (set_or_empty (get key users))) metrics),
    )
    ∷ with_sizes users calls buckets

unfoldable pub compute_bucket_metrics :
    List InteractionFactRow
    → List LlmCallFactRow
    → List MesCallFactRow
    → List (Text × Text)
    → Granularity
    → Option Buckets
unfolding apply_all updates_of users_of calls_of with_sizes
compute_bucket_metrics interactions llm mes categories g =
    elim (apply_all (updates_of interactions llm mes categories g) []) [
      | none ↦ none
      | some buckets ↦ some (with_sizes (users_of interactions g []) (calls_of llm g []) buckets)
    ]
