-- ===== src/Rollup/Names.antt =====
-- src/factory_agent/application/rollup.py: the names of the metrics that an interaction adds to.
use factory_agent.Prelude.{
  ℕ, ◌≡◌, refl, inl, inr, Bool, true, false, ◌&&◌, Option, none, some, List, [], ◌∷◌, ◌++◌, all,
  if◌then◌else◌, ◌==◌, nat_eq, list_eq, contains, contains_of_all, and-eq-true, Text, text, get,
  Bool-cases,
}
use factory_agent.Rollup.{
  InteractionFactRow, base_bucket, Update, touches, adds, is_some, measured, question_updates,
  status_updates, interaction_updates,
}

-- The update's name satisfies p.
abbrev pub satisfies : (Text → Bool) → Update → Bool
satisfies p touches = true
satisfies p (adds name n) = p name

-- A new bucket has the name.
abbrev pub is_base_name : Text → Bool
is_base_name name = is_some (get name base_bucket)

abbrev pub interaction_names : List Text
interaction_names =
    text "questions"
    ∷ text "valid_questions"
    ∷ text "e2e_duration_ms"
    ∷ text "e2e_duration_ms.count"
    ∷ text "mes_duration_ms"
    ∷ text "mes_duration_ms.count"
    ∷ text "llm_duration_ms"
    ∷ text "llm_duration_ms.count"
    ∷ text "local_duration_ms"
    ∷ text "local_duration_ms.count"
    ∷ []

measured-satisfies :
    (p : Text → Bool) (metric : Text) (o : Option ℕ) (rest : List Update)
    → p metric ≡ true
    → p (metric ++ text ".count") ≡ true
    → all (satisfies p) rest ≡ true
    → all (satisfies p) (measured metric o rest) ≡ true
measured-satisfies p metric none rest h k r = r
measured-satisfies p metric (some n) rest h k r =
    (and-eq-true _ _).1 (h, (and-eq-true _ _).1 (k, r))

question_updates-satisfies :
    (p : Text → Bool) (fact : InteractionFactRow) (rest : List Update)
    → p (text "questions") ≡ true
    → p (text "valid_questions") ≡ true
    → all (satisfies p) rest ≡ true
    → all (satisfies p) (question_updates fact rest) ≡ true
question_updates-satisfies p fact rest h k r =
    go (fact.event_type == text "interaction_started")
      ((fact.event_type == text "interaction_routed") && is_some fact.capability_id)
  where
    go :
        (started routed : Bool)
        → all (satisfies p) (
            if started
            then adds (text "questions") 1 ∷ rest
            else if routed
            then adds (text "valid_questions") 1 ∷ rest
            else rest)
          ≡ true
    go true routed = (and-eq-true _ _).1 (h, r)
    go false true = (and-eq-true _ _).1 (k, r)
    go false false = r

status_updates-satisfies :
    (p : Text → Bool) (o : Option Text) (rest : List Update)
    → ((status : Text)
        → is_base_name (text "status." ++ status) ≡ true
        → p (text "status." ++ status) ≡ true)
    → all (satisfies p) rest ≡ true
    → all (satisfies p) (status_updates o rest) ≡ true
unfolding status_updates
status_updates-satisfies p none rest h r = r
status_updates-satisfies p (some []) rest h r = r
status_updates-satisfies p (some (c ∷ s)) rest h r =
    elim (Bool-cases (is_base_name (text "status." ++ (c ∷ s)))) [
      | inl there ↦ rw there ((and-eq-true _ _).1 (h (c ∷ s) there, r))
      | inr missing ↦ rw missing r
    ]

-- Each name that an interaction adds to is one of the list, or the name of a status.
pub interaction_updates-satisfies :
    (p : Text → Bool) (fact : InteractionFactRow)
    → all p interaction_names ≡ true
    → ((status : Text)
        → is_base_name (text "status." ++ status) ≡ true
        → p (text "status." ++ status) ≡ true)
    → all (satisfies p) (interaction_updates fact) ≡ true
unfolding interaction_updates
interaction_updates-satisfies p fact hs h =
    question_updates-satisfies p fact _ (each (text "questions") refl)
      (each (text "valid_questions") refl)
      (status_updates-satisfies p fact.status _ h (
        measured-satisfies p (text "e2e_duration_ms") fact.duration_ms _
          (each (text "e2e_duration_ms") refl) (each (text "e2e_duration_ms.count") refl)
          (measured-satisfies p (text "mes_duration_ms") fact.mes_duration_ms _
            (each (text "mes_duration_ms") refl) (each (text "mes_duration_ms.count") refl)
            (measured-satisfies p (text "llm_duration_ms") fact.llm_duration_ms _
              (each (text "llm_duration_ms") refl) (each (text "llm_duration_ms.count") refl)
              (measured-satisfies p (text "local_duration_ms") fact.local_duration_ms []
                (each (text "local_duration_ms") refl) (each (text "local_duration_ms.count") refl)
                refl)))))
  where
    each : (name : Text) → contains interaction_names name ≡ true → p name ≡ true
    each name m = contains_of_all p interaction_names name hs m
