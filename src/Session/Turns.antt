-- ===== src/Session/Turns.antt =====
-- src/factory_agent/domain/session.py: the status of one turn and its terminal event.
use factory_agent.Prelude.{
  ℕ, zero, suc, ◌≡◌, refl, sym, ap, ◌∙◌, any, ◌↔◌, Bool, true, false, List, [], ◌∷◌, if◌then◌else◌,
  Eq, ◌==◌, nat_beq, nat_eq, list_eq, beq_of_index_iff, contains, Text, text, Result, ok, err,
}

pub data InteractionStatus : Type 0 where
  pending running completed failed cancelled : InteractionStatus

abbrev pub status_index : InteractionStatus → ℕ
status_index pending = 0
status_index running = 1
status_index completed = 2
status_index failed = 3
status_index cancelled = 4

abbrev status_of_index : ℕ → InteractionStatus
status_of_index zero = pending
status_of_index (suc zero) = running
status_of_index (suc (suc zero)) = completed
status_of_index (suc (suc (suc zero))) = failed
status_of_index _ = cancelled

status_of_index-status_index : (s : InteractionStatus) → status_of_index (status_index s) ≡ s
status_of_index-status_index pending = refl
status_of_index-status_index _ = refl

pub status_beq_iff :
    (s t : InteractionStatus) → (nat_beq (status_index s) (status_index t) ≡ true) ↔ (s ≡ t)
status_beq_iff = beq_of_index_iff status_index status_of_index status_of_index-status_index

instance abbrev pub status_eq : Eq InteractionStatus
status_eq = record {
  same = λ s t. nat_beq (status_index s) (status_index t);
  same_iff = status_beq_iff;
}

abbrev pub terminal_interaction_statuses : List InteractionStatus
terminal_interaction_statuses = completed ∷ failed ∷ cancelled ∷ []

abbrev pub terminal_event_names : List Text
terminal_event_names =
    text "interaction.completed" ∷ text "interaction.failed" ∷ text "interaction.cancelled" ∷ []

-- The `ValueError`, with the status that it names.
pub data NotTerminal : Type 0 where
  not_terminal : InteractionStatus → NotTerminal

unfoldable pub terminal_event_name : InteractionStatus → Result NotTerminal Text
terminal_event_name completed = ok (text "interaction.completed")
terminal_event_name failed = ok (text "interaction.failed")
terminal_event_name cancelled = ok (text "interaction.cancelled")
terminal_event_name pending = err (not_terminal pending)
terminal_event_name running = err (not_terminal running)

-- The answer is that name, or the refusal of that status.
abbrev pub is_name : Text → Result NotTerminal Text → Bool
is_name name (ok n) = n == name
is_name name (err e) = false

abbrev pub is_refused : InteractionStatus → Result NotTerminal Text → Bool
is_refused s (err (not_terminal t)) = t == s
is_refused s (ok n) = false

-- The status of an answer of `terminal_event_name`.
status_of : Result NotTerminal Text → InteractionStatus
status_of (err (not_terminal s)) = s
status_of (ok name) =
    if name == text "interaction.completed"
    then completed
    else if name == text "interaction.failed"
    then failed
    else cancelled

status_of-terminal_event_name : (s : InteractionStatus) → status_of (terminal_event_name s) ≡ s
unfolding status_of terminal_event_name
status_of-terminal_event_name pending = refl
status_of-terminal_event_name running = refl
status_of-terminal_event_name completed = refl
status_of-terminal_event_name failed = refl
status_of-terminal_event_name cancelled = refl

-- A terminal status has one of the terminal event names, any other status raises with its own name,
-- and no two statuses are answered alike.
pub terminal_event_name-terminal :
    (s : InteractionStatus)
    → (if contains terminal_interaction_statuses s
          then any (λ name. is_name name (terminal_event_name s)) terminal_event_names
          else is_refused s (terminal_event_name s))
        ≡ true
      × ((t : InteractionStatus) → terminal_event_name t ≡ terminal_event_name s → t ≡ s)
unfolding terminal_event_name
terminal_event_name-terminal s = (
  answer s,
  λ t e. sym (status_of-terminal_event_name t) ∙ ap status_of e ∙ status_of-terminal_event_name s,
)
  where
    answer :
        (s : InteractionStatus)
        → (if contains terminal_interaction_statuses s
            then any (λ name. is_name name (terminal_event_name s)) terminal_event_names
            else is_refused s (terminal_event_name s))
          ≡ true
    answer pending = refl
    answer running = refl
    answer completed = refl
    answer failed = refl
    answer cancelled = refl
