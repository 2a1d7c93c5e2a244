-- ===== src/Session.antt =====
-- src/factory_agent/domain/session.py: the states of a conversation and its transition machine.
-- `datetime` values are only stored here; an instant is a number of microseconds. `reason` is text.
pub mod Machine
pub mod Journey
pub mod Turns
mod Examples
use factory_agent.Prelude.{
  ℕ, zero, suc, ◌≡◌, refl, ◌↔◌, Bool, true, false, not, List, [], ◌∷◌, ◌++◌, if◌then◌else◌, Eq,
  nat_beq, beq_of_index_iff, contains, ◌==◌, Text, Result, ok, err, ◌>>◌,
}

pub data SessionState : Type 0 where
  parsing clarifying authorizing executing composing answered archived cancelled failed :
      SessionState

abbrev pub index : SessionState → ℕ
index parsing = 0
index clarifying = 1
index authorizing = 2
index executing = 3
index composing = 4
index answered = 5
index archived = 6
index cancelled = 7
index failed = 8

abbrev of_index : ℕ → SessionState
of_index zero = parsing
of_index (suc zero) = clarifying
of_index (suc (suc zero)) = authorizing
of_index (suc (suc (suc zero))) = executing
of_index (suc (suc (suc (suc zero)))) = composing
of_index (suc (suc (suc (suc (suc zero))))) = answered
of_index (suc (suc (suc (suc (suc (suc zero)))))) = archived
of_index (suc (suc (suc (suc (suc (suc (suc zero))))))) = cancelled
of_index _ = failed

of_index-index : (s : SessionState) → of_index (index s) ≡ s
of_index-index parsing = refl
of_index-index _ = refl

pub state_beq_iff : (s t : SessionState) → (nat_beq (index s) (index t) ≡ true) ↔ (s ≡ t)
state_beq_iff = beq_of_index_iff index of_index of_index-index

instance abbrev pub state_eq : Eq SessionState
state_eq = record { same = λ s t. nat_beq (index s) (index t); same_iff = state_beq_iff }

unfoldable pub allowed_transitions : SessionState → List SessionState
allowed_transitions parsing = answered ∷ clarifying ∷ authorizing ∷ cancelled ∷ failed ∷ []
allowed_transitions clarifying = parsing ∷ authorizing ∷ cancelled ∷ failed ∷ []
allowed_transitions authorizing = executing ∷ cancelled ∷ failed ∷ []
allowed_transitions executing = composing ∷ clarifying ∷ cancelled ∷ failed ∷ []
allowed_transitions composing = answered ∷ cancelled ∷ failed ∷ []
allowed_transitions answered = parsing ∷ archived ∷ cancelled ∷ failed ∷ []
allowed_transitions archived = []
allowed_transitions cancelled = []
allowed_transitions failed = []

abbrev pub terminal_states : List SessionState
terminal_states = archived ∷ cancelled ∷ failed ∷ []

unfoldable pub is_terminal : SessionState → Bool
is_terminal state = contains terminal_states state

-- The test `target is FAILED` comes first and replaces the table's answer.
unfoldable pub can_transition : SessionState → SessionState → Bool
unfolding is_terminal allowed_transitions
can_transition source target =
    if target == failed
    then not (is_terminal source)
    else contains (allowed_transitions source) target

pub record InvalidStateTransition : Type 0 where
  pub source : SessionState
  pub target : SessionState

unfoldable pub assert_transition :
    SessionState → SessionState → Result InvalidStateTransition (Unit {0})
unfolding can_transition
assert_transition source target =
    if can_transition source target
    then ok tt
    else err (record { source = source; target = target })

pub record StateTransition : Type 0 where
  pub from_state : SessionState
  pub to_state : SessionState
  pub reason : Text
  pub occurred_at : ℕ

pub record SessionStateMachine : Type 0 where
  pub state : SessionState
  pub history : List StateTransition

-- The dataclass's defaults.
abbrev pub initial : SessionStateMachine
initial = record { state = parsing; history = [] }

unfoldable pub transition_to :
    SessionStateMachine
    → SessionState
    → Text
    → ℕ
    → Result InvalidStateTransition SessionStateMachine
unfolding assert_transition
transition_to m target reason occurred_at = do
  assert_transition m.state target
  ok (record {
    state = target;
    history =
        m.history
        ++ record {
          from_state = m.state;
          to_state = target;
          reason = reason;
          occurred_at = occurred_at;
        }
          ∷ [];
  })
