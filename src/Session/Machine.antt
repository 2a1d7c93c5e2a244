-- ===== src/Session/Machine.antt =====
-- domain/session.py: which transitions the machine applies, and what it records.
use factory_agent.Prelude.{
  ℕ, ◌≡◌, refl, inl, inr, true, false, [], ◌∷◌, ◌++◌, if◌then◌else◌, contains, Text, ok, err, arith,
  Bool-cases,
}
use factory_agent.Session.{
  SessionState, parsing, cancelled, failed, allowed_transitions, is_terminal, can_transition,
  assert_transition, state_eq, SessionStateMachine, transition_to,
}

-- The machine agrees with the transition table on every pair of states: the separate test for
-- FAILED neither adds a transition to the table nor takes one away.
pub can_transition-allowed_transitions :
    (source target : SessionState)
    → can_transition source target ≡ contains (allowed_transitions source) target
unfolding can_transition
can_transition-allowed_transitions parsing t = ground arith
can_transition-allowed_transitions _ t = ground arith

-- A terminal state has no successor, and every other state can fail and can be cancelled.
pub is_terminal-can_transition :
    (source : SessionState)
    → ((is_terminal source ≡ true) → (t : SessionState) → can_transition source t ≡ false)
      × ((is_terminal source ≡ false)
          → (can_transition source failed ≡ true) × (can_transition source cancelled ≡ true))
unfolding can_transition
is_terminal-can_transition parsing = (λ h. cc, λ h. (refl, refl))
is_terminal-can_transition _ = (λ h t. ground arith, λ h. ground arith)

-- The machine after an applied transition.
abbrev pub advance : SessionStateMachine → SessionState → Text → ℕ → SessionStateMachine
advance m target reason at = record {
  state = target;
  history =
      m.history
      ++ record { from_state = m.state; to_state = target; reason = reason; occurred_at = at } ∷ [];
}

pub transition_to_lem :
    (m : SessionStateMachine) (target : SessionState) (reason : Text) (at : ℕ)
    → transition_to m target reason at ≡ (
        if can_transition m.state target
        then ok (advance m target reason at)
        else err (record { source = m.state; target = target }))
unfolding transition_to assert_transition
transition_to_lem m target reason at = elim (Bool-cases (can_transition m.state target)) [
  | inl h ↦ rw h
  | inr h ↦ rw h
]

-- A successful call, taken apart.
pub transition_to-eq-ok :
    (m : SessionStateMachine) {m' : SessionStateMachine} (target : SessionState) (reason : Text)
    (at : ℕ)
    → transition_to m target reason at ≡ ok m'
    → (can_transition m.state target ≡ true) × (m' ≡ advance m target reason at)
transition_to-eq-ok m {m'} target reason at h = elim (Bool-cases (can_transition m.state target)) [
  | inl k ↦ (k, cc (rw (transition_to_lem m target reason at, k) at h))
  | inr k ↦ absurd (cc (rw (transition_to_lem m target reason at, k) at h))
]
