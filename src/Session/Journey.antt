-- ===== src/Session/Journey.antt =====
-- domain/session.py: the machines that a conversation can reach, and the histories they carry.
use factory_agent.Prelude.{
  ℕ, ◌≡◌, refl, sym, ap, ◌∙◌, subst, true, false, List, [], ◌∷◌, ◌++◌, Text, Result, ok, ◌>>=◌,
  arith,
}
use mathlib.Core.List.{append_assoc}
use factory_agent.Session.{
  SessionState, parsing, clarifying, authorizing, executing, composing, answered, is_terminal,
  can_transition, InvalidStateTransition, StateTransition, SessionStateMachine, transition_to,
  initial,
}
use factory_agent.Session.Machine.{transition_to-eq-ok, is_terminal-can_transition}

-- What a sequence of successful calls of `transition_to` makes of the initial machine.
pub data Reachable : SessionStateMachine → Type 0 where
  start : Reachable initial
  step :
      {m m' : SessionStateMachine} (target : SessionState) (reason : Text) (at : ℕ)
      → Reachable m
      → transition_to m target reason at ≡ ok m'
      → Reachable m'

abbrev entry : SessionState → SessionState → Text → ℕ → StateTransition
entry from to reason at = record {
  from_state = from;
  to_state = to;
  reason = reason;
  occurred_at = at;
}

-- The entries lead from `s` to `t`, each from where the one before it ended, by allowed
-- transitions out of states that are not terminal.
abbrev pub IsChain : SessionState → List StateTransition → SessionState → Type 0
IsChain s [] t = s ≡ t
IsChain s (e ∷ h) t =
    (e.from_state ≡ s)
    × (can_transition s e.to_state ≡ true)
    × (is_terminal s ≡ false)
    × IsChain e.to_state h t

not-is_terminal : (s t : SessionState) → can_transition s t ≡ true → is_terminal s ≡ false
not-is_terminal s t h =
    ground (arith, λ (k : is_terminal s ≡ true). (is_terminal-can_transition s).0 k t)

IsChain-snoc :
    (s : SessionState) (h : List StateTransition) (t u : SessionState) (reason : Text) (at : ℕ)
    → IsChain s h t
    → can_transition t u ≡ true
    → IsChain s (h ++ entry t u reason at ∷ []) u
IsChain-snoc s [] t u reason at c k =
    (sym c, ap (λ x. can_transition x u) c ∙ k, ap is_terminal c ∙ not-is_terminal t u k, refl)
IsChain-snoc s (e ∷ h) t u reason at c k =
    (c.0, c.1, c.2, IsChain-snoc e.to_state h t u reason at c.3 k)

-- The history of a machine that a conversation can reach is an unbroken chain of allowed
-- transitions from PARSING to its current state, and no entry leaves a terminal state.
pub Reachable-IsChain : (m : SessionStateMachine) → Reachable m → IsChain parsing m.history m.state
Reachable-IsChain m start = refl
Reachable-IsChain m' (step {m = m} target reason at r h) =
    let (allowed, e) = transition_to-eq-ok m target reason at h in
    subst (λ (x : SessionStateMachine). IsChain parsing x.history x.state) (sym e)
      (IsChain-snoc parsing m.history m.state target reason at (Reachable-IsChain m r) allowed)

-- The history ends with the entries to `s` that its state requires.
abbrev pub EndsAs : SessionState → List StateTransition → Type 0
EndsAs authorizing h =
    (before : List StateTransition) × (a : StateTransition) × (h ≡ before ++ a ∷ [])
    × (a.to_state ≡ authorizing)
EndsAs executing h =
    (before : List StateTransition) × (a b : StateTransition) × (h ≡ before ++ a ∷ b ∷ [])
    × (a.to_state ≡ authorizing)
    × (b.from_state ≡ authorizing)
    × (b.to_state ≡ executing)
EndsAs composing h =
    (before : List StateTransition) × (a b c : StateTransition) × (h ≡ before ++ a ∷ b ∷ c ∷ [])
    × (a.to_state ≡ authorizing)
    × (b.from_state ≡ authorizing)
    × (b.to_state ≡ executing)
    × (c.from_state ≡ executing)
    × (c.to_state ≡ composing)
EndsAs _ h = Unit

EndsAs-snoc :
    (s t : SessionState) (h : List StateTransition) (reason : Text) (at : ℕ)
    → can_transition s t ≡ true
    → EndsAs s h
    → EndsAs t (h ++ entry s t reason at ∷ [])
unfolding can_transition
EndsAs-snoc s authorizing h reason at k e = (h, entry s authorizing reason at, refl, refl)
EndsAs-snoc authorizing executing h reason at k (before, a, eq, to) = (
  before,
  a,
  entry authorizing executing reason at,
  ap (λ l. l ++ entry authorizing executing reason at ∷ []) eq
      ∙ append_assoc before (a ∷ []) (entry authorizing executing reason at ∷ []),
  to,
  refl,
  refl,
)
EndsAs-snoc executing composing h reason at k (before, a, b, eq, to, from, to') = (
  before,
  a,
  b,
  entry executing composing reason at,
  ap (λ l. l ++ entry executing composing reason at ∷ []) eq
      ∙ append_assoc before (a ∷ b ∷ []) (entry executing composing reason at ∷ []),
  to,
  from,
  to',
  refl,
  refl,
)
EndsAs-snoc _ executing h reason at k e = cc
EndsAs-snoc _ composing h reason at k e = cc
EndsAs-snoc _ _ h reason at k e = tt

-- A conversation executes only after it was authorised: in a reachable machine that is EXECUTING
-- the last two entries go to AUTHORIZING and from there to EXECUTING, in one that is COMPOSING
-- the last three go to AUTHORIZING, EXECUTING and COMPOSING, and in one that is AUTHORIZING the
-- last entry goes to AUTHORIZING.
pub Reachable-EndsAs : (m : SessionStateMachine) → Reachable m → EndsAs m.state m.history
Reachable-EndsAs m start = tt
Reachable-EndsAs m' (step {m = m} target reason at r h) =
    let (allowed, e) = transition_to-eq-ok m target reason at h in
    subst (λ (x : SessionStateMachine). EndsAs x.state x.history) (sym e)
      (EndsAs-snoc m.state target m.history reason at allowed (Reachable-EndsAs m r))

-- The calls of `transition_to` for a list of targets, with one reason and time.
pub follow :
    SessionStateMachine
    → List SessionState
    → Text
    → ℕ
    → Result InvalidStateTransition SessionStateMachine
follow m [] reason at = ok m
follow m (t ∷ ts) reason at = transition_to m t reason at >>= λ m'. follow m' ts reason at

-- A way from each state that is not terminal to an answer.
abbrev pub route : SessionState → List SessionState
route parsing = answered ∷ []
route clarifying = authorizing ∷ executing ∷ composing ∷ answered ∷ []
route authorizing = executing ∷ composing ∷ answered ∷ []
route executing = composing ∷ answered ∷ []
route composing = answered ∷ []
route _ = []

follow_from :
    (s : SessionState) (h : List StateTransition) (reason : Text) (at : ℕ)
    → is_terminal s ≡ false
    → (m' : SessionStateMachine) × (follow (record { state = s; history = h }) (route s) reason at
        ≡ ok m')
      × (m'.state ≡ answered)
unfolding follow transition_to
follow_from parsing h reason at k = (_, refl, refl)
follow_from clarifying h reason at k = (_, refl, refl)
follow_from authorizing h reason at k = (_, refl, refl)
follow_from executing h reason at k = (_, refl, refl)
follow_from composing h reason at k = (_, refl, refl)
follow_from answered h reason at k = (_, refl, refl)
follow_from _ h reason at k = cc

-- From every machine whose state is not terminal the calls along its route all succeed and end in
-- ANSWERED: no such state is a dead end.
pub follow-route :
    (m : SessionStateMachine) (reason : Text) (at : ℕ)
    → is_terminal m.state ≡ false
    → (m' : SessionStateMachine) × (follow m (route m.state) reason at ≡ ok m')
      × (m'.state ≡ answered)
follow-route m reason at h = follow_from m.state m.history reason at h
