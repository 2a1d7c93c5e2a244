-- ===== src/Session/Examples.antt =====
-- domain/session.py: a conversation that is authorised and executed, and the theorems at it.
use factory_agent.Prelude.{◌≡◌, refl, ok, err, text}
use factory_agent.Session.{
  parsing, authorizing, executing, answered, is_terminal, SessionStateMachine, transition_to,
  initial,
}
use factory_agent.Session.Machine.{advance}
use factory_agent.Session.Journey.{
  Reachable, start, step, IsChain, EndsAs, Reachable-IsChain, Reachable-EndsAs, follow, route,
  follow-route,
}
use factory_agent.Session.Turns.{status_eq}
use factory_agent.Session.{state_eq}
use factory_agent.Prelude.{false}

abbrev asked : SessionStateMachine
asked = advance initial authorizing (text "intent") 10

abbrev running : SessionStateMachine
running = advance asked executing (text "granted") 20

running-Reachable : Reachable running
unfolding transition_to
running-Reachable =
    step executing (text "granted") 20 (step authorizing (text "intent") 10 start refl) refl

-- An execution that skips the authorisation is refused.
skipped :
    transition_to initial executing (text "skip") 5
    ≡ err (record { source = parsing; target = executing })
unfolding transition_to
skipped = refl

Reachable-IsChain_example : IsChain parsing running.history executing
Reachable-IsChain_example = Reachable-IsChain running running-Reachable

Reachable-EndsAs_example : EndsAs executing running.history
Reachable-EndsAs_example = Reachable-EndsAs running running-Reachable

running-not_terminal : is_terminal executing ≡ false
unfolding is_terminal
running-not_terminal = refl

follow-route_example :
    (m' : SessionStateMachine) × (follow running (route executing) (text "go") 30 ≡ ok m')
    × (m'.state ≡ answered)
follow-route_example = follow-route running (text "go") 30 running-not_terminal
