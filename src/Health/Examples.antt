-- ===== src/Health/Examples.antt =====
-- llm/health.py: one endpoint fails twice while another answers, and the theorems at it.
use factory_agent.Prelude.{
  ◌+◌, ◌≡◌, refl, true, false, List, [], ◌∷◌, if◌then◌else◌, contains, nat_eq, list_eq, Text, text,
  get, discard, remove, put, add,
}
use factory_agent.Registry.{ModelRegistry}
use factory_agent.Health.{Monitor, fresh, failures, Probe, answers, raises, probe_all}
use factory_agent.Health.View.{view}
use factory_agent.Health.Streaks.{
  verdicts_on, view_steps, view-probe_all, probe_all-streak, demotions, restorations, probe_all-log,
}

abbrev no_models : ModelRegistry
no_models = record { version = 1; deployments = []; fallbacks = []; skipped_aliases = [] }

abbrev monitor : Monitor
monitor = fresh no_models 2

abbrev verdicts : List (Text × Probe)
verdicts = (text "a", answers false) ∷ (text "b", answers true) ∷ (text "a", raises) ∷ []

a_demoted : contains (probe_all monitor verdicts).demoted (text "a") ≡ true
unfolding probe_all get discard remove put add
a_demoted = refl

view-probe_all_example :
    view (probe_all monitor verdicts) (text "a")
    ≡ view_steps 2 (view monitor (text "a")) (verdicts_on (text "a") verdicts)
view-probe_all_example = view-probe_all monitor verdicts (text "a")

probe_all-streak_example :
    (failures (probe_all monitor verdicts) (text "a") ≡ 2)
    × (contains (probe_all monitor verdicts).demoted (text "a") ≡ true)
probe_all-streak_example = probe_all-streak no_models 2 verdicts (text "a")

probe_all-log_example :
    demotions (text "a") (probe_all monitor verdicts).log
    ≡ restorations (text "a") (probe_all monitor verdicts).log
      + (if contains (probe_all monitor verdicts).demoted (text "a") then 1 else 0)
probe_all-log_example = probe_all-log no_models 2 verdicts (text "a")
