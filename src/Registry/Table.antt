-- ===== src/Registry/Table.antt =====
-- llm/registry.py: the deployments of an alias in the table that `with_demoted_endpoints` gives.
use mathlib.Core.List.Perm
use mathlib.Core.List.{Perm}
use factory_agent.Prelude.{
  ℕ, ◌+◌, ◌≤◌, contains, ◌≡◌, ◌⊎◌, true, false, List, [], ◌∷◌, map, nat_eq, list_eq, Text,
}
use factory_agent.Registry.{ResolvedDeployment}
use factory_agent.Registry.Groups.{deployments_of}
use factory_agent.Registry.Ranking.{unranked}

-- The priorities count up from `position`.
abbrev pub IsNumbered : ℕ → List ResolvedDeployment → Type 0
IsNumbered position [] = Unit
IsNumbered position (d ∷ ds) = (d.priority ≡ position) × IsNumbered (position + 1) ds

-- The first comes before the second: it is healthy and the other is demoted, or both are or neither
-- is and its priority is not larger.
abbrev pub ComesFirst : List Text → ResolvedDeployment → ResolvedDeployment → Type 0
ComesFirst demoted d e =
    ((contains demoted d.api_base ≡ false) × (contains demoted e.api_base ≡ true))
    ⊎ ((contains demoted d.api_base ≡ contains demoted e.api_base) × (d.priority ≤ e.priority))

abbrev pub IsAhead : List Text → ResolvedDeployment → List ResolvedDeployment → Type 0
IsAhead demoted d [] = Unit
IsAhead demoted d (e ∷ es) = ComesFirst demoted d e × IsAhead demoted d es

-- Each comes before all that follow it.
abbrev pub IsOrdered : List Text → List ResolvedDeployment → Type 0
IsOrdered demoted [] = Unit
IsOrdered demoted (d ∷ ds) = IsAhead demoted d ds × IsOrdered demoted ds

-- The deployments of the alias stand in an order, healthy before demoted and then by priority; they
-- have the positions of that order for priorities afterwards, and are the same but for that.
abbrev pub IsReranked : List Text → Text → (before after : List ResolvedDeployment) → Type 0
IsReranked demoted alias before after =
    (order numbered : List ResolvedDeployment) × Perm order (deployments_of alias before)
    × IsOrdered demoted order
    × Perm numbered (deployments_of alias after)
    × IsNumbered 1 numbered
    × (map unranked numbered ≡ map unranked order)
