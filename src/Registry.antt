-- ===== src/Registry.antt =====
-- src/factory_agent/llm/registry.py: the routing table, the endpoints to probe, and the table
-- under a set of demoted endpoints. Loading and validating the document is not modelled; an
-- `api_key` is an opaque text.
pub mod Ranking
pub mod Groups
pub mod Table
pub mod Targets
mod Examples
use factory_agent.Prelude.{
  ℕ, zero, suc, ◌+◌, Bool, true, false, not, ◌&&◌, ◌||◌, Option, none, some, List, [], ◌∷◌, ◌++◌,
  map, leb, nat_beq, if◌then◌else◌, is_empty, contains, ◌==◌, nat_eq, list_eq, Text,
}

pub record ResolvedDeployment : Type 0 where
  pub alias : Text
  pub model : Text
  pub api_base : Text
  pub api_key : Text
  pub priority : ℕ
  pub provider : Option Text

pub record ModelRegistry : Type 0 where
  pub version : ℕ
  pub deployments : List ResolvedDeployment
  pub fallbacks : List (Text × List Text)
  pub skipped_aliases : List Text

-- The loop of `probe_targets`, over the deployments that are left.
unfoldable pub targets_from : List Text → List ResolvedDeployment → List ResolvedDeployment
targets_from seen [] = []
targets_from seen (d ∷ ds) =
    let fresh = d ∷ targets_from (d.api_base ∷ seen) ds in
    let skipped = targets_from seen ds in if contains seen d.api_base then skipped else fresh

unfoldable pub probe_targets : ModelRegistry → List ResolvedDeployment
unfolding targets_from
probe_targets r = targets_from [] r.deployments

abbrev pub Group : Type 0
Group = Text × List ResolvedDeployment

-- `grouped.setdefault(deployment.alias, []).append(deployment)`
unfoldable pub add_member : ResolvedDeployment → List Group → List Group
add_member d [] = (d.alias, d ∷ []) ∷ []
add_member d ((a, ds) ∷ gs) =
    if a == d.alias then (a, ds ++ d ∷ []) ∷ gs else (a, ds) ∷ add_member d gs

unfoldable pub grouped_from : List Group → List ResolvedDeployment → List Group
unfolding add_member
grouped_from gs [] = gs
grouped_from gs (d ∷ ds) = grouped_from (add_member d gs) ds

-- The key `(item.api_base in demoted, item.priority)`, compared with `<=`.
unfoldable pub key_le : List Text → ResolvedDeployment → ResolvedDeployment → Bool
key_le demoted d e =
    if contains demoted d.api_base
    then contains demoted e.api_base && leb d.priority e.priority
    else not (contains demoted e.api_base) && leb d.priority e.priority
      || contains demoted e.api_base

unfoldable pub rank_insert :
    List Text → ResolvedDeployment → List ResolvedDeployment → List ResolvedDeployment
unfolding key_le
rank_insert demoted d [] = d ∷ []
rank_insert demoted d (e ∷ es) =
    if key_le demoted d e then d ∷ e ∷ es else e ∷ rank_insert demoted d es

-- `sorted(members, key=...)`, which is stable.
unfoldable pub ranked : List Text → List ResolvedDeployment → List ResolvedDeployment
unfolding rank_insert
ranked demoted [] = []
ranked demoted (d ∷ ds) = rank_insert demoted d (ranked demoted ds)

-- `replace(deployment, priority=position)` along `enumerate(ranked, start=position)`.
unfoldable pub renumbered : ℕ → List ResolvedDeployment → List ResolvedDeployment
renumbered position [] = []
renumbered position (d ∷ ds) = record d { priority = position } ∷ renumbered (position + 1) ds

-- Whether some priority differs from its position.
unfoldable pub renumbers : ℕ → List ResolvedDeployment → Bool
renumbers position [] = false
renumbers position (d ∷ ds) = not (nat_beq d.priority position) || renumbers (position + 1) ds

unfoldable pub reorder : List Text → List Group → List ResolvedDeployment
unfolding ranked renumbered
reorder demoted [] = []
reorder demoted ((a, ds) ∷ gs) = renumbered 1 (ranked demoted ds) ++ reorder demoted gs

unfoldable pub reorders : List Text → List Group → Bool
unfolding ranked renumbers
reorders demoted [] = false
reorders demoted ((a, ds) ∷ gs) = renumbers 1 (ranked demoted ds) || reorders demoted gs

unfoldable pub with_demoted_endpoints : ModelRegistry → List Text → ModelRegistry
unfolding grouped_from reorder reorders
with_demoted_endpoints r demoted =
    let groups = grouped_from [] r.deployments in
    if is_empty demoted
    then r
    else if reorders demoted groups
    then record r { deployments = reorder demoted groups }
    else r
