-- ===== src/Registry/Targets.antt =====
-- llm/registry.py: `probe_targets` names each endpoint once.
use factory_agent.Prelude.{
  ◌≡◌, refl, ap, ◌∙◌, false, not, ◌&&◌, List, [], ◌∷◌, contains, ◌==◌, nat_eq, list_eq,
  list_beq_iff, ==_refl, Text, arith, Bool-cases, inl, inr,
}
use factory_agent.Registry.{ResolvedDeployment, ModelRegistry, targets_from, probe_targets}

abbrev pub bases : List ResolvedDeployment → List Text
bases [] = []
bases (d ∷ ds) = d.api_base ∷ bases ds

-- No endpoint stands twice in the list.
abbrev pub IsOnce : List Text → Type 0
IsOnce [] = Unit
IsOnce (b ∷ bs) = (contains bs b ≡ false) × IsOnce bs

contains-targets_from :
    (seen : List Text) (ds : List ResolvedDeployment) (b : Text)
    → contains (bases (targets_from seen ds)) b ≡ (contains (bases ds) b && not (contains seen b))
unfolding targets_from
contains-targets_from seen [] b = refl
contains-targets_from seen (d ∷ ds) b = elim (Bool-cases (d.api_base == b)) [
  | inl same ↦ ground (
    arith,
    same,
    ap (contains seen) ((list_beq_iff d.api_base b).0 same),
    contains-targets_from seen ds b,
  )
  | inr other ↦ ground (
    arith,
    other,
    contains-targets_from seen ds b,
    contains-targets_from (d.api_base ∷ seen) ds b,
  )
]

targets_from-IsOnce :
    (seen : List Text) (ds : List ResolvedDeployment) → IsOnce (bases (targets_from seen ds))
unfolding targets_from
targets_from-IsOnce seen [] = tt
targets_from-IsOnce seen (d ∷ ds) = elim (Bool-cases (contains seen d.api_base)) [
  | inl old ↦ rw old (targets_from-IsOnce seen ds)
  | inr new ↦ rw new (first_new, targets_from-IsOnce (d.api_base ∷ seen) ds)
]
  where
    first_new : contains (bases (targets_from (d.api_base ∷ seen) ds)) d.api_base ≡ false
    first_new =
        ground (arith, ==_refl d.api_base, contains-targets_from (d.api_base ∷ seen) ds d.api_base)

-- The probes go to exactly the endpoints of the deployments, and to each of them once.
pub probe_targets-IsOnce :
    (r : ModelRegistry)
    → IsOnce (bases (probe_targets r))
      × ((b : Text) → contains (bases (probe_targets r)) b ≡ contains (bases r.deployments) b)
unfolding probe_targets
probe_targets-IsOnce r = (
  targets_from-IsOnce [] r.deployments,
  λ b. contains-targets_from [] r.deployments b ∙ ground arith,
)
