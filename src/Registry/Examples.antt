-- ===== src/Registry/Examples.antt =====
-- llm/registry.py: two aliases on one endpoint.
use factory_agent.Prelude.{◌≡◌, none, [], ◌∷◌, contains, nat_eq, list_eq, Text, text}
use factory_agent.Registry.{ResolvedDeployment, ModelRegistry, probe_targets}
use factory_agent.Registry.Targets.{bases, IsOnce, probe_targets-IsOnce}

abbrev deployment : Text → Text → ResolvedDeployment
deployment alias base = record {
  alias = alias;
  model = text "m";
  api_base = base;
  api_key = text "k";
  priority = 1;
  provider = none;
}

abbrev models : ModelRegistry
models = record {
  version = 1;
  deployments =
      deployment (text "fast") (text "u")
      ∷ deployment (text "deep") (text "u")
      ∷ deployment (text "deep") (text "v")
      ∷ [];
  fallbacks = [];
  skipped_aliases = [];
}

probe_targets-IsOnce_example :
    IsOnce (bases (probe_targets models))
    × ((b : Text)
        → contains (bases (probe_targets models)) b ≡ contains (bases models.deployments) b)
probe_targets-IsOnce_example = probe_targets-IsOnce models
