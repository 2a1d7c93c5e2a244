-- ===== src/Health.antt =====
-- src/factory_agent/llm/health.py: `EndpointHealthMonitor`, which turns probe verdicts into the
-- routing table. What a probe finds is a parameter; a verdict is what `_probe_one` hands to
-- `_record`. The log lines are kept in the state. The probe's HTTP client, the endless pacing loop
-- and `aclose` are not modelled.
pub mod View
pub mod Streaks
mod Examples
use factory_agent.Prelude.{
  ℕ, zero, suc, ◌+◌, Bool, true, false, not, ◌&&◌, Option, none, some, List, [], ◌∷◌, ◌++◌, leb,
  if◌then◌else◌, contains, nat_eq, list_eq, Text, get, put, remove, add, discard,
}
use factory_agent.Registry.{
  ResolvedDeployment, ModelRegistry, probe_targets, with_demoted_endpoints,
}

-- The three lines that `_record` can write, with the number of failed probes.
pub data LogLine : Type 0 where
  endpoint_restored probe_error endpoint_demoted : Text → ℕ → LogLine

pub record Monitor : Type 0 where
  pub baseline : ModelRegistry
  pub failures_to_demote : ℕ
  pub consecutive_failures : List (Text × ℕ)
  pub demoted : List Text
  pub probe_errors : List Text
  pub log : List LogLine

-- `__init__`
abbrev pub fresh : ModelRegistry → ℕ → Monitor
fresh baseline failures_to_demote = record {
  baseline = baseline;
  failures_to_demote = failures_to_demote;
  consecutive_failures = [];
  demoted = [];
  probe_errors = [];
  log = [];
}

abbrev or_zero : Option ℕ → ℕ
or_zero none = 0
or_zero (some n) = n

-- `self._consecutive_failures.get(endpoint, 0)`
unfoldable pub failures : Monitor → Text → ℕ
failures m endpoint = or_zero (get endpoint m.consecutive_failures)

-- `_record` with `healthy` true.
unfoldable pub record_healthy : Monitor → Text → Monitor
unfolding failures
record_healthy m endpoint =
    let attempts = failures m endpoint in
    let cleared = record m {
      consecutive_failures = remove endpoint m.consecutive_failures;
      probe_errors = discard endpoint m.probe_errors;
    } in
    if contains m.demoted endpoint
    then record cleared {
      demoted = discard endpoint m.demoted;
      log = m.log ++ endpoint_restored endpoint attempts ∷ [];
    }
    else cleared

-- The line and the mark at the first probe error of an episode.
unfoldable pub note_error : Monitor → Text → ℕ → Bool → Monitor
note_error m endpoint count probe_raised =
    if probe_raised && not (contains m.probe_errors endpoint)
    then record m {
      probe_errors = add endpoint m.probe_errors;
      log = m.log ++ probe_error endpoint count ∷ [];
    }
    else m

-- The rest of `_record` with `healthy` false.
unfoldable pub demote : Monitor → Text → ℕ → Monitor
demote m endpoint count =
    if contains m.demoted endpoint
    then m
    else if leb m.failures_to_demote count
    then record m {
      demoted = add endpoint m.demoted;
      log = m.log ++ endpoint_demoted endpoint count ∷ [];
    }
    else m

unfoldable pub record_unhealthy : Monitor → Text → Bool → Monitor
unfolding failures note_error demote
record_unhealthy m endpoint probe_raised =
    let count = failures m endpoint + 1 in
    let counted = record m { consecutive_failures = put endpoint count m.consecutive_failures } in
    demote (note_error counted endpoint count probe_raised) endpoint count

-- What a probe comes back with: `is_healthy` answers, or raises.
pub data Probe : Type 0 where
  answers : Bool → Probe
  raises : Probe

-- `_probe_one`, with `_record`: a probe that raises is a failed probe.
unfoldable pub probe_one : Monitor → Text → Probe → Monitor
unfolding record_healthy record_unhealthy
probe_one m endpoint (answers true) = record_healthy m endpoint
probe_one m endpoint (answers false) = record_unhealthy m endpoint false
probe_one m endpoint raises = record_unhealthy m endpoint true

-- The probes of one `gather`, in the order in which they come back.
unfoldable pub probe_all : Monitor → List (Text × Probe) → Monitor
unfolding probe_one
probe_all m [] = m
probe_all m ((endpoint, probe) ∷ ps) = probe_all (probe_one m endpoint probe) ps

-- `registry`: the routing table that the current verdicts imply.
unfoldable pub registry : Monitor → ModelRegistry
registry m = with_demoted_endpoints m.baseline m.demoted

unfoldable pub verdicts :
    (ResolvedDeployment → Probe) → List ResolvedDeployment → List (Text × Probe)
verdicts probe [] = []
verdicts probe (d ∷ ds) = (d.api_base, probe d) ∷ verdicts probe ds

-- `refresh`: the monitor afterwards and the table that it publishes.
unfoldable pub refresh : Monitor → (ResolvedDeployment → Probe) → Monitor × ModelRegistry
unfolding verdicts probe_all registry
refresh m probe =
    let m' = probe_all m (verdicts probe (probe_targets m.baseline)) in (m', registry m')
