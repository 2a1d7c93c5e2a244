-- ===== src/Lib.antt =====
-- Verification of factory-agent, the multi-tenant service that answers questions over a factory's
-- MES. A caller logs in with an encrypted credential (data_api/token_gateway.py). A request is
-- authorised (application/authorization.py), its capability is checked against the role
-- (application/permission_matrix.py), its filters are narrowed to the data scope
-- (application/filters.py, domain/identity.py), the MES is read page by page
-- (data_api/pagination.py), the department and employee rosters are shared through a cache
-- (application/cache.py), and the conversation moves through its states (domain/session.py).
-- The steps of a recipe are put into waves (execution/dag.py). While a request runs, sentences on its
-- progress are framed and pass a gate (application/session/thinking.py). Beside this the model
-- endpoints are probed and the routing table is reordered (llm/health.py, llm/registry.py), and the
-- facts of the usage are rolled up for each tenant (application/rollup.py). All paths are below
-- src/factory_agent.
--
-- Files and code:
--   Prelude and its children: Boolean tests, lists, equality, sets, dicts, texts and results.
--   Session: the states, the table of transitions, `transition_to`. Session.Machine and
--     Session.Journey prove what it applies and what the histories of reachable machines hold;
--     Session.Turns has the status of a turn and its terminal event.
--   Pager: `BoundedPager.fetch_all`. One pass of its loop is `turn`; `loop` repeats it on fuel. A
--     pass returns, raises, or goes round again with new loop variables. Pager.Bounds has the
--     budgets and the end of the loop, Pager.Steps single passes, Pager.Honest the fetch of a list.
--   Identity: `Role`, `DataScope`, `ExpectedRange` and the other values of domain/identity.py.
--   Filters: `FilterNarrower.narrow`; Filters.Within has what it lets through.
--   Permissions: the capability-role matrix and `authorize_capability`.
--   Authorization: `AuthorizationService.authorize` and `is_current` over its three ports.
--   Registry: `probe_targets` and `with_demoted_endpoints` of `ModelRegistry`. Registry.Ranking has
--     the ranking of a group, Registry.Groups the groups, Registry.Table the table that comes out.
--   Health: `EndpointHealthMonitor`: `_record`, `_probe_one`, `refresh`.
--   Cache: `AuthAwareCache` over a store that may fail. Cache.Keys has the layout of the keys,
--     Cache.Isolation sequences of calls, Cache.Roster `CachedDirectorySource` and its encoding.
--   Dag: `_parallel_groups` and the budgets of execution/dag.py. Dag.Waves has the order of the
--     waves, Dag.Progress their existence, Dag.Budget the charges, Dag.Runs the run of one step.
--   Thinking: `ThinkingFacts` and the gate `rejection_reason`. Thinking.Coalescer has
--     `ThinkingCoalescer.commit`; one pass of its loop is `pass`, repeated on fuel. Thinking.Gate has
--     what is sent, Thinking.Budget how much, Thinking.Facts what merged facts let through, and
--     Thinking.Watch is `FetchProgressWatch` and what it tells.
--   Rollup: `compute_bucket_metrics`; Rollup.Range has `RollupEngine.rollup_range`. Rollup.Totals sums
--     what the rows add, Rollup.Hours compares days and hours, Rollup.Split the calls of the MES,
--     Rollup.Names and Rollup.Known have the names of the metrics, Rollup.Tenants the rows of a tenant
--     and Rollup.Returns the runs that return.
--   Gateway: the credential bundle and what the token endpoint answers (data_api/credentials.py,
--     data_api/token_gateway.py). Gateway.Exchange has the gateway with its two dicts and its bound
--     bundle, Gateway.Refresh the refreshes, and one call as `step`; Gateway.Stands and Gateway.Kept
--     have whom the entries belong to, Gateway.Scope the refresh of a bound bundle, Gateway.Members
--     the memberships that it resolves.
--   Calendar: the days that a phrase on time stands for (application/time_expressions.py), with the
--     calendar that it uses. Calendar.Order has the order of the days, Calendar.Periods that of the
--     bounds, Calendar.Steps the way back and forth, Calendar.Resolved any phrase,
--     and Calendar.Today where the periods lie.
--   A module named Examples holds tests and the theorems at concrete inputs.
--
-- Representation: a `str` is its list of code points, a `frozenset` a list that is read through
-- membership, a `dict` an association list, `None` is `none`, an exception is the `err` of a result
-- (or `none` where a function has one exception), an instant is a number. Coroutines run to their
-- end; the verdicts of one `gather` come in any order, which is the order of the list.
--
-- Fuel: `fetch_all` takes `max_pages + 2` passes: one for each page, one for the restart at the
-- larger page size and one in which the page budget refuses.
-- `_parallel_groups` takes one pass for each wave, and every wave removes a step, so the number of
-- steps is enough. `commit` takes one pass for each frame, and a frame takes a character at least, so
-- the length of the sentence is enough.
--
-- Parameters: the MES adapter with the row model's validation and `repr`, the membership source,
-- the organization source, the version assigner, what the probes find, the cache's store, digest and
-- JSON, the regular expressions of the phrases on time, the runner of a recipe's
-- steps, the lower case, the classes of characters and the regular expressions of the narration's
-- gate, the store of the rollup, and the token endpoint with its clock, digest and budget.
--
-- Not modelled: HTTP routes, SQL stores, the MES transport, the model gateway and the wiring, which
-- are input and output; loading the registry document; the display texts; and the session
-- pipeline, the result cache, the cache's lease, the concurrent run of a wave, the loops of the
-- background workers, the instants of a phrase on time and the redline of a range, and the
-- statistics.
pub mod Prelude
pub mod Session
pub mod Pager
pub mod Registry
pub mod Health
pub mod Identity
pub mod Filters
pub mod Permissions
pub mod Authorization
pub mod Cache
pub mod Dag
pub mod Thinking
pub mod Calendar
pub mod Gateway
pub mod Rollup
