-- ===== src/Lib.antt =====
-- nctl keeps a cluster's actual state in line with the intent that Nautobot records: it fetches desired
-- and actual rows, computes drift, plans actions for it, and executes them in rounds until the drift
-- is gone. This library models the reconcile engine (src/nctl_core/reconcile), the drift engine with the
-- rules of IP ranges (src/nctl_core/drift), the lifecycle command, the resolution of service bindings
-- (src/nctl_core/production), and what they read of the desired rows and of the compute contract.
--
-- The parts, and how they interact:
--   Prelude               lists, dictionaries, sets, JSON values, results, and Python's order on texts.
--   Drift.Model           drift/model.py: targets, diff records, statuses.
--   Drift.Operations      drift/operations.py: the last actuation of a target in the event log.
--   Drift.Status          drift/status.py: derive_status. `ActuationEvents` and `Converging` have its
--                         proofs.
--   Drift.Comparators     drift/registry.py: the registered comparators; `Order` has its proofs.
--   Drift.Engine          drift/engine.py: compute_drift. `Grouping`, `Sorted`, `Report`, `Readable`,
--                         `Timed` and `Total` have its proofs.
--   Drift.IpRanges        drift/ip_ranges.py; `Overlaps`, `Common` and `Bounded` have its proofs.
--   Drift.Placements      drift/service_placement.py: evaluate_active_placement; `Quiet` has its proofs.
--   Drift.Bindings        drift/binding_evaluation.py; `Precedence` has its proofs.
--   Sources               sources/desired.py, compute/model.py: the desired rows.
--   Compute.Contract      compute/contract.py: the validators; `Lifecycle` has effective_lifecycle, `Text`
--                         str.strip.
--   Compute.MacAddress    compute/contract.py: normalize_mac_address; `Canonical` has its proofs.
--   Compute.Endpoints     compute/contract.py: the primary endpoint and the effective defaults; `Selected`
--                         has their proofs.
--   NodeLifecycle         lifecycle.py: set_node_lifecycle; `Refines` and `Confirmed` have its proofs.
--   Production.Reaches    production/service_dependencies.py: _reaches; `Sound`, `Complete` and `Total` have
--                         its proofs.
--   Production.Active     production/model.py and service_dependencies.py: the rows, the indexes of active
--                         placements and endpoints, and the test for cycles.
--   Production.ServiceDependencies
--                         production/service_dependencies.py: the resolution of bindings; `LeadsBack` and
--                         `Usable` have its proofs.
--   Reconcile.Model       reconcile/model.py: plans, actions and records.
--   Reconcile.Registry    reconcile/registry.py: the registry, topological_order; `Visit`, `Order`,
--                         `Ends` and `Total` have its proofs.
--   Reconcile.Reconcilers reconcile/reconcilers.py: the registrations and three of the planners.
--   Reconcile.Classify    reconcile/classify.py: the table of codes (`Codes` has the sets) and classify.
--   Reconcile.Planner     reconcile/planner.py: `Partition` is the first loop of build_plan, `Services`
--                         the service actions and their wiring, `Plan` the other loops, `Build` all of
--                         them in order.
--   Reconcile.Fingerprint reconcile/fingerprint.py: the digest of the errors that remain.
--   Reconcile.ProfileChecks
--                         reconcile/profiles.py: the checks of a profile; `Resolved` has their proofs.
--   Reconcile.DependencyCycles
--                         reconcile/profiles.py: _reject_dependency_cycles; `Chains` and `Acyclic` have its
--                         proofs.
--   Reconcile.Hosts       reconcile/ssh_preflight.py: the hosts that a plan connects to.
--   Reconcile.Ledger      reconcile/ledger.py, desired_write.py and actions/dispatch.py: the actions that
--                         write to Nautobot. `NodeLink`, `ComputeLink` and `Ipam` are the three of them,
--                         `Refusals` and `Requests` say what the steps raise; the proofs are in
--                         `Guarded`, `Repeated` and `Covered`.
--   Reconcile.Executor    reconcile/executor.py: `Round` is _execute_round, `Forced` is
--                         _with_forced_observation, `Apply` is _run_apply and _finish; `Effects`, `Trace`,
--                         `Turns`, `Loop` and `Settles` have their proofs.
-- A diff's code goes through Classify to a reconciler; the planner drafts actions for its group, the
-- registry orders them; the executor runs the plan, bootstrap actions first, and plans again.
--
-- State and effects. The executor's locals are records (`State` of a round, `Run` of an operation) that
-- each block of the source maps to the next ones; an early return, a break or an exception is a
-- constructor of `Flow`, `Turn` or `Ending`. What the outside decides (the fetch, the handlers, the
-- SSH scans, the signal flag, the regenerated inventory) is the record `World` of functions of the
-- number of the call, so that two calls may answer differently. The planner's derivations from the
-- snapshot are the record `Derivations`. The ledger's actions pass the state of the Nautobot server
-- through the requests of a record `Client`; a query leaves it as it is, a batch may do anything to it. A
-- moment of the log is the number of an instant with an offset or of a local time without one, and
-- comparing the two kinds fails as in Python; elsewhere moments are natural numbers. `fromisoformat` is
-- a parameter of the log's search.
--
-- Bounds and fuel. The visit of topological_order nests once for each new id, so it has one more unit of
-- fuel than there are ids; so it is with _reaches and the services, and with the cycle check of the
-- profiles. The loop of _run_apply is recursion on the number of rounds that are left.
--
-- Simplified: an envelope error is its code and its hosts, without its message; reasons that quote a
-- profile or a slug with Python's repr leave the quotation out; artifacts, progress events and
-- timestamps of the plan are left out, as nothing reads them back.
--
-- Not modelled: the command line and its rendering, Nautobot and SSH clients, the comparators that
-- produce drift records, the composition of the production inventory, dnsmasq, enrollment, uploads, the
-- braindump and workflow clients, and the handlers that run Ansible. The executor does not call the
-- model of the ledger's actions: there the handlers stay functions of the number of the call, and an
-- exception that a handler lets through, which the executor catches around the whole round or not at
-- all, is not modelled.
pub mod Prelude
pub mod Drift
pub mod Sources
pub mod Compute
pub mod NodeLifecycle
pub mod Production
pub mod Reconcile
