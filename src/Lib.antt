-- ===== src/Lib.antt =====
-- The AI Compute Intelligence platform attributes calls of language models to teams and intervenes in
-- them. This library models the part of src/aci that decides on a request, and what it stands on, the
-- part that finds out whom a workload belongs to, and the services for costs and benchmarks:
--
--   - the fail-open interceptor (src/aci/interceptor/gateway.py, class FailOpenInterceptor) answers a
--     request in five steps: it polls the circuit breaker, looks the workload up in the attribution
--     index, checks its time budget, evaluates the entry's policies, and routes by deployment mode;
--   - the circuit breaker (src/aci/interceptor/circuit_breaker.py) keeps its state in a local store or
--     in Redis, and falls back to a local state when Redis cannot be reached;
--   - the shadow warmer (src/aci/interceptor/shadow_warming.py) decides on background refreshes;
--   - the attribution index (src/aci/index/materializer.py) is an LRU table before a durable tier in
--     Redis; its materializer writes the entries, with limits taken from the policy engine;
--   - the policy engine (src/aci/policy/engine.py) keeps policies, evaluates them and answers the
--     limits that hold for a team;
--   - the event buses (src/aci/core/event_bus.py) carry domain events, the interceptor's among them;
--   - the cost ledger (src/aci/finops/reconciliation.py) keeps the estimated and the settled cost of
--     each request, and the registry (src/aci/interventions/registry.py) the state of recommendations;
--     the HTTP routes call both;
--   - the combination of evidence (src/aci/hre/combination.py) makes one confidence of the signals of
--     the reconciliation methods, which ends up in an attribution;
--   - the graph store (src/aci/graph/store.py) keeps versioned nodes and edges in memory, and finds the
--     paths of an attribution in it;
--   - the reconciliation engine (src/aci/hre/methods.py, src/aci/hre/engine.py) resolves an entity to an
--     owner by the methods R1 to R6, whose signals it combines, and keeps its results in a cache;
--   - the calibration (src/aci/confidence/calibration.py) corrects confidences by labels;
--   - the processor (src/aci/core/processor.py) subscribes to the event bus and joins these: an event
--     changes the graph or the calibration, or is resolved, calibrated, given the limits of the policy
--     engine and written into the attribution index;
--   - the pricing catalog (src/aci/pricing/catalog.py), the simulator on top of it
--     (src/aci/interventions/simulator.py), the forecast (src/aci/forecast/engine.py) and the federated
--     benchmarks (src/aci/benchmark/federated.py) are services of the HTTP routes.
--
-- Files. Breaker is the breaker and its mutators (is_open, record_success, record_failure, ...), and
-- Breaker/Store its two stores, the WATCH/EXEC loop and _safe_mutate. Policy is the engine:
-- register_policy, evaluate_all, and the getters, whose common loop is resolve. Index is the local
-- store with its lock's critical sections (insert_local is _insert_local_locked, popitem a round of
-- its loop), Index/Store the operations over both tiers, and Index/Materializer the materializer.
-- Gateway has the interceptor's types; Gateway/Headers the functions on headers, Gateway/Policies
-- _evaluate_policies, Gateway/Events the shadow, policy and intervention events, Gateway/Warmer the
-- shadow warmer, Gateway/Routing the routing by mode (route, and active_routing for _active_routing),
-- and Gateway/Intercept the pipeline: enter, lookup_stage, miss, hit and policy_stage are the steps of
-- _intercept_inner in order, handle_exception is the except branch of intercept, and conclude joins
-- them. Bus is the in-memory bus with its idempotency store, and Bus/Kafka the Kafka bus, where settle
-- is the end of the try of _handle_message and handle_failure its except branch. Finops is
-- ReconciliationLedger, and Interventions is InterventionRegistry. Combination is combine_evidence:
-- bounded_signals, penalize_all (step 1) and noisy_or (steps 2 and 3) are its parts. Graph is
-- InMemoryGraphStore and Graph/Traversal the mixin with _dfs. Hre/Methods has resolve_r1 to resolve_r6,
-- one for each method class, in modules of their own, and Hre/Engine the engine: reconcile is resolve without its cache, and
-- resolve_signals step 3 and what follows it. Calibration is CalibrationEngine, whose curves are lists
-- of points. Processor has the handlers on the graph and _build_context, and Processor/Inference the
-- state, _handle_inference, whose second half is publish_result, and _handle_correction. Pricing is
-- PricingCatalog and Pricing/Simulator the simulation; Forecast is forecast; Benchmark is
-- FederatedBenchmarkProtocol. Samples has the parameters that several Tests modules share. The modules
-- beside these hold proofs, and each Tests module runs of the code. Prelude and its modules hold what
-- the components share: dictionaries in insertion order, with distinct keys where a proof needs them,
-- lists measured by native numbers, and texts.
--
-- What comes from outside the repository is a parameter. Floats is the record of the float operations
-- in use, of which no law is assumed but where a theorem names it; Index.Store.Redis is the Redis
-- client with the JSON codec of entries; Breaker.Store.Exchange says for one transaction who writes
-- between WATCH and EXEC, and Gateway.CircuitAccess what the breaker finds in its store at a call;
-- Gateway.PyText and Finops.Trim have the operations of Python's str in use;
-- Bus.Schemas says which attributes the pydantic schemas accept; Hre.Python has what the methods take
-- from Python's library, the order of a loop over a set included; Calibration.Fitting is the fitting of
-- curves by scikit-learn, scipy and numpy; Benchmark.Release is the noise with numpy's mean and median;
-- Processor.Texts and Processor.Inference.Parsing read texts. Each reading of a clock is an
-- argument; a Gateway.Moment gathers those of one request together with the random number, the answers
-- of the event bus, and which step raises. An exception is none, or the constructor of a result that
-- stands for it.
--
-- Counts are natural numbers. The loop that shrinks the index runs as many rounds as there are entries
-- over the limit, and so does that of the shadow warmer; each round takes one entry out, so as many
-- rounds are enough. The retries of a Redis transaction recurse on the sequence of foreign writes,
-- whatever its length. The traversal of the graph recurses on fuel, one round more than max_depth, and
-- each round makes the path one edge longer. Token counts may be negative: Pricing has the integers.
--
-- Not modelled: logging and gauges; the loop of background tasks and its shutdown; when a Redis key
-- expires (PEXPIRE is an operation of the parameter); the fallback for a Redis client without scripts;
-- what an event handler does besides raising;
-- the consumer's loop and start and stop of the Kafka bus. The Neo4j backend of the graph store is
-- queries for its driver, and the in-memory one meets the sets of nodes in the order of insertion, of
-- the orders that Python may choose. The verifier of equivalence and the carbon calculators are
-- numerical code
-- without state, the HTTP routes and the configuration are wiring, and the connectors and notifications
-- are input and output only.
pub mod Benchmark
pub mod Breaker
pub mod Bus
pub mod Calibration
pub mod Combination
pub mod Finops
pub mod Floats
pub mod Forecast
pub mod Gateway
pub mod Graph
pub mod Hre
pub mod Index
pub mod Interventions
pub mod Policy
pub mod Prelude
pub mod Pricing
pub mod Processor
pub mod Samples
