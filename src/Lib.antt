-- ===== src/Lib.antt =====
-- A model of the control plane of Mirage: the case lifecycle and what guards it, in Python.
--
-- Mirage runs an investigation as a case that moves through ten states, from CREATED to DESTROYED.
-- Detections open cases; analysts steer an intruder's session into a sandbox by routing decisions;
-- a fingerprint check guards the step at which the sandbox is engaged; an AI provider proposes
-- actions that a policy admits; agents queue their telemetry while the server is away; and a
-- teardown removes the case's resources once its evidence is proven. Every change of state is one
-- Postgres transaction that also writes its events to an outbox table.
--
-- Files:
--   Common         shared types: tests on numbers, lists, tables as lists of rows, and Exec, the
--                  functions that run statements on a state and may raise
--   Contracts      contracts/python/mirage_contracts (envelope.py, registry.py, ulid.py) and
--                  libs/mirage_common/subjects.py
--   Fingerprint    libs/mirage_common/fingerprint.py: comparators, run_fingerprint_check
--   Database       the tables of infra/migrations as a record of lists of rows, with the statements
--                  that several functions share, and the caller's transaction (handle_message of
--                  services/mirage-worker/mirage_worker/detection_adapter.py)
--   Detection      libs/mirage_common/detection_correlation.py: correlate_detection
--   Routing        libs/mirage_common/routing.py: write_routing_decision, resolve_route, RouteCache
--   CaseLifecycle  libs/mirage_common/case_state_machine.py: transition_case
--   Gate           libs/mirage_common/fingerprint_gate.py: a session of an open and a durable
--                  database, so that its explicit commit can be told from the caller's
--   AgentQueue     libs/mirage_common/agent_queue.py, and flush_queue of
--                  agents/mirage-endpoint/mirage_endpoint/service_logic.py
--   Ai             libs/mirage_common/ai.py: assemble_snapshot, validate_proposal, BudgetLedger,
--                  CircuitBreaker, evaluate_policy, next_strategy_phase, AIOrchestrator.propose,
--                  AIConfig, RefreshingSecret
--   Consumer       libs/mirage_common/nats_client.py: DeadLetterAwareConsumer.process
--   OutboxRelay    services/mirage-outbox-relay/mirage_outbox_relay/relay.py: relay_once
--   SandboxActions libs/mirage_common/sandbox_actions.py: open_pending_action, record_action_result
--   EnvController  agents/mirage-env-controller/mirage_env_controller (actions.py, journal.py): the
--                  handlers, execute_action, the journal and the rollback, over a table of files
--   Artifacts      libs/mirage_common/artifacts.py: stage_upload, inspect_archive over a tree of members,
--                  ArtifactScanner.scan, validate_deployment
--   Export         libs/mirage_common/evidence_export.py and trust_anchor.py: create_export_package and
--                  verify_export_package over a list of members, resolve_trusted_key
--   Canary         libs/mirage_common/canary.py: issue_canary_token, resolve_callback_source,
--                  classify_callback, the signature of callbacks
--   Teardown       libs/mirage_common/teardown.py: TeardownWorkflow.execute with its journal
--   Samples        data for the tests; the module Tests of a part holds its runs on concrete inputs
--
-- How it is modelled. A function that runs SQL takes the database and gives a result with the
-- database it leaves, also when it raises: what was written before a raise stays until the caller's
-- transaction rolls it back. Functions run one after the other; a row lock (SELECT ... FOR UPDATE)
-- is that order. Events are checked by validate_event where the code calls it. Times are numbers of
-- milliseconds and amounts numbers of the smallest unit. What is not in the repository is a
-- parameter: the ULID package, hashing, JSON Schema validation, encryption, the transport, the AI
-- provider, the JSON text, the types that pydantic reads and the regular expressions of a baseline.
--
-- Fuel. flush_rounds gets one round more than there are undelivered events, since each round but the
-- last delivers one. attempt gets one call more than max_retries, since each call but the last counts
-- a retry. trim, the loop of assemble_snapshot, gets one round more than there are elements to pop,
-- since each round but the last pops one, and the loop of _bounded_json_object one more than there
-- are keys. deliver, the redeliveries of a message, takes its fuel from the caller; the deliveries
-- that are left are enough, since each one is counted.
--
-- Not modelled: the HTTP services, the connection of the NATS client, the installer, releases, reports
-- and dashboards, the analyst and the behaviour profiles, the records of evidence, the Windows adapters
-- and the web socket of the environment controller, the decoding of zip and tar files, RSA signatures
-- and timestamps of an export, the parsing of IP addresses, the text of a prompt, and those checks of
-- the database schema that the code does not rely on. The faults of an export's verification are kept
-- without their order, and the sort fields of its items have their types. TeardownWorkflow's refusal
-- of an empty environment or case is left to its caller.
--
-- Raises that are left out. A proposal whose expires_at has no time zone raises TypeError in
-- validate_proposal, and a document that is nested too deeply raises RecursionError. In
-- verify_export_package a manifest that is JSON and no object, or a manifest.sha256 that is not
-- UTF-8, raises; loads answers none for it. A forbidden pattern of a baseline that is no regular
-- expression raises in re. An IPv6 address has no scope id. An empty list of backoffs, for which the
-- consumer raises IndexError, gives 0.
pub mod Common
pub mod Samples
pub mod Contracts
pub mod Fingerprint
pub mod Detection
pub mod Routing
pub mod Database
pub mod CaseLifecycle
pub mod Gate
pub mod AgentQueue
pub mod Ai
pub mod Consumer
pub mod OutboxRelay
pub mod SandboxActions
pub mod Teardown
pub mod EnvController
pub mod Artifacts
pub mod Canary
pub mod Export
