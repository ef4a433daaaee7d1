-- ===== src/Lib.antt =====
-- Verification of model-council-lab: the harness that runs a task through a workflow of model calls
-- (src/model_council). A run executes the stages of its condition in order. For every stage the
-- runner selects the inputs that the policy allows, calls the adapter within a time, a token and a
-- retry budget, checks the response (identity, budgets, contract) and persists one invocation record
-- per attempt. A success is promoted and sealed in one transaction, which a passed deadline rolls
-- back; a failure becomes the status of the run. After the last stage the final candidate is
-- evaluated, and however the run ends a terminal record is written. A live call is also witnessed by
-- the journal of its attempt, which alone can say that a call was not dispatched.
--
-- Prelude     shared names, lists over native numbers, integers, text
-- Errors      src/model_council/errors.py: exceptions as values, and results that carry one
-- Category    live_contract.py `ProviderErrorCategory`; Category/Retry is retry_policy.py
-- Roles       roles.py: workflows, artifacts, context policy; Roles/Isolation its theorems
-- Findings    types.py: findings and dispositions; Findings/Coverage their theorems
-- Json        the values of json.loads, and runner.py `_approximate_tokens`, `_estimate_tokens_out`
-- Identity    types.py `AdapterIdentity`, live_contract.py exact identity policy; Identity/Exact, Key
-- Live        live_contract.py `map_live_outcome_to_stage_response`
-- Structured  runner.py `_require_structured`, `_parse_finding`, `_parse_disposition`
-- Contract    runner.py `_check_identity`, `_check_output_and_tool_budget`, `_check_contract`
-- Stage       runner.py `_execute_stage_body`: Stage holds the data and the monad, Stage/Handlers the
--             persistence and the `except` clauses, Stage/Call the call, Stage/Attempt one round of
--             the loop, Stage/Loop the loop; Settled, Checked and Attempted are the lemmas on each
--             phase, Loop/History and
--             Loop/Budget the theorems on the whole stage, Terminal `_terminal_for_failure`
-- Action      steps on a state that may raise; Action/Triple what holds after one
-- Run         runner.py `execute`: Run holds the state of a run and the interface of the artifact
--             store, Run/Commit `_execute_stage` and `_commit_stage_transaction`, Run/Results and
--             Run/Stages `_run_stages`, Run/Finish `_finalize_evaluation`, Run/Reconcile and
--             Run/Finish `_finalize_interrupted_run`, Run/Execute the whole run with its `except`
--             and `finally` clauses; Progress, Turns, Setup, Justified, Terminal, Recorded, Ending,
--             Along and Durable are the lemmas and the theorems
-- Artifacts   artifacts.py `write_staged`, `commit_staged_artifacts`, `abort_uncommitted_stage`;
--             Artifacts/Rollback and Staged the theorem
-- Guard       openai_response_guard.py: the byte boundary of a response body; Guard/Bounds
-- Security    security.py `safe_identifier`; Security/Identifier its theorems
-- Evaluator   evaluator.py `ExternalEvaluator.evaluate`; Evaluator/Markers its theorem
-- Evidence    invocation.py: the bound on raw evidence, the classification and the verification of
--             what is stored; Header, Bounded, Verified, Cut and Stored are the theorems
-- Lifecycle   attempt_lifecycle.py: the events and what is stored; Lifecycle/Decode is
--             `_validate_binding` and `_decode`, Journal `JournalWriter.append` and
--             `AttemptJournal.permit`, Closed `close` and `inspect`; Order, Chain, Once, Permit, Safety
--             and Sealed are the theorems
-- Worker      executor.py `_collect_openai_worker`: Worker holds the state of the collector and its nested
--             functions, Worker/Serve the loop, Worker/Collect the whole collection, Worker/Launch
--             `_run_openai_worker`; Worker/Machine is the collector as an abstract machine, Traced
--             and Closing take its steps as moves of it, Invariant is what every move keeps; Attested,
--             Released, Ends, Accepted and Returned are the theorems
-- Executor    executor.py `_spawn_worker` for the OpenAI adapter: the worker's call between the journal
--             of the attempt and the payload; Executor/Spawned and Payload its theorems;
--             Executor/Envelope is `_parse_legacy_payload` and `_parse_live_payload`, Legacy the
--             theorem
-- Openai      openai_adapter.py `_classify_openai_response`; Openai/Description describes a success,
--             Completed, Success and Refusals are the theorems; Openai/Ingest is
--             `_ingest_provider_response` and Copied its theorem
-- Examples    the theorems at concrete inputs
--
-- A stage is a function from a `World` (clock readings, store writes, calls, records, findings) to a
-- result and a `World`. What the stage calls and this library does not model answers through `Env`:
-- the clock by the number of the reading, the adapter and the journal's check by the attempt, the
-- store by the number of the write, which may raise any exception. The theorems hold for every such
-- environment. Times are whole ticks; wall-clock texts, digests and the raw evidence that a record
-- also holds are left out, and so are values that an error text quotes and no status depends on.
-- `Render` stands for what Python prints of values that are no strings.
-- A run is an `Action` on its `RunState`, the stored state and the `World`. The artifact store is the
-- record `Store`: the theorems hold for operations that answer anything and raise anything.
-- An interrupt is raised by a call of the model; the theorem on what it leaves takes any state that it
-- may find, so also one between two calls.
-- `seal_stage` is in two parts, its tests and its write, since it calls the runner back between them.
-- A journal is a list of lines, each with the event that it parses to; `Codec` stands for the digests,
-- the length of an encoding and the parser of provider outcomes, and a write answers by how far it
-- came (written, not synced, torn).
-- The collector of a worker is an `Action` on its local variables. Whatever it asks of the operating
-- system answers through `Os` by the number of the call or of the clock's reading, and may raise any
-- exception; times are milliseconds. Its loop runs on fuel, one unit for a turn, and a collection that
-- runs out of it has no result. Every turn reads the clock, so fuel is enough that lets it pass the
-- deadline of the communication and then that of the cleanup.
-- A provider response is a JSON value; its translation answers a value or a rejection.
-- The attempt loop is structural on the attempts left, max_stage_retries + 1, as in the source; no
-- other function needs fuel but `decimal` and `digits`, whose n + 1 rounds are enough since each
-- divides by ten.
--
-- Not modelled: the directory tree of a journal; of the artifact store (artifacts.py) the seals, the
-- frozen records, the invocation records and the verification of a completed run, which a run meets
-- as operations of its `Store`; failures of the file system within an operation of the store; the
-- worker process (worker.py) and, of the executor, the request envelope, the environment of the child
-- and the call of a legacy worker; of the OpenAI adapter the translation of requests, the SDK client
-- with its errors, and the outcome that is built from a classified response; the wire parsers of
-- live_contract.py, and the command-line scripts under experiments. Buffers that are cleared so that
-- no secret stays in memory have no counterpart here.
mod Prelude
pub mod Category
pub mod Errors
pub mod Findings
pub mod Identity
pub mod Json
pub mod Structured
pub mod Contract
pub mod Live
pub mod Action
pub mod Artifacts
pub mod Stage
pub mod Guard
pub mod Security
pub mod Evaluator
pub mod Evidence
pub mod Run
pub mod Lifecycle
pub mod Examples
pub mod Roles
pub mod Worker
pub mod Openai
pub mod Executor
