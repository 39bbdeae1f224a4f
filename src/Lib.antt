-- ===== src/Lib.antt =====
-- crashsafe runs workflows whose steps survive crashes. The history of a run, an append-only list of
-- events, is the truth; the tables of runs, steps and dependencies are a projection of it, kept for
-- scheduling. Workers claim a step under a lease with a fence token, record the intent to call a tool,
-- call it, and commit the outcome; every commit checks the lease again.
--
-- The parts and their files:
--   Models            crashsafe/models.py: the enums, records and payloads. A datetime is a number of
--                     microseconds, which `to_db` writes in an order-preserving form. Models/Values
--                     has the JSON values.
--   History           crashsafe/history.py: `reduce_workflow_run_history` as a fold of `fold_event`,
--                     `_validate_definitions`, the payload registry. History/Definitions, Payloads and
--                     Transitions hold the branches of the loop; StateMachine, Steps, Replay,
--                     Consistent, Lifecycle, Order, Frozen, Shape, Counts, Graph and the modules on
--                     the two graph checks are proofs. `Pydantic` is the parameter for pydantic's validation and
--                     dump, with the law that a dumped payload validates to itself.
--   Storage           crashsafe/storage.py: Db is the tables as lists of rows, Reads the methods that
--                     read, Create the creation of a run, Attempts the four transitions of a step,
--                     Claims the eligibility query and the leases, Rebuild the rebuilding of the
--                     projection. A method is a function of the database that returns a result and
--                     the next database; `transaction` is `_transaction`, which publishes all of a
--                     body's writes or none. Fencing, Leases, Throttle, Deadlines, Candidates,
--                     Eligibility, Refence, Incomplete, Recoverable and the tree under
--                     Projection are proofs.
--   Tool              crashsafe/mock_tool.py: the store of effects and cached results, `apply`, `find` and
--                     the handler `execute` with its scripted faults. The SHA-256 of a request,
--                     the validation of a request body and the LIKE of `summary` are parameters; a
--                     call carries whether its signal file and delay after the commit succeed. Replay,
--                     Ledger and Faults are proofs; `Commits` is any order of the transactions of concurrent handlers.
--                     Summary is `summary` and what a call adds to it.
--   Engine            crashsafe/engine.py: `outcome_of` is HttpToolGateway.execute from the reply on,
--                     `retry_delay` and `handle_retryable_failure` the retry policy, `run_once` the
--                     claim, intent, call, commit and release. The duration of a lease is whole
--                     microseconds; a delay is a float, of which a finite one is a whole number of
--                     units of 2^-1074, and `Moments.answer` adds it to the clock, or raises.
--                     `between` stands for what other processes and the heartbeat commit while the
--                     tool runs. Crash is the failure injector and a turn that it ends. Policy,
--                     Intent, Release, Running, Agreement, Durable and Recovery are proofs.
--   Timeline          crashsafe/observability.py: `build_timeline` as a fold over the events beside the
--                     reducer's, and in Timeline/Rendering `format_timeline` as a list of lines.
--                     Reading and Width are proofs.
--   Config            crashsafe/config.py: `Settings.from_env` of any environment; a float reading may
--                     be nan or infinite. Validation is a proof.
--   Worker            crashsafe/worker.py: the loops `run_forever` and `run_until_terminal` over a list of
--                     rounds, each with what the outside brings to one turn. Draining and Exits are
--                     proofs.
--   Supervisor        crashsafe/supervisor.py: the slots of processes, their start and their monitoring;
--                     Slots is a proof.
--   Api               crashsafe/api.py: the handlers as functions of the database; Reading is a proof.
--   Examples          a codec for payloads and a run with its history, where the theorems are applied.
--   Prelude           shared tests, list operations, results, sets of strings, integers and floats.
--
-- The transitions of Storage write an event and the projection in one transaction. Projection
-- relates the two: `Matches` says that the rows of a run are what the reducer makes of its events.
-- Creation starts it (Projection/NewRows and Creation), each transition moves both sides alike
-- (Attempt, Outcomes, Endings, Failing, Keeping, Commit), and claims, renewals and releases change
-- the lease table only (Lifetime). The lease calls of all workers are studied by themselves in
-- Storage/Leases. `rebuild_projection` (Storage/Rebuild) replaces the rows of a run by those of the
-- run that the history reduces to: History/Shape says what such a run's steps carry,
-- Projection/Restored, Rebuilding, Replayed and Recovery follow it through the tables, and
-- Storage/Refence looks at the leases. Projection/Frame, Others, Apart, Elsewhere and Isolation
-- follow a call on one run through the rows of the others. `Leads` of Projection/Lifetime is the
-- relation between a database and what any such calls make of it; Engine/Agreement and Durable
-- relate a turn of `run_once` to it, whole or ended by a crash.
--
-- A definition is checked twice: by `validate_graph` (Models/Graph) when it is submitted, with a queue of
-- ready steps, and by `_validate_definitions` (History/Definitions) when it is replayed, by a search for a
-- ready step. History/Queue and Rounds follow the queue, Visits counts what it visits, Ordered and
-- Agreement compare the two.
--
-- Loops are structural recursion. The loop of `_validate_definitions` has one round of fuel for each
-- definition, and a round visits a step, so that the rounds suffice: see History/Graph. The queue loop of
-- `validate_graph` has as many, and History/Rounds shows that it ends within them. A clock reading,
-- a new uuid and the worker's owner id are arguments. The two clock readings of a transition, its own
-- and that of `_require_lease`, are `now` and `checked_at` of `Caller`.
--
-- A number of a JSON payload is an integer or a finite float, and values are compared as Python compares
-- them, 1, 1.0 and True as equal. Between the transaction of `rebuild_projection` and the read that it
-- returns, nothing is committed.
--
-- Not modelled: pydantic's field constraints (its cap of 32 steps of a workflow, the form of names and
-- keys), the schema migrations, the debug pause after an event, SQLite's concurrency below the
-- single-writer transaction, signals, process creation and the command line, FastAPI's routing, and the demonstration scripts, which start processes and print.
pub mod Prelude
pub mod Models
pub mod History
pub mod Storage
pub mod Tool
pub mod Timeline
pub mod Config
pub mod Engine
pub mod Worker
pub mod Api
pub mod Supervisor
pub mod Examples
