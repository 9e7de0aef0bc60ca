-- ===== src/Lib.antt =====
-- Verification of the DiagOps runtime: the durable state machine that runs a diagnosis.
--
-- A run (backend/domain/runtime.py) belongs to an investigation, is leased to one worker at a time,
-- and commits phases in a fixed order; each commit writes the investigation's records, a checkpoint
-- and events in one transaction. The store of backend/runtime/store.py keeps runs, attempts, event
-- logs and checkpoints, and calls the repository of backend/db/repositories.py for the
-- investigation's records and backend/runtime/phases.py for what a phase writes, the order of the
-- phases and the budgets; `InMemoryRuntimeStore` is modelled with all that it calls of these.
-- Commits reach the store through the queue of backend/runtime/writer.py. Events that it has
-- committed are handed to the hub of backend/runtime/event_hub.py, whose readers go back to the
-- store for the events themselves; a finished run's log is checked by backend/runtime/replay.py; and
-- users settle actions and verifications of the investigation (backend/domain/human_transitions.py).
--
--   Base         texts, errors, results, and Python's dict (Base/Dict) with its laws
--   Domain       backend/domain/runtime.py and tool_calls.py: statuses and their two transition
--                tables (Status), runs, attempts, checkpoints (Run), events (Event), tool calls
--   Repository   backend/db/repositories.py and models.py: the records, who owns them (Owners), and
--                the operations of `InMemoryInvestigationRepository` that the runtime calls (Defs)
--   Phases       backend/runtime/phases.py: `BusinessMutation` (Mutation), the phase orders and
--                `ensure_phase_precondition` (Order), the durable budgets (Budget)
--   Store        backend/runtime/store.py: the state (State), checks (Guards), runs (Runs), leases
--                and attempts (Leases), fenced commits (Commits), `commit_terminal` (Terminal),
--                `commit_phase` (PhaseCommits), `audit_expired_leases` (Audit); Store/Evolve and the
--                modules beside it hold proofs
--   Human        backend/domain/human_transitions.py: what a user may do to an action (Actions) and
--                to a verification (Verifications), with `update_action_status` and
--                `update_verification_status` of backend/db/repositories.py
--   Hub          backend/runtime/event_hub.py: the hub's sets and queues (Defs), what can happen to
--                them (Moves), and the stream of events to a reader (Stream)
--   Replay       backend/runtime/replay.py: how a log is read (Reading), the lifecycle that its
--                events must follow (State, Tools, Lifecycle, Advance), `_validate_events` (Validate)
--                and the rows of attempts (Rows) and of checkpoints (Checkpoints)
--   Writer       backend/runtime/writer.py: the queue in front of the store, its consumer and its
--                shutdown (Defs) as steps (Steps)
--   Examples     one store on which the theorems are applied
--
-- Each operation is a function of its own name from the store to its result and the store after.
-- An operation whose checks all come before its first write returns `Outcome (A × Store)`: an
-- exception leaves the store. One that writes before it may raise returns `Step A`, the outcome and
-- the store in either case. The lock makes an operation one step, so that any interleaving of
-- threads is a sequence of calls (Store/History).
--
-- Identifiers are numbers, 0 for the empty text; texts that the code only stores are left out or are
-- one number; instants are numbers, and each reading of the clock is an argument. Exceptions keep
-- their class and lose their message. What the store is given or calls elsewhere is the record `Env`
-- (Store/State): the lease's length, the injected faults, the frozen views of backend/runtime/diff.py,
-- the canonical digests, the labels of backend/safety/redaction.py, and the validation of event
-- payloads. `published` stands for the event publisher. `str.strip` and `redact_text` are the
-- record `Texts` (Human/Checks). A subscription is an object with an identity in a dictionary of the
-- hub, and what the loops have been asked to deliver is a list.
--
-- The catch-up of a stream makes as many queries as it is given stores to find, and
-- `list_all_runtime_events` reads as many pages as its fuel allows: more than the events that are
-- left is enough, since a page that is not the last brings one event at least. All other loops are
-- recursions on a list.
--
-- A step of the writer is what runs under its state lock once the queue has room, or what its
-- consumer does between two waits. Other code, the coordinator first of all, writes to the same store
-- while the writer runs: a step of any change of the store stands for it. Two things are taken for
-- granted: its event loop is not closed under it, and `start` is not called while a shutdown waits.
-- The hub's `publish` holds its lock for one subscriber at a time; it is a move as a whole, and the
-- turn of one subscriber is a move too, so that other moves may come between two of them.
--
-- `apply_memory` gives the repository as its writes before an exception have left it, and
-- `commit_phase` and `commit_tool` put the snapshot back over that; each write of the repository
-- has its checks before it changes anything.
--
-- Not modelled: the SQLite store, the tasks of the manager, the coordinator, the diff of runs, what
-- a replay asks of the frozen business projection, the fault points of the hub and of the replay,
-- the agents and their prompts, scoring with floating-point numbers, providers, the HTTP interface;
-- and of the store the trace contexts and some reads.
pub mod Base
pub mod Domain
pub mod Repository
pub mod Phases
pub mod Store
pub mod Human
pub mod Replay
pub mod Writer
pub mod Hub
pub mod Examples
