-- ===== src/Store/PhaseCommits.antt =====
-- `commit_phase` and `_restore_memory_phase`.
use diagops.Base.{
  ℕ, ◌+◌, ◌-◌, Bool, true, Option, none, some, List, [], ◌∷◌, ◌&&◌, ◌||◌, not, ◌==◌, opt_eq, same,
  is_some, Outcome, ok, err, Error, conflict, integrity, lease_lost, persistence, guard, raise_as,
  ◌>>=◌, ◌>>◌, if◌then◌else◌,
}
use diagops.Base.Dict
use diagops.Domain.Status.{AttemptStatus, is_leased}
use diagops.Domain.Names.{Phase, Phase-discrete, EventType, ActorType}
use diagops.Domain.Run.{RuntimeRun, RuntimeCheckpoint, RuntimeResumeState, is_v11}
use diagops.Domain.Event.{RuntimeEvent, SafePayload, empty_payload}
use diagops.Repository.Records.{Repository}
use diagops.Repository.Defs
use diagops.Phases.Mutation.{BusinessMutation, apply_memory}
use diagops.Phases.Order.{phase_order_for, ensure_phase_precondition}
use diagops.Phases.Budget.{durable_tool_call_count, durable_remaining_token_budget}
use diagops.Store.State.{Env, Store, Step, FaultPoint, hit, require_run, log, append_events}
use diagops.Store.Guards.{validate_fence, require_attempt, validate_v11_phase_ownership}
use diagops.Store.Commits.{validated, next_sequence}

pub data CommitStatus : Type 0 where
  completed skipped failed : CommitStatus

pub record PhaseCommit : Type 0 where
  pub run_id : ℕ
  pub attempt_id : ℕ
  pub lease_owner : ℕ
  pub lease_version : ℕ
  pub phase : Phase
  pub business_mutation : BusinessMutation
  pub safe_payload : SafePayload
  pub resume_state : RuntimeResumeState
  pub status : CommitStatus
  pub expected_checkpoint_id : Option ℕ
  pub expected_previous_phase : Option Phase
  pub checkpoint_id : ℕ
  pub schema_version : ℕ

-- `previous_owner`, if it is another run
abbrev pub other_owner : Option ℕ → ℕ → Option ℕ
other_owner none run_id = none
other_owner (some owner) run_id = if owner == run_id then none else some owner

abbrev pub at_owner {ℓ} : {V : Type ℓ} → Dict.Dict V → Option ℕ → Option V
at_owner d none = none
at_owner d (some owner) = Dict.get d owner

-- The remaining budgets of a checkpoint must be those of the durable log.
abbrev pub tool_budget_agrees : Option ℕ → ℕ → ℕ → Bool
tool_budget_agrees none consumed remaining = true
tool_budget_agrees (some budget) consumed remaining = remaining == budget - consumed

abbrev pub token_budget_agrees : Option ℕ → List RuntimeEvent → ℕ → Option ℕ → Bool
token_budget_agrees none events run_id remaining = true
token_budget_agrees (some budget) events run_id remaining =
    opt_eq remaining (some (durable_remaining_token_budget events run_id budget))

abbrev pub model_turns_agree : RuntimeRun → Option ℕ → Bool
model_turns_agree run remaining =
    not (is_v11 run && is_some run.execution_contract.execution_contract_digest)
    || opt_eq remaining run.remaining_model_turns

unfoldable pub check_budgets : Store → RuntimeRun → PhaseCommit → Outcome (Unit {0})
check_budgets s run commit = do
  let consumed =
      durable_tool_call_count s.repo run.investigation_id run.id (some commit.business_mutation)
  guard (tool_budget_agrees run.tool_budget consumed commit.resume_state.remaining_tool_budget)
      integrity
  guard
      (token_budget_agrees run.token_budget (log s run.id) run.id
        commit.resume_state.remaining_token_budget)
      integrity
  guard (model_turns_agree run commit.resume_state.remaining_model_turns) integrity

-- A checkpoint that was committed before under the same id.
abbrev pub same_result : PhaseCommit → ℕ → ℕ → RuntimeCheckpoint → Bool
same_result commit digest projection existing =
    existing.run_id == commit.run_id
    && (existing.attempt_id == commit.attempt_id
        && (same Phase-discrete existing.completed_phase commit.phase
            && (existing.state_digest == digest && existing.projection_digest == projection)))

-- What the checks of `commit_phase` find.
pub data PhaseCheck : Type 0 where
  replayed : RuntimeCheckpoint → PhaseCheck
  fresh : RuntimeRun → ℕ → ℕ → PhaseCheck

-- The checks of a commit whose checkpoint id is new.
unfoldable pub check_fresh : Store → RuntimeRun → PhaseCommit → ℕ → Outcome (Unit {0})
check_fresh s run commit now = do
  guard (is_leased run.status) conflict
  validate_fence run (some commit.lease_owner) (some commit.lease_version) now
  _ ← require_attempt s commit.attempt_id commit.run_id AttemptStatus.running
  guard (run.investigation_id == commit.business_mutation.investigation_id) integrity
  raise_as conflict (
      ensure_phase_precondition run.current_phase run.latest_checkpoint_id
        commit.expected_checkpoint_id commit.expected_previous_phase commit.phase
        (phase_order_for run.execution_contract_version))

abbrev pub check_existing :
    Store → RuntimeRun → PhaseCommit → ℕ → ℕ → ℕ → Option RuntimeCheckpoint → Outcome PhaseCheck
check_existing s run commit digest projection now none = do
  check_fresh s run commit now
  ok (fresh run digest projection)
check_existing s run commit digest projection now (some existing) = do
  guard (same_result commit digest projection existing) conflict
  ok (replayed existing)

-- The checks that a replayed commit passes too: the run, and the digest of its projection.
unfoldable pub check_owned : Env → Store → PhaseCommit → Outcome (RuntimeRun × ℕ)
unfolding check_budgets
check_owned env s commit = do
  run ← require_run s commit.run_id
  record_ ← Defs.get s.repo run.investigation_id
  let previous = other_owner record_.active_runtime_run_id run.id
  validate_v11_phase_ownership env run (some commit.phase) commit.business_mutation record_
      (at_owner s.runs previous) (at_owner s.frozen previous)
  projection ← raise_as integrity (
      env.projection_digest s.repo run.investigation_id run.id commit.resume_state
        commit.business_mutation)
  check_budgets s run commit
  ok (run, projection)

unfoldable pub check_phase : Env → Store → PhaseCommit → ℕ → Outcome PhaseCheck
unfolding check_owned check_fresh
check_phase env s commit now = do
  owned ← check_owned env s commit
  check_existing s owned.0 commit
      (env.checkpoint_digest commit.run_id commit.attempt_id commit.phase commit.resume_state
        commit.schema_version)
      owned.1 now (Dict.get s.checkpoints commit.checkpoint_id)

abbrev pub phase_event_type : CommitStatus → EventType
phase_event_type CommitStatus.skipped = EventType.phase_skipped
phase_event_type CommitStatus.failed = EventType.phase_failed
phase_event_type CommitStatus.completed = EventType.phase_completed

abbrev pub phase_event : PhaseCommit → ℕ → RuntimeEvent
phase_event commit sequence = record {
  run_id = commit.run_id;
  attempt_id = commit.attempt_id;
  sequence = sequence;
  event_type = phase_event_type commit.status;
  phase = some commit.phase;
  actor_type = ActorType.phase;
  actor_name = none;
  task_id = none;
  tool_call_id = none;
  execution_id = none;
  evidence_ids = commit.resume_state.completed_evidence_ids;
  schema_version = commit.schema_version;
  safe_payload = commit.safe_payload;
}

abbrev pub checkpoint_event : PhaseCommit → ℕ → RuntimeEvent
checkpoint_event commit sequence = record {
  run_id = commit.run_id;
  attempt_id = commit.attempt_id;
  sequence = sequence;
  event_type = EventType.checkpoint_created;
  phase = some commit.phase;
  actor_type = ActorType.runtime;
  actor_name = none;
  task_id = none;
  tool_call_id = none;
  execution_id = none;
  evidence_ids = [];
  schema_version = commit.schema_version;
  safe_payload = record empty_payload {
    checkpoint_id = some commit.checkpoint_id;
    event_sequence = some sequence;
  };
}

abbrev pub new_checkpoint : PhaseCommit → ℕ → ℕ → ℕ → RuntimeCheckpoint
new_checkpoint commit digest projection sequence = record {
  id = commit.checkpoint_id;
  run_id = commit.run_id;
  attempt_id = commit.attempt_id;
  completed_phase = commit.phase;
  event_sequence = sequence;
  state_digest = digest;
  projection_digest = projection;
  resume_state = commit.resume_state;
  schema_version = commit.schema_version;
}

-- The transaction after the business write: two events, the checkpoint and the run's cursor.
unfoldable pub write_phase :
    Env → Store → RuntimeRun → PhaseCommit → ℕ → ℕ → Outcome (RuntimeCheckpoint × Store)
unfolding validated
write_phase env s run commit digest projection = do
  hit env FaultPoint.persistence_mid_transaction
  hit env FaultPoint.after_business_before_event
  let sequence = next_sequence s run.id
  first_event ← validated env (phase_event commit sequence)
  second_event ← validated env (checkpoint_event commit (sequence + 1))
  let checkpoint = new_checkpoint commit digest projection (sequence + 1)
  let s1 = append_events s run.id (first_event ∷ second_event ∷ [])
  ok (
    checkpoint,
    record s1 {
      checkpoints = Dict.put s1.checkpoints checkpoint.id checkpoint;
      runs = Dict.put s1.runs commit.run_id (record run {
        current_phase = some commit.phase;
        latest_checkpoint_id = some checkpoint.id;
      });
    },
  )

-- `_restore_memory_phase`: what the snapshots of `before` put back into the store
unfoldable pub restore_memory_phase : Store → Store → ℕ → RuntimeRun → Store
restore_memory_phase before s run_id run = record s {
  repo = before.repo;
  runs = Dict.put s.runs run_id run;
  events = Dict.put s.events run_id (log before run_id);
  checkpoints = before.checkpoints;
}

-- `except RuntimeLeaseLost: raise`, else RuntimePersistenceError
abbrev pub phase_error : Error → Error
phase_error Error.lease_lost = lease_lost
phase_error _ = persistence

abbrev pub roll_back : {A : Type 0} → Store → Store → RuntimeRun → Outcome (A × Store) → Step A
roll_back before s run (ok (a, s')) = (ok a, s')
roll_back before s run (err e) = (err (phase_error e), restore_memory_phase before s run.id run)

-- What `apply_memory` has written before it raised is restored too.
abbrev pub write_after :
    Env
    → Store
    → RuntimeRun
    → PhaseCommit
    → ℕ
    → ℕ
    → Outcome (Unit {0}) × Repository
    → Step RuntimeCheckpoint
write_after env s run commit digest projection (err e, repo) =
    (err (phase_error e), restore_memory_phase s (record s { repo = repo }) run.id run)
write_after env s run commit digest projection (ok u, repo) =
    roll_back s (record s { repo = repo }) run
      (write_phase env (record s { repo = repo }) run commit digest projection)

abbrev pub commit_checked : Env → Store → PhaseCommit → Outcome PhaseCheck → Step RuntimeCheckpoint
commit_checked env s commit (err e) = (err e, s)
commit_checked env s commit (ok (replayed existing)) = (ok existing, s)
commit_checked env s commit (ok (fresh run digest projection)) =
    write_after env s run commit digest projection (apply_memory commit.business_mutation s.repo)

unfoldable pub commit_phase : Env → Store → PhaseCommit → ℕ → Step RuntimeCheckpoint
commit_phase env s commit now = commit_checked env s commit (check_phase env s commit now)
