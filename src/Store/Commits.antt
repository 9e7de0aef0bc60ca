-- ===== src/Store/Commits.antt =====
-- The fenced commits of a running attempt: `append_event_command`,
-- `commit_tool` and `append_recovery_rejection`.
use diagops.Base.{
  ℕ, ◌+◌, Bool, true, Option, none, some, List, [], ◌∷◌, ◌&&◌, not, opt_eq, same, length, Outcome,
  ok, err, conflict, integrity, value_error, guard, ◌>>=◌, ◌>>◌, if◌then◌else◌,
}
use diagops.Base.Dict
use diagops.Domain.Status.{RunStatus, RunStatus-discrete, AttemptStatus, is_leased}
use diagops.Domain.Names.{Phase, EventType, ActorType}
use diagops.Domain.ToolCall.{ToolCallRecord, ToolCallStatus, ToolCallStatus-discrete, is_settled}
use diagops.Domain.Run.{RuntimeRun, RuntimeAttempt, is_v11}
use diagops.Domain.Event.{RuntimeEvent, SafePayload, empty_payload}
use diagops.Repository.Defs
use diagops.Phases.Mutation.{BusinessMutation, merge_tool_result, apply_memory}
use diagops.Repository.Records.{Repository}
use diagops.Store.State.{
  Env, Store, Step, or_unchanged, FaultPoint, hit, require_run, log, append_events,
}
use diagops.Store.Guards.{
  validate_fence, require_attempt, find_call, ensure_v11_tool_budget_available,
  validate_v11_phase_ownership,
}
use diagops.Store.Runs.{freeze_for}

-- `RuntimeEvent(...)` raises where the payload is refused.
unfoldable pub validated : Env → RuntimeEvent → Outcome RuntimeEvent
validated env event = do guard (env.valid_event event) value_error; ok event

-- backend/runtime/writer.py
pub record RuntimeEventCommand : Type 0 where
  pub run_id : ℕ
  pub attempt_id : ℕ
  pub lease_owner : ℕ
  pub lease_version : ℕ
  pub event_type : EventType
  pub actor_type : ActorType
  pub phase : Option Phase
  pub actor_name : Option ℕ
  pub task_id : Option ℕ
  pub tool_call_id : Option ℕ
  pub execution_id : Option ℕ
  pub evidence_ids : List ℕ
  pub safe_payload : SafePayload
  pub schema_version : ℕ

abbrev pub command_event : RuntimeEventCommand → ℕ → RuntimeEvent
command_event command sequence = record {
  run_id = command.run_id;
  attempt_id = command.attempt_id;
  sequence = sequence;
  event_type = command.event_type;
  phase = command.phase;
  actor_type = command.actor_type;
  actor_name = command.actor_name;
  task_id = command.task_id;
  tool_call_id = command.tool_call_id;
  execution_id = command.execution_id;
  evidence_ids = command.evidence_ids;
  schema_version = command.schema_version;
  safe_payload = command.safe_payload;
}

abbrev pub next_sequence : Store → ℕ → ℕ
next_sequence s run_id = length (log s run_id) + 1

unfoldable pub append_event_command :
    Env → Store → RuntimeEventCommand → ℕ → Outcome (RuntimeEvent × Store)
unfolding validated
append_event_command env s command now = do
  hit env FaultPoint.unsafe_event_payload
  run ← require_run s command.run_id
  guard (is_leased run.status) conflict
  validate_fence run (some command.lease_owner) (some command.lease_version) now
  _ ← require_attempt s command.attempt_id command.run_id AttemptStatus.running
  event ← validated env (command_event command (next_sequence s command.run_id))
  ok (event, append_events s command.run_id (event ∷ []))

pub record ToolCommit : Type 0 where
  pub run_id : ℕ
  pub attempt_id : ℕ
  pub lease_owner : ℕ
  pub lease_version : ℕ
  pub business_mutation : BusinessMutation
  pub call : ToolCallRecord
  pub phase : Option Phase

abbrev pub tool_event_type : ToolCallStatus → EventType
tool_event_type ToolCallStatus.running = EventType.tool_started
tool_event_type ToolCallStatus.success = EventType.tool_completed
tool_event_type _ = EventType.tool_failed

abbrev pub tool_event : ToolCommit → ℕ → ℕ → ℕ → RuntimeEvent
tool_event commit run_id attempt_id sequence = record {
  run_id = run_id;
  attempt_id = attempt_id;
  sequence = sequence;
  event_type = tool_event_type commit.call.status;
  phase = commit.phase;
  actor_type = ActorType.tool;
  actor_name = some commit.call.agent_name;
  task_id = some commit.call.task_id;
  tool_call_id = some commit.call.id;
  execution_id = commit.call.execution_id;
  evidence_ids = commit.call.output_evidence_ids;
  schema_version = 1;
  safe_payload = record empty_payload { idempotency_key = commit.call.idempotency_key };
}

abbrev pub owns_tool_commit : Env → Store → RuntimeRun → ToolCommit → Outcome (Unit {0})
owns_tool_commit env s run commit = if not (is_v11 run) then ok tt else (do
  record_ ← Defs.get s.repo run.investigation_id
  guard (opt_eq record_.active_runtime_run_id (some run.id)) integrity
  guard (opt_eq commit.call.runtime_run_id (some run.id)) integrity
  validate_v11_phase_ownership env run commit.phase commit.business_mutation record_ none none)

-- A settled call takes no other status.
abbrev pub accepts_status : Option ToolCallRecord → ToolCallStatus → Bool
accepts_status none status = true
accepts_status (some existing) status =
    not (is_settled existing.status && not (same ToolCallStatus-discrete existing.status status))

-- The checks of `commit_tool`, down to the start of its transaction.
unfoldable pub check_tool : Env → Store → ToolCommit → ℕ → Outcome (RuntimeRun × RuntimeAttempt)
check_tool env s commit now = do
  run ← require_run s commit.run_id
  guard (same RunStatus-discrete run.status RunStatus.running) conflict
  owns_tool_commit env s run commit
  validate_fence run (some commit.lease_owner) (some commit.lease_version) now
  attempt ← require_attempt s commit.attempt_id run.id AttemptStatus.running
  let calls = Defs.list_tool_calls s.repo run.investigation_id
  ensure_v11_tool_budget_available run calls commit.call
  guard (accepts_status (find_call calls commit.call.id) commit.call.status) conflict
  ok (run, attempt)

-- `merge_tool_result(current).apply_memory(repository)`
abbrev pub tool_repository : Store → ToolCommit → RuntimeRun → Outcome (Unit {0}) × Repository
tool_repository s commit run =
    let merged = (do
      current ← Defs.get s.repo run.investigation_id
      merge_tool_result commit.business_mutation current) in
    elim merged [ err e ↦ (err e, s.repo) | ok mutation ↦ apply_memory mutation s.repo ]

-- `except Exception`: the snapshot of the repository goes back into the store.
abbrev pub restore_tool : Store → Store → Store
restore_tool before s = record s { repo = before.repo }

abbrev pub log_tool : Store → Store → ToolCommit → ℕ → Outcome RuntimeEvent → Step ToolCallRecord
log_tool before s commit run_id (err e) = (err e, restore_tool before s)
log_tool before s commit run_id (ok event) = (ok commit.call, append_events s run_id (event ∷ []))

abbrev pub finish_tool :
    Env
    → Store
    → ToolCommit
    → RuntimeRun
    → RuntimeAttempt
    → Outcome (Unit {0}) × Repository
    → Step ToolCallRecord
finish_tool env s commit run attempt (err e, repo) =
    (err e, restore_tool s (record s { repo = repo }))
finish_tool env s commit run attempt (ok u, repo) =
    log_tool s (record s { repo = repo }) commit run.id
      (validated env (tool_event commit run.id attempt.id (next_sequence s run.id)))

-- The transaction, after its checks
abbrev pub write_tool :
    Env → Store → ToolCommit → Outcome (RuntimeRun × RuntimeAttempt) → Step ToolCallRecord
write_tool env s commit (err e) = (err e, s)
write_tool env s commit (ok (run, attempt)) =
    finish_tool env s commit run attempt (tool_repository s commit run)

unfoldable pub commit_tool : Env → Store → ToolCommit → ℕ → Step ToolCallRecord
commit_tool env s commit now = write_tool env s commit (check_tool env s commit now)

abbrev pub rejection_event : ℕ → ℕ → Option ℕ → ℕ → RuntimeEvent
rejection_event run_id attempt_id checkpoint_id sequence = record {
  run_id = run_id;
  attempt_id = attempt_id;
  sequence = sequence;
  event_type = EventType.recovery_rejected;
  phase = none;
  actor_type = ActorType.recovery;
  actor_name = none;
  task_id = none;
  tool_call_id = none;
  execution_id = none;
  evidence_ids = [];
  schema_version = 1;
  safe_payload = record empty_payload { checkpoint_id = checkpoint_id };
}

abbrev pub refreeze : Env → Store → RuntimeRun → Outcome Store
refreeze env s run =
    if is_v11 run
    then (do
      view ← freeze_for env s.repo run
      ok (record s { frozen = Dict.put s.frozen run.id view }))
    else ok s

-- The checks of `append_recovery_rejection`, and the view that it refreezes.
unfoldable pub check_rejection : Env → Store → ℕ → ℕ → Outcome Store
check_rejection env s run_id attempt_id = do
  run ← require_run s run_id
  guard (same RunStatus-discrete run.status RunStatus.interrupted) conflict
  _ ← require_attempt s attempt_id run_id AttemptStatus.interrupted
  refreeze env s run

abbrev pub reject_checked : Env → Store → ℕ → ℕ → Option ℕ → Outcome Store → Step RuntimeEvent
reject_checked env s run_id attempt_id checkpoint_id (err e) = (err e, s)
reject_checked env s run_id attempt_id checkpoint_id (ok s') = or_unchanged s' (do
  event ← validated env (rejection_event run_id attempt_id checkpoint_id (next_sequence s run_id))
  ok (event, append_events s' run_id (event ∷ [])))

-- `append_recovery_rejection`; the view is refrozen before the event is built.
unfoldable pub append_recovery_rejection : Env → Store → ℕ → ℕ → Option ℕ → Step RuntimeEvent
append_recovery_rejection env s run_id attempt_id checkpoint_id =
    reject_checked env s run_id attempt_id checkpoint_id (check_rejection env s run_id attempt_id)
