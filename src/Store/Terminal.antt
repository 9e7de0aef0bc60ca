-- ===== src/Store/Terminal.antt =====
-- `commit_terminal`: the end of a run, with its open tool calls and its investigation.
use diagops.Base.{
  ℕ, suc, Bool, Option, none, some, List, [], ◌∷◌, map, ◌&&◌, ◌==◌, opt_eq, same, keep, length,
  Outcome, ok, conflict, guard, ◌>>=◌, ◌>>◌, if◌then◌else◌,
}
use diagops.Base.Dict
use diagops.Domain.Status.{
  RunStatus, RunStatus-discrete, AttemptStatus, ensure_run_transition, ensure_attempt_transition,
  is_terminal,
}
use diagops.Domain.Names.{Phase, EventType, ActorType, FailureCategory, InvestigationStatus}
use diagops.Domain.ToolCall.{ToolCallRecord, ToolCallStatus, is_open}
use diagops.Domain.Run.{RuntimeRun, RuntimeAttempt, RuntimeCheckpoint}
use diagops.Domain.Event.{RuntimeEvent, SafePayload}
use diagops.Repository.Records.{Repository}
use diagops.Repository.Defs
use diagops.Store.State.{
  Env, Store, FaultPoint, hit, require_run, log, append_events, apply_transition,
}
use diagops.Store.Guards.{validate_fence, require_attempt}
use diagops.Store.Runs.{freeze_for, owns_projection, mark_investigation}
use diagops.Store.Commits.{validated}

pub record RuntimeTerminalEvent : Type 0 where
  pub event_type : EventType
  pub actor_type : ActorType
  pub phase : Option Phase
  pub safe_payload : SafePayload

pub record RuntimeTerminalCommit : Type 0 where
  pub run_id : ℕ
  pub attempt_id : ℕ
  pub lease_owner : ℕ
  pub lease_version : ℕ
  pub expected_run_status : RunStatus
  pub target_run_status : RunStatus
  pub expected_attempt_status : AttemptStatus
  pub target_attempt_status : AttemptStatus
  pub events : List RuntimeTerminalEvent
  pub failure_category : Option FailureCategory

abbrev pub terminal_event : ℕ → ℕ → ℕ → RuntimeTerminalEvent → RuntimeEvent
terminal_event run_id attempt_id sequence item = record {
  run_id = run_id;
  attempt_id = attempt_id;
  sequence = sequence;
  event_type = item.event_type;
  phase = item.phase;
  actor_type = item.actor_type;
  actor_name = none;
  task_id = none;
  tool_call_id = none;
  execution_id = none;
  evidence_ids = [];
  schema_version = 1;
  safe_payload = item.safe_payload;
}

-- The loop of `commit_terminal` over its events; `sequence` is that of the event before.
unfoldable pub terminal_events :
    Env → ℕ → ℕ → ℕ → List RuntimeTerminalEvent → Outcome (List RuntimeEvent)
unfolding validated
terminal_events env run_id attempt_id sequence [] = ok []
terminal_events env run_id attempt_id sequence (item ∷ items) =
    let rest = terminal_events env run_id attempt_id (suc sequence) items in
    do
      event ← validated env (terminal_event run_id attempt_id (suc sequence) item)
      events ← rest
      ok (event ∷ events)

-- A tool call that the end of its run interrupts at `now`.
abbrev pub is_open_of : ℕ → ToolCallRecord → Bool
is_open_of run_id call = opt_eq call.runtime_run_id (some run_id) && is_open call.status

abbrev pub interrupted_call : ℕ → ToolCallRecord → ToolCallRecord
interrupted_call now call = record call {
  status = ToolCallStatus.interrupted;
  completed_at = some now;
}

-- `if interrupted_calls: save_tool_calls(...)`
abbrev pub save_interrupted : Repository → ℕ → List ToolCallRecord → Repository
save_interrupted repo investigation_id [] = repo
save_interrupted repo investigation_id (c ∷ calls) =
    Defs.save_tool_calls repo investigation_id (c ∷ calls)

unfoldable pub interrupt_open_calls : Repository → RuntimeRun → ℕ → Repository
interrupt_open_calls repo run now = save_interrupted repo run.investigation_id (
    map (interrupted_call now)
      (keep (is_open_of run.id) (Defs.list_tool_calls repo run.investigation_id)))

abbrev pub checkpoint_of : ℕ → RuntimeCheckpoint → Bool
checkpoint_of run_id checkpoint = checkpoint.run_id == run_id

-- `investigation_status`
abbrev pub investigation_target : RunStatus → Option InvestigationStatus
investigation_target RunStatus.completed = some InvestigationStatus.completed
investigation_target RunStatus.failed = some InvestigationStatus.failed
investigation_target RunStatus.cancelled = some InvestigationStatus.cancelled
investigation_target _ = none

abbrev pub failure_reason_for : Env → InvestigationStatus → Option FailureCategory → Option ℕ
failure_reason_for env InvestigationStatus.failed (some category) = some (env.safe_failure category)
failure_reason_for env _ _ = none

abbrev pub mark_ended : Env → RuntimeTerminalCommit → Store → RuntimeRun → Bool → ℕ → Outcome Store
mark_ended env commit s run owns now = elim (investigation_target commit.target_run_status) [
  | none ↦ ok s
  | some status ↦
      mark_investigation s run owns status (failure_reason_for env status commit.failure_category)
        now
]

-- What the checks of `commit_terminal` find.
pub record TerminalCheck : Type 0 where
  pub run : RuntimeRun
  pub attempt : RuntimeAttempt
  pub owns : Bool
  pub events : List RuntimeEvent
  pub view : ℕ

unfoldable pub check_terminal : Env → Store → RuntimeTerminalCommit → ℕ → Outcome TerminalCheck
unfolding terminal_events
check_terminal env s commit now = do
  run ← require_run s commit.run_id
  owns ← owns_projection s run
  guard (same RunStatus-discrete run.status commit.expected_run_status) conflict
  validate_fence run (some commit.lease_owner) (some commit.lease_version) now
  attempt ← require_attempt s commit.attempt_id run.id commit.expected_attempt_status
  ensure_run_transition run.status commit.target_run_status
  ensure_attempt_transition attempt.status commit.target_attempt_status
  events ← terminal_events env run.id attempt.id (length (log s run.id)) commit.events
  frozen ← freeze_for env s.repo run
  view ← env.finalize frozen (keep (checkpoint_of run.id) (Dict.values s.checkpoints))
  hit env FaultPoint.persistence_mid_transaction
  ok (record { run = run; attempt = attempt; owns = owns; events = events; view = view })

-- The store with the open tool calls interrupted and the attempt's failure noted.
abbrev pub terminal_marked : RuntimeTerminalCommit → Store → TerminalCheck → ℕ → Store
terminal_marked commit s c done = record s {
  repo =
      if is_terminal commit.target_run_status
      then interrupt_open_calls s.repo c.run done
      else s.repo;
  attempts =
      Dict.put s.attempts commit.attempt_id
        (record c.attempt { failure_category = commit.failure_category });
}

-- Its writes, after all the checks.
unfoldable pub write_terminal :
    Env → RuntimeTerminalCommit → Store → TerminalCheck → ℕ → Outcome Store
unfolding interrupt_open_calls
write_terminal env commit s c done = do
  s2 ←
      apply_transition (append_events (terminal_marked commit s c done) c.run.id c.events)
        (record c.run { failure_category = commit.failure_category }) commit.target_run_status done
  s3 ← mark_ended env commit s2 c.run c.owns done
  ok (record s3 { frozen = Dict.put s3.frozen c.run.id c.view })

-- `commit_terminal`; `now` is the fence's instant, `done` that of the completion marks.
unfoldable pub commit_terminal :
    Env → Store → RuntimeTerminalCommit → ℕ → ℕ → Outcome (RuntimeRun × Store)
commit_terminal env s commit now done = do
  checked ← check_terminal env s commit now
  s' ← write_terminal env commit s checked done
  run' ← require_run s' commit.run_id
  ok (run', s')
