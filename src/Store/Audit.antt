-- ===== src/Store/Audit.antt =====
-- `audit_expired_leases`: runs whose lease has expired are interrupted.
use diagops.Base.{
  ℕ, ◌+◌, Bool, false, Option, none, some, List, [], ◌∷◌, ◌++◌, ◌&&◌, ltb, length, Outcome, ok, err,
  integrity, require, ◌>>=◌, if◌then◌else◌,
}
use diagops.Base.Dict
use diagops.Domain.Status.{RunStatus, AttemptStatus, is_leased}
use diagops.Domain.Names.{EventType, ActorType, FailureCategory}
use diagops.Domain.Run.{RuntimeRun, RuntimeAttempt}
use diagops.Domain.Event.{RuntimeEvent, empty_payload}
use diagops.Store.State.{Env, Store, Step, log, extend_log, publish, apply_transition, transitioned}
use diagops.Store.Guards.{attempt_matches}
use diagops.Store.Commits.{refreeze}
use diagops.Store.Terminal.{interrupt_open_calls}

-- `lease_expires_at is not None and lease_expires_at < now`
abbrev pub expired_before : ℕ → Option ℕ → Bool
expired_before now none = false
expired_before now (some expires) = ltb expires now

abbrev pub is_expired : ℕ → RuntimeRun → Bool
is_expired now run = is_leased run.status && expired_before now run.lease_expires_at

abbrev pub interruption : EventType → ℕ → ℕ → ℕ → RuntimeEvent
interruption event_type run_id attempt_id sequence = record {
  run_id = run_id;
  attempt_id = attempt_id;
  sequence = sequence;
  event_type = event_type;
  phase = none;
  actor_type = ActorType.runtime;
  actor_name = none;
  task_id = none;
  tool_call_id = none;
  execution_id = none;
  evidence_ids = [];
  schema_version = 1;
  safe_payload = empty_payload;
}

abbrev pub interruptions : ℕ → ℕ → ℕ → List RuntimeEvent
interruptions run_id attempt_id sequence =
    interruption EventType.run_interrupted run_id attempt_id sequence
    ∷ interruption EventType.attempt_interrupted run_id attempt_id (sequence + 1)
    ∷ []

abbrev pub lost : RuntimeRun → RuntimeRun
lost run = record run { failure_category = some FailureCategory.lease_lost }

-- The run, its attempt and its open tool calls are marked; `done` is the completion instant.
unfoldable pub mark_interrupted : Store → RuntimeRun → ℕ → ℕ → Outcome (RuntimeAttempt × Store)
mark_interrupted s run now done = do
  (attempt_id, attempt) ←
      require integrity (Dict.find (attempt_matches run.id AttemptStatus.running) s.attempts)
  s' ←
      apply_transition
        (record s {
          repo = interrupt_open_calls s.repo run now;
          attempts =
              Dict.put s.attempts attempt_id
                (record attempt { failure_category = some FailureCategory.lease_lost });
        })
        (lost run) RunStatus.interrupted done
  ok (attempt, s')

abbrev pub log_interruptions :
    RuntimeRun → RuntimeAttempt → Store → Outcome Store → Step (List RuntimeEvent)
log_interruptions run attempt s (err e) = (err e, s)
log_interruptions run attempt s (ok s') =
    let events = interruptions run.id attempt.id (length (log s' run.id) + 1) in
    (ok events, extend_log s' run.id events)

abbrev pub interrupt_marked :
    Env → ℕ → Store → RuntimeRun → Outcome (RuntimeAttempt × Store) → Step (List RuntimeEvent)
interrupt_marked env done s run (err e) = (err e, s)
interrupt_marked env done s run (ok (attempt, s')) =
    log_interruptions run attempt s'
      (refreeze env s' (transitioned (lost run) RunStatus.interrupted done))

-- One expired run. A view that cannot be frozen raises after the run has been marked.
unfoldable pub interrupt_run : Env → ℕ → ℕ → Store → RuntimeRun → Step (List RuntimeEvent)
interrupt_run env now done s run = interrupt_marked env done s run (mark_interrupted s run now done)

-- One run's turn, with the rest of the loop: the run's object is read when its turn comes, and the
-- rest takes the interrupted runs and the events that have been collected.
unfoldable pub audit_turn :
    Env
    → ℕ
    → ℕ
    → Store
    → Option RuntimeRun
    → (List RuntimeRun → List RuntimeEvent → Store → Step (List RuntimeRun))
    → List RuntimeRun
    → List RuntimeEvent
    → Step (List RuntimeRun)
unfolding interrupt_run
audit_turn env now done s none rest interrupted events = rest interrupted events s
audit_turn env now done s (some run) rest interrupted events =
    if is_expired now run
    then (elim (interrupt_run env now done s run).0 [
      | err e ↦ (err e, (interrupt_run env now done s run).1)
      | ok new_events ↦
          rest (interrupted ++ (transitioned (lost run) RunStatus.interrupted done ∷ []))
            (events ++ new_events) (interrupt_run env now done s run).1
    ])
    else rest interrupted events s

-- The loop over the runs; what it has collected is published at its end.
unfoldable pub audit_loop :
    Env → ℕ → ℕ → List ℕ → List RuntimeRun → List RuntimeEvent → Store → Step (List RuntimeRun)
unfolding audit_turn
audit_loop env now done [] interrupted events s = (ok interrupted, publish s events)
audit_loop env now done (run_id ∷ run_ids) interrupted events s =
    audit_turn env now done s (Dict.get s.runs run_id) (audit_loop env now done run_ids) interrupted
      events

unfoldable pub audit_expired_leases : Env → Store → ℕ → ℕ → Step (List RuntimeRun)
audit_expired_leases env s now done = audit_loop env now done (Dict.keys s.runs) [] [] s
