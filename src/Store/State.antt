-- ===== src/Store/State.antt =====
-- The state of `InMemoryRuntimeStore`, what it is configured with, and the lookups and
-- transitions that its operations share.
use diagops.Base.{
  ℕ, Bool, true, false, Option, none, some, List, [], ◌++◌, ◌&&◌, not, ◌==◌, same, ltb, Outcome, ok,
  err, Error, not_found, require, guard, ◌>>◌, if◌then◌else◌,
}
use diagops.Base.Dict
use diagops.Base.Dict.{Dict}
use diagops.Domain.Status.{
  RunStatus, AttemptStatus, AttemptStatus-discrete, ensure_run_transition, is_terminal,
}
use diagops.Domain.Names.{Phase, FailureCategory, AuthorityMode}
use diagops.Domain.Run.{RuntimeRun, RuntimeAttempt, RuntimeCheckpoint, RuntimeResumeState}
use diagops.Domain.Event.{RuntimeEvent}
use diagops.Repository.Records.{Repository}
use diagops.Phases.Mutation.{BusinessMutation}

pub data FaultPoint : Type 0 where
  after_lease_before_attempt persistence_mid_transaction : FaultPoint
  after_business_before_event unsafe_event_payload : FaultPoint

-- What the store is built with, and the functions of other modules that it calls: the frozen
-- projections of backend/runtime/diff.py, the digests of backend/runtime/phases.py, the labels of
-- backend/safety/redaction.py and the payload validation of `RuntimeEvent`. A projection is known
-- by one number here, as a digest is.
pub record Env : Type 0 where
  pub lease_duration : ℕ  -- timedelta(seconds=lease_seconds)
  pub fails : FaultPoint → Bool
  pub freeze : Repository → ℕ → Option ℕ → Option AuthorityMode → Outcome ℕ
  pub finalize : ℕ → List RuntimeCheckpoint → Outcome ℕ
  pub parses : ℕ → Bool
  pub safe_failure : FailureCategory → ℕ
  pub checkpoint_digest : ℕ → ℕ → Phase → RuntimeResumeState → ℕ → ℕ
  pub projection_digest : Repository → ℕ → ℕ → RuntimeResumeState → BusinessMutation → Outcome ℕ
  pub valid_event : RuntimeEvent → Bool

-- `published` lists what the event publisher has been handed, oldest first.
pub record Store : Type 0 where
  pub repo : Repository
  pub runs : Dict RuntimeRun
  pub attempts : Dict RuntimeAttempt
  pub trace_contexts : Dict (ℕ × ℕ)
  pub events : Dict (List RuntimeEvent)
  pub checkpoints : Dict RuntimeCheckpoint
  pub frozen : Dict ℕ
  pub locators : Dict ℕ
  pub published : List RuntimeEvent

-- What a call leaves: its result or the exception, and the store.
abbrev pub Step : Type 0 → Type 0
Step A = Outcome A × Store

-- A call whose checks all come before its first write: an exception leaves the store alone.
abbrev pub or_unchanged : {A : Type 0} → Store → Outcome (A × Store) → Step A
or_unchanged s (ok (a, s')) = (ok a, s')
or_unchanged s (err e) = (err e, s)

-- `_hit_failpoint` and the fault injector's `hit`
abbrev pub hit : Env → FaultPoint → Outcome (Unit {0})
hit env point = guard (not (env.fails point)) Error.injected

-- `_require_run`
unfoldable pub require_run : Store → ℕ → Outcome RuntimeRun
require_run s run_id = require not_found (Dict.get s.runs run_id)

abbrev pub log_or_empty : Option (List RuntimeEvent) → List RuntimeEvent
log_or_empty none = []
log_or_empty (some events) = events

-- `self._events[run_id]`, which `create_run` has made for every run
unfoldable pub log : Store → ℕ → List RuntimeEvent
log s run_id = log_or_empty (Dict.get s.events run_id)

-- `self._events[run_id].extend(events)`
unfoldable pub extend_log : Store → ℕ → List RuntimeEvent → Store
unfolding log
extend_log s run_id events = record s { events = Dict.put s.events run_id (log s run_id ++ events) }

-- `_publish_events`; a publisher that fails changes nothing.
unfoldable pub publish : Store → List RuntimeEvent → Store
publish s events = record s { published = s.published ++ events }

-- What a commit appends, it publishes.
unfoldable pub append_events : Store → ℕ → List RuntimeEvent → Store
unfolding extend_log publish
append_events s run_id events = publish (extend_log s run_id events) events

-- `lease_expires_at is not None and lease_expires_at > now`
abbrev pub live_at : ℕ → Option ℕ → Bool
live_at now none = false
live_at now (some expires) = ltb now expires

-- The statuses at which `_apply_transition` gives the lease up.
abbrev pub ends_lease : RunStatus → Bool
ends_lease RunStatus.completed = true
ends_lease RunStatus.failed = true
ends_lease RunStatus.cancelled = true
ends_lease RunStatus.interrupted = true
ends_lease _ = false

-- `attempt_target`
abbrev pub attempt_target : RunStatus → Option AttemptStatus
attempt_target RunStatus.completed = some AttemptStatus.completed
attempt_target RunStatus.failed = some AttemptStatus.failed
attempt_target RunStatus.cancelled = some AttemptStatus.cancelled
attempt_target RunStatus.interrupted = some AttemptStatus.interrupted
attempt_target _ = none

unfoldable pub transitioned : RuntimeRun → RunStatus → ℕ → RuntimeRun
transitioned run target now = record run {
  status = target;
  completed_at = if is_terminal target then some now else run.completed_at;
  lease_owner = if ends_lease target then none else run.lease_owner;
  lease_expires_at = if ends_lease target then none else run.lease_expires_at;
}

-- One round of the loop over the attempts.
unfoldable pub end_attempt : ℕ → AttemptStatus → ℕ → RuntimeAttempt → RuntimeAttempt
end_attempt run_id target now attempt =
    if attempt.run_id == run_id && same AttemptStatus-discrete attempt.status AttemptStatus.running
    then record attempt { status = target; completed_at = some now }
    else attempt

unfoldable pub end_attempts :
    ℕ → Option AttemptStatus → ℕ → Dict RuntimeAttempt → Dict RuntimeAttempt
unfolding end_attempt
end_attempts run_id none now attempts = attempts
end_attempts run_id (some target) now attempts =
    Dict.update_values (end_attempt run_id target now) attempts

-- `_apply_transition`; `now` stands for the clock's readings in it.
unfoldable pub apply_transition : Store → RuntimeRun → RunStatus → ℕ → Outcome Store
unfolding transitioned end_attempts
apply_transition s run target now = do
  ensure_run_transition run.status target
  ok (record s {
    runs = Dict.put s.runs run.id (transitioned run target now);
    attempts = end_attempts run.id (attempt_target target) now s.attempts;
  })
