-- ===== src/Domain/Status.antt =====
-- backend/domain/runtime.py: the statuses of runs and attempts and the transitions between them.
pub mod Reach
use diagops.Base.{Bool, true, false, Outcome, value_error, guard}

pub data RunStatus : Type 0 where
  created running cancelling interrupted completed failed cancelled : RunStatus

unfoldable pub RunStatus-discrete : Discrete RunStatus
RunStatus-discrete = hlevel

pub data AttemptStatus : Type 0 where
  running completed failed cancelled interrupted : AttemptStatus

unfoldable pub AttemptStatus-discrete : Discrete AttemptStatus
AttemptStatus-discrete = hlevel

-- ALLOWED_TRANSITIONS
abbrev pub allowed_transitions : RunStatus → RunStatus → Bool
allowed_transitions created running = true
allowed_transitions created cancelled = true
allowed_transitions running completed = true
allowed_transitions running failed = true
allowed_transitions running cancelling = true
allowed_transitions running interrupted = true
allowed_transitions cancelling cancelled = true
allowed_transitions cancelling interrupted = true
allowed_transitions interrupted running = true
allowed_transitions _ _ = false

unfoldable pub ensure_run_transition : RunStatus → RunStatus → Outcome (Unit {0})
ensure_run_transition source target = guard (allowed_transitions source target) value_error

-- ALLOWED_ATTEMPT_TRANSITIONS
abbrev pub allowed_attempt_transitions : AttemptStatus → AttemptStatus → Bool
allowed_attempt_transitions running completed = true
allowed_attempt_transitions running failed = true
allowed_attempt_transitions running cancelled = true
allowed_attempt_transitions running interrupted = true
allowed_attempt_transitions _ _ = false

unfoldable pub ensure_attempt_transition : AttemptStatus → AttemptStatus → Outcome (Unit {0})
ensure_attempt_transition source target =
    guard (allowed_attempt_transitions source target) value_error

-- `status in {COMPLETED, FAILED, CANCELLED}`
abbrev pub is_terminal : RunStatus → Bool
is_terminal completed = true
is_terminal failed = true
is_terminal cancelled = true
is_terminal _ = false

-- `status in {RUNNING, CANCELLING}`
abbrev pub is_leased : RunStatus → Bool
is_leased running = true
is_leased cancelling = true
is_leased _ = false

-- What a run may come to be, however many transitions it takes.
abbrev pub leads_to : RunStatus → RunStatus → Bool
leads_to created _ = true
leads_to completed completed = true
leads_to failed failed = true
leads_to cancelled cancelled = true
leads_to completed _ = false
leads_to failed _ = false
leads_to cancelled _ = false
leads_to _ created = false
leads_to _ _ = true
