-- ===== src/Store/Leases.antt =====
-- Leases and attempts: `_acquire_lease`, `create_attempt`, `acquire_lease_and_create_attempt`,
-- `transition_attempt`, `renew_lease` and `reserve_model_turn`.
use diagops.Base.{
  ℕ, zero, suc, ◌+◌, Bool, true, false, Option, none, some, List, [], ◌∷◌, map, ◌&&◌, ◌||◌, not,
  ◌==◌, opt_eq, same, any, keep, is_some, max, Outcome, ok, err, Error, conflict, not_found,
  integrity, lease_lost, persistence, require, raise_as, guard, ◌>>=◌, ◌>>◌, if◌then◌else◌,
}
use diagops.Base.Dict
use diagops.Domain.Status.{
  RunStatus, RunStatus-discrete, AttemptStatus, AttemptStatus-discrete, ensure_run_transition,
  ensure_attempt_transition, is_leased,
}
use diagops.Domain.Run.{RuntimeRun, RuntimeAttempt, is_v11}
use diagops.Store.State.{Env, Store, Step, FaultPoint, require_run, live_at}
use diagops.Store.Guards.{validate_fence, attempt_matches}

abbrev pub started : Option ℕ → ℕ → Option ℕ
started none now = some now
started (some t) now = some t

abbrev pub leased_run : Env → RuntimeRun → ℕ → ℕ → RuntimeRun
leased_run env run owner now = record run {
  status = RunStatus.running;
  lease_owner = some owner;
  lease_version = suc run.lease_version;
  lease_expires_at = some (now + env.lease_duration);
  started_at = started run.started_at now;
}

-- `expected_status in {CREATED, INTERRUPTED}`
abbrev pub is_startable : RunStatus → Bool
is_startable RunStatus.created = true
is_startable RunStatus.interrupted = true
is_startable _ = false

-- `_acquire_lease` at the instant `now`; `none` when the race is lost
unfoldable pub acquire_lease :
    Env → Store → ℕ → ℕ → RunStatus → ℕ → Outcome (Option RuntimeRun × Store)
acquire_lease env s run_id owner expected now = do
  run ← require_run s run_id
  if not (same RunStatus-discrete run.status expected)
        || ((is_some run.lease_owner && live_at now run.lease_expires_at)
            || not (is_startable expected))
      then ok (none, s)
      else (do
        ensure_run_transition expected RunStatus.running
        let run' = leased_run env run owner now
        ok (some run', record s { runs = Dict.put s.runs run_id run' }))

-- `max(numbers, default=0)`
unfoldable pub maximum : List ℕ → ℕ
maximum [] = 0
maximum (n ∷ ns) = max n (maximum ns)

abbrev pub attempt_of : ℕ → RuntimeAttempt → Bool
attempt_of run_id item = item.run_id == run_id

unfoldable pub attempt_numbers : Store → ℕ → List ℕ
attempt_numbers s run_id =
    map (λ a. a.attempt_number) (keep (attempt_of run_id) (Dict.values s.attempts))

-- `create_attempt`
unfoldable pub create_attempt :
    Store → RuntimeAttempt → ℕ → ℕ → ℕ → Outcome (RuntimeAttempt × Store)
unfolding maximum attempt_numbers
create_attempt s attempt owner lease_version now = do
  run ← require_run s attempt.run_id
  guard (same RunStatus-discrete run.status RunStatus.running) conflict
  validate_fence run (some owner) (some lease_version) now
  guard (not (is_some (Dict.get s.attempts attempt.id))) conflict
  guard (attempt.attempt_number == maximum (attempt_numbers s attempt.run_id) + 1) conflict
  guard (not (any (attempt_matches attempt.run_id AttemptStatus.running) (Dict.values s.attempts)))
      conflict
  ok (attempt, record s { attempts = Dict.put s.attempts attempt.id attempt })

-- `except (RuntimeConflict, RuntimeLeaseLost): raise`, else RuntimePersistenceError
abbrev pub start_error : Error → Error
start_error Error.conflict = conflict
start_error Error.lease_lost = lease_lost
start_error _ = persistence

abbrev pub create_leased :
    Env → Store → RuntimeAttempt → ℕ → ℕ → ℕ → Outcome (RuntimeAttempt × Store)
create_leased env s attempt owner lease_version now =
    if env.fails FaultPoint.after_lease_before_attempt
    then err Error.injected
    else create_attempt s attempt owner lease_version now

-- The attempt of a lease just taken; the run is written back if there is none.
unfoldable pub start_attempt :
    Env
    → RuntimeRun
    → Store
    → ℕ
    → RuntimeRun
    → RuntimeAttempt
    → ℕ
    → ℕ
    → Step (RuntimeRun × RuntimeAttempt)
start_attempt env before s run_id leased attempt owner now =
    elim (create_leased env s attempt owner leased.lease_version now) [
      | err e ↦ (err (start_error e), record s { runs = Dict.put s.runs run_id before })
      | ok created ↦ (ok (leased, created.0), created.1)
    ]

-- The run before the lease, the run that holds it, and the store then.
unfoldable pub lease_first :
    Env → Store → ℕ → ℕ → RunStatus → ℕ → Outcome (RuntimeRun × RuntimeRun × Store)
lease_first env s run_id owner expected now = do
  before ← require_run s run_id
  taken ← acquire_lease env s run_id owner expected now
  leased ← require conflict taken.0
  ok (before, leased, taken.1)

abbrev pub start_then :
    Env
    → Store
    → ℕ
    → RuntimeAttempt
    → ℕ
    → ℕ
    → Outcome (RuntimeRun × RuntimeRun × Store)
    → Step (RuntimeRun × RuntimeAttempt)
start_then env s run_id attempt owner later (err e) = (err e, s)
start_then env s run_id attempt owner later (ok (before, leased, s1)) =
    start_attempt env before s1 run_id leased attempt owner later

-- `acquire_lease_and_create_attempt`; `now` and `later` are the two readings of the clock.
unfoldable pub acquire_lease_and_create_attempt :
    Env → Store → ℕ → RuntimeAttempt → ℕ → RunStatus → ℕ → ℕ → Step (RuntimeRun × RuntimeAttempt)
acquire_lease_and_create_attempt env s run_id attempt owner expected now later =
    start_then env s run_id attempt owner later (lease_first env s run_id owner expected now)

-- `transition_attempt`; `done` is the instant of completion.
unfoldable pub transition_attempt :
    Store → ℕ → AttemptStatus → AttemptStatus → ℕ → ℕ → ℕ → ℕ → Outcome (RuntimeAttempt × Store)
transition_attempt s attempt_id expected target owner lease_version now done = do
  attempt ← require not_found (Dict.get s.attempts attempt_id)
  run ← require_run s attempt.run_id
  validate_fence run (some owner) (some lease_version) now
  guard (same AttemptStatus-discrete attempt.status expected) conflict
  raise_as conflict (ensure_attempt_transition expected target)
  let attempt' = record attempt { status = target; completed_at = some done }
  ok (attempt', record s { attempts = Dict.put s.attempts attempt_id attempt' })

abbrev pub renewable : RuntimeRun → ℕ → ℕ → ℕ → Bool
renewable run owner lease_version now =
    is_leased run.status
    && (opt_eq run.lease_owner (some owner)
        && (run.lease_version == lease_version && live_at now run.lease_expires_at))

-- `renew_lease`
unfoldable pub renew_lease : Env → Store → ℕ → ℕ → ℕ → ℕ → Outcome (Option RuntimeRun × Store)
renew_lease env s run_id owner lease_version now = do
  run ← require_run s run_id
  let run' = record run { lease_expires_at = some (now + env.lease_duration) }
  if renewable run owner lease_version now
      then ok (some run', record s { runs = Dict.put s.runs run_id run' })
      else ok (none, s)

-- `if remaining <= 0: raise`, else the budget less one turn
abbrev pub spend_turn : ℕ → Outcome ℕ
spend_turn zero = err conflict
spend_turn (suc turns) = ok turns

-- `reserve_model_turn`
unfoldable pub reserve_model_turn : Store → ℕ → ℕ → ℕ → ℕ → Outcome (ℕ × Store)
reserve_model_turn s run_id owner lease_version now = do
  run ← require_run s run_id
  guard (is_v11 run) integrity
  guard (is_leased run.status) conflict
  validate_fence run (some owner) (some lease_version) now
  remaining ← require integrity run.remaining_model_turns
  turns ← spend_turn remaining
  ok (
    turns,
    record s { runs = Dict.put s.runs run_id (record run { remaining_model_turns = some turns }) },
  )
