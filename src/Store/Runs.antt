-- ===== src/Store/Runs.antt =====
-- `create_run`, `transition_run`, `request_cancel`, and the reads and side tables of a run.
use diagops.Base.{
  ℕ, Bool, true, false, Option, none, some, List, [], ◌&&◌, not, ◌==◌, opt_eq, same, ltb, any, keep,
  take, is_some, Outcome, ok, err, conflict, lease_lost, value_error, raise_as, guard, ◌>>=◌, ◌>>◌,
  if◌then◌else◌,
}
use diagops.Base.Dict
use diagops.Domain.Status.{RunStatus, RunStatus-discrete, ensure_run_transition, is_terminal}
use diagops.Domain.Names.{RunKind, FailureCategory, InvestigationStatus, AuthorityMode}
use diagops.Domain.Run.{RuntimeRun, is_v11}
use diagops.Domain.Event.{RuntimeEvent}
use diagops.Repository.Records.{Repository}
use diagops.Repository.Defs
use diagops.Store.State.{
  Env, Store, Step, or_unchanged, require_run, log, apply_transition, transitioned,
}
use diagops.Store.Guards.{
  validate_fence, ensure_investigation_exists, validate_linked_run, is_live_kind, is_active,
}

-- A live run that holds its investigation.
abbrev pub is_active_live : RuntimeRun → Bool
is_active_live run = is_live_kind run.run_kind && is_active run.status

abbrev pub competes : RuntimeRun → RuntimeRun → Bool
competes run item = item.investigation_id == run.investigation_id && is_active_live item

-- The checks of `create_run`.
unfoldable pub check_new_run : Store → RuntimeRun → Outcome (Unit {0})
check_new_run s run = do
  guard (not (is_some (Dict.get s.runs run.id))) conflict
  _ ← ensure_investigation_exists s run.investigation_id
  validate_linked_run s run run.parent_run_id true
  validate_linked_run s run run.source_run_id false
  guard (not (is_active_live run && any (competes run) (Dict.values s.runs))) conflict

unfoldable pub stored_run : Store → RuntimeRun → Store
stored_run s run = record s {
  runs = Dict.put s.runs run.id run;
  events = Dict.put s.events run.id [];
}

abbrev pub v11_owner : RuntimeRun → Option ℕ
v11_owner run = if is_v11 run then some run.id else none

abbrev pub v11_authority : RuntimeRun → Option AuthorityMode
v11_authority run = if is_v11 run then some run.authority_mode else none

-- `freeze_business_projection` with the arguments that the callers give it; it begins by reading
-- the investigation's record.
unfoldable pub freeze_for : Env → Repository → RuntimeRun → Outcome ℕ
freeze_for env repo run = do
  _ ← Defs.get repo run.investigation_id
  env.freeze repo run.investigation_id (v11_owner run) (v11_authority run)

abbrev pub frozen_source : Store → Option ℕ → Option ℕ
frozen_source s none = none
frozen_source s (some source_run_id) = Dict.get s.frozen source_run_id

abbrev pub initial_frozen : Env → Store → RuntimeRun → RunKind → Outcome (Option ℕ)
initial_frozen env s run RunKind.replay = ok (frozen_source s run.source_run_id)
initial_frozen env s run RunKind.live = do view ← freeze_for env s.repo run; ok (some view)

abbrev pub put_frozen : Store → ℕ → Option ℕ → Store
put_frozen s run_id none = s
put_frozen s run_id (some view) = record s { frozen = Dict.put s.frozen run_id view }

-- A run that is created already terminal gets its frozen view; the run is stored before that.
abbrev pub freeze_created : Env → Store → RuntimeRun → Step RuntimeRun
freeze_created env s run =
    if is_terminal run.status
    then or_unchanged s
        (do view ← initial_frozen env s run run.run_kind; ok (run, put_frozen s run.id view))
    else (ok run, s)

abbrev pub create_checked : Env → Store → RuntimeRun → Outcome (Unit {0}) → Step RuntimeRun
create_checked env s run (err e) = (err e, s)
create_checked env s run (ok _) = freeze_created env (stored_run s run) run

unfoldable pub create_run : Env → Store → RuntimeRun → Step RuntimeRun
create_run env s run = create_checked env s run (check_new_run s run)

-- The statuses from which `transition_run` asks for a fence.
abbrev pub wants_fence : RunStatus → Bool
wants_fence RunStatus.running = true
wants_fence RunStatus.cancelling = true
wants_fence RunStatus.interrupted = true
wants_fence _ = false

-- `transition_run`; `now` is the fence's instant, `done` that of the completion marks.
unfoldable pub transition_run :
    Store → ℕ → RunStatus → RunStatus → Option ℕ → Option ℕ → ℕ → ℕ → Outcome (RuntimeRun × Store)
transition_run s run_id expected target owner lease_version now done = do
  run ← require_run s run_id
  guard (same RunStatus-discrete run.status expected) conflict
  guard (not (wants_fence expected && not (is_some owner && is_some lease_version))) lease_lost
  validate_fence run owner lease_version now
  raise_as conflict (ensure_run_transition expected target)
  s' ← apply_transition s run target done
  ok (transitioned run target done, s')

-- `owns_projection`
unfoldable pub owns_projection : Store → RuntimeRun → Outcome Bool
owns_projection s run = if not (is_v11 run) then ok true else (do
  record_ ← Defs.get s.repo run.investigation_id
  ok (opt_eq record_.active_runtime_run_id (some run.id)))

abbrev pub mark_investigation :
    Store → RuntimeRun → Bool → InvestigationStatus → Option ℕ → ℕ → Outcome Store
mark_investigation s run owns status reason now =
    if owns
    then (do
      repo ← Defs.update_status s.repo run.investigation_id status reason now
      ok (record s { repo = repo }))
    else ok s

abbrev pub cancel_marked : RuntimeRun → ℕ → RuntimeRun
cancel_marked run now = record run { cancel_requested_at = some now }

-- A run that never started is cancelled at once, and its projection is frozen.
unfoldable pub cancel_created : Env → Store → RuntimeRun → Bool → ℕ → Outcome Store
cancel_created env s run owns now = do
  view ← freeze_for env s.repo run
  s ←
      apply_transition s
        (record (cancel_marked run now) { failure_category = some FailureCategory.cancelled })
        RunStatus.cancelled now
  s ← mark_investigation s run owns InvestigationStatus.cancelled none now
  ok (record s { frozen = Dict.put s.frozen run.id view })

unfoldable pub request_cancel_from : Env → Store → RuntimeRun → Bool → ℕ → RunStatus → Outcome Store
request_cancel_from env s run owns now RunStatus.created = cancel_created env s run owns now
request_cancel_from env s run owns now RunStatus.running =
    apply_transition s (cancel_marked run now) RunStatus.cancelling now
request_cancel_from env s run owns now RunStatus.cancelling = ok s
request_cancel_from env s run owns now _ = err conflict

-- `request_cancel`
unfoldable pub request_cancel : Env → Store → ℕ → ℕ → Outcome (RuntimeRun × Store)
request_cancel env s run_id now = do
  run ← require_run s run_id
  owns ← owns_projection s run
  s' ← request_cancel_from env s run owns now run.status
  run' ← require_run s' run_id
  ok (run', s')

-- `set_benchmark_replay_locator`; a locator is known by one number.
abbrev pub locator_free : Option ℕ → ℕ → Bool
locator_free none locator = true
locator_free (some existing) locator = existing == locator

unfoldable pub set_benchmark_replay_locator : Store → ℕ → ℕ → Outcome Store
set_benchmark_replay_locator s run_id locator = do
  _ ← require_run s run_id
  guard (locator_free (Dict.get s.locators run_id) locator) conflict
  ok (record s { locators = Dict.put s.locators run_id locator })

unfoldable pub get_benchmark_replay_locator : Store → ℕ → Outcome (Option ℕ)
get_benchmark_replay_locator s run_id = do _ ← require_run s run_id; ok (Dict.get s.locators run_id)

unfoldable pub get_frozen_business_projection : Store → ℕ → Outcome (Option ℕ)
get_frozen_business_projection s run_id = do _ ← require_run s run_id; ok (Dict.get s.frozen run_id)

abbrev pub is_after : ℕ → RuntimeEvent → Bool
is_after after event = ltb after event.sequence

-- `list_events`
unfoldable pub list_events : Store → ℕ → ℕ → ℕ → Outcome (List RuntimeEvent)
list_events s run_id after limit = do
  _ ← require_run s run_id
  guard (ltb 0 limit) value_error
  ok (take limit (keep (is_after after) (log s run_id)))
