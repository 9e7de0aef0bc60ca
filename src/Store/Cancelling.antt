-- ===== src/Store/Cancelling.antt =====
-- `request_cancel`: what it makes of a run in each status.
use diagops.Base.{ℕ, Bool, true, Option, none, some, ◌≡◌, refl, sym, ◌∙◌, ok, arith, ◌==◌}
use mathlib.Core.Path.{subst}
use diagops.Base.Dict
use diagops.Base.Dict.{Dict, get-put}
use diagops.Domain.Status.{RunStatus, ensure_run_transition}
use diagops.Domain.Run.{RuntimeRun}
use diagops.Domain.Names.{FailureCategory}
use diagops.Store.State.{Env, Store, require_run, apply_transition, transitioned}
use diagops.Store.Runs.{request_cancel, request_cancel_from, cancel_marked}
use diagops.Store.Evolve.{IsKeyed}
use diagops.Store.Evolve.Ended.{request_cancel-ok, cancel_created-ok}
use diagops.Store.Evolve.Logged.{mark_investigation-SameCore}

-- What a request to cancel makes of a run.
abbrev pub cancelled_as : ℕ → RuntimeRun → RunStatus → Option RuntimeRun
cancelled_as now run RunStatus.created = some (record run {
  status = RunStatus.cancelled;
  cancel_requested_at = some now;
  failure_category = some FailureCategory.cancelled;
  completed_at = some now;
  lease_owner = none;
  lease_expires_at = none;
})
cancelled_as now run RunStatus.running =
    some (record run { status = RunStatus.cancelling; cancel_requested_at = some now })
cancelled_as now run RunStatus.cancelling = some run
cancelled_as now run _ = none

pub apply_transition-runs :
    (s : Store) (run : RuntimeRun) (target : RunStatus) (now : ℕ) {s' : Store}
    → apply_transition s run target now ≡ ok s'
    → s'.runs ≡ Dict.put s.runs run.id (transitioned run target now)
unfolding apply_transition ensure_run_transition
apply_transition-runs s run target now h = ground arith

put-get : {V : Type 0} (d e : Dict V) (k : ℕ) (v : V) → e ≡ Dict.put d k v → Dict.get e k ≡ some v
put-get d e k v h = let here : (k == k) ≡ true = ground arith in rw (h, get-put, here) refl

request_cancel_from-get :
    (env : Env) (s : Store) (run : RuntimeRun) (owns : Bool) (now : ℕ) (status : RunStatus)
    {s' : Store}
    → Dict.get s.runs run.id ≡ some run
    → request_cancel_from env s run owns now status ≡ ok s'
    → Dict.get s'.runs run.id ≡ cancelled_as now run status
unfolding request_cancel_from transitioned
request_cancel_from-get env s run owns now RunStatus.created {s'} found h =
    let (s1, moved, s2, marked, core) = cancel_created-ok env s run owns now h in
    let at_once = record (cancel_marked run now) {
      failure_category = some FailureCategory.cancelled;
    } in
    let kept = mark_investigation-SameCore s1 run owns _ none now marked in
    let runs : s'.runs ≡ Dict.put s.runs run.id (transitioned at_once RunStatus.cancelled now) =
      core.runs ∙ kept.runs ∙ apply_transition-runs s at_once RunStatus.cancelled now moved in
    put-get s.runs s'.runs run.id _ runs
request_cancel_from-get env s run owns now RunStatus.running {s'} found h =
    put-get s.runs s'.runs run.id _
      (apply_transition-runs s (cancel_marked run now) RunStatus.cancelling now h)
request_cancel_from-get env s run owns now RunStatus.cancelling {s'} found h =
    let final : s' ≡ s = ground arith in rw final found
request_cancel_from-get env s run owns now _ found h = cc

request_cancel-result :
    (env : Env) (s : Store) (run_id now : ℕ) {r : RuntimeRun} {s' : Store}
    → request_cancel env s run_id now ≡ ok (r, s')
    → Dict.get s'.runs run_id ≡ some r
unfolding request_cancel require_run
request_cancel-result env s run_id now h = ground arith

-- A request to cancel that returns, for a run stored under its id, found a run that was created,
-- running or cancelling. A created run is cancelled at once: its status and its failure category say
-- so, the request and the completion are at this instant, and it has no lease. A running one is
-- cancelling from then on, the request is at this instant, and its lease stays. A cancelling one
-- stays as it is. No other field changes, and the result is the run as it is stored then.
pub request_cancel-get :
    (env : Env) (s : Store) (run_id now : ℕ) (run r : RuntimeRun) (s' : Store)
    → IsKeyed s
    → Dict.get s.runs run_id ≡ some run
    → request_cancel env s run_id now ≡ ok (r, s')
    → (Dict.get s'.runs run_id ≡ some r) × (cancelled_as now run run.status ≡ some r)
request_cancel-get env s run_id now run r s' keyed found h =
    let (q, at, owns, _, moved) = request_cancel-ok env s run_id now h in
    let it : q ≡ run = cc in
    let here = keyed run_id run found in
    let moved_run = subst (λ x. request_cancel_from env s x owns now x.status ≡ ok s') it moved in
    let stored = subst (λ k. Dict.get s.runs k ≡ some run) (sym here) found in
    let after = request_cancel_from-get env s run owns now run.status stored moved_run in
    let result = request_cancel-result env s run_id now h in
    (result, sym after ∙ subst (λ k. Dict.get s'.runs k ≡ some r) (sym here) result)
