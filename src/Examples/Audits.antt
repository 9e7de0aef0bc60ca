-- ===== src/Examples/Audits.antt =====
-- An audit of a run whose lease has run out.
use diagops.Base.{ok, [], ◌∷◌, ◌≡◌, false, refl, any, keep}
use diagops.Base.Dict
use diagops.Domain.Run.{RuntimeRun, is_v11}
use diagops.Domain.Status.{
  RunStatus, RunStatus-discrete, AttemptStatus-discrete, ensure_run_transition,
}
use diagops.Store.State.{
  log, apply_transition, transitioned, end_attempt, end_attempts, append_events, extend_log,
  publish,
}
use diagops.Store.Terminal.{interrupt_open_calls}
use diagops.Repository.Defs.{list_tool_calls}
use diagops.Store.Evolve.{IsKeyed}
use diagops.Store.Audit.{
  lost, mark_interrupted, interrupt_run, audit_turn, audit_loop, audit_expired_leases,
}
use diagops.Store.Expiry.{expired_at, audit_expired_leases-clears}
use diagops.Examples.{env, leased, running, in_one}

running-IsKeyed : IsKeyed running
running-IsKeyed k r h = let (here, it) = in_one leased 5 k r h in rw it here

abbrev interrupted_run : RuntimeRun
interrupted_run = transitioned (lost leased) RunStatus.interrupted 101

audited : (audit_expired_leases env running 100 101).0 ≡ ok (interrupted_run ∷ [])
unfolding is_v11 apply_transition end_attempts end_attempt interrupt_open_calls list_tool_calls
    audit_expired_leases audit_loop audit_turn interrupt_run mark_interrupted publish append_events
    extend_log log ensure_run_transition any keep Dict.find Dict.get Dict.put Dict.empty Dict.keys
    Dict.values RunStatus-discrete AttemptStatus-discrete
audited = refl

audit_expired_leases-clears_example :
    expired_at 100 (Dict.get (audit_expired_leases env running 100 101).1.runs 5) ≡ false
audit_expired_leases-clears_example =
    audit_expired_leases-clears env running 100 101 (interrupted_run ∷ []) 5 running-IsKeyed audited
