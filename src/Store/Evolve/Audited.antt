-- ===== src/Store/Evolve/Audited.antt =====
-- `Evolves` for the lease audit, which may raise in the middle of its loop.
use diagops.Base.{
  ℕ, ◌+◌, Option, none, some, List, [], ◌∷◌, ◌≡◌, refl, Outcome, ok, err, arith, length, inl, inr,
  Outcome-cases, Bool-cases,
}
use diagops.Base.Dict
use diagops.Base.Dict.{find-get}
use diagops.Domain.Status.{RunStatus, AttemptStatus}
use diagops.Domain.Names.{FailureCategory}
use diagops.Domain.Run.{RuntimeRun, RuntimeAttempt}
use diagops.Domain.Event.{RuntimeEvent}
use diagops.Store.State.{Env, Store, Step, log, extend_log, publish, apply_transition, transitioned}
use diagops.Store.Guards.{attempt_matches}
use diagops.Store.Commits.{refreeze}
use diagops.Store.Terminal.{interrupt_open_calls}
use diagops.Store.Audit.{
  mark_interrupted, lost, interruptions, log_interruptions, interrupt_marked, interrupt_run,
  audit_turn, audit_loop, audit_expired_leases, is_expired,
}
use diagops.Store.Evolve.{Evolves, IsKeyed}
use diagops.Store.Evolve.Parts.{
  Evolves-IsKeyed, Evolves-refl, Evolves-trans, extend_log-LogStep, RunStep-refl, AttemptStep-refl,
}
use diagops.Store.Evolve.Fenced.{kept-RunFacts, put_attempt-Evolves}
use diagops.Store.Evolve.Logged.{SameCore-Evolves, apply_transition-Evolves}
use diagops.Store.Evolve.Ended.{refreeze-SameCore}

unfoldable pub marked_attempt : RuntimeAttempt → RuntimeAttempt
marked_attempt attempt = record attempt { failure_category = some FailureCategory.lease_lost }

pub mark_interrupted-ok :
    (s : Store) (run : RuntimeRun) (now done : ℕ) {attempt : RuntimeAttempt} {s' : Store}
    → mark_interrupted s run now done ≡ ok (attempt, s')
    → (found : ℕ × RuntimeAttempt) × (Dict.find
          (attempt_matches run.id AttemptStatus.running)
          s.attempts
        ≡ some found)
      × (apply_transition
            (record s {
              repo = interrupt_open_calls s.repo run now;
              attempts = Dict.put s.attempts found.0 (marked_attempt found.1);
            })
            (lost run)
            RunStatus.interrupted
            done
          ≡ ok s')
unfolding mark_interrupted marked_attempt
mark_interrupted-ok s run now done h = ground arith

mark_interrupted-Evolves :
    (s : Store) (k : ℕ) (run : RuntimeRun) (now done : ℕ) {attempt : RuntimeAttempt} {s' : Store}
    → Dict.get s.runs k ≡ some run
    → run.id ≡ k
    → mark_interrupted s run now done ≡ ok (attempt, s')
    → Evolves (some RunStatus.interrupted) s s'
unfolding marked_attempt
mark_interrupted-Evolves s k run now done found here h =
    let ((i, attempt), at, moved) = mark_interrupted-ok s run now done h in
    let (there, _) = find-get _ s.attempts at in
    let s1 : Store = record s { attempts = Dict.put s.attempts i (marked_attempt attempt) } in
    let s2 : Store = record s1 { repo = interrupt_open_calls s.repo run now } in
    Evolves-trans {b = s1} (put_attempt-Evolves s i (marked_attempt attempt) (λ t e. ground arith))
      (Evolves-trans {b = s2}
        (SameCore-Evolves (record { runs = refl; attempts = refl; events = refl }))
        (apply_transition-Evolves s2 k run (lost run) RunStatus.interrupted done found here
          (kept-RunFacts refl refl refl refl refl refl) moved))

extend_log-Evolves :
    {m : Option RunStatus} (s : Store) (k attempt_id : ℕ)
    → Evolves m s (extend_log s k (interruptions k attempt_id (length (log s k) + 1)))
unfolding extend_log
extend_log-Evolves s k attempt_id = record {
  runs = λ j. RunStep-refl _ (Dict.get s.runs j);
  attempts = λ j. AttemptStep-refl (Dict.get s.attempts j);
  logs = extend_log-LogStep s k _ (omega arith, refl, (omega arith, refl, tt));
}

log_interruptions-Evolves :
    {m : Option RunStatus} (env : Env) (run run' : RuntimeRun) (attempt : RuntimeAttempt)
    (s : Store) (o : Outcome Store)
    → refreeze env s run' ≡ o
    → Evolves m s (log_interruptions run attempt s o).1
log_interruptions-Evolves env run run' attempt s (err e) p = Evolves-refl s
log_interruptions-Evolves env run run' attempt s (ok s') p =
    Evolves-trans {b = s'} (SameCore-Evolves (refreeze-SameCore env s run' p))
      (extend_log-Evolves s' run.id attempt.id)

interrupt_marked-Evolves :
    (env : Env) (s : Store) (k : ℕ) (run : RuntimeRun) (now done : ℕ)
    (o : Outcome (RuntimeAttempt × Store))
    → Dict.get s.runs k ≡ some run
    → run.id ≡ k
    → mark_interrupted s run now done ≡ o
    → Evolves (some RunStatus.interrupted) s (interrupt_marked env done s run o).1
interrupt_marked-Evolves env s k run now done (err e) found here p = Evolves-refl s
interrupt_marked-Evolves env s k run now done (ok (attempt, s')) found here p =
    Evolves-trans {b = s'} (mark_interrupted-Evolves s k run now done found here p) (
      log_interruptions-Evolves env run (transitioned (lost run) RunStatus.interrupted done) attempt
        s' _ refl)

pub interrupt_run-Evolves :
    (env : Env) (s : Store) (k : ℕ) (run : RuntimeRun) (now done : ℕ)
    → Dict.get s.runs k ≡ some run
    → run.id ≡ k
    → Evolves (some RunStatus.interrupted) s (interrupt_run env now done s run).1
unfolding interrupt_run
interrupt_run-Evolves env s k run now done found here =
    interrupt_marked-Evolves env s k run now done _ found here refl

publish-Evolves :
    {m : Option RunStatus} (s : Store) (events : List RuntimeEvent) → Evolves m s (publish s events)
unfolding publish
publish-Evolves s events = SameCore-Evolves (record { runs = refl; attempts = refl; events = refl })

module _ (env : Env) (now done : ℕ) where
  audit_turn-Evolves :
      (s : Store) (k : ℕ) (o : Option RuntimeRun)
      (rest : List RuntimeRun → List RuntimeEvent → Store → Step (List RuntimeRun))
      (interrupted : List RuntimeRun) (events : List RuntimeEvent)
      → IsKeyed s
      → Dict.get s.runs k ≡ o
      → ((xs : List RuntimeRun) (es : List RuntimeEvent) (t : Store)
          → IsKeyed t
          → Evolves (some RunStatus.interrupted) t (rest xs es t).1)
      → Evolves
          (some RunStatus.interrupted)
          s
          (audit_turn env now done s o rest interrupted events).1
  unfolding audit_turn
  audit_turn-Evolves s k none rest interrupted events keyed found later =
      later interrupted events s keyed
  audit_turn-Evolves s k (some run) rest interrupted events keyed found later =
      let here = keyed k run found in
      let marked = interrupt_run-Evolves env s k run now done found here in
      elim (Bool-cases (is_expired now run)) [
        | inl e ↦ elim (Outcome-cases (interrupt_run env now done s run).0) [
          | inl (x, p) ↦ rw (e, p) marked
          | inr (es, p) ↦
              rw (e, p) (Evolves-trans marked (later _ _ _ (Evolves-IsKeyed marked keyed)))
        ]
        | inr e ↦ rw e (later interrupted events s keyed)
      ]

  audit_loop-Evolves :
      (ks : List ℕ) (interrupted : List RuntimeRun) (events : List RuntimeEvent) (s : Store)
      → IsKeyed s
      → Evolves (some RunStatus.interrupted) s (audit_loop env now done ks interrupted events s).1
  unfolding audit_loop
  audit_loop-Evolves [] interrupted events s keyed = publish-Evolves s events
  audit_loop-Evolves (k ∷ ks) interrupted events s keyed =
      audit_turn-Evolves s k (Dict.get s.runs k) (audit_loop env now done ks) interrupted events
        keyed refl (audit_loop-Evolves ks)

  pub audit_expired_leases-Evolves :
      (s : Store)
      → IsKeyed s
      → Evolves (some RunStatus.interrupted) s (audit_expired_leases env s now done).1
  unfolding audit_expired_leases
  audit_expired_leases-Evolves s keyed = audit_loop-Evolves (Dict.keys s.runs) [] [] s keyed
