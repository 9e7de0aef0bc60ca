-- ===== src/Store/Evolve/Ended.antt =====
-- `Evolves` for the operations that end or interrupt runs.
use diagops.Base.{
  ℕ, suc, Bool, Option, none, some, List, [], ◌∷◌, ◌≡◌, ◌⊎◌, refl, Outcome, Error, ok, err, arith,
  length, inl, inr,
}
use diagops.Base.Dict
use diagops.Domain.Status.{RunStatus}
use diagops.Domain.Run.{RuntimeRun, RuntimeAttempt}
use diagops.Domain.Event.{RuntimeEvent}
use diagops.Domain.Names.{InvestigationStatus, FailureCategory}
use diagops.Store.State.{Env, Store, require_run, log, append_events, apply_transition}
use diagops.Store.Guards.{require_attempt}
use diagops.Store.Runs.{
  mark_investigation, request_cancel, request_cancel_from, cancel_created, cancel_marked,
  owns_projection,
}
use diagops.Store.Commits.{
  validated, append_recovery_rejection, check_rejection, reject_checked, refreeze, rejection_event,
  next_sequence,
}
use diagops.Store.Terminal.{
  RuntimeTerminalCommit, RuntimeTerminalEvent, TerminalCheck, check_terminal, terminal_marked,
  terminal_events, terminal_event, write_terminal, commit_terminal, mark_ended,
}
use diagops.Store.Evolve.{Numbered, Evolves, EvolvesOnce, IsKeyed}
use diagops.Store.Evolve.Parts.{Evolves-refl, Evolves-trans}
use diagops.Store.Evolve.Fenced.{kept-RunFacts, put_attempt-Evolves}
use diagops.Store.Evolve.Logged.{
  SameCore, SameCore-Evolves, append_events-Evolves, apply_transition-Evolves,
  mark_investigation-SameCore,
}

terminal_events-cons :
    (env : Env) (run_id attempt_id n : ℕ) (item : RuntimeTerminalEvent)
    (items : List RuntimeTerminalEvent) {es : List RuntimeEvent}
    → terminal_events env run_id attempt_id n (item ∷ items) ≡ ok es
    → (rest : List RuntimeEvent) × (terminal_events env run_id attempt_id (suc n) items ≡ ok rest)
      × (es ≡ terminal_event run_id attempt_id (suc n) item ∷ rest)
unfolding terminal_events
terminal_events-cons env run_id attempt_id n item items h = ground arith

-- The events of a terminal commit are numbered on from the log.
terminal_events-Numbered :
    (env : Env) (run_id attempt_id n : ℕ) (items : List RuntimeTerminalEvent)
    (es : List RuntimeEvent)
    → terminal_events env run_id attempt_id n items ≡ ok es
    → Numbered run_id n es
unfolding terminal_events
terminal_events-Numbered env run_id attempt_id n [] [] h = tt
terminal_events-Numbered env run_id attempt_id n [] (e ∷ es) h = cc
terminal_events-Numbered env run_id attempt_id n (item ∷ items) es h =
    let (rest, more, final) = terminal_events-cons env run_id attempt_id n item items h in
    rw final (refl, refl, terminal_events-Numbered env run_id attempt_id (suc n) items rest more)

check_terminal-ok :
    (env : Env) (s : Store) (commit : RuntimeTerminalCommit) (now : ℕ) {c : TerminalCheck}
    → check_terminal env s commit now ≡ ok c
    → (Dict.get s.runs commit.run_id ≡ some c.run)
      × (Dict.get s.attempts commit.attempt_id ≡ some c.attempt)
      × (terminal_events env c.run.id c.attempt.id (length (log s c.run.id)) commit.events
          ≡ ok c.events)
unfolding check_terminal require_run require_attempt
check_terminal-ok env s commit now {c} h = ground arith

write_terminal-ok :
    (env : Env) (commit : RuntimeTerminalCommit) (s : Store) (c : TerminalCheck) (done : ℕ)
    {s' : Store}
    → write_terminal env commit s c done ≡ ok s'
    → (s2 : Store) × (apply_transition
          (append_events (terminal_marked commit s c done) c.run.id c.events)
          (record c.run { failure_category = commit.failure_category })
          commit.target_run_status
          done
        ≡ ok s2)
      × (s3 : Store) × (mark_ended env commit s2 c.run c.owns done ≡ ok s3)
      × SameCore s3 s'
unfolding write_terminal
write_terminal-ok env commit s c done h = ground arith

mark_ended-SameCore :
    (env : Env) (commit : RuntimeTerminalCommit) (s : Store) (run : RuntimeRun) (owns : Bool)
    (now : ℕ) {s' : Store}
    → mark_ended env commit s run owns now ≡ ok s'
    → SameCore s s'
mark_ended-SameCore env commit s run owns now h = ground arith

commit_terminal-ok :
    (env : Env) (s : Store) (commit : RuntimeTerminalCommit) (now done : ℕ) {r : RuntimeRun}
    {s' : Store}
    → commit_terminal env s commit now done ≡ ok (r, s')
    → (c : TerminalCheck) × (check_terminal env s commit now ≡ ok c)
      × (write_terminal env commit s c done ≡ ok s')
unfolding commit_terminal
commit_terminal-ok env s commit now done h = ground arith

pub commit_terminal-Evolves :
    (env : Env) (s : Store) (commit : RuntimeTerminalCommit) (now done : ℕ) {r : RuntimeRun}
    {s' : Store}
    → IsKeyed s
    → commit_terminal env s commit now done ≡ ok (r, s')
    → Evolves (some commit.target_run_status) s s'
unfolding log append_events
commit_terminal-Evolves env s commit now done {s' = s'} keyed h =
    let (c, checked, written) = commit_terminal-ok env s commit now done h in
    let (found, attempt_found, numbered) = check_terminal-ok env s commit now checked in
    let (s2, moved, s3, ended, core) = write_terminal-ok env commit s c done written in
    let failed : RuntimeAttempt = record c.attempt { failure_category = commit.failure_category } in
    let s0 : Store = record s { attempts = Dict.put s.attempts commit.attempt_id failed } in
    let s1 : Store = terminal_marked commit s c done in
    let logged : Store = append_events s1 c.run.id c.events in
    Evolves-trans {b = s0} (put_attempt-Evolves s commit.attempt_id failed (λ t e. ground arith)) (
      Evolves-trans {b = s1}
        (SameCore-Evolves (record { runs = refl; attempts = refl; events = refl }))
        (Evolves-trans {b = logged}
          (append_events-Evolves s1 c.run.id c.events
            (terminal_events-Numbered env c.run.id c.attempt.id _ commit.events c.events numbered))
          (Evolves-trans {b = s2}
            (apply_transition-Evolves logged commit.run_id c.run
              (record c.run { failure_category = commit.failure_category }) commit.target_run_status
              done found (keyed commit.run_id c.run found)
              (kept-RunFacts refl refl refl refl refl refl) moved)
            (Evolves-trans {b = s3}
              (SameCore-Evolves (mark_ended-SameCore env commit s2 c.run c.owns done ended))
              (SameCore-Evolves core)))))

pub cancel_created-ok :
    (env : Env) (s : Store) (run : RuntimeRun) (owns : Bool) (now : ℕ) {s' : Store}
    → cancel_created env s run owns now ≡ ok s'
    → (s1 : Store) × (apply_transition s
          (record (cancel_marked run now) { failure_category = some FailureCategory.cancelled })
          RunStatus.cancelled
          now
        ≡ ok s1)
      × (s2 : Store) × (mark_investigation s1 run owns InvestigationStatus.cancelled none now
          ≡ ok s2)
      × SameCore s2 s'
unfolding cancel_created
cancel_created-ok env s run owns now h = ground arith

request_cancel_from-Evolves :
    (env : Env) (s : Store) (k : ℕ) (run : RuntimeRun) (owns : Bool) (now : ℕ) (status : RunStatus)
    {s' : Store}
    → Dict.get s.runs k ≡ some run
    → run.id ≡ k
    → request_cancel_from env s run owns now status ≡ ok s'
    → EvolvesOnce s s'
unfolding request_cancel_from
request_cancel_from-Evolves env s k run owns now RunStatus.created found keyed h =
    let (s1, moved, s2, marked, core) = cancel_created-ok env s run owns now h in
    (
      RunStatus.cancelled,
      Evolves-trans {b = s1}
          (apply_transition-Evolves s k run
            (record (cancel_marked run now) { failure_category = some FailureCategory.cancelled })
            RunStatus.cancelled now found keyed (kept-RunFacts refl refl refl refl refl refl) moved)
          (Evolves-trans {b = s2}
            (SameCore-Evolves (
              mark_investigation-SameCore s1 run owns InvestigationStatus.cancelled none now
                marked))
            (SameCore-Evolves core)),
    )
request_cancel_from-Evolves env s k run owns now RunStatus.running found keyed h = (
  RunStatus.cancelling,
  apply_transition-Evolves s k run (cancel_marked run now) RunStatus.cancelling now found keyed
      (kept-RunFacts refl refl refl refl refl refl) h,
)
request_cancel_from-Evolves env s k run owns now RunStatus.cancelling {s'} found keyed h =
    let final : s' ≡ s = ground arith in rw final (RunStatus.cancelling, Evolves-refl s)
request_cancel_from-Evolves env s k run owns now _ found keyed h = cc

pub request_cancel-ok :
    (env : Env) (s : Store) (run_id now : ℕ) {r : RuntimeRun} {s' : Store}
    → request_cancel env s run_id now ≡ ok (r, s')
    → (run : RuntimeRun) × (Dict.get s.runs run_id ≡ some run)
      × (owns : Bool) × (owns_projection s run ≡ ok owns)
      × (request_cancel_from env s run owns now run.status ≡ ok s')
unfolding request_cancel require_run
request_cancel-ok env s run_id now h = ground arith

pub request_cancel-Evolves :
    (env : Env) (s : Store) (run_id now : ℕ) {r : RuntimeRun} {s' : Store}
    → IsKeyed s
    → request_cancel env s run_id now ≡ ok (r, s')
    → EvolvesOnce s s'
request_cancel-Evolves env s run_id now keyed h =
    let (run, found, owns, _, moved) = request_cancel-ok env s run_id now h in
    request_cancel_from-Evolves env s run_id run owns now run.status found (keyed run_id run found)
      moved

pub refreeze-SameCore :
    (env : Env) (s : Store) (run : RuntimeRun) {s' : Store}
    → refreeze env s run ≡ ok s'
    → SameCore s s'
refreeze-SameCore env s run h = ground arith

check_rejection-SameCore :
    (env : Env) (s : Store) (run_id attempt_id : ℕ) {s' : Store}
    → check_rejection env s run_id attempt_id ≡ ok s'
    → SameCore s s'
unfolding check_rejection
check_rejection-SameCore env s run_id attempt_id h = ground arith

validated-cases :
    (env : Env) (event : RuntimeEvent)
    → (validated env event ≡ ok event) ⊎ (validated env event ≡ err Error.value_error)
unfolding validated
validated-cases env event = ground arith

reject_appended-Evolves :
    {m : Option RunStatus} (s s' : Store) (run_id attempt_id : ℕ) (checkpoint_id : Option ℕ)
    → SameCore s s'
    → Evolves m s (
        append_events s' run_id
          (rejection_event run_id attempt_id checkpoint_id (next_sequence s run_id) ∷ []))
unfolding log
reject_appended-Evolves s s' run_id attempt_id checkpoint_id core =
    Evolves-trans {b = s'} (SameCore-Evolves core)
      (append_events-Evolves s' run_id _ (rw core.events (omega arith, refl, tt)))

-- The event, if it is built, is numbered by the log that the refreezing has not touched.
reject_checked-Evolves :
    {m : Option RunStatus} (env : Env) (s : Store) (run_id attempt_id : ℕ)
    (checkpoint_id : Option ℕ) (o : Outcome Store)
    → check_rejection env s run_id attempt_id ≡ o
    → Evolves m s (reject_checked env s run_id attempt_id checkpoint_id o).1
reject_checked-Evolves env s run_id attempt_id checkpoint_id (err e) p = Evolves-refl s
reject_checked-Evolves env s run_id attempt_id checkpoint_id (ok s') p =
    let core = check_rejection-SameCore env s run_id attempt_id p in
    let event = rejection_event run_id attempt_id checkpoint_id (next_sequence s run_id) in
    elim (validated-cases env event) [
      | inl e ↦ rw e (reject_appended-Evolves s s' run_id attempt_id checkpoint_id core)
      | inr e ↦ rw e (SameCore-Evolves core)
    ]

pub append_recovery_rejection-Evolves :
    {m : Option RunStatus} (env : Env) (s : Store) (run_id attempt_id : ℕ)
    (checkpoint_id : Option ℕ)
    → Evolves m s (append_recovery_rejection env s run_id attempt_id checkpoint_id).1
unfolding append_recovery_rejection
append_recovery_rejection-Evolves env s run_id attempt_id checkpoint_id =
    reject_checked-Evolves env s run_id attempt_id checkpoint_id
      (check_rejection env s run_id attempt_id) refl
