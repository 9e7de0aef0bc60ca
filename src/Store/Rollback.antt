-- ===== src/Store/Rollback.antt =====
-- `_restore_memory_phase` and the restoration in `commit_tool`: the store after a commit that raises.
use mathlib.Core.Path.{subst}
use diagops.Base.{
  Option, ℕ, some, List, ◌≡◌, refl, sym, ◌∙◌, Outcome, Error, ok, err, arith, ◌==◌, inl, inr,
  Bool-cases,
}
use diagops.Base.Dict
use diagops.Base.Dict.{Dict, get-put, put-same}
use diagops.Domain.Status.{RunStatus}
use diagops.Domain.Run.{RuntimeRun, RuntimeAttempt, RuntimeCheckpoint}
use diagops.Domain.Event.{RuntimeEvent}
use diagops.Repository.Records.{Repository}
use diagops.Store.State.{Env, Store, log, log_or_empty}
use diagops.Store.Commits.{
  ToolCommit, commit_tool, check_tool, write_tool, finish_tool, log_tool, tool_repository,
  tool_event, validated, next_sequence,
}
use diagops.Store.PhaseCommits.{
  PhaseCommit, PhaseCheck, commit_phase, check_phase, commit_checked, write_after, roll_back,
  restore_memory_phase,
}
use diagops.Store.Evolve.{LogStep, Evolves, IsKeyed}
use diagops.Store.Evolve.Parts.{
  AttemptStep-refl, LogStep-refl, put-RunStep, RunFacts-refl, Evolves-refl,
}
use diagops.Store.Evolve.Logged.{check_phase-fresh}

module _ (s : Store) (repo : Repository) (run : RuntimeRun)
    (found : Dict.get s.runs run.id ≡ some run) where
  -- The snapshots are of `s`; only the repository may have been written since.
  restore-exact :
      (events : List RuntimeEvent)
      → Dict.get s.events run.id ≡ some events
      → restore_memory_phase s (record s { repo = repo }) run.id run ≡ s
  unfolding restore_memory_phase log
  restore-exact events logged =
      rw (put-same s.runs run.id run found, logged, put-same s.events run.id events logged) refl

  restored_log-LogStep :
      (j : ℕ)
      → LogStep j (log s j) (log_or_empty (Dict.get (Dict.put s.events run.id (log s run.id)) j))
  unfolding log
  restored_log-LogStep j = elim (Bool-cases (run.id == j)) [
    | inl e ↦ let here : run.id ≡ j = ground arith in rw get-put (rw (e, here) (LogStep-refl j _))
    | inr e ↦ rw get-put (rw e (LogStep-refl j _))
  ]

  restore-Evolves :
      {m : Option RunStatus}
      → Evolves m s (restore_memory_phase s (record s { repo = repo }) run.id run)
  unfolding restore_memory_phase log
  restore-Evolves = record {
    runs = put-RunStep s.runs run.id run run found (RunFacts-refl run);
    attempts = λ j. AttemptStep-refl (Dict.get s.attempts j);
    logs = restored_log-LogStep;
  }

-- What the parts of a phase commit do when they raise, up to the restoration.
data Undone (s : Store) (run : RuntimeRun) (after : Store) : Type 0 where
  untouched : after ≡ s → Undone s run after
  restored :
      (repo : Repository)
      → after ≡ restore_memory_phase s (record s { repo = repo }) run.id run
      → Undone s run after

roll_back-err :
    (s : Store) (repo : Repository) (run : RuntimeRun) (o : Outcome (RuntimeCheckpoint × Store))
    {e : Error}
    → (roll_back s (record s { repo = repo }) run o).0 ≡ err e
    → Undone s run (roll_back s (record s { repo = repo }) run o).1
roll_back-err s repo run (ok (c, s')) h = cc
roll_back-err s repo run (err e) h = restored repo refl

write_after-err :
    (env : Env) (s : Store) (run : RuntimeRun) (commit : PhaseCommit) (digest projection : ℕ)
    (o : Outcome (Unit {0}) × Repository) {e : Error}
    → (write_after env s run commit digest projection o).0 ≡ err e
    → Undone s run (write_after env s run commit digest projection o).1
write_after-err env s run commit digest projection (err e, repo) h = restored repo refl
write_after-err env s run commit digest projection (ok u, repo) h = roll_back-err s repo run _ h

Undone-exact :
    {s : Store} {run : RuntimeRun} {after : Store} {events : List RuntimeEvent}
    → Dict.get s.runs run.id ≡ some run
    → Dict.get s.events run.id ≡ some events
    → Undone s run after
    → after ≡ s
Undone-exact found logged (untouched p) = p
Undone-exact {s} {run} {events = events} found logged (restored repo p) =
    p ∙ restore-exact s repo run found events logged

Undone-Evolves :
    {m : Option RunStatus} {s : Store} {run : RuntimeRun} {after : Store}
    → Dict.get s.runs run.id ≡ some run
    → Undone s run after
    → Evolves m s after
Undone-Evolves {s} found (untouched p) = rw p (Evolves-refl s)
Undone-Evolves {s} {run} found (restored repo p) = rw p (restore-Evolves s repo run found)

module _ (env : Env) (s : Store) (commit : PhaseCommit) (now : ℕ) (keyed : IsKeyed s) where
  checked_found :
      {run : RuntimeRun} {digest projection : ℕ}
      → check_phase env s commit now ≡ ok (PhaseCheck.fresh run digest projection)
      → (run.id ≡ commit.run_id) × (Dict.get s.runs run.id ≡ some run)
  checked_found {run} p =
      let found = check_phase-fresh env s commit now p in
      let here = keyed commit.run_id run found in
      (here, subst (λ j. Dict.get s.runs j ≡ some run) (sym here) found)

  commit_checked-err :
      (o : Outcome PhaseCheck) {e : Error} {events : List RuntimeEvent}
      → check_phase env s commit now ≡ o
      → Dict.get s.events commit.run_id ≡ some events
      → (commit_checked env s commit o).0 ≡ err e
      → (commit_checked env s commit o).1 ≡ s
  commit_checked-err (err e) p logged h = refl
  commit_checked-err (ok (PhaseCheck.replayed existing)) p logged h = cc
  commit_checked-err (ok (PhaseCheck.fresh run digest projection)) {events = events} p logged h =
      let (here, found) = checked_found p in
      Undone-exact {events = events} found
        (subst (λ j. Dict.get s.events j ≡ some events) (sym here) logged)
        (write_after-err env s run commit digest projection _ h)

  commit_checked-err-Evolves :
      {m : Option RunStatus} (o : Outcome PhaseCheck) {e : Error}
      → check_phase env s commit now ≡ o
      → (commit_checked env s commit o).0 ≡ err e
      → Evolves m s (commit_checked env s commit o).1
  commit_checked-err-Evolves (err e) p h = Evolves-refl s
  commit_checked-err-Evolves (ok (PhaseCheck.replayed existing)) p h = cc
  commit_checked-err-Evolves (ok (PhaseCheck.fresh run digest projection)) p h =
      Undone-Evolves (checked_found p).1 (write_after-err env s run commit digest projection _ h)

  pub commit_phase-err-Evolves :
      {m : Option RunStatus} {e : Error}
      → (commit_phase env s commit now).0 ≡ err e
      → Evolves m s (commit_phase env s commit now).1
  unfolding commit_phase
  commit_phase-err-Evolves h = commit_checked-err-Evolves (check_phase env s commit now) refl h

  -- A phase commit that raises, wherever in its transaction it does, leaves the whole store as it
  -- was, if runs are stored under their ids and the run has its log.
  pub commit_phase-err :
      (e : Error) (events : List RuntimeEvent)
      → Dict.get s.events commit.run_id ≡ some events
      → (commit_phase env s commit now).0 ≡ err e
      → (commit_phase env s commit now).1 ≡ s
  unfolding commit_phase
  commit_phase-err e events logged h =
      commit_checked-err (check_phase env s commit now) refl logged h

log_tool-err :
    (s : Store) (repo : Repository) (commit : ToolCommit) (run_id : ℕ) (o : Outcome RuntimeEvent)
    {e : Error}
    → (log_tool s (record s { repo = repo }) commit run_id o).0 ≡ err e
    → (log_tool s (record s { repo = repo }) commit run_id o).1 ≡ s
log_tool-err s repo commit run_id (err e) h = refl
log_tool-err s repo commit run_id (ok event) h = cc

finish_tool-err :
    (env : Env) (s : Store) (commit : ToolCommit) (run : RuntimeRun) (attempt : RuntimeAttempt)
    (o : Outcome (Unit {0}) × Repository) {e : Error}
    → (finish_tool env s commit run attempt o).0 ≡ err e
    → (finish_tool env s commit run attempt o).1 ≡ s
finish_tool-err env s commit run attempt (err e, repo) h = refl
finish_tool-err env s commit run attempt (ok u, repo) h =
    log_tool-err s repo commit run.id
      (validated env (tool_event commit run.id attempt.id (next_sequence s run.id))) h

write_tool-err :
    (env : Env) (s : Store) (commit : ToolCommit) (o : Outcome (RuntimeRun × RuntimeAttempt))
    {e : Error}
    → (write_tool env s commit o).0 ≡ err e
    → (write_tool env s commit o).1 ≡ s
write_tool-err env s commit (err e) h = refl
write_tool-err env s commit (ok (run, attempt)) h =
    finish_tool-err env s commit run attempt (tool_repository s commit run) h

-- A tool commit that raises, in its checks, between the writes of its mutation or after them, leaves
-- the whole store as it was.
pub commit_tool-err :
    (env : Env) (s : Store) (commit : ToolCommit) (now : ℕ) (e : Error)
    → (commit_tool env s commit now).0 ≡ err e
    → (commit_tool env s commit now).1 ≡ s
unfolding commit_tool
commit_tool-err env s commit now e h = write_tool-err env s commit (check_tool env s commit now) h
