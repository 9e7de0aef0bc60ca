-- ===== src/Store/Evolve/Logged.antt =====
-- `Evolves` for the operations that write events.
use mathlib.Core.Path.{subst}
use diagops.Base.{
  ◌⊎◌, inl, inr, Error, ℕ, ◌+◌, Bool, true, Option, some, List, [], ◌∷◌, ◌≡◌, refl, sym, Outcome,
  ok, err, arith, length,
}
use diagops.Base.Dict
use diagops.Domain.Status.{RunStatus, allowed_transitions, ensure_run_transition}
use diagops.Domain.Run.{RuntimeRun, RuntimeAttempt, RuntimeCheckpoint}
use diagops.Domain.Event.{RuntimeEvent}
use diagops.Domain.Names.{InvestigationStatus}
use diagops.Repository.Records.{Repository}
use diagops.Store.State.{
  Env, Store, require_run, log, append_events, apply_transition, transitioned, end_attempts,
  attempt_target,
}
use diagops.Store.Guards.{validate_fence, require_attempt}
use diagops.Store.Runs.{mark_investigation}
use diagops.Store.Commits.{
  RuntimeEventCommand, append_event_command, validated, next_sequence, command_event, ToolCommit,
  commit_tool, check_tool, write_tool, finish_tool, tool_event,
}
use diagops.Store.PhaseCommits.{
  PhaseCommit, write_phase, write_after, commit_phase, commit_checked, PhaseCheck, check_phase,
  check_owned, roll_back, phase_event, checkpoint_event, new_checkpoint,
}
use diagops.Store.Evolve.{RunFacts, Numbered, Evolves, IsKeyed}
use diagops.Store.Evolve.Parts.{
  Evolves-refl, Evolves-trans, put-RunStep, end_attempts-AttemptStep, LogStep-refl,
  AttemptStep-refl, RunStep-refl, RunFacts-trans, extend_log-LogStep,
}
use diagops.Store.Evolve.Fenced.{transitioned-RunFacts, kept-RunFacts}

-- Two stores with the same runs, attempts and logs.
pub record SameCore (s s' : Store) : Type 0 where
  pub runs : s'.runs ≡ s.runs
  pub attempts : s'.attempts ≡ s.attempts
  pub events : s'.events ≡ s.events

pub SameCore-Evolves : {m : Option RunStatus} {s s' : Store} → SameCore s s' → Evolves m s s'
unfolding log
SameCore-Evolves {s} {s'} h = record {
  runs = λ k. rw h.runs (RunStep-refl _ (Dict.get s.runs k));
  attempts = λ k. rw h.attempts (AttemptStep-refl (Dict.get s.attempts k));
  logs = λ k. rw h.events (LogStep-refl k (log s k));
}

pub append_events-Evolves :
    {m : Option RunStatus} (s : Store) (k : ℕ) (es : List RuntimeEvent)
    → Numbered k (length (log s k)) es
    → Evolves m s (append_events s k es)
unfolding append_events
append_events-Evolves s k es numbered = record {
  runs = λ j. RunStep-refl _ (Dict.get s.runs j);
  attempts = λ j. AttemptStep-refl (Dict.get s.attempts j);
  logs = unfold log in extend_log-LogStep s k es numbered;
}

-- `_apply_transition` of a run of which the caller has changed other fields first
pub apply_transition-Evolves :
    (s : Store) (k : ℕ) (run run' : RuntimeRun) (target : RunStatus) (now : ℕ) {s' : Store}
    → Dict.get s.runs k ≡ some run
    → run'.id ≡ k
    → RunFacts (some target) run run'
    → apply_transition s run' target now ≡ ok s'
    → Evolves (some target) s s'
unfolding apply_transition ensure_run_transition
apply_transition-Evolves s k run run' target now {s'} found keyed facts h =
    let legal : allowed_transitions run'.status target ≡ true = ground arith in
    let final : s' ≡ record s {
      runs = Dict.put s.runs run'.id (transitioned run' target now);
      attempts = end_attempts run'.id (attempt_target target) now s.attempts;
    } =
      ground arith in
    rw final (record {
      runs =
          put-RunStep s.runs run'.id run (transitioned run' target now)
            (subst (λ j. Dict.get s.runs j ≡ some run) (sym keyed) found)
            (RunFacts-trans facts (transitioned-RunFacts run' target now legal));
      attempts = end_attempts-AttemptStep run'.id (attempt_target target) now s.attempts;
      logs = unfold log in λ j. LogStep-refl j (log s j);
    })

append_event_command-ok :
    (env : Env) (s : Store) (command : RuntimeEventCommand) (now : ℕ) {e : RuntimeEvent}
    {s' : Store}
    → append_event_command env s command now ≡ ok (e, s')
    → s'
      ≡ append_events s command.run_id (command_event command (next_sequence s command.run_id) ∷ [])
unfolding append_event_command require_run validate_fence require_attempt validated
append_event_command-ok env s command now h = ground arith

pub append_event_command-Evolves :
    {m : Option RunStatus} (env : Env) (s : Store) (command : RuntimeEventCommand) (now : ℕ)
    {e : RuntimeEvent} {s' : Store}
    → append_event_command env s command now ≡ ok (e, s')
    → Evolves m s s'
append_event_command-Evolves env s command now h =
    rw (append_event_command-ok env s command now h)
      (append_events-Evolves s command.run_id _ (omega arith, refl, tt))

-- The two events and the run's cursor of a phase commit.
pub write_phase-ok :
    (env : Env) (s : Store) (run : RuntimeRun) (commit : PhaseCommit) (digest projection : ℕ)
    {c : RuntimeCheckpoint} {s' : Store}
    → write_phase env s run commit digest projection ≡ ok (c, s')
    → let n = next_sequence s run.id in
      let s1 =
        append_events s run.id (phase_event commit n ∷ checkpoint_event commit (n + 1) ∷ []) in
      s' ≡ record s1 {
        checkpoints =
            Dict.put s1.checkpoints commit.checkpoint_id
              (new_checkpoint commit digest projection (n + 1));
        runs = Dict.put s1.runs commit.run_id (record run {
          current_phase = some commit.phase;
          latest_checkpoint_id = some commit.checkpoint_id;
        });
      }
unfolding write_phase validated
write_phase-ok env s run commit digest projection h = ground arith

pub mark_investigation-SameCore :
    (s : Store) (run : RuntimeRun) (owns : Bool) (status : InvestigationStatus) (reason : Option ℕ)
    (now : ℕ) {s' : Store}
    → mark_investigation s run owns status reason now ≡ ok s'
    → SameCore s s'
mark_investigation-SameCore s run owns status reason now h = ground arith

validated-cases :
    (env : Env) (event : RuntimeEvent)
    → (validated env event ≡ ok event) ⊎ (validated env event ≡ err Error.value_error)
unfolding validated
validated-cases env event = ground arith

finish_tool-Evolves :
    {m : Option RunStatus} (env : Env) (s : Store) (commit : ToolCommit) (run : RuntimeRun)
    (attempt : RuntimeAttempt) (o : Outcome (Unit {0}) × Repository)
    → Evolves m s (finish_tool env s commit run attempt o).1
unfolding log
finish_tool-Evolves env s commit run attempt (err e, repo) = Evolves-refl s
finish_tool-Evolves env s commit run attempt (ok u, repo) =
    let event = tool_event commit run.id attempt.id (next_sequence s run.id) in
    let s1 : Store = record s { repo = repo } in
    elim (validated-cases env event) [
      | inl e ↦ rw e (
          Evolves-trans {b = s1}
            (SameCore-Evolves (record { runs = refl; attempts = refl; events = refl }))
            (append_events-Evolves s1 run.id _ (omega arith, refl, tt)))
      | inr e ↦ rw e (Evolves-refl s)
    ]

write_tool-Evolves :
    {m : Option RunStatus} (env : Env) (s : Store) (commit : ToolCommit)
    (o : Outcome (RuntimeRun × RuntimeAttempt))
    → Evolves m s (write_tool env s commit o).1
write_tool-Evolves env s commit (err e) = Evolves-refl s
write_tool-Evolves env s commit (ok (run, attempt)) = finish_tool-Evolves env s commit run attempt _

pub commit_tool-Evolves :
    {m : Option RunStatus} (env : Env) (s : Store) (commit : ToolCommit) (now : ℕ)
    → Evolves m s (commit_tool env s commit now).1
unfolding commit_tool
commit_tool-Evolves env s commit now = write_tool-Evolves env s commit (check_tool env s commit now)

write_phase-Evolves :
    {m : Option RunStatus} (env : Env) (s : Store) (run : RuntimeRun) (commit : PhaseCommit)
    (digest projection : ℕ) {c : RuntimeCheckpoint} {s' : Store}
    → Dict.get s.runs commit.run_id ≡ some run
    → commit.run_id ≡ run.id
    → write_phase env s run commit digest projection ≡ ok (c, s')
    → Evolves m s s'
unfolding append_events log
write_phase-Evolves env s run commit digest projection found keyed h =
    rw (write_phase-ok env s run commit digest projection h) (record {
      runs =
          put-RunStep s.runs commit.run_id run
            (record run {
              current_phase = some commit.phase;
              latest_checkpoint_id = some commit.checkpoint_id;
            })
            found (kept-RunFacts refl refl refl refl refl refl);
      attempts = λ j. AttemptStep-refl (Dict.get s.attempts j);
      logs = extend_log-LogStep s run.id _ (omega arith, keyed, (omega arith, keyed, tt));
    })

-- Where the checks of a phase commit end in a fresh checkpoint, the run is the stored one.
pub check_phase-fresh :
    (env : Env) (s : Store) (commit : PhaseCommit) (now : ℕ) {run : RuntimeRun}
    {digest projection : ℕ}
    → check_phase env s commit now ≡ ok (PhaseCheck.fresh run digest projection)
    → Dict.get s.runs commit.run_id ≡ some run
unfolding check_phase check_owned require_run
check_phase-fresh env s commit now h = ground arith

roll_back-ok :
    (before s : Store) (run : RuntimeRun) (o : Outcome (RuntimeCheckpoint × Store))
    {c : RuntimeCheckpoint}
    → (roll_back before s run o).0 ≡ ok c
    → o ≡ ok (c, (roll_back before s run o).1)
roll_back-ok before s run (ok (a, s')) h = ground arith
roll_back-ok before s run (err e) h = cc

pub write_after-ok :
    (env : Env) (s : Store) (run : RuntimeRun) (commit : PhaseCommit) (digest projection : ℕ)
    (o : Outcome (Unit {0}) × Repository) {c : RuntimeCheckpoint}
    → (write_after env s run commit digest projection o).0 ≡ ok c
    → (repo : Repository) × (write_phase env (record s { repo = repo }) run commit digest projection
        ≡ ok (c, (write_after env s run commit digest projection o).1))
write_after-ok env s run commit digest projection (err e, repo) h = cc
write_after-ok env s run commit digest projection (ok u, repo) h =
    (repo, roll_back-ok s (record s { repo = repo }) run _ h)

commit_checked-Evolves :
    {m : Option RunStatus} (env : Env) (s : Store) (commit : PhaseCommit) (now : ℕ)
    (o : Outcome PhaseCheck) {c : RuntimeCheckpoint}
    → IsKeyed s
    → check_phase env s commit now ≡ o
    → (commit_checked env s commit o).0 ≡ ok c
    → Evolves m s (commit_checked env s commit o).1
commit_checked-Evolves env s commit now (err e) keyed p h = cc
commit_checked-Evolves env s commit now (ok (PhaseCheck.replayed existing)) keyed p h =
    Evolves-refl s
commit_checked-Evolves env s commit now (ok (PhaseCheck.fresh run digest projection)) keyed p h =
    let found = check_phase-fresh env s commit now p in
    let (repo, written) = write_after-ok env s run commit digest projection _ h in
    let s1 : Store = record s { repo = repo } in
    Evolves-trans {b = s1}
      (SameCore-Evolves (record { runs = refl; attempts = refl; events = refl }))
      (write_phase-Evolves env s1 run commit digest projection found
        (sym (keyed commit.run_id run found)) written)

pub commit_phase-Evolves :
    {m : Option RunStatus} (env : Env) (s : Store) (commit : PhaseCommit) (now : ℕ)
    {c : RuntimeCheckpoint}
    → IsKeyed s
    → (commit_phase env s commit now).0 ≡ ok c
    → Evolves m s (commit_phase env s commit now).1
unfolding commit_phase
commit_phase-Evolves env s commit now keyed h =
    commit_checked-Evolves env s commit now (check_phase env s commit now) keyed refl h
