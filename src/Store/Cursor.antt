-- ===== src/Store/Cursor.antt =====
-- `commit_phase` and the cursor of its run.
use diagops.Base.{
  ℕ, ◌+◌, true, Option, none, some, List, [], ◌∷◌, ◌++◌, ◌≡◌, ◌⊎◌, refl, sym, Outcome, ok, err, inl,
  inr, arith, length, length-append, ◌==◌, ◌∙◌,
}
use mathlib.Core.Path.{subst}
use diagops.Base.Dict
use diagops.Base.Dict.{Dict, get-put}
use diagops.Domain.Event.{RuntimeEvent}
use diagops.Domain.Run.{RuntimeRun, RuntimeCheckpoint}
use diagops.Repository.Records.{Repository}
use diagops.Phases.Order.{phase_order_for, ensure_phase_precondition}
use diagops.Phases.Progress.{Follows, accepted_iff}
use diagops.Store.State.{Env, Store, log, append_events}
use diagops.Store.Commits.{next_sequence}
use diagops.Store.PhaseCommits.{
  PhaseCommit, PhaseCheck, commit_phase, check_phase, check_existing, check_fresh, commit_checked,
  phase_event, checkpoint_event, new_checkpoint,
}
use diagops.Store.Evolve.{IsKeyed}
use diagops.Store.Evolve.Logged.{check_phase-fresh, write_after-ok, write_phase-ok}
use diagops.Store.Stale.{check_phase-check_fresh, check_phase-check_existing}

-- The run moves on to the next phase, with a checkpoint and two events.
pub record Advances (s : Store) (commit : PhaseCommit) (s' : Store) : Type 0 where
  pub run : RuntimeRun
  pub found : Dict.get s.runs commit.run_id ≡ some run
  pub at_checkpoint : run.latest_checkpoint_id ≡ commit.expected_checkpoint_id
  pub follows :
      Follows run.current_phase commit.phase (phase_order_for run.execution_contract_version)
  pub cursor :
      Dict.get s'.runs commit.run_id
      ≡ some (record run {
        current_phase = some commit.phase;
        latest_checkpoint_id = some commit.checkpoint_id;
      })
  pub kept :
      (c : RuntimeCheckpoint) × (Dict.get s'.checkpoints commit.checkpoint_id ≡ some c)
      × (c.run_id ≡ commit.run_id)
      × (c.event_sequence ≡ length (log s' commit.run_id))
  pub logged :
      log s' commit.run_id
      ≡ log s commit.run_id
        ++ (phase_event commit (next_sequence s commit.run_id)
            ∷ checkpoint_event commit (next_sequence s commit.run_id + 1)
            ∷ [])

check_fresh-precondition :
    (s : Store) (run : RuntimeRun) (commit : PhaseCommit) (now : ℕ)
    → check_fresh s run commit now ≡ ok tt
    → ensure_phase_precondition run.current_phase run.latest_checkpoint_id
        commit.expected_checkpoint_id commit.expected_previous_phase commit.phase
        (phase_order_for run.execution_contract_version)
      ≡ ok tt
unfolding check_fresh
check_fresh-precondition s run commit now h = ground arith

check_existing-replayed :
    (s : Store) (r : RuntimeRun) (commit : PhaseCommit) (d p now : ℕ) (o : Option RuntimeCheckpoint)
    {c : RuntimeCheckpoint}
    → check_existing s r commit d p now o ≡ ok (PhaseCheck.replayed c)
    → o ≡ some c
check_existing-replayed s r commit d p now none h = ground arith
check_existing-replayed s r commit d p now (some existing) h = ground arith

log-append_events :
    (s : Store) (k : ℕ) (es : List RuntimeEvent) → log (append_events s k es) k ≡ log s k ++ es
unfolding log append_events
log-append_events s k es = let here : (k == k) ≡ true = ground arith in rw (get-put, here) refl

get-put_same : {V : Type 0} (d : Dict V) (k : ℕ) (v : V) → Dict.get (Dict.put d k v) k ≡ some v
get-put_same d k v = let here : (k == k) ≡ true = ground arith in rw (get-put, here) refl

-- The store that `write_phase` returns.
module _ (s : Store) (repo : Repository) (run : RuntimeRun) (commit : PhaseCommit)
    (digest projection : ℕ) (here : run.id ≡ commit.run_id) where
  abbrev both_events : ℕ → List RuntimeEvent
  both_events k =
      phase_event commit (next_sequence s k) ∷ checkpoint_event commit (next_sequence s k + 1) ∷ []

  abbrev written : Store
  written =
      let s1 = append_events (record s { repo = repo }) run.id (both_events run.id) in
      record s1 {
        checkpoints =
            Dict.put s1.checkpoints commit.checkpoint_id
              (new_checkpoint commit digest projection (next_sequence s run.id + 1));
        runs = Dict.put s1.runs commit.run_id (record run {
          current_phase = some commit.phase;
          latest_checkpoint_id = some commit.checkpoint_id;
        });
      }

  written-logged : log written commit.run_id ≡ log s commit.run_id ++ both_events commit.run_id
  unfolding log
  written-logged =
      subst (λ k. log written k ≡ log s k ++ both_events k) here
        (log-append_events (record s { repo = repo }) run.id (both_events run.id))

  written-sequence : next_sequence s run.id + 1 ≡ length (log written commit.run_id)
  written-sequence =
      let n = length-append (log s commit.run_id) (both_events commit.run_id) in
      rw (written-logged, here) (omega arith)

commit_checked-Advances :
    (env : Env) (s : Store) (commit : PhaseCommit) (now : ℕ) (o : Outcome PhaseCheck)
    {c : RuntimeCheckpoint}
    → IsKeyed s
    → check_phase env s commit now ≡ o
    → (commit_checked env s commit o).0 ≡ ok c
    → (((commit_checked env s commit o).1 ≡ s)
        × (Dict.get s.checkpoints commit.checkpoint_id ≡ some c))
      ⊎ Advances s commit (commit_checked env s commit o).1
unfolding log append_events
commit_checked-Advances env s commit now (err e) keyed p h = cc
commit_checked-Advances env s commit now (ok (PhaseCheck.replayed existing)) keyed p h =
    let (owned, _, existed) = check_phase-check_existing env s commit now p in
    let stored = check_existing-replayed s owned.0 commit _ owned.1 now _ existed in
    inl (refl, stored ∙ ground arith)
commit_checked-Advances env s commit now (ok (PhaseCheck.fresh run digest projection)) keyed p h =
    let found = check_phase-fresh env s commit now p in
    let (repo, written) = write_after-ok env s run commit digest projection _ h in
    let final =
      write_phase-ok env (record s { repo = repo }) run commit digest projection written in
    let here = keyed commit.run_id run found in
    let accepted =
      check_fresh-precondition s run commit now (check_phase-check_fresh env s commit now p) in
    let (checkpoint, _, follows) =
      (accepted_iff run.execution_contract_version run.current_phase run.latest_checkpoint_id
          commit.expected_checkpoint_id commit.expected_previous_phase commit.phase).0
        accepted in
    inr (
      rw final (record {
        run = run;
        found = found;
        at_checkpoint = sym checkpoint;
        follows = follows;
        cursor = get-put_same _ commit.run_id _;
        kept = (
          new_checkpoint commit digest projection (next_sequence s run.id + 1),
          get-put_same _ commit.checkpoint_id _,
          refl,
          written-sequence s repo run commit digest projection here,
        );
        logged = written-logged s repo run commit digest projection here;
      }))

-- A phase commit that returns, in a store that holds its runs under their ids, either replays: the
-- checkpoint is the stored one under its id, and the store does not change. Or it advances: the run
-- stood at the checkpoint that the commit expects, and now stands at the committed phase, which the
-- order of the run's version has right behind its phase before, or as its first one if it had none;
-- the checkpoint is stored; and the log has grown by the phase's event and that of the checkpoint, whose number the
-- checkpoint carries.
pub commit_phase-Advances :
    (env : Env) (s : Store) (commit : PhaseCommit) (now : ℕ) (c : RuntimeCheckpoint)
    → IsKeyed s
    → (commit_phase env s commit now).0 ≡ ok c
    → (((commit_phase env s commit now).1 ≡ s)
        × (Dict.get s.checkpoints commit.checkpoint_id ≡ some c))
      ⊎ Advances s commit (commit_phase env s commit now).1
unfolding commit_phase
commit_phase-Advances env s commit now c keyed h =
    commit_checked-Advances env s commit now (check_phase env s commit now) keyed refl h
