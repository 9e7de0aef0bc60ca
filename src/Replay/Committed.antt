-- ===== src/Replay/Committed.antt =====
-- A checkpoint that the store has committed, before the checks of a replay.
use diagops.Base.{
  ℕ, ◌+◌, true, none, some, Option, [], ◌∷◌, ◌≡◌, refl, sym, ok, err, Outcome, ◌==◌, arith,
}
use diagops.Base.Dict
use diagops.Domain.Run.{RuntimeRun, RuntimeCheckpoint}
use diagops.Repository.Records.{Repository}
use diagops.Store.State.{Env, Store}
use diagops.Store.Commits.{next_sequence}
use diagops.Store.PhaseCommits.{
  PhaseCommit, PhaseCheck, commit_phase, check_phase, check_existing, commit_checked, write_after,
  roll_back, write_phase, new_checkpoint,
}
use diagops.Store.Stale.{check_phase-check_existing}
use diagops.Replay.Rows.{unique_errors}
use diagops.Replay.Checkpoints.{expected_digest, validate_checkpoints, check_checkpoints}

check_existing-digest :
    (s : Store) (r run : RuntimeRun) (commit : PhaseCommit) (d p now digest projection : ℕ)
    (o : Option RuntimeCheckpoint)
    → check_existing s r commit d p now o ≡ ok (PhaseCheck.fresh run digest projection)
    → digest ≡ d
check_existing-digest s r run commit d p now digest projection none h = ground arith
check_existing-digest s r run commit d p now digest projection (some c) h = ground arith

write_phase-checkpoint :
    (env : Env) (s : Store) (run : RuntimeRun) (commit : PhaseCommit) (digest projection : ℕ)
    {c : RuntimeCheckpoint} {s' : Store}
    → write_phase env s run commit digest projection ≡ ok (c, s')
    → (n : ℕ) × (c ≡ new_checkpoint commit digest projection n)
unfolding write_phase
write_phase-checkpoint env s run commit digest projection h =
    (next_sequence s run.id + 1, ground arith)

roll_back-checkpoint :
    (s t : Store) (run : RuntimeRun) (o : Outcome (RuntimeCheckpoint × Store))
    {c : RuntimeCheckpoint}
    → (roll_back s t run o).0 ≡ ok c
    → (s' : Store) × (o ≡ ok (c, s'))
roll_back-checkpoint s t run (ok (c, s')) h = (s', ground arith)
roll_back-checkpoint s t run (err e) h = cc

write_after-checkpoint :
    (env : Env) (s : Store) (run : RuntimeRun) (commit : PhaseCommit) (digest projection : ℕ)
    (o : Outcome (Unit {0}) × Repository) {c : RuntimeCheckpoint}
    → (write_after env s run commit digest projection o).0 ≡ ok c
    → (n : ℕ) × (c ≡ new_checkpoint commit digest projection n)
write_after-checkpoint env s run commit digest projection (err e, repo) h = cc
write_after-checkpoint env s run commit digest projection (ok u, repo) h =
    let (s', written) = roll_back-checkpoint s (record s { repo = repo }) run _ h in
    write_phase-checkpoint env (record s { repo = repo }) run commit digest projection written

check_existing-none :
    (s : Store) (r : RuntimeRun) (commit : PhaseCommit) (d p now : ℕ) (o : Option RuntimeCheckpoint)
    {c : RuntimeCheckpoint}
    → o ≡ none
    → check_existing s r commit d p now o ≡ ok (PhaseCheck.replayed c)
    → ⊥
check_existing-none s r commit d p now none new h = ground arith
check_existing-none s r commit d p now (some c) new h = cc

commit_checked-digest :
    (env : Env) (s : Store) (commit : PhaseCommit) (now : ℕ) (o : Outcome PhaseCheck)
    {c : RuntimeCheckpoint}
    → Dict.get s.checkpoints commit.checkpoint_id ≡ none
    → check_phase env s commit now ≡ o
    → (commit_checked env s commit o).0 ≡ ok c
    → (expected_digest env c ≡ c.state_digest) × (c.schema_version ≡ commit.schema_version)
commit_checked-digest env s commit now (err e) new p h = cc
commit_checked-digest env s commit now (ok (PhaseCheck.replayed existing)) new p h =
    let (owned, _, existed) = check_phase-check_existing env s commit now p in
    absurd (check_existing-none s owned.0 commit _ owned.1 now _ new existed)
commit_checked-digest env s commit now (ok (PhaseCheck.fresh run digest projection)) new p h =
    let (owned, _, existed) = check_phase-check_existing env s commit now p in
    let made =
      check_existing-digest s owned.0 run commit _ owned.1 now digest projection _ existed in
    let (n, c_is) = write_after-checkpoint env s run commit digest projection _ h in
    rw c_is (sym made, refl)

-- The checkpoint that a phase commit of schema version 1 returns, where its id was not in use,
-- passes the checks that a replay without a frozen projection makes of a checkpoint.
pub commit_phase-validate_checkpoints :
    (env : Env) (s : Store) (commit : PhaseCommit) (now : ℕ) (c : RuntimeCheckpoint)
    → Dict.get s.checkpoints commit.checkpoint_id ≡ none
    → commit.schema_version ≡ 1
    → (commit_phase env s commit now).0 ≡ ok c
    → validate_checkpoints env (c ∷ []) none ≡ []
unfolding commit_phase validate_checkpoints check_checkpoints unique_errors
commit_phase-validate_checkpoints env s commit now c new version h =
    let (digest, schema) = commit_checked-digest env s commit now _ new refl h in
    let known : (c.schema_version == 1) ≡ true = ground arith in
    let same_digest : (expected_digest env c == c.state_digest) ≡ true = ground arith in
    rw (known, same_digest) refl
