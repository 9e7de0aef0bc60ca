-- ===== src/Store/Stale.antt =====
-- What each fenced operation does with a lease version that is not the run's any more.
use diagops.Base.{
  is_refused, ℕ, ◌<◌, Bool, true, false, not, ◌⊎◌, Bool-cases, Option, none, some, ◌≡◌, refl,
  Outcome, ok, err, Option-cases, inl, inr, arith, ◌==◌,
}
use diagops.Base.Dict
use diagops.Base.Dict.{get-put}
use diagops.Domain.Status.{RunStatus, AttemptStatus}
use diagops.Domain.Run.{RuntimeRun, RuntimeAttempt, RuntimeCheckpoint}
use diagops.Store.State.{Env, Store, require_run}
use diagops.Store.Guards.{validate_fence}
use diagops.Store.Runs.{transition_run}
use mathlib.Core.Path.{subst}
use diagops.Store.Leases.{create_attempt, transition_attempt, renew_lease, reserve_model_turn}
use diagops.Store.Commits.{
  RuntimeEventCommand, append_event_command, ToolCommit, commit_tool, check_tool, write_tool,
}
use diagops.Store.Terminal.{RuntimeTerminalCommit, commit_terminal, check_terminal}
use diagops.Store.PhaseCommits.{
  PhaseCommit, PhaseCheck, commit_phase, commit_checked, check_phase, check_owned, check_existing,
  check_fresh,
}
use diagops.Store.Evolve.Logged.{check_phase-fresh}

-- The run has been leased since `version`.
abbrev pub IsStale : Store → ℕ → ℕ → Type 0
IsStale s run_id version =
    (r : RuntimeRun) → Dict.get s.runs run_id ≡ some r → version < r.lease_version

-- The attempt exists, and is one of another run.
abbrev pub is_of_other : ℕ → Option RuntimeAttempt → Bool
is_of_other run_id none = false
is_of_other run_id (some t) = not (t.run_id == run_id)

pub fence-stale :
    (r : RuntimeRun) (owner : Option ℕ) (version now : ℕ)
    → version < r.lease_version
    → is_refused (validate_fence r owner (some version) now) ≡ true
unfolding validate_fence
fence-stale r owner version now h = ground arith

check_fresh-fence :
    (s : Store) (run : RuntimeRun) (commit : PhaseCommit) (now : ℕ) {u : Unit {0}}
    → check_fresh s run commit now ≡ ok u
    → run.lease_version ≡ commit.lease_version
unfolding check_fresh validate_fence
check_fresh-fence s run commit now h = ground arith

check_existing-check_fresh :
    (s : Store) (r : RuntimeRun) (commit : PhaseCommit) (d p now : ℕ) (o : Option RuntimeCheckpoint)
    {run : RuntimeRun} {digest projection : ℕ}
    → check_existing s r commit d p now o ≡ ok (PhaseCheck.fresh run digest projection)
    → check_fresh s run commit now ≡ ok tt
check_existing-check_fresh s r commit d p now none h = ground arith
check_existing-check_fresh s r commit d p now (some existing) h = ground arith

pub check_phase-check_existing :
    (env : Env) (s : Store) (commit : PhaseCommit) (now : ℕ) {c : PhaseCheck}
    → check_phase env s commit now ≡ ok c
    → (owned : RuntimeRun × ℕ) × (check_owned env s commit ≡ ok owned)
      × (check_existing s owned.0 commit
            (env.checkpoint_digest commit.run_id commit.attempt_id commit.phase commit.resume_state
              commit.schema_version)
            owned.1
            now
            (Dict.get s.checkpoints commit.checkpoint_id)
          ≡ ok c)
unfolding check_phase
check_phase-check_existing env s commit now h = ground arith

pub check_phase-check_fresh :
    (env : Env) (s : Store) (commit : PhaseCommit) (now : ℕ) {run : RuntimeRun}
    {digest projection : ℕ}
    → check_phase env s commit now ≡ ok (PhaseCheck.fresh run digest projection)
    → check_fresh s run commit now ≡ ok tt
check_phase-check_fresh env s commit now h =
    let ((r, p), _, existing) = check_phase-check_existing env s commit now h in
    check_existing-check_fresh s r commit _ p now _ existing

-- Only the commit of a fresh checkpoint writes, and it checks the fence first.
pub commit_checked-stale :
    (env : Env) (s : Store) (commit : PhaseCommit) (now : ℕ)
    → IsStale s commit.run_id commit.lease_version
    → (o : Outcome PhaseCheck) → check_phase env s commit now ≡ o
    → (commit_checked env s commit o).1 ≡ s
commit_checked-stale env s commit now stale (err e) p = refl
commit_checked-stale env s commit now stale (ok (PhaseCheck.replayed existing)) p = refl
commit_checked-stale env s commit now stale (ok (PhaseCheck.fresh run digest projection)) p =
    let same_version =
      check_fresh-fence s run commit now (check_phase-check_fresh env s commit now p) in
    let old = stale run (check_phase-fresh env s commit now p) in absurd (omega arith)

write_tool-refused :
    (env : Env) (s : Store) (commit : ToolCommit) (o : Outcome (RuntimeRun × RuntimeAttempt))
    → is_refused o ≡ true
    → (is_refused (write_tool env s commit o).0 ≡ true) × ((write_tool env s commit o).1 ≡ s)
write_tool-refused env s commit (err e) h = (refl, refl)
write_tool-refused env s commit (ok checked) h = cc

module _ (env : Env) (s : Store) (run_id version now : ℕ) (stale : IsStale s run_id version) where
  pub append_event_command-stale :
      (command : RuntimeEventCommand)
      → is_refused (
          append_event_command env s
            (record command { run_id = run_id; lease_version = version })
            now)
        ≡ true
  unfolding append_event_command require_run validate_fence
  append_event_command-stale command = elim (Option-cases (Dict.get s.runs run_id)) [
    | inl e ↦ ground arith
    | inr (r, e) ↦ let old = stale r e in ground arith
  ]

  pub commit_terminal-stale :
      (commit : RuntimeTerminalCommit) (done : ℕ)
      → is_refused (
          commit_terminal env s
            (record commit { run_id = run_id; lease_version = version })
            now
            done)
        ≡ true
  unfolding commit_terminal check_terminal require_run validate_fence
  commit_terminal-stale commit done = elim (Option-cases (Dict.get s.runs run_id)) [
    | inl e ↦ ground arith
    | inr (r, e) ↦ let old = stale r e in ground arith
  ]

  pub check_tool-stale :
      (commit : ToolCommit)
      → is_refused
          (check_tool env s (record commit { run_id = run_id; lease_version = version }) now)
        ≡ true
  unfolding check_tool require_run validate_fence
  check_tool-stale commit = elim (Option-cases (Dict.get s.runs run_id)) [
    | inl e ↦ ground arith
    | inr (r, e) ↦ let old = stale r e in ground arith
  ]

  pub commit_tool-stale :
      (commit : ToolCommit)
      → let late : ToolCommit = record commit { run_id = run_id; lease_version = version } in
        (is_refused (commit_tool env s late now).0 ≡ true) × ((commit_tool env s late now).1 ≡ s)
  unfolding commit_tool
  commit_tool-stale commit =
      write_tool-refused env s (record commit { run_id = run_id; lease_version = version }) _
        (check_tool-stale commit)

  pub transition_run-stale :
      (expected target : RunStatus) (owner done : ℕ)
      → is_refused (transition_run s run_id expected target (some owner) (some version) now done)
        ≡ true
  unfolding transition_run require_run validate_fence
  transition_run-stale expected target owner done = elim (Option-cases (Dict.get s.runs run_id)) [
    | inl e ↦ ground arith
    | inr (r, e) ↦ let old = stale r e in ground arith
  ]

  pub create_attempt-stale :
      (attempt : RuntimeAttempt) (owner : ℕ)
      → is_refused (create_attempt s (record attempt { run_id = run_id }) owner version now) ≡ true
  unfolding create_attempt require_run validate_fence
  create_attempt-stale attempt owner = elim (Option-cases (Dict.get s.runs run_id)) [
    | inl e ↦ ground arith
    | inr (r, e) ↦ let old = stale r e in ground arith
  ]

  pub renew_lease-stale :
      (owner : ℕ)
      → (is_refused (renew_lease env s run_id owner version now) ≡ true)
        ⊎ (renew_lease env s run_id owner version now ≡ ok (none, s))
  unfolding renew_lease require_run
  renew_lease-stale owner = elim (Option-cases (Dict.get s.runs run_id)) [
    | inl e ↦ ground arith
    | inr (r, e) ↦ let old = stale r e in ground arith
  ]

  pub settled_of_run-stale :
      (attempt_id : ℕ) (t : RuntimeAttempt) (expected target : AttemptStatus) (owner done : ℕ)
      → Dict.get s.attempts attempt_id ≡ some t
      → t.run_id ≡ run_id
      → is_refused (transition_attempt s attempt_id expected target owner version now done) ≡ true
  unfolding transition_attempt require_run validate_fence
  settled_of_run-stale attempt_id t expected target owner done found of_run =
      elim (Option-cases (Dict.get s.runs t.run_id)) [
        | inl e ↦ ground arith
        | inr (r, e) ↦
            let old = stale r (subst (λ k. Dict.get s.runs k ≡ some r) of_run e) in ground arith
      ]

  pub transition_attempt-stale :
      (attempt_id : ℕ) (expected target : AttemptStatus) (owner done : ℕ)
      → (is_refused (transition_attempt s attempt_id expected target owner version now done) ≡ true)
        ⊎ (is_of_other run_id (Dict.get s.attempts attempt_id) ≡ true)
  unfolding transition_attempt
  transition_attempt-stale attempt_id expected target owner done =
      elim (Option-cases (Dict.get s.attempts attempt_id)) [
        | inl e ↦ inl (rw e refl)
        | inr (t, e) ↦ elim (Bool-cases (t.run_id == run_id)) [
          | inl same_run ↦
              inl (settled_of_run-stale attempt_id t expected target owner done e (ground arith))
          | inr other ↦ inr (rw (e, other) refl)
        ]
      ]

  pub reserve_model_turn-stale :
      (owner : ℕ) → is_refused (reserve_model_turn s run_id owner version now) ≡ true
  unfolding reserve_model_turn require_run validate_fence
  reserve_model_turn-stale owner = elim (Option-cases (Dict.get s.runs run_id)) [
    | inl e ↦ ground arith
    | inr (r, e) ↦ let old = stale r e in ground arith
  ]

  pub commit_phase-stale :
      (commit : PhaseCommit)
      → (commit_phase env s (record commit { run_id = run_id; lease_version = version }) now).1 ≡ s
  unfolding commit_phase
  commit_phase-stale commit =
      commit_checked-stale env s (record commit { run_id = run_id; lease_version = version }) now
        stale (check_phase env s (record commit { run_id = run_id; lease_version = version }) now)
        refl
