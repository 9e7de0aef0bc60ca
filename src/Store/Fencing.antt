-- ===== src/Store/Fencing.antt =====
-- `_validate_fence`: the holder of a lease that another holder has taken over.
use diagops.Base.{is_refused, ℕ, ◌<◌, true, ◌⊎◌, none, some, List, ◌≡◌, refl, ap, ok, arith, ◌==◌}
use diagops.Base.Dict
use diagops.Base.Dict.{get-put}
use diagops.Domain.Status.{RunStatus, AttemptStatus}
use diagops.Domain.Run.{RuntimeRun, RuntimeAttempt}
use diagops.Store.State.{Env, Store}
use diagops.Store.Runs.{transition_run}
use diagops.Store.Leases.{
  acquire_lease, create_attempt, transition_attempt, renew_lease, reserve_model_turn,
}
use diagops.Store.Commits.{RuntimeEventCommand, append_event_command, ToolCommit, commit_tool}
use diagops.Store.Terminal.{RuntimeTerminalCommit, commit_terminal}
use diagops.Store.PhaseCommits.{PhaseCommit, commit_phase}
use diagops.Store.Evolve.{IsKeyed}
use diagops.Store.Evolve.Fenced.{acquire_lease-ok, acquire_lease-Evolves}
use diagops.Store.History.{Call, perform_all, Evolves-perform_all}
use diagops.Store.Evolve.Parts.{Evolves-source, Evolves-IsKeyed}
use diagops.Store.Stale.{
  IsStale, is_of_other, append_event_command-stale, commit_terminal-stale, commit_tool-stale,
  transition_run-stale, create_attempt-stale, renew_lease-stale, transition_attempt-stale,
  reserve_model_turn-stale, commit_phase-stale,
}

acquire_lease-get :
    (env : Env) (s : Store) (run_id owner : ℕ) (expected : RunStatus) (now : ℕ)
    {leased : RuntimeRun} {s1 : Store}
    → acquire_lease env s run_id owner expected now ≡ ok (some leased, s1)
    → Dict.get s1.runs run_id ≡ some leased
acquire_lease-get env s run_id owner expected now taken =
    let (run, _, _, shape, final) = acquire_lease-ok env s run_id owner expected now taken in
    let here : (run_id == run_id) ≡ true = ground arith in rw (final, shape, get-put, here) refl

-- Once a lease has been taken, its run is stale for every lower version, whatever is called next.
acquired-IsStale :
    (env : Env) (s : Store) (run_id owner : ℕ) (expected : RunStatus) (now : ℕ)
    {leased : RuntimeRun} {s1 : Store} (calls : List Call) (version : ℕ)
    → IsKeyed s
    → acquire_lease env s run_id owner expected now ≡ ok (some leased, s1)
    → version < leased.lease_version
    → IsStale (perform_all env s1 calls) run_id version
acquired-IsStale env s run_id owner expected now {leased} {s1} calls version keyed taken lower r
      found =
    let keyed1 =
      Evolves-IsKeyed (acquire_lease-Evolves env s run_id owner expected now taken) keyed in
    let (r1, at_start, facts) =
      Evolves-source run_id (Evolves-perform_all env calls s1 keyed1) found in
    let stored = acquire_lease-get env s run_id owner expected now taken in
    let same_run : r1 ≡ leased = cc in
    let grown = facts.lease_version in
    let same_version = ap (λ q. q.lease_version) same_run in omega arith

module _ (env : Env) (s : Store) (run_id owner : ℕ) (expected : RunStatus) (now : ℕ)
    (leased : RuntimeRun) (s1 : Store) (calls : List Call) (version : ℕ) where
  -- Let a lease of a run be taken in a store that holds its runs under their ids, and let any calls
  -- follow. A holder of any lower lease version can then change nothing of the run, at any later
  -- instant and under any owner's name: its events, its terminal and tool commits, its transitions
  -- of the run, its new attempts and its model turns are refused; so is its transition of an
  -- attempt, unless the attempt is one of another run; its renewal of the lease is refused or loses,
  -- with the store unchanged; and its phase commit leaves the store as it is.
  pub acquired-fences_out :
      IsKeyed s
      → acquire_lease env s run_id owner expected now ≡ ok (some leased, s1)
      → version < leased.lease_version
      → (later done old_owner : ℕ) (source target : RunStatus) (attempt : RuntimeAttempt)
        (attempt_id : ℕ) (was to_be : AttemptStatus) (event : RuntimeEventCommand)
        (terminal : RuntimeTerminalCommit) (tool : ToolCommit) (phase : PhaseCommit)
      → (is_refused (
            append_event_command env
              (perform_all env s1 calls)
              (record event { run_id = run_id; lease_version = version })
              later)
          ≡ true)
        × (is_refused (
              commit_terminal env
                (perform_all env s1 calls)
                (record terminal { run_id = run_id; lease_version = version })
                later
                done)
            ≡ true)
        × ((is_refused
                (commit_tool env
                  (perform_all env s1 calls)
                  (record tool { run_id = run_id; lease_version = version })
                  later).0
              ≡ true)
            × ((commit_tool env
                  (perform_all env s1 calls)
                  (record tool { run_id = run_id; lease_version = version })
                  later).1
                ≡ perform_all env s1 calls))
        × (is_refused (
              transition_run
                (perform_all env s1 calls)
                run_id
                source
                target
                (some old_owner)
                (some version)
                later
                done)
            ≡ true)
        × (is_refused (reserve_model_turn (perform_all env s1 calls) run_id old_owner version later)
            ≡ true)
        × (is_refused (
              create_attempt
                (perform_all env s1 calls)
                (record attempt { run_id = run_id })
                old_owner
                version
                later)
            ≡ true)
        × ((is_refused (
                transition_attempt
                  (perform_all env s1 calls)
                  attempt_id
                  was
                  to_be
                  old_owner
                  version
                  later
                  done)
              ≡ true)
            ⊎ (is_of_other run_id (Dict.get (perform_all env s1 calls).attempts attempt_id) ≡ true))
        × ((is_refused (renew_lease env (perform_all env s1 calls) run_id old_owner version later)
              ≡ true)
            ⊎ (renew_lease env (perform_all env s1 calls) run_id old_owner version later
                ≡ ok (none, perform_all env s1 calls)))
        × ((commit_phase env
              (perform_all env s1 calls)
              (record phase { run_id = run_id; lease_version = version })
              later).1
            ≡ perform_all env s1 calls)
  acquired-fences_out keyed taken lower later done old_owner source target attempt attempt_id was
        to_be event terminal tool phase =
      let t = perform_all env s1 calls in
      let stale =
        acquired-IsStale env s run_id owner expected now calls version keyed taken lower in
      (
        append_event_command-stale env t run_id version later stale event,
        commit_terminal-stale env t run_id version later stale terminal done,
        commit_tool-stale env t run_id version later stale tool,
        transition_run-stale env t run_id version later stale source target old_owner done,
        reserve_model_turn-stale env t run_id version later stale old_owner,
        create_attempt-stale env t run_id version later stale attempt old_owner,
        transition_attempt-stale env t run_id version later stale attempt_id was to_be old_owner
            done,
        renew_lease-stale env t run_id version later stale old_owner,
        commit_phase-stale env t run_id version later stale phase,
      )
