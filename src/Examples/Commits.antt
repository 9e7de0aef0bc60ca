-- ===== src/Examples/Commits.antt =====
-- A phase commit that returns, one that raises, and a lease whose attempt is refused.
use diagops.Base.{true, none, some, [], ◌∷◌, ◌≡◌, refl, ◌⊎◌, ok, err, Error, any, keep}
use diagops.Base.Dict
use diagops.Base.Dict.{Dict, get-put, get-empty}
use diagops.Domain.Status.{
  RunStatus, RunStatus-discrete, AttemptStatus-discrete, ensure_run_transition,
}
use diagops.Domain.Names.{Phase-discrete}
use diagops.Domain.Run.{RuntimeAttempt, is_v11}
use diagops.Repository.Defs
use diagops.Repository.Defs.{list_tool_calls}
use diagops.Phases.Mutation.{apply_memory, validate_investigation_record}
use diagops.Phases.Order.{ensure_phase_precondition, expected_index, phase_order_for, get_elem?}
use diagops.Phases.Budget.{durable_tool_call_count, consumed_calls, distinct}
use diagops.Store.State.{Env, log, require_run, append_events, extend_log, publish}
use diagops.Store.Leases.{
  acquire_lease, lease_first, start_attempt, create_attempt, acquire_lease_and_create_attempt,
}
use diagops.Store.PhaseCommits.{
  commit_phase, check_phase, check_owned, check_fresh, check_budgets, write_phase,
}
use diagops.Store.Guards.{validate_fence, require_attempt, validate_v11_phase_ownership}
use diagops.Store.Commits.{validated}
use diagops.Store.Cursor.{Advances, commit_phase-Advances}
use diagops.Store.Rollback.{commit_phase-err}
use diagops.Store.Evolve.Start.{acquire_lease_and_create_attempt-err}
use diagops.Store.Evolve.{IsKeyed}
use diagops.Replay.Checkpoints.{validate_checkpoints}
use diagops.Replay.Committed.{commit_phase-validate_checkpoints}
use diagops.Examples.{
  first_attempt, ready, env, in_one, leased, running, intake_commit, intake_checkpoint,
}

running-IsKeyed : IsKeyed running
running-IsKeyed k r h = let (here, it) = in_one leased 5 k r h in rw it here

commits : (commit_phase env running intake_commit 12).0 ≡ ok intake_checkpoint
unfolding commit_phase check_phase check_owned check_fresh check_budgets durable_tool_call_count
    consumed_calls distinct list_tool_calls Defs.get require_run require_attempt validate_fence
    validate_v11_phase_ownership is_v11 apply_memory validate_investigation_record write_phase
    validated append_events extend_log publish log ensure_phase_precondition expected_index
    phase_order_for get_elem? Dict.get Dict.put Dict.empty Dict.values AttemptStatus-discrete
    RunStatus-discrete Phase-discrete any keep
commits = refl

commit_phase-Advances_example :
    (((commit_phase env running intake_commit 12).1 ≡ running)
      × (Dict.get running.checkpoints 9 ≡ some intake_checkpoint))
    ⊎ Advances running intake_commit (commit_phase env running intake_commit 12).1
commit_phase-Advances_example =
    commit_phase-Advances env running intake_commit 12 intake_checkpoint running-IsKeyed commits

unused : Dict.get running.checkpoints 9 ≡ none
unfolding Dict.get Dict.empty
unused = refl

commit_phase-validate_checkpoints_example :
    validate_checkpoints env (intake_checkpoint ∷ []) none ≡ []
commit_phase-validate_checkpoints_example =
    commit_phase-validate_checkpoints env running intake_commit 12 intake_checkpoint unused refl
      commits

-- A fault after the events of a phase commit have been logged.
abbrev faulty : Env
faulty = record env { fails = λ _. true }

commit_fails : (commit_phase faulty running intake_commit 12).0 ≡ err Error.persistence
unfolding commit_phase check_phase check_owned check_fresh check_budgets durable_tool_call_count
    consumed_calls distinct list_tool_calls Defs.get require_run require_attempt validate_fence
    validate_v11_phase_ownership is_v11 apply_memory validate_investigation_record write_phase
    validated append_events extend_log publish log ensure_phase_precondition expected_index
    phase_order_for get_elem? Dict.get Dict.put Dict.empty Dict.values AttemptStatus-discrete
    RunStatus-discrete Phase-discrete any keep
commit_fails = refl

has_log : Dict.get running.events 5 ≡ some []
unfolding Dict.get Dict.put Dict.empty
has_log = refl

commit_phase-err_example : (commit_phase faulty running intake_commit 12).1 ≡ running
commit_phase-err_example =
    commit_phase-err faulty running intake_commit 12 running-IsKeyed Error.persistence [] has_log
      commit_fails

-- The attempt's number is not the next one.
abbrev ninth_attempt : RuntimeAttempt
ninth_attempt = record first_attempt { attempt_number = 9 }

start_fails :
    (acquire_lease_and_create_attempt env ready 5 ninth_attempt 3 RunStatus.created 10 11).0
    ≡ err Error.conflict
unfolding acquire_lease_and_create_attempt lease_first acquire_lease require_run
    ensure_run_transition start_attempt create_attempt validate_fence Dict.get Dict.put Dict.empty
    Dict.values RunStatus-discrete AttemptStatus-discrete any keep
start_fails = refl

acquire_lease_and_create_attempt-err_example :
    (acquire_lease_and_create_attempt env ready 5 ninth_attempt 3 RunStatus.created 10 11).1 ≡ ready
acquire_lease_and_create_attempt-err_example =
    acquire_lease_and_create_attempt-err env ready 5 ninth_attempt 3 RunStatus.created 10 11
      Error.conflict start_fails
