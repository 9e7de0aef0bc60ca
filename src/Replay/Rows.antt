-- ===== src/Replay/Rows.antt =====
-- `_validate_attempt_rows`, and `_validate_events` as a whole.
use diagops.Base.{
  ℕ, suc, Bool, true, false, Option, none, some, List, [], ◌∷◌, ◌++◌, any, not, ◌||◌, ◌&&◌, ◌==◌,
  contains, opt_eq, is_some, same, if◌then◌else◌,
}
use diagops.Base.Dict
use diagops.Base.Dict.{Dict}
use diagops.Domain.Status.{RunStatus, AttemptStatus, AttemptStatus-discrete}
use diagops.Domain.Run.{RuntimeAttempt, RuntimeCheckpoint}
use diagops.Domain.Event.{RuntimeEvent}
use diagops.Replay.State.{
  ReplayError, ReplayError-discrete, LifecycleState, initial, flag, is_empty, is_open_tool,
}
use diagops.Replay.Lifecycle.{has_status}
use diagops.Replay.Validate.{Sources, Progress, validate_loop}

-- `terminal_status.get(id) == status`
abbrev pub ended_as : Option AttemptStatus → AttemptStatus → Bool
ended_as none status = false
ended_as (some ended) status = same AttemptStatus-discrete ended status

-- `set(xs) != set(ys)`
unfoldable pub differ : List ℕ → List ℕ → Bool
differ xs ys = any (λ x. not (contains ys x)) xs || any (λ y. not (contains xs y)) ys

abbrev pub is_own_checkpoint : ℕ → Option RuntimeCheckpoint → Bool
is_own_checkpoint attempt_id none = true
is_own_checkpoint attempt_id (some checkpoint) = checkpoint.attempt_id == attempt_id

-- The checkpoint that an attempt resumes from must be there and be another attempt's.
abbrev pub check_resume : Dict RuntimeCheckpoint → ℕ → Option ℕ → List ReplayError
check_resume checkpoints attempt_id none = []
check_resume checkpoints attempt_id (some checkpoint_id) =
    flag (is_own_checkpoint attempt_id (Dict.get checkpoints checkpoint_id))
      ReplayError.attempt_checkpoint_mismatch

abbrev pub number_of : Option (Option ℕ) → Option ℕ
number_of none = none
number_of (some number) = number

-- An attempt after the first: what its recovery event has said.
abbrev pub check_recovery :
    LifecycleState
    → Dict RuntimeCheckpoint
    → ℕ
    → RuntimeAttempt
    → Option (Option ℕ)
    → List ReplayError
check_recovery lifecycle checkpoints attempt_id attempt none =
    ReplayError.attempt_checkpoint_mismatch ∷ []
check_recovery lifecycle checkpoints attempt_id attempt (some checkpoint_id) =
    flag
      (not (opt_eq checkpoint_id attempt.resume_from_checkpoint_id)
        || not (
            opt_eq (number_of (Dict.get lifecycle.recovery_attempt_numbers attempt_id))
              (some attempt.attempt_number)))
      ReplayError.attempt_checkpoint_mismatch
    ++ check_resume checkpoints attempt_id attempt.resume_from_checkpoint_id

abbrev pub check_row :
    LifecycleState → Dict RuntimeCheckpoint → ℕ → ℕ → Option RuntimeAttempt → List ReplayError
check_row lifecycle checkpoints expected_number attempt_id none = []
check_row lifecycle checkpoints expected_number attempt_id (some attempt) =
    flag
      (not (attempt.attempt_number == expected_number)
        || not (ended_as (Dict.get lifecycle.attempt_terminal_status attempt_id) attempt.status))
      ReplayError.attempt_row_mismatch
    ++ (if expected_number == 1
        then flag
            (is_some attempt.resume_from_checkpoint_id
              || is_some (Dict.get lifecycle.recovery_checkpoint_ids attempt_id))
            ReplayError.attempt_checkpoint_mismatch
        else check_recovery lifecycle checkpoints attempt_id attempt
            (Dict.get lifecycle.recovery_checkpoint_ids attempt_id))

-- The loop over `attempt_order`, whose first attempt has number `expected_number`.
unfoldable pub check_rows :
    LifecycleState → Dict RuntimeAttempt → Dict RuntimeCheckpoint → ℕ → List ℕ → List ReplayError
check_rows lifecycle attempts checkpoints expected_number [] = []
check_rows lifecycle attempts checkpoints expected_number (attempt_id ∷ order) =
    check_row lifecycle checkpoints expected_number attempt_id (Dict.get attempts attempt_id)
    ++ check_rows lifecycle attempts checkpoints (suc expected_number) order

unfoldable pub validate_attempt_rows :
    LifecycleState → Dict RuntimeAttempt → Dict RuntimeCheckpoint → List ReplayError
unfolding differ check_rows
validate_attempt_rows lifecycle attempts checkpoints =
    flag (differ (Dict.keys attempts) lifecycle.attempt_order) ReplayError.attempt_row_mismatch
    ++ check_rows lifecycle attempts checkpoints 1 lifecycle.attempt_order

abbrev pub some_events : List RuntimeEvent → Bool
some_events [] = false
some_events (e ∷ es) = true

-- What must not be left over at the end.
unfoldable pub check_end : LifecycleState → List RuntimeEvent → RunStatus → List ReplayError
check_end lifecycle events status =
    flag (some_events events && not (has_status lifecycle status))
      ReplayError.illegal_run_transition
    ++ (flag (is_some lifecycle.open_phase) ReplayError.illegal_phase_transition
        ++ (flag (not (is_empty lifecycle.open_agents)) ReplayError.illegal_agent_transition
            ++ (flag (not (is_empty (Dict.values lifecycle.open_models)))
                  ReplayError.illegal_model_transition
                ++ (flag (any is_open_tool (Dict.values lifecycle.tool_states))
                      ReplayError.illegal_tool_transition
                    ++ flag (is_some lifecycle.recovery_attempt_id)
                        ReplayError.illegal_recovery_transition))))

-- `list(dict.fromkeys(errors))`
unfoldable pub unique_errors : List ReplayError → List ReplayError → List ReplayError
unique_errors seen [] = []
unique_errors seen (error ∷ errors) =
    let fresh = error ∷ unique_errors (error ∷ seen) errors in
    let old = unique_errors seen errors in
    if any (same ReplayError-discrete error) seen then old else fresh

abbrev pub start : Progress
start = record { seen = []; expected = 1; lifecycle = initial }

-- `_validate_events`
unfoldable pub validate_events : Sources → List RuntimeEvent → List ReplayError
unfolding validate_loop validate_attempt_rows check_end unique_errors
validate_events sources events =
    let looped = validate_loop sources start events in
    let lifecycle = looped.0.lifecycle in
    unique_errors [] (
      looped.1
      ++ (validate_attempt_rows lifecycle sources.attempts sources.checkpoints
          ++ check_end lifecycle events sources.run.status))
