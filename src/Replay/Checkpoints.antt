-- ===== src/Replay/Checkpoints.antt =====
-- `_validate_checkpoints`: the rows of a run's checkpoints against their digests.
use diagops.Base.{ℕ, not, Option, none, some, List, [], ◌∷◌, ◌++◌, map, ◌==◌, opt_eq, if◌then◌else◌}
use diagops.Base.Dict
use diagops.Base.Dict.{Dict}
use diagops.Domain.Run.{RuntimeCheckpoint}
use diagops.Store.State.{Env}
use diagops.Replay.State.{ReplayError, flag}
use diagops.Replay.Rows.{differ, unique_errors}

-- `projection.checkpoint_projections`, where there is a projection, by the ids of checkpoints
abbrev pub check_projection : Option (Dict ℕ) → RuntimeCheckpoint → List ReplayError
check_projection none checkpoint = []
check_projection (some projections) checkpoint =
    flag (not (opt_eq (Dict.get projections checkpoint.id) (some checkpoint.projection_digest)))
      ReplayError.checkpoint_projection_mismatch

abbrev pub expected_digest : Env → RuntimeCheckpoint → ℕ
expected_digest env checkpoint =
    env.checkpoint_digest checkpoint.run_id checkpoint.attempt_id checkpoint.completed_phase
      checkpoint.resume_state checkpoint.schema_version

abbrev pub check_checkpoint : Env → Option (Dict ℕ) → RuntimeCheckpoint → List ReplayError
check_checkpoint env projections checkpoint =
    if not (checkpoint.schema_version == 1)
    then ReplayError.unsupported_schema ∷ []
    else flag (not (expected_digest env checkpoint == checkpoint.state_digest))
        ReplayError.checkpoint_digest_mismatch
      ++ check_projection projections checkpoint

unfoldable pub check_checkpoints : Env → Option (Dict ℕ) → List RuntimeCheckpoint → List ReplayError
check_checkpoints env projections [] = []
check_checkpoints env projections (checkpoint ∷ checkpoints) =
    check_checkpoint env projections checkpoint ++ check_checkpoints env projections checkpoints

abbrev pub check_ids : Option (Dict ℕ) → List RuntimeCheckpoint → List ReplayError
check_ids none checkpoints = []
check_ids (some projections) checkpoints =
    flag (differ (Dict.keys projections) (map (λ c. c.id) checkpoints))
      ReplayError.checkpoint_projection_mismatch

unfoldable pub validate_checkpoints :
    Env → List RuntimeCheckpoint → Option (Dict ℕ) → List ReplayError
unfolding check_checkpoints differ unique_errors
validate_checkpoints env checkpoints projections =
    unique_errors []
      (check_ids projections checkpoints ++ check_checkpoints env projections checkpoints)
