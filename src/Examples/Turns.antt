-- ===== src/Examples/Turns.antt =====
-- Model turns reserved by the holder of a lease, and a cancelled run.
use diagops.Base.{ℕ, some, [], ◌∷◌, ◌≡◌, ◌≤◌, ◌-◌, refl, ok, length}
use diagops.Base.Dict
use diagops.Domain.Run.{RuntimeRun, is_v11}
use diagops.Domain.Names.{ContractVersion, FailureCategory, InvestigationStatus}
use diagops.Domain.Status.{RunStatus, ensure_run_transition}
use diagops.Repository.Defs
use diagops.Store.State.{Store, require_run, apply_transition, transitioned, end_attempts}
use diagops.Store.Runs.{
  request_cancel, owns_projection, request_cancel_from, cancel_created, freeze_for,
}
use diagops.Store.Cancelling.{cancelled_as, request_cancel-get}
use diagops.Store.Guards.{validate_fence}
use diagops.Store.Leases.{reserve_model_turn}
use diagops.Store.Turns.{reserve_all, reserve_all-bounded}
use diagops.Examples.{
  leased, running, ready, repository, investigation, new_run, env, ready-IsKeyed,
}

abbrev run_of : ℕ → RuntimeRun
run_of turns = record leased {
  execution_contract_version = ContractVersion.v11;
  remaining_model_turns = some turns;
}

abbrev store_of : ℕ → Store
store_of turns = record running { runs = Dict.put Dict.empty 5 (run_of turns) }

reserved : reserve_all (store_of 3) 5 3 1 (12 ∷ 13 ∷ []) ≡ ok (store_of 1)
unfolding reserve_all reserve_model_turn require_run validate_fence is_v11 Dict.get Dict.put
    Dict.empty
reserved = refl

found : Dict.get (store_of 3).runs 5 ≡ some (run_of 3)
unfolding Dict.get Dict.put Dict.empty
found = refl

reserve_all-bounded_example :
    (length {A = ℕ} (12 ∷ 13 ∷ []) ≤ 3)
    × (Dict.get (store_of 1).runs 5
        ≡ some (record (run_of 3) {
          remaining_model_turns = some (3 - length {A = ℕ} (12 ∷ 13 ∷ []));
        }))
reserve_all-bounded_example =
    reserve_all-bounded (store_of 3) 5 3 1 (12 ∷ 13 ∷ []) (run_of 3) 3 (store_of 1) found refl
      reserved

abbrev cancelled_run : RuntimeRun
cancelled_run = record new_run {
  status = RunStatus.cancelled;
  cancel_requested_at = some 20;
  failure_category = some FailureCategory.cancelled;
  completed_at = some 20;
}

abbrev cancelled_store : Store
cancelled_store = record ready {
  repo = record repository {
    records =
        Dict.put Dict.empty 1
          (record investigation { status = InvestigationStatus.cancelled; updated_at = 20 });
  };
  runs = Dict.put Dict.empty 5 cancelled_run;
  frozen = Dict.put Dict.empty 5 1;
}

cancels : request_cancel env ready 5 20 ≡ ok (cancelled_run, cancelled_store)
unfolding request_cancel require_run owns_projection request_cancel_from cancel_created freeze_for
    apply_transition ensure_run_transition transitioned end_attempts is_v11 Defs.get
    Defs.update_status Dict.get Dict.put Dict.empty Dict.update_values
cancels = refl

found_new : Dict.get ready.runs 5 ≡ some new_run
unfolding Dict.get Dict.put Dict.empty
found_new = refl

request_cancel-get_example :
    (Dict.get cancelled_store.runs 5 ≡ some cancelled_run)
    × (cancelled_as 20 new_run RunStatus.created ≡ some cancelled_run)
request_cancel-get_example =
    request_cancel-get env ready 5 20 new_run cancelled_run cancelled_store ready-IsKeyed found_new
      cancels
