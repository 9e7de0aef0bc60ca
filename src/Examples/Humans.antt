-- ===== src/Examples/Humans.antt =====
-- One investigation with an action that wants an approval and a verification of it.
use diagops.Base.{
  true, false, none, some, List, [], ◌∷◌, ◌≡◌, ◌⊎◌, refl, any, keep, first, ok, is_some, is_refused,
  latest,
}
use diagops.Base.Dict
use diagops.Base.Dict.{get-put}
use diagops.Repository.Records.{
  Repository, InvestigationRecord, RecommendedAction, ActionStatus, VerificationSuggestion,
  VerificationStatus, EvidenceItem, ProviderStatus,
}
use diagops.Repository.Defs
use diagops.Human.Checks.{
  Texts, subset, validate_runtime_owner, validate_candidate_refs, replace_first,
}
use diagops.Human.Actions.{update_action_status, validate_action_transition}
use diagops.Human.Verifications.{
  VerificationResult, update_verification_status, validate_verification_transition, check_rebinding,
  check_references, check_result, valid_items, eligible_evidence, list_eq, unique, unique_from,
  is_pending, is_verdict, has_verification_id,
}
use diagops.Human.Evidence.{AllBacked}
use diagops.Human.Approval.{lacks_note, Update, apply_updates, Moved, apply_updates-Moved}
use diagops.Human.Settling.{update_verification_status-settles}
use diagops.Examples.{investigation, repository}

-- Texts are kept as they are.
abbrev texts : Texts
texts = record { strip = λ t. t; redact_text = λ t. t }

abbrev action : RecommendedAction
action = record {
  id = 31;
  status = ActionStatus.proposed;
  requires_approval = true;
  is_high_risk = true;
  note = none;
  runtime_run_id = none;
  related_candidate_ids = [];
}

abbrev item : EvidenceItem
item = record {
  id = 41;
  provider = 2;
  status = ProviderStatus.success;
  runtime_run_id = none;
  content = 0;
}

abbrev verification : VerificationSuggestion
verification = record {
  id = 51;
  status = VerificationStatus.pending;
  result_note = none;
  result_evidence_ids = [];
  related_action_ids = [];
  related_cause_types = [];
  related_candidate_ids = [];
  runtime_run_id = none;
}

abbrev reviewed : InvestigationRecord
reviewed = record investigation {
  evidence = item ∷ [];
  provider_results =
      record { provider = 2; status = ProviderStatus.success; evidence_items = item ∷ [] } ∷ [];
  actions = action ∷ [];
  verification_suggestions = verification ∷ [];
}

abbrev of_record : InvestigationRecord → Repository
of_record record_ = record repository { records = Dict.put Dict.empty 1 record_ }

abbrev updates : List Update
updates =
    record { action_id = 31; status = ActionStatus.approved; note = some 8; now = 20 }
    ∷ record { action_id = 31; status = ActionStatus.done; note = none; now = 21 }
    ∷ []

abbrev done_record : InvestigationRecord
done_record = record reviewed {
  actions = record action { status = ActionStatus.done; note = some 8 } ∷ [];
  updated_at = 21;
}

found : Dict.get (of_record reviewed).records 1 ≡ some reviewed
unfolding Dict.get Dict.put Dict.empty
found = refl

applied : apply_updates texts (of_record reviewed) 1 updates ≡ ok (of_record done_record)
unfolding apply_updates update_action_status validate_action_transition validate_runtime_owner
    validate_candidate_refs subset replace_first any first Defs.get Dict.get Dict.put Dict.empty
applied = refl

noted : any lacks_note reviewed.actions ≡ false
unfolding any
noted = refl

apply_updates-Moved_example : Moved 1 2 reviewed (of_record done_record)
apply_updates-Moved_example =
    apply_updates-Moved texts (of_record reviewed) 1 updates reviewed (of_record done_record) found
      refl noted applied

abbrev evidence_found : VerificationResult
evidence_found = record {
  result_note = some 9;
  result_evidence_ids = 41 ∷ [];
  related_action_ids = 31 ∷ [];
  related_cause_types = [];
  related_candidate_ids = none;
}

abbrev passed : VerificationSuggestion
passed = record verification {
  status = VerificationStatus.passed;
  result_note = some 9;
  result_evidence_ids = 41 ∷ [];
  related_action_ids = 31 ∷ [];
}

abbrev passed_record : InvestigationRecord
passed_record = record reviewed { verification_suggestions = passed ∷ []; updated_at = 22 }

verified :
    update_verification_status texts
      (of_record reviewed)
      1
      51
      VerificationStatus.passed
      evidence_found
      22
    ≡ ok (passed, of_record passed_record)
unfolding update_verification_status validate_verification_transition check_rebinding
    check_references check_result valid_items eligible_evidence list_eq unique unique_from
    validate_runtime_owner validate_candidate_refs subset replace_first any keep first latest
    Defs.get Dict.get Dict.put Dict.empty
verified = refl

update_verification_status-settles_example :
    (old : VerificationSuggestion) × (first
        (has_verification_id 51)
        reviewed.verification_suggestions
      ≡ some old)
    × (old.status ≡ VerificationStatus.pending)
    × (passed.status ≡ VerificationStatus.passed)
    × (is_pending VerificationStatus.passed ≡ false)
    × AllBacked reviewed passed.result_evidence_ids
    × (((is_verdict VerificationStatus.passed ≡ true)
          × (is_some passed.result_note ≡ true)
          × (list_eq passed.result_evidence_ids [] ≡ false))
        ⊎ ((is_verdict VerificationStatus.passed ≡ false)
            × (list_eq passed.result_evidence_ids [] ≡ true)))
    × (is_refused (
          update_verification_status texts
            (of_record passed_record)
            1
            51
            VerificationStatus.failed
            evidence_found
            23)
        ≡ true)
update_verification_status-settles_example =
    update_verification_status-settles texts (of_record reviewed) 1 51 VerificationStatus.passed
      evidence_found 22 reviewed passed (of_record passed_record) found refl verified
      VerificationStatus.failed evidence_found 23
