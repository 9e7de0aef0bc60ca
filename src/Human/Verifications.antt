-- ===== src/Human/Verifications.antt =====
-- `validate_verification_transition` and `update_verification_status`.
use diagops.Base.{
  contains, ℕ, Bool, true, false, Option, none, some, List, [], ◌∷◌, ◌++◌, map, keep, any, first,
  latest, ◌&&◌, ◌||◌, not, ◌==◌, opt_eq, is_some, Outcome, ok, value_error, human_conflict, require,
  guard, ◌>>=◌, ◌>>◌, if◌then◌else◌,
}
use diagops.Base.Dict
use diagops.Repository.Records.{
  Repository, InvestigationRecord, VerificationSuggestion, VerificationStatus, EvidenceItem,
  ProviderResult, ProviderStatus,
}
use diagops.Repository.Defs
use diagops.Human.Checks.{
  Texts, sanitized, subset, validate_runtime_owner, validate_candidate_refs, replace_first,
}

-- `status in {SUCCESS, PARTIAL}`
abbrev pub is_usable : ProviderStatus → Bool
is_usable ProviderStatus.success = true
is_usable ProviderStatus.partial = true
is_usable _ = false

abbrev pub is_pending : VerificationStatus → Bool
is_pending VerificationStatus.pending = true
is_pending _ = false

-- `target in {PASSED, FAILED}`
abbrev pub is_verdict : VerificationStatus → Bool
is_verdict VerificationStatus.passed = true
is_verdict VerificationStatus.failed = true
is_verdict _ = false

abbrev pub opt_or {ℓ} : {A : Type ℓ} → Option A → A → A
opt_or none a = a
opt_or (some b) a = b

unfoldable pub list_eq : List ℕ → List ℕ → Bool
list_eq [] [] = true
list_eq (a ∷ as_) (b ∷ bs) = a == b && list_eq as_ bs
list_eq _ _ = false

-- `list(dict.fromkeys(xs))`: the first of equal ones stays.
unfoldable pub unique_from : List ℕ → List ℕ → List ℕ
unique_from seen [] = []
unique_from seen (a ∷ as_) =
    let fresh = a ∷ unique_from (a ∷ seen) as_ in
    let old = unique_from seen as_ in if contains seen a then old else fresh

unfoldable pub unique : List ℕ → List ℕ
unfolding unique_from
unique = unique_from []

-- `eligible_evidence.get(id)`: the last usable item of the record with the id
unfoldable pub eligible_evidence : InvestigationRecord → ℕ → Option EvidenceItem
eligible_evidence record_ id =
    latest (λ e. e.id == id) (keep (λ e. is_usable e.status) record_.evidence)

abbrev pub provided_by : ℕ → Option EvidenceItem → Bool
provided_by provider none = false
provided_by provider (some item) = item.provider == provider

-- An item of a provider's result that the record holds as usable too.
abbrev pub is_valid_item : InvestigationRecord → ProviderResult → EvidenceItem → Bool
is_valid_item record_ result item =
    is_usable item.status
    && (item.provider == result.provider
        && provided_by result.provider (eligible_evidence record_ item.id))

unfoldable pub valid_items : InvestigationRecord → List ProviderResult → List ℕ
unfolding eligible_evidence
valid_items record_ [] = []
valid_items record_ (result ∷ results) =
    let rest = valid_items record_ results in
    if is_usable result.status
    then map (λ e. e.id) (keep (is_valid_item record_ result) result.evidence_items) ++ rest
    else rest

-- The arguments of a request besides the target.
pub record VerificationResult : Type 0 where
  pub result_note : Option ℕ
  pub result_evidence_ids : List ℕ
  pub related_action_ids : List ℕ
  pub related_cause_types : List ℕ
  pub related_candidate_ids : Option (List ℕ)

-- The action that `related_actions[id]` holds: the last one with the id.
abbrev pub action_rejects : InvestigationRecord → Option ℕ → List ℕ → ℕ → Bool
action_rejects record_ owner candidate_ids action_id =
    elim (latest (λ a. a.id == action_id) record_.actions) [
      | none ↦ true
      | some action ↦
          not (opt_eq action.runtime_run_id owner)
          || not (subset action.related_candidate_ids candidate_ids)
    ]

-- A V11 verification keeps its candidates and takes no cause types.
unfoldable pub check_rebinding :
    VerificationSuggestion → Option (List ℕ) → List ℕ → Outcome (Unit {0})
unfolding list_eq
check_rebinding verification requested candidate_ids =
    guard
      (not (
        is_some verification.runtime_run_id
        && (is_some requested && not (list_eq candidate_ids verification.related_candidate_ids))))
      human_conflict

unfoldable pub check_references :
    InvestigationRecord → VerificationSuggestion → List ℕ → VerificationResult → Outcome (Unit {0})
unfolding valid_items subset
check_references record_ verification candidate_ids result = do
  guard (not (is_some verification.runtime_run_id && not (list_eq result.related_cause_types [])))
      human_conflict
  guard
      (subset result.result_evidence_ids (valid_items record_ record_.provider_results)
        && (subset result.related_action_ids (map (λ a. a.id) record_.actions)
            && subset result.related_cause_types record_.hypotheses))
      human_conflict
  guard
      (not (
        is_some verification.runtime_run_id
        && any (action_rejects record_ verification.runtime_run_id candidate_ids)
            result.related_action_ids))
      human_conflict

-- What a verdict and a skipped verification must come with.
unfoldable pub check_result :
    VerificationStatus → Option ℕ → List ℕ → VerificationResult → Outcome (Unit {0})
check_result target sanitized_note candidate_ids result =
    if is_verdict target
    then (do
      guard (is_some sanitized_note) human_conflict
      guard (not (list_eq result.result_evidence_ids [])) human_conflict
      guard
          (not (
            list_eq result.related_action_ids []
            && (list_eq result.related_cause_types [] && list_eq candidate_ids [])))
          human_conflict)
    else guard (list_eq result.result_evidence_ids []) human_conflict

abbrev pub has_verification_id : ℕ → VerificationSuggestion → Bool
has_verification_id verification_id item = item.id == verification_id

abbrev pub settled_as :
    VerificationSuggestion
    → VerificationStatus
    → Option ℕ
    → List ℕ
    → VerificationResult
    → VerificationSuggestion
settled_as verification target sanitized_note candidate_ids result = record verification {
  status = target;
  result_note = sanitized_note;
  result_evidence_ids = unique result.result_evidence_ids;
  related_action_ids = unique result.related_action_ids;
  related_cause_types = unique result.related_cause_types;
  related_candidate_ids = unique candidate_ids;
}

unfoldable pub validate_verification_transition :
    Texts
    → InvestigationRecord
    → ℕ
    → VerificationStatus
    → VerificationResult
    → Outcome VerificationSuggestion
unfolding check_rebinding check_references check_result
validate_verification_transition texts record_ verification_id target result = do
  verification ←
      require value_error
        (first (has_verification_id verification_id) record_.verification_suggestions)
  validate_runtime_owner record_ verification.runtime_run_id
  let candidate_ids = opt_or result.related_candidate_ids verification.related_candidate_ids
  check_rebinding verification result.related_candidate_ids candidate_ids
  validate_candidate_refs record_ verification.related_candidate_ids
  validate_candidate_refs record_ candidate_ids
  guard (is_pending verification.status && not (is_pending target)) human_conflict
  check_references record_ verification candidate_ids result
  check_result target (sanitized texts result.result_note) candidate_ids result
  ok (settled_as verification target (sanitized texts result.result_note) candidate_ids result)

-- `update_verification_status` at the instant `now`
unfoldable pub update_verification_status :
    Texts
    → Repository
    → ℕ
    → ℕ
    → VerificationStatus
    → VerificationResult
    → ℕ
    → Outcome (VerificationSuggestion × Repository)
unfolding validate_verification_transition replace_first
update_verification_status texts repo investigation_id verification_id status result now = do
  record_ ← Defs.get repo investigation_id
  updated ← validate_verification_transition texts record_ verification_id status result
  ok (
    updated,
    record repo {
      records = Dict.put repo.records record_.id (record record_ {
        verification_suggestions =
            replace_first (has_verification_id verification_id) updated
              record_.verification_suggestions;
        updated_at = now;
      });
    },
  )
