-- ===== src/Repository/Owners.antt =====
-- Which runs own the parts of an aggregate: the `owners` sets of backend/db/models.py and
-- backend/db/repositories.py, and the checks on them.
use diagops.Base.{
  ℕ, Bool, true, false, Option, none, some, List, [], ◌∷◌, ◌++◌, map, ◌&&◌, ◌||◌, not, ◌==◌, opt_eq,
  is_some, any, latest, same, id_or_empty, Outcome, ok, value_error, guard, ◌>>◌, if◌then◌else◌,
}
use diagops.Domain.Names.{AuthorityMode}
use diagops.Repository.Records.{
  InvestigationRecord, DiagnosisPlan, DiagnosisTask, AgentExecution, AgentFinding,
  FindingActor-discrete, CoordinationReview, CriticAssessment, FindingActor,
}

-- The run that an owner names, if it names one.
abbrev pub is_owner : ℕ → Option ℕ → Bool
is_owner a none = true
is_owner a (some b) = a == b

abbrev pub owned_by_all : ℕ → List (Option ℕ) → Bool
owned_by_all a owners = not (any (λ o. not (is_owner a o)) owners)

-- `len({o for o in owners if o is not None}) > 1`
unfoldable pub mixes_owners : List (Option ℕ) → Bool
mixes_owners [] = false
mixes_owners (none ∷ owners) = mixes_owners owners
mixes_owners (some a ∷ owners) = any (λ o. not (is_owner a o)) owners

abbrev pub is_agent : Option AuthorityMode → Bool
is_agent (some AuthorityMode.agent) = true
is_agent _ = false

-- `InvestigationRecord.validate_runtime_ownership`
module _ (record_ : InvestigationRecord) where
  open record_ use {
    evidence, report, multi_agent_run, actions, verification_suggestions, active_runtime_run_id,
  }

  abbrev pub report_is_agent : Bool
  report_is_agent = elim report [ none ↦ false | some r ↦ is_agent r.authority_mode ]

  abbrev pub summary_is_agent : Bool
  summary_is_agent = elim multi_agent_run [ none ↦ false | some m ↦ is_agent m.authority_mode ]

  abbrev pub report_owner : Option ℕ
  report_owner = elim report [ none ↦ none | some r ↦ r.runtime_run_id ]

  abbrev pub summary_owner : Option ℕ
  summary_owner = elim multi_agent_run [ none ↦ none | some m ↦ m.runtime_run_id ]

  -- `if ... multi_agent_run.runtime_run_id:` skips the empty text.
  abbrev pub summary_owner_added : Option ℕ
  summary_owner_added = if id_or_empty summary_owner == 0 then none else summary_owner

  abbrev pub item_owners : List (Option ℕ)
  item_owners =
      map (λ e. e.runtime_run_id) evidence
      ++ (map (λ a. a.runtime_run_id) actions
          ++ map (λ v. v.runtime_run_id) verification_suggestions)

  unfoldable pub record_owners : List (Option ℕ)
  record_owners = report_owner ∷ summary_owner_added ∷ active_runtime_run_id ∷ item_owners

  unfoldable pub validate_runtime_ownership : Outcome (Unit {0})
  unfolding record_owners
  validate_runtime_ownership = do
    guard (not ((report_is_agent || summary_is_agent) && any (λ o. not (is_some o)) item_owners))
        value_error
    guard (not (mixes_owners record_owners)) value_error
    guard (not (summary_is_agent && not (is_some summary_owner))) value_error

-- `_validate_plan_and_tasks` of a plan
unfoldable pub validate_plan : ℕ → DiagnosisPlan → Outcome (Unit {0})
validate_plan investigation_id plan = do
  guard (plan.investigation_id == investigation_id) value_error
  guard (not (mixes_owners (plan.runtime_run_id ∷ map (λ t. t.runtime_run_id) plan.tasks)))
      value_error

-- `_validate_plan_and_tasks` of tasks alone
unfoldable pub validate_tasks : List DiagnosisTask → Outcome (Unit {0})
validate_tasks tasks = guard (not (mixes_owners (map (λ t. t.runtime_run_id) tasks))) value_error

abbrev pub assessment_owners : List CriticAssessment → List (Option ℕ)
assessment_owners = map (λ a. a.runtime_run_id)

abbrev pub is_investigator : FindingActor → Bool
is_investigator FindingActor.investigator = true
is_investigator _ = false

abbrev pub actor_of : Option AgentFinding → FindingActor → Bool
actor_of none actor = false
actor_of (some previous) actor = same FindingActor-discrete previous.agent_name actor

-- A legacy finding of round two must revise one of the same actor.
abbrev pub revises_same_actor : List AgentFinding → AgentFinding → Bool
revises_same_actor findings finding =
    not (finding.analysis_round == 2)
    || (is_investigator finding.agent_name
        || actor_of (latest (λ f. f.id == id_or_empty finding.revises_finding_id) findings)
            finding.agent_name)

abbrev pub review_owners : Option CoordinationReview → List (Option ℕ)
review_owners none = []
review_owners (some review) = review.runtime_run_id ∷ assessment_owners review.critic_assessments

abbrev pub review_in : ℕ → Option CoordinationReview → Bool
review_in investigation_id none = true
review_in investigation_id (some review) = review.investigation_id == investigation_id

-- Under agent authority the review names a run, and everything else names the same.
abbrev pub agent_review_owns : List (Option ℕ) → Option CoordinationReview → Outcome (Unit {0})
agent_review_owns owners none = ok tt
agent_review_owns owners (some review) =
    if is_agent (some review.authority_mode)
    then (do
      guard (is_some review.runtime_run_id) value_error
      guard (not (any (λ o. not (opt_eq o review.runtime_run_id)) owners)) value_error
      guard
          (not (
            any (λ o. not (opt_eq o review.runtime_run_id))
              (assessment_owners review.critic_assessments)))
          value_error)
    else ok tt

-- `_validate_multi_agent_result`
unfoldable pub validate_multi_agent_result :
    ℕ → List AgentFinding → List AgentExecution → Option CoordinationReview → Outcome (Unit {0})
validate_multi_agent_result investigation_id findings executions review = do
  let owners = map (λ f. f.runtime_run_id) findings ++ map (λ e. e.runtime_run_id) executions
  guard (not (any (λ f. not (f.investigation_id == investigation_id)) findings)) value_error
  guard (review_in investigation_id review) value_error
  guard (not (mixes_owners (owners ++ review_owners review))) value_error
  guard (not (any (λ f. not (revises_same_actor findings f)) findings)) value_error
  agent_review_owns owners review
