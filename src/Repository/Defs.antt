-- ===== src/Repository/Defs.antt =====
-- The operations of `InMemoryInvestigationRepository` that the runtime uses. A method that writes
-- returns the new repository.
use diagops.Base.{
  ℕ, Bool, true, false, Option, none, some, List, [], ◌∷◌, ◌&&◌, ◌||◌, not, opt_eq, is_some, any,
  Outcome, ok, err, value_error, guard, ◌>>=◌, ◌>>◌, if◌then◌else◌,
}
use diagops.Base.Dict
use diagops.Base.Dict.{Dict}
use diagops.Domain.Names.{InvestigationStatus}
use diagops.Domain.ToolCall.{ToolCallRecord}
use diagops.Repository.Records.{
  Repository, InvestigationRecord, DiagnosisPlan, DiagnosisTask, AgentExecution, AgentFinding,
  CoordinationReview, ContextFact, ReActTrace, ExecutionLayer,
}
use diagops.Repository.Owners.{
  validate_runtime_ownership, validate_plan, validate_tasks, validate_multi_agent_result,
}

abbrev pub found : Option InvestigationRecord → Outcome InvestigationRecord
found none = err value_error
found (some record_) = ok record_

unfoldable pub get : Repository → ℕ → Outcome InvestigationRecord
get repo investigation_id = found (Dict.get repo.records investigation_id)

unfoldable pub save : Repository → InvestigationRecord → Outcome Repository
save repo record_ = do
  validate_runtime_ownership record_
  ok (record repo { records = Dict.put repo.records record_.id record_ })

abbrev pub is_over : InvestigationStatus → Bool
is_over InvestigationStatus.completed = true
is_over InvestigationStatus.failed = true
is_over InvestigationStatus.cancelled = true
is_over _ = false

-- The fields that a new owner starts without: those of `activate_projection` and of
-- `BusinessMutation._projection_record`.
unfoldable pub clear_projection : InvestigationRecord → InvestigationRecord
clear_projection record_ = record record_ {
  evidence = [];
  provider_results = [];
  specialist_results = [];
  hypotheses = [];
  report = none;
  llm_analysis = none;
  multi_agent_run = none;
  actions = [];
  verification_suggestions = [];
}

-- `activate_projection`; it returns the record too, which no caller here reads.
unfoldable pub activate_projection : Repository → ℕ → ℕ → Outcome Repository
unfolding clear_projection
activate_projection repo investigation_id runtime_run_id = do
  record_ ← get repo investigation_id
  guard
      (not (
        is_some record_.active_runtime_run_id
        && (not (opt_eq record_.active_runtime_run_id (some runtime_run_id))
            && not (is_over record_.status))))
      value_error
  let cleared = clear_projection record_
  ok (record repo {
    records =
        Dict.put repo.records investigation_id
          (record cleared { active_runtime_run_id = some runtime_run_id });
    plans = Dict.pop repo.plans investigation_id;
    tasks = Dict.pop repo.tasks investigation_id;
    context_facts = Dict.pop repo.context_facts investigation_id;
    tool_calls = Dict.pop repo.tool_calls investigation_id;
    agent_findings = Dict.pop repo.agent_findings investigation_id;
    executions = Dict.pop repo.executions investigation_id;
    coordination_reviews = Dict.pop repo.coordination_reviews investigation_id;
    react_traces = Dict.pop repo.react_traces investigation_id;
  })

abbrev pub completion : InvestigationStatus → ℕ → Option ℕ → Option ℕ
completion InvestigationStatus.completed now before = some now
completion _ now before = before

-- `update_status` at the instant `now`
unfoldable pub update_status :
    Repository → ℕ → InvestigationStatus → Option ℕ → ℕ → Outcome Repository
update_status repo investigation_id status failure_reason now = do
  record_ ← get repo investigation_id
  ok (record repo {
    records = Dict.put repo.records record_.id (record record_ {
      status = status;
      failure_reason = failure_reason;
      updated_at = now;
      completed_at = completion status now record_.completed_at;
    });
  })

unfoldable pub save_plan : Repository → DiagnosisPlan → Outcome Repository
save_plan repo plan = do
  validate_plan plan.investigation_id plan
  ok (record repo {
    plans = Dict.put repo.plans plan.investigation_id plan;
    tasks = Dict.put repo.tasks plan.investigation_id plan.tasks;
  })

unfoldable pub save_tasks : Repository → ℕ → List DiagnosisTask → Outcome Repository
save_tasks repo investigation_id tasks = do
  validate_tasks tasks
  ok (record repo { tasks = Dict.put repo.tasks investigation_id tasks })

module _ {V : Type 0} where
  -- `d.setdefault(k, {})`
  abbrev pub bucket_or_empty : Option (Dict V) → Dict V
  bucket_or_empty none = Dict.empty
  bucket_or_empty (some d) = d

  unfoldable pub bucket : Dict (Dict V) → ℕ → Dict V
  bucket d k = bucket_or_empty (Dict.get d k)

  -- `for item in items: bucket[key(item)] = item`
  unfoldable pub put_all : (V → ℕ) → List V → Dict V → Dict V
  put_all key [] d = d
  put_all key (x ∷ xs) d = put_all key xs (Dict.put d (key x) x)

unfoldable pub save_context_facts : Repository → ℕ → List ContextFact → Repository
unfolding bucket put_all
save_context_facts repo investigation_id facts = record repo {
  context_facts =
      Dict.put repo.context_facts investigation_id
        (put_all (λ f. f.id) facts (bucket repo.context_facts investigation_id));
}

unfoldable pub save_tool_calls : Repository → ℕ → List ToolCallRecord → Repository
unfolding bucket put_all
save_tool_calls repo investigation_id calls = record repo {
  tool_calls =
      Dict.put repo.tool_calls investigation_id
        (put_all (λ c. c.id) calls (bucket repo.tool_calls investigation_id));
}

unfoldable pub list_tool_calls : Repository → ℕ → List ToolCallRecord
unfolding bucket
list_tool_calls repo investigation_id = Dict.values (bucket repo.tool_calls investigation_id)

abbrev pub is_sdk : ExecutionLayer → Bool
is_sdk ExecutionLayer.openai_agents_sdk = true
is_sdk ExecutionLayer.custom = false

abbrev pub review_is_sdk : Option CoordinationReview → Bool
review_is_sdk none = false
review_is_sdk (some review) = is_sdk review.execution_layer

abbrev pub replace_review :
    Dict CoordinationReview → ℕ → Option CoordinationReview → Dict CoordinationReview
replace_review reviews investigation_id (some review) = Dict.put reviews investigation_id review
replace_review reviews investigation_id none =
    if review_is_sdk (Dict.get reviews investigation_id)
    then Dict.pop reviews investigation_id
    else reviews

-- `save_multi_agent_result`
unfoldable pub save_multi_agent_result :
    Repository
    → ℕ
    → List AgentFinding
    → List AgentExecution
    → Option CoordinationReview
    → Outcome Repository
unfolding bucket put_all
save_multi_agent_result repo investigation_id findings executions review = do
  validate_multi_agent_result investigation_id findings executions review
  ok (record repo {
    agent_findings = Dict.put repo.agent_findings investigation_id (
        put_all (λ f. f.id) findings
          (Dict.filter_values (λ f. not (is_sdk f.execution_layer))
            (bucket repo.agent_findings investigation_id)));
    executions = Dict.put repo.executions investigation_id (
        put_all (λ e. e.id) executions
          (Dict.filter_values (λ e. not (is_sdk e.execution_layer))
            (bucket repo.executions investigation_id)));
    coordination_reviews = replace_review repo.coordination_reviews investigation_id review;
  })

unfoldable pub save_v11_react_trace : Repository → ReActTrace → Outcome Repository
save_v11_react_trace repo trace = do
  guard (is_some trace.runtime_run_id) value_error
  guard
      (not (
        any
          (λ step.
            not (opt_eq step.runtime_run_id trace.runtime_run_id) || is_some step.assistant_text)
          trace.steps))
      value_error
  ok (record repo { react_traces = Dict.put repo.react_traces trace.investigation_id trace })
