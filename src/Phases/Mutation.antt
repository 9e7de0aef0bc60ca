-- ===== src/Phases/Mutation.antt =====
-- `BusinessMutation`: the business objects that a phase or a tool result writes.
use native.Mathlib.Decide.{ℕ_discrete}
use diagops.Base.{
  ℕ, Bool, true, Option, none, some, List, [], ◌∷◌, ◌++◌, ◌==◌, max, first, any, same, Outcome, ok,
  err, value_error, guard, ◌>>=◌, ◌>>◌, if◌then◌else◌,
}
use diagops.Domain.ToolCall.{ToolCallRecord}
use diagops.Repository.Records.{
  Repository, InvestigationRecord, DiagnosisPlan, DiagnosisTask, AgentExecution, AgentFinding,
  CoordinationReview, ContextFact, ReActTrace, EvidenceItem, ProviderResult, ProviderStatus,
}
use diagops.Repository.Defs

pub record BusinessMutation : Type 0 where
  pub investigation_id : ℕ
  pub investigation : Option InvestigationRecord
  pub plan : Option DiagnosisPlan
  pub tasks : Option (List DiagnosisTask)
  pub context_facts : Option (List ContextFact)
  pub tool_calls : Option (List ToolCallRecord)
  pub findings : Option (List AgentFinding)
  pub executions : Option (List AgentExecution)
  pub review : Option CoordinationReview
  pub react_trace : Option ReActTrace
  pub replace_multi_agent_result : Bool
  pub activate_projection : Bool

ProviderStatus-discrete : Discrete ProviderStatus
ProviderStatus-discrete = hlevel

pub EvidenceItem-discrete : Discrete EvidenceItem
EvidenceItem-discrete = hlevel (ℕ_discrete, ProviderStatus-discrete)

pub ProviderResult-discrete : Discrete ProviderResult
ProviderResult-discrete = hlevel (ℕ_discrete, ProviderStatus-discrete, EvidenceItem-discrete)

-- `evidence[item.id] = item`, in a dictionary kept as the list of its values
unfoldable pub put_evidence : EvidenceItem → List EvidenceItem → List EvidenceItem
put_evidence item [] = item ∷ []
put_evidence item (e ∷ es) =
    let rest = put_evidence item es in if e.id == item.id then item ∷ es else e ∷ rest

abbrev pub same_content : EvidenceItem → Option EvidenceItem → Bool
same_content item none = true
same_content item (some previous) = same EvidenceItem-discrete previous item

-- The loop of `merge_tool_result` over the new evidence.
unfoldable pub merge_evidence : List EvidenceItem → List EvidenceItem → Outcome (List EvidenceItem)
merge_evidence evidence [] = ok evidence
merge_evidence evidence (item ∷ items) = do
  guard (same_content item (first (λ e. e.id == item.id) evidence)) value_error
  merge_evidence (put_evidence item evidence) items

-- `{item.model_dump_json(): item for item in results}`: equal results are kept once
unfoldable pub distinct_results : List ProviderResult → List ProviderResult → List ProviderResult
distinct_results kept [] = kept
distinct_results kept (r ∷ rs) =
    distinct_results
      (if any (λ k. same ProviderResult-discrete k r) kept then kept else kept ++ (r ∷ [])) rs

abbrev pub owns_id : ℕ → Option InvestigationRecord → Bool
owns_id investigation_id none = true
owns_id investigation_id (some record_) = record_.id == investigation_id

-- `_validate_investigation_record`
unfoldable pub validate_investigation_record : BusinessMutation → Outcome (Unit {0})
validate_investigation_record mutation =
    guard (owns_id mutation.investigation_id mutation.investigation) value_error

merge_into :
    BusinessMutation → InvestigationRecord → Option InvestigationRecord → Outcome BusinessMutation
merge_into mutation current none = ok mutation
merge_into mutation current (some own) = do
  validate_investigation_record mutation
  evidence ← merge_evidence current.evidence own.evidence
  ok (record mutation {
    investigation = some (record current {
      evidence = evidence;
      provider_results = distinct_results [] (current.provider_results ++ own.provider_results);
      updated_at = max current.updated_at own.updated_at;
    });
  })

-- `current.evidence` is first made a dictionary, which keeps the last item of each id.
unfoldable pub by_id : List EvidenceItem → List EvidenceItem → List EvidenceItem
unfolding put_evidence
by_id kept [] = kept
by_id kept (e ∷ es) = by_id (put_evidence e kept) es

unfoldable pub merge_tool_result : BusinessMutation → InvestigationRecord → Outcome BusinessMutation
unfolding merge_into by_id
merge_tool_result mutation current =
    merge_into mutation (record current { evidence = by_id [] current.evidence })
      mutation.investigation

module _ {A : Type 0} where
  -- `if item is not None: repository.save_...(item)`
  abbrev pub when_given :
      Option A → (A → Repository → Outcome Repository) → Repository → Outcome Repository
  when_given none write repo = ok repo
  when_given (some item) write repo = write item repo

abbrev pub list_or_empty {ℓ} : {A : Type ℓ} → Option (List A) → List A
list_or_empty none = []
list_or_empty (some xs) = xs

abbrev pub owner_of : Option InvestigationRecord → Outcome ℕ
owner_of none = err value_error
owner_of (some record_) = elim record_.active_runtime_run_id [
  | none ↦ err value_error
  | some o ↦ ok o
]

abbrev pub activate_first : BusinessMutation → Repository → Outcome Repository
activate_first mutation repo =
    if mutation.activate_projection
    then (do
      owner ← owner_of mutation.investigation
      Defs.activate_projection repo mutation.investigation_id owner)
    else ok repo

-- `_projection_record`
abbrev pub projection_record : BusinessMutation → InvestigationRecord → InvestigationRecord
projection_record mutation record_ =
    if mutation.activate_projection then Defs.clear_projection record_ else record_

abbrev pub replace_result : BusinessMutation → Repository → Outcome Repository
replace_result mutation repo =
    if mutation.replace_multi_agent_result
    then Defs.save_multi_agent_result repo mutation.investigation_id
        (list_or_empty mutation.findings) (list_or_empty mutation.executions) mutation.review
    else ok repo

-- A write that raises leaves the repository as the writes before it have left it.
abbrev pub written : Repository → Outcome Repository → Outcome (Unit {0}) × Repository
written repo (ok repo') = (ok tt, repo')
written repo (err e) = (err e, repo)

abbrev pub then_write :
    (Repository → Outcome Repository)
    → Outcome (Unit {0}) × Repository
    → Outcome (Unit {0}) × Repository
then_write f (ok u, repo) = written repo (f repo)
then_write f (err e, repo) = (err e, repo)

-- The checks before the first write
abbrev pub admits : BusinessMutation → Repository → Outcome Repository
admits mutation repo = do
  validate_investigation_record mutation
  _ ← Defs.get repo mutation.investigation_id
  ok repo

-- `apply_memory`, with the repository that it leaves whether it returns or raises
unfoldable pub apply_memory : BusinessMutation → Repository → Outcome (Unit {0}) × Repository
apply_memory mutation repo =
    let investigation_id = mutation.investigation_id in
    let m0 = then_write (admits mutation) (ok tt, repo) in
    let m1 = then_write (activate_first mutation) m0 in
    let m2 =
      then_write
        (when_given mutation.investigation (λ i r. Defs.save r (projection_record mutation i)))
        m1 in
    let m3 = then_write (when_given mutation.plan (λ p r. Defs.save_plan r p)) m2 in
    let m4 =
      then_write (when_given mutation.tasks (λ ts r. Defs.save_tasks r investigation_id ts)) m3 in
    let m5 =
      then_write
        (when_given mutation.context_facts
          (λ fs r. ok (Defs.save_context_facts r investigation_id fs)))
        m4 in
    let m6 =
      then_write (when_given mutation.react_trace (λ t r. Defs.save_v11_react_trace r t)) m5 in
    let m7 =
      then_write
        (when_given mutation.tool_calls (λ cs r. ok (Defs.save_tool_calls r investigation_id cs)))
        m6 in
    then_write (replace_result mutation) m7
