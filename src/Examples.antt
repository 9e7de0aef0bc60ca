-- ===== src/Examples.antt =====
-- A store with one run, on which the theorems are applied.
pub mod Histories
pub mod Commits
pub mod Rules
pub mod Turns
pub mod Replays
pub mod Hubs
pub mod Humans
pub mod Audits
pub mod Writers
use diagops.Base.{
  ℕ, Bool, true, false, Option, none, some, List, [], ◌∷◌, ◌++◌, ◌≡◌, refl, sym, ◌∙◌, ◌⊎◌, ◌≢◌, ◌≤◌,
  ◌↔◌, ok, err, Error, arith, any, keep, length, take, ◌+◌, zero, suc, inl, inr,
}
use diagops.Base.Dict
use diagops.Base.Dict.{Dict, get-put, get-empty}
use diagops.Domain.Status
use diagops.Domain.Status.Reach
use diagops.Domain.Status.{
  RunStatus, AttemptStatus, RunStatus-discrete, AttemptStatus-discrete, ensure_run_transition,
}
use diagops.Domain.Names.{
  Phase, Phase-discrete, RunKind, RunReason, ContractVersion, AuthorityMode, InvestigationStatus,
  EventType, ActorType,
}
use diagops.Domain.Run.{RuntimeRun, RuntimeAttempt, RuntimeCheckpoint, RuntimeResumeState, is_v11}
use diagops.Domain.Event.{empty_payload}
use diagops.Repository.Records.{Repository, InvestigationRecord}
use diagops.Repository.Defs
use diagops.Repository.Defs.{list_tool_calls}
use diagops.Phases.Mutation.{BusinessMutation, apply_memory, validate_investigation_record}
use diagops.Phases.Order.{ensure_phase_precondition, expected_index, phase_order_for, get_elem?}
use diagops.Phases.Budget.{durable_tool_call_count, consumed_calls, distinct}
use diagops.Store.State.{
  Env, Store, log, require_run, apply_transition, append_events, extend_log, publish,
}
use diagops.Store.Leases.{
  acquire_lease, leased_run, lease_first, start_attempt, create_attempt,
  acquire_lease_and_create_attempt,
}
use diagops.Store.PhaseCommits.{
  PhaseCommit, CommitStatus, commit_phase, check_phase, check_owned, check_fresh, check_budgets,
  write_phase,
}
use diagops.Store.Runs.{transition_run}
use diagops.Store.Guards.{validate_fence, require_attempt, validate_v11_phase_ownership}
use diagops.Store.Commits.{validated}
use diagops.Store.Cursor.{Advances, commit_phase-Advances}
use diagops.Store.Rollback.{commit_phase-err}
use diagops.Store.Evolve.Start.{acquire_lease_and_create_attempt-err}
use diagops.Store.Evolve.{Evolves, IsKeyed}
use diagops.Store.History.{Call, perform_all, perform_all-Evolves}
use diagops.Store.Uniqueness.{Activity, IsOneActive, IsTidy, act_all, act_all-IsTidy}

abbrev pub investigation : InvestigationRecord
investigation = record {
  id = 1;
  status = InvestigationStatus.running;
  evidence = [];
  provider_results = [];
  specialist_results = [];
  hypotheses = [];
  report = none;
  llm_analysis = none;
  multi_agent_run = none;
  actions = [];
  verification_suggestions = [];
  failure_reason = none;
  updated_at = 1;
  completed_at = none;
  active_runtime_run_id = none;
  source_investigation_id = none;
}

abbrev pub new_run : RuntimeRun
new_run = record {
  id = 5;
  investigation_id = 1;
  run_kind = RunKind.live;
  status = RunStatus.created;
  current_phase = none;
  source_run_id = none;
  parent_run_id = none;
  run_reason = RunReason.initial;
  tool_budget = none;
  token_budget = none;
  remaining_model_turns = none;
  latest_checkpoint_id = none;
  failure_category = none;
  created_at = 1;
  started_at = none;
  completed_at = none;
  cancel_requested_at = none;
  lease_owner = none;
  lease_expires_at = none;
  lease_version = 0;
  execution_contract_version = ContractVersion.v10_legacy;
  authority_mode = AuthorityMode.legacy_deterministic;
  execution_contract = record { execution_contract_digest = none; limits_max_turns = none };
}

abbrev pub first_attempt : RuntimeAttempt
first_attempt = record {
  id = 7;
  run_id = 5;
  attempt_number = 1;
  resume_from_checkpoint_id = none;
  status = AttemptStatus.running;
  completed_at = none;
  failure_category = none;
}

abbrev pub repository : Repository
repository = record {
  records = Dict.put Dict.empty 1 investigation;
  plans = Dict.empty;
  tasks = Dict.empty;
  executions = Dict.empty;
  context_facts = Dict.empty;
  tool_calls = Dict.empty;
  agent_findings = Dict.empty;
  coordination_reviews = Dict.empty;
  react_traces = Dict.empty;
}

abbrev pub ready : Store
ready = record {
  repo = repository;
  runs = Dict.put Dict.empty 5 new_run;
  attempts = Dict.empty;
  trace_contexts = Dict.empty;
  events = Dict.put Dict.empty 5 [];
  checkpoints = Dict.empty;
  frozen = Dict.empty;
  locators = Dict.empty;
  published = [];
}

-- No fault is injected, and every payload is accepted.
abbrev pub env : Env
env = record {
  lease_duration = 60;
  fails = λ _. false;
  freeze = λ _ i _ _. ok i;
  finalize = λ i _. ok i;
  parses = λ _. true;
  safe_failure = λ _. 1;
  checkpoint_digest = λ r a _ _ _. r;
  projection_digest = λ _ i _ _ _. ok i;
  valid_event = λ _. true;
}

pub in_one :
    (run : RuntimeRun) (id k : ℕ) (r : RuntimeRun)
    → Dict.get (Dict.put Dict.empty id run) k ≡ some r
    → (id ≡ k) × (r ≡ run)
in_one run id k r h =
    let nothing : Dict.get {V = RuntimeRun} Dict.empty k ≡ none = get-empty k in
    let got = rw get-put at h in ground arith

pub ready-IsKeyed : IsKeyed ready
ready-IsKeyed k r h = let (here, it) = in_one new_run 5 k r h in rw it here

pub ready-IsOneActive : IsOneActive ready.runs
ready-IsOneActive k j r q at_k at_j _ _ _ =
    sym (in_one new_run 5 k r at_k).0 ∙ (in_one new_run 5 j q at_j).0

abbrev pub leased : RuntimeRun
leased = leased_run env new_run 3 10

abbrev pub running : Store
running = record ready {
  runs = Dict.put Dict.empty 5 leased;
  attempts = Dict.put Dict.empty 7 first_attempt;
}

abbrev pub no_mutation : BusinessMutation
no_mutation = record {
  investigation_id = 1;
  investigation = none;
  plan = none;
  tasks = none;
  context_facts = none;
  tool_calls = none;
  findings = none;
  executions = none;
  review = none;
  react_trace = none;
  replace_multi_agent_result = false;
  activate_projection = false;
}

abbrev pub resume : RuntimeResumeState
resume = record {
  completed_evidence_ids = [];
  completed_finding_ids = [];
  completed_review_ids = [];
  completed_report_ids = [];
  remaining_tool_budget = 0;
  remaining_token_budget = none;
  remaining_model_turns = none;
  successful_tool_keys = [];
}

abbrev pub intake_commit : PhaseCommit
intake_commit = record {
  run_id = 5;
  attempt_id = 7;
  lease_owner = 3;
  lease_version = 1;
  phase = Phase.intake;
  business_mutation = no_mutation;
  safe_payload = empty_payload;
  resume_state = resume;
  status = CommitStatus.completed;
  expected_checkpoint_id = none;
  expected_previous_phase = none;
  checkpoint_id = 9;
  schema_version = 1;
}

abbrev pub intake_checkpoint : RuntimeCheckpoint
intake_checkpoint = record {
  id = 9;
  run_id = 5;
  attempt_id = 7;
  completed_phase = Phase.intake;
  event_sequence = 2;
  state_digest = 5;
  projection_digest = 1;
  resume_state = resume;
  schema_version = 1;
}
