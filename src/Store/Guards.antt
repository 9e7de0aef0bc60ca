-- ===== src/Store/Guards.antt =====
-- The checks that the store's operations share: the lease fence, linked runs, attempts, the
-- owners of a V11 commit and the tool budget.
use diagops.Base.{
  ℕ, Bool, true, false, Option, none, some, List, [], ◌∷◌, ◌++◌, map, ◌&&◌, not, ◌==◌, opt_eq, same,
  ltb, any, first, length, is_some, Outcome, ok, conflict, lease_lost, integrity, require, raise_as,
  guard, ◌>>=◌, ◌>>◌, if◌then◌else◌,
}
use diagops.Base.Dict
use diagops.Domain.Status.{RunStatus, AttemptStatus, AttemptStatus-discrete, is_terminal}
use diagops.Domain.Names.{Phase, RunKind}
use diagops.Domain.ToolCall.{ToolCallRecord, ToolCallStatus}
use diagops.Domain.Run.{RuntimeRun, RuntimeAttempt, is_v11}
use diagops.Repository.Records.{InvestigationRecord, DiagnosisTask}
use diagops.Repository.Defs
use diagops.Phases.Mutation.{BusinessMutation, list_or_empty}
use diagops.Phases.Budget.{consumed_calls}
use diagops.Store.State.{Env, Store, require_run, live_at}

-- `_validate_fence` at the instant `now`
abbrev pub fence_holds : RuntimeRun → Option ℕ → Option ℕ → ℕ → Bool
fence_holds run (some owner) (some version) now =
    opt_eq run.lease_owner (some owner)
    && (run.lease_version == version && live_at now run.lease_expires_at)
fence_holds run none none now = true
fence_holds run _ _ now = false

unfoldable pub validate_fence : RuntimeRun → Option ℕ → Option ℕ → ℕ → Outcome (Unit {0})
validate_fence run owner version now = guard (fence_holds run owner version now) lease_lost

abbrev pub is_live_kind : RunKind → Bool
is_live_kind RunKind.live = true
is_live_kind RunKind.replay = false

-- `_ACTIVE_LIVE_STATUSES`
abbrev pub is_active : RunStatus → Bool
is_active RunStatus.created = true
is_active RunStatus.running = true
is_active RunStatus.cancelling = true
is_active RunStatus.interrupted = true
is_active _ = false

-- `_ensure_investigation_exists`
unfoldable pub ensure_investigation_exists : Store → ℕ → Outcome InvestigationRecord
ensure_investigation_exists s investigation_id =
    raise_as integrity (Defs.get s.repo investigation_id)

-- `linked.investigation_id` is that of the run, or that of the run's source (for a parent of V11).
abbrev pub linked_investigation : Store → RuntimeRun → RuntimeRun → Bool → Outcome (Unit {0})
linked_investigation s run linked is_parent =
    if linked.investigation_id == run.investigation_id then ok tt else (do
      record_ ← Defs.get s.repo run.investigation_id
      guard
          (is_parent
            && (is_v11 run
                && opt_eq record_.source_investigation_id (some linked.investigation_id)))
          conflict)

-- `_validate_linked_run`; `is_parent` is `relation == "parent"`
unfoldable pub validate_linked_run : Store → RuntimeRun → Option ℕ → Bool → Outcome (Unit {0})
validate_linked_run s run none is_parent = ok tt
validate_linked_run s run (some linked_run_id) is_parent = do
  linked ← require_run s linked_run_id
  linked_investigation s run linked is_parent
  guard (not (is_parent && not (is_live_kind linked.run_kind && is_terminal linked.status)))
      conflict

-- The attempt of a commit: it must be there, belong to the run and have the expected status.
abbrev pub attempt_matches : ℕ → AttemptStatus → RuntimeAttempt → Bool
attempt_matches run_id status attempt =
    attempt.run_id == run_id && same AttemptStatus-discrete attempt.status status

unfoldable pub require_attempt : Store → ℕ → ℕ → AttemptStatus → Outcome RuntimeAttempt
require_attempt s attempt_id run_id status = do
  attempt ← require integrity (Dict.get s.attempts attempt_id)
  guard (attempt_matches run_id status attempt) integrity
  ok attempt

abbrev pub is_running_call : ToolCallStatus → Bool
is_running_call ToolCallStatus.running = true
is_running_call _ = false

abbrev pub is_charged_false : Option Bool → Bool
is_charged_false (some false) = true
is_charged_false _ = false

abbrev pub bool_eq : Bool → Bool → Bool
bool_eq true b = b
bool_eq false b = not b

abbrev pub opt_bool_eq : Option Bool → Option Bool → Bool
opt_bool_eq none none = true
opt_bool_eq (some a) (some b) = bool_eq a b
opt_bool_eq _ _ = false

abbrev pub find_call : List ToolCallRecord → ℕ → Option ToolCallRecord
find_call calls id = first (λ c. c.id == id) calls

abbrev pub charge_unchanged : Option ToolCallRecord → ToolCallRecord → Bool
charge_unchanged none incoming = true
charge_unchanged (some existing) incoming =
    opt_bool_eq existing.budget_charged incoming.budget_charged

-- `incoming.logical_call_id is not None and incoming.logical_call_id in consumed`
abbrev pub is_reserved : List ℕ → Option ℕ → Bool
is_reserved consumed none = false
is_reserved consumed (some key) = any (λ k. k == key) consumed

-- The budget test of a call that is about to run for the first time.
unfoldable pub reserve_tool_call :
    RuntimeRun → List ToolCallRecord → ToolCallRecord → Outcome (Unit {0})
reserve_tool_call run calls incoming = do
  budget ← require integrity run.tool_budget
  let consumed = consumed_calls run.id calls
  if is_reserved consumed incoming.logical_call_id
      then ok tt
      else guard (ltb (length consumed) budget) conflict

unfoldable pub ensure_v11_tool_budget_available :
    RuntimeRun → List ToolCallRecord → ToolCallRecord → Outcome (Unit {0})
unfolding reserve_tool_call
ensure_v11_tool_budget_available run existing_calls incoming =
    let existing = find_call existing_calls incoming.id in
    if not (is_v11 run) then ok tt else (do
      guard (charge_unchanged existing incoming) integrity
      if not (is_running_call incoming.status) then ok tt else (do
        guard (not (is_charged_false incoming.budget_charged)) integrity
        if is_some existing then ok tt else reserve_tool_call run existing_calls incoming))

-- `owner != run.id` for the values of a V11 commit and the objects nested in them.
abbrev pub task_owners : List DiagnosisTask → List (Option ℕ)
task_owners = map (λ t. t.runtime_run_id)

-- An object's own `active_runtime_run_id` is read first, then its `runtime_run_id`.
module _ (mutation : BusinessMutation) where
  abbrev pub investigation_owners : List (Option ℕ)
  investigation_owners = elim mutation.investigation [
    | none ↦ []
    | some i ↦
        i.active_runtime_run_id
        ∷ (map (λ e. e.runtime_run_id) i.evidence
            ++ (map (λ a. a.runtime_run_id) i.actions
                ++ (map (λ v. v.runtime_run_id) i.verification_suggestions
                    ++ (elim i.report [ none ↦ [] | some r ↦ r.runtime_run_id ∷ [] ]
                        ++ elim i.multi_agent_run [ none ↦ [] | some m ↦ m.runtime_run_id ∷ [] ]))))
  ]

  abbrev pub plan_owners : List (Option ℕ)
  plan_owners = elim mutation.plan [ none ↦ [] | some p ↦ p.runtime_run_id ∷ task_owners p.tasks ]

  abbrev pub review_owners : List (Option ℕ)
  review_owners = elim mutation.review [
    | none ↦ []
    | some r ↦ r.runtime_run_id ∷ map (λ a. a.runtime_run_id) r.critic_assessments
  ]

  abbrev pub trace_owners : List (Option ℕ)
  trace_owners = elim mutation.react_trace [ none ↦ [] | some t ↦ t.runtime_run_id ∷ [] ]

  abbrev pub list_owners : List (Option ℕ)
  list_owners =
      task_owners (list_or_empty mutation.tasks)
      ++ (map (λ e. e.runtime_run_id) (list_or_empty mutation.executions)
          ++ (map (λ f. f.runtime_run_id) (list_or_empty mutation.findings)
              ++ map (λ c. c.runtime_run_id) (list_or_empty mutation.tool_calls)))

  unfoldable pub owned_values : List (Option ℕ)
  owned_values =
      investigation_owners ++ (plan_owners ++ (review_owners ++ (trace_owners ++ list_owners)))

abbrev pub is_intake : Option Phase → Bool
is_intake (some Phase.intake) = true
is_intake _ = false

abbrev pub activation_owner : BusinessMutation → Option ℕ
activation_owner mutation = elim mutation.investigation [
  | none ↦ none
  | some i ↦ i.active_runtime_run_id
]

-- A previous owner must be a terminal run with a frozen view that parses.
abbrev pub previous_owner_ended : Env → Option RuntimeRun → Option ℕ → Outcome (Unit {0})
previous_owner_ended env previous_run previous_projection = do
  run ← require conflict previous_run
  guard (is_terminal run.status) conflict
  projection ← require conflict previous_projection
  guard (env.parses projection) conflict

unfoldable pub validate_v11_phase_ownership :
    Env
    → RuntimeRun
    → Option Phase
    → BusinessMutation
    → InvestigationRecord
    → Option RuntimeRun
    → Option ℕ
    → Outcome (Unit {0})
unfolding owned_values
validate_v11_phase_ownership env run phase mutation record_ previous_run previous_projection =
    if not (is_v11 run) then ok tt else (do
      if is_intake phase
          then (do
            guard mutation.activate_projection integrity
            guard (opt_eq (activation_owner mutation) (some run.id)) integrity
            if is_some record_.active_runtime_run_id
                  && not (opt_eq record_.active_runtime_run_id (some run.id))
                then previous_owner_ended env previous_run previous_projection
                else ok tt)
          else guard (opt_eq record_.active_runtime_run_id (some run.id)) integrity
      guard (not (any (λ o. not (opt_eq o (some run.id))) (owned_values mutation))) integrity)
