-- ===== src/Human/Actions.antt =====
-- `validate_action_transition` and `update_action_status`.
use diagops.Base.{
  ℕ, Bool, true, false, Option, first, ◌&&◌, not, ◌==◌, is_some, Outcome, ok, value_error,
  human_conflict, require, guard, ◌>>=◌, ◌>>◌, if◌then◌else◌,
}
use diagops.Base.Dict
use diagops.Repository.Records.{Repository, InvestigationRecord, RecommendedAction, ActionStatus}
use diagops.Repository.Defs
use diagops.Human.Checks.{
  Texts, is_written, sanitized, validate_runtime_owner, validate_candidate_refs, replace_first,
}

-- `allowed`; the first argument is `requires_approval`.
abbrev pub allowed_action_transitions : Bool → ActionStatus → ActionStatus → Bool
allowed_action_transitions true ActionStatus.proposed ActionStatus.approved = true
allowed_action_transitions true ActionStatus.proposed ActionStatus.rejected = true
allowed_action_transitions true ActionStatus.proposed ActionStatus.skipped = true
allowed_action_transitions true ActionStatus.approved ActionStatus.done = true
allowed_action_transitions true ActionStatus.approved ActionStatus.skipped = true
allowed_action_transitions false ActionStatus.proposed ActionStatus.done = true
allowed_action_transitions false ActionStatus.proposed ActionStatus.rejected = true
allowed_action_transitions false ActionStatus.proposed ActionStatus.skipped = true
allowed_action_transitions _ _ _ = false

abbrev pub is_approved : ActionStatus → Bool
is_approved ActionStatus.approved = true
is_approved _ = false

abbrev pub is_done : ActionStatus → Bool
is_done ActionStatus.done = true
is_done _ = false

abbrev pub has_id : ℕ → RecommendedAction → Bool
has_id action_id item = item.id == action_id

-- The checks and the new value, for an action that has been found.
unfoldable pub move_action :
    Texts → RecommendedAction → ActionStatus → Option ℕ → Outcome RecommendedAction
move_action texts action target note = do
  guard (allowed_action_transitions action.requires_approval action.status target) human_conflict
  let sanitized_note = sanitized texts note
  guard (not (action.is_high_risk && (is_approved target && not (is_some sanitized_note))))
      human_conflict
  guard
      (not (
        action.is_high_risk
        && (is_approved action.status && (is_done target && not (is_written texts action.note)))))
      human_conflict
  ok (record action {
    status = target;
    note = if is_approved action.status then action.note else sanitized_note;
  })

unfoldable pub validate_action_transition :
    Texts → InvestigationRecord → ℕ → ActionStatus → Option ℕ → Outcome RecommendedAction
unfolding move_action
validate_action_transition texts record_ action_id target note = do
  action ← require value_error (first (has_id action_id) record_.actions)
  validate_runtime_owner record_ action.runtime_run_id
  validate_candidate_refs record_ action.related_candidate_ids
  move_action texts action target note

-- `update_action_status` at the instant `now`
unfoldable pub update_action_status :
    Texts
    → Repository
    → ℕ
    → ℕ
    → ActionStatus
    → Option ℕ
    → ℕ
    → Outcome (RecommendedAction × Repository)
unfolding validate_action_transition replace_first
update_action_status texts repo investigation_id action_id status note now = do
  record_ ← Defs.get repo investigation_id
  updated ← validate_action_transition texts record_ action_id status note
  ok (
    updated,
    record repo {
      records = Dict.put repo.records record_.id (record record_ {
        actions = replace_first (has_id action_id) updated record_.actions;
        updated_at = now;
      });
    },
  )
