-- ===== src/Human/Approval.antt =====
-- Sequences of `update_action_status`: notes of approval, and how long a sequence can be.
use diagops.Base.{
  ℕ, suc, ◌+◌, ◌≤◌, Bool, true, false, Option, some, List, [], ◌∷◌, ◌≡◌, refl, sym, any, first,
  length, ◌&&◌, ◌||◌, not, ◌==◌, is_some, Outcome, ok, ◌>>=◌, arith,
}
use diagops.Base.Dict
use diagops.Base.Dict.{get-put}
use diagops.Repository.Records.{Repository, InvestigationRecord, RecommendedAction, ActionStatus}
use diagops.Repository.Defs
use diagops.Human.Checks.{Texts, replace_first}
use diagops.Human.Actions.{
  is_approved, is_done, has_id, move_action, validate_action_transition, update_action_status,
}

-- A high-risk action that is approved, or done though it asks for approval, has no note.
abbrev pub lacks_note : RecommendedAction → Bool
lacks_note action =
    action.is_high_risk
    && ((is_approved action.status || (is_done action.status && action.requires_approval))
        && not (is_some action.note))

-- How many times an action can still be moved.
abbrev pub moves_left : ActionStatus → ℕ
moves_left ActionStatus.proposed = 2
moves_left ActionStatus.approved = 1
moves_left _ = 0

unfoldable pub total_left : List RecommendedAction → ℕ
total_left [] = 0
total_left (a ∷ actions) = moves_left a.status + total_left actions

move_action-ok :
    (texts : Texts) (action updated : RecommendedAction) (target : ActionStatus) (text : Option ℕ)
    → move_action texts action target text ≡ ok updated
    → (lacks_note updated ≡ false) × (suc (moves_left updated.status) ≤ moves_left action.status)
unfolding move_action
move_action-ok texts action updated target text h = ground arith

pub record Update : Type 0 where
  pub action_id : ℕ
  pub status : ActionStatus
  pub note : Option ℕ
  pub now : ℕ

-- Updates of the actions of one investigation, of which none is refused.
unfoldable pub apply_updates : Texts → Repository → ℕ → List Update → Outcome Repository
apply_updates texts repo investigation_id [] = ok repo
apply_updates texts repo investigation_id (u ∷ updates) = do
  r ← update_action_status texts repo investigation_id u.action_id u.status u.note u.now
  apply_updates texts r.1 investigation_id updates

update_action_status-ok :
    (texts : Texts) (repo : Repository) (k action_id : ℕ) (target : ActionStatus) (text : Option ℕ)
    (now : ℕ) (record_ : InvestigationRecord) {updated : RecommendedAction} {repo' : Repository}
    → Dict.get repo.records k ≡ some record_
    → update_action_status texts repo k action_id target text now ≡ ok (updated, repo')
    → (action : RecommendedAction) × (first (has_id action_id) record_.actions ≡ some action)
      × (move_action texts action target text ≡ ok updated)
      × (repo' ≡ record repo {
        records = Dict.put repo.records record_.id (record record_ {
          actions = replace_first (has_id action_id) updated record_.actions;
          updated_at = now;
        });
      })
unfolding update_action_status validate_action_transition Defs.get
update_action_status-ok texts repo k action_id target text now record_ found h = ground arith

-- One action among others is replaced.
module _ (p : RecommendedAction → Bool) (old new : RecommendedAction) where
  total_left-replace_first :
      (actions : List RecommendedAction)
      → first p actions ≡ some old
      → total_left (replace_first p new actions) + moves_left old.status
        ≡ total_left actions + moves_left new.status
  unfolding first replace_first total_left
  total_left-replace_first [] h = cc
  total_left-replace_first (a ∷ actions) h = ground (arith, total_left-replace_first actions)

  any-replace_first :
      (q : RecommendedAction → Bool) (actions : List RecommendedAction)
      → q new ≡ false
      → any q actions ≡ false
      → any q (replace_first p new actions) ≡ false
  unfolding any replace_first
  any-replace_first q [] h k = refl
  any-replace_first q (a ∷ actions) h k = ground (arith, any-replace_first q actions h)

-- The record afterwards is the one before, but for its actions and the instant of its update.
pub record Moved (k spent : ℕ) (record_ : InvestigationRecord) (repo' : Repository) : Type 0 where
  pub actions : List RecommendedAction
  pub updated_at : ℕ
  pub found :
      Dict.get repo'.records k
      ≡ some (record record_ { actions = actions; updated_at = updated_at })
  pub noted : any lacks_note actions ≡ false
  pub left : spent + total_left actions ≤ total_left record_.actions

update_action_status-Moved :
    (texts : Texts) (repo : Repository) (k : ℕ) (u : Update) (record_ : InvestigationRecord)
    {updated : RecommendedAction} {repo' : Repository}
    → Dict.get repo.records k ≡ some record_
    → record_.id ≡ k
    → any lacks_note record_.actions ≡ false
    → update_action_status texts repo k u.action_id u.status u.note u.now ≡ ok (updated, repo')
    → Moved k 1 record_ repo'
update_action_status-Moved texts repo k u record_ {updated} found here noted h =
    let (action, at, moved, final) =
      update_action_status-ok texts repo k u.action_id u.status u.note u.now record_ found h in
    let (with_note, spent) = move_action-ok texts action updated u.status u.note moved in
    let total = total_left-replace_first (has_id u.action_id) action updated record_.actions at in
    let same_key : (record_.id == k) ≡ true = ground arith in
    record {
      actions = replace_first (has_id u.action_id) updated record_.actions;
      updated_at = u.now;
      found = rw (final, get-put, same_key) refl;
      noted =
          any-replace_first (has_id u.action_id) action updated lacks_note record_.actions with_note
            noted;
      left = omega arith;
    }

apply_updates-cons :
    (texts : Texts) (repo : Repository) (k : ℕ) (u : Update) (updates : List Update)
    {repo' : Repository}
    → apply_updates texts repo k (u ∷ updates) ≡ ok repo'
    → (r : RecommendedAction × Repository) × (update_action_status texts repo k u.action_id u.status
          u.note u.now
        ≡ ok r)
      × (apply_updates texts r.1 k updates ≡ ok repo')
unfolding apply_updates
apply_updates-cons texts repo k u updates h = ground arith

-- Updates of the actions of one investigation, of which none is refused, change nothing of its
-- record but the actions and the instant of the update; if no high-risk action was approved, or done
-- though it asks for approval, without a note, then none is afterwards; and each update uses up a
-- move, of which a proposed action has two and an approved one has one.
pub apply_updates-Moved :
    (texts : Texts) (repo : Repository) (k : ℕ) (updates : List Update)
    (record_ : InvestigationRecord) (repo' : Repository)
    → Dict.get repo.records k ≡ some record_
    → record_.id ≡ k
    → any lacks_note record_.actions ≡ false
    → apply_updates texts repo k updates ≡ ok repo'
    → Moved k (length updates) record_ repo'
apply_updates-Moved texts repo k [] record_ repo' found here noted h =
    let same_repo : repo ≡ repo' = unfold apply_updates in ground arith in
    rw (sym same_repo) (record {
      actions = record_.actions;
      updated_at = record_.updated_at;
      found = found;
      noted = noted;
      left = omega arith;
    })
apply_updates-Moved texts repo k (u ∷ updates) record_ repo' found here noted h =
    let ((updated, repo1), one, rest) = apply_updates-cons texts repo k u updates h in
    let m = update_action_status-Moved texts repo k u record_ found here noted one in
    let record1 : InvestigationRecord = record record_ {
      actions = m.actions;
      updated_at = m.updated_at;
    } in
    let n = apply_updates-Moved texts repo1 k updates record1 repo' m.found here m.noted rest in
    let first_left = m.left in
    let rest_left = n.left in
    record {
      actions = n.actions;
      updated_at = n.updated_at;
      found = n.found;
      noted = n.noted;
      left = omega arith;
    }
