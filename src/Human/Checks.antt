-- ===== src/Human/Checks.antt =====
-- The texts of notes, and the owners and candidates that an object may name.
use diagops.Base.{
  contains, ℕ, Bool, false, Option, none, some, List, [], ◌∷◌, any, ◌&&◌, ◌||◌, not, ◌==◌, opt_eq,
  is_some, Outcome, ok, err, human_conflict, guard, ◌>>◌, if◌then◌else◌,
}
use diagops.Repository.Records.{InvestigationRecord}
use diagops.Repository.Owners.{is_agent}

-- `str.strip` and `redact_text` of backend/safety/redaction.py
pub record Texts : Type 0 where
  pub strip : ℕ → ℕ
  pub redact_text : ℕ → ℕ

-- `note and note.strip()`
abbrev pub is_written : Texts → Option ℕ → Bool
is_written texts none = false
is_written texts (some note) = not (note == 0) && not (texts.strip note == 0)

-- `redact_text(note.strip()) if note and note.strip() else None`
abbrev pub sanitized : Texts → Option ℕ → Option ℕ
sanitized texts none = none
sanitized texts (some note) =
    if is_written texts (some note) then some (texts.redact_text (texts.strip note)) else none

-- `set(xs) <= set(ys)`
unfoldable pub subset : List ℕ → List ℕ → Bool
subset xs ys = not (any (λ x. not (contains ys x)) xs)

-- `_validate_runtime_owner`: two owners that are both absent agree.
unfoldable pub validate_runtime_owner : InvestigationRecord → Option ℕ → Outcome (Unit {0})
validate_runtime_owner record_ projection_owner =
    if is_some record_.active_runtime_run_id || is_some projection_owner
    then guard (opt_eq record_.active_runtime_run_id projection_owner) human_conflict
    else ok tt

-- `_validate_candidate_refs`
unfoldable pub validate_candidate_refs : InvestigationRecord → List ℕ → Outcome (Unit {0})
unfolding subset
validate_candidate_refs record_ [] = ok tt
validate_candidate_refs record_ (c ∷ candidate_ids) = elim record_.report [
  | none ↦ err human_conflict
  | some report ↦ do
    guard
        (is_agent report.authority_mode
          && opt_eq report.runtime_run_id record_.active_runtime_run_id)
        human_conflict
    guard (subset (c ∷ candidate_ids) report.candidate_ids) human_conflict
]

-- `[updated if item.id == id else item ...]` at the first item with the id
unfoldable pub replace_first : {A : Type 0} → (A → Bool) → A → List A → List A
replace_first p new [] = []
replace_first p new (x ∷ xs) =
    let rest = replace_first p new xs in if p x then new ∷ xs else x ∷ rest
