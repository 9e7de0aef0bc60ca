-- ===== src/Phases/Order.antt =====
-- `V10_PHASE_ORDER`, `V11_PHASE_ORDER` and the precondition of a phase commit.
use diagops.Base.{
  ℕ, zero, suc, Bool, true, false, Option, none, some, List, [], ◌∷◌, opt_eq, same, Outcome, ok,
  err, value_error, guard, ◌>>=◌, ◌>>◌, if◌then◌else◌,
}
use diagops.Domain.Names.{
  Phase, Phase-discrete, ContractVersion, intake, evidence_collection, deterministic_rca,
  specialist_analysis, conflict_review, coordination, report_generation, finalize, lead_planning,
  investigator_round_1, critic_review, investigator_round_2, critic_reconciliation,
  lead_adjudication, result_validation,
}

abbrev pub v10_phase_order : List Phase
v10_phase_order =
    intake ∷ evidence_collection ∷ deterministic_rca ∷ specialist_analysis ∷ conflict_review
    ∷ coordination ∷ report_generation ∷ finalize ∷ []

abbrev pub v11_phase_order : List Phase
v11_phase_order =
    intake ∷ evidence_collection ∷ lead_planning ∷ investigator_round_1 ∷ critic_review
    ∷ investigator_round_2 ∷ critic_reconciliation ∷ lead_adjudication ∷ result_validation
    ∷ report_generation ∷ finalize ∷ []

-- `phase_profile_for(version).order`
unfoldable pub phase_order_for : ContractVersion → List Phase
phase_order_for ContractVersion.v11 = v11_phase_order
phase_order_for ContractVersion.v10_legacy = v10_phase_order

-- `phase_order.index(phase)`; a phase of another profile raises ValueError.
unfoldable pub index : Phase → List Phase → Outcome ℕ
index phase [] = err value_error
index phase (p ∷ order) =
    let rest = index phase order in
    if same Phase-discrete p phase then ok 0 else (do i ← rest; ok (suc i))

unfoldable pub get_elem? : List Phase → ℕ → Option Phase
get_elem? [] i = none
get_elem? (p ∷ order) zero = some p
get_elem? (p ∷ order) (suc i) = get_elem? order i

abbrev pub is_phase : Option Phase → Phase → Bool
is_phase none phase = false
is_phase (some p) phase = same Phase-discrete p phase

abbrev pub opt_phase_eq : Option Phase → Option Phase → Bool
opt_phase_eq none none = true
opt_phase_eq none (some b) = false
opt_phase_eq (some a) b = is_phase b a

unfoldable pub expected_index : Option Phase → List Phase → Outcome ℕ
unfolding index
expected_index none order = ok 0
expected_index (some p) order = do i ← index p order; ok (suc i)

-- `ensure_phase_precondition`, on the fields of the commit that it reads
unfoldable pub ensure_phase_precondition :
    Option Phase → Option ℕ → Option ℕ → Option Phase → Phase → List Phase → Outcome (Unit {0})
unfolding expected_index get_elem?
ensure_phase_precondition current_phase latest_checkpoint_id expected_checkpoint_id
      expected_previous_phase phase phase_order =
    do
      guard (opt_eq expected_checkpoint_id latest_checkpoint_id) value_error
      guard (opt_phase_eq expected_previous_phase current_phase) value_error
      i ← expected_index current_phase phase_order
      guard (is_phase (get_elem? phase_order i) phase) value_error
