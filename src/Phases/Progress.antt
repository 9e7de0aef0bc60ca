-- ===== src/Phases/Progress.antt =====
-- `ensure_phase_precondition` against the phase orders.
use diagops.Base.{
  ℕ, zero, suc, Bool, true, Option, none, some, List, [], ◌∷◌, ◌≡◌, ◌↔◌, refl, ok, arith, ◌&&◌, not,
  any, same, opt_eq, opt_eq_iff, ◌++◌, length, sym,
}
use mathlib.Core.Path.{subst}
use diagops.Domain.Names.{Phase, Phase-discrete, ContractVersion}
use diagops.Phases.Order.{
  phase_order_for, index, get_elem?, is_phase, opt_phase_eq, expected_index,
  ensure_phase_precondition,
}

holds : Phase → List Phase → Bool
holds phase = any (λ p. same Phase-discrete p phase)

-- No phase stands in the order twice.
is_unique : List Phase → Bool
is_unique [] = true
is_unique (p ∷ order) = not (holds p order) && is_unique order

get_elem?-holds :
    (order : List Phase) (i : ℕ) (phase : Phase)
    → get_elem? order i ≡ some phase
    → holds phase order ≡ true
unfolding get_elem? holds any
get_elem?-holds [] i phase h = cc
get_elem?-holds (p ∷ order) zero phase h = ground arith
get_elem?-holds (p ∷ order) (suc i) phase h = ground (arith, get_elem?-holds order i phase h)

get_elem?-index :
    (order : List Phase) (i : ℕ) (phase : Phase)
    → is_unique order ≡ true
    → get_elem? order i ≡ some phase
    → index phase order ≡ ok i
unfolding get_elem? index is_unique
get_elem?-index [] i phase u h = cc
get_elem?-index (p ∷ order) zero phase u h = ground arith
get_elem?-index (p ∷ order) (suc i) phase u h =
    let later = get_elem?-holds order i phase h in
    ground (arith, get_elem?-index order i phase (ground arith) h)

-- The order has `phase` first, or right behind the phase that came before.
abbrev pub Follows : Option Phase → Phase → List Phase → Type 0
Follows none phase order = (after : List Phase) × (order ≡ phase ∷ after)
Follows (some p) phase order =
    (before : List Phase) × (after : List Phase) × (order ≡ before ++ (p ∷ phase ∷ after))

phase_order_for-is_unique : (version : ContractVersion) → is_unique (phase_order_for version) ≡ true
unfolding phase_order_for is_unique holds any
phase_order_for-is_unique ContractVersion.v11 = ground arith
phase_order_for-is_unique ContractVersion.v10_legacy = ground arith

is_phase_iff : (o : Option Phase) (phase : Phase) → (is_phase o phase ≡ true) ↔ (o ≡ some phase)
is_phase_iff o phase = ground arith

opt_phase_eq_iff : (a b : Option Phase) → (opt_phase_eq a b ≡ true) ↔ (a ≡ b)
opt_phase_eq_iff none none = ground arith
opt_phase_eq_iff none (some b) = ground arith
opt_phase_eq_iff (some a) b = ground arith

get_elem?-first :
    (order : List Phase) (phase : Phase) → get_elem? order 0 ≡ some phase → Follows none phase order
unfolding get_elem?
get_elem?-first [] phase h = cc
get_elem?-first (p ∷ order) phase h = let it : p ≡ phase = ground arith in (order, rw it refl)

get_elem?-behind :
    (order : List Phase) (p phase : Phase) (i : ℕ)
    → index p order ≡ ok i
    → get_elem? order (suc i) ≡ some phase
    → Follows (some p) phase order
unfolding index get_elem?
get_elem?-behind [] p phase i h k = cc
get_elem?-behind (q ∷ order) p phase zero h k =
    let it : q ≡ p = ground arith in
    let (after, rest) = get_elem?-first order phase k in ([], after, rw (it, rest) refl)
get_elem?-behind (q ∷ order) p phase (suc i) h k =
    let there : index p order ≡ ok i = ground arith in
    let (before, after, rest) = get_elem?-behind order p phase i there k in
    (q ∷ before, after, rw rest refl)

get_elem?-append :
    (before after : List Phase) (p phase : Phase)
    → get_elem? (before ++ (p ∷ phase ∷ after)) (suc (length before)) ≡ some phase
unfolding get_elem?
get_elem?-append [] after p phase = refl
get_elem?-append (q ∷ before) after p phase = get_elem?-append before after p phase

get_elem?-at :
    (before after : List Phase) (p : Phase)
    → get_elem? (before ++ (p ∷ after)) (length before) ≡ some p
unfolding get_elem?
get_elem?-at [] after p = refl
get_elem?-at (q ∷ before) after p = get_elem?-at before after p

expected_index-some :
    (p : Phase) (order : List Phase) (i : ℕ)
    → expected_index (some p) order ≡ ok i
    → (j : ℕ) × (index p order ≡ ok j) × (i ≡ suc j)
unfolding expected_index
expected_index-some p order i h = ground arith

Follows-at :
    (current : Option Phase) (phase : Phase) (order : List Phase) (i : ℕ)
    → expected_index current order ≡ ok i
    → get_elem? order i ≡ some phase
    → Follows current phase order
unfolding expected_index
Follows-at none phase order i h k =
    let at_first : i ≡ 0 = ground arith in
    get_elem?-first order phase (subst (λ j. get_elem? order j ≡ some phase) at_first k)
Follows-at (some p) phase order i h k =
    let (j, there, next) = expected_index-some p order i h in
    get_elem?-behind order p phase j there (subst (λ n. get_elem? order n ≡ some phase) next k)

at-Follows :
    (current : Option Phase) (phase : Phase) (order : List Phase)
    → is_unique order ≡ true
    → Follows current phase order
    → (i : ℕ) × (expected_index current order ≡ ok i) × (get_elem? order i ≡ some phase)
unfolding expected_index get_elem?
at-Follows none phase order u (after, e) = (0, refl, rw e refl)
at-Follows (some p) phase order u (before, after, e) =
    let here = get_elem?-at before (phase ∷ after) p in
    let there =
      get_elem?-index order (length before) p u
        (subst (λ l. get_elem? l (length before) ≡ some p) (sym e) here) in
    (
      suc (length before),
      rw there refl,
      subst (λ l. get_elem? l (suc (length before)) ≡ some phase) (sym e)
          (get_elem?-append before after p phase),
    )

module _ (version : ContractVersion) (current : Option Phase) (latest expected : Option ℕ)
    (previous : Option Phase) (phase : Phase) where
  precondition-parts :
      (order : List Phase)
      → ensure_phase_precondition current latest expected previous phase order ≡ ok tt
      → (opt_eq expected latest ≡ true)
        × (opt_phase_eq previous current ≡ true)
        × (i : ℕ) × (expected_index current order ≡ ok i)
        × (is_phase (get_elem? order i) phase ≡ true)
  unfolding ensure_phase_precondition
  precondition-parts order h = ground arith

  accepted_at :
      (i : ℕ)
      → expected_index current (phase_order_for version) ≡ ok i
      → get_elem? (phase_order_for version) i ≡ some phase
      → opt_eq expected latest ≡ true
      → opt_phase_eq previous current ≡ true
      → ensure_phase_precondition current latest expected previous phase (phase_order_for version)
        ≡ ok tt
  unfolding ensure_phase_precondition
  accepted_at i at_i here same_checkpoint same_phase =
      let it = is_phase_iff (get_elem? (phase_order_for version) i) phase in
      rw (same_checkpoint, same_phase, at_i, it.1 here) refl

  -- A phase is accepted exactly where the commit names the checkpoint and the phase that the run
  -- stands at, and the order of the run's version has it right behind that phase, or as its first
  -- one if there is none.
  pub accepted_iff :
      (ensure_phase_precondition current latest expected previous phase (phase_order_for version)
        ≡ ok tt)
      ↔ ((expected ≡ latest)
          × (previous ≡ current)
          × Follows current phase (phase_order_for version))
  accepted_iff = (
    λ h.
        let (checkpoint, named, i, at_i, here) = precondition-parts (phase_order_for version) h in
        (
          (opt_eq_iff expected latest).0 checkpoint,
          (opt_phase_eq_iff previous current).0 named,
          Follows-at current phase (phase_order_for version) i at_i ((is_phase_iff _ phase).0 here),
        ),
    λ (checkpoint, named, follows).
        let (i, at_i, here) =
          at-Follows current phase (phase_order_for version) (phase_order_for-is_unique version)
            follows in
        accepted_at i at_i here ((opt_eq_iff expected latest).1 checkpoint)
          ((opt_phase_eq_iff previous current).1 named),
  )
