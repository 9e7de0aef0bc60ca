-- ===== src/Replay/Accepted.antt =====
-- What a replay that reports no error has seen: its errors, part by part.
use diagops.Base.{
  ℕ, suc, Bool, true, false, not, List, [], ◌∷◌, ◌++◌, ◌≡◌, refl, sym, ◌∙◌, ◌==◌, arith, any, ap,
}
use diagops.Domain.Event.{RuntimeEvent}
use diagops.Phases.Order.{phase_order_for}
use diagops.Store.Evolve.{Numbered}
use diagops.Replay.State.{ReplayError, LifecycleState, flag, Advance}
use diagops.Replay.Lifecycle.{class_of}
use diagops.Replay.Advance.{advance_class, advance_lifecycle}
use diagops.Replay.Validate.{
  Sources, Progress, order_phase, check_sequence, check_references, advance_known, validate_event,
  validate_loop,
}
use diagops.Replay.Rows.{validate_attempt_rows, check_end, unique_errors, start, validate_events}

pub no_errors : (xs ys : List ReplayError) → xs ++ ys ≡ [] → (xs ≡ []) × (ys ≡ [])
no_errors [] ys h = (refl, h)
no_errors (x ∷ xs) ys h = cc

unique_errors-nil : (errors : List ReplayError) → unique_errors [] errors ≡ [] → errors ≡ []
unfolding unique_errors any
unique_errors-nil [] h = refl
unique_errors-nil (error ∷ errors) h = cc

pub unflagged : (b : Bool) (error : ReplayError) → flag b error ≡ [] → b ≡ false
unflagged true error h = cc
unflagged false error h = refl

-- The state that an event is checked against.
abbrev pub ordered : Sources → Progress → RuntimeEvent → Advance
ordered sources progress event =
    order_phase (phase_order_for sources.run.execution_contract_version) progress.lifecycle event

-- The parts of a round without errors.
pub validate_event-accepted :
    (sources : Sources) (progress : Progress) (event : RuntimeEvent)
    → (validate_event sources progress event).1 ≡ []
    → (check_sequence progress event.sequence ≡ [])
      × (check_references sources event ≡ [])
      × ((advance_known (ordered sources progress event).state event).errors ≡ [])
unfolding validate_event
validate_event-accepted sources progress event h =
    let (_, h1) = no_errors (ordered sources progress event).errors _ h in
    let (h2, h3) = no_errors (check_sequence progress event.sequence) _ h1 in
    let (h4, h5) = no_errors (check_references sources event) _ h3 in (h2, h4, h5)

pub accepted_loop :
    (sources : Sources) (events : List RuntimeEvent)
    → validate_events sources events ≡ []
    → ((validate_loop sources start events).1 ≡ [])
      × (validate_attempt_rows
            (validate_loop sources start events).0.lifecycle
            sources.attempts
            sources.checkpoints
          ≡ [])
      × (check_end (validate_loop sources start events).0.lifecycle events sources.run.status ≡ [])
unfolding validate_events
accepted_loop sources events h =
    let (h1, h2) = no_errors (validate_loop sources start events).1 _ (unique_errors-nil _ h) in
    let (h3, h4) =
      no_errors
        (validate_attempt_rows (validate_loop sources start events).0.lifecycle sources.attempts
          sources.checkpoints)
        _ h2 in
    (h1, h3, h4)

check_sequence-expected :
    (progress : Progress) (sequence : ℕ)
    → check_sequence progress sequence ≡ []
    → sequence ≡ progress.expected
unfolding check_sequence
check_sequence-expected progress sequence h = ground arith

number_equals : (a b : ℕ) → not (a == b) ≡ false → a ≡ b
number_equals a b h = ground arith

pub check_references-run :
    (sources : Sources) (event : RuntimeEvent)
    → check_references sources event ≡ []
    → (event.schema_version ≡ 1) × (event.run_id ≡ sources.run.id)
unfolding check_references
check_references-run sources event h =
    let old = not (event.schema_version == 1) in
    let foreign = not (event.run_id == sources.run.id) in
    let (h1, h2) = no_errors (flag old ReplayError.unsupported_schema) _ h in
    let (h3, _) = no_errors (flag foreign ReplayError.bad_reference) _ h2 in
    (number_equals _ _ (unflagged old _ h1), number_equals _ _ (unflagged foreign _ h3))

known-class :
    (state : LifecycleState) (event : RuntimeEvent)
    → event.schema_version ≡ 1
    → advance_known state event ≡ advance_class state event (class_of event.event_type)
unfolding advance_lifecycle
known-class state event schema =
    let here : (event.schema_version == 1) ≡ true = ground arith in rw here refl

-- A round without errors takes the branch of the event's class, and that finds no fault.
pub accepted_round :
    (sources : Sources) (progress : Progress) (event : RuntimeEvent)
    → (validate_event sources progress event).1 ≡ []
    → ((validate_event sources progress event).0.lifecycle
        ≡ (advance_class
            (ordered sources progress event).state
            event
            (class_of event.event_type)).state)
      × ((advance_class
            (ordered sources progress event).state
            event
            (class_of event.event_type)).errors
          ≡ [])
unfolding validate_event
accepted_round sources progress event h =
    let (_, references, advanced) = validate_event-accepted sources progress event h in
    let (schema, _) = check_references-run sources event references in
    let known = known-class (ordered sources progress event).state event schema in
    (ap (λ a. a.state) known, sym (ap (λ a. a.errors) known) ∙ advanced)

loop-Numbered :
    (sources : Sources) (progress : Progress) (n : ℕ) (events : List RuntimeEvent)
    → progress.expected ≡ suc n
    → (validate_loop sources progress events).1 ≡ []
    → Numbered sources.run.id n events
unfolding validate_loop
loop-Numbered sources progress n [] at h = tt
loop-Numbered sources progress n (event ∷ events) at h =
    let (here, rest) = no_errors (validate_event sources progress event).1 _ h in
    let (sequence, references, _) = validate_event-accepted sources progress event here in
    let number = check_sequence-expected progress event.sequence sequence in
    let (_, run) = check_references-run sources event references in
    let next : (validate_event sources progress event).0.expected ≡ suc (suc n) =
      unfold validate_event in omega arith in
    (
      omega arith,
      run,
      loop-Numbered sources (validate_event sources progress event).0 (suc n) events next rest,
    )

-- Where a replay finds no fault with a run's events, they are the run's own and are numbered 1, 2,
-- 3 and so on, without a gap or a repetition.
pub validate_events-Numbered :
    (sources : Sources) (events : List RuntimeEvent)
    → validate_events sources events ≡ []
    → Numbered sources.run.id 0 events
validate_events-Numbered sources events h =
    let (accepted, _, _) = accepted_loop sources events h in
    loop-Numbered sources start 0 events (omega arith) accepted
