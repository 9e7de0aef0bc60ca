-- ===== src/Phases/Budget.antt =====
-- The budgets that are recomputed from durable tool calls and model events.
use diagops.Base.{
  ℕ, ◌+◌, ◌-◌, Bool, true, false, Option, none, some, List, [], ◌∷◌, map, ◌&&◌, ◌||◌, not, ◌==◌,
  opt_eq, any, keep, length, or_else, id_or_empty, if◌then◌else◌,
}
use diagops.Base.Dict
use diagops.Base.Dict.{Dict}
use diagops.Domain.Names.{EventType}
use diagops.Domain.Event.{RuntimeEvent, ReservationStatus}
use diagops.Domain.ToolCall.{ToolCallRecord, consumes_budget}
use diagops.Repository.Records.{Repository}
use diagops.Repository.Defs.{list_tool_calls}
use diagops.Phases.Mutation.{BusinessMutation}

-- `len({...})`: how many different identifiers a list holds
unfoldable pub distinct : List ℕ → List ℕ
distinct [] = []
distinct (a ∷ as_) = let rest = distinct as_ in if any (λ b. b == a) rest then rest else a ∷ rest

-- `call.logical_call_id or call.id`
abbrev pub call_key : ToolCallRecord → ℕ
call_key call = or_else call.logical_call_id call.id

abbrev pub is_charged : ℕ → ToolCallRecord → Bool
is_charged run_id call = opt_eq call.runtime_run_id (some run_id) && consumes_budget call

-- `{call.logical_call_id or call.id for call in calls if ...}`
unfoldable pub consumed_calls : ℕ → List ToolCallRecord → List ℕ
unfolding distinct
consumed_calls run_id calls = distinct (map call_key (keep (is_charged run_id) calls))

abbrev pub calls_of : Option BusinessMutation → List ToolCallRecord → List ToolCallRecord
calls_of none stored = stored
calls_of (some mutation) stored = elim mutation.tool_calls [ none ↦ stored | some calls ↦ calls ]

unfoldable pub durable_tool_call_count : Repository → ℕ → ℕ → Option BusinessMutation → ℕ
unfolding consumed_calls
durable_tool_call_count repo investigation_id run_id mutation =
    length (consumed_calls run_id (calls_of mutation (list_tool_calls repo investigation_id)))

-- `{"model.completed", "model.failed"}`
abbrev pub ends_model_call : EventType → Bool
ends_model_call EventType.model_completed = true
ends_model_call EventType.model_failed = true
ends_model_call _ = false

abbrev pub is_retrying : Option ReservationStatus → Bool
is_retrying (some ReservationStatus.retrying) = true
is_retrying _ = false

abbrev pub is_rejected : Option ReservationStatus → Bool
is_rejected (some ReservationStatus.rejected) = true
is_rejected _ = false

abbrev pub or_zero : Option ℕ → ℕ
or_zero none = 0
or_zero (some n) = n

-- A model call of the run that has ended, as `durable_token_usage` selects it.
abbrev pub ends_call_of : ℕ → RuntimeEvent → Bool
ends_call_of run_id event =
    event.run_id == run_id && (event.schema_version == 1 && ends_model_call event.event_type)

abbrev pub is_counted : ℕ → RuntimeEvent → Bool
is_counted run_id event =
    ends_call_of run_id event && not (is_retrying event.safe_payload.reservation_status)

abbrev pub usage_if_known : Option Bool → ℕ → ℕ → ℕ
usage_if_known (some false) accounted used = accounted
usage_if_known _ accounted used = used

abbrev pub event_tokens : RuntimeEvent → ℕ
event_tokens event =
    usage_if_known event.safe_payload.usage_known (or_zero event.safe_payload.accounted_tokens)
      (or_zero event.safe_payload.input_tokens + or_zero event.safe_payload.output_tokens)

-- The sum over `(event_tokens(e) for e in events if is_counted(e))`.
unfoldable pub durable_token_usage : List RuntimeEvent → ℕ → ℕ
durable_token_usage [] run_id = 0
durable_token_usage (event ∷ events) run_id =
    let rest = durable_token_usage events run_id in
    if is_counted run_id event then event_tokens event + rest else rest

abbrev pub is_rejection : ℕ → RuntimeEvent → Bool
is_rejection run_id event =
    ends_call_of run_id event && is_rejected event.safe_payload.reservation_status

-- `-` stops at 0, as `max(0, ...)` does.
unfoldable pub durable_remaining_token_budget : List RuntimeEvent → ℕ → ℕ → ℕ
unfolding durable_token_usage
durable_remaining_token_budget events run_id token_budget =
    if any (is_rejection run_id) events then 0 else token_budget - durable_token_usage events run_id

pub record Reservation : Type 0 where
  pub logical_call_id : Option ℕ
  pub reserved_tokens : ℕ
  pub input_estimate : ℕ
  pub attempt_id : ℕ
  pub execution_id : Option ℕ

abbrev pub starts_or_ends : EventType → Bool
starts_or_ends EventType.model_started = true
starts_or_ends event_type = ends_model_call event_type

-- `reservation_status in {"reserved", "retrying"}`
abbrev pub keeps_active : Option ReservationStatus → Bool
keeps_active (some ReservationStatus.reserved) = true
keeps_active (some ReservationStatus.retrying) = true
keeps_active _ = false

abbrev pub reservation_of : RuntimeEvent → Reservation
reservation_of event = record {
  logical_call_id = event.safe_payload.logical_call_id;
  reserved_tokens = or_zero event.safe_payload.reserved_tokens;
  input_estimate = or_zero event.safe_payload.input_estimate;
  attempt_id = event.attempt_id;
  execution_id = event.execution_id;
}

-- One round of the loop of `durable_model_reservations`.
unfoldable pub reserve_step : ℕ → Dict Reservation → RuntimeEvent → Dict Reservation
reserve_step run_id active event =
    let reservation_id = id_or_empty event.safe_payload.reservation_id in
    if not (event.run_id == run_id) || not (event.schema_version == 1)
    then active
    else if not (starts_or_ends event.event_type)
    then active
    else if reservation_id == 0
    then active
    else if keeps_active event.safe_payload.reservation_status
    then Dict.put active reservation_id (reservation_of event)
    else Dict.pop active reservation_id

-- The loop, over events in the order of their sequence.
unfoldable pub durable_model_reservations :
    ℕ → Dict Reservation → List RuntimeEvent → Dict Reservation
unfolding reserve_step
durable_model_reservations run_id active [] = active
durable_model_reservations run_id active (event ∷ events) =
    durable_model_reservations run_id (reserve_step run_id active event) events
