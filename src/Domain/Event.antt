-- ===== src/Domain/Event.antt =====
-- backend/domain/runtime.py: the events of a run's log.
use diagops.Base.{ℕ, Bool, Option, none, List}
use diagops.Domain.Names.{Phase, ActorType, EventType}

pub data ReservationStatus : Type 0 where
  reserved retrying rejected deferred completed released unknown : ReservationStatus

-- The keys of `safe_payload` that the modelled code reads.
pub record SafePayload : Type 0 where
  pub usage_known : Option Bool
  pub accounted_tokens : Option ℕ
  pub input_tokens : Option ℕ
  pub output_tokens : Option ℕ
  pub reservation_id : Option ℕ
  pub reservation_status : Option ReservationStatus
  pub logical_call_id : Option ℕ
  pub reserved_tokens : Option ℕ
  pub input_estimate : Option ℕ
  pub checkpoint_id : Option ℕ
  pub event_sequence : Option ℕ
  pub resume_attempt_number : Option ℕ
  pub idempotency_key : Option ℕ

abbrev pub empty_payload : SafePayload
empty_payload = record {
  usage_known = none;
  accounted_tokens = none;
  input_tokens = none;
  output_tokens = none;
  reservation_id = none;
  reservation_status = none;
  logical_call_id = none;
  reserved_tokens = none;
  input_estimate = none;
  checkpoint_id = none;
  event_sequence = none;
  resume_attempt_number = none;
  idempotency_key = none;
}

pub record RuntimeEvent : Type 0 where
  pub run_id : ℕ
  pub attempt_id : ℕ
  pub sequence : ℕ
  pub event_type : EventType
  pub phase : Option Phase
  pub actor_type : ActorType
  pub actor_name : Option ℕ
  pub task_id : Option ℕ
  pub tool_call_id : Option ℕ
  pub execution_id : Option ℕ
  pub evidence_ids : List ℕ
  pub schema_version : ℕ
  pub safe_payload : SafePayload
