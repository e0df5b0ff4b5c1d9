-- ===== src/Audit/Event.antt =====
-- src/smart_factory/domain/operator_audit.py: events of privileged operations and their validation.
-- A check that fails raises pydantic's `ValidationError`; the model returns the first one.
use smart_factory_monitor.Common.{
  ℕ, String, count, Bool, true, not, ◌&&◌, Option, none, some, List, [], ◌∷◌, leb, str_eq, strip,
  any, Result, ok, err, ◌>>◌, guard, if◌then◌else◌,
}
use smart_factory_monitor.Domain.{Datetime, is_aware}

-- A float is kept as its JSON text, an int as its decimal text.
pub data AuditValue : Type 0 where
  text : String → AuditValue
  int : String → AuditValue
  float : String → AuditValue
  flag : Bool → AuditValue
  null : AuditValue
  texts : List String → AuditValue

abbrev pub AuditState : Type 0
AuditState = List (String × AuditValue)

pub data OperatorAction : Type 0 where
  model_promotion model_rollback audit_attestation_key_rotation : OperatorAction

pub data OperatorActionOutcome : Type 0 where
  started succeeded failed : OperatorActionOutcome

pub record OperatorAuditContext : Type 0 where
  pub actor : String
  pub reason : String
  pub correlation_id : ℕ

pub record OperatorAuditEvent : Type 0 where
  pub event_id : ℕ
  pub occurred_at : Datetime
  pub actor : String
  pub reason : String
  pub correlation_id : ℕ
  pub action : OperatorAction
  pub outcome : OperatorActionOutcome
  pub previous_state : AuditState
  pub resulting_state : AuditState
  pub error_type : Option String

pub data ValidationError : Type 0 where
  actor_length reason_length error_type_length naive_timestamp : ValidationError
  duplicate_state_keys error_type_required error_type_unexpected : ValidationError
  unknown_action unknown_outcome surrounding_whitespace : ValidationError

abbrev pub length_within : ℕ → String → Bool
length_within maximum s = leb 1 (count s) && leb (count s) maximum

abbrev pub optional_length_within : ℕ → Option String → Bool
optional_length_within maximum none = true
optional_length_within maximum (some s) = length_within maximum s

-- What constructing an `OperatorAuditContext` checks.
unfoldable pub validate_context : OperatorAuditContext → Result ValidationError OperatorAuditContext
validate_context context = do
  guard (length_within 255 context.actor) ValidationError.actor_length
  guard (str_eq context.actor (strip context.actor)) ValidationError.surrounding_whitespace
  guard (length_within 2000 context.reason) ValidationError.reason_length
  guard (str_eq context.reason (strip context.reason)) ValidationError.surrounding_whitespace
  ok context

-- `len(keys) == len(set(keys))`
unfoldable pub keys_unique : AuditState → Bool
keys_unique [] = true
keys_unique ((key, value) ∷ state) =
    not (any (λ (entry : String × AuditValue). str_eq key entry.0) state) && keys_unique state

unfoldable pub error_type_matches :
    OperatorActionOutcome → Option String → Result ValidationError (Unit {0})
error_type_matches OperatorActionOutcome.failed none = err ValidationError.error_type_required
error_type_matches OperatorActionOutcome.failed (some e) = ok tt
error_type_matches outcome none = ok tt
error_type_matches outcome (some e) = err ValidationError.error_type_unexpected

-- What constructing an event checks: the fields in their order, then the model validator.
unfoldable pub validate_event : OperatorAuditEvent → Result ValidationError OperatorAuditEvent
unfolding error_type_matches is_aware
validate_event e = do
  guard (is_aware e.occurred_at) ValidationError.naive_timestamp
  guard (length_within 255 e.actor) ValidationError.actor_length
  guard (length_within 2000 e.reason) ValidationError.reason_length
  guard (keys_unique e.previous_state) ValidationError.duplicate_state_keys
  guard (keys_unique e.resulting_state) ValidationError.duplicate_state_keys
  guard (optional_length_within 255 e.error_type) ValidationError.error_type_length
  error_type_matches e.outcome e.error_type
  ok e

-- `OperatorAuditEvent.create`. The fresh id and the current time are arguments.
unfoldable pub create :
    OperatorAuditContext
    → ℕ
    → Datetime
    → OperatorAction
    → OperatorActionOutcome
    → AuditState
    → AuditState
    → Option String
    → Result ValidationError OperatorAuditEvent
create context event_id now action outcome previous_state resulting_state error_type =
    validate_event (record {
      event_id = event_id;
      occurred_at = now;
      actor = context.actor;
      reason = context.reason;
      correlation_id = context.correlation_id;
      action = action;
      outcome = outcome;
      previous_state = previous_state;
      resulting_state = resulting_state;
      error_type = error_type;
    })

unfoldable pub action_value : OperatorAction → String
action_value OperatorAction.model_promotion = "model_promotion"
action_value OperatorAction.model_rollback = "model_rollback"
action_value OperatorAction.audit_attestation_key_rotation = "audit_attestation_key_rotation"

unfoldable pub outcome_value : OperatorActionOutcome → String
outcome_value OperatorActionOutcome.started = "started"
outcome_value OperatorActionOutcome.succeeded = "succeeded"
outcome_value OperatorActionOutcome.failed = "failed"

-- `OperatorAction(value)`
unfoldable pub parse_action : String → Result ValidationError OperatorAction
parse_action s =
    if str_eq s "model_promotion"
    then ok OperatorAction.model_promotion
    else if str_eq s "model_rollback"
    then ok OperatorAction.model_rollback
    else if str_eq s "audit_attestation_key_rotation"
    then ok OperatorAction.audit_attestation_key_rotation
    else err ValidationError.unknown_action

-- `OperatorActionOutcome(value)`
unfoldable pub parse_outcome : String → Result ValidationError OperatorActionOutcome
parse_outcome s =
    if str_eq s "started"
    then ok OperatorActionOutcome.started
    else if str_eq s "succeeded"
    then ok OperatorActionOutcome.succeeded
    else if str_eq s "failed"
    then ok OperatorActionOutcome.failed
    else err ValidationError.unknown_outcome
