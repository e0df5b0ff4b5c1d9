-- ===== src/Operations.antt =====
-- The privileged operations and their audit (application/services/model_promotion.py and
-- audit_key_rotation.py). The audit trail, the registry and the key rotator are ports: functions on
-- states that the services do not look into.
pub mod Logging
pub mod Promotion
pub mod Rotation
use smart_factory_monitor.Common.{
  ℕ, suc, ◌+◌, String, Option, none, some, List, [], ◌∷◌, Result, ok, err,
}
use smart_factory_monitor.Common.Exec.{Exec}
use smart_factory_monitor.Domain.{Datetime}
use smart_factory_monitor.Audit.Event.{
  AuditState, OperatorAction, OperatorActionOutcome, OperatorAuditContext, OperatorAuditEvent,
  ValidationError, create,
}

-- The exceptions that reach a service: its own, pydantic's, and those of a port by their type name.
pub data Failure : Type 0 where
  not_approved : String → Failure
  stale_approval : Failure
  invalid_event : ValidationError → Failure
  raised : String → Failure

-- `type(error).__name__`
unfoldable pub error_name : Failure → String
error_name (Failure.not_approved machine) = "ModelPromotionError"
error_name Failure.stale_approval = "ValueError"
error_name (Failure.invalid_event e) = "ValidationError"
error_name (Failure.raised name) = name

-- The state of the world of one service: what it works on, the audit trail, and how many ids and
-- times have been drawn.
pub record World (R T : Type 0) : Type 0 where
  pub target : R
  pub trail : T
  pub drawn : ℕ

-- `OperatorAuditTrail.append`, `uuid4` with `datetime.now`, and `str` of a UUID.
pub record Trail (T : Type 0) : Type 0 where
  pub append : OperatorAuditEvent → T → Result Failure (Unit {0}) × T
  pub draw : ℕ → ℕ × Datetime
  pub uuid_text : ℕ → String

module _ {R T : Type 0} (trail : Trail T) (context : OperatorAuditContext) where
  append_created : Result ValidationError OperatorAuditEvent → Exec (World R T) Failure (Unit {0})
  append_created (err e) w = (err (Failure.invalid_event e), record w { drawn = w.drawn + 1 })
  append_created (ok event) w =
      let (r, t) = trail.append event w.trail in (r, record w { trail = t; drawn = w.drawn + 1 })

  -- `self._audit_trail.append(OperatorAuditEvent.create(context, ...))`
  unfoldable pub record_event :
      OperatorAction
      → OperatorActionOutcome
      → AuditState
      → AuditState
      → Option String
      → Exec (World R T) Failure (Unit {0})
  unfolding append_created
  record_event action outcome previous_state resulting_state error_type w =
      let (event_id, now) = trail.draw w.drawn in
      append_created
        (create context event_id now action outcome previous_state resulting_state error_type) w

-- A step of a port on the target.
abbrev pub on_target : {R T A : Type 0} → (R → Result Failure A × R) → Exec (World R T) Failure A
on_target f w = let (r, s) = f w.target in (r, record w { target = s })
