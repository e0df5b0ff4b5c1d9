-- ===== src/Operations/Rotation.antt =====
-- src/smart_factory/application/services/audit_key_rotation.py
pub mod Approval
use smart_factory_monitor.Common.{String, Option, none, some, [], ◌∷◌, str_eq, Result, ℕ}
use smart_factory_monitor.Common.Exec.{Exec, pure, ◌>>=◌, ◌>>◌, or_reraise, require}
use smart_factory_monitor.Audit.Event.{
  AuditValue, AuditState, OperatorAction, OperatorActionOutcome, OperatorAuditContext,
}
use smart_factory_monitor.Operations.{Failure, error_name, World, Trail, record_event, on_target}

-- `AuditKeyRotationResult`
pub record AuditKeyRotationResult : Type 0 where
  pub transition_id : ℕ
  pub previous_key_id : String
  pub new_key_id : String

-- `AuditAttestationKeyRotator`; `exclusive` is entered and left.
pub record Rotator (R : Type 0) : Type 0 where
  pub enter : R → Result Failure (Unit {0}) × R
  pub leave : R → R
  pub current_key_id : R → Result Failure String × R
  pub rotate : R → Result Failure AuditKeyRotationResult × R

module _ {R T : Type 0} (rotator : Rotator R) (trail : Trail T)
    (context : OperatorAuditContext) where
  -- `with self._rotator.exclusive(): body`: left however the body ends.
  abbrev pub exclusively : {A : Type 0} → Exec (World R T) Failure A → Exec (World R T) Failure A
  exclusively body = do
    on_target rotator.enter
    λ w. let (r, w') = body w in (r, record w' { target = rotator.leave w'.target })

  abbrev rotation_event :
      OperatorActionOutcome
      → AuditState
      → AuditState
      → Option String
      → Exec (World R T) Failure (Unit {0})
  rotation_event = record_event trail context OperatorAction.audit_attestation_key_rotation

  unfoldable pub rotate_locked : String → Exec (World R T) Failure AuditKeyRotationResult
  rotate_locked expected_active_key_id = do
    previous_key_id ← on_target rotator.current_key_id
    require (str_eq previous_key_id expected_active_key_id) Failure.stale_approval
    let previous_state = ("key_id", AuditValue.text previous_key_id) ∷ []
    rotation_event OperatorActionOutcome.started previous_state [] none
    result ← or_reraise (on_target rotator.rotate) (λ error.
        rotation_event OperatorActionOutcome.failed previous_state [] (some (error_name error)))
    rotation_event OperatorActionOutcome.succeeded previous_state
        (("key_id", AuditValue.text result.new_key_id)
          ∷ ("transition_id", AuditValue.text (trail.uuid_text result.transition_id))
          ∷ [])
        none
    pure result

  unfoldable pub rotate : String → Exec (World R T) Failure AuditKeyRotationResult
  unfolding rotate_locked
  rotate expected_active_key_id = exclusively (rotate_locked expected_active_key_id)
