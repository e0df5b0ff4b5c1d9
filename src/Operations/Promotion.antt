-- ===== src/Operations/Promotion.antt =====
-- src/smart_factory/application/services/model_promotion.py
pub mod Gate
pub mod Record
use smart_factory_monitor.Common.{
  ℕ, String, ◌<>◌, Bool, true, false, Option, none, some, List, [], ◌∷◌, map, Result, ok, err,
}
use smart_factory_monitor.Common.Exec.{Exec, pure, lift, ◌>>=◌, ◌>>◌, or_reraise}
use smart_factory_monitor.Audit.Event.{
  AuditValue, AuditState, OperatorAction, OperatorActionOutcome, OperatorAuditContext,
}
use smart_factory_monitor.Registry.{ModelRegistryEntry, ModelRegistryManifest}
use smart_factory_monitor.Operations.{Failure, error_name, World, Trail, record_event, on_target}

pub record PromotionCandidate : Type 0 where
  pub machine_id : String
  pub model_id : String
  pub artifact_sha256 : String
  pub artifact_path : String

-- `ModelApprovalReader` and `ModelRegistryPublisher`.
pub record RegistryPorts (R : Type 0) : Type 0 where
  pub has_passed : String → String → String → Result Failure Bool
  pub publish : List PromotionCandidate → R → Result Failure ModelRegistryManifest × R
  pub rollback : ℕ → R → Result Failure ModelRegistryManifest × R

abbrev candidate_text : PromotionCandidate → String
candidate_text candidate =
    candidate.machine_id <> (":" <> (candidate.model_id <> (":" <> candidate.artifact_sha256)))

unfoldable pub intended_state : List PromotionCandidate → AuditState
intended_state candidates =
    ("candidate_artifacts", AuditValue.texts (map candidate_text candidates)) ∷ []

module _ {R : Type 0} (ports : RegistryPorts R) where
  -- The loop over the candidates that asks for their approval.
  unfoldable pub check_approvals : List PromotionCandidate → Result Failure (Unit {0})
  check_approvals [] = ok tt
  check_approvals (candidate ∷ rest) =
      let others = check_approvals rest in
      elim (ports.has_passed candidate.machine_id candidate.model_id candidate.artifact_sha256) [
        | err e ↦ err e
        | ok passed ↦ elim passed [
          | true ↦ others
          | false ↦ err (Failure.not_approved candidate.machine_id)
        ]
      ]

module _ {R T : Type 0} (ports : RegistryPorts R) (trail : Trail T)
    (context : OperatorAuditContext) where
  optional_uuid : Option ℕ → AuditValue
  optional_uuid none = AuditValue.null
  optional_uuid (some id) = AuditValue.text (trail.uuid_text id)

  abbrev manifest_machine_ids : ModelRegistryManifest → AuditValue
  manifest_machine_ids manifest =
      AuditValue.texts (map (λ (e : ModelRegistryEntry). e.machine_id) manifest.entries)

  -- `_record_manifest_transition`, which `promote` calls with no source generation.
  unfoldable pub record_manifest_transition :
      OperatorAction → ModelRegistryManifest → Exec (World R T) Failure (Unit {0})
  unfolding optional_uuid
  record_manifest_transition action manifest =
      record_event trail context action OperatorActionOutcome.succeeded
        (("generation_id", optional_uuid manifest.previous_generation_id) ∷ [])
        (("generation_id", AuditValue.text (trail.uuid_text manifest.generation_id))
          ∷ ("machine_ids", manifest_machine_ids manifest)
          ∷ [])
        none

  unfoldable pub promote : List PromotionCandidate → Exec (World R T) Failure ModelRegistryManifest
  unfolding record_manifest_transition
  promote candidates = do
    let intended = intended_state candidates
    record_event trail context OperatorAction.model_promotion OperatorActionOutcome.started []
        intended none
    manifest ←
        or_reraise (lift (check_approvals ports candidates) >> on_target (ports.publish candidates))
          (λ error.
            record_event trail context OperatorAction.model_promotion OperatorActionOutcome.failed
              [] intended (some (error_name error)))
    record_manifest_transition OperatorAction.model_promotion manifest
    pure manifest

  -- `ModelRollbackService.rollback`
  unfoldable pub rollback : ℕ → Exec (World R T) Failure ModelRegistryManifest
  unfolding optional_uuid
  rollback generation_id = do
    let target = ("source_generation_id", AuditValue.text (trail.uuid_text generation_id)) ∷ []
    record_event trail context OperatorAction.model_rollback OperatorActionOutcome.started [] target
        none
    manifest ← or_reraise (on_target (ports.rollback generation_id)) (λ error.
        record_event trail context OperatorAction.model_rollback OperatorActionOutcome.failed []
          target (some (error_name error)))
    record_event trail context OperatorAction.model_rollback OperatorActionOutcome.succeeded
        (("generation_id", optional_uuid manifest.previous_generation_id) ∷ [])
        (("generation_id", AuditValue.text (trail.uuid_text manifest.generation_id))
          ∷ ("source_generation_id", AuditValue.text (trail.uuid_text generation_id))
          ∷ ("machine_ids", manifest_machine_ids manifest)
          ∷ [])
        none
    pure manifest
