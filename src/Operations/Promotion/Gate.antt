-- ===== src/Operations/Promotion/Gate.antt =====
-- Promotion changes the registry only after its start is recorded and every candidate is approved.
use smart_factory_monitor.Common.{
  String, Option, ◌≡◌, ◌⊎◌, inl, inr, true, List, [], ◌∷◌, none, some, All, Result-cases, arith,
  Result, ok,
}
use smart_factory_monitor.Audit.Event.{
  AuditState, OperatorAction, OperatorActionOutcome, OperatorAuditContext,
}
use smart_factory_monitor.Registry.{ModelRegistryManifest}
use smart_factory_monitor.Operations.{Failure, error_name, World, Trail, record_event}
use smart_factory_monitor.Operations.Promotion.{
  PromotionCandidate, RegistryPorts, check_approvals, intended_state, promote,
  record_manifest_transition,
}

abbrev pub IsApproved : {R : Type 0} → RegistryPorts R → PromotionCandidate → Type 0
IsApproved ports k = ports.has_passed k.machine_id k.model_id k.artifact_sha256 ≡ ok true

IsApproved-of_check_approvals :
    {R : Type 0} (ports : RegistryPorts R) (candidates : List PromotionCandidate)
    → check_approvals ports candidates ≡ ok tt
    → All (IsApproved ports) candidates
unfolding check_approvals
IsApproved-of_check_approvals ports [] h = tt
IsApproved-of_check_approvals ports (k ∷ rest) h =
    (ground arith, IsApproved-of_check_approvals ports rest (ground arith))

module _ {R T : Type 0} (ports : RegistryPorts R) (trail : Trail T)
    (context : OperatorAuditContext) where
  target-record_event :
      (action : OperatorAction) (outcome : OperatorActionOutcome) (p q : AuditState)
      (x : Option String) (w : World R T)
      → (record_event trail context action outcome p q x w).1.target ≡ w.target
  unfolding record_event
  target-record_event action outcome p q x w = ground arith

  abbrev failure :
      List PromotionCandidate → Failure → World R T → Result Failure (Unit {0}) × World R T
  failure candidates error =
      record_event trail context OperatorAction.model_promotion OperatorActionOutcome.failed []
        (intended_state candidates) (some (error_name error))

  target-failed :
      (candidates : List PromotionCandidate) (x : Failure) (w : World R T)
      → (failure candidates x w).1.target ≡ w.target
  target-failed candidates x w =
      target-record_event OperatorAction.model_promotion OperatorActionOutcome.failed []
        (intended_state candidates) (some (error_name x)) w

  target-transition :
      (m : ModelRegistryManifest) (w : World R T)
      → (record_manifest_transition ports trail context OperatorAction.model_promotion m w).1.target
        ≡ w.target
  unfolding record_manifest_transition
  target-transition m w = target-record_event _ _ _ _ _ w

  abbrev published : List PromotionCandidate → World R T → World R T
  published candidates w = record w { target = (ports.publish candidates w.target).1 }

  abbrev pub start : List PromotionCandidate → World R T → Result Failure (Unit {0}) × World R T
  start candidates =
      record_event trail context OperatorAction.model_promotion OperatorActionOutcome.started []
        (intended_state candidates) none

  -- Whatever the trail and the ports do, a promotion leaves the registry as it was, or: its start
  -- was recorded, every candidate has passed its evaluation, and the registry is what one `publish`
  -- of the candidates makes of it.
  pub promote_gated :
      (candidates : List PromotionCandidate) (w : World R T)
      → ((promote ports trail context candidates w).1.target ≡ w.target)
        ⊎ (((start candidates w).0 ≡ ok tt)
            × All (IsApproved ports) candidates
            × ((promote ports trail context candidates w).1.target
                ≡ (ports.publish candidates w.target).1))
  unfolding promote
  promote_gated candidates w =
      let s = (start candidates w).1 in
      let kept =
        target-record_event OperatorAction.model_promotion OperatorActionOutcome.started []
          (intended_state candidates) none w in
      elim (Result-cases (start candidates w).0) [
        | inr (e, p) ↦ inl (ground (arith, p, kept))
        | inl (_, p) ↦ elim (Result-cases (check_approvals ports candidates)) [
          | inr (x, q) ↦ inl (ground (arith, p, q, kept, target-failed candidates x s))
          | inl (_, q) ↦ inr (
            p,
            IsApproved-of_check_approvals ports candidates q,
            elim (Result-cases (ports.publish candidates s.target).0) [
              | inr (x, r) ↦
                  ground (arith, p, q, r, kept, target-failed candidates x (published candidates s))
              | inl (m, r) ↦
                  ground (arith, p, q, r, kept, target-transition m (published candidates s))
            ],
          )
        ]
      ]
