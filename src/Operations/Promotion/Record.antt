-- ===== src/Operations/Promotion/Record.antt =====
-- A promotion leaves two audit events, whatever its end: its start, and how it ended.
use smart_factory_monitor.Common.{
  ℕ, ◌+◌, String, ◌≡◌, refl, ◌⊎◌, inl, inr, true, List, [], ◌∷◌, ◌++◌, append_assoc, some, none,
  arith, Result, ok, err, Result-cases,
}
use smart_factory_monitor.Domain.{Datetime}
use smart_factory_monitor.Audit.Event.{
  AuditValue, OperatorAction, OperatorActionOutcome, OperatorAuditContext, OperatorAuditEvent,
  keys_unique, length_within, error_type_matches,
}
use smart_factory_monitor.Registry.{ModelRegistryManifest}
use smart_factory_monitor.Operations.{Failure, error_name, World, Trail, record_event}
use smart_factory_monitor.Operations.Logging.{log_trail, IsAuditable, event_of, record_event_logs}
use smart_factory_monitor.Operations.Promotion.{
  PromotionCandidate, RegistryPorts, check_approvals, intended_state, promote, optional_uuid,
  manifest_machine_ids, record_manifest_transition,
}

module _ {R : Type 0} (ports : RegistryPorts R) (context : OperatorAuditContext)
    (draw : ℕ → ℕ × Datetime) (uuid_text : ℕ → String) where
  abbrev trail : Trail (List OperatorAuditEvent)
  trail = log_trail draw uuid_text

  -- The event of how a promotion ended: the generations and the machines of a published manifest,
  -- or what was intended and the type of the exception.
  pub closing_event :
      List PromotionCandidate → Result Failure ModelRegistryManifest → ℕ → OperatorAuditEvent
  unfolding optional_uuid
  closing_event candidates (ok m) =
      event_of context draw OperatorAction.model_promotion OperatorActionOutcome.succeeded
        (("generation_id", optional_uuid ports trail context m.previous_generation_id) ∷ [])
        (("generation_id", AuditValue.text (uuid_text m.generation_id))
          ∷ ("machine_ids", manifest_machine_ids ports trail context m)
          ∷ [])
        none
  closing_event candidates (err x) =
      event_of context draw OperatorAction.model_promotion OperatorActionOutcome.failed []
        (intended_state candidates) (some (error_name x))

  pub started_event : List PromotionCandidate → ℕ → OperatorAuditEvent
  started_event candidates =
      event_of context draw OperatorAction.model_promotion OperatorActionOutcome.started []
        (intended_state candidates) none

  module _ (auditable : IsAuditable context draw) where
    logs-started :
        (candidates : List PromotionCandidate) (w : World R (List OperatorAuditEvent))
        → record_event trail context OperatorAction.model_promotion OperatorActionOutcome.started []
            (intended_state candidates)
            none
            w
          ≡ (
            ok tt,
            record w {
              trail = w.trail ++ (started_event candidates w.drawn ∷ []);
              drawn = w.drawn + 1;
            },
          )
    unfolding started_event
    logs-started candidates w =
        record_event_logs context draw uuid_text OperatorAction.model_promotion
          OperatorActionOutcome.started [] (intended_state candidates) none w auditable
          (unfold keys_unique in refl) (unfold keys_unique intended_state in refl) refl
          (unfold error_type_matches in refl)

    logs-failed :
        (candidates : List PromotionCandidate) (x : Failure) (w : World R (List OperatorAuditEvent))
        → length_within 255 (error_name x) ≡ true
        → record_event trail context OperatorAction.model_promotion OperatorActionOutcome.failed []
            (intended_state candidates)
            (some (error_name x))
            w
          ≡ (
            ok tt,
            record w {
              trail = w.trail ++ (closing_event candidates (err x) w.drawn ∷ []);
              drawn = w.drawn + 1;
            },
          )
    unfolding closing_event
    logs-failed candidates x w named =
        record_event_logs context draw uuid_text OperatorAction.model_promotion
          OperatorActionOutcome.failed [] (intended_state candidates) (some (error_name x)) w
          auditable (unfold keys_unique in refl) (unfold keys_unique intended_state in refl) named
          (unfold error_type_matches in refl)

    logs-succeeded :
        (candidates : List PromotionCandidate) (m : ModelRegistryManifest)
        (w : World R (List OperatorAuditEvent))
        → record_manifest_transition ports trail context OperatorAction.model_promotion m w ≡ (
          ok tt,
          record w {
            trail = w.trail ++ (closing_event candidates (ok m) w.drawn ∷ []);
            drawn = w.drawn + 1;
          },
        )
    unfolding closing_event record_manifest_transition
    logs-succeeded candidates m w =
        record_event_logs context draw uuid_text OperatorAction.model_promotion
          OperatorActionOutcome.succeeded _ _ none w auditable (unfold keys_unique in refl)
          (unfold keys_unique in refl) refl (unfold error_type_matches in refl)

    -- With a trail that keeps its events, an audit context within its limits and ports whose
    -- exceptions have a type name of 1 to 255 characters, a promotion adds exactly two events to
    -- the trail: that it started, with the candidates, and how it ended, with the manifest that it
    -- returns or the type of the exception that it raises.
    pub promote_recorded :
        (candidates : List PromotionCandidate) (w : World R (List OperatorAuditEvent))
        → ((x : Failure)
            → (check_approvals ports candidates ≡ err x)
              ⊎ ((ports.publish candidates w.target).0 ≡ err x)
            → length_within 255 (error_name x) ≡ true)
        → (promote ports trail context candidates w).1.trail
          ≡ w.trail
            ++ (started_event candidates w.drawn
                ∷ closing_event candidates
                    (promote ports trail context candidates w).0
                    (w.drawn + 1)
                ∷ [])
    unfolding promote
    promote_recorded candidates w named =
        let s : World R (List OperatorAuditEvent) = record w {
          trail = w.trail ++ (started_event candidates w.drawn ∷ []);
          drawn = w.drawn + 1;
        } in
        let split = append_assoc w.trail (started_event candidates w.drawn ∷ []) in
        elim (Result-cases (check_approvals ports candidates)) [
          | inr (x, q) ↦ ground (
            arith,
            q,
            logs-started candidates w,
            logs-failed candidates x s (named x (inl q)),
            split (closing_event candidates (err x) (w.drawn + 1) ∷ []),
          )
          | inl (_, q) ↦
              let t : World R (List OperatorAuditEvent) = record s {
                target = (ports.publish candidates w.target).1;
              } in
              elim (Result-cases (ports.publish candidates w.target).0) [
                | inr (x, r) ↦ ground (
                  arith,
                  q,
                  r,
                  logs-started candidates w,
                  logs-failed candidates x t (named x (inr r)),
                  split (closing_event candidates (err x) (w.drawn + 1) ∷ []),
                )
                | inl (m, r) ↦ ground (
                  arith,
                  q,
                  r,
                  logs-started candidates w,
                  logs-succeeded candidates m t,
                  split (closing_event candidates (ok m) (w.drawn + 1) ∷ []),
                )
              ]
        ]
