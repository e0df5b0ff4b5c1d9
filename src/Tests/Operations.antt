-- ===== src/Tests/Operations.antt =====
-- A promotion of one candidate and a rotation of the key "k1", on a trail that keeps its events.
use smart_factory_monitor.Common.{
  ℕ, suc, String, true, ◌≡◌, ◌⊎◌, refl, List, [], ◌∷◌, ◌++◌, none, ok, All, arith,
}
use smart_factory_monitor.Domain.{Datetime, utc, is_aware}
use smart_factory_monitor.Audit.Event.{OperatorAuditContext, OperatorAuditEvent}
use smart_factory_monitor.Registry.{ModelRegistryManifest}
use smart_factory_monitor.Operations.{World, Trail}
use smart_factory_monitor.Operations.Logging.{log_trail, IsAuditable}
use smart_factory_monitor.Operations.Promotion.{
  PromotionCandidate, RegistryPorts, check_approvals, promote,
}
use smart_factory_monitor.Operations.Promotion.Gate.{IsApproved, promote_gated, start}
use smart_factory_monitor.Operations.Promotion.Record.{
  started_event, closing_event, promote_recorded,
}
use smart_factory_monitor.Operations.Rotation.{Rotator, rotate}
use smart_factory_monitor.Operations.Rotation.Approval as Approval
use smart_factory_monitor.Operations.Rotation.Approval.{locked, read, at_start, rotate_gated}

abbrev context : OperatorAuditContext
context = record { actor = "ada"; reason = "quarterly review"; correlation_id = 9 }

abbrev draw : ℕ → ℕ × Datetime
draw n = (n, utc n)

abbrev uuid_text : ℕ → String
uuid_text n = "u"

abbrev trail : Trail (List OperatorAuditEvent)
trail = log_trail draw uuid_text

abbrev candidate : PromotionCandidate
candidate = record {
  machine_id = "press-01";
  model_id = "m1";
  artifact_sha256 = "d1";
  artifact_path = "/models/m1";
}

abbrev manifest : ModelRegistryManifest
manifest = record {
  generation_id = 1;
  created_at = utc 100;
  previous_generation_id = none;
  source_generation_id = none;
  entries = record { machine_id = "press-01"; model_id = "m1"; artifact_sha256 = "d1" } ∷ [];
}

-- The registry counts its publications.
abbrev ports : RegistryPorts ℕ
ports = record {
  has_passed = λ machine model digest. ok true;
  publish = λ candidates n. (ok manifest, suc n);
  rollback = λ generation n. (ok manifest, suc n);
}

abbrev world : World ℕ (List OperatorAuditEvent)
world = record { target = 0; trail = []; drawn = 0 }

promote_gated_example :
    ((promote ports trail context (candidate ∷ []) world).1.target ≡ 0)
    ⊎ (((start ports trail context (candidate ∷ []) world).0 ≡ ok tt)
        × All (IsApproved ports) (candidate ∷ [])
        × ((promote ports trail context (candidate ∷ []) world).1.target ≡ 1))
promote_gated_example = promote_gated ports trail context (candidate ∷ []) world

auditable : IsAuditable context draw
unfolding is_aware
auditable = record { actor = refl; reason = refl; aware = λ n. refl }

promote_recorded_example :
    (promote ports trail context (candidate ∷ []) world).1.trail
    ≡ []
      ++ (started_event ports context draw uuid_text (candidate ∷ []) 0
          ∷ closing_event ports context draw uuid_text
              (candidate ∷ [])
              (promote ports trail context (candidate ∷ []) world).0
              1
          ∷ [])
promote_recorded_example =
    promote_recorded ports context draw uuid_text auditable (candidate ∷ []) world
      (λ x h. absurd (unfold check_approvals in ground (arith, h)))

-- A rotator that counts its rotations; its lock leaves no trace.
abbrev rotator : Rotator ℕ
rotator = record {
  enter = λ n. (ok tt, n);
  leave = λ n. n;
  current_key_id = λ n. (ok "k1", n);
  rotate =
      λ n. (ok (record { transition_id = 4; previous_key_id = "k1"; new_key_id = "k2" }), suc n);
}

rotate_gated_example :
    ((rotate rotator trail context "k1" world).1.target ≡ 0)
    ⊎ (((rotator.current_key_id (locked rotator trail context "k1" world)).0 ≡ ok "k1")
        × ((Approval.start rotator trail context "k1" world "k1"
              (at_start rotator trail context "k1" world)).0
            ≡ ok tt)
        × ((rotate rotator trail context "k1" world).1.target ≡ 1))
rotate_gated_example = rotate_gated rotator trail context "k1" world refl
