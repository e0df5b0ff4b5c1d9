-- ===== src/Evaluation/Evidence.antt =====
-- src/smart_factory/domain/model_evaluation.py
use smart_factory_monitor.Common.{
  ℕ, String, count, Bool, true, false, ◌&&◌, List, ◌∷◌, [], map, all, length, is_empty, leb, ◌==◌,
  if◌then◌else◌, fromkeys, Result, ok, ◌>>◌, guard,
}
use smart_factory_monitor.Domain.{Datetime, is_aware, is_hex_digest, is_machine_id}
use smart_factory_monitor.Telemetry.Reading.{Floats, within}

pub data FailedGate : Type 0 where
  minimum_samples maximum_anomaly_rate maximum_feature_psi : FailedGate

pub record ModelEvaluationEvidence (F : Type 0) : Type 0 where
  pub evaluation_id : ℕ
  pub evaluated_at : Datetime
  pub model_id : String
  pub artifact_sha256 : String
  pub machine_id : String
  pub training_window_end : Datetime
  pub sample_count : ℕ
  pub anomaly_rate : F
  pub feature_psi : List (String × F)
  pub maximum_feature_psi : F
  pub passed : Bool
  pub failed_gates : List FailedGate

-- The first constraint that the evidence breaks.
pub data InvalidEvidence : Type 0 where
  model_id artifact_sha256 machine_id anomaly_rate feature_psi maximum_feature_psi timestamps
        inconsistent :
      InvalidEvidence

unfoldable pub same_bool : Bool → Bool → Bool
same_bool true b = b
same_bool false true = false
same_bool false false = true

-- `Field(min_length=1, max_length=n)`
unfoldable pub has_length : ℕ → String → Bool
has_length n text = leb 1 (count text) && leb (count text) n

module _ {F : Type 0} (f : Floats F) where
  -- `max(values, default=0.0)`: a later value replaces the first one only when it is greater.
  unfoldable pub max_from : F → List F → F
  max_from best [] = best
  max_from best (x ∷ xs) = max_from (if f.gt x best then x else best) xs

  unfoldable pub max_psi : List (String × F) → F
  unfolding max_from
  max_psi [] = f.of_int 0
  max_psi (x ∷ xs) = max_from x.1 (map (λ (y : String × F). y.1) xs)

  -- `Field(ge=0.0, allow_inf_nan=False)`
  unfoldable pub is_psi : F → Bool
  is_psi x = f.is_finite x && f.le (f.of_int 0) x

  unfoldable pub is_feature_psi : String × F → Bool
  unfolding is_psi has_length
  is_feature_psi x = has_length 64 x.0 && is_psi x.1

  -- `evidence_must_be_consistent`
  unfoldable pub is_consistent : ModelEvaluationEvidence F → Bool
  unfolding max_psi same_bool
  is_consistent e =
      let names : List String = map (λ (x : String × F). x.0) e.feature_psi in
      length names == length (fromkeys names)
      && f.eq e.maximum_feature_psi (max_psi e.feature_psi)
      && same_bool e.passed (is_empty e.failed_gates)
      && leb e.training_window_end.instant e.evaluated_at.instant

  -- What constructing a `ModelEvaluationEvidence` checks. A negative count is not a number here.
  unfoldable pub validate_evidence :
      ModelEvaluationEvidence F → Result InvalidEvidence (ModelEvaluationEvidence F)
  validate_evidence e = do
    guard (has_length 255 e.model_id) InvalidEvidence.model_id
    guard (is_hex_digest e.artifact_sha256) InvalidEvidence.artifact_sha256
    guard (is_machine_id e.machine_id) InvalidEvidence.machine_id
    guard (within f (f.of_int 0) (f.of_int 1) e.anomaly_rate) InvalidEvidence.anomaly_rate
    guard (all is_feature_psi e.feature_psi) InvalidEvidence.feature_psi
    guard (is_psi e.maximum_feature_psi) InvalidEvidence.maximum_feature_psi
    guard (is_aware e.evaluated_at && is_aware e.training_window_end) InvalidEvidence.timestamps
    guard (is_consistent e) InvalidEvidence.inconsistent
    ok e
