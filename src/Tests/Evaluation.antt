-- ===== src/Tests/Evaluation.antt =====
-- An evaluation of one machine over whole numbers for floats.
use smart_factory_monitor.Common.{
  ℕ, same_int, all_codes, fromkeys, without, ◌*◌, String, true, false, ◌≡◌, refl, ◌⊎◌, [], ◌∷◌, map,
  all, ℤ, none, some, ok, err, arith, if◌then◌else◌, ◌==◌, ◌/◌,
}
use smart_factory_monitor.Domain.{utc, is_aware, is_hex_digest, is_machine_id, is_slug_from}
use smart_factory_monitor.Telemetry.Reading.{within}
use smart_factory_monitor.Settings.Ml.{MlSettings}
use smart_factory_monitor.Evaluation.Evidence.{
  validate_evidence, has_length, is_consistent, is_feature_psi, is_psi, max_from, max_psi,
  same_bool,
}
use smart_factory_monitor.Evaluation.Evaluator.{
  Arithmetic, FeatureReferenceDistribution, IsolationForestArtifact, IsolationForestModelEvaluator,
  ModelEvaluationReport, EvaluationError, is_own, evaluate, feature_psi_from, column, features,
  population_stability_index, psi_sum, distribution, anomaly_rate_of, at_least_epsilon, bin_counts,
  bisect_right, exceeds, failed_gates_of, gate, get_elem?, increment, outliers, predictions_of,
  psi_term, rate_of, report_maximum, report_of, zeros,
}
use smart_factory_monitor.Evaluation.Totality.{HasLogarithms}
use smart_factory_monitor.Evaluation.Gates.{IsOrdered, IsGreatest, HasEvaluated, evaluate_outcome}
use smart_factory_monitor.Evaluation.Store.{
  LoadedDetector, EvaluationPorts, has_passed, evaluator, run, prepared, evaluate_machines,
  evaluate_machine, raised_as, evidence_of, approves, has_id, save_evidence,
}
use smart_factory_monitor.Evaluation.Approval.{IsApproved, has_passed-IsApproved}
use smart_factory_monitor.Tests.Telemetry.{whole, hot}

abbrev quotient : ℕ → ℕ → ℕ
quotient m n = if n == 0 then 0 else m / n

abbrev pub numbers : Arithmetic ℕ
numbers = record {
  floats = whole;
  mul = λ m n. m * n;
  div = quotient;
  log = λ n. some n;
  epsilon = 0;
}

whole-IsOrdered : IsOrdered whole
whole-IsOrdered = record {
  above = λ x y z _ _ _ p q. ground arith;
  not_above = λ x y z _ _ _ p q. ground arith;
}

abbrev reference : FeatureReferenceDistribution ℕ
reference = record { bin_edges = 50 ∷ []; proportions = 0 ∷ 1 ∷ [] }

abbrev artifact : IsolationForestArtifact ℕ
artifact = record {
  predict = map (λ _. ℤ.pos 1);
  model_id = "press-01-model";
  machine_id = "press-01";
  training_window_end = utc 500;
  reference_distributions = ("temperature_c", reference) ∷ [];
}

abbrev sha : String
sha = "0123456789abcdef0123456789abcdef0123456789abcdef0123456789abcdef"

abbrev detector : LoadedDetector ℕ
detector = record { artifact = artifact; artifact_sha256 = sha }

abbrev ports : EvaluationPorts ℕ
ports = record {
  open_stores = λ _. ok tt;
  load = λ _. ok detector;
  readings_since = λ _ _ _. ok (hot ∷ hot ∷ []);
  evaluation_id = λ _. 1;
  evaluated_at = λ _. utc 2000;
}

abbrev settings : MlSettings ℕ
settings = record {
  enabled = true;
  model_directory = "models";
  machine_ids = "press-01" ∷ [];
  contamination = 0;
  minimum_training_samples = 100;
  training_limit = 1000;
  signature_public_key_path = some "model-key.pem";
  signing_private_key_path = none;
  evaluation_minimum_samples = 2;
  evaluation_limit = 1000;
  maximum_evaluation_anomaly_rate = 0;
  maximum_feature_psi = 0;
}

abbrev gates : IsolationForestModelEvaluator ℕ
gates = record {
  artifact = artifact;
  minimum_samples = 2;
  maximum_anomaly_rate = 0;
  maximum_feature_psi = 0;
}

numbers-HasLogarithms : HasLogarithms numbers
numbers-HasLogarithms = record { defined = λ p n m _ _ _. (_, refl) }

evaluate_outcome_example :
    ((all (is_own numbers gates) (hot ∷ hot ∷ []) ≡ false)
      × (evaluate numbers gates (hot ∷ hot ∷ []) ≡ err EvaluationError.foreign_readings))
    ⊎ ((r : ModelEvaluationReport ℕ) × (evaluate numbers gates (hot ∷ hot ∷ []) ≡ ok r)
        × HasEvaluated numbers gates (hot ∷ hot ∷ []) r
        × IsGreatest numbers gates r)
evaluate_outcome_example =
    evaluate_outcome numbers gates whole-IsOrdered numbers-HasLogarithms refl refl (hot ∷ hot ∷ [])
      (omega arith) (record { sizes = refl; finite = (refl, (refl, tt)) }, tt)

approved :
    has_passed "press-01" "press-01-model" sha (run numbers ports settings ("press-01" ∷ []) []).1
    ≡ true
unfolding has_passed run prepared evaluate is_own evaluator within feature_psi_from column features
    population_stability_index psi_sum distribution anomaly_rate_of at_least_epsilon bin_counts
    bisect_right exceeds failed_gates_of gate get_elem? increment outliers predictions_of psi_term
    rate_of report_maximum report_of zeros validate_evidence has_length is_consistent is_feature_psi
    is_psi max_from max_psi same_bool evaluate_machines evaluate_machine raised_as evidence_of
    approves has_id save_evidence is_aware is_hex_digest is_machine_id is_slug_from same_int
    all_codes fromkeys without
approved = refl

has_passed-IsApproved_example : IsApproved numbers ports settings "press-01" "press-01-model" sha
has_passed-IsApproved_example =
    has_passed-IsApproved numbers ports settings ("press-01" ∷ []) [] "press-01" "press-01-model"
      sha tt approved
