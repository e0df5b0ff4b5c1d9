-- ===== src/Evaluation/Evaluator.antt =====
-- `IsolationForestModelEvaluator` of src/smart_factory/infrastructure/ml/isolation_forest.py. The
-- fitted estimator is a function of scikit-learn; the arithmetic of floats is a parameter.
use smart_factory_monitor.Common.{
  ℕ, Option, none, some, zero, suc, String, Bool, true, false, List, [], ◌∷◌, ◌++◌, map, all, any,
  length, ltb, str_eq, if◌then◌else◌, ℤ, same_int, Result, ok, err, ◌>>=◌, ◌>>◌, guard, is_empty,
}
use smart_factory_monitor.Domain.{Datetime}
use smart_factory_monitor.Telemetry.Reading.{Floats, TelemetryReading}
use smart_factory_monitor.Evaluation.Evidence.{FailedGate, max_psi}

-- The operations of floats that the evaluator uses beside those of the readings.
pub record Arithmetic (F : Type 0) : Type 0 where
  pub floats : Floats F
  pub mul : F → F → F
  pub div : F → F → F
  -- `math.log`, which raises for a number that is not positive.
  pub log : F → Option F
  -- `1e-6`
  pub epsilon : F

pub record FeatureReferenceDistribution (F : Type 0) : Type 0 where
  pub bin_edges : List F
  pub proportions : List F

pub record IsolationForestArtifact (F : Type 0) : Type 0 where
  -- `estimator.predict(rows).tolist()`
  pub predict : List (List F) → List ℤ
  pub model_id : String
  pub machine_id : String
  pub training_window_end : Datetime
  pub reference_distributions : List (String × FeatureReferenceDistribution F)

pub record ModelEvaluationReport (F : Type 0) : Type 0 where
  pub model_id : String
  pub machine_id : String
  pub sample_count : ℕ
  pub anomaly_rate : F
  pub feature_psi : List (String × F)
  pub passed : Bool
  pub failed_gates : List FailedGate

pub record IsolationForestModelEvaluator (F : Type 0) : Type 0 where
  pub artifact : IsolationForestArtifact F
  pub minimum_samples : ℕ
  pub maximum_anomaly_rate : F
  pub maximum_feature_psi : F

-- `foreign_readings` is the ValueError of `evaluate`; the others are raised by an artifact whose
-- reference has a fifth feature, not one proportion more than edges, or a proportion that is not
-- finite.
pub data EvaluationError : Type 0 where
  foreign_readings index_error zip_error math_domain_error : EvaluationError

-- `counts[index] += 1`
unfoldable pub increment : ℕ → List ℕ → List ℕ
increment i [] = []
increment zero (n ∷ ns) = suc n ∷ ns
increment (suc i) (n ∷ ns) = n ∷ increment i ns

unfoldable pub zeros : ℕ → List ℕ
zeros zero = []
zeros (suc n) = 0 ∷ zeros n

unfoldable pub get_elem? : {A : Type 0} → ℕ → List A → Result EvaluationError A
get_elem? i [] = err EvaluationError.index_error
get_elem? zero (x ∷ xs) = ok x
get_elem? (suc i) (x ∷ xs) = get_elem? i xs

module _ {F : Type 0} (a : Arithmetic F) where
  unfoldable pub features : TelemetryReading F → List F
  features r =
      r.temperature_c ∷ r.vibration_mm_s ∷ r.power_kw ∷ a.floats.of_int r.production_rate ∷ []

  -- `bisect_right` on edges in ascending order: how many are not above the value.
  unfoldable pub bisect_right : List F → F → ℕ
  bisect_right [] x = 0
  bisect_right (edge ∷ edges) x =
      let rest : ℕ = bisect_right edges x in if a.floats.gt edge x then 0 else suc rest

  unfoldable pub bin_counts : List F → List F → List ℕ
  unfolding bisect_right increment zeros
  bin_counts edges [] = zeros (suc (length edges))
  bin_counts edges (x ∷ xs) = increment (bisect_right edges x) (bin_counts edges xs)

  -- `_distribution` with given edges, on values that are not empty.
  unfoldable pub distribution : List F → List F → FeatureReferenceDistribution F
  unfolding bin_counts
  distribution values edges = record {
    bin_edges = edges;
    proportions =
        map (λ n. a.div (a.floats.of_int n) (a.floats.of_int (length values)))
          (bin_counts edges values);
  }

  -- `max(x, epsilon)`
  unfoldable pub at_least_epsilon : F → F
  at_least_epsilon x = if a.floats.gt a.epsilon x then a.epsilon else x

  logged : Option F → Result EvaluationError F
  logged none = err EvaluationError.math_domain_error
  logged (some x) = ok x

  unfoldable pub psi_term : F → F → Result EvaluationError F
  unfolding logged
  psi_term expected actual = do
    logarithm ← logged (a.log (a.div (at_least_epsilon actual) (at_least_epsilon expected)))
    ok (a.mul (a.floats.sub (at_least_epsilon actual) (at_least_epsilon expected)) logarithm)

  -- The sum over `zip(reference, observed, strict=True)`, from the left.
  unfoldable pub psi_sum : F → List F → List F → Result EvaluationError F
  psi_sum total [] [] = ok total
  psi_sum total (x ∷ xs) (y ∷ ys) = do term ← psi_term x y; psi_sum (a.floats.add total term) xs ys
  psi_sum total [] (y ∷ ys) = err EvaluationError.zip_error
  psi_sum total (x ∷ xs) [] = err EvaluationError.zip_error

  unfoldable pub population_stability_index :
      FeatureReferenceDistribution F → List F → Result EvaluationError F
  population_stability_index reference [] = ok (a.floats.of_int 0)
  population_stability_index reference (x ∷ xs) =
      psi_sum (a.floats.of_int 0) reference.proportions
        (distribution (x ∷ xs) reference.bin_edges).proportions

  -- `[row[index] for row in feature_rows]`
  unfoldable pub column : ℕ → List (List F) → Result EvaluationError (List F)
  unfolding get_elem?
  column i [] = ok []
  column i (row ∷ rows) = do x ← get_elem? i row; xs ← column i rows; ok (x ∷ xs)

  -- The loop over `enumerate(reference_distributions)`.
  unfoldable pub feature_psi_from :
      ℕ
      → List (String × FeatureReferenceDistribution F)
      → List (List F)
      → Result EvaluationError (List (String × F))
  feature_psi_from i [] rows = ok []
  feature_psi_from i ((name, reference) ∷ rest) rows = do
    values ← column i rows
    psi ← population_stability_index reference values
    others ← feature_psi_from (suc i) rest rows
    ok ((name, psi) ∷ others)

  -- `sum(prediction == -1 for prediction in predictions)`
  unfoldable pub outliers : List ℤ → ℕ
  outliers [] = 0
  outliers (p ∷ ps) =
      let rest : ℕ = outliers ps in if same_int p (ℤ.negsuc 0) then suc rest else rest

  -- Without readings there is nothing to predict, and without predictions no anomaly.
  unfoldable pub predictions_of : IsolationForestArtifact F → List (List F) → List ℤ
  predictions_of artifact [] = []
  predictions_of artifact (row ∷ rows) = artifact.predict (row ∷ rows)

  unfoldable pub anomaly_rate_of : List ℤ → F
  unfolding outliers
  anomaly_rate_of [] = a.floats.of_int 0
  anomaly_rate_of (p ∷ ps) =
      a.div (a.floats.of_int (outliers (p ∷ ps))) (a.floats.of_int (length (p ∷ ps)))

  unfoldable pub gate : Bool → FailedGate → List FailedGate
  gate true g = g ∷ []
  gate false g = []

  unfoldable pub exceeds : F → List (String × F) → Bool
  exceeds limit psi = any (λ (x : String × F). a.floats.gt x.1 limit) psi

  module _ (e : IsolationForestModelEvaluator F) where
    unfoldable pub failed_gates_of : ℕ → F → List (String × F) → List FailedGate
    unfolding gate exceeds
    failed_gates_of samples rate psi =
        gate (ltb samples e.minimum_samples) FailedGate.minimum_samples
        ++ gate (a.floats.gt rate e.maximum_anomaly_rate) FailedGate.maximum_anomaly_rate
        ++ gate (exceeds e.maximum_feature_psi psi) FailedGate.maximum_feature_psi

    unfoldable pub is_own : TelemetryReading F → Bool
    is_own r = str_eq r.machine_id e.artifact.machine_id

    unfoldable pub report_of :
        List (TelemetryReading F) → F → List (String × F) → ModelEvaluationReport F
    report_of readings rate psi =
        let failed : List FailedGate = failed_gates_of (length readings) rate psi in
        record {
          model_id = e.artifact.model_id;
          machine_id = e.artifact.machine_id;
          sample_count = length readings;
          anomaly_rate = rate;
          feature_psi = psi;
          passed = is_empty failed;
          failed_gates = failed;
        }

    unfoldable pub rate_of : List (TelemetryReading F) → F
    unfolding features predictions_of anomaly_rate_of
    rate_of readings = anomaly_rate_of (predictions_of e.artifact (map features readings))

    unfoldable pub evaluate :
        List (TelemetryReading F) → Result EvaluationError (ModelEvaluationReport F)
    evaluate readings = do
      guard (all is_own readings) EvaluationError.foreign_readings
      psi ← feature_psi_from 0 e.artifact.reference_distributions (map features readings)
      ok (report_of readings (rate_of readings) psi)

  -- `ModelEvaluationReport.maximum_feature_psi`
  unfoldable pub report_maximum : ModelEvaluationReport F → F
  report_maximum r = max_psi a.floats r.feature_psi
