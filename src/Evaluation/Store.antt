-- ===== src/Evaluation/Store.antt =====
-- src/smart_factory/infrastructure/database/model_evaluation_store.py on the rows of its table, and
-- `run` of evaluate_model_main.py. The log line and the closing of the pools are left out.
use smart_factory_monitor.Common.{
  ℕ, Option, none, some, String, Bool, not, ◌&&◌, List, [], ◌∷◌, ◌++◌, any, ◌==◌, is_empty, str_eq,
  if◌then◌else◌, Result, ok, err,
}
use smart_factory_monitor.Common.Exec.{Exec, pure, lift, require, ◌>>=◌, ◌>>◌}
use smart_factory_monitor.Domain.{Datetime}
use smart_factory_monitor.Telemetry.Reading.{TelemetryReading}
use smart_factory_monitor.Settings.Ml.{MlSettings}
use smart_factory_monitor.Evaluation.Evidence.{
  ModelEvaluationEvidence, InvalidEvidence, validate_evidence,
}
use smart_factory_monitor.Evaluation.Evaluator.{
  Arithmetic, IsolationForestArtifact, IsolationForestModelEvaluator, ModelEvaluationReport,
  EvaluationError, evaluate, report_maximum,
}

-- What a loaded detector gives to the evaluation.
pub record LoadedDetector (F : Type 0) : Type 0 where
  pub artifact : IsolationForestArtifact F
  pub artifact_sha256 : String

pub data RunError : Type 0 where
  no_public_key preparation artifact history duplicate_id : RunError
  evaluation : EvaluationError → RunError
  evidence : InvalidEvidence → RunError
  gates_failed : List String → RunError

-- The verifier from its key file and the opening of the two pools, which may raise; the candidate
-- of a machine, its readings after an instant up to a limit, and the id and the instant that the
-- evidence of a machine gets when it is built.
pub record EvaluationPorts (F : Type 0) : Type 0 where
  pub open_stores : String → Result RunError (Unit {0})
  pub load : String → Result RunError (LoadedDetector F)
  pub readings_since : String → Datetime → ℕ → Result RunError (List (TelemetryReading F))
  pub evaluation_id : String → ℕ
  pub evaluated_at : String → Datetime

abbrev pub Rows : Type 0 → Type 0
Rows F = List (ModelEvaluationEvidence F)

unfoldable pub raised_as : {E A : Type 0} → (E → RunError) → Result E A → Result RunError A
raised_as wrap (ok x) = ok x
raised_as wrap (err e) = err (wrap e)

module _ {F : Type 0} where
  unfoldable pub has_id : ℕ → ModelEvaluationEvidence F → Bool
  has_id id e = e.evaluation_id == id

  append_row : ModelEvaluationEvidence F → Exec (Rows F) RunError (Unit {0})
  append_row e rows = (ok tt, rows ++ (e ∷ []))

  -- `evaluation_id` is the primary key of the table.
  unfoldable pub save_evidence : ModelEvaluationEvidence F → Exec (Rows F) RunError (Unit {0})
  unfolding append_row has_id
  save_evidence e rows =
      (require (not (any (has_id e.evaluation_id) rows)) RunError.duplicate_id >> append_row e) rows

  unfoldable pub approves : String → String → String → ModelEvaluationEvidence F → Bool
  approves machine_id model_id artifact_sha256 e =
      str_eq e.machine_id machine_id
      && str_eq e.model_id model_id
      && str_eq e.artifact_sha256 artifact_sha256
      && e.passed

  unfoldable pub has_passed : String → String → String → Rows F → Bool
  has_passed machine_id model_id artifact_sha256 rows =
      any (approves machine_id model_id artifact_sha256) rows

module _ {F : Type 0} (a : Arithmetic F) (p : EvaluationPorts F) (s : MlSettings F) where
  unfoldable pub evaluator : LoadedDetector F → IsolationForestModelEvaluator F
  evaluator d = record {
    artifact = d.artifact;
    minimum_samples = s.evaluation_minimum_samples;
    maximum_anomaly_rate = s.maximum_evaluation_anomaly_rate;
    maximum_feature_psi = s.maximum_feature_psi;
  }

  unfoldable pub evidence_of :
      String → LoadedDetector F → ModelEvaluationReport F → ModelEvaluationEvidence F
  evidence_of machine d r = record {
    evaluation_id = p.evaluation_id machine;
    evaluated_at = p.evaluated_at machine;
    model_id = r.model_id;
    artifact_sha256 = d.artifact_sha256;
    machine_id = r.machine_id;
    training_window_end = d.artifact.training_window_end;
    sample_count = r.sample_count;
    anomaly_rate = r.anomaly_rate;
    feature_psi = r.feature_psi;
    maximum_feature_psi = report_maximum a r;
    passed = r.passed;
    failed_gates = r.failed_gates;
  }

  -- The body of the loop over the machines; the result is whether the report passed.
  unfoldable pub evaluate_machine : String → Exec (Rows F) RunError Bool
  evaluate_machine machine = do
    d ← lift (p.load machine)
    readings ← lift (p.readings_since machine d.artifact.training_window_end s.evaluation_limit)
    report ← lift (raised_as RunError.evaluation (evaluate a (evaluator d) readings))
    e ←
        lift
          (raised_as RunError.evidence (validate_evidence a.floats (evidence_of machine d report)))
    save_evidence e
    pure report.passed

  -- The machines whose report failed.
  unfoldable pub evaluate_machines : List String → Exec (Rows F) RunError (List String)
  evaluate_machines [] = pure []
  evaluate_machines (machine ∷ machines) = do
    passed ← evaluate_machine machine
    failed ← evaluate_machines machines
    pure (if passed then failed else machine ∷ failed)

  -- `ml_settings.signature_public_key_path` is required.
  unfoldable pub prepared : Option String → Result RunError (Unit {0})
  prepared none = err RunError.no_public_key
  prepared (some path) = p.open_stores path

  unfoldable pub run : List String → Exec (Rows F) RunError (Unit {0})
  run machines = do
    lift (prepared s.signature_public_key_path)
    failed ← evaluate_machines machines
    require (is_empty failed) (RunError.gates_failed failed)
