-- ===== src/Evaluation/Approval.antt =====
-- What an approval stands for: `run` of src/smart_factory/evaluate_model_main.py over the rows of
-- infrastructure/database/model_evaluation_store.py.
use smart_factory_monitor.Common.{
  String, Bool, Bool-cases, true, ◌||◌, ◌≡◌, refl, sym, ◌∙◌, ap, inl, inr, List, [], ◌∷◌, any, all,
  All, length, is_empty, ok,
}
use smart_factory_monitor.Common.Exec.{pure, ◌>>=◌}
use smart_factory_monitor.Telemetry.Reading.{TelemetryReading}
use smart_factory_monitor.Settings.Ml.{MlSettings}
use smart_factory_monitor.Evaluation.Evidence.{ModelEvaluationEvidence, validate_evidence}
use smart_factory_monitor.Evaluation.Evaluator.{
  Arithmetic, ModelEvaluationReport, is_own, evaluate, rate_of,
}
use smart_factory_monitor.Evaluation.Gates.{MeetsGates, HasEvaluated-evaluate}
use smart_factory_monitor.Evaluation.Rows.{
  ok-raised_as, validate_evidence-same, of_approves, Keeps, Keeps-bind, Keeps-lift, Keeps-require,
  Keeps-save_evidence,
}
use smart_factory_monitor.Evaluation.Store.{
  LoadedDetector, RunError, EvaluationPorts, Rows, raised_as, save_evidence, approves, has_passed,
  evaluator, evidence_of, evaluate_machine, evaluate_machines, prepared, run,
}

module _ {F : Type 0} (a : Arithmetic F) (p : EvaluationPorts F) (s : MlSettings F) where
  -- Some evaluation of an artifact, of a machine whose readings it was given, met every gate.
  pub record IsApproved (machine_id model_id artifact_sha256 : String) : Type 0 where
    pub candidate : String
    pub detector : LoadedDetector F
    pub readings : List (TelemetryReading F)
    pub report : ModelEvaluationReport F
    pub has_loaded : p.load candidate ≡ ok detector
    pub read :
        p.readings_since candidate detector.artifact.training_window_end s.evaluation_limit
        ≡ ok readings
    pub same_machine : detector.artifact.machine_id ≡ machine_id
    pub same_model : detector.artifact.model_id ≡ model_id
    pub same_artifact : detector.artifact_sha256 ≡ artifact_sha256
    pub own : all (is_own a (evaluator a p s detector)) readings ≡ true
    pub reported : evaluate a (evaluator a p s detector) readings ≡ ok report
    pub meets :
        MeetsGates a
          (evaluator a p s detector)
          (length readings)
          (rate_of a (evaluator a p s detector) readings)
          report.feature_psi

  -- A row that says passed has such an evaluation.
  abbrev pub IsSound : ModelEvaluationEvidence F → Type 0
  IsSound e = e.passed ≡ true → IsApproved e.machine_id e.model_id e.artifact_sha256

  IsSound-evidence_of :
      (machine : String) (d : LoadedDetector F) (readings : List (TelemetryReading F))
      (r : ModelEvaluationReport F)
      → p.load machine ≡ ok d
      → p.readings_since machine d.artifact.training_window_end s.evaluation_limit ≡ ok readings
      → evaluate a (evaluator a p s d) readings ≡ ok r
      → IsSound (evidence_of a p s machine d r)
  unfolding evidence_of evaluator
  IsSound-evidence_of machine d readings r l k q passed =
      let done = HasEvaluated-evaluate a (evaluator a p s d) readings r q in
      record {
        candidate = machine;
        detector = d;
        readings = readings;
        report = r;
        has_loaded = l;
        read = k;
        same_machine = sym done.of_machine;
        same_model = sym done.of_model;
        same_artifact = refl;
        own = done.own;
        reported = q;
        meets = rw (← done.all_counted, ← done.rated) (done.judged.0 passed);
      }

  -- The last two steps of the loop's body.
  Keeps-saved :
      (e : ModelEvaluationEvidence F) (passed : Bool)
      → IsSound e
      → Keeps IsSound (save_evidence e >>= λ _. pure passed)
  Keeps-saved e passed sound =
      Keeps-bind IsSound (save_evidence e) (λ _. pure passed) (Keeps-save_evidence IsSound e sound)
        (λ _ rows kept. kept)

  Keeps-evaluate_machine : (machine : String) → Keeps IsSound (evaluate_machine a p s machine)
  unfolding evaluate_machine
  Keeps-evaluate_machine machine = Keeps-lift IsSound (p.load machine) _ λ d l.
      Keeps-lift IsSound
        (p.readings_since machine d.artifact.training_window_end s.evaluation_limit) _
        λ readings k.
          Keeps-lift IsSound
            (raised_as RunError.evaluation (evaluate a (evaluator a p s d) readings)) _
            λ r q.
              Keeps-lift IsSound
                (raised_as RunError.evidence
                  (validate_evidence a.floats (evidence_of a p s machine d r)))
                (λ e. save_evidence e >>= λ _. pure r.passed)
                λ e v.
                  let same : evidence_of a p s machine d r ≡ e =
                    (validate_evidence-same a.floats (evidence_of a p s machine d r)).holds e
                      (ok-raised_as RunError.evidence _ e v) in
                  Keeps-saved e r.passed (
                    rw (← same) (
                      IsSound-evidence_of machine d readings r l k
                        (ok-raised_as RunError.evaluation _ r q)))

  Keeps-evaluate_machines :
      (machines : List String) → Keeps IsSound (evaluate_machines a p s machines)
  unfolding evaluate_machines
  Keeps-evaluate_machines [] = λ rows kept. kept
  Keeps-evaluate_machines (machine ∷ machines) =
      Keeps-bind IsSound (evaluate_machine a p s machine) _ (Keeps-evaluate_machine machine)
        λ passed.
          Keeps-bind IsSound (evaluate_machines a p s machines) _ (Keeps-evaluate_machines machines)
            λ _ rows kept. kept

  Keeps-run : (machines : List String) → Keeps IsSound (run a p s machines)
  unfolding run
  Keeps-run machines = Keeps-lift IsSound (prepared a p s s.signature_public_key_path) _ λ _ _.
      Keeps-bind IsSound (evaluate_machines a p s machines) _ (Keeps-evaluate_machines machines)
        λ failed. Keeps-require IsSound (is_empty failed) (RunError.gates_failed failed)

  IsApproved-of_any :
      (machine_id model_id artifact_sha256 : String) (rows : Rows F)
      → All IsSound rows
      → any (approves machine_id model_id artifact_sha256) rows ≡ true
      → IsApproved machine_id model_id artifact_sha256
  IsApproved-of_any m k d [] g q = absurd (cc q)
  IsApproved-of_any m k d (e ∷ rows) g q = elim (Bool-cases (approves m k d e)) [
    | inl t ↦ let (x, y, z, passed) = of_approves m k d e t in rw (← x, ← y, ← z) (g.0 passed)
    | inr t ↦
        IsApproved-of_any m k d rows g.1 (sym (ap (λ b. b || any (approves m k d) rows) t) ∙ q)
  ]

  -- When every row of the table that says passed has an evaluation behind it, and `run` has gone
  -- over the machines, returned or raised, then an artifact that `has_passed` accepts has one too:
  -- the candidate of some machine was loaded with this machine, model and digest, the readings
  -- after its training window were its own, there were enough of them, the anomaly rate among them
  -- is not above its limit, and neither is any stability index of the report.
  pub has_passed-IsApproved :
      (machines : List String) (rows : Rows F) (machine_id model_id artifact_sha256 : String)
      → All IsSound rows
      → has_passed machine_id model_id artifact_sha256 (run a p s machines rows).1 ≡ true
      → IsApproved machine_id model_id artifact_sha256
  unfolding has_passed
  has_passed-IsApproved machines rows m k d g q =
      IsApproved-of_any m k d (run a p s machines rows).1 (Keeps-run machines rows g) q
