-- ===== src/Evaluation/Rows.antt =====
-- Methods that keep a property of every row of the table of
-- src/smart_factory/infrastructure/database/model_evaluation_store.py, and what a row that approves
-- says.
use smart_factory_monitor.Common.{
  String, Bool, Bool-cases, true, false, ◌&&◌, ◌≡◌, refl, inl, inr, [], ◌∷◌, any, all, All,
  All-append, arith, eq_iff, Result, Result-cases, ok, err,
}
use smart_factory_monitor.Common.Ensures.{Ensures, Ensures-guard, Ensures-ok}
use smart_factory_monitor.Common.Exec.{Exec, lift, require, ◌>>=◌}
use smart_factory_monitor.Domain.{is_hex_digest, is_machine_id, is_aware}
use smart_factory_monitor.Telemetry.Reading.{Floats, within}
use smart_factory_monitor.Evaluation.Evidence.{
  ModelEvaluationEvidence, has_length, is_psi, is_feature_psi, is_consistent, validate_evidence,
}
use smart_factory_monitor.Evaluation.Store.{
  RunError, Rows, raised_as, has_id, save_evidence, approves,
}

pub ok-raised_as :
    {E A : Type 0} (wrap : E → RunError) (r : Result E A) (x : A)
    → raised_as wrap r ≡ ok x
    → r ≡ ok x
unfolding raised_as
ok-raised_as wrap (ok y) x h = cc h
ok-raised_as wrap (err e) x h = absurd (cc h)

-- What the validation returns is the evidence that it was given.
pub validate_evidence-same :
    {F : Type 0} (f : Floats F) (e : ModelEvaluationEvidence F)
    → Ensures (λ x. e ≡ x) (validate_evidence f e)
unfolding validate_evidence
validate_evidence-same f e = Ensures-guard (has_length 255 e.model_id) _ _ λ _.
    Ensures-guard (is_hex_digest e.artifact_sha256) _ _ λ _.
      Ensures-guard (is_machine_id e.machine_id) _ _ λ _.
        Ensures-guard (within f (f.of_int 0) (f.of_int 1) e.anomaly_rate) _ _ λ _.
          Ensures-guard (all (is_feature_psi f) e.feature_psi) _ _ λ _.
            Ensures-guard (is_psi f e.maximum_feature_psi) _ _ λ _.
              Ensures-guard (is_aware e.evaluated_at && is_aware e.training_window_end) _ _
                λ _. Ensures-guard (is_consistent f e) _ _ λ _. Ensures-ok e refl

module _ {F : Type 0} (P : ModelEvaluationEvidence F → Type 0) where
  -- The rows keep the property, whether the method returns or raises.
  abbrev pub Keeps : {A : Type 0} → Exec (Rows F) RunError A → Type 0
  Keeps m = (rows : Rows F) → All P rows → All P (m rows).1

  pub Keeps-bind :
      {A B : Type 0} (m : Exec (Rows F) RunError A) (f : A → Exec (Rows F) RunError B)
      → Keeps m
      → ((x : A) → Keeps (f x))
      → Keeps (m >>= f)
  Keeps-bind m f hm hf rows p = elim (Result-cases (m rows).0) [
    | inl (x, e) ↦ rw e (hf x (m rows).1 (hm rows p))
    | inr (x, e) ↦ rw e (hm rows p)
  ]

  pub Keeps-lift :
      {A B : Type 0} (r : Result RunError A) (f : A → Exec (Rows F) RunError B)
      → ((x : A) → r ≡ ok x → Keeps (f x))
      → Keeps (lift r >>= f)
  Keeps-lift (ok x) f h = h x refl
  Keeps-lift (err e) f h = λ rows p. p

  pub Keeps-require : (b : Bool) (e : RunError) → Keeps (require b e)
  Keeps-require true e rows p = p
  Keeps-require false e rows p = p

  pub Keeps-save_evidence : (e : ModelEvaluationEvidence F) → P e → Keeps (save_evidence e)
  unfolding save_evidence
  Keeps-save_evidence e h rows p = elim (Bool-cases (any (has_id e.evaluation_id) rows)) [
    | inl t ↦ rw t p
    | inr t ↦ rw t (All-append P rows (e ∷ []) p (h, tt))
  ]

pub of_approves :
    {F : Type 0} (machine_id model_id artifact_sha256 : String) (e : ModelEvaluationEvidence F)
    → approves machine_id model_id artifact_sha256 e ≡ true
    → (e.machine_id ≡ machine_id)
      × (e.model_id ≡ model_id)
      × (e.artifact_sha256 ≡ artifact_sha256)
      × (e.passed ≡ true)
unfolding approves
of_approves m k d e h =
    ground (arith, eq_iff e.machine_id m, eq_iff e.model_id k, eq_iff e.artifact_sha256 d)
