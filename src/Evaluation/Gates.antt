-- ===== src/Evaluation/Gates.antt =====
-- What a report that passed says of the readings
-- (src/smart_factory/infrastructure/ml/isolation_forest.py).
use smart_factory_monitor.Common.{
  ℕ, ◌≤◌, String, Bool, true, false, Bool-cases, ◌≡◌, refl, ◌↔◌, List, [], ◌∷◌, map, all, any,
  is_empty, length, arith, ok, bind_inversion, guard_inversion, if◌then◌else◌, ◌||◌, err, guard,
  ◌⊎◌, inl, inr, All,
}
use smart_factory_monitor.Evaluation.Totality.{IsReference, HasLogarithms, Returns-feature_psi_from}
use smart_factory_monitor.Telemetry.Reading.{Floats, TelemetryReading}
use smart_factory_monitor.Evaluation.Evidence.{max_from, max_psi}
use smart_factory_monitor.Evaluation.Evaluator.{
  Arithmetic, IsolationForestModelEvaluator, ModelEvaluationReport, EvaluationError, features, gate,
  exceeds, failed_gates_of, feature_psi_from, is_own, report_of, rate_of, evaluate, report_maximum,
}

-- Being above orders the finite numbers: a third number that is above or not above carries over.
pub record IsOrdered {F : Type 0} (f : Floats F) : Type 0 where
  pub above :
      (x y z : F)
      → f.is_finite x ≡ true
      → f.is_finite y ≡ true
      → f.is_finite z ≡ true
      → f.gt x y ≡ true
      → f.gt y z ≡ true
      → f.gt x z ≡ true
  pub not_above :
      (x y z : F)
      → f.is_finite x ≡ true
      → f.is_finite y ≡ true
      → f.is_finite z ≡ true
      → f.gt x y ≡ false
      → f.gt y z ≡ false
      → f.gt x z ≡ false

or_assoc : (x y z : Bool) → ((x || y) || z) ≡ (x || (y || z))
or_assoc true y z = refl
or_assoc false y z = refl

module _ {F : Type 0} (f : Floats F) (o : IsOrdered f) (limit : F)
    (l : f.is_finite limit ≡ true) where
  abbrev over : List F → Bool
  over xs = any (λ x. f.gt x limit) xs

  -- The greater of two is above the limit when one of them is.
  over_greater :
      (best x : F)
      → f.is_finite best ≡ true
      → f.is_finite x ≡ true
      → f.gt (if f.gt x best then x else best) limit ≡ (f.gt best limit || f.gt x limit)
  over_greater best x b c = ground (
    arith,
    o.above x best limit c b l,
    o.not_above x best limit c b l,
    Bool-cases (f.gt x best),
    Bool-cases (f.gt best limit),
    Bool-cases (f.gt x limit),
  )

  greater_finite :
      (best x : F)
      → f.is_finite best ≡ true
      → f.is_finite x ≡ true
      → f.is_finite (if f.gt x best then x else best) ≡ true
  greater_finite best x b c = elim (Bool-cases (f.gt x best)) [ inl e ↦ rw e c | inr e ↦ rw e b ]

  over-max_from :
      (best : F) (xs : List F)
      → f.is_finite best ≡ true
      → All (λ x. f.is_finite x ≡ true) xs
      → f.gt (max_from f best xs) limit ≡ (f.gt best limit || over xs)
  unfolding max_from
  over-max_from best [] b c = ground arith
  over-max_from best (x ∷ xs) b c = rw (
    over-max_from (if f.gt x best then x else best) xs (greater_finite best x b c.0) c.1,
    over_greater best x b c.0,
    or_assoc (f.gt best limit) (f.gt x limit) (over xs),
  )

  over-values :
      (psi : List (String × F))
      → any (λ (x : String × F). f.gt x.1 limit) psi ≡ over (map (λ (x : String × F). x.1) psi)
  over-values [] = refl
  over-values (x ∷ psi) = rw (over-values psi) refl

  finite_values :
      (psi : List (String × F))
      → All (λ (x : String × F). f.is_finite x.1 ≡ true) psi
      → All (λ x. f.is_finite x ≡ true) (map (λ (x : String × F). x.1) psi)
  finite_values [] h = tt
  finite_values (x ∷ psi) h = (h.0, finite_values psi h.1)

  -- The greatest of finite indices is above a limit that zero is not above when some index is.
  pub max_psi-exceeds :
      (psi : List (String × F))
      → f.gt (f.of_int 0) limit ≡ false
      → All (λ (x : String × F). f.is_finite x.1 ≡ true) psi
      → f.gt (max_psi f psi) limit ≡ any (λ (x : String × F). f.gt x.1 limit) psi
  unfolding max_psi
  max_psi-exceeds [] h g = h
  max_psi-exceeds (x ∷ psi) h g =
      rw
        (
          over-max_from x.1 (map (λ (y : String × F). y.1) psi) g.0 (finite_values psi g.1),
          over-values psi,
        )
        refl

All-of_all : {A : Type 0} (p : A → Bool) (xs : List A) → all p xs ≡ true → All (λ x. p x ≡ true) xs
All-of_all p [] h = tt
All-of_all p (x ∷ xs) h = (ground arith, All-of_all p xs (ground (arith, Bool-cases (p x))))

none_of : {A : Type 0} (p : A → Bool) (xs : List A) → (any p xs ≡ false) ↔ All (λ x. p x ≡ false) xs
none_of p [] = (λ h. tt, λ h. refl)
none_of p (x ∷ xs) =
    let (to, from) = none_of p xs in
    (λ h. (ground arith, to (ground (arith, Bool-cases (p x)))), λ h. rw (h.0, from h.1) refl)

module _ {F : Type 0} (a : Arithmetic F) (e : IsolationForestModelEvaluator F) where
  -- Enough readings, not too many anomalies, and no feature that has drifted too far.
  pub record MeetsGates (samples : ℕ) (rate : F) (psi : List (String × F)) : Type 0 where
    pub enough : e.minimum_samples ≤ samples
    pub rate_kept : a.floats.gt rate e.maximum_anomaly_rate ≡ false
    pub psi_kept : All (λ (x : String × F). a.floats.gt x.1 e.maximum_feature_psi ≡ false) psi

  no_gate_iff :
      (samples : ℕ) (rate : F) (psi : List (String × F))
      → (is_empty (failed_gates_of a e samples rate psi) ≡ true) ↔ (
          (e.minimum_samples ≤ samples)
          × (a.floats.gt rate e.maximum_anomaly_rate ≡ false)
          × (exceeds a e.maximum_feature_psi psi ≡ false))
  unfolding failed_gates_of gate
  no_gate_iff samples rate psi = ground (
    arith,
    Bool-cases (a.floats.gt rate e.maximum_anomaly_rate),
    Bool-cases (exceeds a e.maximum_feature_psi psi),
  )

  -- The outcome of an evaluation, over the readings that it is given.
  pub record HasEvaluated (readings : List (TelemetryReading F)) (r : ModelEvaluationReport F)
      : Type 0 where
    pub own : all (is_own a e) readings ≡ true
    pub all_counted : r.sample_count ≡ length readings
    pub rated : r.anomaly_rate ≡ rate_of a e readings
    pub of_model : r.model_id ≡ e.artifact.model_id
    pub of_machine : r.machine_id ≡ e.artifact.machine_id
    pub judged : (r.passed ≡ true) ↔ MeetsGates r.sample_count r.anomaly_rate r.feature_psi

  HasEvaluated-report_of :
      (readings : List (TelemetryReading F)) (rate : F) (psi : List (String × F))
      → all (is_own a e) readings ≡ true
      → rate ≡ rate_of a e readings
      → HasEvaluated readings (report_of a e readings rate psi)
  unfolding report_of exceeds
  HasEvaluated-report_of readings rate psi g q =
      let (to, from) = no_gate_iff (length readings) rate psi in
      let (none, some_over) =
        none_of (λ (x : String × F). a.floats.gt x.1 e.maximum_feature_psi) psi in
      record {
        own = g;
        all_counted = refl;
        rated = q;
        of_model = refl;
        of_machine = refl;
        judged = (
          λ t. record { enough = (to t).0; rate_kept = (to t).1; psi_kept = none (to t).2 },
          λ m. from (m.enough, m.rate_kept, some_over m.psi_kept),
        );
      }

  pub HasEvaluated-evaluate :
      (readings : List (TelemetryReading F)) (r : ModelEvaluationReport F)
      → evaluate a e readings ≡ ok r
      → HasEvaluated readings r
  unfolding evaluate
  HasEvaluated-evaluate readings r p =
      let (u, g, q) =
        bind_inversion (guard (all (is_own a e) readings) EvaluationError.foreign_readings) _ r p in
      let (psi, _, k) =
        bind_inversion
          (feature_psi_from a 0 e.artifact.reference_distributions (map (features a) readings)) _ r
          q in
      let same : report_of a e readings (rate_of a e readings) psi ≡ r = cc k in
      rw (← same)
        (HasEvaluated-report_of readings (rate_of a e readings) psi (guard_inversion _ _ g) refl)

  -- Some index is not finite, or the greatest is above the limit exactly when some index is.
  abbrev pub IsGreatest : ModelEvaluationReport F → Type 0
  IsGreatest r =
      (all (λ (x : String × F). a.floats.is_finite x.1) r.feature_psi ≡ false)
      ⊎ (a.floats.gt (report_maximum a r) e.maximum_feature_psi
          ≡ exceeds a e.maximum_feature_psi r.feature_psi)

  -- The limit on the stability indices is finite and not below zero, the finite numbers are
  -- ordered, the share of some values over a finite proportion has a logarithm, and the artifact's
  -- reference has at most four features, each with finite proportions, one more than edges. Then
  -- `evaluate` raises when a reading is of another machine, and otherwise returns a report that
  -- counts the readings, with their anomaly rate, the model and the machine of the artifact, and
  -- that has passed exactly when the readings are enough and neither the anomaly rate nor any
  -- stability index is above its limit. Of finite indices, the greatest, which the report gives, is
  -- above the limit exactly when some index is.
  pub evaluate_outcome :
      IsOrdered a.floats
      → HasLogarithms a
      → a.floats.is_finite e.maximum_feature_psi ≡ true
      → a.floats.gt (a.floats.of_int 0) e.maximum_feature_psi ≡ false
      → (readings : List (TelemetryReading F)) → length e.artifact.reference_distributions ≤ 4
      → All (IsReference a.floats) e.artifact.reference_distributions
      → ((all (is_own a e) readings ≡ false)
          × (evaluate a e readings ≡ err EvaluationError.foreign_readings))
        ⊎ ((r : ModelEvaluationReport F) × (evaluate a e readings ≡ ok r)
            × HasEvaluated readings r
            × IsGreatest r)
  unfolding evaluate report_of report_maximum exceeds
  evaluate_outcome o logs limited h readings n g =
      let (psi, p) =
        Returns-feature_psi_from a logs 0 e.artifact.reference_distributions readings
          (omega (arith, n)) g in
      elim (Bool-cases (all (is_own a e) readings)) [
        | inl t ↦ inr (
          report_of a e readings (rate_of a e readings) psi,
          rw (t, p) refl,
          HasEvaluated-report_of readings (rate_of a e readings) psi t refl,
          elim (Bool-cases (all (λ (x : String × F). a.floats.is_finite x.1) psi)) [
            | inl t ↦ inr (
                max_psi-exceeds a.floats o e.maximum_feature_psi limited psi h
                  (All-of_all (λ (x : String × F). a.floats.is_finite x.1) psi t))
            | inr t ↦ inl t
          ],
        )
        | inr t ↦ inl (t, rw t refl)
      ]
