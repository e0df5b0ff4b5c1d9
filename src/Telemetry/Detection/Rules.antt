-- ===== src/Telemetry/Detection/Rules.antt =====
-- Which rules a reading breaks, by the findings that the detector returns.
use smart_factory_monitor.Common.{
  ℕ, String, ◌≡◌, Bool, true, not, ◌&&◌, List, [], ◌∷◌, arith, ltb, str_eq, any,
}
use smart_factory_monitor.Telemetry.Reading.{Floats, TelemetryReading, AnomalyFinding}
use smart_factory_monitor.Telemetry.Detection.{AnomalyThresholds, evaluate}

module _ {F : Type 0} where
  -- Some finding names this rule.
  abbrev pub reports : String → List (AnomalyFinding F) → Bool
  reports rule findings = any (λ (x : AnomalyFinding F). str_eq rule x.rule_id) findings

  -- No two findings name the same rule.
  abbrev pub rules_unique : List (AnomalyFinding F) → Bool
  rules_unique [] = true
  rules_unique (x ∷ xs) = not (reports x.rule_id xs) && rules_unique xs

module _ {F : Type 0} (f : Floats F) (int_text : ℕ → String) where
  -- Each of the four rules is reported exactly when its threshold is passed, and never twice.
  pub evaluate-reports :
      (t : AnomalyThresholds F) (r : TelemetryReading F)
      → let found = evaluate f int_text t r in
        (reports "temperature-high" found ≡ f.gt r.temperature_c t.maximum_temperature_c)
        × (reports "vibration-high" found ≡ f.gt r.vibration_mm_s t.maximum_vibration_mm_s)
        × (reports "power-high" found ≡ f.gt r.power_kw t.maximum_power_kw)
        × (reports "production-rate-low" found ≡ ltb r.production_rate t.minimum_production_rate)
        × (rules_unique found ≡ true)
  unfolding evaluate
  evaluate-reports t r = ground arith
