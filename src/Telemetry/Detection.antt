-- ===== src/Telemetry/Detection.antt =====
-- src/smart_factory/domain/services/anomaly_detection.py and
-- application/services/anomaly_detection.py
pub mod Rules
use smart_factory_monitor.Common.{
  ℕ, String, ◌<>◌, Bool, Option, none, some, List, [], ◌∷◌, ◌++◌, ltb, if◌then◌else◌,
}
use smart_factory_monitor.Telemetry.Reading.{
  Floats, TelemetryReading, AnomalySeverity, AnomalyFinding,
}

pub record AnomalyThresholds (F : Type 0) : Type 0 where
  pub maximum_temperature_c : F
  pub maximum_vibration_mm_s : F
  pub maximum_power_kw : F
  pub minimum_production_rate : ℕ

module _ {F : Type 0} (f : Floats F) where
  -- `_append_above_maximum`
  append_above_maximum :
      List (AnomalyFinding F) → String → AnomalySeverity → String → F → F → List (AnomalyFinding F)
  append_above_maximum findings rule_id severity metric observed threshold =
      if f.gt observed threshold
      then findings
        ++ (record {
          rule_id = rule_id;
          severity = severity;
          metric = metric;
          observed_value = observed;
          threshold = threshold;
          comparison = ">";
          message =
              metric
              <> ("=" <> (f.format_g observed <> (" exceeds maximum " <> f.format_g threshold)));
        }
            ∷ [])
      else findings

  -- `RuleBasedAnomalyDetector.evaluate`; `str` of an int is a parameter.
  unfoldable pub evaluate :
      (ℕ → String) → AnomalyThresholds F → TelemetryReading F → List (AnomalyFinding F)
  unfolding append_above_maximum
  evaluate int_text thresholds reading =
      let findings =
        append_above_maximum [] "temperature-high" AnomalySeverity.high "temperature_c"
          reading.temperature_c thresholds.maximum_temperature_c in
      let findings =
        append_above_maximum findings "vibration-high" AnomalySeverity.high "vibration_mm_s"
          reading.vibration_mm_s thresholds.maximum_vibration_mm_s in
      let findings =
        append_above_maximum findings "power-high" AnomalySeverity.high "power_kw" reading.power_kw
          thresholds.maximum_power_kw in
      if ltb reading.production_rate thresholds.minimum_production_rate
      then findings
        ++ (record {
          rule_id = "production-rate-low";
          severity = AnomalySeverity.medium;
          metric = "production_rate";
          observed_value = f.of_int reading.production_rate;
          threshold = f.of_int thresholds.minimum_production_rate;
          comparison = "<";
          message =
              "production_rate="
              <> (int_text reading.production_rate
                  <> (" is below minimum "
                      <> f.format_g (f.of_int thresholds.minimum_production_rate)));
        }
            ∷ [])
      else findings

abbrev pub Detector : Type 0 → Type 0
Detector F = TelemetryReading F → List (AnomalyFinding F)

module _ {F : Type 0} where
  -- `CompositeAnomalyDetector.evaluate`: all findings, in the order of the detectors.
  unfoldable pub evaluate_all : List (Detector F) → Detector F
  evaluate_all [] reading = []
  evaluate_all (detector ∷ rest) reading = detector reading ++ evaluate_all rest reading
