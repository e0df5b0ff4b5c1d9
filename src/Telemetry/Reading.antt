-- ===== src/Telemetry/Reading.antt =====
-- src/smart_factory/domain/telemetry.py and domain/anomaly.py. Floats are a type with the
-- operations that the program uses; nothing is assumed of them.
use smart_factory_monitor.Common.{
  ℕ, String, Bool, ◌&&◌, Option, none, some, leb, Result, ok, err, ◌>>◌, guard,
}
use smart_factory_monitor.Domain.{Datetime, is_aware, is_machine_id}

pub record Floats (F : Type 0) : Type 0 where
  pub gt : F → F → Bool
  pub le : F → F → Bool
  pub eq : F → F → Bool
  pub add : F → F → F
  pub sub : F → F → F
  pub is_finite : F → Bool
  pub of_int : ℕ → F
  pub neg : F → F
  -- `f"{x:g}"`
  pub format_g : F → String

pub record TelemetryReading (F : Type 0) : Type 0 where
  pub machine_id : String
  pub timestamp : Datetime
  pub temperature_c : F
  pub vibration_mm_s : F
  pub power_kw : F
  pub production_rate : ℕ

pub data AnomalySeverity : Type 0 where
  medium high : AnomalySeverity

unfoldable pub severity_value : AnomalySeverity → String
severity_value AnomalySeverity.medium = "medium"
severity_value AnomalySeverity.high = "high"

pub record AnomalyFinding (F : Type 0) : Type 0 where
  pub rule_id : String
  pub severity : AnomalySeverity
  pub metric : String
  pub observed_value : F
  pub threshold : F
  pub comparison : String
  pub message : String

-- Why a payload is rejected: its JSON, or the first constraint that it breaks.
pub data InvalidReading : Type 0 where
  malformed machine_id timestamp temperature_c vibration_mm_s power_kw production_rate :
      InvalidReading

module _ {F : Type 0} (f : Floats F) where
  -- `Field(ge=low, le=high, allow_inf_nan=False)`
  unfoldable pub within : F → F → F → Bool
  within minimum maximum x = f.is_finite x && f.le minimum x && f.le x maximum

  -- What constructing a `TelemetryReading` checks. A negative production rate is not a number here.
  unfoldable pub validate_reading : TelemetryReading F → Result InvalidReading (TelemetryReading F)
  unfolding within
  validate_reading r = do
    guard (is_machine_id r.machine_id) InvalidReading.machine_id
    guard (is_aware r.timestamp) InvalidReading.timestamp
    guard (within (f.neg (f.of_int 50)) (f.of_int 250) r.temperature_c) InvalidReading.temperature_c
    guard (within (f.of_int 0) (f.of_int 100) r.vibration_mm_s) InvalidReading.vibration_mm_s
    guard (within (f.of_int 0) (f.of_int 500) r.power_kw) InvalidReading.power_kw
    guard (leb r.production_rate 10000) InvalidReading.production_rate
    ok r

  parsed_reading : Option (TelemetryReading F) → Result InvalidReading (TelemetryReading F)
  parsed_reading none = err InvalidReading.malformed
  parsed_reading (some r) = validate_reading r

  -- `from_mqtt_payload`: the strict JSON parser gives the fields, or fails.
  unfoldable pub from_mqtt_payload :
      (String → Option (TelemetryReading F)) → String → Result InvalidReading (TelemetryReading F)
  unfolding parsed_reading
  from_mqtt_payload parse_json payload = parsed_reading (parse_json payload)
