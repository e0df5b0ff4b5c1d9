-- ===== src/Tests/Telemetry.antt =====
-- Numbers as floats, a reading that is too hot, and what the rules say of it.
use smart_factory_monitor.Common.{ℕ, ◌+◌, ◌-◌, String, true, false, ◌≡◌, List, ltb, leb, ◌==◌}
use smart_factory_monitor.Domain.{utc}
use smart_factory_monitor.Telemetry.Reading.{Floats, TelemetryReading, AnomalyFinding}
use smart_factory_monitor.Telemetry.Detection.{AnomalyThresholds, evaluate}
use smart_factory_monitor.Telemetry.Detection.Rules.{reports, rules_unique, evaluate-reports}

-- Degrees below zero do not occur in the tests.
abbrev pub whole : Floats ℕ
whole = record {
  gt = λ a b. ltb b a;
  le = leb;
  eq = λ a b. a == b;
  add = λ a b. a + b;
  sub = λ a b. a - b;
  is_finite = λ _. true;
  of_int = λ n. n;
  neg = λ _. 0;
  format_g = λ _. "x";
}

abbrev pub hot : TelemetryReading ℕ
hot = record {
  machine_id = "press-01";
  timestamp = utc 1000;
  temperature_c = 90;
  vibration_mm_s = 5;
  power_kw = 100;
  production_rate = 50;
}

abbrev pub thresholds : AnomalyThresholds ℕ
thresholds = record {
  maximum_temperature_c = 80;
  maximum_vibration_mm_s = 10;
  maximum_power_kw = 200;
  minimum_production_rate = 20;
}

abbrev pub number : ℕ → String
number n = "n"

abbrev pub found : List (AnomalyFinding ℕ)
found = evaluate whole number thresholds hot

evaluate-reports_example :
    (reports "temperature-high" found ≡ true)
    × (reports "vibration-high" found ≡ false)
    × (reports "power-high" found ≡ false)
    × (reports "production-rate-low" found ≡ false)
    × (rules_unique found ≡ true)
evaluate-reports_example = evaluate-reports whole number thresholds hot
