-- ===== src/Storage/History.antt =====
-- src/smart_factory/infrastructure/database/telemetry_repository.py, `load_recent_readings` and
-- `load_readings_since`: the readings of one machine, the latest first.
pub mod Window
use smart_factory_monitor.Common.{
  ℕ, String, Bool, true, false, some, List, [], ◌∷◌, take, ltb, Result, ok, err, ◌>>=◌,
}
use smart_factory_monitor.Common.Exec.{Exec}
use smart_factory_monitor.Domain.{utc}
use smart_factory_monitor.Telemetry.Reading.{
  Floats, TelemetryReading, InvalidReading, validate_reading,
}
use smart_factory_monitor.Storage.{ReadingRow}
use smart_factory_monitor.Storage.Repository.{Repository, select_readings}

-- A failure of the driver, or a stored row that is no valid reading.
pub data LoadError : Type 0 where
  database_error : LoadError
  invalid_row : InvalidReading → LoadError

module _ {F : Type 0} (f : Floats F) where
  abbrev pub reading_of_row : ReadingRow F → TelemetryReading F
  reading_of_row row = record {
    machine_id = row.machine_id;
    timestamp = utc row.recorded_at;
    temperature_c = row.temperature_c;
    vibration_mm_s = row.vibration_mm_s;
    power_kw = row.power_kw;
    production_rate = row.production_rate;
  }

  -- `_readings_from_rows`
  unfoldable pub readings_from_rows :
      List (ReadingRow F) → Result InvalidReading (List (TelemetryReading F))
  readings_from_rows [] = ok []
  readings_from_rows (row ∷ rows) = do
    reading ← validate_reading f (reading_of_row row)
    readings ← readings_from_rows rows
    ok (reading ∷ readings)

  abbrev loaded :
      Result InvalidReading (List (TelemetryReading F))
      → Result LoadError (List (TelemetryReading F))
  loaded (ok readings) = ok readings
  loaded (err e) = err (LoadError.invalid_row e)

  -- The rows that pass a test, at most `limit` of them. The availability is reported before the
  -- rows become readings.
  unfoldable pub load_readings :
      (ℕ → Bool) → Bool → String → ℕ → Exec (Repository F) LoadError (List (TelemetryReading F))
  unfolding readings_from_rows
  load_readings recent true machine_id limit s =
      (err LoadError.database_error, record s { available = some false })
  load_readings recent false machine_id limit s = (
    loaded
        (readings_from_rows (take limit (select_readings recent machine_id s.database.readings))),
    record s { available = some true },
  )

  unfoldable pub load_recent_readings :
      Bool → String → ℕ → Exec (Repository F) LoadError (List (TelemetryReading F))
  unfolding load_readings
  load_recent_readings = load_readings (λ _. true)

  unfoldable pub load_readings_since :
      ℕ → Bool → String → ℕ → Exec (Repository F) LoadError (List (TelemetryReading F))
  unfolding load_readings
  load_readings_since since = load_readings (λ recorded_at. ltb since recorded_at)
