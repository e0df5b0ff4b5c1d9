-- ===== src/Storage.antt =====
-- The tables of the database and the statements on them: readings and findings
-- (infrastructure/database/telemetry_repository.py) and the alert outbox
-- (infrastructure/database/alert_outbox.py). A table is the list of its rows; a timestamp is the
-- instant that `timestamptz` keeps. `uuid5` and `isoformat` are parameters.
pub mod Repository
pub mod History
pub mod Outbox
use smart_factory_monitor.Common.{
  ℕ, String, Bool, true, false, ◌&&◌, Option, List, [], ◌∷◌, ◌++◌, any, str_eq, ◌==◌, if◌then◌else◌,
}

pub record ReadingRow (F : Type 0) : Type 0 where
  pub machine_id : String
  pub recorded_at : ℕ
  pub temperature_c : F
  pub vibration_mm_s : F
  pub power_kw : F
  pub production_rate : ℕ

pub record FindingRow (F : Type 0) : Type 0 where
  pub machine_id : String
  pub recorded_at : ℕ
  pub rule_id : String
  pub severity : String
  pub metric : String
  pub observed_value : F
  pub threshold : F
  pub comparison : String
  pub message : String

-- An outbox row: the finding, and the state of its delivery.
pub record OutboxRow (F : Type 0) : Type 0 where
  pub finding : FindingRow F
  pub event_id : ℕ
  pub created_at : ℕ
  pub available_at : ℕ
  pub attempt_count : ℕ
  pub lease_token : Option ℕ
  pub lease_expires_at : Option ℕ
  pub delivered_at : Option ℕ
  pub last_error : Option String

pub record Database (F : Type 0) : Type 0 where
  pub readings : List (ReadingRow F)
  pub findings : List (FindingRow F)
  pub outbox : List (OutboxRow F)

-- `INSERT ... ON CONFLICT (key) DO NOTHING`: the table, and whether a row was inserted.
unfoldable pub insert_unless {ℓ} : {A : Type ℓ} → (A → Bool) → A → List A → List A × Bool
insert_unless conflicts row rows =
    if any conflicts rows then (rows, false) else (rows ++ (row ∷ []), true)

abbrev pub same_reading : {F : Type 0} → String → ℕ → ReadingRow F → Bool
same_reading machine_id recorded_at row =
    str_eq row.machine_id machine_id && row.recorded_at == recorded_at

abbrev pub same_finding : {F : Type 0} → String → ℕ → String → FindingRow F → Bool
same_finding machine_id recorded_at rule_id row =
    str_eq row.machine_id machine_id && row.recorded_at == recorded_at && str_eq row.rule_id rule_id
