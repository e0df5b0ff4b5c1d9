-- ===== src/Storage/Repository.antt =====
-- src/smart_factory/infrastructure/database/telemetry_repository.py
pub mod Inserts
pub mod Growth
pub mod Saving
pub mod Faults
use smart_factory_monitor.Common.{
  ℕ, String, ◌<>◌, Bool, true, false, ◌&&◌, Option, none, some, List, [], ◌∷◌, any, str_eq, ◌==◌,
  leb, not, Result, ok, err, if◌then◌else◌,
}
use smart_factory_monitor.Common.Exec.{Exec, pure, require, ◌>>=◌, ◌>>◌}
use smart_factory_monitor.Domain.{Datetime}
use smart_factory_monitor.Telemetry.Reading.{
  Floats, TelemetryReading, AnomalyFinding, severity_value,
}
use smart_factory_monitor.Storage.{
  ReadingRow, FindingRow, OutboxRow, Database, insert_unless, same_reading, same_finding,
}

-- `TelemetryIdentityConflictError`, or any exception of the database driver.
pub data StorageError : Type 0 where
  identity_conflict database_error : StorageError

-- The statements of `save`, in order.
pub data Statement : Type 0 where
  insert_telemetry select_telemetry insert_anomaly insert_alert_outbox : Statement

-- Where the driver fails: nowhere, before the transaction, at a statement, at a COMMIT that the
-- server does not carry out, or after one that it does carry out, when its answer is lost.
pub data Fault : Type 0 where
  no_fault connecting committing answering : Fault
  executing : Statement → Fault

unfoldable pub same_statement : Statement → Statement → Bool
same_statement Statement.insert_telemetry Statement.insert_telemetry = true
same_statement Statement.select_telemetry Statement.select_telemetry = true
same_statement Statement.insert_anomaly Statement.insert_anomaly = true
same_statement Statement.insert_alert_outbox Statement.insert_alert_outbox = true
same_statement _ _ = false

unfoldable pub fails_at : Statement → Fault → Bool
unfolding same_statement
fails_at statement (Fault.executing at) = same_statement statement at
fails_at statement _ = false

module _ {S A : Type 0} where
  -- The end of `with pool.connection()`: an exception of the body rolls its working state back.
  unfoldable pub end_transaction : Fault → Result StorageError A → S → S → Result StorageError A × S
  end_transaction fault (err e) before working = (err e, before)
  end_transaction Fault.committing (ok a) before working = (err StorageError.database_error, before)
  end_transaction Fault.answering (ok a) before working = (err StorageError.database_error, working)
  end_transaction _ (ok a) before working = (ok a, working)

  -- `with self._pool.connection() as connection`: the body runs on a state of its own.
  unfoldable pub in_transaction : Fault → Exec S StorageError A → Exec S StorageError A
  unfolding end_transaction
  in_transaction Fault.connecting body before = (err StorageError.database_error, before)
  in_transaction fault body before =
      let (r, working) = body before in end_transaction fault r before working

module _ {S : Type 0} where
  abbrev pub change : (S → S) → Exec S StorageError (Unit {0})
  change f s = (ok tt, f s)

-- The library functions, and how the repository is configured.
pub record RepositoryConfig : Type 0 where
  pub uuid5_url : String → ℕ
  pub isoformat : Datetime → String
  pub alert_severities : List String

-- The repository's database, and what it last reported to `on_availability_change`.
pub record Repository (F : Type 0) : Type 0 where
  pub database : Database F
  pub available : Option Bool

module _ {F : Type 0} where
  unfoldable pub reading_row : TelemetryReading F → ReadingRow F
  reading_row r = record {
    machine_id = r.machine_id;
    recorded_at = r.timestamp.instant;
    temperature_c = r.temperature_c;
    vibration_mm_s = r.vibration_mm_s;
    power_kw = r.power_kw;
    production_rate = r.production_rate;
  }

  unfoldable pub finding_row : TelemetryReading F → AnomalyFinding F → FindingRow F
  finding_row r x = record {
    machine_id = r.machine_id;
    recorded_at = r.timestamp.instant;
    rule_id = x.rule_id;
    severity = severity_value x.severity;
    metric = x.metric;
    observed_value = x.observed_value;
    threshold = x.threshold;
    comparison = x.comparison;
    message = x.message;
  }

  -- SELECT_TELEMETRY_BY_IDENTITY, `fetchone`.
  unfoldable pub find_reading : String → ℕ → List (ReadingRow F) → Option (ReadingRow F)
  find_reading machine_id recorded_at [] = none
  find_reading machine_id recorded_at (row ∷ rows) =
      if same_reading machine_id recorded_at row
      then some row
      else find_reading machine_id recorded_at rows

  -- `executemany(INSERT_ANOMALY, ...)`
  unfoldable pub insert_findings :
      TelemetryReading F → List (AnomalyFinding F) → List (FindingRow F) → List (FindingRow F)
  insert_findings r [] rows = rows
  insert_findings r (x ∷ xs) rows =
      insert_findings r xs
        (insert_unless (same_finding r.machine_id r.timestamp.instant x.rule_id) (finding_row r x)
          rows).0

  -- `finding.severity.value in self._alert_severities`
  unfoldable pub is_alert : RepositoryConfig → AnomalyFinding F → Bool
  is_alert config x =
      any (λ (s : String). str_eq (severity_value x.severity) s) config.alert_severities

  module _ (config : RepositoryConfig) (now : ℕ) where
    -- The new row of INSERT_ALERT_OUTBOX, with the columns' defaults.
    unfoldable pub outbox_row : TelemetryReading F → AnomalyFinding F → OutboxRow F
    outbox_row r x = record {
      finding = finding_row r x;
      event_id = config.uuid5_url (
          "smart-factory-alert:"
          <> (r.machine_id <> (":" <> (config.isoformat r.timestamp <> (":" <> x.rule_id)))));
      created_at = now;
      available_at = now;
      attempt_count = 0;
      lease_token = none;
      lease_expires_at = none;
      delivered_at = none;
      last_error = none;
    }

    unfoldable pub insert_alert :
        TelemetryReading F → AnomalyFinding F → List (OutboxRow F) → List (OutboxRow F)
    unfolding outbox_row
    insert_alert r x rows =
        if is_alert config x
        then (insert_unless
            (λ (row : OutboxRow F).
              same_finding r.machine_id r.timestamp.instant x.rule_id row.finding)
            (outbox_row r x) rows).0
        else rows

    -- `executemany(INSERT_ALERT_OUTBOX, ...)` over the findings of a routed severity.
    unfoldable pub insert_alerts :
        TelemetryReading F → List (AnomalyFinding F) → List (OutboxRow F) → List (OutboxRow F)
    unfolding insert_alert is_alert
    insert_alerts r [] rows = rows
    insert_alerts r (x ∷ xs) rows = insert_alerts r xs (insert_alert r x rows)

  module _ (f : Floats F) where
    -- `persisted is None or persisted != expected` is the conflict.
    unfoldable pub persisted_matches : TelemetryReading F → Option (ReadingRow F) → Bool
    persisted_matches r none = false
    persisted_matches r (some row) =
        f.eq row.temperature_c r.temperature_c
        && f.eq row.vibration_mm_s r.vibration_mm_s
        && f.eq row.power_kw r.power_kw
        && row.production_rate == r.production_rate

    module _ (config : RepositoryConfig) (now : ℕ) where
      -- INSERT_TELEMETRY: whether a row was inserted.
      insert_reading : Fault → TelemetryReading F → Exec (Database F) StorageError Bool
      unfolding fails_at
      insert_reading fault r db =
          let (rows, inserted) =
            insert_unless (same_reading r.machine_id r.timestamp.instant) (reading_row r)
              db.readings in
          (require (not (fails_at Statement.insert_telemetry fault)) StorageError.database_error
              >> λ db. (ok inserted, record db { readings = rows }))
            db

      -- A reading that was not inserted is compared with the one of its identity.
      check_persisted :
          Fault → TelemetryReading F → Bool → Exec (Database F) StorageError (Unit {0})
      check_persisted fault r true = pure tt
      check_persisted fault r false = do
        require (not (fails_at Statement.select_telemetry fault)) StorageError.database_error
        λ db.
            require
              (persisted_matches r (find_reading r.machine_id r.timestamp.instant db.readings))
              StorageError.identity_conflict db

      abbrev with_findings : TelemetryReading F → List (AnomalyFinding F) → Database F → Database F
      with_findings r findings db = record db { findings = insert_findings r findings db.findings }

      abbrev with_alerts : TelemetryReading F → List (AnomalyFinding F) → Database F → Database F
      with_alerts r findings db = record db {
        outbox = insert_alerts config now r findings db.outbox;
      }

      abbrev pub store_findings :
          TelemetryReading F → List (AnomalyFinding F) → Database F → Database F
      store_findings r findings db = with_alerts r findings (with_findings r findings db)

      -- The two `executemany` calls. Without findings or alerts the source leaves them out; here they
      -- then insert nothing, and a failure of theirs is one more way in which `save` may raise.
      insert_batches :
          Fault
          → TelemetryReading F
          → List (AnomalyFinding F)
          → Exec (Database F) StorageError (Unit {0})
      insert_batches fault r findings = do
        require (not (fails_at Statement.insert_anomaly fault)) StorageError.database_error
        change (with_findings r findings)
        require (not (fails_at Statement.insert_alert_outbox fault)) StorageError.database_error
        change (with_alerts r findings)

      -- The body of the transaction in `save`, on the working state of its connection.
      unfoldable pub save_in_transaction :
          Fault → TelemetryReading F → List (AnomalyFinding F) → Exec (Database F) StorageError Bool
      unfolding insert_reading check_persisted insert_batches
      save_in_transaction fault r findings = do
        inserted ← insert_reading fault r
        check_persisted fault r inserted
        insert_batches fault r findings
        pure inserted

      -- What `except` and `else` report: a conflict leaves the database available.
      finish_save :
          Repository F
          → Result StorageError Bool × Database F
          → Result StorageError Bool × Repository F
      finish_save s (ok inserted, db) =
          (ok inserted, record { database = db; available = some true })
      finish_save s (err StorageError.identity_conflict, db) =
          (err StorageError.identity_conflict, record { database = db; available = some true })
      finish_save s (err StorageError.database_error, db) =
          (err StorageError.database_error, record { database = db; available = some false })

      -- `save`, where the driver may fail once.
      unfoldable pub save :
          Fault
          → TelemetryReading F
          → List (AnomalyFinding F)
          → Exec (Repository F) StorageError Bool
      unfolding finish_save
      save fault r findings s =
          finish_save s (in_transaction fault (save_in_transaction fault r findings) s.database)

  unfoldable pub insert_by_time : ReadingRow F → List (ReadingRow F) → List (ReadingRow F)
  insert_by_time row [] = row ∷ []
  insert_by_time row (other ∷ rest) =
      if leb other.recorded_at row.recorded_at
      then row ∷ other ∷ rest
      else other ∷ insert_by_time row rest

  -- The rows of one machine that pass a test, `ORDER BY recorded_at DESC`.
  unfoldable pub select_readings : (ℕ → Bool) → String → List (ReadingRow F) → List (ReadingRow F)
  unfolding insert_by_time
  select_readings recent machine_id [] = []
  select_readings recent machine_id (row ∷ rows) =
      let rest = select_readings recent machine_id rows in
      if str_eq row.machine_id machine_id && recent row.recorded_at
      then insert_by_time row rest
      else rest
