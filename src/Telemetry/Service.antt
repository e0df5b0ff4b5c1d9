-- ===== src/Telemetry/Service.antt =====
-- src/smart_factory/application/services/telemetry.py: a reading is evaluated, saved and counted.
-- Log lines are left out; the duration that the clock measures is an argument. A detector may
-- raise.
pub mod Durable
use smart_factory_monitor.Common.{ℕ, ◌+◌, Bool, List, length, Result, ok, err}
use smart_factory_monitor.Observability.{RuntimeObservability, record_processed}
use smart_factory_monitor.Telemetry.Reading.{Floats, TelemetryReading, AnomalyFinding}
use smart_factory_monitor.Storage.Repository.{
  RepositoryConfig, Repository, StorageError, Fault, save,
}
use smart_factory_monitor.Mqtt.Consumer.{HandlerError}

-- The service with its repository and the observer that it reports to.
pub record Service (F : Type 0) : Type 0 where
  pub repository : Repository F
  pub processed_count : ℕ
  pub observer : RuntimeObservability

-- What one call meets: the instant of the database, where its driver fails, and the duration.
pub record Conditions : Type 0 where
  pub now : ℕ
  pub fault : Fault
  pub duration : ℕ

-- The clause of the consumer that catches what the repository raises.
unfoldable pub handler_error : StorageError → HandlerError
handler_error StorageError.identity_conflict = HandlerError.identity_conflict
handler_error StorageError.database_error = HandlerError.other

module _ {F : Type 0} where
  count_processed :
      Conditions
      → List (AnomalyFinding F)
      → Result StorageError Bool × Repository F
      → Service F
      → Result HandlerError (Unit {0}) × Service F
  unfolding handler_error
  count_processed c findings (err e, repository) s =
      (err (handler_error e), record s { repository = repository })
  count_processed c findings (ok inserted, repository) s = (
    ok tt,
    record {
      repository = repository;
      processed_count = s.processed_count + 1;
      observer = record_processed inserted (length findings) c.duration s.observer;
    },
  )

  module _ (f : Floats F) (config : RepositoryConfig) where
    process_findings :
        Conditions
        → TelemetryReading F
        → Result HandlerError (List (AnomalyFinding F))
        → Service F
        → Result HandlerError (Unit {0}) × Service F
    unfolding count_processed
    process_findings c reading (err e) s = (err e, s)
    process_findings c reading (ok findings) s =
        count_processed c findings (save f config c.now c.fault reading findings s.repository) s

    unfoldable pub process :
        (TelemetryReading F → Result HandlerError (List (AnomalyFinding F)))
        → Conditions
        → TelemetryReading F
        → Service F
        → Result HandlerError (Unit {0}) × Service F
    unfolding process_findings
    process detect c reading s = process_findings c reading (detect reading) s
