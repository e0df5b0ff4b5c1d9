-- ===== src/Observability.antt =====
-- src/smart_factory/observability.py: the metrics and the readiness of one process. Each method
-- holds the lock for its whole update, so it is one step. The HTTP server around it is left out.
use smart_factory_monitor.Common.{ℕ, ◌+◌, Bool, true, false, ◌&&◌, if◌then◌else◌}

pub data Outcome : Type 0 where
  accepted invalid_payload invalid_topic topic_mismatch identity_conflict processing_failed :
      Outcome

-- The processing time is summed in the clock's unit.
pub record RuntimeObservability : Type 0 where
  pub mqtt_connected : Bool
  pub database_ready : Bool
  pub mqtt_messages : Outcome → ℕ
  pub processed_total : ℕ
  pub inserted_total : ℕ
  pub anomaly_findings_total : ℕ
  pub processing_duration : ℕ
  pub ml_models_loaded : ℕ
  pub ml_scored_total : ℕ
  pub ml_uncovered_total : ℕ

unfoldable pub set_mqtt_connected : Bool → RuntimeObservability → RuntimeObservability
set_mqtt_connected connected o = record o { mqtt_connected = connected }

unfoldable pub set_database_ready : Bool → RuntimeObservability → RuntimeObservability
set_database_ready ready o = record o { database_ready = ready }

same_outcome : Outcome → Outcome → Bool
same_outcome Outcome.accepted Outcome.accepted = true
same_outcome Outcome.invalid_payload Outcome.invalid_payload = true
same_outcome Outcome.invalid_topic Outcome.invalid_topic = true
same_outcome Outcome.topic_mismatch Outcome.topic_mismatch = true
same_outcome Outcome.identity_conflict Outcome.identity_conflict = true
same_outcome Outcome.processing_failed Outcome.processing_failed = true
same_outcome _ _ = false

-- The check against `_OUTCOMES` is the type of the argument.
unfoldable pub record_mqtt_outcome : Outcome → RuntimeObservability → RuntimeObservability
unfolding same_outcome
record_mqtt_outcome outcome o = record o {
  mqtt_messages = λ other.
      if same_outcome outcome other then o.mqtt_messages other + 1 else o.mqtt_messages other;
}

unfoldable pub record_processed : Bool → ℕ → ℕ → RuntimeObservability → RuntimeObservability
record_processed inserted anomaly_count duration o = record o {
  processed_total = o.processed_total + 1;
  inserted_total = o.inserted_total + (if inserted then 1 else 0);
  anomaly_findings_total = o.anomaly_findings_total + anomaly_count;
  processing_duration = o.processing_duration + duration;
}

unfoldable pub record_ml_resolution : Bool → RuntimeObservability → RuntimeObservability
record_ml_resolution true o = record o { ml_scored_total = o.ml_scored_total + 1 }
record_ml_resolution false o = record o { ml_uncovered_total = o.ml_uncovered_total + 1 }

unfoldable pub is_ready : RuntimeObservability → Bool
is_ready o = o.mqtt_connected && o.database_ready
