-- ===== src/Mqtt/Ingestion.antt =====
-- The consumer over the telemetry service: what one message stores
-- (src/smart_factory/infrastructure/mqtt/consumer.py with application/services/telemetry.py).
use smart_factory_monitor.Common.{String, ◌≡◌, ◌≢◌, ◌⊎◌, Option, List, [], ◌∷◌, ◌++◌, Result, ok}
use smart_factory_monitor.Observability.{Outcome}
use smart_factory_monitor.Telemetry.Reading.{Floats, TelemetryReading, AnomalyFinding}
use smart_factory_monitor.Telemetry.Service.{Service, Conditions, process}
use smart_factory_monitor.Telemetry.Service.Durable.{IsProcessed}
use smart_factory_monitor.Storage.Repository.{RepositoryConfig, Fault}
use smart_factory_monitor.Storage.Repository.Faults.{IsSaved}
use smart_factory_monitor.Mqtt.Consumer.{Message, HandlerError, Inbox, on_message}
use smart_factory_monitor.Mqtt.Consumer.Outcomes.{IsRouted}

module _ {F : Type 0} (f : Floats F) (parse_json : String → Option (TelemetryReading F))
    (config : RepositoryConfig)
    (detect : TelemetryReading F → Result HandlerError (List (AnomalyFinding F)))
    (c : Conditions) where
  -- The consumer's callback with the service as its handler.
  unfoldable pub ingest : Message → Inbox (Service F) → Inbox (Service F)
  ingest message s = on_message f parse_json (process f config detect c) message s

  -- The message was acknowledged, counted as accepted, and its reading processed.
  pub record IsAccepted (message : Message) (s t : Inbox (Service F)) : Type 0 where
    pub routed : IsRouted f parse_json message
    pub processed : IsProcessed f config detect c routed.reading s.handler t.handler
    pub acked : t.acked ≡ s.acked ++ (message.mid ∷ [])
    pub counted : t.outcomes ≡ s.outcomes ++ (Outcome.accepted ∷ [])

  -- Another outcome was counted, and not the reading. The database is as it was; or the reading,
  -- its findings and its alerts are stored, only the answer to the COMMIT was lost, and the message
  -- is not acknowledged, so that the broker delivers it again.
  pub record IsRefused (message : Message) (s t : Inbox (Service F)) : Type 0 where
    pub outcome : Outcome
    pub not_accepted : outcome ≢ Outcome.accepted
    pub counted : t.outcomes ≡ s.outcomes ++ (outcome ∷ [])
    pub count : t.handler.processed_count ≡ s.handler.processed_count
    pub database :
        (t.handler.repository.database ≡ s.handler.repository.database)
        ⊎ ((c.fault ≡ Fault.answering)
            × (t.acked ≡ s.acked)
            × (routed : IsRouted f parse_json message) × (findings : List (AnomalyFinding F))
            × (detect routed.reading ≡ ok findings)
            × IsSaved f config c.now routed.reading findings s.handler.repository.database
                t.handler.repository.database)
