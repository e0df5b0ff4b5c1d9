-- ===== src/Tests/Mqtt.antt =====
-- The consumer at a message of a press that is too hot, over the telemetry service.
use smart_factory_monitor.Common.{
  ℕ, String, true, false, ◌≡◌, refl, ◌⊎◌, List, [], ◌∷◌, Option, none, some, Result, ok,
}
use smart_factory_monitor.Domain.{is_machine_id}
use smart_factory_monitor.Observability.{Outcome, RuntimeObservability}
use smart_factory_monitor.Storage.Repository.{Fault}
use smart_factory_monitor.Telemetry.Reading.{TelemetryReading, AnomalyFinding}
use smart_factory_monitor.Telemetry.Service.{Service, Conditions, process}
use smart_factory_monitor.Mqtt.Topic.{
  topic, machine_id_from_topic, no_slash, machine_id_from_topic-topic, topic-machine_id_from_topic,
}
use smart_factory_monitor.Mqtt.Consumer.{Message, HandlerError, Inbox, on_message}
use smart_factory_monitor.Mqtt.Consumer.Outcomes.{
  IsRouted, delivered, discarded, IsRejection, on_message_outcome,
}
use smart_factory_monitor.Mqtt.Connection.{Connection, NetworkEvent, Attempt, connect, close}
use smart_factory_monitor.Mqtt.Connection.Readiness.{
  Step, Reach, IsReported, Reach-IsReported, Settled, connect-Settled,
}
use smart_factory_monitor.Tests.Telemetry.{whole, hot, found}
use smart_factory_monitor.Tests.Storage.{config, empty}

machine_id_from_topic-topic_example :
    machine_id_from_topic (topic "hall-1" "press-01") ≡ some "press-01"
machine_id_from_topic-topic_example =
    machine_id_from_topic-topic "hall-1" "press-01" (unfold no_slash in refl)
      (unfold is_machine_id in refl)

topic-machine_id_from_topic_example :
    (area : String) × ("factory/hall-1/press-01/telemetry" ≡ topic area "press-01")
topic-machine_id_from_topic_example =
    topic-machine_id_from_topic "factory/hall-1/press-01/telemetry" "press-01"
      (unfold machine_id_from_topic in refl)

abbrev message : Message
message = record { mid = 7; topic = "factory/hall-1/press-01/telemetry"; payload = "{}" }

abbrev parse_json : String → Option (TelemetryReading ℕ)
parse_json _ = some hot

abbrev observer : RuntimeObservability
observer = record {
  mqtt_connected = true;
  database_ready = true;
  mqtt_messages = λ _. 0;
  processed_total = 0;
  inserted_total = 0;
  anomaly_findings_total = 0;
  processing_duration = 0;
  ml_models_loaded = 0;
  ml_scored_total = 0;
  ml_uncovered_total = 0;
}

abbrev inbox : Inbox (Service ℕ)
inbox = record {
  acked = [];
  outcomes = [];
  handler = record { repository = empty; processed_count = 0; observer = observer };
}

abbrev conditions : Conditions
conditions = record { now = 5; fault = Fault.no_fault; duration = 3 }

abbrev detect : TelemetryReading ℕ → Result HandlerError (List (AnomalyFinding ℕ))
detect reading = ok found

on_message_outcome_example :
    ((r : IsRouted whole parse_json message) × (on_message whole parse_json
          (process whole config detect conditions)
          message
          inbox
        ≡ delivered whole parse_json
            (process whole config detect conditions)
            message
            r.reading
            inbox))
    ⊎ ((¬ IsRouted whole parse_json message)
        × (o : Outcome) × IsRejection whole parse_json (process whole config detect conditions) o
        × (on_message whole parse_json (process whole config detect conditions) message inbox
            ≡ discarded whole parse_json (process whole config detect conditions) message o inbox))
on_message_outcome_example =
    on_message_outcome whole parse_json (process whole config detect conditions) message inbox

-- A broker that refuses once, then takes the subscription.
abbrev fresh : Connection
fresh = record { connected = false; connection_error = none; loop_running = false; reported = [] }

abbrev events : List NetworkEvent
events = NetworkEvent.refused "busy" ∷ NetworkEvent.subscribed ∷ NetworkEvent.disconnected ∷ []

abbrev attempt : Attempt
attempt = record { exception = none; events = events; late = NetworkEvent.disconnected ∷ [] }

connect-Settled_example : Settled attempt fresh (connect attempt fresh).0 (connect attempt fresh).1
connect-Settled_example = connect-Settled attempt fresh

Reach-IsReported_example : IsReported (close (connect attempt fresh).1)
Reach-IsReported_example = Reach-IsReported (close (connect attempt fresh).1) (
    Reach.step (connect attempt fresh).1 (close (connect attempt fresh).1)
      (Reach.opened attempt fresh) (Step.closing (connect attempt fresh).1))
