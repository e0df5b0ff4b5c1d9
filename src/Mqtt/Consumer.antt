-- ===== src/Mqtt/Consumer.antt =====
-- src/smart_factory/infrastructure/mqtt/consumer.py, `_on_message`: one delivered message is
-- validated, routed to the handler, acknowledged and counted. Log lines are left out.
pub mod Outcomes
use smart_factory_monitor.Common.{
  ℕ, String, Option, none, some, List, [], ◌∷◌, ◌++◌, Bool, true, false, str_eq, Result, ok, err,
}
use smart_factory_monitor.Observability.{Outcome}
use smart_factory_monitor.Telemetry.Reading.{
  Floats, TelemetryReading, InvalidReading, from_mqtt_payload,
}
use smart_factory_monitor.Mqtt.Topic.{machine_id_from_topic}

pub record Message : Type 0 where
  pub mid : ℕ
  pub topic : String
  pub payload : String

-- The exceptions of the handler, by the clause that catches them.
pub data HandlerError : Type 0 where
  identity_conflict validation_error value_error other : HandlerError

-- What a message changes: the acknowledged message ids, the counted outcomes, and the handler.
pub record Inbox (H : Type 0) : Type 0 where
  pub acked : List ℕ
  pub outcomes : List Outcome
  pub handler : H

module _ {H : Type 0} where
  ack : Message → Inbox H → Inbox H
  ack message s = record s { acked = s.acked ++ (message.mid ∷ []) }

  record_outcome : Outcome → Inbox H → Inbox H
  record_outcome outcome s = record s { outcomes = s.outcomes ++ (outcome ∷ []) }

  -- The clauses of the `try` statement, after the handler has returned or raised.
  finish : Message → Result HandlerError (Unit {0}) → Inbox H → Inbox H
  unfolding ack record_outcome
  finish message (ok _) s = record_outcome Outcome.accepted (ack message s)
  finish message (err HandlerError.identity_conflict) s =
      record_outcome Outcome.identity_conflict (ack message s)
  finish message (err HandlerError.validation_error) s =
      record_outcome Outcome.invalid_payload (ack message s)
  finish message (err HandlerError.value_error) s =
      record_outcome Outcome.invalid_topic (ack message s)
  finish message (err HandlerError.other) s = record_outcome Outcome.processing_failed s

module _ {F H : Type 0} (f : Floats F) (parse_json : String → Option (TelemetryReading F))
    (process : TelemetryReading F → H → Result HandlerError (Unit {0}) × H) where
  process_reading : Message → TelemetryReading F → Inbox H → Inbox H
  unfolding finish
  process_reading message reading s =
      let (r, h) = process reading s.handler in finish message r (record s { handler = h })

  -- The topic is read after the payload: a topic of another shape is a `ValueError`.
  route : Message → TelemetryReading F → Option String → Inbox H → Inbox H
  unfolding process_reading
  route message reading none s = record_outcome Outcome.invalid_topic (ack message s)
  route message reading (some topic_machine_id) s =
      elim (str_eq topic_machine_id reading.machine_id) [
        | true ↦ process_reading message reading s
        | false ↦ record_outcome Outcome.topic_mismatch (ack message s)
      ]

  on_reading : Message → Result InvalidReading (TelemetryReading F) → Inbox H → Inbox H
  unfolding route
  on_reading message (err e) s = record_outcome Outcome.invalid_payload (ack message s)
  on_reading message (ok reading) s = route message reading (machine_id_from_topic message.topic) s

  unfoldable pub on_message : Message → Inbox H → Inbox H
  unfolding on_reading
  on_message message s = on_reading message (from_mqtt_payload f parse_json message.payload) s
