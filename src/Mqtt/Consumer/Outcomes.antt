-- ===== src/Mqtt/Consumer/Outcomes.antt =====
-- What one message does: one outcome, an acknowledgement unless processing failed, and a call of
-- the handler exactly for a valid reading from a topic of its own machine.
use smart_factory_monitor.Common.{
  ℕ, String, ◌≡◌, refl, ◌⊎◌, inl, inr, Option, some, List, [], ◌∷◌, ◌++◌, append-nil, arith, str_eq,
  eq_iff, Bool-cases, Option-cases, Result, ok, err, Result-cases,
}
use smart_factory_monitor.Observability.{Outcome}
use smart_factory_monitor.Telemetry.Reading.{Floats, TelemetryReading, from_mqtt_payload}
use smart_factory_monitor.Mqtt.Topic.{machine_id_from_topic}
use smart_factory_monitor.Mqtt.Consumer.{Message, Outcome, HandlerError, Inbox, finish, on_message}

abbrev pub outcome_of : Result HandlerError (Unit {0}) → Outcome
outcome_of (ok _) = Outcome.accepted
outcome_of (err HandlerError.identity_conflict) = Outcome.identity_conflict
outcome_of (err HandlerError.validation_error) = Outcome.invalid_payload
outcome_of (err HandlerError.value_error) = Outcome.invalid_topic
outcome_of (err HandlerError.other) = Outcome.processing_failed

abbrev pub acked_ids : Outcome → Message → List ℕ
acked_ids Outcome.processing_failed message = []
acked_ids _ message = message.mid ∷ []

module _ {F : Type 0} (f : Floats F) (parse_json : String → Option (TelemetryReading F)) where
  -- The reading that a message hands to the handler: its payload is valid and names the machine of
  -- its topic.
  pub record IsRouted (message : Message) : Type 0 where
    pub reading : TelemetryReading F
    pub valid : from_mqtt_payload f parse_json message.payload ≡ ok reading
    pub addressed : machine_id_from_topic message.topic ≡ some reading.machine_id

module _ {F H : Type 0} (f : Floats F) (parse_json : String → Option (TelemetryReading F))
    (process : TelemetryReading F → H → Result HandlerError (Unit {0}) × H) where
  -- The handler is called once: the outcome is that of its return or exception, and the message is
  -- acknowledged unless processing failed.
  abbrev pub delivered : Message → TelemetryReading F → Inbox H → Inbox H
  delivered message reading s =
      let outcome = outcome_of (process reading s.handler).0 in
      record {
        acked = s.acked ++ acked_ids outcome message;
        outcomes = s.outcomes ++ (outcome ∷ []);
        handler = (process reading s.handler).1;
      }

  -- The handler is not called; the message is acknowledged and counted as rejected.
  abbrev pub discarded : Message → Outcome → Inbox H → Inbox H
  discarded message outcome s = record s {
    acked = s.acked ++ (message.mid ∷ []);
    outcomes = s.outcomes ++ (outcome ∷ []);
  }

  abbrev pub IsRejection : Outcome → Type 0
  IsRejection o =
      (o ≡ Outcome.invalid_payload) ⊎ (o ≡ Outcome.invalid_topic) ⊎ (o ≡ Outcome.topic_mismatch)

  finish-delivered :
      (message : Message) (reading : TelemetryReading F) (s : Inbox H)
      → finish message
          (process reading s.handler).0
          (record s { handler = (process reading s.handler).1 })
        ≡ delivered message reading s
  unfolding finish
  finish-delivered message reading s = ground (arith, append-nil s.acked)

  -- A message whose payload is a valid reading, from a topic of that reading's machine, calls the
  -- handler once; it is acknowledged and counted by how the handler ends, and left unacknowledged
  -- only where processing failed. Any other message is acknowledged and counted as a rejection, and
  -- the handler is not called.
  pub on_message_outcome :
      (message : Message) (s : Inbox H)
      → ((r : IsRouted f parse_json message) × (on_message f parse_json process message s
            ≡ delivered message r.reading s))
        ⊎ ((¬ IsRouted f parse_json message)
            × (o : Outcome) × IsRejection o
            × (on_message f parse_json process message s ≡ discarded message o s))
  unfolding on_message
  on_message_outcome message s =
      elim (Result-cases (from_mqtt_payload f parse_json message.payload)) [
        | inr (e, p) ↦ inr ((λ r. cc (p, r.valid)), Outcome.invalid_payload, inl refl, rw p)
        | inl (reading, p) ↦ elim (Option-cases (machine_id_from_topic message.topic)) [
          | inl q ↦ inr (
            (λ r. cc (q, r.addressed)),
            Outcome.invalid_topic,
            inr (inl refl),
            ground (arith, p, q),
          )
          | inr (machine, q) ↦ elim (Bool-cases (str_eq machine reading.machine_id)) [
            | inr differs ↦ inr (
              (λ r.
                  let same_reading : reading ≡ r.reading = cc (p, r.valid) in
                  let same : machine ≡ reading.machine_id = cc (q, r.addressed, same_reading) in
                  cc (differs, (eq_iff machine reading.machine_id).1 same)),
              Outcome.topic_mismatch,
              inr (inr refl),
              ground (arith, p, q, differs),
            )
            | inl same ↦
                let addressed : machine_id_from_topic message.topic ≡ some reading.machine_id =
                  ground (arith, q, (eq_iff machine reading.machine_id).0 same) in
                inl (
                  record { reading = reading; valid = p; addressed = addressed },
                  ground (arith, p, q, same, finish-delivered message reading s),
                )
          ]
        ]
      ]
