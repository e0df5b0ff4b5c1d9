-- ===== src/Telemetry/Service/Durable.antt =====
-- What a call of `process` leaves in the repository.
use smart_factory_monitor.Common.{
  ◌+◌, true, ◌≡◌, refl, sym, ap, ◌∙◌, ◌⊎◌, inl, inr, List, arith, Result, ok, err, Result-cases,
}
use smart_factory_monitor.Telemetry.Reading.{
  Floats, TelemetryReading, AnomalyFinding, validate_reading,
}
use smart_factory_monitor.Storage.Repository.{RepositoryConfig, Fault, save}
use smart_factory_monitor.Storage.Repository.Faults.{IsSaved, save-IsSaved, save_failed}
use smart_factory_monitor.Mqtt.Consumer.{HandlerError}
use smart_factory_monitor.Telemetry.Service.{
  Service, Conditions, count_processed, handler_error, process_findings, process,
}

module _ {F : Type 0} (f : Floats F) (config : RepositoryConfig)
    (detect : TelemetryReading F → Result HandlerError (List (AnomalyFinding F)))
    (c : Conditions) where
  -- The reading was evaluated, it is stored with its findings and alerts, and it is counted once.
  pub record IsProcessed (reading : TelemetryReading F) (s t : Service F) : Type 0 where
    pub findings : List (AnomalyFinding F)
    pub evaluated : detect reading ≡ ok findings
    pub stored : IsSaved f config c.now reading findings s.repository.database t.repository.database
    pub counted : t.processed_count ≡ s.processed_count + 1

  pub process-IsProcessed :
      ((x : F) → f.is_finite x ≡ true → f.eq x x ≡ true)
      → (reading : TelemetryReading F) (s : Service F) → validate_reading f reading ≡ ok reading
      → (process f config detect c reading s).0 ≡ ok tt
      → IsProcessed reading s (process f config detect c reading s).1
  unfolding process process_findings count_processed
  process-IsProcessed reflexive reading s v h = elim (Result-cases (detect reading)) [
    | inr (e, p) ↦ absurd (ground (arith, p, h))
    | inl (findings, p) ↦
        let saved = save f config c.now c.fault reading findings s.repository in
        elim (Result-cases saved.0) [
          | inr (e, q) ↦ absurd (ground (arith, p, q, h))
          | inl (inserted, q) ↦
              let same : saved ≡ (ok inserted, saved.1) = cc q in
              let (stored, available) =
                save-IsSaved f config reflexive c.now c.fault reading findings s.repository saved.1
                  inserted v same in
              rw p (
                rw q record { findings = findings; evaluated = p; stored = stored; counted = refl })
        ]
  ]

  -- The database is as it was; or the reading is stored and only the answer to the COMMIT was lost.
  pub record IsUncounted (reading : TelemetryReading F) (e : HandlerError) (s t : Service F)
      : Type 0 where
    pub count : t.processed_count ≡ s.processed_count
    pub database :
        (t.repository.database ≡ s.repository.database)
        ⊎ ((c.fault ≡ Fault.answering)
            × (e ≡ HandlerError.other)
            × (findings : List (AnomalyFinding F)) × (detect reading ≡ ok findings)
            × IsSaved f config c.now reading findings s.repository.database t.repository.database)

  pub process_failed :
      ((x : F) → f.is_finite x ≡ true → f.eq x x ≡ true)
      → (reading : TelemetryReading F) (s : Service F) (e : HandlerError)
      → validate_reading f reading ≡ ok reading
      → (process f config detect c reading s).0 ≡ err e
      → IsUncounted reading e s (process f config detect c reading s).1
  unfolding process process_findings count_processed handler_error
  process_failed reflexive reading s e v h = elim (Result-cases (detect reading)) [
    | inr (x, p) ↦ rw p record { count = refl; database = inl refl }
    | inl (findings, p) ↦
        let saved = save f config c.now c.fault reading findings s.repository in
        elim (Result-cases saved.0) [
          | inl (inserted, q) ↦ absurd (ground (arith, p, q, h))
          | inr (x, q) ↦
              let same : saved ≡ (err x, saved.1) = cc q in
              let raised : handler_error x ≡ e = ground (arith, p, q, h) in
              elim (save_failed f config reflexive c.now c.fault reading findings s.repository
                saved.1 x v same) [
                  | inl kept ↦ rw p (rw q record { count = refl; database = inl kept })
                  | inr u ↦ rw p (
                      rw q record {
                        count = refl;
                        database =
                            inr (
                              u.lost,
                              sym raised ∙ ap handler_error u.raised,
                              findings,
                              p,
                              u.saved,
                            );
                      })
                ]
        ]
  ]
