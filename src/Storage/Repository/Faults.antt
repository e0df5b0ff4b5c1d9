-- ===== src/Storage/Repository/Faults.antt =====
-- What `save` has stored when it returns, and what it leaves when it raises, wherever the driver
-- fails.
use smart_factory_monitor.Common.{
  ℕ, ◌≡◌, refl, sym, ◌∙◌, ◌⊎◌, inl, inr, Bool, Bool-cases, true, false, some, List, [], ◌∷◌, any,
  Any, ok, err,
}
use smart_factory_monitor.Telemetry.Reading.{
  Floats, TelemetryReading, AnomalyFinding, validate_reading,
}
use smart_factory_monitor.Storage.{Database, insert_unless}
use smart_factory_monitor.Storage.Repository.{
  RepositoryConfig, Repository, StorageError, Statement, Fault, reading_row, persisted_matches,
  save_in_transaction, save, store_findings, fails_at, same_statement, in_transaction,
  end_transaction,
}
use smart_factory_monitor.Storage.Repository.Growth.{
  Grown, Grown-refl, IsReadingRow, IsReadingRow-reading_row, IsFindingRow, IsAlertRow,
  Grown-insert_findings, Grown-insert_alerts,
}
use smart_factory_monitor.Storage.Repository.Saving.{
  IsStored, IsStored-store_findings, stored_reading, find_reading-append_new,
  persisted_matches-reading_row, with_reading, identity, save-new, save-old, save_conflict,
}

module _ {F : Type 0} (f : Floats F) (config : RepositoryConfig) where
  -- The database after a save: what `IsStored` says, and each table has grown by rows that are
  -- those of the reading, of one of its findings, or of the alert of one of its routed findings.
  pub record IsSaved (now : ℕ) (r : TelemetryReading F) (xs : List (AnomalyFinding F))
      (before after : Database F) : Type 0 where
    pub stored : IsStored f config r xs after
    pub readings : Grown (IsReadingRow r) before.readings after.readings
    pub findings : Grown (λ row. Any (λ x. IsFindingRow r x row) xs) before.findings after.findings
    pub alerts :
        Grown (λ row. Any (λ x. IsAlertRow r config now x row) xs) before.outbox after.outbox

  -- What a fault makes of a save: nothing; an error and no change; or an error of a save that is
  -- done.
  abbrev Effect : ℕ → Fault → TelemetryReading F → List (AnomalyFinding F) → Repository F → Type 0
  Effect now fault r xs s =
      (save f config now fault r xs s ≡ save f config now Fault.no_fault r xs s)
      ⊎ ((save f config now fault r xs s
            ≡ (err StorageError.database_error, record s { available = some false }))
          ⊎ ((fault ≡ Fault.answering)
              × (inserted : Bool) × (t : Repository F) × (save f config now Fault.no_fault r xs s
                  ≡ (ok inserted, t))
              × (save f config now fault r xs s
                  ≡ (err StorageError.database_error, record t { available = some false }))))

  Effect-new :
      (now : ℕ) (fault : Fault) (r : TelemetryReading F) (xs : List (AnomalyFinding F))
      (s : Repository F)
      → any (identity f config r) s.database.readings ≡ false
      → Effect now fault r xs s
  unfolding save save_in_transaction insert_unless in_transaction end_transaction fails_at
      same_statement
  Effect-new now Fault.no_fault r xs s h = rw h (inl refl)
  Effect-new now Fault.connecting r xs s h = rw h (inr (inl refl))
  Effect-new now Fault.committing r xs s h = rw h (inr (inl refl))
  Effect-new now Fault.answering r xs s h =
      inr (inr (refl, _, _, save-new f config now r xs s h, rw h refl))
  Effect-new now (Fault.executing Statement.insert_telemetry) r xs s h = rw h (inr (inl refl))
  Effect-new now (Fault.executing Statement.select_telemetry) r xs s h = rw h (inl refl)
  Effect-new now (Fault.executing Statement.insert_anomaly) r xs s h = rw h (inr (inl refl))
  Effect-new now (Fault.executing Statement.insert_alert_outbox) r xs s h = rw h (inr (inl refl))

  Effect-old :
      (now : ℕ) (fault : Fault) (r : TelemetryReading F) (xs : List (AnomalyFinding F))
      (s : Repository F)
      → any (identity f config r) s.database.readings ≡ true
      → persisted_matches f r (stored_reading r s.database) ≡ true
      → Effect now fault r xs s
  unfolding save save_in_transaction insert_unless in_transaction end_transaction fails_at
      same_statement
  Effect-old now Fault.no_fault r xs s h m = rw h (rw m (inl refl))
  Effect-old now Fault.connecting r xs s h m = rw h (rw m (inr (inl refl)))
  Effect-old now Fault.committing r xs s h m = rw h (rw m (inr (inl refl)))
  Effect-old now Fault.answering r xs s h m =
      inr (inr (refl, _, _, save-old f config now r xs s h m, rw h (rw m refl)))
  Effect-old now (Fault.executing Statement.insert_telemetry) r xs s h m =
      rw h (rw m (inr (inl refl)))
  Effect-old now (Fault.executing Statement.select_telemetry) r xs s h m =
      rw h (rw m (inr (inl refl)))
  Effect-old now (Fault.executing Statement.insert_anomaly) r xs s h m =
      rw h (rw m (inr (inl refl)))
  Effect-old now (Fault.executing Statement.insert_alert_outbox) r xs s h m =
      rw h (rw m (inr (inl refl)))

  Effect-conflict :
      (now : ℕ) (fault : Fault) (r : TelemetryReading F) (xs : List (AnomalyFinding F))
      (s : Repository F)
      → any (identity f config r) s.database.readings ≡ true
      → persisted_matches f r (stored_reading r s.database) ≡ false
      → Effect now fault r xs s
  unfolding save save_in_transaction insert_unless in_transaction end_transaction fails_at
      same_statement
  Effect-conflict now Fault.no_fault r xs s h m = rw h (rw m (inl refl))
  Effect-conflict now Fault.connecting r xs s h m = rw h (rw m (inr (inl refl)))
  Effect-conflict now Fault.committing r xs s h m = rw h (rw m (inl refl))
  Effect-conflict now Fault.answering r xs s h m = rw h (rw m (inl refl))
  Effect-conflict now (Fault.executing Statement.insert_telemetry) r xs s h m =
      rw h (rw m (inr (inl refl)))
  Effect-conflict now (Fault.executing Statement.select_telemetry) r xs s h m =
      rw h (rw m (inr (inl refl)))
  Effect-conflict now (Fault.executing Statement.insert_anomaly) r xs s h m = rw h (rw m (inl refl))
  Effect-conflict now (Fault.executing Statement.insert_alert_outbox) r xs s h m =
      rw h (rw m (inl refl))

  save-Effect :
      (now : ℕ) (fault : Fault) (r : TelemetryReading F) (xs : List (AnomalyFinding F))
      (s : Repository F)
      → Effect now fault r xs s
  save-Effect now fault r xs s = elim (Bool-cases (any (identity f config r) s.database.readings)) [
    | inr h ↦ Effect-new now fault r xs s h
    | inl h ↦ elim (Bool-cases (persisted_matches f r (stored_reading r s.database))) [
      | inl m ↦ Effect-old now fault r xs s h m
      | inr m ↦ Effect-conflict now fault r xs s h m
    ]
  ]

  IsSaved-store_findings :
      (now : ℕ) (r : TelemetryReading F) (xs : List (AnomalyFinding F)) (before db : Database F)
      → persisted_matches f r (stored_reading r db) ≡ true
      → Grown (IsReadingRow r) before.readings db.readings
      → before.findings ≡ db.findings
      → before.outbox ≡ db.outbox
      → IsSaved now r xs before (store_findings f config now r xs db)
  IsSaved-store_findings now r xs before db m g p q = record {
    stored = IsStored-store_findings f config now r xs db m;
    readings = g;
    findings = rw p (Grown-insert_findings r xs db.findings);
    alerts = rw q (Grown-insert_alerts r config now xs db.outbox);
  }

  -- Without a fault.
  saved :
      ((x : F) → f.is_finite x ≡ true → f.eq x x ≡ true)
      → (now : ℕ) (r : TelemetryReading F) (xs : List (AnomalyFinding F)) (s t : Repository F)
        (inserted : Bool)
      → validate_reading f r ≡ ok r
      → save f config now Fault.no_fault r xs s ≡ (ok inserted, t)
      → IsSaved now r xs s.database t.database × (t.available ≡ some true)
  saved reflexive now r xs s t inserted v h =
      elim (Bool-cases (any (identity f config r) s.database.readings)) [
        | inr fresh ↦
            let same : t ≡ record {
              database = store_findings f config now r xs (with_reading f config r s.database);
              available = some true;
            } =
              cc (h, save-new f config now r xs s fresh) in
            rw same (
              IsSaved-store_findings now r xs s.database (with_reading f config r s.database)
                  (rw (find_reading-append_new r s.database.readings fresh)
                    (persisted_matches-reading_row f config reflexive r v))
                  record {
                    added = reading_row r ∷ [];
                    grown = refl;
                    hold = (IsReadingRow-reading_row r, tt);
                  }
                  refl refl,
              refl,
            )
        | inl old ↦ elim (Bool-cases (persisted_matches f r (stored_reading r s.database))) [
          | inl m ↦
              let same : t ≡ record {
                database = store_findings f config now r xs s.database;
                available = some true;
              } =
                cc (h, save-old f config now r xs s old m) in
              rw same (
                IsSaved-store_findings now r xs s.database s.database m
                    (Grown-refl (IsReadingRow r) s.database.readings) refl refl,
                refl,
              )
          | inr m ↦ absurd (cc (h, save_conflict f config now r xs s old m))
        ]
      ]

  -- Of finite floats equal to themselves and a valid reading: when `save` returns, the database is
  -- reported available. It holds the values of the reading under its identity, a row under the key
  -- of each finding, and an outbox row under the key of each finding of a routed severity. Each
  -- table starts with the rows it had; a row that it has gained has, in every column, the values of
  -- the reading, of one of the findings, or of the new, unclaimed alert of one of the routed
  -- findings.
  pub save-IsSaved :
      ((x : F) → f.is_finite x ≡ true → f.eq x x ≡ true)
      → (now : ℕ) (fault : Fault) (r : TelemetryReading F) (xs : List (AnomalyFinding F))
        (s t : Repository F) (inserted : Bool)
      → validate_reading f r ≡ ok r
      → save f config now fault r xs s ≡ (ok inserted, t)
      → IsSaved now r xs s.database t.database × (t.available ≡ some true)
  save-IsSaved reflexive now fault r xs s t inserted v h = elim (save-Effect now fault r xs s) [
    | inl same ↦ saved reflexive now r xs s t inserted v (sym same ∙ h)
    | inr (inl e) ↦ absurd (cc (e, h))
    | inr (inr (_, _, _, _, e)) ↦ absurd (cc (e, h))
  ]

  undone :
      (now : ℕ) (r : TelemetryReading F) (xs : List (AnomalyFinding F)) (s t : Repository F)
      (e : StorageError)
      → save f config now Fault.no_fault r xs s ≡ (err e, t)
      → t.database ≡ s.database
  undone now r xs s t e h = elim (Bool-cases (any (identity f config r) s.database.readings)) [
    | inr fresh ↦ absurd (cc (h, save-new f config now r xs s fresh))
    | inl old ↦ elim (Bool-cases (persisted_matches f r (stored_reading r s.database))) [
      | inl m ↦ absurd (cc (h, save-old f config now r xs s old m))
      | inr m ↦
          let same : t ≡ record s { available = some true } =
            cc (h, save_conflict f config now r xs s old m) in
          rw same refl
    ]
  ]

  -- The whole of the save is in the database, and only the answer to its COMMIT was lost.
  pub record IsUnanswered (now : ℕ) (fault : Fault) (r : TelemetryReading F)
      (xs : List (AnomalyFinding F)) (e : StorageError) (s t : Repository F) : Type 0 where
    pub lost : fault ≡ Fault.answering
    pub raised : e ≡ StorageError.database_error
    pub reported : t.available ≡ some false
    pub saved : IsSaved now r xs s.database t.database

  -- Of finite floats equal to themselves and a valid reading: wherever the driver fails, when
  -- `save` raises, the database is as it was; or the COMMIT was carried out and its answer was
  -- lost, and then the whole of the save is in the database, while `save` raises the driver's error
  -- and reports that the database is not available.
  pub save_failed :
      ((x : F) → f.is_finite x ≡ true → f.eq x x ≡ true)
      → (now : ℕ) (fault : Fault) (r : TelemetryReading F) (xs : List (AnomalyFinding F))
        (s t : Repository F) (e : StorageError)
      → validate_reading f r ≡ ok r
      → save f config now fault r xs s ≡ (err e, t)
      → (t.database ≡ s.database) ⊎ IsUnanswered now fault r xs e s t
  save_failed reflexive now fault r xs s t e v h = elim (save-Effect now fault r xs s) [
    | inl same ↦ inl (undone now r xs s t e (sym same ∙ h))
    | inr (inl d) ↦
        let same : t ≡ record s { available = some false } = cc (d, h) in inl (rw same refl)
    | inr (inr (lost, inserted, u, done, d)) ↦
        let same : t ≡ record u { available = some false } = cc (d, h) in
        let raised : e ≡ StorageError.database_error = cc (d, h) in
        inr (
          rw same record {
            lost = lost;
            raised = raised;
            reported = refl;
            saved = (saved reflexive now r xs s u inserted v done).0;
          })
  ]
