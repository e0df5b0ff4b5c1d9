-- ===== src/Storage/Repository/Saving.antt =====
-- What `save` does where the driver does not fail, and that a reading saved once can be saved again
-- without effect.
use smart_factory_monitor.Common.{
  ℕ, String, ◌≡◌, refl, ◌≢◌, Bool, true, false, Option, none, some, List, [], ◌∷◌, ◌++◌, any, All,
  arith, eq_iff, Bool-cases, inl, inr, ok, err,
}
use smart_factory_monitor.Telemetry.Reading.{
  Floats, TelemetryReading, AnomalyFinding, validate_reading,
}
use smart_factory_monitor.Storage.{ReadingRow, Database, insert_unless, same_reading}
use smart_factory_monitor.Storage.Repository.{
  RepositoryConfig, Repository, StorageError, reading_row, find_reading, persisted_matches,
  save_in_transaction, save, store_findings, Fault, fails_at, in_transaction, end_transaction,
}
use smart_factory_monitor.Storage.Repository.Inserts.{
  has_finding, HasAlert, has_finding-insert_findings, insert_findings_present,
  HasAlert-insert_alerts, insert_alerts_present,
}

module _ {F : Type 0} where
  abbrev pub stored_reading : TelemetryReading F → Database F → Option (ReadingRow F)
  stored_reading r db = find_reading r.machine_id r.timestamp.instant db.readings

  pub find_reading-append_new :
      (r : TelemetryReading F) (rows : List (ReadingRow F))
      → any (same_reading r.machine_id r.timestamp.instant) rows ≡ false
      → find_reading r.machine_id r.timestamp.instant (rows ++ (reading_row r ∷ []))
        ≡ some (reading_row r)
  unfolding find_reading reading_row
  find_reading-append_new r [] h = ground (arith, eq_iff r.machine_id r.machine_id)
  find_reading-append_new r (row ∷ rows) h = ground (arith, find_reading-append_new r rows)

  any_of_find_reading :
      (machine_id : String) (at : ℕ) (rows : List (ReadingRow F))
      → find_reading machine_id at rows ≢ none
      → any (same_reading machine_id at) rows ≡ true
  unfolding find_reading
  any_of_find_reading machine_id at [] h = absurd (h refl)
  any_of_find_reading machine_id at (row ∷ rows) h =
      elim (Bool-cases (same_reading machine_id at row)) [
        | inl e ↦ rw e
        | inr e ↦ rw e (any_of_find_reading machine_id at rows (rw e at h))
      ]

module _ {F : Type 0} (f : Floats F) (config : RepositoryConfig) where
  -- The database holds the values of the reading under its identity, a row for each finding, and an
  -- outbox row for each finding of a routed severity.
  pub record IsStored (r : TelemetryReading F) (xs : List (AnomalyFinding F)) (db : Database F)
      : Type 0 where
    pub values : persisted_matches f r (stored_reading r db) ≡ true
    pub findings : All (λ x. has_finding r x db.findings ≡ true) xs
    pub alerts : All (HasAlert config r db.outbox) xs

  pub persisted_matches-reading_row :
      ((x : F) → f.is_finite x ≡ true → f.eq x x ≡ true)
      → (r : TelemetryReading F) → validate_reading f r ≡ ok r
      → persisted_matches f r (some (reading_row r)) ≡ true
  unfolding persisted_matches reading_row validate_reading
  persisted_matches-reading_row reflexive r v =
      ground (arith, reflexive r.temperature_c, reflexive r.vibration_mm_s, reflexive r.power_kw)

  -- What the two batches add to a database that holds the values.
  pub IsStored-store_findings :
      (now : ℕ) (r : TelemetryReading F) (xs : List (AnomalyFinding F)) (db : Database F)
      → persisted_matches f r (stored_reading r db) ≡ true
      → IsStored r xs (store_findings f config now r xs db)
  IsStored-store_findings now r xs db m = record {
    values = m;
    findings = has_finding-insert_findings r xs db.findings;
    alerts = HasAlert-insert_alerts config now r xs db.outbox;
  }

  abbrev pub with_reading : TelemetryReading F → Database F → Database F
  with_reading r db = record db { readings = db.readings ++ (reading_row r ∷ []) }

  abbrev pub identity : TelemetryReading F → ReadingRow F → Bool
  identity r = same_reading r.machine_id r.timestamp.instant

  pub save-new :
      (now : ℕ) (r : TelemetryReading F) (xs : List (AnomalyFinding F)) (s : Repository F)
      → any (identity r) s.database.readings ≡ false
      → save f config now Fault.no_fault r xs s ≡ (
        ok true,
        record {
          database = store_findings f config now r xs (with_reading r s.database);
          available = some true;
        },
      )
  unfolding save save_in_transaction insert_unless in_transaction end_transaction fails_at
  save-new now r xs s fresh = rw fresh

  pub save-old :
      (now : ℕ) (r : TelemetryReading F) (xs : List (AnomalyFinding F)) (s : Repository F)
      → any (identity r) s.database.readings ≡ true
      → persisted_matches f r (stored_reading r s.database) ≡ true
      → save f config now Fault.no_fault r xs s ≡ (
        ok false,
        record { database = store_findings f config now r xs s.database; available = some true },
      )
  unfolding save save_in_transaction insert_unless in_transaction end_transaction fails_at
  save-old now r xs s old m = rw old (rw m)

  -- Another reading under the same identity: the first one stays, and `save` raises the conflict.
  pub save_conflict :
      (now : ℕ) (r : TelemetryReading F) (xs : List (AnomalyFinding F)) (s : Repository F)
      → any (identity r) s.database.readings ≡ true
      → persisted_matches f r (stored_reading r s.database) ≡ false
      → save f config now Fault.no_fault r xs s
        ≡ (err StorageError.identity_conflict, record s { available = some true })
  unfolding save save_in_transaction insert_unless in_transaction end_transaction fails_at
  save_conflict now r xs s old m = rw old (rw m)

  matched-ne-none :
      (r : TelemetryReading F) (o : Option (ReadingRow F))
      → persisted_matches f r o ≡ true
      → o ≢ none
  unfolding persisted_matches
  matched-ne-none r none h e = cc
  matched-ne-none r (some row) h e = cc

  -- What is stored can be saved again: `save` returns that nothing was inserted, and the database
  -- stays as it is.
  pub save_again :
      (now : ℕ) (r : TelemetryReading F) (xs : List (AnomalyFinding F)) (s : Repository F)
      → IsStored r xs s.database
      → save f config now Fault.no_fault r xs s ≡ (ok false, record s { available = some true })
  save_again now r xs s h =
      let old =
        any_of_find_reading r.machine_id r.timestamp.instant s.database.readings
          (matched-ne-none r _ h.values) in
      rw (save-old now r xs s old h.values) (
        rw (insert_findings_present r xs s.database.findings h.findings)
          (rw (insert_alerts_present config now r xs s.database.outbox h.alerts)))
