-- ===== src/Storage/Repository/Growth.antt =====
-- What `save` adds to the tables: rows with the values of the reading, of its findings and of their
-- alerts, column by column, after the rows that were there.
use smart_factory_monitor.Common.{
  ℕ, String, ◌<>◌, ◌≡◌, refl, sym, ◌∙◌, Bool, true, none, inl, inr, List, [], ◌∷◌, ◌++◌, append-nil,
  append_assoc, any, All, All-append, All-map, Any, Bool-cases, str_eq,
}
use smart_factory_monitor.Telemetry.Reading.{TelemetryReading, AnomalyFinding, severity_value}
use smart_factory_monitor.Storage.{ReadingRow, FindingRow, OutboxRow, insert_unless, same_finding}
use smart_factory_monitor.Storage.Repository.{
  RepositoryConfig, reading_row, finding_row, outbox_row, is_alert, insert_findings, insert_alert,
  insert_alerts,
}

-- A table after another: the same rows first, and then rows that meet the predicate.
pub record Grown {A : Type 0} (P : A → Type 0) (rows rows' : List A) : Type 0 where
  pub added : List A
  pub grown : rows' ≡ rows ++ added
  pub hold : All P added

module _ {A : Type 0} where
  pub Grown-refl : (P : A → Type 0) (rows : List A) → Grown P rows rows
  Grown-refl P rows = record { added = []; grown = sym (append-nil rows); hold = tt }

  Grown-trans : {P : A → Type 0} (a b c : List A) → Grown P a b → Grown P b c → Grown P a c
  Grown-trans {P = P} a b c g h = record {
    added = g.added ++ h.added;
    grown = h.grown ∙ rw g.grown (append_assoc a g.added h.added);
    hold = All-append P g.added h.added g.hold h.hold;
  }

  Grown-mono :
      {P Q : A → Type 0} → ((x : A) → P x → Q x) → (a b : List A) → Grown P a b → Grown Q a b
  Grown-mono f a b g = record { added = g.added; grown = g.grown; hold = All-map f g.added g.hold }

  pub Grown-insert_unless :
      (P : A → Type 0) (conflicts : A → Bool) (row : A) (rows : List A)
      → P row
      → Grown P rows (insert_unless conflicts row rows).0
  unfolding insert_unless
  Grown-insert_unless P conflicts row rows p = elim (Bool-cases (any conflicts rows)) [
    | inl e ↦ rw e (Grown-refl P rows)
    | inr e ↦ rw e record { added = row ∷ []; grown = refl; hold = (p, tt) }
  ]

module _ {F : Type 0} (r : TelemetryReading F) where
  pub record IsReadingRow (row : ReadingRow F) : Type 0 where
    pub machine_id : row.machine_id ≡ r.machine_id
    pub recorded_at : row.recorded_at ≡ r.timestamp.instant
    pub temperature_c : row.temperature_c ≡ r.temperature_c
    pub vibration_mm_s : row.vibration_mm_s ≡ r.vibration_mm_s
    pub power_kw : row.power_kw ≡ r.power_kw
    pub production_rate : row.production_rate ≡ r.production_rate

  pub IsReadingRow-reading_row : IsReadingRow (reading_row r)
  unfolding reading_row
  IsReadingRow-reading_row = record {
    machine_id = refl;
    recorded_at = refl;
    temperature_c = refl;
    vibration_mm_s = refl;
    power_kw = refl;
    production_rate = refl;
  }

  pub record IsFindingRow (x : AnomalyFinding F) (row : FindingRow F) : Type 0 where
    pub machine_id : row.machine_id ≡ r.machine_id
    pub recorded_at : row.recorded_at ≡ r.timestamp.instant
    pub rule_id : row.rule_id ≡ x.rule_id
    pub severity : row.severity ≡ severity_value x.severity
    pub metric : row.metric ≡ x.metric
    pub observed_value : row.observed_value ≡ x.observed_value
    pub threshold : row.threshold ≡ x.threshold
    pub comparison : row.comparison ≡ x.comparison
    pub message : row.message ≡ x.message

  IsFindingRow-finding_row : (x : AnomalyFinding F) → IsFindingRow x (finding_row r x)
  unfolding finding_row
  IsFindingRow-finding_row x = record {
    machine_id = refl;
    recorded_at = refl;
    rule_id = refl;
    severity = refl;
    metric = refl;
    observed_value = refl;
    threshold = refl;
    comparison = refl;
    message = refl;
  }

  pub Grown-insert_findings :
      (xs : List (AnomalyFinding F)) (rows : List (FindingRow F))
      → Grown (λ row. Any (λ x. IsFindingRow x row) xs) rows (insert_findings r xs rows)
  unfolding insert_findings
  Grown-insert_findings [] rows = Grown-refl _ rows
  Grown-insert_findings (x ∷ xs) rows =
      let next =
        (insert_unless (same_finding r.machine_id r.timestamp.instant x.rule_id) (finding_row r x)
          rows).0 in
      Grown-trans rows next (insert_findings r xs next)
        (Grown-insert_unless (λ row. Any (λ y. IsFindingRow y row) (x ∷ xs)) _ (finding_row r x)
          rows (inl (IsFindingRow-finding_row x)))
        (Grown-mono (λ row p. inr p) next (insert_findings r xs next)
          (Grown-insert_findings xs next))

  module _ (config : RepositoryConfig) (now : ℕ) where
    -- A new outbox row: due at once, never attempted, neither leased nor delivered.
    pub record IsAlertRow (x : AnomalyFinding F) (row : OutboxRow F) : Type 0 where
      pub routed :
          any (λ (s : String). str_eq (severity_value x.severity) s) config.alert_severities ≡ true
      pub finding : IsFindingRow x row.finding
      pub event_id :
          row.event_id
          ≡ config.uuid5_url (
              "smart-factory-alert:"
              <> (r.machine_id <> (":" <> (config.isoformat r.timestamp <> (":" <> x.rule_id)))))
      pub created_at : row.created_at ≡ now
      pub available_at : row.available_at ≡ now
      pub attempt_count : row.attempt_count ≡ 0
      pub lease_token : row.lease_token ≡ none
      pub lease_expires_at : row.lease_expires_at ≡ none
      pub delivered_at : row.delivered_at ≡ none
      pub last_error : row.last_error ≡ none

    IsAlertRow-outbox_row :
        (x : AnomalyFinding F) → is_alert config x ≡ true → IsAlertRow x (outbox_row config now r x)
    unfolding outbox_row is_alert
    IsAlertRow-outbox_row x e = record {
      routed = e;
      finding = IsFindingRow-finding_row x;
      event_id = refl;
      created_at = refl;
      available_at = refl;
      attempt_count = refl;
      lease_token = refl;
      lease_expires_at = refl;
      delivered_at = refl;
      last_error = refl;
    }

    Grown-insert_alert :
        (x : AnomalyFinding F) (rows : List (OutboxRow F))
        → Grown (IsAlertRow x) rows (insert_alert config now r x rows)
    unfolding insert_alert
    Grown-insert_alert x rows = elim (Bool-cases (is_alert config x)) [
      | inl e ↦ rw e (
          Grown-insert_unless (IsAlertRow x) _ (outbox_row config now r x) rows
            (IsAlertRow-outbox_row x e))
      | inr e ↦ rw e (Grown-refl (IsAlertRow x) rows)
    ]

    pub Grown-insert_alerts :
        (xs : List (AnomalyFinding F)) (rows : List (OutboxRow F))
        → Grown (λ row. Any (λ x. IsAlertRow x row) xs) rows (insert_alerts config now r xs rows)
    unfolding insert_alerts
    Grown-insert_alerts [] rows = Grown-refl _ rows
    Grown-insert_alerts (x ∷ xs) rows =
        let next = insert_alert config now r x rows in
        Grown-trans rows next (insert_alerts config now r xs next)
          (Grown-mono (λ row p. inl p) rows next (Grown-insert_alert x rows))
          (Grown-mono (λ row p. inr p) next (insert_alerts config now r xs next)
            (Grown-insert_alerts xs next))
