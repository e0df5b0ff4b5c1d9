-- ===== src/Storage/Repository/Inserts.antt =====
-- What the two batches of inserts leave: every row that was there, one row for each key that was
-- asked for, and nothing else.
use smart_factory_monitor.Common.{
  ℕ, ◌≡◌, refl, Bool, true, false, ◌||◌, List, [], ◌∷◌, any, any-append, All, arith, eq_iff,
  Bool-cases, inl, inr, if◌then◌else◌,
}
use smart_factory_monitor.Telemetry.Reading.{TelemetryReading, AnomalyFinding}
use smart_factory_monitor.Storage.{FindingRow, OutboxRow, insert_unless, same_finding}
use smart_factory_monitor.Storage.Repository.{
  RepositoryConfig, finding_row, outbox_row, is_alert, insert_findings, insert_alert, insert_alerts,
}

pub any-insert_unless :
    {A : Type 0} (p c : A → Bool) (row : A) (rows : List A)
    → any p (insert_unless c row rows).0 ≡ (any p rows || (if any c rows then false else p row))
unfolding insert_unless
any-insert_unless p c row rows = ground (arith, any-append p rows (row ∷ []))

pub insert_unless_present :
    {A : Type 0} (c : A → Bool) (row : A) (rows : List A)
    → any c rows ≡ true
    → insert_unless c row rows ≡ (rows, false)
unfolding insert_unless
insert_unless_present c row rows h = rw h

module _ {F : Type 0} where
  same_finding-finding_row :
      (r : TelemetryReading F) (x : AnomalyFinding F)
      → same_finding r.machine_id r.timestamp.instant x.rule_id (finding_row r x) ≡ true
  unfolding finding_row
  same_finding-finding_row r x =
      ground (arith, eq_iff r.machine_id r.machine_id, eq_iff x.rule_id x.rule_id)

  abbrev pub has_finding : TelemetryReading F → AnomalyFinding F → List (FindingRow F) → Bool
  has_finding r x = any (same_finding r.machine_id r.timestamp.instant x.rule_id)

  abbrev pub has_alert : TelemetryReading F → AnomalyFinding F → List (OutboxRow F) → Bool
  has_alert r x =
      any
        (λ (row : OutboxRow F). same_finding r.machine_id r.timestamp.instant x.rule_id row.finding)

  -- No row is lost.
  pub insert_findings_keeps :
      (p : FindingRow F → Bool) (r : TelemetryReading F) (xs : List (AnomalyFinding F))
      (rows : List (FindingRow F))
      → any p rows ≡ true
      → any p (insert_findings r xs rows) ≡ true
  unfolding insert_findings
  insert_findings_keeps p r [] rows h = h
  insert_findings_keeps p r (x ∷ xs) rows h =
      insert_findings_keeps p r xs _ (rw any-insert_unless (rw h))

  pub has_finding-insert_findings :
      (r : TelemetryReading F) (xs : List (AnomalyFinding F)) (rows : List (FindingRow F))
      → All (λ x. has_finding r x (insert_findings r xs rows) ≡ true) xs
  unfolding insert_findings
  has_finding-insert_findings r [] rows = tt
  has_finding-insert_findings r (x ∷ xs) rows = (
    insert_findings_keeps (same_finding r.machine_id r.timestamp.instant x.rule_id) r xs _
        (rw any-insert_unless (ground (arith, same_finding-finding_row r x))),
    has_finding-insert_findings r xs _,
  )

  pub insert_findings_present :
      (r : TelemetryReading F) (xs : List (AnomalyFinding F)) (rows : List (FindingRow F))
      → All (λ x. has_finding r x rows ≡ true) xs
      → insert_findings r xs rows ≡ rows
  unfolding insert_findings
  insert_findings_present r [] rows h = refl
  insert_findings_present r (x ∷ xs) rows h =
      rw (insert_unless_present _ (finding_row r x) rows h.0)
        (insert_findings_present r xs rows h.1)

  -- An alert of a routed severity has a row.
  abbrev pub HasAlert :
      RepositoryConfig → TelemetryReading F → List (OutboxRow F) → AnomalyFinding F → Type 0
  HasAlert config r rows x = is_alert config x ≡ true → has_alert r x rows ≡ true

  module _ (config : RepositoryConfig) (now : ℕ) where
    has_alert-outbox_row :
        (r : TelemetryReading F) (x : AnomalyFinding F)
        → same_finding r.machine_id r.timestamp.instant x.rule_id
            (outbox_row config now r x).finding
          ≡ true
    unfolding outbox_row
    has_alert-outbox_row r x = same_finding-finding_row r x

    insert_alert_keeps :
        (p : OutboxRow F → Bool) (r : TelemetryReading F) (x : AnomalyFinding F)
        (rows : List (OutboxRow F))
        → any p rows ≡ true
        → any p (insert_alert config now r x rows) ≡ true
    unfolding insert_alert
    insert_alert_keeps p r x rows h = elim (Bool-cases (is_alert config x)) [
      | inl e ↦ rw e (rw any-insert_unless (rw h))
      | inr e ↦ rw e h
    ]

    pub insert_alerts_keeps :
        (p : OutboxRow F → Bool) (r : TelemetryReading F) (xs : List (AnomalyFinding F))
        (rows : List (OutboxRow F))
        → any p rows ≡ true
        → any p (insert_alerts config now r xs rows) ≡ true
    unfolding insert_alerts
    insert_alerts_keeps p r [] rows h = h
    insert_alerts_keeps p r (x ∷ xs) rows h =
        insert_alerts_keeps p r xs (insert_alert config now r x rows)
          (insert_alert_keeps p r x rows h)

    HasAlert-insert_alert :
        (r : TelemetryReading F) (x : AnomalyFinding F) (rows : List (OutboxRow F))
        → HasAlert config r (insert_alert config now r x rows) x
    unfolding insert_alert
    HasAlert-insert_alert r x rows e =
        rw e (rw any-insert_unless (ground (arith, has_alert-outbox_row r x)))

    pub HasAlert-insert_alerts :
        (r : TelemetryReading F) (xs : List (AnomalyFinding F)) (rows : List (OutboxRow F))
        → All (HasAlert config r (insert_alerts config now r xs rows)) xs
    unfolding insert_alerts
    HasAlert-insert_alerts r [] rows = tt
    HasAlert-insert_alerts r (x ∷ xs) rows = (
      λ e.
          insert_alerts_keeps
            (λ (row : OutboxRow F).
              same_finding r.machine_id r.timestamp.instant x.rule_id row.finding)
            r xs (insert_alert config now r x rows) (HasAlert-insert_alert r x rows e),
      HasAlert-insert_alerts r xs (insert_alert config now r x rows),
    )

    pub insert_alerts_present :
        (r : TelemetryReading F) (xs : List (AnomalyFinding F)) (rows : List (OutboxRow F))
        → All (HasAlert config r rows) xs
        → insert_alerts config now r xs rows ≡ rows
    unfolding insert_alerts insert_alert
    insert_alerts_present r [] rows h = refl
    insert_alerts_present r (x ∷ xs) rows h = elim (Bool-cases (is_alert config x)) [
      | inl e ↦ rw e (
          rw (insert_unless_present _ (outbox_row config now r x) rows (h.0 e))
            (insert_alerts_present r xs rows h.1))
      | inr e ↦ rw e (insert_alerts_present r xs rows h.1)
    ]
