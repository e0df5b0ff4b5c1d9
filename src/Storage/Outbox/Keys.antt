-- ===== src/Storage/Outbox/Keys.antt =====
-- The primary key of the outbox: no two rows have one key, and every statement keeps that.
use smart_factory_monitor.Common.{
  ℕ, zero, suc, ◌≡◌, refl, Bool, true, false, not, ◌&&◌, ◌||◌, List, [], ◌∷◌, ◌++◌, any, any-append,
  All, All-zip, take, arith, Bool-cases, inl, inr, eq_iff,
}
use smart_factory_monitor.Telemetry.Reading.{TelemetryReading, AnomalyFinding}
use smart_factory_monitor.Storage.{FindingRow, OutboxRow, insert_unless}
use smart_factory_monitor.Storage.Repository.{
  RepositoryConfig, finding_row, outbox_row, insert_alert, insert_alerts,
}
use smart_factory_monitor.Storage.Outbox.{
  ClaimedAlert, is_key_of, is_pending, is_chosen, pending_rows, insert_ordered, precedes,
  holds_lease, update_where, update_leased,
}

module _ {F : Type 0} where
  unfoldable pub keys_unique : List (OutboxRow F) → Bool
  keys_unique [] = true
  keys_unique (row ∷ rows) = not (any (is_key_of row.finding) rows) && keys_unique rows

  is_key_of_sym : (a b : OutboxRow F) → is_key_of a.finding b ≡ is_key_of b.finding a
  is_key_of_sym a b = ground (
    arith,
    eq_iff a.finding.machine_id b.finding.machine_id,
    eq_iff b.finding.machine_id a.finding.machine_id,
    eq_iff a.finding.rule_id b.finding.rule_id,
    eq_iff b.finding.rule_id a.finding.rule_id,
  )

  any-insert_ordered :
      (p : OutboxRow F → Bool) (row : OutboxRow F) (rows : List (OutboxRow F))
      → any p (insert_ordered row rows) ≡ (p row || any p rows)
  unfolding insert_ordered
  any-insert_ordered p row [] = refl
  any-insert_ordered p row (other ∷ rest) = elim (Bool-cases (precedes row other)) [
    | inl e ↦ rw e
    | inr e ↦ rw e (ground (arith, any-insert_ordered p row rest))
  ]

  any-pending_rows :
      (now : ℕ) (p : OutboxRow F → Bool) (rows : List (OutboxRow F))
      → any p (pending_rows now rows) ≡ any (λ row. p row && is_pending now row) rows
  unfolding pending_rows
  any-pending_rows now p [] = refl
  any-pending_rows now p (row ∷ rows) = elim (Bool-cases (is_pending now row)) [
    | inl e ↦ rw e (rw any-insert_ordered (rw (any-pending_rows now p rows) (ground arith)))
    | inr e ↦ rw e (rw (any-pending_rows now p rows) (ground arith))
  ]

  any-take :
      (p : OutboxRow F → Bool) (n : ℕ) (rows : List (OutboxRow F))
      → any p (take n rows) ≡ true
      → any p rows ≡ true
  any-take p zero rows h = cc
  any-take p (suc n) [] h = cc
  any-take p (suc n) (row ∷ rows) h = ground (arith, any-take p n rows)

  -- A key that is chosen is the key of a pending row.
  pub pending_of_chosen :
      (now limit : ℕ) (rows : List (OutboxRow F)) (row : OutboxRow F)
      → is_chosen (take limit (pending_rows now rows)) row ≡ true
      → any (λ x. is_key_of x.finding row && is_pending now x) rows ≡ true
  unfolding is_chosen
  pending_of_chosen now limit rows row h =
      rw (← any-pending_rows now (λ (x : OutboxRow F). is_key_of x.finding row) rows)
        (any-take (λ (x : OutboxRow F). is_key_of x.finding row) limit (pending_rows now rows) h)

  All-not_any :
      (p : OutboxRow F → Bool) (rows : List (OutboxRow F))
      → any p rows ≡ false
      → All (λ row. p row ≡ false) rows
  All-not_any p [] h = tt
  All-not_any p (row ∷ rows) h = (ground arith, All-not_any p rows (ground arith))

  no_other_key :
      (now : ℕ) (a : OutboxRow F) (rows : List (OutboxRow F))
      → any (is_key_of a.finding) rows ≡ false
      → any (λ x. is_key_of x.finding a && is_pending now x) rows ≡ false
  no_other_key now a [] h = refl
  no_other_key now a (row ∷ rows) h = ground (arith, is_key_of_sym a row, no_other_key now a rows)

  -- With unique keys, a row whose key is that of a pending row is that row.
  unique_pending :
      (now : ℕ) (rows : List (OutboxRow F))
      → keys_unique rows ≡ true
      → All
          (λ row.
            any (λ x. is_key_of x.finding row && is_pending now x) rows ≡ true
            → is_pending now row ≡ true)
          rows
  unfolding keys_unique
  unique_pending now [] u = tt
  unique_pending now (a ∷ rows) u = (
    λ h. ground (arith, no_other_key now a rows, h),
    All-zip (λ row fresh ih h. ih (ground (arith, fresh, h))) rows
        (All-not_any (is_key_of a.finding) rows (ground arith))
        (unique_pending now rows (ground arith)),
  )

  -- With unique keys, only pending rows are chosen.
  pub chosen_pending :
      (now limit : ℕ) (rows : List (OutboxRow F))
      → keys_unique rows ≡ true
      → All
          (λ row.
            is_chosen (take limit (pending_rows now rows)) row ≡ true → is_pending now row ≡ true)
          rows
  chosen_pending now limit rows u =
      All-zip (λ row pending _ h. pending (pending_of_chosen now limit rows row h)) rows
        (unique_pending now rows u) (unique_pending now rows u)

  module _ (test : OutboxRow F → Bool) (change : OutboxRow F → OutboxRow F)
      (keeps : (row : OutboxRow F) → (change row).finding ≡ row.finding) where
    any_key-update_where :
        (x : FindingRow F) (rows : List (OutboxRow F))
        → any (is_key_of x) (update_where test change rows) ≡ any (is_key_of x) rows
    unfolding update_where
    any_key-update_where x [] = refl
    any_key-update_where x (row ∷ rows) = elim (Bool-cases (test row)) [
      | inl e ↦ rw e (rw (keeps row) (rw (any_key-update_where x rows)))
      | inr e ↦ rw e (rw (any_key-update_where x rows))
    ]

    pub keys_unique-update_where :
        (rows : List (OutboxRow F)) → keys_unique (update_where test change rows) ≡ keys_unique rows
    unfolding update_where keys_unique
    keys_unique-update_where [] = refl
    keys_unique-update_where (row ∷ rows) = elim (Bool-cases (test row)) [
      | inl e ↦ rw e (
          rw (keeps row)
            (rw (any_key-update_where row.finding rows) (rw (keys_unique-update_where rows))))
      | inr e ↦
          rw e (rw (any_key-update_where row.finding rows) (rw (keys_unique-update_where rows)))
    ]

  pub keys_unique-update_leased :
      (claimed : ClaimedAlert F) (change : OutboxRow F → OutboxRow F)
      → ((row : OutboxRow F) → (change row).finding ≡ row.finding)
      → (rows : List (OutboxRow F))
      → keys_unique (update_leased claimed change rows).1 ≡ keys_unique rows
  unfolding update_leased
  keys_unique-update_leased claimed change keeps rows =
      ground (arith, keys_unique-update_where (holds_lease claimed) change keeps rows)

  keys_unique-append_new :
      (row : OutboxRow F) (rows : List (OutboxRow F))
      → any (is_key_of row.finding) rows ≡ false
      → keys_unique rows ≡ true
      → keys_unique (rows ++ (row ∷ [])) ≡ true
  unfolding keys_unique
  keys_unique-append_new row [] h u = refl
  keys_unique-append_new row (a ∷ rows) h u = ground (
    arith,
    is_key_of_sym a row,
    any-append (is_key_of a.finding) rows (row ∷ []),
    keys_unique-append_new row rows,
  )

  keys_unique-insert_alert :
      (config : RepositoryConfig) (now : ℕ) (r : TelemetryReading F) (x : AnomalyFinding F)
      (rows : List (OutboxRow F))
      → keys_unique rows ≡ true
      → keys_unique (insert_alert config now r x rows) ≡ true
  unfolding insert_alert insert_unless outbox_row finding_row
  keys_unique-insert_alert config now r x rows u =
      ground (arith, keys_unique-append_new (outbox_row config now r x) rows)

  pub keys_unique-insert_alerts :
      (config : RepositoryConfig) (now : ℕ) (r : TelemetryReading F) (xs : List (AnomalyFinding F))
      (rows : List (OutboxRow F))
      → keys_unique rows ≡ true
      → keys_unique (insert_alerts config now r xs rows) ≡ true
  unfolding insert_alerts
  keys_unique-insert_alerts config now r [] rows u = u
  keys_unique-insert_alerts config now r (x ∷ xs) rows u =
      keys_unique-insert_alerts config now r xs (insert_alert config now r x rows)
        (keys_unique-insert_alert config now r x rows u)
