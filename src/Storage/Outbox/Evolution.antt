-- ===== src/Storage/Outbox/Evolution.antt =====
-- How the outbox evolves under all the statements that write it, from every dispatcher and
-- consumer.
use smart_factory_monitor.Common.{
  ◌⊎◌, ℕ, ◌≤◌, String, ◌≡◌, refl, ◌∙◌, Bool, true, List, [], ◌∷◌, ◌++◌, any, All, take, arith,
  Bool-cases, inl, inr, ◌==◌,
}
use smart_factory_monitor.Telemetry.Reading.{TelemetryReading, AnomalyFinding}
use smart_factory_monitor.Storage.{OutboxRow, insert_unless, same_finding}
use smart_factory_monitor.Storage.Repository.{
  RepositoryConfig, outbox_row, is_alert, insert_alert, insert_alerts,
}
use smart_factory_monitor.Storage.Outbox.Keys.{
  keys_unique, chosen_pending, keys_unique-update_where, keys_unique-update_leased,
  keys_unique-insert_alerts,
}
use smart_factory_monitor.Storage.Outbox.{
  ClaimedAlert, is_null, is_pending, is_chosen, pending_rows, leased, claim, holds_lease,
  update_where, count_where, update_leased, delivered, mark_delivered, rescheduled, reschedule,
}

module _ {F : Type 0} where
  -- One write to the outbox.
  pub data Step : List (OutboxRow F) → List (OutboxRow F) → Type 0 where
    claims :
        (now token limit lease : ℕ) (rows : List (OutboxRow F))
        → Step rows (claim now token limit lease rows).1
    marks :
        (now : ℕ) (claimed : ClaimedAlert F) (rows : List (OutboxRow F))
        → Step rows (mark_delivered now claimed rows).1
    reschedules :
        (now : ℕ) (claimed : ClaimedAlert F) (delay : ℕ) (error : String)
        (rows : List (OutboxRow F))
        → Step rows (reschedule now claimed delay error rows).1
    inserts :
        (config : RepositoryConfig) (now : ℕ) (r : TelemetryReading F)
        (xs : List (AnomalyFinding F)) (rows : List (OutboxRow F))
        → Step rows (insert_alerts config now r xs rows)

  pub data Reach (rows : List (OutboxRow F)) : List (OutboxRow F) → Type 0 where
    here : Reach rows rows
    next :
        {middle last : List (OutboxRow F)} → Reach rows middle → Step middle last → Reach rows last

  -- The same row later: its alert is the same, its attempts have not fallen, and either it was not
  -- delivered or nothing has changed.
  pub record Evolves (a b : OutboxRow F) : Type 0 where
    pub finding : b.finding ≡ a.finding
    pub event_id : b.event_id ≡ a.event_id
    pub attempts : a.attempt_count ≤ b.attempt_count
    pub final : (is_null a.delivered_at ≡ true) ⊎ (b ≡ a)

  -- Row by row, with rows added at the end.
  abbrev pub AllEvolve : List (OutboxRow F) → List (OutboxRow F) → Type 0
  AllEvolve [] later = Unit
  AllEvolve (a ∷ rows) [] = ⊥
  AllEvolve (a ∷ rows) (b ∷ later) = Evolves a b × AllEvolve rows later

  Evolves-refl : (a : OutboxRow F) → Evolves a a
  Evolves-refl a = record {
    finding = refl;
    event_id = refl;
    attempts = omega arith;
    final = inr refl;
  }

  AllEvolve-refl : (rows : List (OutboxRow F)) → AllEvolve rows rows
  AllEvolve-refl [] = tt
  AllEvolve-refl (a ∷ rows) = (Evolves-refl a, AllEvolve-refl rows)

  AllEvolve-append : (rows more : List (OutboxRow F)) → AllEvolve rows (rows ++ more)
  AllEvolve-append [] more = tt
  AllEvolve-append (a ∷ rows) more = (Evolves-refl a, AllEvolve-append rows more)

  Evolves-trans : (a b c : OutboxRow F) → Evolves a b → Evolves b c → Evolves a c
  Evolves-trans a b c h k = record {
    finding = k.finding ∙ h.finding;
    event_id = k.event_id ∙ h.event_id;
    attempts = omega (arith, h.attempts, k.attempts);
    final = elim h.final [
      | inl pending ↦ inl pending
      | inr same ↦ elim k.final [
        | inl pending ↦ inl (rw same at pending)
        | inr later ↦ inr (later ∙ same)
      ]
    ];
  }

  AllEvolve-trans : (a b c : List (OutboxRow F)) → AllEvolve a b → AllEvolve b c → AllEvolve a c
  AllEvolve-trans [] b c h k = tt
  AllEvolve-trans (x ∷ a) [] c h k = absurd h
  AllEvolve-trans (x ∷ a) (y ∷ b) [] h k = absurd k
  AllEvolve-trans (x ∷ a) (y ∷ b) (z ∷ c) h k =
      (Evolves-trans x y z h.0 k.0, AllEvolve-trans a b c h.1 k.1)

  AllEvolve-update_where :
      (test : OutboxRow F → Bool) (change : OutboxRow F → OutboxRow F)
      → ((row : OutboxRow F) → test row ≡ true → Evolves row (change row))
      → (rows : List (OutboxRow F)) → AllEvolve rows (update_where test change rows)
  unfolding update_where
  AllEvolve-update_where test change grows [] = tt
  AllEvolve-update_where test change grows (row ∷ rows) = (
    elim (Bool-cases (test row)) [ inl e ↦ rw e (grows row e) | inr e ↦ rw e (Evolves-refl row) ],
    AllEvolve-update_where test change grows rows,
  )

  AllEvolve-update_leased :
      (claimed : ClaimedAlert F) (change : OutboxRow F → OutboxRow F)
      → ((row : OutboxRow F) → holds_lease claimed row ≡ true → Evolves row (change row))
      → (rows : List (OutboxRow F)) → AllEvolve rows (update_leased claimed change rows).1
  unfolding update_leased
  AllEvolve-update_leased claimed change grows rows =
      elim (Bool-cases (count_where (holds_lease claimed) rows == 1)) [
        | inl e ↦ rw e (AllEvolve-update_where (holds_lease claimed) change grows rows)
        | inr e ↦ rw e (AllEvolve-refl rows)
      ]

  Evolves-leased :
      (now token lease : ℕ) (row : OutboxRow F)
      → is_pending now row ≡ true
      → Evolves row (leased token now lease row)
  unfolding leased is_pending
  Evolves-leased now token lease row p = record {
    finding = refl;
    event_id = refl;
    attempts = omega arith;
    final = inl (ground arith);
  }

  AllEvolve-update_chosen :
      (now token lease : ℕ) (test : OutboxRow F → Bool) (rows : List (OutboxRow F))
      → All (λ row. test row ≡ true → is_pending now row ≡ true) rows
      → AllEvolve rows (update_where test (leased token now lease) rows)
  unfolding update_where
  AllEvolve-update_chosen now token lease test [] h = tt
  AllEvolve-update_chosen now token lease test (row ∷ rows) h = (
    elim (Bool-cases (test row)) [
      | inl e ↦ rw e (Evolves-leased now token lease row (h.0 e))
      | inr e ↦ rw e (Evolves-refl row)
    ],
    AllEvolve-update_chosen now token lease test rows h.1,
  )

  AllEvolve-claim :
      (now token limit lease : ℕ) (rows : List (OutboxRow F))
      → keys_unique rows ≡ true
      → AllEvolve rows (claim now token limit lease rows).1
  unfolding claim
  AllEvolve-claim now token limit lease rows u =
      AllEvolve-update_chosen now token lease (is_chosen (take limit (pending_rows now rows))) rows
        (chosen_pending now limit rows u)

  Evolves-delivered :
      (now : ℕ) (claimed : ClaimedAlert F) (row : OutboxRow F)
      → holds_lease claimed row ≡ true
      → Evolves row (delivered now row)
  unfolding holds_lease delivered
  Evolves-delivered now claimed row h = record {
    finding = refl;
    event_id = refl;
    attempts = omega arith;
    final = inl (ground arith);
  }

  Evolves-rescheduled :
      (now delay : ℕ) (error : String) (claimed : ClaimedAlert F) (row : OutboxRow F)
      → holds_lease claimed row ≡ true
      → Evolves row (rescheduled now delay error row)
  unfolding holds_lease rescheduled
  Evolves-rescheduled now delay error claimed row h = record {
    finding = refl;
    event_id = refl;
    attempts = omega arith;
    final = inl (ground arith);
  }

  AllEvolve-insert_alert :
      (config : RepositoryConfig) (now : ℕ) (r : TelemetryReading F) (x : AnomalyFinding F)
      (rows : List (OutboxRow F))
      → AllEvolve rows (insert_alert config now r x rows)
  unfolding insert_alert insert_unless
  AllEvolve-insert_alert config now r x rows = elim (Bool-cases (is_alert config x)) [
    | inr e ↦ rw e (AllEvolve-refl rows)
    | inl e ↦
        elim (Bool-cases (
          any
            (λ (row : OutboxRow F).
              same_finding r.machine_id r.timestamp.instant x.rule_id row.finding)
            rows)) [
              | inl p ↦ rw e (rw p (AllEvolve-refl rows))
              | inr p ↦ rw e (rw p (AllEvolve-append rows (outbox_row config now r x ∷ [])))
            ]
  ]

  AllEvolve-insert_alerts :
      (config : RepositoryConfig) (now : ℕ) (r : TelemetryReading F) (xs : List (AnomalyFinding F))
      (rows : List (OutboxRow F))
      → AllEvolve rows (insert_alerts config now r xs rows)
  unfolding insert_alerts
  AllEvolve-insert_alerts config now r [] rows = AllEvolve-refl rows
  AllEvolve-insert_alerts config now r (x ∷ xs) rows =
      AllEvolve-trans rows (insert_alert config now r x rows) _
        (AllEvolve-insert_alert config now r x rows)
        (AllEvolve-insert_alerts config now r xs (insert_alert config now r x rows))

  AllEvolve-Step : {a b : List (OutboxRow F)} → Step a b → keys_unique a ≡ true → AllEvolve a b
  unfolding mark_delivered reschedule
  AllEvolve-Step (claims now token limit lease rows) u =
      AllEvolve-claim now token limit lease rows u
  AllEvolve-Step (marks now claimed rows) u =
      AllEvolve-update_leased claimed (delivered now) (Evolves-delivered now claimed) rows
  AllEvolve-Step (reschedules now claimed delay error rows) u =
      AllEvolve-update_leased claimed (rescheduled now delay error)
        (Evolves-rescheduled now delay error claimed) rows
  AllEvolve-Step (inserts config now r xs rows) u = AllEvolve-insert_alerts config now r xs rows

  keys_unique-Step :
      {a b : List (OutboxRow F)} → Step a b → keys_unique a ≡ true → keys_unique b ≡ true
  unfolding claim mark_delivered reschedule
  keys_unique-Step (claims now token limit lease rows) u =
      keys_unique-update_where _ (leased token now lease) (λ row. unfold leased in refl) rows ∙ u
  keys_unique-Step (marks now claimed rows) u =
      keys_unique-update_leased claimed (delivered now) (λ row. unfold delivered in refl) rows ∙ u
  keys_unique-Step (reschedules now claimed delay error rows) u =
      keys_unique-update_leased claimed (rescheduled now delay error)
        (λ row. unfold rescheduled in refl) rows
      ∙ u
  keys_unique-Step (inserts config now r xs rows) u =
      keys_unique-insert_alerts config now r xs rows u

  keys_unique-Reach :
      {a b : List (OutboxRow F)} → keys_unique a ≡ true → Reach a b → keys_unique b ≡ true
  keys_unique-Reach u here = u
  keys_unique-Reach u (next r s) = keys_unique-Step s (keys_unique-Reach u r)

  -- From an outbox whose keys differ, whatever claims, deliveries, reschedulings and inserts
  -- follow, no row is lost, each keeps its alert and its event id, its attempts never fall, and a
  -- row that was delivered never changes again; new rows come after them.
  pub AllEvolve-Reach :
      {a b : List (OutboxRow F)} → keys_unique a ≡ true → Reach a b → AllEvolve a b
  AllEvolve-Reach u here = AllEvolve-refl _
  AllEvolve-Reach u (next r s) =
      AllEvolve-trans _ _ _ (AllEvolve-Reach u r) (AllEvolve-Step s (keys_unique-Reach u r))
