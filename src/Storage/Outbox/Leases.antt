-- ===== src/Storage/Outbox/Leases.antt =====
-- Leases: a claim takes only alerts whose key has a pending row, and ends every older lease on
-- them.
use smart_factory_monitor.Common.{
  ℕ, Any, Any-of_any, ◌≤◌, ◌⊎◌, Option, none, some, leb→le, String, ◌≡◌, ◌≢◌, refl, Bool, true,
  ◌&&◌, List, [], ◌∷◌, any, take, arith, Bool-cases, inl, inr, eq_iff, err,
}
use smart_factory_monitor.Storage.{FindingRow, OutboxRow, same_finding}
use smart_factory_monitor.Storage.Outbox.{
  ClaimedAlert, LeaseLost, is_key_of, is_pending, expired_at, is_chosen, pending_rows, leased,
  claimed_alert, claimed_alerts, claim, holds_lease, update_where, count_where, update_leased,
  mark_delivered, reschedule,
}
use smart_factory_monitor.Storage.Outbox.Keys.{pending_of_chosen}

lease_ended :
    (now : ℕ) (o : Option ℕ)
    → expired_at now o ≡ true
    → (o ≡ none) ⊎ ((t : ℕ) × (o ≡ some t) × (t ≤ now))
lease_ended now none h = inl refl
lease_ended now (some t) h = inr (t, refl, leb→le t now h)

module _ {F : Type 0} where
  -- Two alerts have the same key.
  abbrev pub same_alert : FindingRow F → FindingRow F → Bool
  same_alert a b = same_finding a.machine_id a.recorded_at a.rule_id b

  -- The alerts that a claim returned have one of this key.
  abbrev pub returns : FindingRow F → List (ClaimedAlert F) → Bool
  returns x claimed = any (λ (c : ClaimedAlert F). same_alert x c.alert) claimed

  same_alert-key :
      (x : FindingRow F) (a b : OutboxRow F)
      → same_alert x a.finding ≡ true
      → same_alert x b.finding ≡ true
      → (a.finding.machine_id ≡ b.finding.machine_id)
        × (a.finding.recorded_at ≡ b.finding.recorded_at)
        × (a.finding.rule_id ≡ b.finding.rule_id)
  same_alert-key x a b p q = ground (
    arith,
    eq_iff x.machine_id a.finding.machine_id,
    eq_iff a.finding.machine_id x.machine_id,
    eq_iff b.finding.machine_id x.machine_id,
    eq_iff a.finding.rule_id x.rule_id,
    eq_iff b.finding.rule_id x.rule_id,
  )

  is_chosen-same_key :
      (chosen : List (OutboxRow F)) (x : FindingRow F) (a b : OutboxRow F)
      → same_alert x a.finding ≡ true
      → same_alert x b.finding ≡ true
      → is_chosen chosen a ≡ true
      → is_chosen chosen b ≡ true
  unfolding is_chosen
  is_chosen-same_key [] x a b p q h = h
  is_chosen-same_key (c ∷ chosen) x a b p q h =
      ground (arith, same_alert-key x a b p q, is_chosen-same_key chosen x a b p q)

  -- A returned key is that of a chosen row.
  chosen_of_returns :
      (token : ℕ) (chosen : List (OutboxRow F)) (x : FindingRow F) (rows : List (OutboxRow F))
      → returns x (claimed_alerts token chosen rows) ≡ true
      → (row : OutboxRow F) × (same_alert x row.finding ≡ true) × (is_chosen chosen row ≡ true)
  unfolding claimed_alerts claimed_alert
  chosen_of_returns token chosen x [] h = cc
  chosen_of_returns token chosen x (row ∷ rows) h = elim (Bool-cases (is_chosen chosen row)) [
    | inl e ↦ elim (Bool-cases (same_alert x row.finding)) [
      | inl s ↦ (row, s, e)
      | inr s ↦ chosen_of_returns token chosen x rows (ground (arith, h, e, s))
    ]
    | inr e ↦ chosen_of_returns token chosen x rows (ground (arith, h, e))
  ]

  any-key :
      (now : ℕ) (x : FindingRow F) (row : OutboxRow F) (rows : List (OutboxRow F))
      → same_alert x row.finding ≡ true
      → any (λ y. is_key_of y.finding row && is_pending now y) rows ≡ true
      → any (λ y. is_key_of x y && is_pending now y) rows ≡ true
  any-key now x row [] s h = h
  any-key now x row (y ∷ rows) s h = ground (
    arith,
    any-key now x row rows,
    eq_iff row.finding.machine_id x.machine_id,
    eq_iff row.finding.machine_id y.finding.machine_id,
    eq_iff y.finding.machine_id x.machine_id,
    eq_iff row.finding.rule_id x.rule_id,
    eq_iff row.finding.rule_id y.finding.rule_id,
    eq_iff y.finding.rule_id x.rule_id,
  )

  pending_of_returns :
      (now token limit lease : ℕ) (x : FindingRow F) (rows : List (OutboxRow F))
      → returns x (claim now token limit lease rows).0 ≡ true
      → any (λ row. is_key_of x row && is_pending now row) rows ≡ true
  unfolding claim
  pending_of_returns now token limit lease x rows h =
      let chosen = take limit (pending_rows now rows) in
      let (row, s, e) = chosen_of_returns token chosen x rows h in
      any-key now x row rows s (pending_of_chosen now limit rows row e)

  -- The row of an alert that may be sent now.
  pub record IsDue (now : ℕ) (x : FindingRow F) (row : OutboxRow F) : Type 0 where
    pub machine_id : row.finding.machine_id ≡ x.machine_id
    pub recorded_at : row.finding.recorded_at ≡ x.recorded_at
    pub rule_id : row.finding.rule_id ≡ x.rule_id
    pub undelivered : row.delivered_at ≡ none
    pub available : row.available_at ≤ now
    pub unleased :
        (row.lease_expires_at ≡ none) ⊎ ((t : ℕ) × (row.lease_expires_at ≡ some t) × (t ≤ now))

  IsDue-of_tests :
      (now : ℕ) (x : FindingRow F) (row : OutboxRow F)
      → (is_key_of x row && is_pending now row) ≡ true
      → IsDue now x row
  unfolding is_pending
  IsDue-of_tests now x row h = record {
    machine_id = ground (arith, eq_iff row.finding.machine_id x.machine_id);
    recorded_at = ground arith;
    rule_id = ground (arith, eq_iff row.finding.rule_id x.rule_id);
    undelivered = ground arith;
    available = ground arith;
    unleased = lease_ended now row.lease_expires_at (ground arith);
  }

  -- A claim returns an alert only if the outbox has a row with its machine, its instant and its
  -- rule that was never delivered, is available by now, and has no lease or one that has expired.
  pub returns-IsDue :
      (now token limit lease : ℕ) (x : FindingRow F) (rows : List (OutboxRow F))
      → returns x (claim now token limit lease rows).0 ≡ true
      → Any (IsDue now x) rows
  returns-IsDue now token limit lease x rows h =
      Any-of_any (λ row. is_key_of x row && is_pending now row) (IsDue-of_tests now x) rows
        (pending_of_returns now token limit lease x rows h)

  count-superseded :
      (now token lease : ℕ) (chosen : List (OutboxRow F)) (claimed : ClaimedAlert F)
      (witness : OutboxRow F) (rows : List (OutboxRow F))
      → same_alert claimed.alert witness.finding ≡ true
      → is_chosen chosen witness ≡ true
      → claimed.lease_token ≢ token
      → count_where
          (holds_lease claimed)
          (update_where (is_chosen chosen) (leased token now lease) rows)
        ≡ 0
  unfolding count_where update_where leased holds_lease
  count-superseded now token lease chosen claimed witness [] s e n = refl
  count-superseded now token lease chosen claimed witness (row ∷ rows) s e n =
      elim (Bool-cases (same_alert claimed.alert row.finding)) [
        | inl same ↦ rw (is_chosen-same_key chosen claimed.alert witness row s same e) (
            ground
              (arith, n, same, count-superseded now token lease chosen claimed witness rows s e n))
        | inr other ↦ elim (Bool-cases (is_chosen chosen row)) [
          | inl c ↦ rw c (
              ground
                (arith, other, count-superseded now token lease chosen claimed witness rows s e n))
          | inr c ↦ rw c (
              ground
                (arith, other, count-superseded now token lease chosen claimed witness rows s e n))
        ]
      ]

  -- Once another claim, with another token, has returned an alert, the older holder can neither
  -- mark it delivered nor reschedule it: both raise that the lease is lost and change nothing.
  pub lease_superseded :
      (now later token limit lease delay : ℕ) (error : String) (claimed : ClaimedAlert F)
      (rows : List (OutboxRow F))
      → returns claimed.alert (claim now token limit lease rows).0 ≡ true
      → claimed.lease_token ≢ token
      → let after = (claim now token limit lease rows).1 in
        (mark_delivered later claimed after ≡ (err LeaseLost.lease_lost, after))
        × (reschedule later claimed delay error after ≡ (err LeaseLost.lease_lost, after))
  unfolding claim mark_delivered reschedule update_leased
  lease_superseded now later token limit lease delay error claimed rows h n =
      let chosen = take limit (pending_rows now rows) in
      let (witness, s, e) = chosen_of_returns token chosen claimed.alert rows h in
      let none_left = count-superseded now token lease chosen claimed witness rows s e n in
      (rw none_left, rw none_left)
