-- ===== src/Storage/Outbox.antt =====
-- src/smart_factory/infrastructure/database/alert_outbox.py: the three statements on the outbox.
-- Each is one transaction at an instant `now`; rows that a concurrent claim holds locked are
-- skipped, so claims are steps one after another. Durations are in microseconds.
pub mod Keys
pub mod Evolution
pub mod Leases
use smart_factory_monitor.Common.{
  ℕ, ◌+◌, String, Bool, true, false, not, ◌&&◌, ◌||◌, Option, none, some, List, [], ◌∷◌, map, any,
  length, take, leb, ltb, ◌==◌, str_eq, Result, ok, err, if◌then◌else◌,
}
use smart_factory_monitor.Storage.{FindingRow, OutboxRow, same_finding}

-- `AlertLeaseLostError`
pub data LeaseLost : Type 0 where
  lease_lost : LeaseLost

-- `ClaimedAlert`: the alert is the finding with its event id.
pub record ClaimedAlert (F : Type 0) : Type 0 where
  pub alert : FindingRow F
  pub event_id : ℕ
  pub lease_token : ℕ
  pub attempt_number : ℕ

abbrev pub expired_at : ℕ → Option ℕ → Bool
expired_at now none = true
expired_at now (some t) = leb t now

abbrev is_null {ℓ} : {A : Type ℓ} → Option A → Bool
is_null none = true
is_null (some a) = false

abbrev is_token : ℕ → Option ℕ → Bool
is_token token none = false
is_token token (some t) = t == token

module _ {F : Type 0} where
  abbrev pub is_key_of : FindingRow F → OutboxRow F → Bool
  is_key_of x row = same_finding x.machine_id x.recorded_at x.rule_id row.finding

  -- The WHERE clause of the claim.
  unfoldable pub is_pending : ℕ → OutboxRow F → Bool
  is_pending now row =
      is_null row.delivered_at && leb row.available_at now && expired_at now row.lease_expires_at

  -- ORDER BY available_at, created_at
  unfoldable pub precedes : OutboxRow F → OutboxRow F → Bool
  precedes a b =
      ltb a.available_at b.available_at
      || (a.available_at == b.available_at && leb a.created_at b.created_at)

  unfoldable pub insert_ordered : OutboxRow F → List (OutboxRow F) → List (OutboxRow F)
  insert_ordered row [] = row ∷ []
  insert_ordered row (other ∷ rest) =
      if precedes row other then row ∷ other ∷ rest else other ∷ insert_ordered row rest

  -- The pending rows in order.
  unfoldable pub pending_rows : ℕ → List (OutboxRow F) → List (OutboxRow F)
  unfolding insert_ordered precedes
  pending_rows now [] = []
  pending_rows now (row ∷ rows) =
      let rest = pending_rows now rows in
      if is_pending now row then insert_ordered row rest else rest

  -- What the claim sets in a row.
  unfoldable pub leased : ℕ → ℕ → ℕ → OutboxRow F → OutboxRow F
  leased token now lease row = record row {
    lease_token = some token;
    lease_expires_at = some (now + lease);
    attempt_count = row.attempt_count + 1;
  }

  unfoldable pub is_chosen : List (OutboxRow F) → OutboxRow F → Bool
  is_chosen chosen row = any (λ (x : OutboxRow F). is_key_of x.finding row) chosen

  -- `UPDATE ... SET ... WHERE ...`: the rows.
  unfoldable pub update_where :
      (OutboxRow F → Bool) → (OutboxRow F → OutboxRow F) → List (OutboxRow F) → List (OutboxRow F)
  update_where test change [] = []
  update_where test change (row ∷ rows) =
      (if test row then change row else row) ∷ update_where test change rows

  unfoldable pub claimed_alert : ℕ → OutboxRow F → ClaimedAlert F
  claimed_alert token row = record {
    alert = row.finding;
    event_id = row.event_id;
    lease_token = token;
    attempt_number = row.attempt_count + 1;
  }

  -- RETURNING
  unfoldable pub claimed_alerts :
      ℕ → List (OutboxRow F) → List (OutboxRow F) → List (ClaimedAlert F)
  unfolding claimed_alert is_chosen
  claimed_alerts token chosen [] = []
  claimed_alerts token chosen (row ∷ rows) =
      let rest = claimed_alerts token chosen rows in
      if is_chosen chosen row then claimed_alert token row ∷ rest else rest

  -- `claim`, with the fresh token.
  unfoldable pub claim :
      ℕ → ℕ → ℕ → ℕ → List (OutboxRow F) → List (ClaimedAlert F) × List (OutboxRow F)
  unfolding pending_rows update_where leased claimed_alerts
  claim now token limit lease rows =
      let chosen = take limit (pending_rows now rows) in
      (
        claimed_alerts token chosen rows,
        update_where (is_chosen chosen) (leased token now lease) rows,
      )

  -- The WHERE clause of both updates of a claimed alert.
  unfoldable pub holds_lease : ClaimedAlert F → OutboxRow F → Bool
  holds_lease claimed row =
      is_key_of claimed.alert row
      && is_token claimed.lease_token row.lease_token
      && is_null row.delivered_at

  -- The row count of the update.
  unfoldable pub count_where : (OutboxRow F → Bool) → List (OutboxRow F) → ℕ
  count_where test [] = 0
  count_where test (row ∷ rows) = (if test row then 1 else 0) + count_where test rows

  -- `if cursor.rowcount != 1: raise` inside the transaction, which is then rolled back.
  unfoldable pub update_leased :
      ClaimedAlert F
      → (OutboxRow F → OutboxRow F)
      → List (OutboxRow F)
      → Result LeaseLost (Unit {0}) × List (OutboxRow F)
  unfolding update_where count_where holds_lease
  update_leased claimed change rows =
      if count_where (holds_lease claimed) rows == 1
      then (ok tt, update_where (holds_lease claimed) change rows)
      else (err LeaseLost.lease_lost, rows)

  unfoldable pub delivered : ℕ → OutboxRow F → OutboxRow F
  delivered now row = record row {
    lease_token = none;
    lease_expires_at = none;
    delivered_at = some now;
    last_error = none;
  }

  unfoldable pub mark_delivered :
      ℕ → ClaimedAlert F → List (OutboxRow F) → Result LeaseLost (Unit {0}) × List (OutboxRow F)
  unfolding update_leased delivered
  mark_delivered now claimed rows = update_leased claimed (delivered now) rows

  unfoldable pub rescheduled : ℕ → ℕ → String → OutboxRow F → OutboxRow F
  rescheduled now delay error row = record row {
    available_at = now + delay;
    lease_token = none;
    lease_expires_at = none;
    last_error = some error;
  }

  -- `reschedule`, with `error[:128]` as the text.
  unfoldable pub reschedule :
      ℕ
      → ClaimedAlert F
      → ℕ
      → String
      → List (OutboxRow F)
      → Result LeaseLost (Unit {0}) × List (OutboxRow F)
  unfolding update_leased rescheduled
  reschedule now claimed delay error rows = update_leased claimed (rescheduled now delay error) rows
