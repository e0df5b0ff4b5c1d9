-- ===== src/Alerts.antt =====
-- src/smart_factory/application/services/alert_dispatch.py: one batch of the outbox is sent, and
-- each alert is marked delivered or scheduled again. Durations are in microseconds, so the delay of
-- a retry is a natural number. Log lines are left out.
pub mod Delivery
pub mod Retry
use smart_factory_monitor.Common.{
  ℕ, ◌+◌, ◌*◌, ◌-◌, ◌^◌, String, List, [], ◌∷◌, leb, Result, ok, err, if◌then◌else◌,
}
use smart_factory_monitor.Common.Exec.{Exec, pure, ◌>>=◌}
use smart_factory_monitor.Storage.{FindingRow}
use smart_factory_monitor.Storage.Outbox.{ClaimedAlert}

-- `AlertLeaseLostError`, or any other exception of the outbox.
pub data OutboxError : Type 0 where
  lease_lost outbox_failed : OutboxError

-- The ports `AlertOutbox` and `AlertSink`, each on a state of its own. A failed `send` gives the
-- name of its exception's type.
pub record DispatchPorts (F O S : Type 0) : Type 0 where
  pub claim : ℕ → ℕ → Exec O OutboxError (List (ClaimedAlert F))
  pub mark_delivered : ClaimedAlert F → Exec O OutboxError (Unit {0})
  pub reschedule : ClaimedAlert F → ℕ → String → Exec O OutboxError (Unit {0})
  pub send : FindingRow F → Exec S String (Unit {0})

pub record DispatchConfig : Type 0 where
  pub batch_size : ℕ
  pub lease : ℕ
  pub retry_base : ℕ
  pub retry_max : ℕ

pub record Dispatch (O S : Type 0) : Type 0 where
  pub outbox : O
  pub sink : S

abbrev pub min : ℕ → ℕ → ℕ
min a b = if leb a b then a else b

-- The delay after a failed attempt; attempts are counted from one.
unfoldable pub retry_delay : DispatchConfig → ℕ → ℕ
retry_delay config attempt_number =
    min (config.retry_base * 2 ^ min (attempt_number - 1) 30) config.retry_max

module _ {F O S : Type 0} (ports : DispatchPorts F O S) (config : DispatchConfig) where
  -- What the body of the loop adds to `delivered` after the outbox has answered: a lost lease is
  -- logged and counts nothing, any other exception leaves `dispatch_once`.
  counted : ℕ → Result OutboxError (Unit {0}) → Result OutboxError ℕ
  counted n (ok _) = ok n
  counted n (err OutboxError.lease_lost) = ok 0
  counted n (err OutboxError.outbox_failed) = err OutboxError.outbox_failed

  settle : ClaimedAlert F → Result String (Unit {0}) → Exec O OutboxError ℕ
  unfolding counted retry_delay
  settle claimed (ok _) o = let (r, o') = ports.mark_delivered claimed o in (counted 1 r, o')
  settle claimed (err error_name) o =
      let (r, o') =
        ports.reschedule claimed (retry_delay config claimed.attempt_number) error_name o in
      (counted 0 r, o')

  -- One iteration.
  dispatch_alert : ClaimedAlert F → Exec (Dispatch O S) OutboxError ℕ
  unfolding settle
  dispatch_alert claimed s =
      let (sent, sink) = ports.send claimed.alert s.sink in
      let (r, outbox) = settle claimed sent s.outbox in (r, record { outbox = outbox; sink = sink })

  -- The loop over the claimed alerts.
  unfoldable pub dispatch_all : List (ClaimedAlert F) → Exec (Dispatch O S) OutboxError ℕ
  unfolding dispatch_alert
  dispatch_all [] = pure 0
  dispatch_all (claimed ∷ rest) =
      dispatch_alert claimed >>= λ n. dispatch_all rest >>= λ m. pure (n + m)

  dispatch_claimed : Result OutboxError (List (ClaimedAlert F)) → Exec (Dispatch O S) OutboxError ℕ
  unfolding dispatch_all
  dispatch_claimed (ok claimed) s = dispatch_all claimed s
  dispatch_claimed (err e) s = (err e, s)

  unfoldable pub dispatch_once : Exec (Dispatch O S) OutboxError ℕ
  unfolding dispatch_claimed
  dispatch_once s =
      let (claimed, outbox) = ports.claim config.batch_size config.lease s.outbox in
      dispatch_claimed claimed (record s { outbox = outbox })
