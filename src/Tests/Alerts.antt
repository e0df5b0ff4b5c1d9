-- ===== src/Tests/Alerts.antt =====
-- A batch of two alerts with a sink that takes the first and refuses the second.
use smart_factory_monitor.Common.{
  ℕ, ◌+◌, ◌≤◌, String, ◌≡◌, refl, List, [], ◌∷◌, take, length, ok, err, arith, Result,
}
use Prim.Native.Nat.{compare, Ordering}
use smart_factory_monitor.Storage.{FindingRow}
use smart_factory_monitor.Storage.Outbox.{ClaimedAlert}
use smart_factory_monitor.Alerts.{
  DispatchPorts, DispatchConfig, Dispatch, OutboxError, dispatch_all, retry_delay, min,
}
use smart_factory_monitor.Alerts.Delivery.{send_all, dispatch_all-send_all, dispatch_all_failed}
use smart_factory_monitor.Alerts.Retry.{retry_delay-bounds}

abbrev config : DispatchConfig
config = record { batch_size = 10; lease = 30; retry_base = 5; retry_max = 60 }

retry_delay-bounds_example :
    (retry_delay config 2 ≤ retry_delay config 4)
    × (retry_delay config 4 ≤ config.retry_max)
    × (retry_delay config 1 ≡ min config.retry_base config.retry_max)
retry_delay-bounds_example = retry_delay-bounds config 2 4 (omega arith)

abbrev alert : String → FindingRow ℕ
alert rule = record {
  machine_id = "press-01";
  recorded_at = 1000;
  rule_id = rule;
  severity = "high";
  metric = "power_kw";
  observed_value = 9;
  threshold = 8;
  comparison = ">";
  message = "";
}

abbrev batch : List (ClaimedAlert ℕ)
batch =
    record { alert = alert "power-high"; event_id = 1; lease_token = 3; attempt_number = 1 }
    ∷ record { alert = alert "vibration-high"; event_id = 2; lease_token = 3; attempt_number = 2 }
    ∷ []

-- The sink takes its first alert only; the outbox counts its calls, and fails from a limit on.
abbrev answer : ℕ → ℕ → Result OutboxError (Unit {0})
answer limit n = elim (compare n limit) [ Ordering.lt ↦ ok tt | _ ↦ err OutboxError.outbox_failed ]

abbrev sent : List String → Result String (Unit {0})
sent [] = ok tt
sent (rule ∷ rules) = err "WebhookError"

abbrev ports : ℕ → DispatchPorts ℕ ℕ (List String)
ports limit = record {
  claim = λ n lease calls. (ok batch, calls);
  mark_delivered = λ claimed calls. (answer limit calls, calls + 1);
  reschedule = λ claimed delay error calls. (answer limit calls, calls + 1);
  send = λ finding rules. (sent rules, finding.rule_id ∷ rules);
}

abbrev start : Dispatch ℕ (List String)
start = record { outbox = 0; sink = [] }

abbrev done : ℕ → Dispatch ℕ (List String)
done limit = (dispatch_all (ports limit) config batch start).1

dispatch_all-send_all_example : ((done 2).sink ≡ send_all (ports 2) batch []) × (1 ≤ length batch)
dispatch_all-send_all_example =
    dispatch_all-send_all (ports 2) config batch start (done 2) 1
      (unfold dispatch_all retry_delay in refl)

dispatch_all_failed_example :
    (OutboxError.outbox_failed ≡ OutboxError.outbox_failed)
    × (k : ℕ) × (k ≤ length batch)
    × ((done 1).sink ≡ send_all (ports 1) (take k batch) [])
dispatch_all_failed_example =
    dispatch_all_failed (ports 1) config batch start (done 1) OutboxError.outbox_failed
      (unfold dispatch_all retry_delay in refl)
