-- ===== src/Tests/Storage.antt =====
-- The repository and the outbox at a reading that is too hot.
use smart_factory_monitor.Common.{
  ◌⊎◌, All, Any, ◌≤◌, ℕ, true, false, ◌≡◌, refl, List, [], ◌∷◌, none, some, ok, err, arith, count,
}
use smart_factory_monitor.Telemetry.Reading.{validate_reading, severity_value}
use smart_factory_monitor.Domain.{is_machine_id, is_aware}
use smart_factory_monitor.Telemetry.Detection.{evaluate}
use smart_factory_monitor.Storage.{insert_unless, OutboxRow, FindingRow}
use smart_factory_monitor.Storage.Repository.{
  select_readings, reading_row, RepositoryConfig, Repository, StorageError, Fault, save,
  save_in_transaction, in_transaction, end_transaction, fails_at, finding_row, insert_alerts,
}
use smart_factory_monitor.Storage.Repository.Saving.{save_again}
use smart_factory_monitor.Storage.Repository.Faults.{
  IsSaved, IsUnanswered, save-IsSaved, save_failed,
}
use smart_factory_monitor.Storage.History.{load_readings_since, load_readings, readings_from_rows}
use smart_factory_monitor.Storage.History.Window.{
  IsWithin, latest_first, load_readings_since-IsWithin,
}
use smart_factory_monitor.Storage.Outbox.{
  ClaimedAlert, LeaseLost, claim, mark_delivered, reschedule, is_pending,
}
use smart_factory_monitor.Storage.Outbox.Evolution.{Step, Reach, AllEvolve, AllEvolve-Reach}
use smart_factory_monitor.Storage.Outbox.Keys.{keys_unique}
use smart_factory_monitor.Storage.Outbox.Leases.{IsDue, returns, returns-IsDue, lease_superseded}
use smart_factory_monitor.Tests.Telemetry.{whole, hot, found}

abbrev pub config : RepositoryConfig
config = record { uuid5_url = λ s. count s; isoformat = λ _. "t"; alert_severities = "high" ∷ [] }

abbrev pub empty : Repository ℕ
empty = record { database = record { readings = []; findings = []; outbox = [] }; available = none }

abbrev saved : Repository ℕ
saved = (save whole config 5 Fault.no_fault hot found empty).1

hot-valid : validate_reading whole hot ≡ ok hot
unfolding validate_reading is_machine_id is_aware
hot-valid = refl

saved-ok : save whole config 5 Fault.no_fault hot found empty ≡ (ok true, saved)
unfolding save save_in_transaction in_transaction end_transaction fails_at insert_unless evaluate
saved-ok = refl

save-IsSaved_example :
    IsSaved whole config 5 hot found empty.database saved.database × (saved.available ≡ some true)
save-IsSaved_example =
    save-IsSaved whole config (λ x h. ground arith) 5 Fault.no_fault hot found empty saved true
      hot-valid saved-ok

save_again_example :
    save whole config 9 Fault.no_fault hot found saved
    ≡ (ok false, record saved { available = some true })
save_again_example = save_again whole config 9 hot found saved (save-IsSaved_example.0.stored)

-- The answer to the COMMIT is lost.
abbrev unanswered : Repository ℕ
unanswered = (save whole config 9 Fault.answering hot found empty).1

unanswered-err :
    save whole config 9 Fault.answering hot found empty
    ≡ (err StorageError.database_error, unanswered)
unfolding save save_in_transaction insert_unless in_transaction end_transaction fails_at evaluate
unanswered-err = refl

save_failed_example :
    (unanswered.database ≡ empty.database)
    ⊎ IsUnanswered whole config 9 Fault.answering hot found StorageError.database_error empty
        unanswered
save_failed_example =
    save_failed whole config (λ x h. ground arith) 9 Fault.answering hot found empty unanswered
      StorageError.database_error hot-valid unanswered-err

-- The outbox after the save, a claim of it, and a claim after that lease has expired.
abbrev rows : List (OutboxRow ℕ)
rows = saved.database.outbox

abbrev first_claim : List (ClaimedAlert ℕ) × List (OutboxRow ℕ)
first_claim = claim 10 71 5 100 rows

abbrev alert : FindingRow ℕ
alert = record {
  machine_id = "press-01";
  recorded_at = 1000;
  rule_id = "temperature-high";
  severity = "high";
  metric = "temperature_c";
  observed_value = 90;
  threshold = 80;
  comparison = ">";
  message = "temperature_c=x exceeds maximum x";
}

abbrev first_holder : ClaimedAlert ℕ
first_holder = record { alert = alert; event_id = 44; lease_token = 71; attempt_number = 1 }

rows-Reach : Reach rows (mark_delivered 20 first_holder first_claim.1).1
rows-Reach =
    Reach.next (Reach.next Reach.here (Step.claims 10 71 5 100 rows))
      (Step.marks 20 first_holder first_claim.1)

rows-keys_unique : keys_unique rows ≡ true
unfolding keys_unique save save_in_transaction in_transaction end_transaction fails_at insert_alerts
    insert_unless evaluate severity_value finding_row
rows-keys_unique = refl

AllEvolve-Reach_example : AllEvolve rows (mark_delivered 20 first_holder first_claim.1).1
AllEvolve-Reach_example = AllEvolve-Reach rows-keys_unique rows-Reach

rows-returns : returns alert first_claim.0 ≡ true
unfolding claim is_pending save save_in_transaction in_transaction end_transaction fails_at
    insert_alerts insert_unless evaluate severity_value finding_row
rows-returns = refl

later-returns : returns alert (claim 500 72 5 100 first_claim.1).0 ≡ true
unfolding claim is_pending save save_in_transaction in_transaction end_transaction fails_at
    insert_alerts insert_unless evaluate severity_value finding_row
later-returns = refl

returns-IsDue_example : Any (IsDue 10 alert) rows
returns-IsDue_example = returns-IsDue 10 71 5 100 alert rows rows-returns

lease_superseded_example :
    let after = (claim 500 72 5 100 first_claim.1).1 in
    (mark_delivered 510 first_holder after ≡ (err LeaseLost.lease_lost, after))
    × (reschedule 510 first_holder 30 "WebhookError" after ≡ (err LeaseLost.lease_lost, after))
lease_superseded_example =
    lease_superseded 500 510 72 5 100 30 "WebhookError" first_holder first_claim.1 later-returns
      (λ h. ground (arith, h))

loaded-ok : load_readings_since whole 500 false "press-01" 3 saved ≡ (ok (hot ∷ []), saved)
unfolding load_readings_since load_readings select_readings readings_from_rows validate_reading
    is_machine_id is_aware save save_in_transaction in_transaction end_transaction fails_at
    reading_row insert_unless evaluate
loaded-ok = refl

load_readings_since-IsWithin_example :
    All (IsWithin whole "press-01" 500) (hot ∷ []) × (latest_first (hot ∷ []) ≡ true) × (1 ≤ 3)
load_readings_since-IsWithin_example =
    load_readings_since-IsWithin whole 500 false "press-01" 3 saved saved (hot ∷ []) loaded-ok
