-- ===== src/Operations/Logging.antt =====
-- An audit trail that keeps every event it is given, and what `record_event` does on it.
use smart_factory_monitor.Common.{ℕ, ◌+◌, String, ◌≡◌, true, Option, List, [], ◌∷◌, ◌++◌, ok}
use smart_factory_monitor.Domain.{Datetime, is_aware}
use smart_factory_monitor.Audit.Event.{
  AuditState, OperatorAction, OperatorActionOutcome, OperatorAuditContext, OperatorAuditEvent,
  create, validate_event, keys_unique, length_within, optional_length_within, error_type_matches,
}
use smart_factory_monitor.Operations.{World, Trail, record_event}

abbrev pub log_trail : (ℕ → ℕ × Datetime) → (ℕ → String) → Trail (List OperatorAuditEvent)
log_trail draw uuid_text = record {
  append = λ event log. (ok tt, log ++ (event ∷ []));
  draw = draw;
  uuid_text = uuid_text;
}

-- An `OperatorAuditContext` within its limits, and times with an offset.
pub record IsAuditable (context : OperatorAuditContext) (draw : ℕ → ℕ × Datetime) : Type 0 where
  pub actor : length_within 255 context.actor ≡ true
  pub reason : length_within 2000 context.reason ≡ true
  pub aware : (n : ℕ) → is_aware (draw n).1 ≡ true

-- The event that the `n`-th draw gives.
abbrev pub event_of :
    OperatorAuditContext
    → (ℕ → ℕ × Datetime)
    → OperatorAction
    → OperatorActionOutcome
    → AuditState
    → AuditState
    → Option String
    → ℕ
    → OperatorAuditEvent
event_of context draw action outcome previous_state resulting_state error_type n = record {
  event_id = (draw n).0;
  occurred_at = (draw n).1;
  actor = context.actor;
  reason = context.reason;
  correlation_id = context.correlation_id;
  action = action;
  outcome = outcome;
  previous_state = previous_state;
  resulting_state = resulting_state;
  error_type = error_type;
}

module _ {R : Type 0} (context : OperatorAuditContext) (draw : ℕ → ℕ × Datetime)
    (uuid_text : ℕ → String) where
  pub record_event_logs :
      (action : OperatorAction) (outcome : OperatorActionOutcome)
      (previous_state resulting_state : AuditState) (error_type : Option String)
      (w : World R (List OperatorAuditEvent))
      → IsAuditable context draw
      → keys_unique previous_state ≡ true
      → keys_unique resulting_state ≡ true
      → optional_length_within 255 error_type ≡ true
      → error_type_matches outcome error_type ≡ ok tt
      → record_event
          (log_trail draw uuid_text)
          context
          action
          outcome
          previous_state
          resulting_state
          error_type
          w
        ≡ (
          ok tt,
          record w {
            trail =
                w.trail
                ++ (event_of context draw action outcome previous_state resulting_state error_type
                      w.drawn
                    ∷ []);
            drawn = w.drawn + 1;
          },
        )
  unfolding record_event create validate_event
  record_event_logs action outcome previous_state resulting_state error_type w a p r l m =
      rw (a.aware w.drawn) (rw (a.actor) (rw (a.reason) (rw (p, r, l, m))))
