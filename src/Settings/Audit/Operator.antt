-- ===== src/Settings/Audit/Operator.antt =====
-- `OperatorAuditSettings` of src/smart_factory/config.py, and the context that it gives to
-- src/smart_factory/domain/operator_audit.py.
use smart_factory_monitor.Common.{String, count, ◌≡◌, ◌≤◌, true, strip, eq_iff, ok, arith}
use smart_factory_monitor.Common.Ensures.{Ensures, Ensures-bind, Ensures-guard, Ensures-ok}
use smart_factory_monitor.Common.Texts.Stripping.{strip-strip}
use smart_factory_monitor.Audit.Event.{OperatorAuditContext, validate_context}
use smart_factory_monitor.Settings.{Host, stripped_text, getenv_or}
use smart_factory_monitor.Settings.Audit.{
  OperatorAuditSettings, is_set, operator_context, parsed_uuid, operator_from_env,
}

module _ {F : Type 0} (h : Host F) where
  strip-stripped_text : (name : String) → strip (stripped_text h name) ≡ stripped_text h name
  unfolding stripped_text
  strip-stripped_text name = strip-strip (getenv_or h name "")

  -- Neither text is empty, and neither has surrounding white space.
  pub record IsExplicit (s : OperatorAuditSettings) : Type 0 where
    pub actor_set : is_set s.actor ≡ true
    pub actor_stripped : strip s.actor ≡ s.actor
    pub reason_set : is_set s.reason ≡ true
    pub reason_stripped : strip s.reason ≡ s.reason

  operator_from_env-IsExplicit : Ensures IsExplicit (operator_from_env h)
  unfolding operator_from_env
  operator_from_env-IsExplicit =
      let actor = stripped_text h "AUDIT_ACTOR" in
      let reason = stripped_text h "AUDIT_REASON" in
      Ensures-guard (is_set actor) _ _ λ a. Ensures-guard (is_set reason) _ _ λ r.
        Ensures-guard (is_set (stripped_text h "AUDIT_CORRELATION_ID")) _ _ λ c.
          Ensures-bind (parsed_uuid (h.uuid (stripped_text h "AUDIT_CORRELATION_ID"))) _
            (record { holds = λ n e. tt })
            λ n _. Ensures-ok _ record {
              actor_set = a;
              actor_stripped = strip-stripped_text "AUDIT_ACTOR";
              reason_set = r;
              reason_stripped = strip-stripped_text "AUDIT_REASON";
            }

validate_context-eq :
    (c : OperatorAuditContext)
    → is_set c.actor ≡ true
    → strip c.actor ≡ c.actor
    → is_set c.reason ≡ true
    → strip c.reason ≡ c.reason
    → count c.actor ≤ 255
    → count c.reason ≤ 2000
    → validate_context c ≡ ok c
unfolding validate_context is_set
validate_context-eq c a sa r sr la lr =
    ground (arith, eq_iff c.actor (strip c.actor), eq_iff c.reason (strip c.reason))

module _ {F : Type 0} (h : Host F) where
  -- The context of operator settings that were read from the environment is valid, unless a text is
  -- longer than an audit event admits: both texts are set and have no surrounding white space.
  pub operator_context_valid :
      (s : OperatorAuditSettings)
      → operator_from_env h ≡ ok s
      → count s.actor ≤ 255
      → count s.reason ≤ 2000
      → validate_context (operator_context s) ≡ ok (operator_context s)
  unfolding operator_context
  operator_context_valid s e la lr =
      let x = (operator_from_env-IsExplicit h).holds s e in
      validate_context-eq (operator_context s) x.actor_set x.actor_stripped x.reason_set
        x.reason_stripped la lr
