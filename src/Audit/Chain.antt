-- ===== src/Audit/Chain.antt =====
-- src/smart_factory/infrastructure/database/operator_audit.py: the hash-chained audit trail.
-- The table is the list of its rows in the order of their sequence numbers, which is the order of
-- both SELECT statements: `append` puts its row at the place that its number gives it. The advisory
-- lock makes one `append` one step.
pub mod Sorting
pub mod Links
pub mod Growth
pub mod Tampering
use smart_factory_monitor.Common.{
  ℕ, String, ◌<>◌, Bool, true, false, not, ◌||◌, Option, none, some, List, [], ◌∷◌, ◌++◌, length,
  ltb, str_eq, text_leb, Result, ok, ◌>>=◌, if◌then◌else◌,
}
use smart_factory_monitor.Domain.{utc}
use smart_factory_monitor.Audit.Event.{
  AuditValue, AuditState, OperatorAuditEvent, ValidationError, validate_event, action_value,
  outcome_value, parse_action, parse_outcome,
}

pub data DocumentValue : Type 0 where
  text : String → DocumentValue
  null : DocumentValue
  object : AuditState → DocumentValue

abbrev pub Document : Type 0
Document = List (String × DocumentValue)

-- What the chain calls and does not implement: `json.dumps` of a document whose keys are sorted,
-- SHA-256 as a hex digest, `isoformat` of an instant in UTC, `str` of a UUID, and what a `jsonb`
-- column gives back of a state: it orders the items anew and rewrites some numbers (1e16, -0.0).
pub record Encoding : Type 0 where
  pub dumps : Document → String
  pub sha256_hexdigest : String → String
  pub isoformat_utc : ℕ → String
  pub uuid_text : ℕ → String
  pub jsonb : AuditState → AuditState

insert_item : String × AuditValue → AuditState → AuditState
insert_item item [] = item ∷ []
insert_item item (other ∷ rest) =
    if text_leb item.0 other.0 then item ∷ other ∷ rest else other ∷ insert_item item rest

-- `sorted(document.items())`: the keys of a document differ, so the keys decide the order.
unfoldable pub sorted_items : AuditState → AuditState
unfolding insert_item
sorted_items [] = []
sorted_items (item ∷ rest) = insert_item item (sorted_items rest)

abbrev optional_text : Option String → DocumentValue
optional_text none = DocumentValue.null
optional_text (some s) = DocumentValue.text s

module _ (c : Encoding) where
  -- The document in the order that `sort_keys=True` gives it, at both levels.
  unfoldable pub canonical_event_document : OperatorAuditEvent → Document
  canonical_event_document e =
      ("action", DocumentValue.text (action_value e.action))
      ∷ ("actor", DocumentValue.text e.actor)
      ∷ ("correlation_id", DocumentValue.text (c.uuid_text e.correlation_id))
      ∷ ("error_type", optional_text e.error_type)
      ∷ ("event_id", DocumentValue.text (c.uuid_text e.event_id))
      ∷ ("occurred_at", DocumentValue.text (c.isoformat_utc e.occurred_at.instant))
      ∷ ("outcome", DocumentValue.text (outcome_value e.outcome))
      ∷ ("previous_state", DocumentValue.object (sorted_items e.previous_state))
      ∷ ("reason", DocumentValue.text e.reason)
      ∷ ("resulting_state", DocumentValue.object (sorted_items e.resulting_state))
      ∷ []

  unfoldable pub event_hash : String → OperatorAuditEvent → String
  event_hash previous_hash e =
      c.sha256_hexdigest (previous_hash <> ("\n" <> c.dumps (canonical_event_document e)))

-- One row of `operator_audit_events`.
pub record AuditRow : Type 0 where
  pub sequence_number : ℕ
  pub event_id : ℕ
  pub occurred_at : ℕ
  pub actor : String
  pub reason : String
  pub correlation_id : ℕ
  pub action : String
  pub outcome : String
  pub previous_state : AuditState
  pub resulting_state : AuditState
  pub error_type : Option String
  pub previous_hash : String
  pub event_hash : String

abbrev pub genesis_hash : String
genesis_hash = "0000000000000000000000000000000000000000000000000000000000000000"

-- The hash that the last row stores, or the genesis hash: what `append` links to.
unfoldable pub audit_head : String → List AuditRow → String
audit_head start [] = start
audit_head start (row ∷ rows) = audit_head row.event_hash rows

-- `ORDER BY sequence_number`
unfoldable pub insert_by_sequence : AuditRow → List AuditRow → List AuditRow
insert_by_sequence row [] = row ∷ []
insert_by_sequence row (other ∷ rest) =
    let later = insert_by_sequence row rest in
    if ltb row.sequence_number other.sequence_number then row ∷ other ∷ rest else other ∷ later

module _ (c : Encoding) where
  unfoldable pub new_row : ℕ → String → OperatorAuditEvent → AuditRow
  new_row sequence_number previous_hash e = record {
    sequence_number = sequence_number;
    event_id = e.event_id;
    occurred_at = e.occurred_at.instant;
    actor = e.actor;
    reason = e.reason;
    correlation_id = e.correlation_id;
    action = action_value e.action;
    outcome = outcome_value e.outcome;
    previous_state = c.jsonb e.previous_state;
    resulting_state = c.jsonb e.resulting_state;
    error_type = e.error_type;
    previous_hash = previous_hash;
    event_hash = event_hash c previous_hash e;
  }

  -- `append`: the database gives the sequence number.
  unfoldable pub append : List AuditRow → ℕ → OperatorAuditEvent → List AuditRow
  unfolding new_row
  append rows sequence_number e =
      insert_by_sequence (new_row sequence_number (audit_head genesis_hash rows) e) rows

-- The event that `verify` builds from a row: the items of a state are sorted, and a `timestamptz`
-- comes back in UTC.
unfoldable pub event_from_row : AuditRow → Result ValidationError OperatorAuditEvent
event_from_row row = do
  action ← parse_action row.action
  outcome ← parse_outcome row.outcome
  validate_event (record {
    event_id = row.event_id;
    occurred_at = utc row.occurred_at;
    actor = row.actor;
    reason = row.reason;
    correlation_id = row.correlation_id;
    action = action;
    outcome = outcome;
    previous_state = sorted_items row.previous_state;
    resulting_state = sorted_items row.resulting_state;
    error_type = row.error_type;
  })

pub record AuditChainVerification : Type 0 where
  pub valid : Bool
  pub event_count : ℕ
  pub head_hash : String
  pub invalid_sequence_number : Option ℕ

module _ (c : Encoding) where
  -- The loop of `verify` over the rows that are left, with the hash so far.
  unfoldable pub verify_rows :
      ℕ → String → List AuditRow → Result ValidationError AuditChainVerification
  verify_rows total previous_hash [] = ok (record {
    valid = true;
    event_count = total;
    head_hash = previous_hash;
    invalid_sequence_number = none;
  })
  verify_rows total previous_hash (row ∷ rows) =
      let rest = verify_rows total row.event_hash rows in
      event_from_row row >>= λ e.
      if not (str_eq row.previous_hash previous_hash)
        || not (str_eq row.event_hash (event_hash c previous_hash e))
      then ok (record {
        valid = false;
        event_count = total;
        head_hash = previous_hash;
        invalid_sequence_number = some row.sequence_number;
      })
      else rest

  unfoldable pub verify : List AuditRow → Result ValidationError AuditChainVerification
  unfolding verify_rows
  verify rows = verify_rows (length rows) genesis_hash rows
