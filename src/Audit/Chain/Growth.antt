-- ===== src/Audit/Chain/Growth.antt =====
-- A table that only `append` has written is confirmed by `verify`.
use smart_factory_monitor.Common.{
  ℕ, suc, false, ltb, ◌≤◌, ◌<◌, All-append, All-map, ◌+◌, String, ◌≡◌, refl, List, [], ◌∷◌, ◌++◌,
  length, length-append, All, arith, ok,
}
use smart_factory_monitor.Domain.{is_aware, utc}
use smart_factory_monitor.Audit.Event.{
  OperatorAction, OperatorActionOutcome, OperatorAuditEvent, validate_event, action_value,
  outcome_value, parse_action, parse_outcome,
}
use smart_factory_monitor.Audit.Chain.{
  Encoding, AuditRow, event_from_row, canonical_event_document, event_hash, genesis_hash,
  audit_head, insert_by_sequence, new_row, append, verify, sorted_items,
}
use smart_factory_monitor.Audit.Chain.Sorting.{sorted_items_idem, keys_unique-sorted_items}
use smart_factory_monitor.Audit.Chain.Links.{Linked, confirmed, verify-eq-confirmed_iff}

parse_action-action_value : (a : OperatorAction) → parse_action (action_value a) ≡ ok a
unfolding parse_action action_value
parse_action-action_value OperatorAction.model_promotion = refl
parse_action-action_value OperatorAction.model_rollback = refl
parse_action-action_value OperatorAction.audit_attestation_key_rotation = refl

parse_outcome-outcome_value : (o : OperatorActionOutcome) → parse_outcome (outcome_value o) ≡ ok o
unfolding parse_outcome outcome_value
parse_outcome-outcome_value OperatorActionOutcome.started = refl
parse_outcome-outcome_value OperatorActionOutcome.succeeded = refl
parse_outcome-outcome_value OperatorActionOutcome.failed = refl

-- The event as the database gives it back.
reread : OperatorAuditEvent → OperatorAuditEvent
reread e = record e {
  occurred_at = utc e.occurred_at.instant;
  previous_state = sorted_items e.previous_state;
  resulting_state = sorted_items e.resulting_state;
}

validate_event-reread :
    (e : OperatorAuditEvent) → validate_event e ≡ ok e → validate_event (reread e) ≡ ok (reread e)
unfolding validate_event reread is_aware
validate_event-reread e v =
    ground
      (arith, keys_unique-sorted_items e.previous_state, keys_unique-sorted_items e.resulting_state)

module _ (c : Encoding) where
  event_hash-reread :
      (h : String) (e : OperatorAuditEvent) → event_hash c h (reread e) ≡ event_hash c h e
  unfolding event_hash canonical_event_document reread
  event_hash-reread h e =
      cc (sorted_items_idem e.previous_state, sorted_items_idem e.resulting_state)

  -- The event is valid, and the columns give its two states back, in whatever order.
  pub record IsStorable (e : OperatorAuditEvent) : Type 0 where
    pub valid : validate_event e ≡ ok e
    pub previous : sorted_items (c.jsonb e.previous_state) ≡ sorted_items e.previous_state
    pub resulting : sorted_items (c.jsonb e.resulting_state) ≡ sorted_items e.resulting_state

  event_from_row-new_row :
      (n : ℕ) (h : String) (e : OperatorAuditEvent)
      → IsStorable e
      → event_from_row (new_row c n h e) ≡ ok (reread e)
  unfolding event_from_row new_row
  event_from_row-new_row n h e v =
      rw (v.previous, v.resulting)
        (rw (parse_action-action_value e.action) (
          rw (parse_outcome-outcome_value e.outcome)
            (unfold reread in validate_event-reread e v.valid)))

  Linked-append :
      {h last : String} {rows : List AuditRow} (row : AuditRow) (e : OperatorAuditEvent)
      → Linked c h rows last
      → event_from_row row ≡ ok e
      → row.previous_hash ≡ last
      → row.event_hash ≡ event_hash c last e
      → Linked c h (rows ++ (row ∷ [])) row.event_hash
  Linked-append row e (Linked.nil h) p q r =
      Linked.cons h row.event_hash row [] e p q r (Linked.nil row.event_hash)
  Linked-append row e (Linked.cons h last row' rows e' p' q' r' l) p q r =
      Linked.cons h row.event_hash row' (rows ++ (row ∷ [])) e' p' q' r'
        (Linked-append row e l p q r)

  audit_head_of_Linked :
      {h last : String} {rows : List AuditRow} → Linked c h rows last → audit_head h rows ≡ last
  unfolding audit_head
  audit_head_of_Linked (Linked.nil h) = refl
  audit_head_of_Linked (Linked.cons h last row rows e p q r l) = audit_head_of_Linked l

  -- Every row has a number up to this one.
  abbrev pub UpTo : ℕ → List AuditRow → Type 0
  UpTo n rows = All (λ (row : AuditRow). row.sequence_number ≤ n) rows

  insert_by_sequence_last :
      (row : AuditRow) (n : ℕ) (rows : List AuditRow)
      → UpTo n rows
      → n < row.sequence_number
      → insert_by_sequence row rows ≡ rows ++ (row ∷ [])
  unfolding insert_by_sequence
  insert_by_sequence_last row n [] h l = refl
  insert_by_sequence_last row n (other ∷ rest) h l =
      let not_before : ltb row.sequence_number other.sequence_number ≡ false =
        ground (arith, h.0, l) in
      rw not_before (rw (insert_by_sequence_last row n rest h.1 l) refl)

  -- An `append` under a new highest number puts its row last.
  append_last :
      (rows : List AuditRow) (low n : ℕ) (e : OperatorAuditEvent)
      → UpTo low rows
      → low < n
      → append c rows n e ≡ rows ++ (new_row c n (audit_head genesis_hash rows) e ∷ [])
  unfolding append new_row
  append_last rows low n e h l =
      insert_by_sequence_last (new_row c n (audit_head genesis_hash rows) e) low rows h l

  UpTo-append :
      (rows : List AuditRow) (low n : ℕ) (e : OperatorAuditEvent)
      → UpTo low rows
      → low < n
      → UpTo n (append c rows n e)
  UpTo-append rows low n e h l = rw (append_last rows low n e h l) (
      All-append (λ (row : AuditRow). row.sequence_number ≤ n) rows _
        (All-map (λ row p. omega (arith, p, l)) rows h) (unfold new_row in omega arith, tt))

  -- One `append` to a confirmed table: the count grows by one and the head is the new event's hash.
  pub verify-append :
      (rows : List AuditRow) (low n : ℕ) (e : OperatorAuditEvent) (count : ℕ) (head : String)
      → IsStorable e
      → UpTo low rows
      → low < n
      → verify c rows ≡ ok (confirmed count head)
      → verify c (append c rows n e) ≡ ok (confirmed (count + 1) (event_hash c head e))
  verify-append rows low n e count head v h k w =
      let (l, m) = (verify-eq-confirmed_iff c rows count head).0 w in
      let same : audit_head genesis_hash rows ≡ head = audit_head_of_Linked l in
      let row = new_row c n (audit_head genesis_hash rows) e in
      let at_end : append c rows n e ≡ rows ++ (row ∷ []) = append_last rows low n e h k in
      rw at_end (
        rw (← same) (
          (verify-eq-confirmed_iff c _ _ _).1 (
            unfold new_row in
                Linked-append row (reread e) l (event_from_row-new_row n _ e v) same
                  (rw (event_hash-reread head e) (rw same)),
            omega (arith, m, length-append rows (row ∷ [])),
          )))

  -- The table after a history of appends, each with the sequence number that the database gave it.
  unfoldable pub append_all : List AuditRow → List (ℕ × OperatorAuditEvent) → List AuditRow
  append_all rows [] = rows
  append_all rows ((n, e) ∷ events) = append_all (append c rows n e) events

  -- The head that a history of events leads to.
  unfoldable pub chain_head : String → List (ℕ × OperatorAuditEvent) → String
  chain_head h [] = h
  chain_head h ((n, e) ∷ events) = chain_head (event_hash c h e) events

  -- The numbers ascend, from above a number.
  abbrev pub Ascending : ℕ → List (ℕ × OperatorAuditEvent) → Type 0
  Ascending low [] = Unit
  Ascending low ((n, e) ∷ events) = (low < n) × Ascending n events

  verify-append_all_onto :
      (rows : List AuditRow) (events : List (ℕ × OperatorAuditEvent)) (low count : ℕ)
      (head : String)
      → All (λ entry. IsStorable entry.1) events
      → UpTo low rows
      → Ascending low events
      → verify c rows ≡ ok (confirmed count head)
      → verify c (append_all rows events)
        ≡ ok (confirmed (count + length events) (chain_head head events))
  unfolding append_all chain_head
  verify-append_all_onto rows [] low count head v h a w =
      let e : count + 0 ≡ count = omega arith in rw e w
  verify-append_all_onto rows ((n, e) ∷ events) low count head v h a w =
      let k : count + suc (length events) ≡ count + 1 + length events = omega arith in
      rw k (
        verify-append_all_onto (append c rows n e) events n (count + 1) (event_hash c head e) v.1
          (UpTo-append rows low n e h a.0) a.1 (verify-append rows low n e count head v.0 h a.0 w))

  -- Whatever valid events are appended to an empty table under ascending sequence numbers, `verify`
  -- confirms it, with the number of events and the hash that folds over them from the genesis hash,
  -- if the `jsonb` columns give the states of the events back but for the order of their items
  -- (they do not for some floats, such as 1e16 or -0.0).
  pub verify-append_all :
      (events : List (ℕ × OperatorAuditEvent))
      → All (λ entry. IsStorable entry.1) events
      → Ascending 0 events
      → verify c (append_all [] events)
        ≡ ok (confirmed (length events) (chain_head genesis_hash events))
  verify-append_all events v a =
      let k : 0 + length events ≡ length events = omega arith in
      rw k at (verify-append_all_onto [] events 0 0 genesis_hash v tt a (unfold verify in refl))
