-- ===== src/Audit/Chain/Links.antt =====
-- What `verify` of the audit chain decides, against a relation that does not mention it.
use smart_factory_monitor.Common.{
  ℕ, String, ◌≡◌, refl, sym, ap, ◌∙◌, ◌↔◌, ◌≢◌, true, false, none, some, List, [], ◌∷◌, ◌++◌,
  length, arith, str_eq, eq_iff, Result, ok, err, Result-cases, Bool-cases, inl, inr, ◌⊎◌,
}
use smart_factory_monitor.Audit.Event.{OperatorAuditEvent, ValidationError}
use smart_factory_monitor.Audit.Chain.{
  Encoding, AuditRow, AuditChainVerification, event_from_row, event_hash, genesis_hash, verify_rows,
  verify,
}

-- The rows form a chain from one hash to another: each stores a well-formed event, the hash before
-- it, and the hash of the two.
pub data Linked (c : Encoding) : String → List AuditRow → String → Type 0 where
  nil : (h : String) → Linked c h [] h
  cons :
      (h last : String) (row : AuditRow) (rows : List AuditRow) (e : OperatorAuditEvent)
      → event_from_row row ≡ ok e
      → row.previous_hash ≡ h
      → row.event_hash ≡ event_hash c h e
      → Linked c row.event_hash rows last
      → Linked c h (row ∷ rows) last

abbrev pub confirmed : ℕ → String → AuditChainVerification
confirmed n h = record {
  valid = true;
  event_count = n;
  head_hash = h;
  invalid_sequence_number = none;
}

module _ (c : Encoding) where
  -- A row that does not continue the chain at this hash, though its event is well formed.
  pub record IsBroken (h : String) (row : AuditRow) : Type 0 where
    pub event : OperatorAuditEvent
    pub well_formed : event_from_row row ≡ ok event
    pub mismatch : (row.previous_hash ≢ h) ⊎ (row.event_hash ≢ event_hash c h event)

  verify_rows_of_Linked :
      (total : ℕ) {h last : String} {rows : List AuditRow}
      → Linked c h rows last
      → verify_rows c total h rows ≡ ok (confirmed total last)
  unfolding verify_rows
  verify_rows_of_Linked total (Linked.nil h) = refl
  verify_rows_of_Linked total (Linked.cons h last row rows e p q r l) = rw p (
      ground (
        arith,
        eq_iff row.previous_hash h,
        eq_iff row.event_hash (event_hash c h e),
        verify_rows_of_Linked total l,
      ))

  abbrev rejected : ℕ → String → AuditRow → AuditChainVerification
  rejected total h row = record {
    valid = false;
    event_count = total;
    head_hash = h;
    invalid_sequence_number = some row.sequence_number;
  }

  abbrev Continues :
      ℕ → String → AuditRow → List AuditRow → Result ValidationError AuditChainVerification → Type 0
  Continues total h row rows r =
      (e : OperatorAuditEvent) × (event_from_row row ≡ ok e)
      × (row.previous_hash ≡ h)
      × (row.event_hash ≡ event_hash c h e)
      × (r ≡ verify_rows c total row.event_hash rows)

  -- The three ways in which one round of the loop can go.
  verify_rows_step :
      (total : ℕ) (h : String) (row : AuditRow) (rows : List AuditRow)
      → Continues total h row rows (verify_rows c total h (row ∷ rows))
        ⊎ (IsBroken h row × (verify_rows c total h (row ∷ rows) ≡ ok (rejected total h row)))
        ⊎ ((e : ValidationError) × (verify_rows c total h (row ∷ rows) ≡ err e))
  unfolding verify_rows
  verify_rows_step total h row rows = elim (Result-cases (event_from_row row)) [
    | inr (x, p) ↦ inr (inr (x, rw p))
    | inl (e, p) ↦ elim (Bool-cases (str_eq row.previous_hash h)) [
      | inr f ↦ inr (
          inl (
            record { event = e; well_formed = p; mismatch = inl (λ q. cc ((eq_iff _ _).1 q)) },
            rw (p, f),
          ))
      | inl t ↦ elim (Bool-cases (str_eq row.event_hash (event_hash c h e))) [
        | inr f ↦ inr (
            inl (
              record { event = e; well_formed = p; mismatch = inr (λ q. cc ((eq_iff _ _).1 q)) },
              rw (p, t, f),
            ))
        | inl u ↦ inl (e, p, (eq_iff _ _).0 t, (eq_iff _ _).0 u, rw (p, t, u))
      ]
    ]
  ]

  Linked-of_verify_rows :
      (total n : ℕ) (h last : String) (rows : List AuditRow)
      → verify_rows c total h rows ≡ ok (confirmed n last)
      → Linked c h rows last × (n ≡ total)
  unfolding verify_rows
  Linked-of_verify_rows total n h last [] v =
      let same : h ≡ last = cc in (rw (← same) (Linked.nil h), cc)
  Linked-of_verify_rows total n h last (row ∷ rows) v = elim (verify_rows_step total h row rows) [
    | inl (e, p, q, r, s) ↦
        let (l, m) = Linked-of_verify_rows total n row.event_hash last rows (sym s ∙ v) in
        (Linked.cons h last row rows e p q r l, m)
    | inr (inl (b, s)) ↦ cc (sym s ∙ v)
    | inr (inr (x, s)) ↦ cc (sym s ∙ v)
  ]

  -- `verify` confirms a table, with a count and a head, exactly when its rows form a chain from the
  -- genesis hash to that head and the count is their number.
  pub verify-eq-confirmed_iff :
      (rows : List AuditRow) (n : ℕ) (head : String)
      → (verify c rows ≡ ok (confirmed n head))
        ↔ (Linked c genesis_hash rows head × (n ≡ length rows))
  unfolding verify
  verify-eq-confirmed_iff rows n head = (
    Linked-of_verify_rows (length rows) n genesis_hash head rows,
    λ (l, m). rw m (verify_rows_of_Linked (length rows) l),
  )

  -- Where the first bad row stands: what is before it is a chain to the reported head.
  pub record FirstBad (h : String) (rows : List AuditRow) (v : AuditChainVerification)
      : Type 0 where
    pub before : List AuditRow
    pub row : AuditRow
    pub after : List AuditRow
    pub split : rows ≡ before ++ (row ∷ after)
    pub chain : Linked c h before v.head_hash
    pub broken : IsBroken v.head_hash row
    pub reported : v.invalid_sequence_number ≡ some row.sequence_number

  FirstBad-of_verify_rows :
      (total : ℕ) (h : String) (rows : List AuditRow) (v : AuditChainVerification)
      → verify_rows c total h rows ≡ ok v
      → v.valid ≡ false
      → FirstBad h rows v
  unfolding verify_rows
  FirstBad-of_verify_rows total h [] v p f = cc
  FirstBad-of_verify_rows total h (row ∷ rows) v p f = elim (verify_rows_step total h row rows) [
    | inl (e, q, r, s, t) ↦
        let found = FirstBad-of_verify_rows total row.event_hash rows v (sym t ∙ p) f in
        record {
          before = row ∷ found.before;
          row = found.row;
          after = found.after;
          split = ap (λ (l : List AuditRow). row ∷ l) found.split;
          chain = Linked.cons h v.head_hash row found.before e q r s found.chain;
          broken = found.broken;
          reported = found.reported;
        }
    | inr (inl (b, s)) ↦
        let same : v ≡ rejected total h row = cc (sym s ∙ p) in
        rw same (record {
          before = [];
          row = row;
          after = rows;
          split = refl;
          chain = Linked.nil h;
          broken = b;
          reported = refl;
        })
    | inr (inr (x, s)) ↦ cc (sym s ∙ p)
  ]

  -- When `verify` reports an invalid chain, the reported sequence number is that of a row that does
  -- not link to the reported head, and all rows before it form a chain from the genesis hash to it.
  pub verify-FirstBad :
      (rows : List AuditRow) (v : AuditChainVerification)
      → verify c rows ≡ ok v
      → v.valid ≡ false
      → FirstBad genesis_hash rows v
  unfolding verify
  verify-FirstBad rows v = FirstBad-of_verify_rows (length rows) genesis_hash rows v
