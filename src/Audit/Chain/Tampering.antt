-- ===== src/Audit/Chain/Tampering.antt =====
-- What a count and a head hash pin down: the whole history, unless SHA-256 collides.
use text.Mathlib.TextLemmas.{append_inj, append_cancel_left}
use smart_factory_monitor.Common.{
  ℕ, String, ◌<>◌, count, ◌≡◌, refl, sym, ap, ◌∙◌, ◌≢◌, ◌⊎◌, inl, inr, List, [], ◌∷◌, length, arith,
  str_eq, eq_iff, Bool-cases, Result, ok, ◌>>=◌,
}
use smart_factory_monitor.Audit.Event.{OperatorAuditEvent, ValidationError}
use smart_factory_monitor.Audit.Chain.{
  Encoding, AuditRow, event_from_row, canonical_event_document, event_hash, verify,
}
use smart_factory_monitor.Audit.Chain.Links.{Linked, confirmed, verify-eq-confirmed_iff}

module _ (c : Encoding) where
  -- The canonical JSON of the event that a row stores.
  pub row_text : AuditRow → Result ValidationError String
  row_text row = event_from_row row >>= λ e. ok (c.dumps (canonical_event_document c e))

  abbrev pub SameRecords : List AuditRow → List AuditRow → Type 0
  SameRecords [] [] = Unit
  SameRecords (r ∷ rs) (s ∷ ss) = (row_text r ≡ row_text s) × SameRecords rs ss
  SameRecords _ _ = ⊥

  -- What `event_hash` digests.
  abbrev pub hashed_text : String → OperatorAuditEvent → String
  hashed_text previous_hash e = previous_hash <> ("\n" <> c.dumps (canonical_event_document c e))

  -- Two rows whose digests are those of two different texts, each made of the hash that the row
  -- links to and the event that it stores, with one and the same digest.
  pub record RowCollision (r s : AuditRow) : Type 0 where
    pub left : OperatorAuditEvent
    pub right : OperatorAuditEvent
    pub stored_left : event_from_row r ≡ ok left
    pub stored_right : event_from_row s ≡ ok right
    pub digest_left : r.event_hash ≡ c.sha256_hexdigest (hashed_text r.previous_hash left)
    pub digest_right : s.event_hash ≡ c.sha256_hexdigest (hashed_text s.previous_hash right)
    pub differ : hashed_text r.previous_hash left ≢ hashed_text s.previous_hash right
    pub same_digest : r.event_hash ≡ s.event_hash

  -- Some two rows at the same place of the two tables.
  abbrev pub Collide : List AuditRow → List AuditRow → Type 0
  Collide (r ∷ rs) (s ∷ ss) = RowCollision r s ⊎ Collide rs ss
  Collide [] _ = ⊥
  Collide (r ∷ rs) [] = ⊥

  same_or_differ : (s t : String) → (s ≡ t) ⊎ (s ≢ t)
  same_or_differ s t = elim (Bool-cases (str_eq s t)) [
    | inl e ↦ inl ((eq_iff s t).0 e)
    | inr f ↦ inr (λ q. cc ((eq_iff s t).1 q))
  ]

  parts_of :
      (h k : String) (e f : OperatorAuditEvent)
      → count h ≡ count k
      → hashed_text h e ≡ hashed_text k f
      → (h ≡ k) × (c.dumps (canonical_event_document c e) ≡ c.dumps (canonical_event_document c f))
  parts_of h k e f same_count q =
      let (a, b) = append_inj q same_count in (a, append_cancel_left "\n" _ _ b)

  module _ (hexdigest_length : (s : String) → count (c.sha256_hexdigest s) ≡ 64) where
    count-event_hash : (h : String) (e : OperatorAuditEvent) → count (event_hash c h e) ≡ 64
    unfolding event_hash
    count-event_hash h e = hexdigest_length _

    SameRecords-of_Linked :
        {h k last last' : String} {rs ss : List AuditRow}
        → Linked c h rs last
        → Linked c k ss last'
        → last ≡ last'
        → length rs ≡ length ss
        → count h ≡ count k
        → ((h ≡ k) × SameRecords rs ss) ⊎ Collide rs ss
    SameRecords-of_Linked (Linked.nil h) (Linked.nil k) p n m = inl (p, tt)
    SameRecords-of_Linked (Linked.nil h) (Linked.cons _ _ _ _ _ _ _ _ _) p n m =
        absurd (omega arith)
    SameRecords-of_Linked (Linked.cons _ _ _ _ _ _ _ _ _) (Linked.nil k) p n m =
        absurd (omega arith)
    SameRecords-of_Linked (Linked.cons h _ r rs e er pr hr l) (Linked.cons k _ s ss f es ps hs l') p
          n m =
        let rest =
          SameRecords-of_Linked l l' p (omega arith)
            (rw (hr, hs) (count-event_hash h e ∙ sym (count-event_hash k f))) in
        elim (rest) [
          | inr collision ↦ inr (inr collision)
          | inl (q, t) ↦ elim (same_or_differ (hashed_text h e) (hashed_text k f)) [
            | inr different ↦ inr (
                inl record {
                  left = e;
                  right = f;
                  stored_left = er;
                  stored_right = es;
                  digest_left = rw pr (unfold event_hash in hr);
                  digest_right = rw ps (unfold event_hash in hs);
                  differ = rw (pr, ps) different;
                  same_digest = q;
                })
            | inl same ↦
                let (a, b) = parts_of h k e f m same in
                inl (a, (unfold row_text in rw (er, es) (ap ok b), t))
          ]
        ]

    -- Of digests of 64 characters: two tables that `verify` confirms with the same count and the
    -- same head store the same events, row by row, by their canonical JSON; or some two rows at the
    -- same place of the two tables store one digest, which is the SHA-256 of both the text of the
    -- one row and the text of the other, although these texts differ.
    pub verify-SameRecords :
        (rows rows' : List AuditRow) (n : ℕ) (head : String)
        → verify c rows ≡ ok (confirmed n head)
        → verify c rows' ≡ ok (confirmed n head)
        → SameRecords rows rows' ⊎ Collide rows rows'
    verify-SameRecords rows rows' n head v w =
        let (l, p) = (verify-eq-confirmed_iff c rows n head).0 v in
        let (l', p') = (verify-eq-confirmed_iff c rows' n head).0 w in
        elim (SameRecords-of_Linked l l' refl (sym p ∙ p') refl) [
          | inl (_, same) ↦ inl same
          | inr collision ↦ inr collision
        ]
