-- ===== src/Operations/Rotation/Approval.antt =====
-- A key rotation happens only for the key that was approved, after its start is recorded, and under
-- the lock, which is left however it ends.
use mathlib.Core.Path.{subst}
use smart_factory_monitor.Common.{
  String, ◌≡◌, ◌⊎◌, inl, inr, [], ◌∷◌, some, none, Option, arith, str_eq, eq_iff, Bool-cases,
  Result, ok, Result-cases,
}
use smart_factory_monitor.Audit.Event.{
  AuditValue, AuditState, OperatorActionOutcome, OperatorAuditContext,
}
use smart_factory_monitor.Operations.{Failure, error_name, World, Trail, record_event}
use smart_factory_monitor.Operations.Rotation.{
  AuditKeyRotationResult, Rotator, rotate, rotation_event,
}

module _ {R T : Type 0} (rotator : Rotator R) (trail : Trail T) (context : OperatorAuditContext)
    (expected : String) (w : World R T) where
  -- The target under the lock, and after the active key was read.
  abbrev pub locked : R
  locked = (rotator.enter w.target).1

  abbrev pub read : R
  read = (rotator.current_key_id locked).1

  target-record_event :
      (outcome : OperatorActionOutcome) (p q : AuditState) (x : Option String) (v : World R T)
      → (rotation_event rotator trail context outcome p q x v).1.target ≡ v.target
  unfolding record_event
  target-record_event outcome p q x v = ground arith

  abbrev pub start : String → World R T → Result Failure (Unit {0}) × World R T
  start key =
      rotation_event rotator trail context OperatorActionOutcome.started
        (("key_id", AuditValue.text key) ∷ []) [] none

  abbrev pub at_start : World R T
  at_start = record w { target = read }

  abbrev turned : World R T → World R T
  turned s = record s { target = (rotator.rotate read).1 }

  abbrev resulting : AuditKeyRotationResult → AuditState
  resulting done =
      ("key_id", AuditValue.text done.new_key_id)
      ∷ ("transition_id", AuditValue.text (trail.uuid_text done.transition_id))
      ∷ []

  -- Whatever the ports do once the lock is held, the last thing done to the target is to leave the
  -- lock; before that either no rotation was made, or the active key was the approved one, the
  -- start was recorded with that key, and one rotation was made.
  pub rotate_gated :
      (rotator.enter w.target).0 ≡ ok tt
      → ((rotate rotator trail context expected w).1.target ≡ rotator.leave read)
        ⊎ (((rotator.current_key_id locked).0 ≡ ok expected)
            × ((start expected at_start).0 ≡ ok tt)
            × ((rotate rotator trail context expected w).1.target
                ≡ rotator.leave (rotator.rotate read).1))
  unfolding rotate
  rotate_gated e = elim (Result-cases (rotator.current_key_id locked).0) [
    | inr (x, k) ↦ inl (ground (arith, e, k))
    | inl (key, k) ↦ elim (Bool-cases (str_eq key expected)) [
      | inr differs ↦ inl (ground (arith, e, k, differs))
      | inl same ↦
          let kept =
            target-record_event OperatorActionOutcome.started (("key_id", AuditValue.text key) ∷ [])
              [] none at_start in
          let s = (start key at_start).1 in
          let p = (eq_iff key expected).0 same in
          elim (Result-cases (start key at_start).0) [
            | inr (x, q) ↦ inl (ground (arith, e, k, same, q, kept))
            | inl (_, q) ↦ inr (
              ground (arith, k, p),
              subst (λ (j : String). (start j at_start).0 ≡ ok tt) p q,
              elim (Result-cases (rotator.rotate read).0) [
                | inr (x, r) ↦ ground (
                  arith,
                  e,
                  k,
                  same,
                  q,
                  kept,
                  r,
                  target-record_event OperatorActionOutcome.failed
                      (("key_id", AuditValue.text key) ∷ []) [] (some (error_name x)) (turned s),
                )
                | inl (done, r) ↦ ground (
                  arith,
                  e,
                  k,
                  same,
                  q,
                  kept,
                  r,
                  target-record_event OperatorActionOutcome.succeeded
                      (("key_id", AuditValue.text key) ∷ []) (resulting done) none (turned s),
                )
              ],
            )
          ]
    ]
  ]
