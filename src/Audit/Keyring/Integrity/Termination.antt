-- ===== src/Audit/Keyring/Integrity/Termination.antt =====
-- The loop of `verify_integrity` ends.
use smart_factory_monitor.Common.{
  ℕ, suc, zero, ◌<◌, String, false, ◌||◌, ◌≡◌, ◌≢◌, refl, inl, inr, Option-cases, none, List, [],
  ◌∷◌, ◌++◌, any-append, length, arith, str_eq, Bool-cases, ok, err, Result-cases,
}
use smart_factory_monitor.Signing.{Crypto}
use smart_factory_monitor.Audit.Keyring.{
  SignedAuditKeyTransition, Keyring, KeyringFormat, find_transition, member,
}
use smart_factory_monitor.Audit.Keyring.Termination.{remaining, remaining-<, remaining-length}
use smart_factory_monitor.Audit.Keyring.Integrity.{
  Trace, follow, checked, start_trace, read_keyring, verify_integrity,
}

module _ (c : Crypto) (format : KeyringFormat) where
  member-append :
      (k next : String) (key_ids : List String)
      → member k (key_ids ++ (next ∷ [])) ≡ (member k key_ids || str_eq k next)
  member-append k next key_ids =
      ground (arith, any-append (λ (x : String). str_eq k x) key_ids (next ∷ []))

  follow-ne-none :
      (fuel : ℕ) (ts : List SignedAuditKeyTransition) (t : Trace) (consumed : List String)
      → remaining ts consumed < fuel
      → member t.current consumed ≡ false
      → ((k : String) → member k t.key_ids ≡ member k (t.current ∷ consumed))
      → follow c format fuel ts t ≢ none
  unfolding follow
  follow-ne-none zero ts t consumed h m same e = absurd (omega (arith, h))
  follow-ne-none (suc fuel) ts t consumed h m same e =
      elim (Option-cases (find_transition t.current ts)) [
        | inl p ↦ ground (arith, p, e)
        | inr (x, p) ↦
            let next = x.transition.new_key_id in
            let less = remaining-< t.current consumed ts x p m in
            elim (Bool-cases (member next t.key_ids)) [
              | inl seen ↦ ground (arith, p, seen, e)
              | inr fresh ↦
                  follow-ne-none fuel ts
                    (record {
                      current = next;
                      key_ids = t.key_ids ++ (next ∷ []);
                      taken = t.taken ++ (x ∷ []);
                    })
                    (t.current ∷ consumed) (omega (arith, less, h))
                    (ground (arith, same next, fresh))
                    (λ k. ground (arith, member-append k next t.key_ids, same k))
                    (ground (arith, p, fresh, e))
            ]
      ]

  checked-ne-none :
      (ring : Keyring) (active : String) (ts : List SignedAuditKeyTransition)
      → checked c format ring active ts
          (follow c format (suc (length ts)) ts (start_trace c format ring))
        ≢ none
  unfolding checked
  checked-ne-none ring active ts e =
      elim (Option-cases (follow c format (suc (length ts)) ts (start_trace c format ring))) [
        | inl p ↦
            follow-ne-none (suc (length ts)) ts (start_trace c format ring) []
              (omega (arith, remaining-length ts [])) refl (λ k. refl) p
        | inr (ok t, p) ↦ ground (arith, p, e)
        | inr (err x, p) ↦ ground (arith, p, e)
      ]

  -- The loop of `verify_integrity` ends for every keyring, also for one whose transitions form a
  -- cycle: its fuel, one more than there are transitions, is enough.
  pub verify_integrity-ne-none :
      (ring : Keyring) (chain : String) → verify_integrity c format ring chain ≢ none
  unfolding verify_integrity
  verify_integrity-ne-none ring chain e = elim (Result-cases (read_keyring c format ring chain)) [
    | inr (x, p) ↦ ground (arith, p, e)
    | inl ((active, ts), p) ↦ checked-ne-none ring active ts (ground (arith, p, e))
  ]
