-- ===== src/Audit/Keyring/Termination.antt =====
-- src/smart_factory/infrastructure/audit/keyring.py: the loop of `resolve_trusted_key` over the
-- transitions.
use smart_factory_monitor.Common.{
  ℕ, suc, zero, ◌+◌, ◌≤◌, ◌<◌, String, false, ◌≡◌, ◌≢◌, refl, inl, inr, none, some, List, [], ◌∷◌,
  length, arith, str_eq, eq_iff, Bool-cases, Option-cases, Result-cases, if◌then◌else◌,
}
use smart_factory_monitor.Signing.{Crypto}
use smart_factory_monitor.Audit.Keyring.{
  SignedAuditKeyTransition, Keyring, KeyringFormat, find_transition, member, validate_key_file,
  load_verified_transitions, walk, walk_from_root, loaded_walk, resolve_trusted_key,
}

-- How many transitions do not start at one of these keys.
pub remaining : List SignedAuditKeyTransition → List String → ℕ
remaining [] consumed = 0
remaining (e ∷ ts) consumed =
    (if member e.transition.previous_key_id consumed then 0 else 1) + remaining ts consumed

remaining-≤ :
    (key : String) (consumed : List String) (ts : List SignedAuditKeyTransition)
    → remaining ts (key ∷ consumed) ≤ remaining ts consumed
unfolding remaining
remaining-≤ key consumed [] = omega arith
remaining-≤ key consumed (e ∷ ts) = ground (arith, remaining-≤ key consumed ts)

pub remaining-length :
    (ts : List SignedAuditKeyTransition) (consumed : List String)
    → remaining ts consumed ≤ length ts
unfolding remaining
remaining-length [] consumed = omega arith
remaining-length (e ∷ ts) consumed = ground (arith, remaining-length ts consumed)

pub remaining-< :
    (key : String) (consumed : List String) (ts : List SignedAuditKeyTransition)
    (e : SignedAuditKeyTransition)
    → find_transition key ts ≡ some e
    → member key consumed ≡ false
    → remaining ts (key ∷ consumed) < remaining ts consumed
unfolding remaining find_transition
remaining-< key consumed [] e h m = absurd (cc h)
remaining-< key consumed (t ∷ ts) e h m =
    elim (Bool-cases (str_eq t.transition.previous_key_id key)) [
      | inl s ↦
          let same = (eq_iff t.transition.previous_key_id key).0 s in
          ground (arith, s, same, m, remaining-≤ key consumed ts)
      | inr s ↦ ground (arith, s, remaining-< key consumed ts e (rw s at h) m)
    ]

module _ (c : Crypto) (format : KeyringFormat) where
  -- A walk from a key ends, whatever the transitions are, on more fuel than transitions are left.
  walk-ne-none :
      (fuel : ℕ) (ts : List SignedAuditKeyTransition) (target current : String)
      (consumed : List String)
      → remaining ts consumed < fuel
      → member current consumed ≡ false
      → walk c format fuel ts target current (current ∷ consumed) ≢ none
  unfolding walk
  walk-ne-none zero ts target current consumed h m e = absurd (omega (arith, h))
  walk-ne-none (suc fuel) ts target current consumed h m e =
      elim (Option-cases (find_transition current ts)) [
        | inl p ↦ ground (arith, p, e)
        | inr (t, p) ↦
            let next = t.transition.new_key_id in
            let less = remaining-< current consumed ts t p m in
            elim (Bool-cases (member next (current ∷ consumed))) [
              | inl seen ↦ ground (arith, p, seen, e)
              | inr fresh ↦ elim (Bool-cases (str_eq next target)) [
                | inl done ↦ ground (arith, p, fresh, done, e)
                | inr on ↦
                    walk-ne-none fuel ts target next (current ∷ consumed) (omega (arith, less, h))
                      fresh (ground (arith, p, fresh, on, e))
              ]
            ]
      ]

  -- The walk of `resolve_trusted_key` always ends: its fuel, one more than there are transitions,
  -- is enough for every keyring, also for one whose transitions form a cycle.
  pub resolve_trusted_key-ne-none :
      (ring : Keyring) (target chain : String)
      → resolve_trusted_key c format ring target chain ≢ none
  unfolding resolve_trusted_key loaded_walk walk_from_root
  resolve_trusted_key-ne-none ring target chain e =
      elim (Result-cases (validate_key_file c format ring.keys ring.trusted_root_key_id)) [
        | inr (x, p) ↦ ground (arith, p, e)
        | inl (file, p) ↦ elim (Bool-cases (str_eq target ring.trusted_root_key_id)) [
          | inl same ↦ ground (arith, p, same, e)
          | inr other ↦ elim (Result-cases (load_verified_transitions c format ring chain)) [
            | inr (x, q) ↦ ground (arith, p, other, q, e)
            | inl (ts, q) ↦
                walk-ne-none (suc (length ts)) ts target ring.trusted_root_key_id []
                  (omega (arith, remaining-length ts [])) refl (ground (arith, p, other, q, e))
          ]
        ]
      ]
