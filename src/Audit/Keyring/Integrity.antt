-- ===== src/Audit/Keyring/Integrity.antt =====
-- src/smart_factory/infrastructure/audit/keyring.py, `verify_integrity`: the whole chain from the
-- root to the active key. The digest of the snapshot is left out.
pub mod Soundness
pub mod Termination
use smart_factory_monitor.Common.{
  ℕ, suc, zero, String, Bool, ◌&&◌, Option, none, some, List, [], ◌∷◌, ◌++◌, all, length, str_eq,
  ◌==◌, map, Result, ok, err, ◌>>=◌, ◌>>◌, guard, if◌then◌else◌,
}
use smart_factory_monitor.Domain.{is_hex_digest}
use smart_factory_monitor.Signing.{Crypto}
use smart_factory_monitor.Audit.Keyring.{
  AuditKeyTransition, SignedAuditKeyTransition, DirectoryEntry, Keyring, KeyringError,
  KeyringFormat, find_transition, member, validate_key_file, load_verified_transitions, active_key,
}

-- `AuditKeyringVerification`, without its chain, its root and the digest of the snapshot.
pub record AuditKeyringVerification : Type 0 where
  pub active_key_id : String
  pub key_ids : List String
  pub transition_ids : List ℕ

-- What the loop over the transitions carries: `current`, `key_ids`, and the transitions it took.
pub record Trace : Type 0 where
  pub current : String
  pub key_ids : List String
  pub taken : List SignedAuditKeyTransition

module _ (c : Crypto) (format : KeyringFormat) where
  -- The loop. `none` is a loop that has used its fuel.
  unfoldable pub follow :
      ℕ → List SignedAuditKeyTransition → Trace → Option (Result KeyringError Trace)
  unfolding find_transition
  follow zero ts t = none
  follow (suc fuel) ts t = elim (find_transition t.current ts) [
    | none ↦ some (ok t)
    | some e ↦
        let next = e.transition.new_key_id in
        let later = follow fuel ts (record {
          current = next;
          key_ids = t.key_ids ++ (next ∷ []);
          taken = t.taken ++ (e ∷ []);
        }) in
        if member next t.key_ids then some (err KeyringError.cycle) else later
  ]

  -- The loop over the files of the keys directory.
  unfoldable pub archived_keys :
      List DirectoryEntry → List DirectoryEntry → Result KeyringError (List String)
  unfolding validate_key_file
  archived_keys keys [] = ok []
  archived_keys keys (DirectoryEntry.irregular ∷ rest) = err KeyringError.invalid_key_entry
  archived_keys keys (DirectoryEntry.regular key_id content ∷ rest) = do
    guard (is_hex_digest key_id) KeyringError.invalid_key_entry
    file ← validate_key_file c format keys key_id
    later ← archived_keys keys rest
    ok (key_id ∷ later)

  -- `archived_key_ids == set(key_ids)`
  abbrev pub same_keys : List String → List String → Bool
  same_keys xs ys = all (λ (k : String). member k ys) xs && all (λ (k : String). member k xs) ys

  -- The tests after the loop.
  unfoldable pub check_trace :
      Keyring
      → String
      → List SignedAuditKeyTransition
      → Trace
      → Result KeyringError AuditKeyringVerification
  unfolding archived_keys
  check_trace ring active ts t = do
    guard (str_eq t.current active) KeyringError.not_terminal
    guard (length t.taken == length ts) KeyringError.disconnected
    archived ← archived_keys ring.keys ring.keys
    guard (same_keys archived t.key_ids) KeyringError.unexpected_keys
    ok (record {
      active_key_id = active;
      key_ids = t.key_ids;
      transition_ids = map (λ (e : SignedAuditKeyTransition). e.transition.transition_id) t.taken;
    })

  unfoldable pub checked :
      Keyring
      → String
      → List SignedAuditKeyTransition
      → Option (Result KeyringError Trace)
      → Option (Result KeyringError AuditKeyringVerification)
  unfolding check_trace
  checked ring active ts none = none
  checked ring active ts (some (err e)) = some (err e)
  checked ring active ts (some (ok t)) = some (check_trace ring active ts t)

  abbrev pub start_trace : Keyring → Trace
  start_trace ring = record {
    current = ring.trusted_root_key_id;
    key_ids = ring.trusted_root_key_id ∷ [];
    taken = [];
  }

  -- What is read before the loop: the active key, and the verified transitions.
  unfoldable pub read_keyring :
      Keyring → String → Result KeyringError (String × List SignedAuditKeyTransition)
  unfolding validate_key_file active_key load_verified_transitions
  read_keyring ring chain = do
    root ← validate_key_file c format ring.keys ring.trusted_root_key_id
    active ← active_key ring.active_key_id
    ts ← load_verified_transitions c format ring chain
    ok (active, ts)

  abbrev pub verify_read :
      Keyring
      → Result KeyringError (String × List SignedAuditKeyTransition)
      → Option (Result KeyringError AuditKeyringVerification)
  verify_read ring (err e) = some (err e)
  verify_read ring (ok (active, ts)) =
      checked ring active ts (follow (suc (length ts)) ts (start_trace ring))

  unfoldable pub verify_integrity :
      Keyring → String → Option (Result KeyringError AuditKeyringVerification)
  unfolding read_keyring follow checked
  verify_integrity ring chain = verify_read ring (read_keyring ring chain)
