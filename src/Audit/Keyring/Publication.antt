-- ===== src/Audit/Keyring/Publication.antt =====
-- src/smart_factory/infrastructure/audit/keyring.py, `publish_transition` and `activate`: the
-- writes to a keyring. A listing stays in the order of its names.
use smart_factory_monitor.Common.{
  String, ◌<>◌, Option, none, some, List, [], ◌∷◌, str_eq, text_leb, Result, ok, err, ◌>>=◌, ◌>>◌,
  guard, if◌then◌else◌,
}
use smart_factory_monitor.Signing.{Crypto}
use smart_factory_monitor.Audit.Checkpoint.{public_key_id}
use smart_factory_monitor.Audit.Keyring.{
  SignedAuditKeyTransition, DirectoryEntry, Keyring, KeyringError, KeyringFormat, find_file,
  key_identity, validate_key_file, verify_transition, transition_name, active_key,
}

-- A new entry at its place in the listing.
unfoldable pub insert_file : String → String → List DirectoryEntry → List DirectoryEntry
insert_file name content [] = DirectoryEntry.regular name content ∷ []
insert_file name content (DirectoryEntry.irregular ∷ rest) =
    DirectoryEntry.irregular ∷ insert_file name content rest
insert_file name content (DirectoryEntry.regular stem present ∷ rest) =
    if text_leb name stem
    then DirectoryEntry.regular name content ∷ DirectoryEntry.regular stem present ∷ rest
    else DirectoryEntry.regular stem present ∷ insert_file name content rest

unfoldable pub created :
    String
    → String
    → Option String
    → List DirectoryEntry
    → Result KeyringError (List DirectoryEntry)
unfolding insert_file
created name content none entries = ok (insert_file name content entries)
created name content (some present) entries =
    if str_eq present content then ok entries else err KeyringError.evidence_differs

-- `_write_once`, as the directory that it leaves.
unfoldable pub write_once :
    String → String → List DirectoryEntry → Result KeyringError (List DirectoryEntry)
unfolding created
write_once name content entries = created name content (find_file name entries) entries

module _ (c : Crypto) (format : KeyringFormat) where
  -- The tests of `publish_transition` before its first write.
  unfoldable pub publishable :
      Keyring → SignedAuditKeyTransition → String → Result KeyringError (Unit {0})
  unfolding active_key key_identity
  publishable ring e new_public_key = do
    identity ← key_identity c format (public_key_id c (some new_public_key))
    guard (str_eq identity e.transition.new_key_id) KeyringError.wrong_new_key
    active ← active_key ring.active_key_id
    guard (str_eq e.transition.previous_key_id active) KeyringError.not_at_active

  unfoldable pub write_transition :
      Keyring → SignedAuditKeyTransition → Result KeyringError (Unit {0}) × Keyring
  unfolding write_once verify_transition
  write_transition ring e = elim (verify_transition c format ring.keys e.transition.chain_id e) [
    | err x ↦ (err x, ring)
    | ok _ ↦
        elim (write_once (transition_name c format e.transition) (format.model_dump_json e <> "\n")
          ring.transitions) [
            | err x ↦ (err x, ring)
            | ok transitions ↦ (ok tt, record ring { transitions = transitions })
          ]
  ]

  -- `publish_transition`. The new key is written before the transition is verified.
  unfoldable pub publish_transition :
      SignedAuditKeyTransition → String → Keyring → Result KeyringError (Unit {0}) × Keyring
  unfolding publishable write_transition
  publish_transition e new_public_key ring = elim (publishable ring e new_public_key) [
    | err x ↦ (err x, ring)
    | ok _ ↦ elim (write_once e.transition.new_key_id new_public_key ring.keys) [
      | err x ↦ (err x, ring)
      | ok keys ↦ write_transition (record ring { keys = keys }) e
    ]
  ]

  -- `activate`
  unfoldable pub activate : String → Keyring → Result KeyringError (Unit {0}) × Keyring
  unfolding validate_key_file
  activate key_id ring = elim (validate_key_file c format ring.keys key_id) [
    | err x ↦ (err x, ring)
    | ok _ ↦ (ok tt, record ring { active_key_id = some key_id })
  ]
