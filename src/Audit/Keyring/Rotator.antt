-- ===== src/Audit/Keyring/Rotator.antt =====
-- src/smart_factory/infrastructure/audit/keyring.py, `FilesystemAuditAttestationKeyRotator`: the
-- rotation of the key that signs audit checkpoints. The generated key, the fresh identifier and the
-- current time are arguments. `pending` holds the `.pending-<key id>.pem` files.
pub mod Outcomes
use smart_factory_monitor.Common.{
  ℕ, String, Bool, true, false, Option, none, some, List, [], ◌∷◌, str_eq, Result, ok, err, ◌>>=◌,
  ◌>>◌, guard, if◌then◌else◌,
}
use smart_factory_monitor.Domain.{Datetime}
use smart_factory_monitor.Signing.{Crypto, ArtifactSigningError, signer_from_file}
use smart_factory_monitor.Audit.Checkpoint.{AuditCheckpointError, public_key_id}
use smart_factory_monitor.Audit.Keyring.{
  AuditKeyTransition, SignedAuditKeyTransition, DirectoryEntry, Keyring, KeyringError,
  KeyringFormat, find_file, validate_transition, resolve_trusted_key,
}
use smart_factory_monitor.Audit.Keyring.Integrity.{AuditKeyringVerification, verify_integrity}
use smart_factory_monitor.Audit.Keyring.Publication.{write_once, publish_transition, activate}
use smart_factory_monitor.Operations.Rotation.{AuditKeyRotationResult}

-- `owned` is whether the calling thread holds the lock of the keyring.
pub record KeyRotator : Type 0 where
  pub chain_id : String
  pub private_key : Option String
  pub public_key : Option String
  pub pending : List DirectoryEntry
  pub ring : Keyring
  pub owned : Bool

-- What `rotate` generates.
pub record Replacement : Type 0 where
  pub transition_id : ℕ
  pub created_at : Datetime
  pub private_key : String
  pub private_pem : String
  pub public_pem : String

-- `unsettled` does not occur: the walks over a keyring end.
pub data RotatorError : Type 0 where
  keyring_error : KeyringError → RotatorError
  unreadable_public_key wrong_public_key untrusted_public_key unlocked unreadable_private_key
        invalid_transition unsettled :
      RotatorError

settled : {A : Type 0} → Option (Result KeyringError A) → Result RotatorError A
settled none = err RotatorError.unsettled
settled (some (ok a)) = ok a
settled (some (err e)) = err (RotatorError.keyring_error e)

identified : Result AuditCheckpointError String → Result RotatorError String
identified (ok key_id) = ok key_id
identified (err e) = err RotatorError.unreadable_public_key

signer : Result ArtifactSigningError String → Result RotatorError String
signer (ok key) = ok key
signer (err e) = err RotatorError.unreadable_private_key

unfoldable pub same_content : Option String → Option String → Bool
same_content (some s) (some t) = str_eq s t
same_content (some s) none = false
same_content none t = false

unfoldable pub remove_file : String → List DirectoryEntry → List DirectoryEntry
remove_file name [] = []
remove_file name (DirectoryEntry.irregular ∷ rest) =
    DirectoryEntry.irregular ∷ remove_file name rest
remove_file name (DirectoryEntry.regular stem content ∷ rest) =
    let later = remove_file name rest in
    if str_eq stem name then later else DirectoryEntry.regular stem content ∷ later

module _ (c : Crypto) (format : KeyringFormat) where
  -- `current_key_id`
  unfoldable pub current_key_id : KeyRotator → Result RotatorError String
  unfolding settled identified
  current_key_id s = do
    verification ← settled (verify_integrity c format s.ring s.chain_id)
    identity ← identified (public_key_id c s.public_key)
    guard (str_eq identity verification.active_key_id) RotatorError.wrong_public_key
    trusted ← settled (resolve_trusted_key c format s.ring verification.active_key_id s.chain_id)
    guard (same_content (find_file trusted s.ring.keys) s.public_key)
        RotatorError.untrusted_public_key
    ok verification.active_key_id

  unfoldable pub new_transition : KeyRotator → Replacement → String → String → AuditKeyTransition
  new_transition s fresh previous_key_id new_key_id = record {
    transition_id = fresh.transition_id;
    chain_id = s.chain_id;
    created_at = fresh.created_at;
    previous_key_id = previous_key_id;
    new_key_id = new_key_id;
  }

  -- The transition with the signatures of both keys
  unfoldable pub signed_transition :
      KeyRotator → Replacement → String → String → String → SignedAuditKeyTransition
  signed_transition s fresh previous_signer previous_key_id new_key_id =
      let transition = new_transition s fresh previous_key_id new_key_id in
      let payload = format.canonical_json transition in
      record {
        transition = transition;
        previous_signature = c.b64encode (c.sign previous_signer payload);
        new_signature = c.b64encode (c.sign fresh.private_key payload);
      }

  -- What is computed before the first write
  unfoldable pub prepare : KeyRotator → Replacement → Result RotatorError SignedAuditKeyTransition
  unfolding signer identified
  prepare s fresh = do
    guard s.owned RotatorError.unlocked
    previous_key_id ← current_key_id s
    previous_signer ← signer (signer_from_file c s.private_key)
    new_key_id ← identified (public_key_id c (some fresh.public_pem))
    guard
        (validate_transition c format
          (signed_transition s fresh previous_signer previous_key_id new_key_id))
        RotatorError.invalid_transition
    ok (signed_transition s fresh previous_signer previous_key_id new_key_id)

  -- The pending private key takes the place of the old one.
  promote_pending :
      Replacement
      → SignedAuditKeyTransition
      → KeyRotator
      → Result RotatorError AuditKeyRotationResult × KeyRotator
  promote_pending fresh e s = (
    ok record {
      transition_id = fresh.transition_id;
      previous_key_id = e.transition.previous_key_id;
      new_key_id = e.transition.new_key_id;
    },
    record s {
      private_key = some fresh.private_pem;
      pending = remove_file e.transition.new_key_id s.pending;
    },
  )

  -- The public key is replaced, then the new key is activated.
  activate_new :
      Replacement
      → SignedAuditKeyTransition
      → KeyRotator
      → Result RotatorError AuditKeyRotationResult × KeyRotator
  unfolding promote_pending
  activate_new fresh e s =
      let (r, ring) = activate c format e.transition.new_key_id s.ring in
      let s' = record s { public_key = some fresh.public_pem; ring = ring } in
      elim r [
        | err x ↦ (err (RotatorError.keyring_error x), s')
        | ok _ ↦ promote_pending fresh e s'
      ]

  publish_new :
      Replacement
      → SignedAuditKeyTransition
      → KeyRotator
      → Result RotatorError AuditKeyRotationResult × KeyRotator
  unfolding activate_new
  publish_new fresh e s =
      let (r, ring) = publish_transition c format e fresh.public_pem s.ring in
      let s' = record s { ring = ring } in
      elim r [ err x ↦ (err (RotatorError.keyring_error x), s') | ok _ ↦ activate_new fresh e s' ]

  -- `rotate`
  unfoldable pub rotate :
      Replacement → KeyRotator → Result RotatorError AuditKeyRotationResult × KeyRotator
  unfolding publish_new
  rotate fresh s = elim (prepare s fresh) [
    | err x ↦ (err x, s)
    | ok e ↦ elim (write_once e.transition.new_key_id fresh.private_pem s.pending) [
      | err x ↦ (err (RotatorError.keyring_error x), s)
      | ok pending ↦ publish_new fresh e (record s { pending = pending })
    ]
  ]
