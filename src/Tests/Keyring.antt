-- ===== src/Tests/Keyring.antt =====
-- A keyring of two keys: the root, and a key that a transition authorizes. A key's file holds its
-- identity, and every signature of the tests is one text of 64 characters.
use smart_factory_monitor.Common.{
  All, String, count, ◌≡◌, ◌≢◌, refl, [], ◌∷◌, none, some, str_eq, text_leb, true, ok, err, ◌⊎◌,
}
use smart_factory_monitor.Domain.{utc, is_aware, is_hex_digest, is_chain_id}
use smart_factory_monitor.Signing.{
  Crypto, LoadedKey, signer_from_file, verifier_from_file, verify_signature,
}
use smart_factory_monitor.Audit.Checkpoint.{public_key_id}
use smart_factory_monitor.Audit.Keyring.{
  SignedAuditKeyTransition, DirectoryEntry, Keyring, KeyringFormat, find_file, find_transition,
  validate_transition, resolve_trusted_key,
}
use smart_factory_monitor.Audit.Keyring.Publication.{write_once, publish_transition, activate}
use smart_factory_monitor.Audit.Keyring.Integrity.{AuditKeyringVerification, verify_integrity}
use smart_factory_monitor.Audit.Keyring.Integrity.Termination.{verify_integrity-ne-none}
use smart_factory_monitor.Audit.Keyring.Integrity.Soundness.{AllArchived, verify_integrity-Trusted}
use smart_factory_monitor.Audit.Keyring.Termination.{resolve_trusted_key-ne-none}
use smart_factory_monitor.Audit.Keyring.Trust.{IsKeyFile, Trusted, resolve_trusted_key-Trusted}
use smart_factory_monitor.Audit.Keyring.Rotation.{publish_transition-Trusted}
use smart_factory_monitor.Audit.Keyring.Rotator.{
  KeyRotator, Replacement, RotatorError, remove_file, prepare, current_key_id, same_content,
  signed_transition, new_transition, rotate,
}
use smart_factory_monitor.Audit.Keyring.Rotator.Outcomes.{HasRotated, rotate_outcome}
use smart_factory_monitor.Operations.Rotation.{AuditKeyRotationResult}

abbrev root : String
root = "aaaaaaaaaaaaaaaaaaaaaaaaaaaaaaaaaaaaaaaaaaaaaaaaaaaaaaaaaaaaaaaa"

abbrev replacement : String
replacement = "bbbbbbbbbbbbbbbbbbbbbbbbbbbbbbbbbbbbbbbbbbbbbbbbbbbbbbbbbbbbbbbb"

abbrev crypto : Crypto
crypto = record {
  load_pem_private_key = λ pem. some (LoadedKey.ed25519 pem);
  load_pem_public_key = λ pem. some (LoadedKey.ed25519 pem);
  public_key_der = λ key. key;
  sign = λ key payload. root;
  verify = λ key payload signature. str_eq signature root;
  sha256_hexdigest = λ s. s;
  b64encode = λ s. s;
  b64decode = λ s. some s;
}

abbrev envelope : SignedAuditKeyTransition
envelope = record {
  transition = record {
    transition_id = 1;
    chain_id = "factory/audit";
    created_at = utc 100;
    previous_key_id = root;
    new_key_id = replacement;
  };
  previous_signature = root;
  new_signature = root;
}

abbrev format : KeyringFormat
format = record {
  canonical_json = λ transition. "{}";
  model_validate_json = λ s. some envelope;
  model_dump_json = λ e. "{}";
  byte_length = count;
}

abbrev ring : Keyring
ring = record {
  trusted_root_key_id = root;
  keys = DirectoryEntry.regular root root ∷ [];
  transitions = [];
  active_key_id = some root;
}

abbrev rotated : Keyring
rotated = (publish_transition crypto format envelope replacement ring).1

resolve_trusted_key-ne-none_example :
    resolve_trusted_key crypto format rotated replacement "factory/audit" ≢ none
resolve_trusted_key-ne-none_example =
    resolve_trusted_key-ne-none crypto format rotated replacement "factory/audit"

resolved :
    resolve_trusted_key crypto format rotated replacement "factory/audit" ≡ some (ok replacement)
unfolding resolve_trusted_key publish_transition is_hex_digest public_key_id find_file text_leb
    verifier_from_file verify_signature is_chain_id is_aware find_transition
resolved = refl

resolve_trusted_key-Trusted_example :
    Trusted crypto format rotated.keys "factory/audit" rotated.trusted_root_key_id replacement
    × (replacement ≡ replacement)
resolve_trusted_key-Trusted_example =
    resolve_trusted_key-Trusted crypto format rotated replacement "factory/audit" replacement
      resolved

published : publish_transition crypto format envelope replacement ring ≡ (ok tt, rotated)
unfolding publish_transition public_key_id is_hex_digest find_file text_leb verifier_from_file
    verify_signature
published = refl

root-IsKeyFile : IsKeyFile crypto format ring.keys root
unfolding public_key_id find_file
root-IsKeyFile = record { identity = refl }

publish_transition-Trusted_example :
    (ring.active_key_id ≡ some root)
    × Trusted crypto format rotated.keys "factory/audit" rotated.trusted_root_key_id replacement
publish_transition-Trusted_example =
    publish_transition-Trusted crypto format envelope replacement ring rotated published
      (Trusted.at_root root-IsKeyFile)

-- The keyring once the new key is active.
abbrev activated : Keyring
activated = (activate crypto format replacement rotated).1

abbrev verification : AuditKeyringVerification
verification = record {
  active_key_id = replacement;
  key_ids = root ∷ replacement ∷ [];
  transition_ids = 1 ∷ [];
}

verified : verify_integrity crypto format activated "factory/audit" ≡ some (ok verification)
unfolding verify_integrity activate publish_transition is_hex_digest public_key_id find_file
    text_leb verifier_from_file verify_signature is_chain_id is_aware find_transition
verified = refl

verify_integrity-Trusted_example :
    (activated.active_key_id ≡ some replacement)
    × Trusted crypto format activated.keys "factory/audit" activated.trusted_root_key_id replacement
    × All
        (Trusted crypto format activated.keys "factory/audit" activated.trusted_root_key_id)
        (root ∷ replacement ∷ [])
    × AllArchived (root ∷ replacement ∷ []) activated.keys
verify_integrity-Trusted_example =
    verify_integrity-Trusted crypto format activated "factory/audit" verification verified

verify_integrity-ne-none_example : verify_integrity crypto format activated "factory/audit" ≢ none
verify_integrity-ne-none_example = verify_integrity-ne-none crypto format activated "factory/audit"

abbrev fresh : Replacement
fresh = record {
  transition_id = 1;
  created_at = utc 100;
  private_key = "new private";
  private_pem = "new private";
  public_pem = replacement;
}

abbrev key_rotator : KeyRotator
key_rotator = record {
  chain_id = "factory/audit";
  private_key = some "old private";
  public_key = some root;
  pending = [];
  ring = ring;
  owned = true;
}

rotate_outcome_example :
    ((result : AuditKeyRotationResult) × ((rotate crypto format fresh key_rotator).0 ≡ ok result)
      × HasRotated crypto format key_rotator fresh result
          (rotate crypto format fresh key_rotator).1)
    ⊎ ((x : RotatorError) × ((rotate crypto format fresh key_rotator).0 ≡ err x)
        × ((rotate crypto format fresh key_rotator).1.private_key ≡ some "old private"))
rotate_outcome_example = rotate_outcome crypto format fresh key_rotator

rotate_returns :
    (rotate crypto format fresh key_rotator).0
    ≡ ok (record { transition_id = 1; previous_key_id = root; new_key_id = replacement })
unfolding rotate prepare current_key_id verify_integrity is_hex_digest public_key_id find_file
    resolve_trusted_key same_content signer_from_file is_chain_id signed_transition new_transition
    is_aware write_once publish_transition text_leb verifier_from_file verify_signature
    find_transition activate remove_file validate_transition
rotate_returns = refl
