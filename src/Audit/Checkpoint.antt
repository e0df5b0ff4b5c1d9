-- ===== src/Audit/Checkpoint.antt =====
-- src/smart_factory/infrastructure/audit/checkpoint.py and domain/audit_checkpoint.py: signed,
-- portable statements about a verified audit chain.
pub mod RoundTrip
use smart_factory_monitor.Common.{
  ℕ, String, count, ◌<>◌, Bool, true, false, not, ◌&&◌, Option, none, some, leb, ◌==◌, ltb, str_eq,
  Result, ok, err, ◌>>=◌, ◌>>◌, guard, if◌then◌else◌, List, [], ◌∷◌, length,
}
use smart_factory_monitor.Domain.{Datetime, is_aware, is_hex_digest, is_chain_id}
use smart_factory_monitor.Signing.{
  Crypto, LoadedKey, ArtifactSigningError, verifier_from_file, verify_signature,
}
use smart_factory_monitor.Audit.Chain.{AuditChainVerification}

pub record AuditCheckpoint : Type 0 where
  pub checkpoint_id : ℕ
  pub chain_id : String
  pub created_at : Datetime
  pub event_count : ℕ
  pub head_hash : String
  pub key_id : String

pub record SignedAuditCheckpoint : Type 0 where
  pub checkpoint : AuditCheckpoint
  pub signature : String

-- `AuditCheckpointError`, by its message, and the two exceptions that are not turned into one.
pub data AuditCheckpointError : Type 0 where
  unreadable_public_key public_key_not_ed25519 invalid_chain key_pair_mismatch :
      AuditCheckpointError
  unexpected_chain key_identity_mismatch invalid_signature : AuditCheckpointError
  too_large destination_exists unreadable_checkpoint : AuditCheckpointError
  validation_error signing_error : AuditCheckpointError

-- The functions of `json` and pydantic that the module calls: the canonical JSON of a checkpoint
-- (keys sorted), the indented JSON of an envelope, and the parser of that.
pub record CheckpointFormat : Type 0 where
  pub canonical_json : AuditCheckpoint → String
  pub model_dump_json : SignedAuditCheckpoint → String
  pub model_validate_json : String → Option SignedAuditCheckpoint
  pub byte_length : String → ℕ

-- Constructing an `AuditCheckpoint`. Its schema version is always 1.
unfoldable pub validate_checkpoint : AuditCheckpoint → Result AuditCheckpointError AuditCheckpoint
validate_checkpoint k =
    if is_chain_id k.chain_id
      && is_aware k.created_at
      && is_hex_digest k.head_hash
      && is_hex_digest k.key_id
    then ok k
    else err AuditCheckpointError.validation_error

-- `except ArtifactSigningError as error: raise AuditCheckpointError(...)`
abbrev pub signing_as {ℓ} :
    {A : Type ℓ}
    → AuditCheckpointError
    → Result ArtifactSigningError A
    → Result AuditCheckpointError A
signing_as e (ok a) = ok a
signing_as e (err x) = err e

module _ (c : Crypto) where
  key_id_of : Option LoadedKey → Result AuditCheckpointError String
  key_id_of none = err AuditCheckpointError.unreadable_public_key
  key_id_of (some LoadedKey.other_kind) = err AuditCheckpointError.public_key_not_ed25519
  key_id_of (some (LoadedKey.ed25519 key)) = ok (c.sha256_hexdigest (c.public_key_der key))

  unfoldable pub public_key_id : Option String → Result AuditCheckpointError String
  unfolding key_id_of
  public_key_id none = err AuditCheckpointError.unreadable_public_key
  public_key_id (some pem) = key_id_of (c.load_pem_public_key pem)

  abbrev pub check_signature :
      Option String → String → String → Result ArtifactSigningError (Unit {0})
  check_signature public_pem payload signature =
      verifier_from_file c public_pem >>= λ key. verify_signature c key payload signature

abbrev signature_is_valid : (String → ℕ) → Option String → Bool
signature_is_valid byte_length none = false
signature_is_valid byte_length (some decoded) = byte_length decoded == 64

module _ (c : Crypto) (format : CheckpointFormat) where
  -- Constructing a `SignedAuditCheckpoint`.
  unfoldable pub validate_envelope :
      SignedAuditCheckpoint → Result AuditCheckpointError SignedAuditCheckpoint
  validate_envelope envelope =
      if leb 1 (count envelope.signature)
        && leb (count envelope.signature) 128
        && signature_is_valid format.byte_length (c.b64decode envelope.signature)
      then ok envelope
      else err AuditCheckpointError.validation_error

  -- `create_signed_checkpoint`. The fresh id and the time are arguments; the signer is the loaded
  -- private key, and the public key a file.
  unfoldable pub create_signed_checkpoint :
      AuditChainVerification
      → String
      → String
      → Option String
      → ℕ
      → Datetime
      → Result AuditCheckpointError SignedAuditCheckpoint
  unfolding verify_signature
  create_signed_checkpoint verification chain_id private_key public_pem checkpoint_id created_at =
      do
        guard verification.valid AuditCheckpointError.invalid_chain
        key_id ← public_key_id c public_pem
        checkpoint ← validate_checkpoint (record {
          checkpoint_id = checkpoint_id;
          chain_id = chain_id;
          created_at = created_at;
          event_count = verification.event_count;
          head_hash = verification.head_hash;
          key_id = key_id;
        })
        let payload = format.canonical_json checkpoint
        let signature = c.sign private_key payload
        signing_as AuditCheckpointError.key_pair_mismatch
            (check_signature c public_pem payload signature)
        validate_envelope (record { checkpoint = checkpoint; signature = c.b64encode signature })

  abbrev decoded : Option String → Result AuditCheckpointError String
  decoded none = err AuditCheckpointError.validation_error
  decoded (some s) = ok s

  -- `verify_signed_checkpoint`, with the verifier's key already loaded.
  unfoldable pub verify_signed_checkpoint :
      SignedAuditCheckpoint
      → String
      → Option String
      → String
      → Result AuditCheckpointError AuditCheckpoint
  unfolding verify_signature
  verify_signed_checkpoint envelope verifier public_pem expected_chain_id = do
    let checkpoint = envelope.checkpoint
    guard (str_eq checkpoint.chain_id expected_chain_id) AuditCheckpointError.unexpected_chain
    key_id ← public_key_id c public_pem
    guard (str_eq checkpoint.key_id key_id) AuditCheckpointError.key_identity_mismatch
    signature ← decoded (c.b64decode envelope.signature)
    signing_as AuditCheckpointError.invalid_signature
        (verify_signature c verifier (format.canonical_json checkpoint) signature)
    ok checkpoint

  abbrev pub max_checkpoint_bytes : ℕ
  max_checkpoint_bytes = 65536

  -- `write_signed_checkpoint` at a path that holds this content: the new content of the path.
  unfoldable pub write_signed_checkpoint :
      Option String → SignedAuditCheckpoint → Result AuditCheckpointError String
  write_signed_checkpoint present envelope = do
    let payload = format.model_dump_json envelope <> "\n"
    guard (leb (format.byte_length payload) max_checkpoint_bytes) AuditCheckpointError.too_large
    elim present [ none ↦ ok payload | some _ ↦ err AuditCheckpointError.destination_exists ]

  -- What pydantic makes of the parsed JSON: the envelope and its checkpoint are validated.
  parsed : Option SignedAuditCheckpoint → Result AuditCheckpointError SignedAuditCheckpoint
  unfolding validate_checkpoint validate_envelope
  parsed none = err AuditCheckpointError.unreadable_checkpoint
  parsed (some envelope) = elim (validate_checkpoint envelope.checkpoint) [
    | err _ ↦ err AuditCheckpointError.unreadable_checkpoint
    | ok _ ↦ elim (validate_envelope envelope) [
      | err _ ↦ err AuditCheckpointError.unreadable_checkpoint
      | ok _ ↦ ok envelope
    ]
  ]

  -- `load_signed_checkpoint` of a path with this content.
  unfoldable pub load_signed_checkpoint :
      Option String → Result AuditCheckpointError SignedAuditCheckpoint
  unfolding parsed
  load_signed_checkpoint none = err AuditCheckpointError.unreadable_checkpoint
  load_signed_checkpoint (some payload) = do
    guard (leb (format.byte_length payload) max_checkpoint_bytes) AuditCheckpointError.too_large
    parsed (format.model_validate_json payload)
