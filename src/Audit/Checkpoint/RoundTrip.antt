-- ===== src/Audit/Checkpoint/RoundTrip.antt =====
-- A checkpoint that was created and written is loaded and verified.

use smart_factory_monitor.Common.{
  ℕ, String, ◌<>◌, ◌≡◌, true, Option, none, some, arith, eq_iff, ok, Result-cases, inl, inr,
}
use smart_factory_monitor.Domain.{Datetime}
use smart_factory_monitor.Signing.{Crypto, IsCodec, verifier_from_file, verify_signature}
use smart_factory_monitor.Audit.Chain.{AuditChainVerification}
use smart_factory_monitor.Audit.Checkpoint.{
  SignedAuditCheckpoint, CheckpointFormat, validate_checkpoint, validate_envelope, public_key_id,
  create_signed_checkpoint, verify_signed_checkpoint, write_signed_checkpoint,
  load_signed_checkpoint, check_signature,
}

module _ (c : Crypto) (format : CheckpointFormat) where
  -- What a created envelope states and is signed with.
  record IsCreated (v : AuditChainVerification) (chain_id private_key : String)
      (public_pem : Option String) (envelope : SignedAuditCheckpoint) : Type 0 where
    pub was_valid : v.valid ≡ true
    pub valid_checkpoint : validate_checkpoint envelope.checkpoint ≡ ok envelope.checkpoint
    pub valid_envelope : validate_envelope c format envelope ≡ ok envelope
    pub chain : envelope.checkpoint.chain_id ≡ chain_id
    pub count : envelope.checkpoint.event_count ≡ v.event_count
    pub head : envelope.checkpoint.head_hash ≡ v.head_hash
    pub identity : public_key_id c public_pem ≡ ok envelope.checkpoint.key_id
    pub signature :
        envelope.signature
        ≡ c.b64encode (c.sign private_key (format.canonical_json envelope.checkpoint))
    pub checked :
        check_signature c public_pem
          (format.canonical_json envelope.checkpoint)
          (c.sign private_key (format.canonical_json envelope.checkpoint))
        ≡ ok tt

  IsCreated-of_create :
      (v : AuditChainVerification) (chain_id private_key : String) (public_pem : Option String)
      (checkpoint_id : ℕ) (now : Datetime) (envelope : SignedAuditCheckpoint)
      → create_signed_checkpoint c format v chain_id private_key public_pem checkpoint_id now
        ≡ ok envelope
      → IsCreated v chain_id private_key public_pem envelope
  unfolding create_signed_checkpoint validate_checkpoint validate_envelope
  IsCreated-of_create v chain_id private_key public_pem checkpoint_id now envelope h = ground arith

  checked-verifier :
      (public_pem : Option String) (payload signature : String)
      → check_signature c public_pem payload signature ≡ ok tt
      → (key : String) × (verifier_from_file c public_pem ≡ ok key)
        × (c.verify key payload signature ≡ true)
  unfolding verify_signature
  checked-verifier public_pem payload signature h =
      elim (Result-cases (verifier_from_file c public_pem)) [
        | inl (key, p) ↦ (key, p, ground arith)
        | inr (x, p) ↦ cc (p, h)
      ]

  module _ (codec : IsCodec c) where
    -- The envelope verifies under the key of the same public file, and gives the checkpoint back.
    verify-create :
        (v : AuditChainVerification) (chain_id private_key : String) (public_pem : Option String)
        (envelope : SignedAuditCheckpoint)
        → IsCreated v chain_id private_key public_pem envelope
        → (key : String) × (verifier_from_file c public_pem ≡ ok key)
          × (verify_signed_checkpoint c format envelope key public_pem chain_id
              ≡ ok envelope.checkpoint)
    unfolding verify_signed_checkpoint verify_signature
    verify-create v chain_id private_key public_pem envelope made =
        let open_key = checked-verifier public_pem _ _ made.checked in
        let kept =
          codec.b64decode-b64encode
            (c.sign private_key (format.canonical_json envelope.checkpoint)) in
        (
          open_key.0,
          open_key.1,
          ground (
            arith,
            made.chain,
            made.identity,
            made.signature,
            kept,
            open_key.2,
            eq_iff envelope.checkpoint.chain_id chain_id,
            eq_iff envelope.checkpoint.key_id envelope.checkpoint.key_id,
          ),
        )

    -- What a round trip through a file gives.
    pub record IsReadBack (v : AuditChainVerification) (chain_id : String)
        (public_pem : Option String) (envelope : SignedAuditCheckpoint) (content : String)
        : Type 0 where
      pub loads : load_signed_checkpoint c format (some content) ≡ ok envelope
      pub key : String
      pub key_loads : verifier_from_file c public_pem ≡ ok key
      pub verifies :
          verify_signed_checkpoint c format envelope key public_pem chain_id
          ≡ ok envelope.checkpoint
      pub count : envelope.checkpoint.event_count ≡ v.event_count
      pub head : envelope.checkpoint.head_hash ≡ v.head_hash

    -- Take any checkpoint that `create_signed_checkpoint` returns and `write_signed_checkpoint`
    -- accepts, where pydantic parses the JSON text that it printed. The destination was free, the
    -- file loads as the same envelope, the public key that was given verifies it for the same
    -- chain, and it states the count and the head of the verification.
    pub load-write-create :
        (v : AuditChainVerification) (chain_id private_key : String) (public_pem : Option String)
        (checkpoint_id : ℕ) (now : Datetime) (envelope : SignedAuditCheckpoint)
        (present : Option String) (content : String)
        → (format.model_validate_json (format.model_dump_json envelope <> "\n") ≡ some envelope)
        → create_signed_checkpoint c format v chain_id private_key public_pem checkpoint_id now
          ≡ ok envelope
        → write_signed_checkpoint c format present envelope ≡ ok content
        → (present ≡ none) × IsReadBack v chain_id public_pem envelope content
    unfolding write_signed_checkpoint load_signed_checkpoint
    load-write-create v chain_id private_key public_pem checkpoint_id now envelope present content
          parses h w =
        let made =
          IsCreated-of_create v chain_id private_key public_pem checkpoint_id now envelope h in
        let found = verify-create v chain_id private_key public_pem envelope made in
        (
          ground arith,
          record {
            loads = ground (arith, w, parses, made.valid_checkpoint, made.valid_envelope);
            key = found.0;
            key_loads = found.1;
            verifies = found.2;
            count = made.count;
            head = made.head;
          },
        )
