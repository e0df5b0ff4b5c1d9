-- ===== src/Tests/Audit.antt =====
-- Two audit events in a chain, a chain that was tampered with, and a checkpoint. The digest of the
-- tests is one text of 64 characters for every input.
use smart_factory_monitor.Common.{
  arith, ℕ, String, count, false, ◌≡◌, ◌↔◌, ◌⊎◌, refl, List, [], ◌∷◌, length, Option, none, some,
  str_eq, ok, All,
}
use smart_factory_monitor.Domain.{utc, is_aware, is_hex_digest, is_chain_id}
use smart_factory_monitor.Signing.{Crypto, IsCodec, LoadedKey, verifier_from_file, verify_signature}
use smart_factory_monitor.Audit.Event.{
  AuditValue, OperatorAction, OperatorActionOutcome, OperatorAuditEvent, validate_event,
  keys_unique, error_type_matches, parse_action, parse_outcome,
}
use smart_factory_monitor.Audit.Chain.{
  Encoding, AuditRow, AuditChainVerification, genesis_hash, sorted_items, event_hash,
  event_from_row, verify,
}
use smart_factory_monitor.Audit.Chain.Links.{
  Linked, confirmed, FirstBad, verify-eq-confirmed_iff, verify-FirstBad,
}
use smart_factory_monitor.Audit.Chain.Growth.{
  IsStorable, Ascending, append_all, chain_head, verify-append_all,
}
use smart_factory_monitor.Audit.Chain.Tampering.{Collide, SameRecords, verify-SameRecords}
use smart_factory_monitor.Audit.Checkpoint.{
  SignedAuditCheckpoint, CheckpointFormat, validate_checkpoint, validate_envelope, public_key_id,
  create_signed_checkpoint, write_signed_checkpoint,
}
use smart_factory_monitor.Audit.Checkpoint.RoundTrip.{IsReadBack, load-write-create}

abbrev digest : String
digest = "abababababababababababababababababababababababababababababababab"

abbrev encoding : Encoding
encoding = record {
  dumps = λ document. "{}";
  sha256_hexdigest = λ s. digest;
  isoformat_utc = λ t. "t";
  uuid_text = λ n. "u";
  jsonb = λ state. state;
}

abbrev started : OperatorAuditEvent
started = record {
  event_id = 1;
  occurred_at = utc 100;
  actor = "ada";
  reason = "quarterly review";
  correlation_id = 9;
  action = OperatorAction.model_promotion;
  outcome = OperatorActionOutcome.started;
  previous_state = [];
  resulting_state = ("models", AuditValue.texts ("m1" ∷ [])) ∷ [];
  error_type = none;
}

abbrev failed : OperatorAuditEvent
failed = record started {
  event_id = 2;
  occurred_at = utc 200;
  outcome = OperatorActionOutcome.failed;
  error_type = some "MlArtifactError";
}

abbrev history : List (ℕ × OperatorAuditEvent)
history = (1, started) ∷ (2, failed) ∷ []

history-valid : All (λ entry. IsStorable encoding entry.1) history
unfolding validate_event keys_unique error_type_matches is_aware
history-valid = (
  record { valid = refl; previous = refl; resulting = refl },
  (record { valid = refl; previous = refl; resulting = refl }, tt),
)

history-Ascending : Ascending encoding 0 history
history-Ascending = (omega arith, (omega arith, tt))

verify-append_all_example :
    verify encoding (append_all encoding [] history)
    ≡ ok (confirmed (length history) (chain_head encoding genesis_hash history))
verify-append_all_example = verify-append_all encoding history history-valid history-Ascending

abbrev rows : List AuditRow
rows = append_all encoding [] history

abbrev head : String
head = chain_head encoding genesis_hash history

verify-eq-confirmed_iff_example :
    (verify encoding rows ≡ ok (confirmed 2 head))
    ↔ (Linked encoding genesis_hash rows head × (2 ≡ length rows))
verify-eq-confirmed_iff_example = verify-eq-confirmed_iff encoding rows 2 head

-- The same actions for another reason: the test's digest does not tell them apart.
abbrev rewritten : List (ℕ × OperatorAuditEvent)
rewritten = (1, record started { reason = "none given" }) ∷ (2, failed) ∷ []

rewritten-valid : All (λ entry. IsStorable encoding entry.1) rewritten
unfolding validate_event keys_unique error_type_matches is_aware
rewritten-valid = (
  record { valid = refl; previous = refl; resulting = refl },
  (record { valid = refl; previous = refl; resulting = refl }, tt),
)

rewritten-Ascending : Ascending encoding 0 rewritten
rewritten-Ascending = (omega arith, (omega arith, tt))

same-head : chain_head encoding genesis_hash rewritten ≡ head
unfolding chain_head event_hash
same-head = refl

verify-SameRecords_example :
    SameRecords encoding rows (append_all encoding [] rewritten)
    ⊎ Collide encoding rows (append_all encoding [] rewritten)
verify-SameRecords_example =
    verify-SameRecords encoding (λ s. refl) rows (append_all encoding [] rewritten) 2 head
      verify-append_all_example
      (rw same-head at (verify-append_all encoding rewritten rewritten-valid rewritten-Ascending))

-- A row whose stored hash is not its event's.
abbrev forged : AuditRow
forged = record {
  sequence_number = 7;
  event_id = 1;
  occurred_at = 100;
  actor = "eve";
  reason = "quarterly review";
  correlation_id = 9;
  action = "model_promotion";
  outcome = "started";
  previous_state = [];
  resulting_state = [];
  error_type = none;
  previous_hash = genesis_hash;
  event_hash = genesis_hash;
}

abbrev rejected : AuditChainVerification
rejected = record {
  valid = false;
  event_count = 1;
  head_hash = genesis_hash;
  invalid_sequence_number = some 7;
}

forged-rejected : verify encoding (forged ∷ []) ≡ ok rejected
unfolding verify event_from_row parse_action parse_outcome sorted_items validate_event keys_unique
    error_type_matches is_aware event_hash
forged-rejected = refl

verify-FirstBad_example : FirstBad encoding genesis_hash (forged ∷ []) rejected
verify-FirstBad_example = verify-FirstBad encoding (forged ∷ []) rejected forged-rejected refl

-- Signatures of one text, which every key accepts.
abbrev crypto : Crypto
crypto = record {
  load_pem_private_key = λ pem. some (LoadedKey.ed25519 pem);
  load_pem_public_key = λ pem. some (LoadedKey.ed25519 pem);
  public_key_der = λ key. key;
  sign = λ key payload. digest;
  verify = λ key payload signature. str_eq signature digest;
  sha256_hexdigest = λ s. digest;
  b64encode = λ s. s;
  b64decode = λ s. some s;
}

abbrev envelope : SignedAuditCheckpoint
envelope = record {
  checkpoint = record {
    checkpoint_id = 3;
    chain_id = "factory/audit";
    created_at = utc 300;
    event_count = 2;
    head_hash = digest;
    key_id = digest;
  };
  signature = digest;
}

abbrev format : CheckpointFormat
format = record {
  canonical_json = λ checkpoint. "{}";
  model_dump_json = λ e. "{}";
  model_validate_json = λ s. some envelope;
  byte_length = count;
}

codec : IsCodec crypto
codec = record { b64decode-b64encode = λ s. refl }

envelope-created :
    create_signed_checkpoint crypto format
      (confirmed 2 digest)
      "factory/audit"
      "private"
      (some "public")
      3
      (utc 300)
    ≡ ok envelope
unfolding create_signed_checkpoint public_key_id validate_checkpoint validate_envelope
    verify_signature verifier_from_file is_aware is_hex_digest is_chain_id
envelope-created = refl

envelope-written : write_signed_checkpoint crypto format none envelope ≡ ok "{}\n"
unfolding write_signed_checkpoint
envelope-written = refl

load-write-create_example :
    (◌≡◌ {A = Option String} none none)
    × IsReadBack crypto format codec
        (confirmed 2 digest)
        "factory/audit"
        (some "public")
        envelope
        "{}\n"
load-write-create_example =
    load-write-create crypto format codec (confirmed 2 digest) "factory/audit" "private"
      (some "public") 3 (utc 300) envelope none "{}\n" refl envelope-created envelope-written
