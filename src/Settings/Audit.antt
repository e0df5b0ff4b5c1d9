-- ===== src/Settings/Audit.antt =====
-- `OperatorAuditSettings`, `AuditKeyringSettings` and `AuditCheckpointSettings` of
-- src/smart_factory/config.py
pub mod Operator
pub mod Roots
use smart_factory_monitor.Common.{
  ℕ, Bool, true, false, not, ◌&&◌, ◌||◌, String, count, ◌==◌, Option, none, some, strip, Result, ok,
  err, ◌>>=◌, ◌>>◌, guard, if◌then◌else◌,
}
use smart_factory_monitor.Domain.{is_hex_digest, is_chain_id}
use smart_factory_monitor.Audit.Event.{OperatorAuditContext}
use smart_factory_monitor.Settings.{
  Host, Reads, SettingsError, is_none, optional_text, stripped_text, required_boolean,
  is_readable_file, absent_or_readable,
}

pub record OperatorAuditSettings : Type 0 where
  pub actor : String
  pub reason : String
  pub correlation_id : ℕ

-- `OperatorAuditSettings.context`, before its validation
unfoldable pub operator_context : OperatorAuditSettings → OperatorAuditContext
operator_context s = record {
  actor = s.actor;
  reason = s.reason;
  correlation_id = s.correlation_id;
}

pub record AuditKeyringSettings : Type 0 where
  pub chain_id : String
  pub keyring_path : String
  pub trusted_root_key_id : Option String
  pub trusted_root_key_id_path : Option String
  pub allow_colocated_trusted_root : Bool

pub record AuditCheckpointSettings : Type 0 where
  pub chain_id : String
  pub checkpoint_path : String
  pub public_key_path : String
  pub private_key_path : Option String
  pub keyring_path : Option String
  pub trusted_root_key_id : Option String
  pub trusted_root_key_id_path : Option String
  pub allow_colocated_trusted_root : Bool

unfoldable pub is_set : String → Bool
is_set text = not (count text == 0)

abbrev message : String → SettingsError
message = SettingsError.value_error

parsed_uuid : Option ℕ → Reads ℕ
parsed_uuid none = err (message "AUDIT_CORRELATION_ID must be a UUID")
parsed_uuid (some id) = ok id

-- A configured root has 64 lowercase hexadecimal digits.
unfoldable pub is_root_key_id : Option String → Bool
is_root_key_id none = true
is_root_key_id (some key_id) = is_hex_digest key_id

check_root_text : Option String → Reads String
check_root_text none =
    err (message "AUDIT_ATTESTATION_ROOT_KEY_ID_PATH must identify a readable file")
check_root_text (some text) = do
  guard (is_hex_digest (strip text)) (message "co-located trusted root audit key ID is invalid")
  ok (strip text)

-- Without a configured root the co-located mode and its path are required.
check_colocated : Bool → Option String → Reads (Unit {0})
check_colocated allow path = do
  guard allow (message "AUDIT_ATTESTATION_TRUSTED_ROOT_KEY_ID is required")
  guard (not (is_none path))
      (message "AUDIT_ATTESTATION_ROOT_KEY_ID_PATH is required for co-located root mode")

required_root : Bool → Option String → Bool → Option String → Reads (Unit {0})
unfolding check_colocated
required_root true none allow path = check_colocated allow path
required_root true (some key_id) allow path = ok tt
required_root false key_id allow path = ok tt

unfoldable pub given_if : Bool → Option String → Bool
given_if required path = not (required && is_none path)

module _ {F : Type 0} (h : Host F) where
  -- `OperatorAuditSettings.from_env`
  unfoldable pub operator_from_env : Reads OperatorAuditSettings
  unfolding parsed_uuid
  operator_from_env = do
    guard (is_set (stripped_text h "AUDIT_ACTOR"))
        (message "AUDIT_ACTOR is required for privileged operations")
    guard (is_set (stripped_text h "AUDIT_REASON"))
        (message "AUDIT_REASON is required for privileged operations")
    guard (is_set (stripped_text h "AUDIT_CORRELATION_ID"))
        (message "AUDIT_CORRELATION_ID is required for privileged operations")
    correlation_id ← parsed_uuid (h.uuid (stripped_text h "AUDIT_CORRELATION_ID"))
    ok record {
      actor = stripped_text h "AUDIT_ACTOR";
      reason = stripped_text h "AUDIT_REASON";
      correlation_id = correlation_id;
    }

  read_root : Bool → Option String → Reads String
  unfolding check_root_text
  read_root false path = err (message "AUDIT_ATTESTATION_TRUSTED_ROOT_KEY_ID is required")
  read_root true none =
      err (message "AUDIT_ATTESTATION_ROOT_KEY_ID_PATH is required for co-located root mode")
  read_root true (some path) = check_root_text (h.read_text path)

  -- `resolve_trusted_root_key_id`, the same in both classes
  unfoldable pub resolve_root : Option String → Option String → Bool → Reads String
  unfolding read_root
  resolve_root (some key_id) path allow = ok key_id
  resolve_root none path allow = read_root allow path

  unfoldable pub keyring_root : AuditKeyringSettings → Reads String
  keyring_root s =
      resolve_root s.trusted_root_key_id s.trusted_root_key_id_path s.allow_colocated_trusted_root

  unfoldable pub checkpoint_root : AuditCheckpointSettings → Reads String
  checkpoint_root s =
      resolve_root s.trusted_root_key_id s.trusted_root_key_id_path s.allow_colocated_trusted_root

  check_colocated_file : Option String → Bool → Option String → Reads (Unit {0})
  unfolding check_colocated
  check_colocated_file (some key_id) allow path = ok tt
  check_colocated_file none allow path = do
    check_colocated allow path
    guard (absent_or_readable h path)
        (message "AUDIT_ATTESTATION_ROOT_KEY_ID_PATH must identify a readable file")

  unfoldable pub is_directory : String → Bool
  is_directory path = is_set path && h.is_dir path

  -- `AuditKeyringSettings.from_env`
  unfoldable pub keyring_from_env : Reads AuditKeyringSettings
  unfolding check_colocated_file
  keyring_from_env = do
    allow ← required_boolean h "AUDIT_ATTESTATION_ALLOW_COLOCATED_ROOT" "false"
    guard (is_set (stripped_text h "AUDIT_CHAIN_ID"))
        (message "AUDIT_CHAIN_ID is required for audit checkpoints")
    guard (is_chain_id (stripped_text h "AUDIT_CHAIN_ID"))
        (message "AUDIT_CHAIN_ID contains unsupported characters")
    guard (is_directory (stripped_text h "AUDIT_ATTESTATION_KEYRING_PATH"))
        (message "AUDIT_ATTESTATION_KEYRING_PATH must identify a directory")
    guard (is_root_key_id (optional_text h "AUDIT_ATTESTATION_TRUSTED_ROOT_KEY_ID"))
        (message "AUDIT_ATTESTATION_TRUSTED_ROOT_KEY_ID must be 64 lowercase hex")
    check_colocated_file (optional_text h "AUDIT_ATTESTATION_TRUSTED_ROOT_KEY_ID") allow
        (optional_text h "AUDIT_ATTESTATION_ROOT_KEY_ID_PATH")
    ok record {
      chain_id = stripped_text h "AUDIT_CHAIN_ID";
      keyring_path = stripped_text h "AUDIT_ATTESTATION_KEYRING_PATH";
      trusted_root_key_id = optional_text h "AUDIT_ATTESTATION_TRUSTED_ROOT_KEY_ID";
      trusted_root_key_id_path = optional_text h "AUDIT_ATTESTATION_ROOT_KEY_ID_PATH";
      allow_colocated_trusted_root = allow;
    }

  unfoldable pub absent_or_directory : Option String → Bool
  absent_or_directory none = true
  absent_or_directory (some path) = h.is_dir path

  -- A path that the co-located mode reads names a readable file.
  unfoldable pub readable_if : Bool → Option String → Bool
  readable_if allow path = not allow || absent_or_readable h path

  -- The tests of `from_env` on the paths that it has read
  unfoldable pub check_checkpoint_files : AuditCheckpointSettings → Reads AuditCheckpointSettings
  check_checkpoint_files s = do
    guard (is_readable_file h s.public_key_path)
        (SettingsError.unreadable_file "AUDIT_ATTESTATION_PUBLIC_KEY_PATH")
    guard (absent_or_readable h s.private_key_path)
        (SettingsError.unreadable_file "AUDIT_ATTESTATION_PRIVATE_KEY_PATH")
    guard (absent_or_directory s.keyring_path)
        (message "AUDIT_ATTESTATION_KEYRING_PATH must identify a directory")
    guard (readable_if s.allow_colocated_trusted_root s.trusted_root_key_id_path)
        (message "AUDIT_ATTESTATION_ROOT_KEY_ID_PATH must identify a readable file")
    ok s

  unfoldable pub check_checkpoint :
      Bool → Bool → AuditCheckpointSettings → Reads AuditCheckpointSettings
  unfolding required_root
  check_checkpoint require_private_key require_keyring s = do
    guard (is_set s.chain_id) (message "AUDIT_CHAIN_ID is required for audit checkpoints")
    guard (is_chain_id s.chain_id) (message "AUDIT_CHAIN_ID contains unsupported characters")
    guard (is_set s.checkpoint_path)
        (message "AUDIT_CHECKPOINT_PATH is required for audit checkpoints")
    guard (is_set s.public_key_path) (message "AUDIT_ATTESTATION_PUBLIC_KEY_PATH is required")
    guard (given_if require_private_key s.private_key_path)
        (message "AUDIT_ATTESTATION_PRIVATE_KEY_PATH is required for export")
    guard (given_if require_keyring s.keyring_path)
        (message "AUDIT_ATTESTATION_KEYRING_PATH is required")
    guard (is_root_key_id s.trusted_root_key_id)
        (message "AUDIT_ATTESTATION_TRUSTED_ROOT_KEY_ID must be 64 lowercase hex")
    required_root require_keyring s.trusted_root_key_id s.allow_colocated_trusted_root
        s.trusted_root_key_id_path
    check_checkpoint_files s

  -- `AuditCheckpointSettings.from_env`
  unfoldable pub checkpoint_from_env : Bool → Bool → Reads AuditCheckpointSettings
  checkpoint_from_env require_private_key require_keyring = do
    allow ← required_boolean h "AUDIT_ATTESTATION_ALLOW_COLOCATED_ROOT" "false"
    check_checkpoint require_private_key require_keyring record {
      chain_id = stripped_text h "AUDIT_CHAIN_ID";
      checkpoint_path = stripped_text h "AUDIT_CHECKPOINT_PATH";
      public_key_path = stripped_text h "AUDIT_ATTESTATION_PUBLIC_KEY_PATH";
      private_key_path = optional_text h "AUDIT_ATTESTATION_PRIVATE_KEY_PATH";
      keyring_path = optional_text h "AUDIT_ATTESTATION_KEYRING_PATH";
      trusted_root_key_id = optional_text h "AUDIT_ATTESTATION_TRUSTED_ROOT_KEY_ID";
      trusted_root_key_id_path = optional_text h "AUDIT_ATTESTATION_ROOT_KEY_ID_PATH";
      allow_colocated_trusted_root = allow;
    }
