-- ===== src/Release/Sboms.antt =====
-- `_validate_base64`, `_validate_encrypted_sbom` and `_validate_sbom_plaintext` of
-- src/smart_factory/release_verification.py.
use smart_factory_monitor.Common.{
  ℕ, ℤ, Bool, false, not, ◌&&◌, ◌==◌, leb, String, count, Option, none, some, List, str_eq, ok,
  ◌>>=◌, ◌>>◌, guard,
}
use smart_factory_monitor.Release.Json.{
  Json, Members, no_members, member_of, get, as_text, as_integer, as_object, has_value,
}
use smart_factory_monitor.Release.Files.{
  Entry, Checks, ReleaseTools, given, plain_name, natural, digest_of, read_json, validate_record,
}

abbrev pub encryption_algorithm : String
encryption_algorithm = "RSA-OAEP-SHA256+A256GCM"

-- What an SBOM is expected to be.
pub record Sbom : Type 0 where
  pub version : String
  pub revision : String
  pub scope : String
  pub plaintext_name : String
  pub encrypted_name : String

unfoldable pub release_identity : String → String → String → Json
release_identity version revision name = Json.object (
    member_of "name" (Json.text name) (
      member_of "revision" (Json.text revision)
        (member_of "version" (Json.text version) no_members)))

unfoldable pub is_positive : Option ℕ → Bool
is_positive none = false
is_positive (some n) = leb 1 n

unfoldable pub is_nonempty_text : String → Bool
is_nonempty_text s = not (count s == 0)

-- The tests of the metadata before the encrypted file is looked at
unfoldable pub check_metadata : Sbom → Members → Checks (Unit {0})
check_metadata sbom metadata = do
  guard (has_value (get "format" metadata) (Json.text "SPDX-2.x")) "SBOM metadata is invalid"
  guard (has_value (get "scope" metadata) (Json.text sbom.scope)) "SBOM metadata is invalid"
  name ← plain_name (get "name" metadata)
  guard (str_eq name sbom.plaintext_name) "SBOM metadata is invalid"
  digest ← given "SBOM metadata is invalid" (digest_of (get "sha256" metadata))
  guard (is_positive (natural (as_integer (get "package_count" metadata))))
      "SBOM metadata is invalid"

unfoldable pub is_envelope : Sbom → String → Members → Bool
is_envelope sbom recipient envelope =
    has_value (get "schema_version" envelope) (Json.integer (ℤ.pos 1))
    && has_value (get "algorithm" envelope) (Json.text encryption_algorithm)
    && has_value (get "authenticated_release" envelope)
        (release_identity sbom.version sbom.revision sbom.plaintext_name)
    && has_value (get "recipient_key_sha256" envelope) (Json.text recipient)

unfoldable pub has_fields : String → String → String → Bool
has_fields encrypted_key nonce ciphertext =
    not (count encrypted_key == 0) && count nonce == 12 && leb 16 (count ciphertext)

module _ (tools : ReleaseTools) where
  -- `_validate_base64`
  unfoldable pub validate_base64 : Option Json → Checks String
  validate_base64 value = do
    text ← given "encrypted SBOM field is invalid" (as_text value)
    guard (is_nonempty_text text) "encrypted SBOM field is invalid"
    given "encrypted SBOM field is invalid" (tools.b64decode text)

  -- The envelope in the encrypted file
  unfoldable pub check_envelope : Sbom → String → Members → Checks (Unit {0})
  check_envelope sbom recipient envelope = do
    guard (is_envelope sbom recipient envelope) "encrypted SBOM identity is invalid"
    encrypted_key ← validate_base64 (get "encrypted_key" envelope)
    nonce ← validate_base64 (get "nonce" envelope)
    ciphertext ← validate_base64 (get "ciphertext" envelope)
    guard (has_fields encrypted_key nonce ciphertext)
        "encrypted SBOM cryptographic fields are invalid"

  -- `_validate_encrypted_sbom`, with the fingerprint of the recipient
  unfoldable pub validate_encrypted_sbom :
      List (String × Entry) → Option Json → Sbom → Checks String
  validate_encrypted_sbom entries metadata_value sbom = do
    metadata ← given "SBOM metadata is invalid" (as_object metadata_value)
    check_metadata sbom metadata
    content ← validate_record tools entries (get "encrypted" metadata) sbom.encrypted_name none
    encrypted ← given "encrypted SBOM algorithm is invalid" (as_object (get "encrypted" metadata))
    guard (has_value (get "algorithm" encrypted) (Json.text encryption_algorithm))
        "encrypted SBOM algorithm is invalid"
    recipient ←
        given "encrypted SBOM recipient fingerprint is invalid"
          (digest_of (get "recipient_key_sha256" encrypted))
    envelope ← read_json tools entries sbom.encrypted_name
    check_envelope sbom recipient envelope
    ok recipient
