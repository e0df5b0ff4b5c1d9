-- ===== src/Release/Verification.antt =====
-- The whole of `verify_release_bundle` of src/smart_factory/release_verification.py: the bundle,
-- its signature, the recipient's public key, and the recovery of the private SBOMs.
use smart_factory_monitor.Common.{
  ℕ, Bool, true, false, ◌==◌, String, Option, none, some, List, [], ◌∷◌, str_eq, ok, ◌>>=◌, ◌>>◌,
  guard,
}
use smart_factory_monitor.Signing.{Crypto}
use smart_factory_monitor.Release.Json.{
  Json, get, as_text, as_integer, as_object, as_array, size_items,
}
use smart_factory_monitor.Release.Patterns.{after}
use smart_factory_monitor.Release.Files.{
  Entry, Directory, Checks, ReleaseTools, find_entry, given, natural, digest_of, read_json,
}
use smart_factory_monitor.Release.Bundle.{
  Release, Expectations, SignatureFile, ml_encrypted_name, container_encrypted_name, verify_bundle,
}
use smart_factory_monitor.Release.Signature.{SigningKeys, verify_release_signature}
use smart_factory_monitor.Release.Encryption.{
  Ciphers, Output, fingerprint_from_file, decrypt_release_evidence,
}

-- A recovered SBOM: its packages and its digest
pub record RecoveredSbom : Type 0 where
  pub package_count : ℕ
  pub sha256 : String

-- What `verify_release_bundle` returns.
pub record Verification : Type 0 where
  pub release : Release
  pub release_signature : Option String
  pub public_key_verified : Bool
  pub recovered_sboms : Option (RecoveredSbom × RecoveredSbom)

-- A missing `spdxVersion` is the empty text, and a value that is no text prints as one without the
-- prefix.
unfoldable pub is_spdx : Option Json → Bool
is_spdx value = elim (as_text value) [
  | none ↦ false
  | some version ↦ elim (after "SPDX-2." version) [ none ↦ false | some rest ↦ true ]
]

-- The two inputs of a signature are given together.
unfoldable pub given_together : Option SignatureFile → Option Entry → Bool
given_together none none = true
given_together (some file) (some key) = true
given_together none (some key) = false
given_together (some file) none = false

abbrev temporary : Output
temporary = record { exists = false; parent_is_real = true }

module _ (c : Crypto) (keys : SigningKeys) (ciphers : Ciphers) (tools : ReleaseTools) where
  -- `_validate_sbom_plaintext`, of the digest and the package count in the manifest
  unfoldable pub validate_sbom_plaintext : String → String → ℕ → Checks RecoveredSbom
  validate_sbom_plaintext plaintext digest package_count = do
    guard (str_eq (tools.sha256 plaintext) digest)
        "recovered SBOM digest does not match the manifest"
    document ← read_json tools (("sbom", Entry.regular plaintext) ∷ []) "sbom"
    guard (is_spdx (get "spdxVersion" document)) "recovered SBOM is not an SPDX 2.x document"
    packages ←
        given "recovered SBOM package count does not match the manifest"
          (as_array (get "packages" document))
    guard (size_items packages == package_count)
        "recovered SBOM package count does not match the manifest"
    ok record { package_count = size_items packages; sha256 = digest }

  -- One round of `_recover_sboms`
  unfoldable pub recover_sbom :
      List (String × Entry)
      → Release
      → String
      → Option Json
      → Entry
      → Option String
      → Checks RecoveredSbom
  recover_sbom entries release encrypted_name metadata_value private_key_file password = do
    metadata ← given "SBOM metadata is invalid" (as_object metadata_value)
    digest ← given "SBOM metadata is invalid" (digest_of (get "sha256" metadata))
    package_count ←
        given "SBOM metadata is invalid" (natural (as_integer (get "package_count" metadata)))
    source ←
        given "encrypted release evidence must be a regular file"
          (find_entry encrypted_name entries)
    plaintext ←
        decrypt_release_evidence ciphers tools source temporary private_key_file release.version
          release.revision password
    validate_sbom_plaintext plaintext digest package_count

  -- `_recover_sboms`
  unfoldable pub recover_sboms :
      List (String × Entry)
      → Release
      → Entry
      → Option String
      → Checks (RecoveredSbom × RecoveredSbom)
  recover_sboms entries release private_key_file password = do
    manifest ← read_json tools entries "release-manifest.json"
    container ← given "container metadata is invalid" (as_object (get "container" manifest))
    ml ←
        recover_sbom entries release (ml_encrypted_name release.version) (get "sbom" manifest)
          private_key_file password
    image ←
        recover_sbom entries release (container_encrypted_name release.version)
          (get "sbom" container) private_key_file password
    ok (ml, image)

  verified_signature :
      List (String × Entry) → Option SignatureFile → Option Entry → Release → Checks (Option String)
  verified_signature entries (some file) (some key) release = do
    fingerprint ← verify_release_signature c keys tools entries file key release
    ok (some fingerprint)
  verified_signature entries none key release = ok none
  verified_signature entries (some file) none release = ok none

  verified_public_key : Option Entry → Release → Checks Bool
  verified_public_key none release = ok false
  verified_public_key (some file) release = do
    fingerprint ← fingerprint_from_file ciphers tools file
    guard (str_eq fingerprint release.recipient_key_sha256)
        "public key does not match the release recipient fingerprint"
    ok true

  recovered :
      List (String × Entry)
      → Release
      → Option Entry
      → Option String
      → Checks (Option (RecoveredSbom × RecoveredSbom))
  recovered entries release none password = ok none
  recovered entries release (some file) password = do
    sboms ← recover_sboms entries release file password
    ok (some sboms)

  -- `verify_release_bundle`
  unfoldable pub verify_release_bundle :
      Directory
      → Expectations
      → Option SignatureFile
      → Option Entry
      → Option Entry
      → Option Entry
      → Option String
      → Checks Verification
  unfolding verified_signature verified_public_key recovered
  verify_release_bundle directory expected signature signing_key public_key private_key password =
      do
        guard (given_together signature signing_key)
            "release signature and signing public key must be provided together"
        release ← verify_bundle tools directory expected signature
        release_signature ← verified_signature directory.entries signature signing_key release
        public_key_verified ← verified_public_key public_key release
        sboms ← recovered directory.entries release private_key password
        ok record {
          release = release;
          release_signature = release_signature;
          public_key_verified = public_key_verified;
          recovered_sboms = sboms;
        }
