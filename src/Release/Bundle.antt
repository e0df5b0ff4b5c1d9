-- ===== src/Release/Bundle.antt =====
-- `verify_release_bundle` of src/smart_factory/release_verification.py, up to its result; the
-- signature and the keys are checked by the functions in Release/Verification.antt.
pub mod Integrity
pub mod Agreement
use smart_factory_monitor.Common.{
  ℕ, ℤ, Bool, true, false, not, ◌&&◌, ◌||◌, ◌==◌, leb, String, ◌<>◌, count, Option, none, some,
  List, [], ◌∷◌, ◌++◌, length, str_eq, contains, without, fromkeys, same_set, Result, ok, err,
  ◌>>=◌, ◌>>◌, guard, if◌then◌else◌,
}
use smart_factory_monitor.Release.Json.{
  Json, Members, Items, no_items, item, get, as_text, as_object, as_array, has_value, size_items,
}
use smart_factory_monitor.Release.Patterns.{
  is_version, is_revision, is_image, is_image_digest, is_platform,
}
use smart_factory_monitor.Release.Files.{
  Entry, Directory, Checks, ReleaseTools, entry_names, all_regular, given, plain_name, read_json,
  validate_record,
}
use smart_factory_monitor.Release.Sboms.{Sbom, validate_encrypted_sbom}
use smart_factory_monitor.Release.Checksums.{Checksums, checksum_names, parse_checksums, check_all}

abbrev pub stem : String → String
stem version = "smart_factory_monitor-" <> version

abbrev pub wheel_name : String → String
wheel_name version = stem version <> "-py3-none-any.whl"

abbrev pub source_name : String → String
source_name version = stem version <> ".tar.gz"

abbrev pub ml_plaintext_name : String → String
ml_plaintext_name version = stem version <> ".ml-runtime.spdx.json"

abbrev pub ml_encrypted_name : String → String
ml_encrypted_name version = ml_plaintext_name version <> ".enc"

abbrev pub container_plaintext_name : String → String
container_plaintext_name version = stem version <> ".container.spdx.json"

abbrev pub container_encrypted_name : String → String
container_encrypted_name version = container_plaintext_name version <> ".enc"

abbrev pub deployment_name : String → String
deployment_name version = stem version <> ".kubernetes.yaml"

abbrev pub signature_name : String → String
signature_name version = stem version <> ".release-signature.json"

-- `expected_files`, before a signature in the directory is added
unfoldable pub expected_files : String → List String
expected_files version =
    "SHA256SUMS"
    ∷ "release-manifest.json"
    ∷ wheel_name version
    ∷ source_name version
    ∷ ml_encrypted_name version
    ∷ container_encrypted_name version
    ∷ deployment_name version
    ∷ []

-- `expected_checksum_names`
unfoldable pub expected_checksum_names : String → List String
expected_checksum_names version = without "SHA256SUMS" (expected_files version)

-- A signature file: its name, its content, and whether it lies in the directory.
pub record SignatureFile : Type 0 where
  pub name : String
  pub entry : Entry
  pub in_directory : Bool

pub record Expectations : Type 0 where
  pub version : Option String
  pub revision : Option String
  pub image_reference : Option String

-- What the verification reports.
pub record Release : Type 0 where
  pub platform : String
  pub reference : String
  pub files_checked : ℕ
  pub recipient_key_sha256 : String
  pub revision : String
  pub version : String

-- `expected is not None and value != expected` is refused.
unfoldable pub as_expected : Option String → String → Bool
as_expected none value = true
as_expected (some expected) value = str_eq value expected

text_matching : (String → Bool) → Option Json → Option String
text_matching test value = elim (as_text value) [
  | none ↦ none
  | some s ↦ if test s then some s else none
]

-- The version and the revision that the manifest names
unfoldable pub release_of : Expectations → Members → Checks (String × String)
unfolding given text_matching
release_of expected manifest = do
  guard
      (has_value (get "schema_version" manifest) (Json.integer (ℤ.pos 3))
        && has_value (get "name" manifest) (Json.text "smart-factory-monitor"))
      "release manifest schema or product identity is invalid"
  version ← given "release version is invalid" (text_matching is_version (get "version" manifest))
  revision ←
      given "release revision is invalid" (text_matching is_revision (get "revision" manifest))
  guard (as_expected expected.version version) "release version does not match the expected version"
  guard (as_expected expected.revision revision)
      "release revision does not match the expected revision"
  ok (version, revision)

-- `{_plain_name(record.get("name")): record for record in artifacts if isinstance(record, dict)}`
unfoldable pub named_records : Items → Checks (List (String × Json))
named_records no_items = ok []
named_records (item (Json.object record_members) rest) = do
  name ← plain_name (get "name" record_members)
  records ← named_records rest
  ok ((name, Json.object record_members) ∷ records)
named_records (item Json.null rest) = named_records rest
named_records (item (Json.flag b) rest) = named_records rest
named_records (item (Json.integer n) rest) = named_records rest
named_records (item (Json.decimal s n) rest) = named_records rest
named_records (item (Json.text s) rest) = named_records rest
named_records (item (Json.array xs) rest) = named_records rest

record_names : List (String × Json) → List String
record_names [] = []
record_names ((name, value) ∷ rest) = name ∷ record_names rest

-- `records[name]`, the last of that name
unfoldable pub find_record : String → List (String × Json) → Option Json
find_record name [] = none
find_record name ((key, value) ∷ rest) = elim (find_record name rest) [
  | some later ↦ some later
  | none ↦ if str_eq name key then some value else none
]

-- The two package artifacts by their names
unfoldable pub package_records : String → Members → Checks (List (String × Json))
unfolding given record_names
package_records version manifest = do
  artifacts ←
      given "release manifest must contain exactly two package artifacts"
        (as_array (get "artifacts" manifest))
  guard (size_items artifacts == 2) "release manifest must contain exactly two package artifacts"
  records ← named_records artifacts
  guard
      (length (fromkeys (record_names records)) == 2
        && same_set (record_names records) (wheel_name version ∷ source_name version ∷ []))
      "release package artifact names are invalid"
  ok records

-- The image of the container, its platform and its reference
unfoldable pub container_of : Expectations → Members → Checks (String × String)
unfolding given text_matching
container_of expected container = do
  image ← given "container identity is invalid" (text_matching is_image (get "image" container))
  digest ←
      given "container identity is invalid" (text_matching is_image_digest (get "digest" container))
  guard (has_value (get "reference" container) (Json.text (image <> ("@" <> digest))))
      "container identity is invalid"
  platform ←
      given "container identity is invalid" (text_matching is_platform (get "platform" container))
  guard (as_expected expected.image_reference (image <> ("@" <> digest)))
      "container reference does not match the expected image"
  ok (platform, image <> ("@" <> digest))

abbrev is_only : String → List String → Bool
is_only reference (image ∷ []) = str_eq image reference
is_only reference _ = false

-- Three Deployment documents, each with the one image
unfoldable pub is_bound : String → List (List String) → Bool
is_bound reference (a ∷ b ∷ c ∷ []) =
    is_only reference a && is_only reference b && is_only reference c
is_bound reference _ = false

-- The files that the directory holds, with the signature if it lies there
unfoldable pub members_with : Option SignatureFile → String → Checks (List String)
members_with none version = ok (expected_files version)
members_with (some file) version = do
  guard (str_eq file.name (signature_name version)) "release signature has a wrong name"
  ok (
      if file.in_directory
      then expected_files version ++ (signature_name version ∷ [])
      else expected_files version)

module _ (tools : ReleaseTools) where
  unfoldable pub check_deployment :
      List (String × Entry) → String → String → Option Json → Checks (Unit {0})
  unfolding given
  check_deployment entries version reference deployment = do
    content ←
        validate_record tools entries deployment (deployment_name version) (some "application/yaml")
    text ← given "deployment manifest must be UTF-8 YAML" (tools.decode_utf8 content)
    guard (is_bound reference (tools.deployment_images text))
        "deployment manifest is not fully bound to the release container"

  -- The membership of the directory and the checksums of its files
  unfoldable pub check_membership :
      List (String × Entry) → String → Option SignatureFile → Checks (Unit {0})
  check_membership entries version signature = do
    expected ← members_with signature version
    guard (same_set (entry_names entries) expected) "release bundle membership is invalid"
    checksums ← parse_checksums tools entries
    guard (same_set (checksum_names checksums) (expected_checksum_names version))
        "SHA256SUMS membership does not match the release bundle"
    check_all tools entries checksums

  -- The parts that the manifest describes, with the container and the fingerprint of the recipient
  unfoldable pub check_parts :
      List (String × Entry)
      → Expectations
      → String
      → String
      → Members
      → Checks ((String × String) × String)
  check_parts entries expected version revision manifest = do
    records ← package_records version manifest
    wheel ←
        validate_record tools entries (find_record (wheel_name version) records)
          (wheel_name version) (some "application/zip")
    source ←
        validate_record tools entries (find_record (source_name version) records)
          (source_name version) (some "application/gzip")
    ml_recipient ← validate_encrypted_sbom tools entries (get "sbom" manifest) record {
      version = version;
      revision = revision;
      scope = "ml-runtime";
      plaintext_name = ml_plaintext_name version;
      encrypted_name = ml_encrypted_name version;
    }
    container ← given "container metadata is invalid" (as_object (get "container" manifest))
    identity ← container_of expected container
    container_recipient ← validate_encrypted_sbom tools entries (get "sbom" container) record {
      version = version;
      revision = revision;
      scope = "container-image";
      plaintext_name = container_plaintext_name version;
      encrypted_name = container_encrypted_name version;
    }
    guard (str_eq ml_recipient container_recipient) "release SBOMs use different recipient keys"
    check_deployment entries version identity.1 (get "deployment_manifest" container)
    ok (identity, ml_recipient)

  -- `verify_release_bundle`, up to `result`
  unfoldable pub verify_bundle : Directory → Expectations → Option SignatureFile → Checks Release
  verify_bundle directory expected signature = do
    guard directory.is_real "release bundle must be a real directory"
    all_regular directory.entries
    manifest ← read_json tools directory.entries "release-manifest.json"
    release ← release_of expected manifest
    parts ← check_parts directory.entries expected release.0 release.1 manifest
    check_membership directory.entries release.0 signature
    ok record {
      platform = parts.0.0;
      reference = parts.0.1;
      files_checked = length (fromkeys (expected_checksum_names release.0));
      recipient_key_sha256 = parts.1;
      revision = release.1;
      version = release.0;
    }
