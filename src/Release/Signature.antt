-- ===== src/Release/Signature.antt =====
-- src/smart_factory/release_signature.py: the signature of a verified bundle. The keys, Ed25519 and
-- the fingerprint are those of the `cryptography` package in Signing.antt.
pub mod RoundTrip
pub mod Authenticity
use smart_factory_monitor.Common.{
  ℕ, ℤ, Bool, true, false, not, ◌&&◌, ◌==◌, String, ◌<>◌, count, Option, none, some, List, [], ◌∷◌,
  str_eq, Result, ok, err, ◌>>=◌, ◌>>◌, guard, if◌then◌else◌,
}
use smart_factory_monitor.Signing.{Crypto, LoadedKey}
use smart_factory_monitor.Release.Json.{
  Json, Members, no_members, member_of, get, remove, as_text, as_object, size_members, json_eq,
}
use smart_factory_monitor.Release.Files.{
  Entry, Directory, Checks, ReleaseTools, regular_file, all_regular, given,
}
use smart_factory_monitor.Release.Bundle.{
  Release, Expectations, SignatureFile, signature_name, verify_bundle,
}

-- `load_pem_private_key` with a password, and `public_key` of a private key
pub record SigningKeys : Type 0 where
  pub load_private : String → String → Option LoadedKey
  pub public_key : String → String

-- Where a signature is to be written
pub record Destination : Type 0 where
  pub name : String
  pub exists : Bool
  pub parent_is_real : Bool

unfoldable pub as_ed25519 : Option LoadedKey → Checks String
as_ed25519 none = err "could not load the key"
as_ed25519 (some LoadedKey.other_kind) = err "release-signing key must be Ed25519"
as_ed25519 (some (LoadedKey.ed25519 key)) = ok key

-- `_validate_destination`
unfoldable pub validate_destination : Destination → Checks (Unit {0})
validate_destination destination = do
  guard (not destination.exists) "refusing to replace existing release signature"
  guard destination.parent_is_real "release signature parent must be a real directory"

-- `_stable_bundle_snapshot`: a private copy of the regular files
unfoldable pub stable_bundle_snapshot : Directory → Checks Directory
stable_bundle_snapshot directory = do
  guard directory.is_real "release bundle must be a real directory"
  all_regular directory.entries
  ok record { is_real = true; entries = directory.entries }

-- `{"name": name, "sha256": digest}`
named_digest : String → String → Json
named_digest name digest =
    Json.object
      (member_of "name" (Json.text name) (member_of "sha256" (Json.text digest) no_members))

signed_release : String → String → Release → Json
unfolding named_digest
signed_release checksums manifest release = Json.object (
    member_of "checksums" (named_digest "SHA256SUMS" checksums) (
      member_of "container_reference" (Json.text release.reference) (
        member_of "manifest" (named_digest "release-manifest.json" manifest) (
          member_of "name" (Json.text "smart-factory-monitor") (
            member_of "revision" (Json.text release.revision)
              (member_of "version" (Json.text release.version) no_members))))))

-- The members of the payload, with the digests of the two files
unfoldable pub payload_of : String → String → Release → String → Members
unfolding signed_release
payload_of checksums manifest release signing_key_sha256 =
    member_of "algorithm" (Json.text "Ed25519") (
      member_of "schema_version" (Json.integer (ℤ.pos 1)) (
        member_of "signed_release" (signed_release checksums manifest release)
          (member_of "signing_key_sha256" (Json.text signing_key_sha256) no_members)))

-- `{**payload, "signature": signature}`, in the order of its keys
unfoldable pub document_of : String → String → Release → String → String → Members
unfolding signed_release
document_of checksums manifest release signing_key_sha256 signature =
    member_of "algorithm" (Json.text "Ed25519") (
      member_of "schema_version" (Json.integer (ℤ.pos 1)) (
        member_of "signature" (Json.text signature) (
          member_of "signed_release" (signed_release checksums manifest release)
            (member_of "signing_key_sha256" (Json.text signing_key_sha256) no_members))))

abbrev is_given : Option Json → Bool
is_given none = false
is_given (some value) = true

-- `set(document)` is the five names; the keys are unique.
unfoldable pub has_signature_keys : Members → Bool
has_signature_keys document =
    size_members document == 5
    && is_given (get "algorithm" document)
    && is_given (get "schema_version" document)
    && is_given (get "signature" document)
    && is_given (get "signed_release" document)
    && is_given (get "signing_key_sha256" document)

unfoldable pub has_64_bytes : String → Bool
has_64_bytes signature = count signature == 64

module _ (c : Crypto) (keys : SigningKeys) (tools : ReleaseTools) where
  -- `signing_key_fingerprint`
  unfoldable pub fingerprint : String → String
  fingerprint public_key = c.sha256_hexdigest (c.public_key_der public_key)

  -- `_load_public_key`
  unfoldable pub load_public_key : Entry → Checks String
  unfolding as_ed25519
  load_public_key Entry.irregular = err "release-signing public key must be a regular file"
  load_public_key (Entry.regular pem) = as_ed25519 (c.load_pem_public_key pem)

  -- `_load_private_key`
  unfoldable pub load_private_key : Entry → String → Checks String
  unfolding as_ed25519
  load_private_key Entry.irregular password =
      err "release-signing private key must be a regular file"
  load_private_key (Entry.regular pem) password = do
    guard (not (count password == 0)) "release-signing private key password must not be empty"
    as_ed25519 (keys.load_private pem password)

  -- The digests of `_signature_payload`
  unfoldable pub payload_digests : List (String × Entry) → Checks (String × String)
  payload_digests entries = do
    checksums ← regular_file entries "SHA256SUMS"
    manifest ← regular_file entries "release-manifest.json"
    ok (tools.sha256 checksums, tools.sha256 manifest)

  -- The text of a signature file
  unfoldable pub signature_content : String → String × String → Release → String
  signature_content private_key digests release =
      let key_id = fingerprint (keys.public_key private_key) in
      let payload = Json.object (payload_of digests.0 digests.1 release key_id) in
      let signature = tools.b64encode (c.sign private_key (tools.canonical_json payload)) in
      tools.canonical_json (Json.object (document_of digests.0 digests.1 release key_id signature))
      <> "\n"

  -- `sign_release_bundle`, with the content that it writes
  unfoldable pub sign_release_bundle :
      Directory → Destination → Entry → String → Expectations → Checks String
  sign_release_bundle directory destination private_key_file password expected = do
    validate_destination destination
    snapshot ← stable_bundle_snapshot directory
    release ← verify_bundle tools snapshot expected none
    guard (str_eq destination.name (signature_name release.version))
        "release signature has a wrong name"
    private_key ← load_private_key private_key_file password
    digests ← payload_digests snapshot.entries
    ok (signature_content private_key digests release)

  unfoldable pub read_signature : Entry → Checks Members
  unfolding given
  read_signature Entry.irregular = err "release signature must be a regular file"
  read_signature (Entry.regular content) = do
    text ← given "release signature must be valid UTF-8 JSON" (tools.decode_utf8 content)
    value ← given "release signature must be valid UTF-8 JSON" (tools.loads text)
    given "release signature document is invalid" (as_object (some value))

  unfoldable pub payload_matches : String × String → Release → String → Members → Bool
  payload_matches digests release key_id document =
      json_eq (Json.object (payload_of digests.0 digests.1 release key_id))
        (Json.object (remove "signature" document))

  unfoldable pub signature_verifies : String → Members → String → Bool
  signature_verifies public_key document signature =
      c.verify public_key (tools.canonical_json (Json.object (remove "signature" document)))
        signature

  -- `verify_release_signature`, with the fingerprint of the key
  unfoldable pub verify_release_signature :
      List (String × Entry) → SignatureFile → Entry → Release → Checks String
  unfolding given
  verify_release_signature entries file public_key_file release = do
    guard (str_eq file.name (signature_name release.version)) "release signature has a wrong name"
    document ← read_signature file.entry
    guard (has_signature_keys document) "release signature document is invalid"
    public_key ← load_public_key public_key_file
    digests ← payload_digests entries
    guard (payload_matches digests release (fingerprint public_key) document)
        "release signature is bound to different release evidence or key"
    encoded ← given "release signature encoding is invalid" (as_text (get "signature" document))
    signature ← given "release signature encoding is invalid" (tools.b64decode encoded)
    guard (has_64_bytes signature) "release signature encoding is invalid"
    guard (signature_verifies public_key document signature)
        "release signature authentication failed"
    ok (fingerprint public_key)
