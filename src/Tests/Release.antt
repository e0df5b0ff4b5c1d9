-- ===== src/Tests/Release.antt =====
-- A release of which every file holds its own digest: the toy SHA-256 changes nothing. The parser
-- knows the documents of the bundle.
use smart_factory_monitor.Common.{
  ◌⊎◌, List, ℤ, same_int, true, false, String, ◌≡◌, refl, Option, none, some, [], ◌∷◌, ok, str_eq,
  if◌then◌else◌, contains, without, fromkeys, same_set, split_on, all_codes,
}
use smart_factory_monitor.Domain.{is_hex_digest}
use smart_factory_monitor.Signing.{Crypto, LoadedKey}
use smart_factory_monitor.Release.Json.{
  Json, no_items, item, no_members, member_of, get, remove, as_text, as_integer, as_object,
  as_array, has_value, json_eq, size_items, is_text, as_number, size_members,
}
use smart_factory_monitor.Release.Files.{
  Entry, Directory, ReleaseTools, find_entry, all_regular, read_json, regular_file, digest_of,
  given, has_media_type, matches_record, natural, plain_name, validate_record,
}
use smart_factory_monitor.Release.Bundle.{
  Release, Expectations, SignatureFile, signature_name, verify_bundle, expected_files, release_of,
  as_expected, check_parts, package_records, check_deployment, check_membership, container_of,
  find_record, is_bound, members_with, named_records, expected_checksum_names,
}
use smart_factory_monitor.Release.Signature.{
  SigningKeys, Destination, document_of, payload_of, validate_destination, stable_bundle_snapshot,
  signature_content, read_signature, has_signature_keys, load_public_key, payload_matches,
  has_64_bytes, signature_verifies, sign_release_bundle, verify_release_signature, load_private_key,
  payload_digests, fingerprint,
}
use smart_factory_monitor.Release.Patterns.{
  is_version, is_revision, after, is_decimal_number, is_image, is_image_digest, is_platform,
  is_plain_name,
}
use smart_factory_monitor.Release.Sboms.{
  check_envelope, check_metadata, has_fields, is_envelope, is_nonempty_text, is_positive,
  release_identity, validate_base64, validate_encrypted_sbom,
}
use smart_factory_monitor.Release.Checksums.{
  check_all, match_line, parse_checksums, parse_lines, split_at, split_lines,
}
use smart_factory_monitor.Release.Signature.RoundTrip.{verify-sign_release_bundle}
use smart_factory_monitor.Release.Signature.Authenticity.{IsAuthentic, signed_bundles_agree}
use smart_factory_monitor.Release.Bundle.Agreement.{Collision}

abbrev wheel : String
wheel = "aaaaaaaaaaaaaaaaaaaaaaaaaaaaaaaaaaaaaaaaaaaaaaaaaaaaaaaaaaaaaaaa"

abbrev source : String
source = "bbbbbbbbbbbbbbbbbbbbbbbbbbbbbbbbbbbbbbbbbbbbbbbbbbbbbbbbbbbbbbbb"

abbrev ml : String
ml = "cccccccccccccccccccccccccccccccccccccccccccccccccccccccccccccccc"

abbrev con : String
con = "dddddddddddddddddddddddddddddddddddddddddddddddddddddddddddddddd"

abbrev dep : String
dep = "eeeeeeeeeeeeeeeeeeeeeeeeeeeeeeeeeeeeeeeeeeeeeeeeeeeeeeeeeeeeeeee"

abbrev man : String
man = "ffffffffffffffffffffffffffffffffffffffffffffffffffffffffffffffff"

abbrev recipient : String
recipient = "1111111111111111111111111111111111111111111111111111111111111111"

abbrev revision : String
revision = "2222222222222222222222222222222222222222"

abbrev reference : String
reference =
    "registry.example/factory@sha256:3333333333333333333333333333333333333333333333333333333333333333"

abbrev sums : String
sums =
    "aaaaaaaaaaaaaaaaaaaaaaaaaaaaaaaaaaaaaaaaaaaaaaaaaaaaaaaaaaaaaaaa  smart_factory_monitor-1.0.0-py3-none-any.whl\nbbbbbbbbbbbbbbbbbbbbbbbbbbbbbbbbbbbbbbbbbbbbbbbbbbbbbbbbbbbbbbbb  smart_factory_monitor-1.0.0.tar.gz\ncccccccccccccccccccccccccccccccccccccccccccccccccccccccccccccccc  smart_factory_monitor-1.0.0.ml-runtime.spdx.json.enc\ndddddddddddddddddddddddddddddddddddddddddddddddddddddddddddddddd  smart_factory_monitor-1.0.0.container.spdx.json.enc\neeeeeeeeeeeeeeeeeeeeeeeeeeeeeeeeeeeeeeeeeeeeeeeeeeeeeeeeeeeeeeee  smart_factory_monitor-1.0.0.kubernetes.yaml\nffffffffffffffffffffffffffffffffffffffffffffffffffffffffffffffff  release-manifest.json\n"

abbrev sbom : String → String → String → String → Json
sbom digest name scope plain =
    (Json.object (
      member_of "format" (Json.text "SPDX-2.x") (
        member_of "scope" (Json.text scope) (
          member_of "name" (Json.text plain) (
            member_of "sha256" (Json.text wheel) (
              member_of "package_count" (Json.integer (ℤ.pos 7)) (
                member_of "encrypted"
                  (Json.object (
                    member_of "name" (Json.text name) (
                      member_of "sha256" (Json.text digest) (
                        member_of "size" (Json.integer (ℤ.pos 64)) (
                          member_of "algorithm" (Json.text "RSA-OAEP-SHA256+A256GCM")
                            (member_of "recipient_key_sha256" (Json.text recipient) no_members))))))
                  no_members)))))))

abbrev envelope : String → Json
envelope plain =
    (Json.object (
      member_of "schema_version" (Json.integer (ℤ.pos 1)) (
        member_of "algorithm" (Json.text "RSA-OAEP-SHA256+A256GCM") (
          member_of "authenticated_release"
            (Json.object (
              member_of "name" (Json.text plain) (
                member_of "revision" (Json.text revision)
                  (member_of "version" (Json.text "1.0.0") no_members))))
            (member_of "recipient_key_sha256" (Json.text recipient) (
              member_of "encrypted_key" (Json.text "key") (
                member_of "nonce" (Json.text "123456789012")
                  (member_of "ciphertext" (Json.text "1234567890123456") no_members))))))))

abbrev manifest : Json
manifest =
    (Json.object (
      member_of "schema_version" (Json.integer (ℤ.pos 3)) (
        member_of "name" (Json.text "smart-factory-monitor") (
          member_of "version" (Json.text "1.0.0") (
            member_of "revision" (Json.text revision) (
              member_of "artifacts"
                (Json.array (
                  item
                    (Json.object (
                      member_of "name" (Json.text "smart_factory_monitor-1.0.0-py3-none-any.whl") (
                        member_of "sha256" (Json.text wheel) (
                          member_of "size" (Json.integer (ℤ.pos 64))
                            (member_of "media_type" (Json.text "application/zip") no_members)))))
                    (item
                      (Json.object (
                        member_of "name" (Json.text "smart_factory_monitor-1.0.0.tar.gz") (
                          member_of "sha256" (Json.text source) (
                            member_of "size" (Json.integer (ℤ.pos 64))
                              (member_of "media_type" (Json.text "application/gzip") no_members)))))
                      no_items)))
                (member_of "sbom"
                  (sbom ml "smart_factory_monitor-1.0.0.ml-runtime.spdx.json.enc" "ml-runtime"
                    "smart_factory_monitor-1.0.0.ml-runtime.spdx.json")
                  (member_of "container"
                    (Json.object (
                      member_of "image" (Json.text "registry.example/factory") (
                        member_of "digest"
                          (Json.text
                            "sha256:3333333333333333333333333333333333333333333333333333333333333333")
                          (member_of "reference" (Json.text reference) (
                            member_of "platform" (Json.text "linux/amd64") (
                              member_of "sbom"
                                (sbom con "smart_factory_monitor-1.0.0.container.spdx.json.enc"
                                  "container-image"
                                  "smart_factory_monitor-1.0.0.container.spdx.json")
                                (member_of "deployment_manifest"
                                  (Json.object (
                                    member_of "name"
                                      (Json.text "smart_factory_monitor-1.0.0.kubernetes.yaml")
                                      (member_of "sha256" (Json.text dep) (
                                        member_of "size" (Json.integer (ℤ.pos 64)) (
                                          member_of "media_type" (Json.text "application/yaml")
                                            no_members)))))
                                  no_members)))))))
                    no_members))))))))

abbrev release : Release
release = record {
  platform = "linux/amd64";
  reference = reference;
  files_checked = 6;
  recipient_key_sha256 = recipient;
  revision = revision;
  version = "1.0.0";
}

abbrev document : Json
document = Json.object (document_of sums man release recipient wheel)

abbrev loads : String → Option Json
loads text =
    if str_eq text man
    then some manifest
    else if str_eq text ml
    then some (envelope "smart_factory_monitor-1.0.0.ml-runtime.spdx.json")
    else if str_eq text con
    then some (envelope "smart_factory_monitor-1.0.0.container.spdx.json")
    else if str_eq text "document\n"
    then some document
    else none

abbrev tools : ReleaseTools
tools = record {
  decode_utf8 = λ s. some s;
  loads = loads;
  canonical_json = λ j. "document";
  sha256 = λ s. s;
  b64decode = λ s. some s;
  b64encode = λ s. s;
  deployment_images = λ s. (reference ∷ []) ∷ (reference ∷ []) ∷ (reference ∷ []) ∷ [];
}

abbrev crypto : Crypto
crypto = record {
  load_pem_private_key = λ pem. some (LoadedKey.ed25519 pem);
  load_pem_public_key = λ pem. some (LoadedKey.ed25519 pem);
  public_key_der = λ key. key;
  sign = λ key payload. wheel;
  verify = λ key payload signature. str_eq signature wheel;
  sha256_hexdigest = λ s. recipient;
  b64encode = λ s. s;
  b64decode = λ s. some s;
}

abbrev keys : SigningKeys
keys = record {
  load_private = λ pem password. some (LoadedKey.ed25519 "private");
  public_key = λ key. "public";
}

abbrev directory : Directory
directory = record {
  is_real = true;
  entries =
      ("SHA256SUMS", Entry.regular sums)
      ∷ ("release-manifest.json", Entry.regular man)
      ∷ ("smart_factory_monitor-1.0.0-py3-none-any.whl", Entry.regular wheel)
      ∷ ("smart_factory_monitor-1.0.0.tar.gz", Entry.regular source)
      ∷ ("smart_factory_monitor-1.0.0.ml-runtime.spdx.json.enc", Entry.regular ml)
      ∷ ("smart_factory_monitor-1.0.0.container.spdx.json.enc", Entry.regular con)
      ∷ ("smart_factory_monitor-1.0.0.kubernetes.yaml", Entry.regular dep)
      ∷ [];
}

abbrev expected : Expectations
expected = record { version = some "1.0.0"; revision = none; image_reference = some reference }

abbrev destination : Destination
destination = record { name = signature_name "1.0.0"; exists = false; parent_is_real = true }

abbrev signature : SignatureFile
signature = record {
  name = signature_name "1.0.0";
  entry = Entry.regular "document\n";
  in_directory = false;
}

bundle_verifies : verify_bundle tools directory expected none ≡ ok release
unfolding verify_bundle all_regular read_json regular_file digest_of given has_media_type
    matches_record natural plain_name validate_record is_version is_revision after is_decimal_number
    is_image is_image_digest is_platform is_plain_name check_envelope check_metadata has_fields
    is_envelope is_nonempty_text is_positive release_identity validate_base64
    validate_encrypted_sbom release_of as_expected check_parts package_records check_deployment
    check_membership container_of find_record is_bound members_with named_records check_all
    match_line parse_checksums parse_lines split_at split_lines find_entry as_object has_value get
    json_eq same_int as_text as_array all_codes contains fromkeys same_set split_on without
    is_hex_digest expected_checksum_names expected_files as_integer as_number is_text size_items
    size_members
bundle_verifies = refl

signed_bundle_verifies : verify_bundle tools directory expected (some signature) ≡ ok release
unfolding verify_bundle all_regular read_json regular_file digest_of given has_media_type
    matches_record natural plain_name validate_record is_version is_revision after is_decimal_number
    is_image is_image_digest is_platform is_plain_name check_envelope check_metadata has_fields
    is_envelope is_nonempty_text is_positive release_identity validate_base64
    validate_encrypted_sbom release_of as_expected check_parts package_records check_deployment
    check_membership container_of find_record is_bound members_with named_records check_all
    match_line parse_checksums parse_lines split_at split_lines find_entry as_object has_value get
    json_eq same_int as_text as_array all_codes contains fromkeys same_set split_on without
    is_hex_digest expected_checksum_names expected_files as_integer as_number is_text size_items
    size_members
signed_bundle_verifies = refl

bundle_signed :
    sign_release_bundle crypto keys tools directory destination
      (Entry.regular "pem")
      "password"
      expected
    ≡ ok "document\n"
unfolding sign_release_bundle validate_destination stable_bundle_snapshot all_regular
    load_private_key payload_digests regular_file find_entry signature_content
bundle_signed = rw bundle_verifies

document_verifies :
    verify_release_signature crypto keys tools directory.entries signature
      (Entry.regular "public")
      release
    ≡ ok recipient
unfolding verify_release_signature read_signature as_object given has_signature_keys document_of get
    size_members load_public_key payload_digests regular_file find_entry payload_matches payload_of
    remove json_eq is_text as_number same_int fingerprint as_text has_64_bytes signature_verifies
document_verifies = refl

key_loads : load_private_key crypto keys tools (Entry.regular "pem") "password" ≡ ok "private"
unfolding load_private_key
key_loads = refl

digests_found : payload_digests crypto keys tools directory.entries ≡ ok (sums, man)
unfolding payload_digests regular_file find_entry
digests_found = refl

listed :
    contains "smart_factory_monitor-1.0.0.ml-runtime.spdx.json.enc"
      (expected_checksum_names "1.0.0")
    ≡ true
unfolding contains expected_checksum_names without expected_files
listed = refl

verify-sign_release_bundle_example :
    verify_release_signature crypto keys tools directory.entries
      (record {
        name = signature_name "1.0.0";
        entry = Entry.regular "document\n";
        in_directory = false;
      })
      (Entry.regular "public")
      release
    ≡ ok (fingerprint crypto keys tools "public")
unfolding fingerprint
verify-sign_release_bundle_example =
    verify-sign_release_bundle crypto keys tools "private" "public" "public" directory destination
      (Entry.regular "pem") "password" expected "document\n" release (sums, man) false
      record {
        pair = record { verify-sign = λ payload. pair_verifies payload };
        own = refl;
        loads = refl;
        codec = λ s. refl;
        has_length = λ payload. refl;
      }
      key_loads bundle_verifies digests_found ("document\n", refl, refl) bundle_signed
  where
    pair_verifies : (payload : String) → str_eq wheel wheel ≡ true
    pair_verifies payload = refl

-- The same files, listed in the opposite order.
abbrev onto : List (String × Entry) → List (String × Entry) → List (String × Entry)
onto [] done = done
onto (entry ∷ entries) done = onto entries (entry ∷ done)

abbrev copy : Directory
copy = record directory { entries = onto directory.entries [] }

copy_verifies : verify_bundle tools copy expected (some signature) ≡ ok release
unfolding verify_bundle all_regular read_json regular_file digest_of given has_media_type
    matches_record natural plain_name validate_record is_version is_revision after is_decimal_number
    is_image is_image_digest is_platform is_plain_name check_envelope check_metadata has_fields
    is_envelope is_nonempty_text is_positive release_identity validate_base64
    validate_encrypted_sbom release_of as_expected check_parts package_records check_deployment
    check_membership container_of find_record is_bound members_with named_records check_all
    match_line parse_checksums parse_lines split_at split_lines find_entry as_object has_value get
    json_eq same_int as_text as_array all_codes contains fromkeys same_set split_on without
    is_hex_digest expected_checksum_names expected_files as_integer as_number is_text size_items
    size_members
copy_verifies = refl

copy_signed :
    verify_release_signature crypto keys tools copy.entries signature
      (Entry.regular "public")
      release
    ≡ ok recipient
unfolding verify_release_signature read_signature as_object given has_signature_keys document_of get
    size_members load_public_key payload_digests regular_file find_entry payload_matches payload_of
    remove json_eq is_text as_number same_int fingerprint as_text has_64_bytes signature_verifies
copy_signed = refl

signed_bundles_agree_example :
    IsAuthentic crypto keys tools signature (Entry.regular "public")
    × (release.version ≡ release.version)
    × ((find_entry "smart_factory_monitor-1.0.0.ml-runtime.spdx.json.enc" directory.entries
          ≡ find_entry "smart_factory_monitor-1.0.0.ml-runtime.spdx.json.enc" copy.entries)
        ⊎ Collision tools directory.entries copy.entries)
unfolding fingerprint
signed_bundles_agree_example =
    signed_bundles_agree crypto keys tools directory copy expected expected signature
      (Entry.regular "public") release release recipient recipient
      "smart_factory_monitor-1.0.0.ml-runtime.spdx.json.enc" signed_bundle_verifies copy_verifies
      document_verifies copy_signed listed
