-- ===== src/Tests/Evidence.antt =====
-- One SBOM, encrypted for a recipient by ciphers that change nothing.
use smart_factory_monitor.Common.{
  String, ◌≡◌, refl, true, false, none, some, ok, [], split_on, all_codes,
}
use smart_factory_monitor.Release.Json.{Json}
use smart_factory_monitor.Release.Patterns.{
  is_version, is_revision, is_plain_name, is_decimal_number,
}
use smart_factory_monitor.Release.Files.{Entry, ReleaseTools}
use smart_factory_monitor.Release.Sboms.{release_identity}
use smart_factory_monitor.Release.Encryption.{
  Ciphers, LoadedRsa, Output, sealed_envelope, envelope_of, key_fingerprint, content_of,
  check_identity, long_rsa, is_long, write_once, encrypt_release_evidence, decrypt_release_evidence,
}
use smart_factory_monitor.Release.Encryption.RoundTrip.{decrypt-encrypt_release_evidence}

abbrev revision : String
revision = "2222222222222222222222222222222222222222"

abbrev ciphers : Ciphers
ciphers = record {
  load_public = λ pem. some (LoadedRsa.rsa pem 4096);
  load_private = λ pem password. some (LoadedRsa.rsa "private" 4096);
  public_key = λ key. "public";
  public_key_der = λ key. key;
  encrypt_key = λ public key. key;
  decrypt_key = λ private key. some key;
  seal = λ key nonce plaintext identity. plaintext;
  unseal = λ key nonce ciphertext identity. some ciphertext;
}

abbrev document : Json
document = Json.object (
    envelope_of (release_identity "1.0.0" revision "sbom.json") "plaintext" "data key"
      "123456789012" "public")

abbrev tools : ReleaseTools
tools = record {
  decode_utf8 = λ s. some s;
  loads = λ s. some document;
  canonical_json = λ j. "document";
  sha256 = λ s. s;
  b64decode = λ s. some s;
  b64encode = λ s. s;
  deployment_images = λ s. [];
}

abbrev output : Output
output = record { exists = false; parent_is_real = true }

encrypted :
    encrypt_release_evidence ciphers tools "data key" "123456789012"
      (Entry.regular "plaintext")
      "sbom.json"
      output
      (Entry.regular "public")
      "1.0.0"
      revision
    ≡ ok "document\n"
unfolding encrypt_release_evidence content_of check_identity is_version split_on is_decimal_number
    all_codes is_revision is_plain_name long_rsa is_long write_once
encrypted = refl

long_enough : is_long 4096 ≡ true
unfolding is_long
long_enough = refl

read_back :
    tools.loads "document\n"
    ≡ some (
        Json.object (
          sealed_envelope ciphers tools "data key" "123456789012" "public"
            (release_identity "1.0.0" revision "sbom.json")
            "plaintext"))
unfolding sealed_envelope key_fingerprint
read_back = refl

decrypt-encrypt_release_evidence_example :
    decrypt_release_evidence ciphers tools
      (Entry.regular "document\n")
      output
      (Entry.regular "private pem")
      "1.0.0"
      revision
      none
    ≡ ok "plaintext"
decrypt-encrypt_release_evidence_example =
    decrypt-encrypt_release_evidence ciphers tools "public" "private" "public" "private pem" 4096
      none "data key" "123456789012" "plaintext" "sbom.json" "1.0.0" revision "document\n" output
      output
      record {
        loads_public = refl;
        loads_private = refl;
        long = long_enough;
        own = refl;
        decrypts = λ key. refl;
        unseals = λ key nonce plaintext identity. refl;
        codec = λ s. refl;
      }
      refl ("document\n", refl, read_back) refl refl encrypted
