-- ===== src/Release/Encryption.antt =====
-- src/smart_factory/release_evidence_crypto.py: private evidence under a fresh AES key, which is
-- encrypted for the recipient. RSA and AES-GCM are those of the `cryptography` package; the fresh
-- key and nonce are arguments, and a file is written by one writer at a time.
pub mod RoundTrip
use smart_factory_monitor.Common.{
  ℕ, ℤ, Bool, true, false, not, ◌&&◌, ◌==◌, leb, String, ◌<>◌, count, Option, none, some, List, [],
  ◌∷◌, str_eq, Result, ok, err, ◌>>=◌, ◌>>◌, guard, if◌then◌else◌,
}
use smart_factory_monitor.Release.Json.{
  Json, Members, no_members, member_of, get, as_text, as_object, has_value,
}
use smart_factory_monitor.Release.Patterns.{is_version, is_revision, is_plain_name}
use smart_factory_monitor.Release.Files.{Entry, Checks, ReleaseTools, given}
use smart_factory_monitor.Release.Sboms.{encryption_algorithm, release_identity}

-- What a PEM text loads as: an RSA key with its size in bits, or a key of another kind.
pub data LoadedRsa : Type 0 where
  rsa : String → ℕ → LoadedRsa
  other_kind : LoadedRsa

-- `none` is a `ValueError` or an `InvalidTag`.
pub record Ciphers : Type 0 where
  pub load_public : String → Option LoadedRsa
  pub load_private : String → Option String → Option LoadedRsa
  pub public_key : String → String
  pub public_key_der : String → String
  pub encrypt_key : String → String → String
  pub decrypt_key : String → String → Option String
  pub seal : String → String → String → String → String
  pub unseal : String → String → String → String → Option String

-- An output file: `_write_once` refuses one that exists, or whose parent is not a real directory.
pub record Output : Type 0 where
  pub exists : Bool
  pub parent_is_real : Bool

unfoldable pub write_once : Output → String → Checks String
write_once output content = do
  guard (not output.exists) "refusing to replace existing output"
  guard output.parent_is_real "output parent must be a real directory"
  ok content

unfoldable pub content_of : Entry → Checks String
content_of Entry.irregular = err "must be a regular file"
content_of (Entry.regular content) = ok content

-- `_release_identity`
unfoldable pub check_identity : String → String → String → Checks Json
check_identity version revision name = do
  guard (is_version version) "version must use numeric major.minor.patch format"
  guard (is_revision revision) "revision must be a full lowercase Git commit SHA"
  guard (is_plain_name name) "evidence name must be a plain filename"
  ok (release_identity version revision name)

unfoldable pub is_long : ℕ → Bool
is_long bits = leb 3072 bits

unfoldable pub long_rsa : Option LoadedRsa → Checks String
long_rsa none = err "could not load the key"
long_rsa (some LoadedRsa.other_kind) = err "key must be RSA with at least 3072 bits"
long_rsa (some (LoadedRsa.rsa key bits)) = do
  guard (is_long bits) "key must be RSA with at least 3072 bits"
  ok key

unfoldable pub has_nonce_length : String → Bool
has_nonce_length nonce = count nonce == 12

-- The envelope, in the order of its keys
unfoldable pub envelope_of : Json → String → String → String → String → Members
envelope_of identity ciphertext encrypted_key nonce recipient =
    member_of "algorithm" (Json.text encryption_algorithm) (
      member_of "authenticated_release" identity (
        member_of "ciphertext" (Json.text ciphertext) (
          member_of "encrypted_key" (Json.text encrypted_key) (
            member_of "nonce" (Json.text nonce) (
              member_of "recipient_key_sha256" (Json.text recipient)
                (member_of "schema_version" (Json.integer (ℤ.pos 1)) no_members))))))

module _ (ciphers : Ciphers) (tools : ReleaseTools) where
  -- `public_key_fingerprint`
  unfoldable pub key_fingerprint : String → String
  key_fingerprint public_key = tools.sha256 (ciphers.public_key_der public_key)

  -- `public_key_fingerprint_from_path`
  unfoldable pub fingerprint_from_file : Entry → Checks String
  fingerprint_from_file file = do
    pem ← content_of file
    key ← long_rsa (ciphers.load_public pem)
    ok (key_fingerprint key)

  -- `_decoded`
  unfoldable pub decoded_field : Option Json → Checks String
  decoded_field value = do
    text ← given "encrypted evidence field must be base64 text" (as_text value)
    given "encrypted evidence field is invalid" (tools.b64decode text)

  unfoldable pub sealed_envelope : String → String → String → Json → String → Members
  sealed_envelope data_key nonce public_key identity plaintext =
      envelope_of identity
        (tools.b64encode (ciphers.seal data_key nonce plaintext (tools.canonical_json identity)))
        (tools.b64encode (ciphers.encrypt_key public_key data_key)) (tools.b64encode nonce)
        (key_fingerprint public_key)

  -- `encrypt_release_evidence`, with the bytes that it writes
  unfoldable pub encrypt_release_evidence :
      String → String → Entry → String → Output → Entry → String → String → Checks String
  encrypt_release_evidence data_key nonce source source_name destination public_key_file version
        revision =
      do
        plaintext ← content_of source
        pem ← content_of public_key_file
        identity ← check_identity version revision source_name
        public_key ← long_rsa (ciphers.load_public pem)
        write_once destination (
            tools.canonical_json
              (Json.object (sealed_envelope data_key nonce public_key identity plaintext))
            <> "\n")

  unfoldable pub read_envelope : Entry → Checks Members
  read_envelope source = do
    content ← content_of source
    text ← given "encrypted release evidence must be valid UTF-8 JSON" (tools.decode_utf8 content)
    value ← given "encrypted release evidence must be valid UTF-8 JSON" (tools.loads text)
    given "encrypted release evidence must be a JSON object" (as_object (some value))

  -- The identity in the envelope is the one of the expected release.
  unfoldable pub envelope_identity : String → String → Members → Checks Json
  envelope_identity version revision document = do
    guard (has_value (get "schema_version" document) (Json.integer (ℤ.pos 1)))
        "unsupported encrypted release evidence format"
    guard (has_value (get "algorithm" document) (Json.text encryption_algorithm))
        "unsupported encrypted release evidence format"
    found ←
        given "encrypted release evidence identity is invalid"
          (as_object (get "authenticated_release" document))
    name ← given "encrypted release evidence identity is invalid" (as_text (get "name" found))
    identity ← check_identity version revision name
    guard (has_value (get "authenticated_release" document) identity)
        "encrypted release evidence belongs to a different release"
    ok identity

  -- The key and the plaintext from the three fields
  unfoldable pub open_envelope : String → Json → Members → Checks String
  open_envelope private_key identity document = do
    guard
        (has_value (get "recipient_key_sha256" document)
          (Json.text (key_fingerprint (ciphers.public_key private_key))))
        "encrypted release evidence targets a different recipient key"
    encrypted_key ← decoded_field (get "encrypted_key" document)
    nonce ← decoded_field (get "nonce" document)
    ciphertext ← decoded_field (get "ciphertext" document)
    guard (has_nonce_length nonce) "encrypted release evidence nonce is invalid"
    data_key ←
        given "encrypted release evidence authentication failed"
          (ciphers.decrypt_key private_key encrypted_key)
    given "encrypted release evidence authentication failed"
        (ciphers.unseal data_key nonce ciphertext (tools.canonical_json identity))

  -- `decrypt_release_evidence`, with the bytes that it writes
  unfoldable pub decrypt_release_evidence :
      Entry → Output → Entry → String → String → Option String → Checks String
  decrypt_release_evidence source destination private_key_file version revision password = do
    checked ← content_of source
    pem ← content_of private_key_file
    document ← read_envelope source
    identity ← envelope_identity version revision document
    private_key ← long_rsa (ciphers.load_private pem password)
    plaintext ← open_envelope private_key identity document
    write_once destination plaintext
