-- ===== src/Signing.antt =====
-- src/smart_factory/infrastructure/ml/artifact_signing.py: Ed25519 signatures of bytes, over the
-- `cryptography` package. Bytes are texts; a file that cannot be read is `none`.
use smart_factory_monitor.Common.{
  String, ◌≡◌, Bool, true, Option, none, some, Result, ok, err, guard,
}

-- What a PEM text loads as: an Ed25519 key, or a key of another kind.
pub data LoadedKey : Type 0 where
  ed25519 : String → LoadedKey
  other_kind : LoadedKey

-- The package's functions. `none` is a `ValueError` of the loader.
pub record Crypto : Type 0 where
  pub load_pem_private_key : String → Option LoadedKey
  pub load_pem_public_key : String → Option LoadedKey
  pub public_key_der : String → String
  pub sign : String → String → String
  pub verify : String → String → String → Bool
  pub sha256_hexdigest : String → String
  pub b64encode : String → String
  pub b64decode : String → Option String

-- A private key belongs to a public one if its signatures verify under it.
pub record IsKeyPair (c : Crypto) (private_key public_key : String) : Type 0 where
  pub verify-sign :
      (payload : String) → c.verify public_key payload (c.sign private_key payload) ≡ true

-- What the callers rely on: base64 can be decoded, and a signature has 64 bytes.
pub record IsCodec (c : Crypto) : Type 0 where
  pub b64decode-b64encode : (s : String) → c.b64decode (c.b64encode s) ≡ some s

pub data ArtifactSigningError : Type 0 where
  unreadable_key not_ed25519 invalid_signature unmatched_pair : ArtifactSigningError

as_ed25519 : Option LoadedKey → Result ArtifactSigningError String
as_ed25519 none = err ArtifactSigningError.unreadable_key
as_ed25519 (some LoadedKey.other_kind) = err ArtifactSigningError.not_ed25519
as_ed25519 (some (LoadedKey.ed25519 key)) = ok key

module _ (c : Crypto) where
  -- `ArtifactSigner.from_private_key_file`
  unfoldable pub signer_from_file : Option String → Result ArtifactSigningError String
  unfolding as_ed25519
  signer_from_file none = err ArtifactSigningError.unreadable_key
  signer_from_file (some pem) = as_ed25519 (c.load_pem_private_key pem)

  -- `ArtifactVerifier.from_public_key_file`
  unfoldable pub verifier_from_file : Option String → Result ArtifactSigningError String
  unfolding as_ed25519
  verifier_from_file none = err ArtifactSigningError.unreadable_key
  verifier_from_file (some pem) = as_ed25519 (c.load_pem_public_key pem)

  -- `ArtifactVerifier.verify`
  unfoldable pub verify_signature :
      String → String → String → Result ArtifactSigningError (Unit {0})
  verify_signature key payload signature =
      guard (c.verify key payload signature) ArtifactSigningError.invalid_signature
