-- ===== src/Release.antt =====
-- The evidence of a release: src/smart_factory/release_verification.py, release_signature.py and
-- release_evidence_crypto.py. A directory is a list of its entries, bytes are texts, and a
-- `ValueError` is its message without the values that the source formats into it.
pub mod Json
pub mod Patterns
pub mod Files
pub mod Sboms
pub mod Checksums
pub mod Bundle
pub mod Signature
pub mod Encryption
pub mod Verification
