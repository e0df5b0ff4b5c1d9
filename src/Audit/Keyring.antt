-- ===== src/Audit/Keyring.antt =====
-- src/smart_factory/infrastructure/audit/keyring.py, `AuditAttestationKeyring`, and
-- domain/audit_keyring.py: the files of a keyring, its transitions, and the walk from the trusted
-- root. The listings are in the order of their names, as `sorted` gives them.
pub mod Trust
pub mod Termination
pub mod Publication
pub mod Rotation
pub mod Integrity
pub mod Rotator
use smart_factory_monitor.Common.{
  ℕ, suc, zero, String, count, ◌<>◌, Bool, true, false, not, ◌&&◌, ◌||◌, Option, none, some, List,
  [], ◌∷◌, ◌++◌, any, length, leb, str_eq, text_leb, ◌==◌, Result, ok, err, ◌>>=◌, ◌>>◌, guard,
  if◌then◌else◌,
}
use smart_factory_monitor.Domain.{Datetime, is_aware, is_hex_digest, is_chain_id}
use smart_factory_monitor.Signing.{
  Crypto, ArtifactSigningError, verifier_from_file, verify_signature,
}
use smart_factory_monitor.Audit.Checkpoint.{AuditCheckpointError, public_key_id, check_signature}

pub record AuditKeyTransition : Type 0 where
  pub transition_id : ℕ
  pub chain_id : String
  pub created_at : Datetime
  pub previous_key_id : String
  pub new_key_id : String

pub record SignedAuditKeyTransition : Type 0 where
  pub transition : AuditKeyTransition
  pub previous_signature : String
  pub new_signature : String

-- An entry of a directory: a regular file of the expected suffix, with its stem and content, or
-- anything else.
pub data DirectoryEntry : Type 0 where
  regular : String → String → DirectoryEntry
  irregular : DirectoryEntry

-- The files of a keyring, with the trusted root that it was opened with.
pub record Keyring : Type 0 where
  pub trusted_root_key_id : String
  pub keys : List DirectoryEntry
  pub transitions : List DirectoryEntry
  pub active_key_id : Option String

-- The reasons of `AuditCheckpointError` in this module.
pub data KeyringError : Type 0 where
  invalid_key_id unreadable_key wrong_key_identity unexpected_chain invalid_transition_signature
        too_many_transitions invalid_transition_entry transition_too_large unreadable_transition
        wrong_filename fork cycle untrusted_key not_terminal disconnected invalid_key_entry
        unexpected_keys invalid_active_key not_at_active evidence_differs wrong_new_key :
      KeyringError

-- The canonical JSON of a transition, pydantic's parser and printer of an envelope, the size of a
-- text in bytes, and the digest of the snapshot document.
pub record KeyringFormat : Type 0 where
  pub canonical_json : AuditKeyTransition → String
  pub model_validate_json : String → Option SignedAuditKeyTransition
  pub model_dump_json : SignedAuditKeyTransition → String
  pub byte_length : String → ℕ

abbrev pub max_transitions : ℕ
max_transitions = 1000

abbrev pub max_transition_bytes : ℕ
max_transition_bytes = 65536

unfoldable pub find_file : String → List DirectoryEntry → Option String
find_file name [] = none
find_file name (DirectoryEntry.irregular ∷ rest) = find_file name rest
find_file name (DirectoryEntry.regular stem content ∷ rest) =
    if str_eq stem name then some content else find_file name rest

-- `transitions[key]`
unfoldable pub find_transition :
    String → List SignedAuditKeyTransition → Option SignedAuditKeyTransition
find_transition key [] = none
find_transition key (envelope ∷ rest) =
    if str_eq envelope.transition.previous_key_id key
    then some envelope
    else find_transition key rest

abbrev pub member : String → List String → Bool
member key visited = any (λ (k : String). str_eq key k) visited

unfoldable pub signature_has_64_bytes : (String → ℕ) → Option String → Bool
signature_has_64_bytes byte_length none = false
signature_has_64_bytes byte_length (some s) = byte_length s == 64

module _ (c : Crypto) (format : KeyringFormat) where
  unfoldable pub signature_field : String → Bool
  unfolding signature_has_64_bytes
  signature_field s =
      leb 1 (count s)
      && leb (count s) 128
      && signature_has_64_bytes format.byte_length (c.b64decode s)

  -- Constructing a `SignedAuditKeyTransition` from JSON.
  unfoldable pub validate_transition : SignedAuditKeyTransition → Bool
  unfolding signature_field
  validate_transition e =
      is_chain_id e.transition.chain_id
      && is_aware e.transition.created_at
      && is_hex_digest e.transition.previous_key_id
      && is_hex_digest e.transition.new_key_id
      && signature_field e.previous_signature
      && signature_field e.new_signature

  unfoldable pub parsed_transition :
      Option SignedAuditKeyTransition → Result KeyringError SignedAuditKeyTransition
  unfolding validate_transition
  parsed_transition none = err KeyringError.unreadable_transition
  parsed_transition (some e) =
      if validate_transition e then ok e else err KeyringError.unreadable_transition

  unfoldable pub key_identity : Result AuditCheckpointError String → Result KeyringError String
  key_identity (ok key) = ok key
  key_identity (err e) = err KeyringError.unreadable_key

  -- `_validate_key_file`, which returns the path; here the content of the file. A name that is not
  -- a regular file has no content here, where the source would read through a link.
  unfoldable pub validate_key_file :
      List DirectoryEntry → String → Result KeyringError (Option String)
  unfolding key_identity
  validate_key_file keys key_id = do
    guard (is_hex_digest key_id) KeyringError.invalid_key_id
    identity ← key_identity (public_key_id c (find_file key_id keys))
    guard (str_eq identity key_id) KeyringError.wrong_key_identity
    ok (find_file key_id keys)

  abbrev pub signed_by : Option String → String → Option String → Result KeyringError (Unit {0})
  signed_by pem payload none = err KeyringError.invalid_transition_signature
  signed_by pem payload (some signature) = elim (check_signature c pem payload signature) [
    | ok _ ↦ ok tt
    | err _ ↦ err KeyringError.invalid_transition_signature
  ]

  -- `_verify_transition`
  unfoldable pub verify_transition :
      List DirectoryEntry → String → SignedAuditKeyTransition → Result KeyringError (Unit {0})
  unfolding validate_key_file
  verify_transition keys expected_chain_id e = do
    guard (str_eq e.transition.chain_id expected_chain_id) KeyringError.unexpected_chain
    previous ← validate_key_file keys e.transition.previous_key_id
    next ← validate_key_file keys e.transition.new_key_id
    let payload = format.canonical_json e.transition
    signed_by previous payload (c.b64decode e.previous_signature)
    signed_by next payload (c.b64decode e.new_signature)

  abbrev pub transition_name : AuditKeyTransition → String
  transition_name t = t.previous_key_id <> ("-" <> t.new_key_id)

  abbrev pub is_present : Option SignedAuditKeyTransition → Bool
  is_present none = false
  is_present (some e) = true

  -- The loop of `_load_verified_transitions` over the listing, with what was loaded so far.
  unfoldable pub load_entries :
      List DirectoryEntry
      → String
      → List DirectoryEntry
      → List SignedAuditKeyTransition
      → Result KeyringError (List SignedAuditKeyTransition)
  unfolding parsed_transition verify_transition
  load_entries keys chain [] loaded = ok loaded
  load_entries keys chain (DirectoryEntry.irregular ∷ rest) loaded =
      err KeyringError.invalid_transition_entry
  load_entries keys chain (DirectoryEntry.regular name content ∷ rest) loaded = do
    guard (leb (format.byte_length content) max_transition_bytes) KeyringError.transition_too_large
    e ← parsed_transition (format.model_validate_json content)
    guard (str_eq name (transition_name e.transition)) KeyringError.wrong_filename
    guard (not (is_present (find_transition e.transition.previous_key_id loaded))) KeyringError.fork
    verify_transition keys chain e
    load_entries keys chain rest (loaded ++ (e ∷ []))

  -- `_load_verified_transitions`
  unfoldable pub load_verified_transitions :
      Keyring → String → Result KeyringError (List SignedAuditKeyTransition)
  unfolding load_entries
  load_verified_transitions ring chain = do
    guard (leb (length ring.transitions) max_transitions) KeyringError.too_many_transitions
    load_entries ring.keys chain ring.transitions []

  -- The loop of `resolve_trusted_key`. `none` is a walk that has used its fuel.
  unfoldable pub walk :
      ℕ
      → List SignedAuditKeyTransition
      → String
      → String
      → List String
      → Option (Result KeyringError String)
  walk zero ts target current visited = none
  walk (suc fuel) ts target current visited = elim (find_transition current ts) [
    | none ↦ some (err KeyringError.untrusted_key)
    | some e ↦
        let next = e.transition.new_key_id in
        let later = walk fuel ts target next (next ∷ visited) in
        if member next visited
        then some (err KeyringError.cycle)
        else if str_eq next target
        then some (ok next)
        else later
  ]

  unfoldable pub walk_from_root :
      Keyring → String → List SignedAuditKeyTransition → Option (Result KeyringError String)
  unfolding walk
  walk_from_root ring target ts =
      walk (suc (length ts)) ts target ring.trusted_root_key_id (ring.trusted_root_key_id ∷ [])

  unfoldable pub loaded_walk :
      Keyring
      → String
      → Result KeyringError (List SignedAuditKeyTransition)
      → Option (Result KeyringError String)
  unfolding walk_from_root
  loaded_walk ring target (err e) = some (err e)
  loaded_walk ring target (ok ts) = walk_from_root ring target ts

  abbrev pub from_root :
      Keyring
      → String
      → String
      → Result KeyringError (Option String)
      → Option (Result KeyringError String)
  from_root ring target chain (err e) = some (err e)
  from_root ring target chain (ok _) =
      if str_eq target ring.trusted_root_key_id
      then some (ok ring.trusted_root_key_id)
      else loaded_walk ring target (load_verified_transitions ring chain)

  -- `resolve_trusted_key`: the key whose file is returned.
  unfoldable pub resolve_trusted_key :
      Keyring → String → String → Option (Result KeyringError String)
  unfolding loaded_walk load_verified_transitions validate_key_file
  resolve_trusted_key ring target chain =
      from_root ring target chain (validate_key_file ring.keys ring.trusted_root_key_id)

-- `active_key_id`: the content of the file without white space around it.
unfoldable pub active_key : Option String → Result KeyringError String
active_key none = err KeyringError.invalid_active_key
active_key (some key_id) =
    if is_hex_digest key_id then ok key_id else err KeyringError.invalid_active_key
