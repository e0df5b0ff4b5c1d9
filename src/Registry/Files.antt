-- ===== src/Registry/Files.antt =====
-- src/smart_factory/infrastructure/ml/registry.py, `FilesystemModelRegistryPublisher`: the files of
-- a registry directory, the immutable versions, and the pointer to the active generation. The
-- content of a file is a text; the JSON of a manifest, SHA-256 and the signature check are
-- parameters. One publisher works at a time, so no file appears between the test and the exclusive
-- creation.
pub mod Keeps
pub mod Serving
use smart_factory_monitor.Common.{
  count, leb, all, ℕ, String, Bool, true, false, not, ◌&&◌, Option, none, some, List, [], ◌∷◌, map,
  is_empty, str_eq, text_leb, ◌==◌, if◌then◌else◌, Result, ok, err,
}
use smart_factory_monitor.Common.Exec.{Exec, pure, raise, lift, ◌>>=◌, ◌>>◌, require}
use smart_factory_monitor.Domain.{Datetime, is_aware, is_machine_id, is_hex_digest}
use smart_factory_monitor.Registry.{ModelRegistryEntry, ModelRegistryManifest, machine_ids_unique}

-- The paths below the directory, by what names them: `versions/<machine>/<digest>.joblib` with its
-- signature beside it, `manifests/<generation>.json`, and `active.json`.
pub data RegistryFile : Type 0 where
  artifact_file : String → String → RegistryFile
  signature_file : String → String → RegistryFile
  manifest_file : ℕ → RegistryFile
  active_file : RegistryFile

unfoldable pub same_file : RegistryFile → RegistryFile → Bool
same_file (RegistryFile.artifact_file m s) (RegistryFile.artifact_file n t) =
    str_eq m n && str_eq s t
same_file (RegistryFile.signature_file m s) (RegistryFile.signature_file n t) =
    str_eq m n && str_eq s t
same_file (RegistryFile.manifest_file g) (RegistryFile.manifest_file h) = g == h
same_file RegistryFile.active_file RegistryFile.active_file = true
same_file _ _ = false

abbrev pub Files : Type 0
Files = RegistryFile → Option String

-- The reasons of `MlArtifactError`, and the validation of a new manifest.
pub data MlArtifactError : Type 0 where
  no_candidates invalid_candidate_signature immutable_path_conflict manifest_missing
        manifest_invalid rollback_files_missing rollback_digest_mismatch rollback_signature_invalid
        validation_error :
      MlArtifactError

-- `ModelPromotionCandidate`, with what reading its artifact and its signature gives.
pub record Candidate : Type 0 where
  pub machine_id : String
  pub model_id : String
  pub artifact_sha256 : String
  pub payload : Option String
  pub signature : Option String

-- `artifact_bytes_sha256`, `ArtifactVerifier.verify`, `model_dump_json` and the JSON parser.
pub record ArtifactTools : Type 0 where
  pub sha256 : String → String
  pub verifies : String → String → Bool
  pub dump : ModelRegistryManifest → String
  pub parse : String → Option ModelRegistryManifest

unfoldable pub write_file : RegistryFile → String → Files → Files
write_file file payload files other = if same_file file other then some payload else files other

unfoldable pub keep_or_write :
    RegistryFile → String → Option String → Exec Files MlArtifactError (Unit {0})
keep_or_write file payload none files = (ok tt, write_file file payload files)
keep_or_write file payload (some present) files =
    require (str_eq present payload) MlArtifactError.immutable_path_conflict files

-- `_write_once`
unfoldable pub write_once : RegistryFile → String → Exec Files MlArtifactError (Unit {0})
unfolding keep_or_write
write_once file payload files = keep_or_write file payload (files file) files

-- `_write_atomically`
unfoldable pub write_atomically : RegistryFile → String → Exec Files MlArtifactError (Unit {0})
write_atomically file payload files = (ok tt, write_file file payload files)

-- What constructing a `ModelRegistryEntry` checks.
unfoldable pub is_entry : ModelRegistryEntry → Bool
is_entry e =
    is_machine_id e.machine_id
    && leb 1 (count e.model_id)
    && leb (count e.model_id) 255
    && is_hex_digest e.artifact_sha256

-- What constructing a `ModelRegistryManifest` checks, its entries included.
unfoldable pub is_manifest : ModelRegistryManifest → Bool
unfolding is_entry
is_manifest m =
    is_aware m.created_at
    && all is_entry m.entries
    && not (is_empty m.entries)
    && machine_ids_unique m.entries

abbrev pub entry_of : Candidate → ModelRegistryEntry
entry_of c = record {
  machine_id = c.machine_id;
  model_id = c.model_id;
  artifact_sha256 = c.artifact_sha256;
}

-- `sorted(..., key=lambda entry: entry.machine_id)`
unfoldable pub insert_entry : ModelRegistryEntry → List ModelRegistryEntry → List ModelRegistryEntry
insert_entry e [] = e ∷ []
insert_entry e (other ∷ rest) =
    if text_leb e.machine_id other.machine_id then e ∷ other ∷ rest else other ∷ insert_entry e rest

unfoldable pub sorted_entries : List ModelRegistryEntry → List ModelRegistryEntry
unfolding insert_entry
sorted_entries [] = []
sorted_entries (e ∷ rest) = insert_entry e (sorted_entries rest)

module _ (tools : ArtifactTools) where
  unfoldable pub store_candidate :
      Candidate → Option String → Option String → Exec Files MlArtifactError ModelRegistryEntry
  unfolding write_once is_entry
  store_candidate c (some payload) (some signature) = do
    require (str_eq (tools.sha256 payload) c.artifact_sha256)
        MlArtifactError.invalid_candidate_signature
    require (tools.verifies payload signature) MlArtifactError.invalid_candidate_signature
    require (is_entry (entry_of c)) MlArtifactError.validation_error
    write_once (RegistryFile.artifact_file c.machine_id c.artifact_sha256) payload
    write_once (RegistryFile.signature_file c.machine_id c.artifact_sha256) signature
    pure (entry_of c)
  store_candidate c _ _ = raise MlArtifactError.invalid_candidate_signature

  -- `_publish_candidate`
  unfoldable pub publish_candidate : Candidate → Exec Files MlArtifactError ModelRegistryEntry
  unfolding store_candidate
  publish_candidate c = store_candidate c c.payload c.signature

  unfoldable pub publish_candidates :
      List Candidate → Exec Files MlArtifactError (List ModelRegistryEntry)
  publish_candidates [] = pure []
  publish_candidates (c ∷ rest) =
      publish_candidate c >>= λ entry. publish_candidates rest >>= λ entries. pure (entry ∷ entries)

  -- `_activate`
  unfoldable pub activate : ModelRegistryManifest → Exec Files MlArtifactError (Unit {0})
  unfolding write_once write_atomically
  activate m = do
    write_once (RegistryFile.manifest_file m.generation_id) (tools.dump m)
    write_atomically RegistryFile.active_file (tools.dump m)

  unfoldable pub checked_manifest :
      Option ModelRegistryManifest → Result MlArtifactError ModelRegistryManifest
  checked_manifest none = err MlArtifactError.manifest_invalid
  checked_manifest (some m) = if is_manifest m then ok m else err MlArtifactError.manifest_invalid

  unfoldable pub parsed_manifest : Option String → Result MlArtifactError ModelRegistryManifest
  unfolding checked_manifest is_manifest
  parsed_manifest none = err MlArtifactError.manifest_missing
  parsed_manifest (some content) = checked_manifest (tools.parse content)

  -- `_load_manifest`
  unfoldable pub load_manifest : RegistryFile → Files → Result MlArtifactError ModelRegistryManifest
  unfolding parsed_manifest
  load_manifest file files = parsed_manifest (files file)

  unfoldable pub current_id : Option String → Result MlArtifactError (Option ℕ)
  current_id none = ok none
  current_id (some content) = elim (parsed_manifest (some content)) [
    | ok m ↦ ok (some m.generation_id)
    | err e ↦ err e
  ]

  -- The identity of `_load_current_optional`.
  unfoldable pub load_current_optional : Exec Files MlArtifactError (Option ℕ)
  unfolding current_id
  load_current_optional files = (current_id (files RegistryFile.active_file), files)

  -- `publish`, with the fresh identity and time of the new manifest.
  unfoldable pub publish :
      ℕ → Datetime → List Candidate → Exec Files MlArtifactError ModelRegistryManifest
  unfolding publish_candidates load_current_optional activate sorted_entries
  publish generation_id now candidates = do
    require (not (is_empty candidates)) MlArtifactError.no_candidates
    published ← publish_candidates candidates
    current ← load_current_optional
    let m : ModelRegistryManifest = record {
      generation_id = generation_id;
      created_at = now;
      previous_generation_id = current;
      source_generation_id = none;
      entries = sorted_entries published;
    }
    require (is_manifest m) MlArtifactError.validation_error
    activate m
    pure m

  unfoldable pub check_version :
      ModelRegistryEntry → Option String → Option String → Result MlArtifactError (Unit {0})
  check_version e (some payload) (some signature) =
      if str_eq (tools.sha256 payload) e.artifact_sha256
      then if tools.verifies payload signature
        then ok tt
        else err MlArtifactError.rollback_signature_invalid
      else err MlArtifactError.rollback_digest_mismatch
  check_version e _ _ = err MlArtifactError.rollback_files_missing

  -- `_verify_version`
  unfoldable pub verify_version : ModelRegistryEntry → Exec Files MlArtifactError (Unit {0})
  unfolding check_version
  verify_version e files = (
    check_version e (files (RegistryFile.artifact_file e.machine_id e.artifact_sha256))
        (files (RegistryFile.signature_file e.machine_id e.artifact_sha256)),
    files,
  )

  unfoldable pub verify_versions : List ModelRegistryEntry → Exec Files MlArtifactError (Unit {0})
  unfolding verify_version
  verify_versions [] = pure tt
  verify_versions (e ∷ rest) = verify_version e >> verify_versions rest

  unfoldable pub load_from : RegistryFile → Exec Files MlArtifactError ModelRegistryManifest
  load_from file files = (load_manifest file files, files)

  -- `rollback`
  unfoldable pub rollback : ℕ → Datetime → ℕ → Exec Files MlArtifactError ModelRegistryManifest
  unfolding load_from verify_versions activate
  rollback new_id now generation_id = do
    target ← load_from (RegistryFile.manifest_file generation_id)
    current ← load_from RegistryFile.active_file
    verify_versions target.entries
    let m : ModelRegistryManifest = record {
      generation_id = new_id;
      created_at = now;
      previous_generation_id = some current.generation_id;
      source_generation_id = some target.generation_id;
      entries = target.entries;
    }
    require (is_manifest m) MlArtifactError.validation_error
    activate m
    pure m
