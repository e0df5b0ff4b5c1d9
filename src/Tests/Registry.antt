-- ===== src/Tests/Registry.antt =====
-- A registry directory: a first generation is published, and restored as a second one.
use smart_factory_monitor.Common.{
  String, ◌≡◌, refl, [], ◌∷◌, none, some, str_eq, ◌==◌, if◌then◌else◌, ok,
}
use smart_factory_monitor.Domain.{utc, is_aware, is_machine_id, is_hex_digest}
use smart_factory_monitor.Registry.{ModelRegistryEntry, ModelRegistryManifest, machine_ids_unique}
use smart_factory_monitor.Registry.Files.{
  RegistryFile, same_file, Files, Candidate, ArtifactTools, write_file, is_entry, is_manifest,
  load_manifest, publish_candidate, publish, rollback,
}
use smart_factory_monitor.Registry.Files.Keeps.{registry_immutable}
use smart_factory_monitor.Registry.Files.Serving.{IsServing, publish-IsServing, rollback-IsServing}

abbrev digest : String
digest = "abababababababababababababababababababababababababababababababab"

abbrev entry : ModelRegistryEntry
entry = record { machine_id = "press-01"; model_id = "m1"; artifact_sha256 = digest }

abbrev first : ModelRegistryManifest
first = record {
  generation_id = 1;
  created_at = utc 100;
  previous_generation_id = none;
  source_generation_id = none;
  entries = entry ∷ [];
}

abbrev second : ModelRegistryManifest
second = record first {
  generation_id = 2;
  created_at = utc 200;
  previous_generation_id = some 1;
  source_generation_id = some 1;
}

abbrev tools : ArtifactTools
tools = record {
  sha256 = λ payload. digest;
  verifies = λ payload signature. str_eq signature "signed";
  dump = λ m. if m.generation_id == 1 then "one" else "two";
  parse = λ s. if str_eq s "one" then some first else if str_eq s "two" then some second else none;
}

abbrev candidate : Candidate
candidate = record {
  machine_id = "press-01";
  model_id = "m1";
  artifact_sha256 = digest;
  payload = some "weights";
  signature = some "signed";
}

abbrev bare : Files
bare file = none

abbrev published : Files
published = (publish tools 1 (utc 100) (candidate ∷ []) bare).1

abbrev restored : Files
restored = (rollback tools 2 (utc 200) 1 published).1

published-ok : publish tools 1 (utc 100) (candidate ∷ []) bare ≡ (ok first, published)
unfolding publish publish_candidate write_file same_file is_entry is_machine_id is_hex_digest
    is_manifest is_aware machine_ids_unique
published-ok = refl

restored-ok : rollback tools 2 (utc 200) 1 published ≡ (ok second, restored)
unfolding rollback publish load_manifest publish_candidate write_file same_file is_entry
    is_machine_id is_hex_digest is_manifest is_aware machine_ids_unique
restored-ok = refl

publish-IsServing_example : IsServing tools published first
publish-IsServing_example =
    publish-IsServing tools 1 (utc 100) (candidate ∷ []) bare published first published-ok refl

rollback-IsServing_example :
    IsServing tools restored second
    × (target : ModelRegistryManifest) × (load_manifest tools
          (RegistryFile.manifest_file 1)
          published
        ≡ ok target)
    × (second.entries ≡ target.entries)
rollback-IsServing_example =
    rollback-IsServing tools 2 (utc 200) 1 published restored second restored-ok refl

abbrev version : RegistryFile
version = RegistryFile.artifact_file "press-01" digest

version-stored : published version ≡ some "weights"
unfolding publish publish_candidate write_file same_file is_entry is_machine_id is_hex_digest
    is_manifest is_aware machine_ids_unique
version-stored = refl

registry_immutable_example :
    ((publish tools 2 (utc 300) (candidate ∷ []) published).1 version ≡ some "weights")
    × ((rollback tools 2 (utc 300) 1 published).1 version ≡ some "weights")
registry_immutable_example =
    registry_immutable tools 2 (utc 300) (candidate ∷ []) 1 published version "weights" (λ h. cc h)
      version-stored
