-- ===== src/Registry/Files/Serving.antt =====
-- What the pointer `active.json` leads to after a publication or a rollback.
use smart_factory_monitor.Common.{
  ℕ, String, true, not, ◌≡◌, ◌≢◌, refl, ap, ◌⊎◌, inl, inr, Option, none, some, List, [], ◌∷◌, All,
  arith, is_empty, str_eq, eq_iff, text_leb, Bool-cases, Option-cases, Result, ok, Result-cases,
}
use smart_factory_monitor.Common.Exec.{Exec, pure, ◌>>=◌, ◌>>◌, require}
use smart_factory_monitor.Domain.{Datetime}
use smart_factory_monitor.Registry.{ModelRegistryEntry, ModelRegistryManifest}
use smart_factory_monitor.Registry.Files.{
  RegistryFile, Files, MlArtifactError, Candidate, ArtifactTools, is_manifest, write_file,
  keep_or_write, write_once, write_atomically, entry_of, is_entry, insert_entry, sorted_entries,
  store_candidate, publish_candidate, publish_candidates, activate, checked_manifest,
  parsed_manifest, load_manifest, load_current_optional, publish, check_version, verify_version,
  verify_versions, load_from, rollback,
}
use smart_factory_monitor.Registry.Files.Keeps.{
  Keeps, Keeps-write_once, Keeps-write_atomically, Keeps-activate, Keeps-publish_candidates,
  write_file-same,
}

-- The two parts of a call that returned.
module _ {S E A B : Type 0} where
  ok_of_bind :
      (m : Exec S E A) (f : A → Exec S E B) (s t : S) (b : B)
      → (m >>= f) s ≡ (ok b, t)
      → (a : A) × (m s ≡ (ok a, (m s).1)) × (f a (m s).1 ≡ (ok b, t))
  ok_of_bind m f s t b h = elim (Result-cases (m s).0) [
    | inl (a, e) ↦ (a, ground (arith, e), rw e at h)
    | inr (x, e) ↦ absurd (ground (arith, e, h))
  ]

write_once_ok :
    (file : RegistryFile) (payload : String) (files t : Files)
    → write_once file payload files ≡ (ok tt, t)
    → t file ≡ some payload
unfolding write_once keep_or_write
write_once_ok file payload files t h = elim (Option-cases (files file)) [
  | inl e ↦
      let same : t ≡ write_file file payload files = ground (arith, e, h) in
      rw same (write_file-same file payload files)
  | inr (present, e) ↦ ground (arith, e, h, eq_iff present payload)
]

module _ (tools : ArtifactTools) where
  -- The version that an entry names is there: an artifact of its digest, with its valid signature.
  pub record IsVersion (files : Files) (e : ModelRegistryEntry) : Type 0 where
    pub payload : String
    pub proof_text : String
    pub stored : files (RegistryFile.artifact_file e.machine_id e.artifact_sha256) ≡ some payload
    pub signed :
        files (RegistryFile.signature_file e.machine_id e.artifact_sha256) ≡ some proof_text
    pub digest : tools.sha256 payload ≡ e.artifact_sha256
    pub verified : tools.verifies payload proof_text ≡ true

  -- The pointer and the generation's own file hold this manifest, and all its versions are there.
  pub record IsServing (files : Files) (m : ModelRegistryManifest) : Type 0 where
    pub pointer : load_manifest tools RegistryFile.active_file files ≡ ok m
    pub generation : load_manifest tools (RegistryFile.manifest_file m.generation_id) files ≡ ok m
    pub versions : All (IsVersion files) m.entries

  stored-IsVersion :
      (c : Candidate) (payload proof : String) (files t : Files) (e : ModelRegistryEntry)
      → tools.sha256 payload ≡ c.artifact_sha256
      → tools.verifies payload proof ≡ true
      → (write_once (RegistryFile.artifact_file c.machine_id c.artifact_sha256) payload
            >> (write_once (RegistryFile.signature_file c.machine_id c.artifact_sha256) proof
                >> pure (entry_of c)))
          files
        ≡ (ok e, t)
      → IsVersion t e
  stored-IsVersion c payload proof files t e d v h =
      let artifact = RegistryFile.artifact_file c.machine_id c.artifact_sha256 in
      let signature = RegistryFile.signature_file c.machine_id c.artifact_sha256 in
      let (u, p, h1) = ok_of_bind (write_once artifact payload) _ files t e h in
      let files1 = (write_once artifact payload files).1 in
      let (w, q, h2) = ok_of_bind (write_once signature proof) _ files1 t e h1 in
      let same_files : t ≡ (write_once signature proof files1).1 = cc h2 in
      let same_entry : e ≡ entry_of c = ground (arith, h2) in
      let stored = write_once_ok artifact payload files files1 p in
      rw same_files (
        rw same_entry record {
          payload = payload;
          proof_text = proof;
          stored = Keeps-write_once signature proof files1 artifact payload (λ x. cc x) stored;
          signed = write_once_ok signature proof files1 _ q;
          digest = d;
          verified = v;
        })

  store_candidate-IsVersion :
      (c : Candidate) (payload proof : Option String) (files t : Files) (e : ModelRegistryEntry)
      → store_candidate tools c payload proof files ≡ (ok e, t)
      → IsVersion t e
  unfolding store_candidate
  store_candidate-IsVersion c none _ files t e h = absurd (ground (arith, h))
  store_candidate-IsVersion c (some payload) none files t e h = absurd (ground (arith, h))
  store_candidate-IsVersion c (some payload) (some proof) files t e h =
      elim (Bool-cases (str_eq (tools.sha256 payload) c.artifact_sha256)) [
        | inr n ↦ absurd (ground (arith, n, h))
        | inl d ↦ elim (Bool-cases (tools.verifies payload proof)) [
          | inr n ↦ absurd (ground (arith, d, n, h))
          | inl v ↦ elim (Bool-cases (is_entry (entry_of c))) [
            | inr n ↦ absurd (ground (arith, d, v, n, h))
            | inl k ↦
                stored-IsVersion c payload proof files t e ((eq_iff _ _).0 d) v
                  (ground (arith, d, v, k, h))
          ]
        ]
      ]

  publish_candidate-IsVersion :
      (c : Candidate) (files t : Files) (e : ModelRegistryEntry)
      → publish_candidate tools c files ≡ (ok e, t)
      → IsVersion t e
  unfolding publish_candidate
  publish_candidate-IsVersion c = store_candidate-IsVersion c c.payload c.signature

  module _ {A : Type 0} (m : Exec Files MlArtifactError A) (k : Keeps m) where
    IsVersion-Keeps :
        (files : Files) (e : ModelRegistryEntry) → IsVersion files e → IsVersion (m files).1 e
    IsVersion-Keeps files e v = record {
      payload = v.payload;
      proof_text = v.proof_text;
      stored = k files _ v.payload (λ x. cc x) v.stored;
      signed = k files _ v.proof_text (λ x. cc x) v.signed;
      digest = v.digest;
      verified = v.verified;
    }

    versions-Keeps :
        (files : Files) (es : List ModelRegistryEntry)
        → All (IsVersion files) es
        → All (IsVersion (m files).1) es
    versions-Keeps files [] h = tt
    versions-Keeps files (e ∷ es) (v, h) = (IsVersion-Keeps files e v, versions-Keeps files es h)

  publish_candidates-versions :
      (cs : List Candidate) (files t : Files) (es : List ModelRegistryEntry)
      → publish_candidates tools cs files ≡ (ok es, t)
      → All (IsVersion t) es
  unfolding publish_candidates
  publish_candidates-versions [] files t es h = let same : es ≡ [] = ground (arith, h) in rw same tt
  publish_candidates-versions (c ∷ rest) files t es h =
      let (e, p, h1) = ok_of_bind (publish_candidate tools c) _ files t es h in
      let files1 = (publish_candidate tools c files).1 in
      let (es1, q, h2) = ok_of_bind (publish_candidates tools rest) _ files1 t es h1 in
      let same_files : t ≡ (publish_candidates tools rest files1).1 = cc h2 in
      let same_entries : es ≡ e ∷ es1 = ground (arith, h2) in
      let first = publish_candidate-IsVersion c files files1 e p in
      rw same_files (
        rw same_entries (
          IsVersion-Keeps (publish_candidates tools rest) (Keeps-publish_candidates tools rest)
              files1 e first,
          publish_candidates-versions rest files1 _ es1 q,
        ))

  insert_entry-versions :
      (files : Files) (e : ModelRegistryEntry) (es : List ModelRegistryEntry)
      → IsVersion files e
      → All (IsVersion files) es
      → All (IsVersion files) (insert_entry e es)
  unfolding insert_entry
  insert_entry-versions files e [] v h = (v, tt)
  insert_entry-versions files e (other ∷ rest) v (w, h) =
      elim (Bool-cases (text_leb e.machine_id other.machine_id)) [
        | inl t ↦ rw t (v, (w, h))
        | inr n ↦ rw n (w, insert_entry-versions files e rest v h)
      ]

  sorted_entries-versions :
      (files : Files) (es : List ModelRegistryEntry)
      → All (IsVersion files) es
      → All (IsVersion files) (sorted_entries es)
  unfolding sorted_entries
  sorted_entries-versions files [] h = tt
  sorted_entries-versions files (e ∷ es) (v, h) =
      insert_entry-versions files e (sorted_entries es) v (sorted_entries-versions files es h)

  load_manifest-dump :
      (file : RegistryFile) (files : Files) (m : ModelRegistryManifest)
      → tools.parse (tools.dump m) ≡ some m
      → is_manifest m ≡ true
      → files file ≡ some (tools.dump m)
      → load_manifest tools file files ≡ ok m
  unfolding load_manifest parsed_manifest checked_manifest
  load_manifest-dump file files m codec v h = rw h (rw codec (rw v))

  activate-IsServing :
      (m : ModelRegistryManifest) (files t : Files)
      → tools.parse (tools.dump m) ≡ some m
      → is_manifest m ≡ true
      → All (IsVersion files) m.entries
      → activate tools m files ≡ (ok tt, t)
      → IsServing t m
  unfolding activate
  activate-IsServing m files t codec v versions h =
      let generation = RegistryFile.manifest_file m.generation_id in
      let (u, p, h1) = ok_of_bind (write_once generation (tools.dump m)) _ files t tt h in
      let files1 = (write_once generation (tools.dump m) files).1 in
      let same : t ≡ (write_atomically RegistryFile.active_file (tools.dump m) files1).1 = cc h1 in
      let whole : t ≡ (activate tools m files).1 = cc h in
      let kept =
        versions-Keeps (activate tools m) (Keeps-activate tools m) files m.entries versions in
      let stored = write_once_ok generation (tools.dump m) files files1 p in
      record {
        pointer =
            load_manifest-dump RegistryFile.active_file t m codec v
              (rw same (write_file-same RegistryFile.active_file (tools.dump m) files1));
        generation = load_manifest-dump generation t m codec v (
            rw same (
              Keeps-write_atomically (tools.dump m) files1 generation (tools.dump m) (λ x. cc x)
                stored));
        versions = rw whole kept;
      }

  check_missing :
      (e : ModelRegistryEntry) (payload proof : Option String)
      → (payload ≡ none) ⊎ (proof ≡ none)
      → check_version tools e payload proof ≢ ok tt
  unfolding check_version
  check_missing e none none m h = cc h
  check_missing e none (some proof) m h = cc h
  check_missing e (some payload) none m h = cc h
  check_missing e (some payload) (some proof) (inl p) h = absurd (cc p)
  check_missing e (some payload) (some proof) (inr p) h = absurd (cc p)

  check_present :
      (e : ModelRegistryEntry) (payload proof : String)
      → check_version tools e (some payload) (some proof) ≡ ok tt
      → (tools.sha256 payload ≡ e.artifact_sha256) × (tools.verifies payload proof ≡ true)
  unfolding check_version
  check_present e payload proof h =
      let same = (eq_iff (tools.sha256 payload) e.artifact_sha256).0 in
      elim (Bool-cases (str_eq (tools.sha256 payload) e.artifact_sha256)) [
        | inr n ↦ absurd (ground (arith, n, h))
        | inl d ↦ (same d, ground (arith, d, h))
      ]

  verify_version-same :
      (e : ModelRegistryEntry) (files : Files) → (verify_version tools e files).1 ≡ files
  unfolding verify_version
  verify_version-same e files = refl

  verify_version-IsVersion :
      (e : ModelRegistryEntry) (files t : Files)
      → verify_version tools e files ≡ (ok tt, t)
      → IsVersion files e
  unfolding verify_version
  verify_version-IsVersion e files t h =
      let artifact = files (RegistryFile.artifact_file e.machine_id e.artifact_sha256) in
      let signature = files (RegistryFile.signature_file e.machine_id e.artifact_sha256) in
      let checked : check_version tools e artifact signature ≡ ok tt = cc h in
      elim (Option-cases artifact) [
        | inl p ↦ absurd (check_missing e artifact signature (inl p) (cc h))
        | inr (payload, p) ↦ elim (Option-cases signature) [
          | inl q ↦ absurd (check_missing e artifact signature (inr q) (cc h))
          | inr (proof, q) ↦
              let (digest, verified) = check_present e payload proof (cc (checked, p, q)) in
              record {
                payload = payload;
                proof_text = proof;
                stored = p;
                signed = q;
                digest = digest;
                verified = verified;
              }
        ]
      ]

  verify_versions-versions :
      (es : List ModelRegistryEntry) (files t : Files)
      → verify_versions tools es files ≡ (ok tt, t)
      → All (IsVersion files) es × (t ≡ files)
  unfolding verify_versions
  verify_versions-versions [] files t h = (tt, ground (arith, h))
  verify_versions-versions (e ∷ rest) files t h =
      let (u, p, h1) =
        ok_of_bind (verify_version tools e) (λ u. verify_versions tools rest) files t tt h in
      let files1 = (verify_version tools e files).1 in
      let unchanged : files1 ≡ files = verify_version-same e files in
      let (versions, same) = verify_versions-versions rest files t (rw unchanged at h1) in
      ((verify_version-IsVersion e files files1 p, versions), same)

  -- What `publish` and `rollback` end with.
  activate_checked :
      (m n : ModelRegistryManifest) (files t : Files)
      → tools.parse (tools.dump n) ≡ some n
      → All (IsVersion files) m.entries
      → (require (is_manifest m) MlArtifactError.validation_error >> (activate tools m >> pure m))
          files
        ≡ (ok n, t)
      → (n ≡ m) × IsServing t m
  activate_checked m n files t codec versions h = elim (Bool-cases (is_manifest m)) [
    | inr x ↦ absurd (ground (arith, x, h))
    | inl v ↦
        let h1 : (activate tools m >>= λ u. pure m) files ≡ (ok n, t) = ground (arith, v, h) in
        let (u, p, h2) = ok_of_bind (activate tools m) (λ u. pure m) files t n h1 in
        let same : t ≡ (activate tools m files).1 = cc h2 in
        let equal : n ≡ m = ground (arith, h2) in
        (equal, activate-IsServing m files t (rw equal at codec) v versions (rw same p))
  ]

module _ (tools : ArtifactTools) where
  -- When `publish` returns a manifest that pydantic parses from the JSON that it printed, the
  -- pointer `active.json` and the file of its generation hold it, and for each of its entries the
  -- directory has an artifact of the entry's digest with a signature that the verifier accepts.
  pub publish-IsServing :
      (new_id : ℕ) (now : Datetime) (cs : List Candidate) (files t : Files)
      (m : ModelRegistryManifest)
      → publish tools new_id now cs files ≡ (ok m, t)
      → tools.parse (tools.dump m) ≡ some m
      → IsServing tools t m
  unfolding publish load_current_optional
  publish-IsServing new_id now cs files t m h codec =
      let (u, p0, h0) =
        ok_of_bind (require (not (is_empty cs)) MlArtifactError.no_candidates) _ files t m h in
      let files0 =
        (require {S = Files} (not (is_empty cs)) MlArtifactError.no_candidates files).1 in
      let (es, p1, h1) = ok_of_bind (publish_candidates tools cs) _ files0 t m h0 in
      let files1 = (publish_candidates tools cs files0).1 in
      let (current, p2, h2) = ok_of_bind (load_current_optional tools) _ files1 t m h1 in
      let published : ModelRegistryManifest = record {
        generation_id = new_id;
        created_at = now;
        previous_generation_id = current;
        source_generation_id = none;
        entries = sorted_entries es;
      } in
      let versions =
        sorted_entries-versions tools files1 es
          (publish_candidates-versions tools cs files0 files1 es p1) in
      let (same, serving) = activate_checked tools published m files1 t codec versions h2 in
      rw same serving

  -- When `rollback` returns a manifest that can be parsed in the same way, it has the entries of
  -- the generation that was asked for, and the directory serves it.
  pub rollback-IsServing :
      (new_id : ℕ) (now : Datetime) (generation_id : ℕ) (files t : Files)
      (m : ModelRegistryManifest)
      → rollback tools new_id now generation_id files ≡ (ok m, t)
      → tools.parse (tools.dump m) ≡ some m
      → IsServing tools t m
        × (target : ModelRegistryManifest) × (load_manifest tools
              (RegistryFile.manifest_file generation_id)
              files
            ≡ ok target)
        × (m.entries ≡ target.entries)
  unfolding rollback load_from
  rollback-IsServing new_id now generation_id files t m h codec =
      let (target, p0, h0) =
        ok_of_bind (load_from tools (RegistryFile.manifest_file generation_id)) _ files t m h in
      let loaded = ap (λ (x : Result MlArtifactError ModelRegistryManifest × Files). x.0) p0 in
      let (current, p1, h1) =
        ok_of_bind (load_from tools RegistryFile.active_file) _ files t m h0 in
      let (u, p2, h2) = ok_of_bind (verify_versions tools target.entries) _ files t m h1 in
      let checked = (verify_versions tools target.entries files).1 in
      let (versions, unchanged) = verify_versions-versions tools target.entries files checked p2 in
      let restored : ModelRegistryManifest = record {
        generation_id = new_id;
        created_at = now;
        previous_generation_id = some current.generation_id;
        source_generation_id = some target.generation_id;
        entries = target.entries;
      } in
      let (same, serving) =
        activate_checked tools restored m files t codec versions (rw unchanged at h2) in
      (rw same serving, target, loaded, ap (λ (x : ModelRegistryManifest). x.entries) same)
