-- ===== src/Registry/Files/Keeps.antt =====
-- What the publisher never overwrites: the immutable files.
use smart_factory_monitor.Common.{
  ℕ, String, Bool, true, false, ◌≡◌, ◌≢◌, refl, sym, inl, inr, Option, none, some, List, [], ◌∷◌,
  arith, str_eq, eq_iff, Bool-cases, Option-cases, Result-cases,
}
use smart_factory_monitor.Common.Exec.{Exec, ◌>>=◌, require}
use smart_factory_monitor.Domain.{Datetime}
use smart_factory_monitor.Registry.{ModelRegistryEntry, ModelRegistryManifest}
use smart_factory_monitor.Registry.Files.{
  RegistryFile, same_file, Files, MlArtifactError, Candidate, ArtifactTools, write_file,
  keep_or_write, is_entry, entry_of, write_once, write_atomically, store_candidate,
  publish_candidate, publish_candidates, activate, load_current_optional, publish, verify_version,
  verify_versions, load_from, rollback,
}

pub same_file_refl : (f : RegistryFile) → same_file f f ≡ true
unfolding same_file
same_file_refl (RegistryFile.artifact_file m s) = ground (arith, eq_iff m m, eq_iff s s)
same_file_refl (RegistryFile.signature_file m s) = ground (arith, eq_iff m m, eq_iff s s)
same_file_refl (RegistryFile.manifest_file g) = ground arith
same_file_refl RegistryFile.active_file = refl

pub same_file-eq : (f g : RegistryFile) → same_file f g ≡ true → f ≡ g
unfolding same_file
same_file-eq (RegistryFile.artifact_file m s) (RegistryFile.artifact_file n t) h =
    ground (arith, eq_iff m n, eq_iff s t, h)
same_file-eq (RegistryFile.signature_file m s) (RegistryFile.signature_file n t) h =
    ground (arith, eq_iff m n, eq_iff s t, h)
same_file-eq (RegistryFile.manifest_file g) (RegistryFile.manifest_file k) h = ground (arith, h)
same_file-eq RegistryFile.active_file RegistryFile.active_file h = refl
same_file-eq (RegistryFile.artifact_file m s) (RegistryFile.signature_file n t) h = cc h
same_file-eq (RegistryFile.artifact_file m s) (RegistryFile.manifest_file k) h = cc h
same_file-eq (RegistryFile.artifact_file m s) RegistryFile.active_file h = cc h
same_file-eq (RegistryFile.signature_file m s) (RegistryFile.artifact_file n t) h = cc h
same_file-eq (RegistryFile.signature_file m s) (RegistryFile.manifest_file k) h = cc h
same_file-eq (RegistryFile.signature_file m s) RegistryFile.active_file h = cc h
same_file-eq (RegistryFile.manifest_file g) (RegistryFile.artifact_file n t) h = cc h
same_file-eq (RegistryFile.manifest_file g) (RegistryFile.signature_file n t) h = cc h
same_file-eq (RegistryFile.manifest_file g) RegistryFile.active_file h = cc h
same_file-eq RegistryFile.active_file (RegistryFile.artifact_file n t) h = cc h
same_file-eq RegistryFile.active_file (RegistryFile.signature_file n t) h = cc h
same_file-eq RegistryFile.active_file (RegistryFile.manifest_file k) h = cc h

-- A file other than the pointer stays as it is once it is written, whether the operation returns or
-- raises.
abbrev pub Keeps : {A : Type 0} → Exec Files MlArtifactError A → Type 0
Keeps m =
    (files : Files) (file : RegistryFile) (content : String)
    → file ≢ RegistryFile.active_file
    → files file ≡ some content
    → (m files).1 file ≡ some content

module _ {A B : Type 0} where
  pub Keeps-bind :
      (m : Exec Files MlArtifactError A) (f : A → Exec Files MlArtifactError B)
      → Keeps m
      → ((a : A) → Keeps (f a))
      → Keeps (m >>= f)
  Keeps-bind m f k l files file content h p = elim (Result-cases (m files).0) [
    | inl (a, e) ↦ rw e (l a (m files).1 file content h (k files file content h p))
    | inr (x, e) ↦ rw e (k files file content h p)
  ]

Keeps-require : (b : Bool) (e : MlArtifactError) → Keeps (require b e)
Keeps-require true e files file content h p = p
Keeps-require false e files file content h p = p

write_file-other :
    (file other : RegistryFile) (payload : String) (files : Files)
    → same_file file other ≡ false
    → write_file file payload files other ≡ files other
unfolding write_file
write_file-other file other payload files h = rw h

pub write_file-same :
    (file : RegistryFile) (payload : String) (files : Files)
    → write_file file payload files file ≡ some payload
unfolding write_file
write_file-same file payload files = rw (same_file_refl file)

pub Keeps-write_once : (file : RegistryFile) (payload : String) → Keeps (write_once file payload)
unfolding write_once keep_or_write
Keeps-write_once file payload files other content h p = elim (Option-cases (files file)) [
  | inr (present, e) ↦ rw e (
      Keeps-require (str_eq present payload) MlArtifactError.immutable_path_conflict files other
        content h p)
  | inl e ↦ elim (Bool-cases (same_file file other)) [
    | inl same ↦ absurd (cc (e, p, same_file-eq file other same))
    | inr differs ↦ rw e (rw (write_file-other file other payload files differs) p)
  ]
]

pub Keeps-write_atomically :
    (payload : String) → Keeps (write_atomically RegistryFile.active_file payload)
unfolding write_atomically
Keeps-write_atomically payload files other content h p =
    elim (Bool-cases (same_file RegistryFile.active_file other)) [
      | inl same ↦ absurd (h (sym (same_file-eq RegistryFile.active_file other same)))
      | inr differs ↦ rw (write_file-other RegistryFile.active_file other payload files differs) p
    ]

module _ (tools : ArtifactTools) where
  Keeps-store_candidate :
      (c : Candidate) (payload signature : Option String)
      → Keeps (store_candidate tools c payload signature)
  unfolding store_candidate
  Keeps-store_candidate c none s = λ files file content h p. p
  Keeps-store_candidate c (some payload) none = λ files file content h p. p
  Keeps-store_candidate c (some payload) (some s) =
      Keeps-bind (require (str_eq (tools.sha256 payload) c.artifact_sha256) _) _ (Keeps-require _ _)
        λ u. Keeps-bind (require (tools.verifies payload s) _) _ (Keeps-require _ _) λ v.
          Keeps-bind (require (is_entry (entry_of c)) _) _ (Keeps-require _ _) λ y.
            Keeps-bind
              (write_once (RegistryFile.artifact_file c.machine_id c.artifact_sha256) payload) _
              (Keeps-write_once _ _)
              λ w.
                Keeps-bind
                  (write_once (RegistryFile.signature_file c.machine_id c.artifact_sha256) s) _
                  (Keeps-write_once _ _) λ x files file content h p. p

  pub Keeps-publish_candidate : (c : Candidate) → Keeps (publish_candidate tools c)
  unfolding publish_candidate
  Keeps-publish_candidate c = Keeps-store_candidate c c.payload c.signature

  pub Keeps-publish_candidates : (cs : List Candidate) → Keeps (publish_candidates tools cs)
  unfolding publish_candidates
  Keeps-publish_candidates [] = λ files file content h p. p
  Keeps-publish_candidates (c ∷ rest) =
      Keeps-bind (publish_candidate tools c) _ (Keeps-publish_candidate c) λ entry.
        Keeps-bind (publish_candidates tools rest) _ (Keeps-publish_candidates rest)
          λ entries files file content h p. p

  pub Keeps-activate : (m : ModelRegistryManifest) → Keeps (activate tools m)
  unfolding activate
  Keeps-activate m =
      Keeps-bind (write_once (RegistryFile.manifest_file m.generation_id) (tools.dump m)) _
        (Keeps-write_once _ _) λ u. Keeps-write_atomically (tools.dump m)

  Keeps-verify_versions : (es : List ModelRegistryEntry) → Keeps (verify_versions tools es)
  unfolding verify_versions verify_version
  Keeps-verify_versions [] = λ files file content h p. p
  Keeps-verify_versions (e ∷ rest) =
      Keeps-bind (verify_version tools e) _ (λ files file content h p. p)
        λ u. Keeps-verify_versions rest

  pub publish-Keeps :
      (new_id : ℕ) (now : Datetime) (cs : List Candidate) → Keeps (publish tools new_id now cs)
  unfolding publish load_current_optional
  publish-Keeps new_id now cs = Keeps-bind (require _ _) _ (Keeps-require _ _) λ u.
      Keeps-bind (publish_candidates tools cs) _ (Keeps-publish_candidates cs) λ published.
        Keeps-bind (load_current_optional tools) _ (λ files file content h p. p)
          λ current.
            Keeps-bind (require _ _) _ (Keeps-require _ _)
              λ v. Keeps-bind (activate tools _) _ (Keeps-activate _) λ w files file content h p. p

  pub rollback-Keeps :
      (new_id : ℕ) (now : Datetime) (generation_id : ℕ)
      → Keeps (rollback tools new_id now generation_id)
  unfolding rollback load_from
  rollback-Keeps new_id now generation_id =
      Keeps-bind (load_from tools _) _ (λ files file content h p. p)
        λ target.
          Keeps-bind (load_from tools _) _ (λ files file content h p. p)
            λ current.
              Keeps-bind (verify_versions tools target.entries) _
                (Keeps-verify_versions target.entries)
                λ u. Keeps-bind (require _ _) _ (Keeps-require _ _) λ v.
                  Keeps-bind (activate tools _) _ (Keeps-activate _) λ w files file content h p. p

  -- A file of the registry other than the pointer `active.json` that is there keeps its content
  -- under `publish` and under `rollback`, whether they return or raise.
  pub registry_immutable :
      (new_id : ℕ) (now : Datetime) (cs : List Candidate) (generation_id : ℕ) (files : Files)
      (file : RegistryFile) (content : String)
      → file ≢ RegistryFile.active_file
      → files file ≡ some content
      → ((publish tools new_id now cs files).1 file ≡ some content)
        × ((rollback tools new_id now generation_id files).1 file ≡ some content)
  registry_immutable new_id now cs generation_id files file content h p = (
    publish-Keeps new_id now cs files file content h p,
    rollback-Keeps new_id now generation_id files file content h p,
  )
