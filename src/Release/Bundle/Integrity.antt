-- ===== src/Release/Bundle/Integrity.antt =====
-- What a bundle that src/smart_factory/release_verification.py verifies is.
use smart_factory_monitor.Common.{
  true, String, Option, some, List, [], ◌∷◌, All, ◌≡◌, str_eq, eq_iff, same_set, ok, arith,
}
use smart_factory_monitor.Common.Ensures.{
  Ensures, Ensures-bind, Ensures-step, Ensures-guard, Ensures-ok, Ensures-mono,
}
use smart_factory_monitor.Release.Json.{Members}
use smart_factory_monitor.Release.Files.{
  Entry, Directory, ReleaseTools, entry_names, find_entry, regular_file, all_regular, read_json,
}
use smart_factory_monitor.Release.Checksums.{Checksums, checksum_names, parse_checksums, check_all}
use smart_factory_monitor.Release.Bundle.{
  Release, Expectations, SignatureFile, expected_checksum_names, members_with, release_of,
  check_parts, check_membership, verify_bundle,
}

module _ (tools : ReleaseTools) where
  -- The file of that name is regular, and its bytes have the digest.
  abbrev pub IsSealed : List (String × Entry) → String × String → Type 0
  IsSealed entries (name, digest) =
      (content : String) × (find_entry name entries ≡ some (Entry.regular content))
      × (tools.sha256 content ≡ digest)

  find_entry-regular_file :
      (entries : List (String × Entry)) (name content : String)
      → regular_file entries name ≡ ok content
      → find_entry name entries ≡ some (Entry.regular content)
  unfolding regular_file
  find_entry-regular_file entries name content h = ground arith

  check_all-IsSealed :
      (entries : List (String × Entry)) (checksums : Checksums)
      → Ensures (λ _. All (IsSealed entries) checksums) (check_all tools entries checksums)
  unfolding check_all
  check_all-IsSealed entries [] = Ensures-ok tt tt
  check_all-IsSealed entries ((name, digest) ∷ rest) =
      Ensures-step (regular_file entries name) _ λ content found.
        Ensures-guard (str_eq (tools.sha256 content) digest) _ _ λ same.
          Ensures-mono (check_all tools entries rest) (check_all-IsSealed entries rest) λ t sealed.
            (
              (
                content,
                find_entry-regular_file entries name content found,
                ground (arith, eq_iff (tools.sha256 content) digest),
              ),
              sealed,
            )

  -- The directory holds the expected files and no other, its checksum file covers them, and every
  -- file has its recorded checksum.
  pub record HasMembers (entries : List (String × Entry)) (version : String)
      (signature : Option SignatureFile) : Type 0 where
    pub members : List String
    pub expected : members_with signature version ≡ ok members
    pub exact : same_set (entry_names entries) members ≡ true
    pub checksums : Checksums
    pub parsed : parse_checksums tools entries ≡ ok checksums
    pub covers : same_set (checksum_names checksums) (expected_checksum_names version) ≡ true
    pub sealed : All (IsSealed entries) checksums

  check_membership-HasMembers :
      (entries : List (String × Entry)) (version : String) (signature : Option SignatureFile)
      → Ensures
          (λ _. HasMembers entries version signature)
          (check_membership tools entries version signature)
  unfolding check_membership
  check_membership-HasMembers entries version signature =
      Ensures-step (members_with signature version) _ λ members expected.
        Ensures-guard (same_set (entry_names entries) members) _ _ λ exact.
          Ensures-step (parse_checksums tools entries) _ λ checksums parsed.
            Ensures-guard (same_set (checksum_names checksums) (expected_checksum_names version)) _
              _
              λ covers.
                Ensures-mono (check_all tools entries checksums)
                  (check_all-IsSealed entries checksums)
                  λ t sealed. record {
                    members = members;
                    expected = expected;
                    exact = exact;
                    checksums = checksums;
                    parsed = parsed;
                    covers = covers;
                    sealed = sealed;
                  }

  pub record IsVerified (directory : Directory) (expected : Expectations)
      (signature : Option SignatureFile) (release : Release) : Type 0 where
    pub real : directory.is_real ≡ true
    pub regular : all_regular directory.entries ≡ ok tt
    pub manifest : Members
    pub read : read_json tools directory.entries "release-manifest.json" ≡ ok manifest
    pub identity : release_of expected manifest ≡ ok (release.version, release.revision)
    pub parts :
        check_parts tools directory.entries expected release.version release.revision manifest
        ≡ ok ((release.platform, release.reference), release.recipient_key_sha256)
    pub membership : HasMembers directory.entries release.version signature

  pub verify_bundle-IsVerified :
      (directory : Directory) (expected : Expectations) (signature : Option SignatureFile)
      → Ensures
          (IsVerified directory expected signature)
          (verify_bundle tools directory expected signature)
  unfolding verify_bundle
  verify_bundle-IsVerified directory expected signature =
      Ensures-guard directory.is_real _ _ λ real.
        Ensures-step (all_regular directory.entries) _ λ t regular.
          Ensures-step (read_json tools directory.entries "release-manifest.json") _
            λ manifest read. Ensures-step (release_of expected manifest) _ λ release identity.
              Ensures-step
                (check_parts tools directory.entries expected release.0 release.1 manifest) _
                λ found parts.
                  Ensures-bind _ _
                    (check_membership-HasMembers directory.entries release.0 signature)
                    λ u membership. Ensures-ok _ record {
                      real = real;
                      regular = regular;
                      manifest = manifest;
                      read = read;
                      identity = identity;
                      parts = parts;
                      membership = membership;
                    }
