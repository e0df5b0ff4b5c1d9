-- ===== src/Release/Bundle/Agreement.antt =====
-- Bundles with the same checksum file: src/smart_factory/release_verification.py accepts no two
-- that differ in a file.
use smart_factory_monitor.Common.{
  true, String, Option, List, [], ◌∷◌, All, all, ◌≡◌, refl, some, ok, ◌⊎◌, ◌≢◌, sym, ◌∙◌, str_eq,
  eq_iff, contains, same_set, Bool-cases, inl, inr, arith,
}
use smart_factory_monitor.Release.Files.{
  Entry, ReleaseTools, find_entry, regular_file, regular_file-ok,
}
use smart_factory_monitor.Release.Checksums.{Checksums, checksum_names, parse_checksums}
use smart_factory_monitor.Release.Bundle.{expected_checksum_names, SignatureFile}
use smart_factory_monitor.Release.Bundle.Integrity.{IsSealed, HasMembers}

contains_of_all :
    (name : String) (xs ys : List String)
    → all (λ y. contains y xs) ys ≡ true
    → contains name ys ≡ true
    → contains name xs ≡ true
unfolding contains
contains_of_all name xs [] h c = absurd (cc c)
contains_of_all name xs (y ∷ ys) h c = elim (Bool-cases (str_eq name y)) [
  | inl e ↦ let p : name ≡ y = ground (arith, eq_iff name y) in rw p (ground arith)
  | inr e ↦ contains_of_all name xs ys (ground arith) (ground arith)
]

contains_of_same_set :
    (name : String) (xs ys : List String)
    → same_set xs ys ≡ true
    → contains name ys ≡ true
    → contains name xs ≡ true
unfolding same_set
contains_of_same_set name xs ys h c = contains_of_all name xs ys (ground arith) c

same_or_differ : (s t : String) → (s ≡ t) ⊎ (s ≢ t)
same_or_differ s t = elim (Bool-cases (str_eq s t)) [
  | inl e ↦ inl ((eq_iff s t).0 e)
  | inr f ↦ inr (λ q. cc ((eq_iff s t).1 q))
]

module _ (tools : ReleaseTools) where
  -- Two directories hold different bytes under one name, and SHA-256 does not tell them apart.
  pub record Collision (entries others : List (String × Entry)) : Type 0 where
    pub name : String
    pub left : String
    pub right : String
    pub found_left : find_entry name entries ≡ some (Entry.regular left)
    pub found_right : find_entry name others ≡ some (Entry.regular right)
    pub differ : left ≢ right
    pub same_digest : tools.sha256 left ≡ tools.sha256 right

  sealed_alike :
      (entries others : List (String × Entry)) (checksums : Checksums) (name : String)
      → All (IsSealed tools entries) checksums
      → All (IsSealed tools others) checksums
      → contains name (checksum_names checksums) ≡ true
      → (find_entry name entries ≡ find_entry name others) ⊎ Collision entries others
  unfolding contains
  sealed_alike entries others [] name p q c = absurd (cc c)
  sealed_alike entries others ((key, digest) ∷ rest) name p q c =
      elim (Bool-cases (str_eq name key)) [
        | inl e ↦
            let (s, found, sealed) = p.0 in
            let (t, found', sealed') = q.0 in
            let same : name ≡ key = ground (arith, eq_iff name key) in
            elim (same_or_differ s t) [
              | inl equal ↦ inl (rw (same, found, found', equal) refl)
              | inr different ↦ inr record {
                name = key;
                left = s;
                right = t;
                found_left = found;
                found_right = found';
                differ = different;
                same_digest = sealed ∙ sym sealed';
              }
            ]
        | inr e ↦ sealed_alike entries others rest name p.1 q.1 (ground arith)
      ]

  parse_checksums-eq :
      (entries others : List (String × Entry))
      → regular_file entries "SHA256SUMS" ≡ regular_file others "SHA256SUMS"
      → parse_checksums tools entries ≡ parse_checksums tools others
  unfolding parse_checksums
  parse_checksums-eq entries others e = rw e

  -- Two directories with the members of one version, whose checksum files have one digest, hold the
  -- same bytes under every checksummed name, or a collision.
  pub members_alike :
      (entries others : List (String × Entry)) (version : String)
      (signature other_signature : Option SignatureFile) (name content content' : String)
      → HasMembers tools entries version signature
      → HasMembers tools others version other_signature
      → regular_file entries "SHA256SUMS" ≡ ok content
      → regular_file others "SHA256SUMS" ≡ ok content'
      → tools.sha256 content ≡ tools.sha256 content'
      → contains name (expected_checksum_names version) ≡ true
      → (find_entry name entries ≡ find_entry name others) ⊎ Collision entries others
  members_alike entries others version signature other_signature name content content' m n p q e c =
      elim (same_or_differ content content') [
        | inr different ↦ inr record {
          name = "SHA256SUMS";
          left = content;
          right = content';
          found_left = regular_file-ok entries "SHA256SUMS" content p;
          found_right = regular_file-ok others "SHA256SUMS" content' q;
          differ = different;
          same_digest = e;
        }
        | inl equal ↦
            let same : m.checksums ≡ n.checksums =
              cc (m.parsed, n.parsed, parse_checksums-eq entries others (cc (p, q, equal))) in
            sealed_alike entries others m.checksums name m.sealed (rw same n.sealed) (
              contains_of_same_set name (checksum_names m.checksums)
                (expected_checksum_names version) m.covers c)
      ]
