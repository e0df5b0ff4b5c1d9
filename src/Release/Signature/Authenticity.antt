-- ===== src/Release/Signature/Authenticity.antt =====
-- A signature file of src/smart_factory/release_signature.py determines the bundle that it
-- verifies.
use smart_factory_monitor.Common.{
  true, String, Option, none, some, List, ◌≡◌, refl, sym, ◌∙◌, bind_inversion, inl, inr, str_eq,
  contains, ◌⊎◌, ok, arith,
}
use smart_factory_monitor.Common.Ensures.{Ensures, Ensures-step, Ensures-guard}
use smart_factory_monitor.Signing.{Crypto}
use smart_factory_monitor.Release.Json.{Json, Members, remove, get, as_text, json_eq}
use smart_factory_monitor.Release.Json.Equality.{
  at_key, MemberAt, at_key_of_json_eq, text_of_json_eq,
}
use smart_factory_monitor.Release.Files.{
  Entry, Directory, ReleaseTools, find_entry, regular_file, given,
}
use smart_factory_monitor.Release.Bundle.{
  Release, Expectations, SignatureFile, signature_name, verify_bundle, expected_checksum_names,
}
use smart_factory_monitor.Release.Bundle.Integrity.{verify_bundle-IsVerified}
use smart_factory_monitor.Release.Bundle.Agreement.{Collision, members_alike}
use smart_factory_monitor.Release.Signature.{
  SigningKeys, payload_of, signed_release, payload_matches, has_signature_keys, has_64_bytes,
  signature_verifies, verify_release_signature, fingerprint, load_public_key, payload_digests,
  read_signature,
}

-- What the document says was signed.
signed_part : Members → Option Json
signed_part document = at_key "signed_release" (some (Json.object (remove "signature" document)))

-- The digest of the checksum file, and the version
record Signed (document : Members) (checksums version : String) : Type 0 where
  digest_signed :
      as_text (at_key "sha256" (at_key "checksums" (signed_part document))) ≡ some checksums
  version_signed : as_text (at_key "version" (signed_part document)) ≡ some version

-- Where the parts of the payload stand
at_signed :
    (a b : String) (r : Release) (k : String)
    → MemberAt "signed_release" (signed_release a b r) (payload_of a b r k)
unfolding payload_of
at_signed a b r k = inr (inr (inl (refl, refl)))

text_at :
    (key s : String) (ms : Members) (j : Json)
    → MemberAt key (Json.text s) ms
    → json_eq (Json.object ms) j ≡ true
    → as_text (at_key key (some j)) ≡ some s
unfolding as_text
text_at key s ms j at h =
    let (found, p, q) = at_key_of_json_eq key (Json.text s) ms j at h in
    rw (p, text_of_json_eq s found q)

signed_texts :
    (a b : String) (r : Release) (signed : Json)
    → json_eq (signed_release a b r) signed ≡ true
    → (as_text (at_key "sha256" (at_key "checksums" (some signed))) ≡ some a)
      × (as_text (at_key "version" (some signed)) ≡ some r.version)
unfolding signed_release
signed_texts a b r signed h =
    let (checksums, p, q) = at_key_of_json_eq "checksums" _ _ signed (inl (refl, refl)) h in
    (
      rw p (text_at "sha256" a _ checksums (inr (inl (refl, refl))) q),
      text_at "version" r.version _ signed (inr (inr (inr (inr (inr (inl (refl, refl))))))) h,
    )

Signed-of_payload :
    (a b : String) (release : Release) (key_id : String) (document : Members)
    → json_eq
        (Json.object (payload_of a b release key_id))
        (Json.object (remove "signature" document))
      ≡ true
    → Signed document a release.version
unfolding signed_part
Signed-of_payload a b release key_id document h =
    let (signed, p, q) =
      at_key_of_json_eq "signed_release" (signed_release a b release)
        (payload_of a b release key_id) (Json.object (remove "signature" document))
        (at_signed a b release key_id) h in
    let (digest, version) = signed_texts a b release signed q in
    record { digest_signed = rw p digest; version_signed = rw p version }

module _ (c : Crypto) (keys : SigningKeys) (tools : ReleaseTools) where
  -- The document of the signature file carries a signature over the rest of it under the public
  -- key.
  pub record IsAuthentic (file : SignatureFile) (key : Entry) : Type 0 where
    pub document : Members
    pub read : read_signature c keys tools file.entry ≡ ok document
    pub public_key : String
    pub key_loaded : load_public_key c keys tools key ≡ ok public_key
    pub encoded : String
    pub carried : as_text (get "signature" document) ≡ some encoded
    pub signature : String
    pub decoded : tools.b64decode encoded ≡ some signature
    pub authentic :
        c.verify public_key
          (tools.canonical_json (Json.object (remove "signature" document)))
          signature
        ≡ true

  -- What a verified signature has found.
  record HasVerified (entries : List (String × Entry)) (file : SignatureFile) (key : Entry)
      (release : Release) : Type 0 where
    authentication : IsAuthentic file key
    digests : String × String
    found : payload_digests c keys tools entries ≡ ok digests
    signed : Signed authentication.document digests.0 release.version

  ok-given :
      {A : Type 0} (message : String) (o : Option A) (x : A) → given message o ≡ ok x → o ≡ some x
  unfolding given
  ok-given message none x e = absurd (cc e)
  ok-given message (some y) x e = cc e

  Signed-of_payload_matches :
      (digests : String × String) (release : Release) (key_id : String) (document : Members)
      → payload_matches c keys tools digests release key_id document ≡ true
      → Signed document digests.0 release.version
  unfolding payload_matches
  Signed-of_payload_matches digests release key_id document h =
      Signed-of_payload digests.0 digests.1 release key_id document h

  verify_release_signature-HasVerified :
      (entries : List (String × Entry)) (file : SignatureFile) (key : Entry) (release : Release)
      → Ensures
          (λ _. HasVerified entries file key release)
          (verify_release_signature c keys tools entries file key release)
  unfolding verify_release_signature signature_verifies
  verify_release_signature-HasVerified entries file key release =
      Ensures-guard (str_eq file.name (signature_name release.version)) _ _ λ named.
        Ensures-step (read_signature c keys tools file.entry) _ λ document read.
          Ensures-guard (has_signature_keys document) _ _ λ keyed.
            Ensures-step (load_public_key c keys tools key) _ λ public loaded.
              Ensures-step (payload_digests c keys tools entries) _ λ digests found.
                Ensures-guard
                  (payload_matches c keys tools digests release (fingerprint c keys tools public)
                    document)
                  _ _
                  λ matches.
                    Ensures-step
                      (given "release signature encoding is invalid"
                        (as_text (get "signature" document)))
                      _
                      λ encoded carried.
                        Ensures-step
                          (given "release signature encoding is invalid" (tools.b64decode encoded))
                          _
                          λ signature decoded. Ensures-guard (has_64_bytes signature) _ _ λ long.
                            Ensures-guard
                              (signature_verifies c keys tools public document signature) _ _
                              λ authentic. record {
                                holds = λ k e. record {
                                  authentication = record {
                                    document = document;
                                    read = read;
                                    public_key = public;
                                    key_loaded = loaded;
                                    encoded = encoded;
                                    carried = ok-given _ _ encoded carried;
                                    signature = signature;
                                    decoded = ok-given _ _ signature decoded;
                                    authentic = authentic;
                                  };
                                  digests = digests;
                                  found = found;
                                  signed =
                                      Signed-of_payload_matches digests release
                                        (fingerprint c keys tools public) document matches;
                                };
                              }

  -- The digest of the checksum file
  digest_found :
      (entries : List (String × Entry)) (digests : String × String)
      → payload_digests c keys tools entries ≡ ok digests
      → (content : String) × (regular_file entries "SHA256SUMS" ≡ ok content)
        × (tools.sha256 content ≡ digests.0)
  unfolding payload_digests
  digest_found entries digests h =
      let (content, p, h) = bind_inversion (regular_file entries "SHA256SUMS") _ digests h in
      let (manifest, q, h) =
        bind_inversion (regular_file entries "release-manifest.json") _ digests h in
      (content, p, ground arith)

  some_injective : (s t : String) (o : Option String) → o ≡ some s → o ≡ some t → s ≡ t
  some_injective s t o p q = cc

  -- Two bundles that verify, each with the same signature file and key, are of one version, the
  -- signature in that file is one of its document under the public key, and the bundles hold the
  -- same bytes under every checksummed name; or there is a name under which the one bundle holds
  -- other bytes than the other, of the same SHA-256.
  pub signed_bundles_agree :
      (directory other : Directory) (expected other_expected : Expectations) (file : SignatureFile)
      (key : Entry) (release other_release : Release) (key_id other_key_id name : String)
      → verify_bundle tools directory expected (some file) ≡ ok release
      → verify_bundle tools other other_expected (some file) ≡ ok other_release
      → verify_release_signature c keys tools directory.entries file key release ≡ ok key_id
      → verify_release_signature c keys tools other.entries file key other_release ≡ ok other_key_id
      → contains name (expected_checksum_names release.version) ≡ true
      → IsAuthentic file key
        × (release.version ≡ other_release.version)
        × ((find_entry name directory.entries ≡ find_entry name other.entries)
            ⊎ Collision tools directory.entries other.entries)
  signed_bundles_agree directory other expected other_expected file key release other_release key_id
        other_key_id name v w s t listed =
      let x =
        (verify_release_signature-HasVerified directory.entries file key release).holds key_id s in
      let y =
        (verify_release_signature-HasVerified other.entries file key other_release).holds
          other_key_id t in
      let same : x.authentication.document ≡ y.authentication.document =
        cc (x.authentication.read, y.authentication.read) in
      let version : release.version ≡ other_release.version =
        some_injective _ _ _ x.signed.version_signed (rw same y.signed.version_signed) in
      let digest : x.digests.0 ≡ y.digests.0 =
        some_injective _ _ _ x.signed.digest_signed (rw same y.signed.digest_signed) in
      let (content, p, pd) = digest_found directory.entries x.digests x.found in
      let (content', q, qd) = digest_found other.entries y.digests y.found in
      let m =
        ((verify_bundle-IsVerified tools directory expected (some file)).holds release
          v).membership in
      let n =
        ((verify_bundle-IsVerified tools other other_expected (some file)).holds other_release
          w).membership in
      (
        x.authentication,
        version,
        members_alike tools directory.entries other.entries release.version (some file) (some file)
            name content content' m (rw version n) p q (pd ∙ digest ∙ sym qd) listed,
      )
