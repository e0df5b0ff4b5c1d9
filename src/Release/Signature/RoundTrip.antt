-- ===== src/Release/Signature/RoundTrip.antt =====
-- A signature that src/smart_factory/release_signature.py makes is one that it verifies.
use smart_factory_monitor.Common.{
  String, ◌<>◌, count, ◌≡◌, refl, ap, true, Bool, none, some, List, str_eq, str_eq_refl, eq_iff, ok,
  same_int, arith,
}
use smart_factory_monitor.Common.Ensures.{Ensures, Ensures-step, Ensures-guard, Ensures-ok}
use smart_factory_monitor.Signing.{Crypto, LoadedKey, IsKeyPair}
use smart_factory_monitor.Release.Json.{
  Json, Members, get, remove, as_text, as_object, json_eq, size_members,
}
use smart_factory_monitor.Release.Files.{Entry, Directory, ReleaseTools, given}
use smart_factory_monitor.Release.Bundle.{Release, Expectations, signature_name, verify_bundle}
use smart_factory_monitor.Release.Signature.{
  SigningKeys, Destination, payload_of, document_of, has_signature_keys, payload_matches,
  signature_content, sign_release_bundle, verify_release_signature, fingerprint, load_public_key,
  load_private_key, payload_digests, validate_destination, stable_bundle_snapshot, read_signature,
  has_64_bytes, signature_verifies,
}

remove-document_of :
    (a b : String) (r : Release) (k s : String)
    → remove "signature" (document_of a b r k s) ≡ payload_of a b r k
unfolding remove document_of payload_of
remove-document_of a b r k s = refl

has_signature_keys-document_of :
    (a b : String) (r : Release) (k s : String) → has_signature_keys (document_of a b r k s) ≡ true
unfolding has_signature_keys document_of get size_members
has_signature_keys-document_of a b r k s = refl

json_eq-payload_of :
    (a b : String) (r : Release) (k : String)
    → json_eq (Json.object (payload_of a b r k)) (Json.object (payload_of a b r k)) ≡ true
unfolding json_eq payload_of same_int
json_eq-payload_of a b r k = rw (
  str_eq_refl a,
  str_eq_refl b,
  str_eq_refl r.reference,
  str_eq_refl r.revision,
  str_eq_refl r.version,
  str_eq_refl k,
)

module _ (c : Crypto) (keys : SigningKeys) (tools : ReleaseTools)
    (private public pem : String) where
  -- What the round trip needs of the packages, for one pair of keys: the pair belongs together, the
  -- public file holds its key, and a signature has 64 bytes and survives base64.
  pub record AreSigningKeys : Type 0 where
    pub pair : IsKeyPair c private public
    pub own : keys.public_key private ≡ public
    pub loads : c.load_pem_public_key pem ≡ some (LoadedKey.ed25519 public)
    pub codec : (s : String) → tools.b64decode (tools.b64encode s) ≡ some s
    pub has_length : (payload : String) → count (c.sign private payload) ≡ 64

  -- The document that is signed for two digests and a release
  abbrev pub signed_document : String × String → Release → Json
  signed_document digests release =
      let key_id = fingerprint c keys tools public in
      let payload = Json.object (payload_of digests.0 digests.1 release key_id) in
      let signature = tools.b64encode (c.sign private (tools.canonical_json payload)) in
      Json.object (document_of digests.0 digests.1 release key_id signature)

  -- What is printed of a document can be read again, with the keys in the order of printing.
  abbrev pub ReadsBack : Json → Type 0
  ReadsBack document =
      (text : String) × (tools.decode_utf8 (tools.canonical_json document <> "\n") ≡ some text)
      × (tools.loads text ≡ some document)

  read_signature-content :
      (document : Members)
      → ReadsBack (Json.object document)
      → read_signature c keys tools
          (Entry.regular (tools.canonical_json (Json.object document) <> "\n"))
        ≡ ok document
  unfolding read_signature as_object given
  read_signature-content document (text, decoded, loaded) = rw decoded (rw loaded)

  signature_content-eq :
      (digests : String × String) (release : Release)
      → keys.public_key private ≡ public
      → signature_content c keys tools private digests release
        ≡ tools.canonical_json (signed_document digests release) <> "\n"
  unfolding signature_content
  signature_content-eq digests release own = rw own

  load_public_key-pem :
      AreSigningKeys → load_public_key c keys tools (Entry.regular pem) ≡ ok public
  unfolding load_public_key
  load_public_key-pem k = rw (k.loads)

  payload_matches-document_of :
      (digests : String × String) (release : Release) (key_id signature : String)
      → payload_matches c keys tools digests release key_id
          (document_of digests.0 digests.1 release key_id signature)
        ≡ true
  unfolding payload_matches
  payload_matches-document_of digests release key_id signature =
      rw (remove-document_of digests.0 digests.1 release key_id signature)
        (json_eq-payload_of digests.0 digests.1 release key_id)

  signature-document_of :
      (digests : String × String) (release : Release) (key_id signature : String)
      → as_text (get "signature" (document_of digests.0 digests.1 release key_id signature))
        ≡ some signature
  unfolding as_text get document_of
  signature-document_of digests release key_id signature = refl

  signature_verifies-document_of :
      (digests : String × String) (release : Release) (key_id encoded : String)
      → AreSigningKeys
      → signature_verifies c keys tools public
          (document_of digests.0 digests.1 release key_id encoded)
          (c.sign private
            (tools.canonical_json (Json.object (payload_of digests.0 digests.1 release key_id))))
        ≡ true
  unfolding signature_verifies remove payload_of document_of
  signature_verifies-document_of digests release key_id encoded k = k.pair.verify-sign _

  has_64_bytes-sign :
      (payload : String) → AreSigningKeys → has_64_bytes (c.sign private payload) ≡ true
  unfolding has_64_bytes
  has_64_bytes-sign payload k = let e = k.has_length payload in rw e

  verify-content :
      (entries : List (String × Entry)) (digests : String × String) (release : Release) (b : Bool)
      → AreSigningKeys
      → ReadsBack (signed_document digests release)
      → payload_digests c keys tools entries ≡ ok digests
      → verify_release_signature c keys tools entries
          (record {
            name = signature_name release.version;
            entry = Entry.regular (signature_content c keys tools private digests release);
            in_directory = b;
          })
          (Entry.regular pem)
          release
        ≡ ok (fingerprint c keys tools public)
  unfolding verify_release_signature
  verify-content entries digests release b k back found =
      let key_id = fingerprint c keys tools public in
      let payload = Json.object (payload_of digests.0 digests.1 release key_id) in
      let signature = c.sign private (tools.canonical_json payload) in
      let encoded = tools.b64encode signature in
      let document = document_of digests.0 digests.1 release key_id encoded in
      rw (
        str_eq_refl (signature_name release.version),
        signature_content-eq digests release k.own,
        read_signature-content document back,
        has_signature_keys-document_of digests.0 digests.1 release key_id encoded,
        load_public_key-pem k,
        found,
        payload_matches-document_of digests release key_id encoded,
        signature-document_of digests release key_id encoded,
        k.codec signature,
        has_64_bytes-sign (tools.canonical_json payload) k,
        signature_verifies-document_of digests release key_id encoded k,
      )

  -- What a successful signing has found.
  record HasSigned (directory : Directory) (destination : Destination) (expected : Expectations)
      (content : String) : Type 0 where
    release : Release
    verified :
        verify_bundle tools (record { is_real = true; entries = directory.entries }) expected none
        ≡ ok release
    named : destination.name ≡ signature_name release.version
    digests : String × String
    found : payload_digests c keys tools directory.entries ≡ ok digests
    written : content ≡ signature_content c keys tools private digests release

  stable_bundle_snapshot-eq :
      (directory snapshot : Directory)
      → stable_bundle_snapshot directory ≡ ok snapshot
      → snapshot ≡ record { is_real = true; entries = directory.entries }
  unfolding stable_bundle_snapshot
  stable_bundle_snapshot-eq directory snapshot h = ground arith

  sign-HasSigned :
      (directory : Directory) (destination : Destination) (file : Entry) (password : String)
      (expected : Expectations)
      → load_private_key c keys tools file password ≡ ok private
      → Ensures
          (HasSigned directory destination expected)
          (sign_release_bundle c keys tools directory destination file password expected)
  unfolding sign_release_bundle
  sign-HasSigned directory destination file password expected loaded =
      Ensures-step (validate_destination destination) _ λ u _.
        Ensures-step (stable_bundle_snapshot directory) _ λ snapshot copied.
          Ensures-step (verify_bundle tools snapshot expected none) _ λ release verified.
            Ensures-guard (str_eq destination.name (signature_name release.version)) _ _ λ named.
              Ensures-step (load_private_key c keys tools file password) _ λ key l.
                Ensures-step (payload_digests c keys tools snapshot.entries) _ λ digests found.
                  let copy = stable_bundle_snapshot-eq directory snapshot copied in
                  let own : key ≡ private = cc in
                  Ensures-ok _ record {
                    release = release;
                    verified = rw copy at verified;
                    named =
                        ground (arith, eq_iff destination.name (signature_name release.version));
                    digests = digests;
                    found = rw (← ap (λ (d : Directory). d.entries) copy) found;
                    written =
                        ap (λ (k : String). signature_content c keys tools k digests release) own;
                  }

  -- A signature that is written for a bundle then verifies for that bundle and the release that it
  -- verifies as, under the public key, whose fingerprint is reported. The keys belong together, and
  -- the signature's document can be read back from what is printed of it.
  pub verify-sign_release_bundle :
      (directory : Directory) (destination : Destination) (file : Entry) (password : String)
      (expected : Expectations) (content : String) (release : Release) (digests : String × String)
      (b : Bool)
      → AreSigningKeys
      → load_private_key c keys tools file password ≡ ok private
      → verify_bundle tools (record { is_real = true; entries = directory.entries }) expected none
        ≡ ok release
      → payload_digests c keys tools directory.entries ≡ ok digests
      → ReadsBack (signed_document digests release)
      → sign_release_bundle c keys tools directory destination file password expected ≡ ok content
      → verify_release_signature c keys tools directory.entries
          (record { name = destination.name; entry = Entry.regular content; in_directory = b })
          (Entry.regular pem)
          release
        ≡ ok (fingerprint c keys tools public)
  verify-sign_release_bundle directory destination file password expected content release digests b
        k loaded verified found back h =
      let s =
        (sign-HasSigned directory destination file password expected loaded).holds content h in
      let same_release : s.release ≡ release = cc (s.verified, verified) in
      let same_digests : s.digests ≡ digests = cc (s.found, found) in
      rw s.named (
        rw s.written (
          rw same_release
            (rw same_digests (verify-content directory.entries digests release b k back found))))
