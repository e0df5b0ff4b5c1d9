-- ===== src/Release/Encryption/RoundTrip.antt =====
-- What src/smart_factory/release_evidence_crypto.py encrypts, the recipient recovers, under the
-- same release only.
use smart_factory_monitor.Common.{
  ℕ, String, ◌<>◌, count, ◌≡◌, ap, ◌∙◌, true, false, Option, some, str_eq_refl, same_int, ok, arith,
}
use smart_factory_monitor.Common.Ensures.{Ensures, Ensures-step, Ensures-mono}
use smart_factory_monitor.Release.Json.{Json, Members, get, as_text, as_object, json_eq, has_value}
use smart_factory_monitor.Release.Files.{Entry, ReleaseTools, given}
use smart_factory_monitor.Release.Sboms.{release_identity}
use smart_factory_monitor.Release.Encryption.{
  Ciphers, LoadedRsa, Output, write_once, content_of, check_identity, is_long, long_rsa,
  has_nonce_length, envelope_of, key_fingerprint, decoded_field, sealed_envelope,
  encrypt_release_evidence, read_envelope, envelope_identity, open_envelope,
  decrypt_release_evidence,
}

check_identity-eq :
    (version revision name : String) (identity : Json)
    → check_identity version revision name ≡ ok identity
    → identity ≡ release_identity version revision name
unfolding check_identity
check_identity-eq version revision name identity h = ground arith

has_value-release_identity :
    (version revision name : String)
    → has_value
        (some (release_identity version revision name))
        (release_identity version revision name)
      ≡ true
unfolding has_value release_identity json_eq
has_value-release_identity version revision name =
    rw (str_eq_refl version, str_eq_refl revision, str_eq_refl name)

nonce_length : (nonce : String) → count nonce ≡ 12 → has_nonce_length nonce ≡ true
unfolding has_nonce_length
nonce_length nonce h = rw h

written_once :
    (output : Output) (content : String)
    → output.exists ≡ false
    → output.parent_is_real ≡ true
    → write_once output content ≡ ok content
unfolding write_once
written_once output content absent real = ground arith

pair_eq : (k l : String) (i j : Json) → k ≡ l → i ≡ j → ◌≡◌ {A = String × Json} (k, i) (l, j)
pair_eq k l i j p q = rw (p, q)

module _ (ciphers : Ciphers) (tools : ReleaseTools) (public private pem private_pem : String)
    (bits : ℕ) (password : Option String) where
  -- What recovery needs of the packages, for one pair of keys: the files hold the keys of the pair,
  -- which are long enough; what is encrypted for the public key the private key decrypts; AES-GCM
  -- opens what it sealed under the same key, nonce and associated data; and base64 can be decoded.
  pub record IsRecipient : Type 0 where
    pub loads_public : ciphers.load_public pem ≡ some (LoadedRsa.rsa public bits)
    pub loads_private :
        ciphers.load_private private_pem password ≡ some (LoadedRsa.rsa private bits)
    pub long : is_long bits ≡ true
    pub own : ciphers.public_key private ≡ public
    pub decrypts :
        (key : String) → ciphers.decrypt_key private (ciphers.encrypt_key public key) ≡ some key
    pub unseals :
        (key nonce plaintext identity : String)
        → ciphers.unseal key nonce (ciphers.seal key nonce plaintext identity) identity
          ≡ some plaintext
    pub codec : (s : String) → tools.b64decode (tools.b64encode s) ≡ some s

  abbrev pub ReadsBack : Json → Type 0
  ReadsBack document =
      (text : String) × (tools.decode_utf8 (tools.canonical_json document <> "\n") ≡ some text)
      × (tools.loads text ≡ some document)

  read_envelope-content :
      (document : Members)
      → ReadsBack (Json.object document)
      → read_envelope ciphers tools
          (Entry.regular (tools.canonical_json (Json.object document) <> "\n"))
        ≡ ok document
  unfolding read_envelope content_of as_object given
  read_envelope-content document (text, decoded, loaded) = rw decoded (rw loaded)

  long_rsa-key : (key : String) → IsRecipient → long_rsa (some (LoadedRsa.rsa key bits)) ≡ ok key
  unfolding long_rsa
  long_rsa-key key r = rw (r.long)

  envelope_identity-eq :
      (version revision name ciphertext encrypted_key nonce recipient : String)
      → check_identity version revision name ≡ ok (release_identity version revision name)
      → envelope_identity ciphers tools version revision (
          envelope_of
            (release_identity version revision name)
            ciphertext
            encrypted_key
            nonce
            recipient)
        ≡ ok (release_identity version revision name)
  unfolding envelope_identity envelope_of get as_object as_text given release_identity has_value
      json_eq same_int
  envelope_identity-eq version revision name ciphertext encrypted_key nonce recipient checked =
      rw checked (rw (str_eq_refl version, str_eq_refl revision, str_eq_refl name))

  decoded-encoded :
      (s : String)
      → IsRecipient
      → decoded_field ciphers tools (some (Json.text (tools.b64encode s))) ≡ ok s
  unfolding decoded_field as_text given
  decoded-encoded s r = rw (r.codec s)

  open_envelope-eq :
      (data_key nonce plaintext : String) (identity : Json)
      → IsRecipient
      → has_nonce_length nonce ≡ true
      → open_envelope ciphers tools private identity
          (sealed_envelope ciphers tools data_key nonce public identity plaintext)
        ≡ ok plaintext
  unfolding open_envelope sealed_envelope envelope_of get given has_value json_eq
  open_envelope-eq data_key nonce plaintext identity r length = rw (
    r.own,
    str_eq_refl (key_fingerprint ciphers tools public),
    decoded-encoded (ciphers.encrypt_key public data_key) r,
    decoded-encoded nonce r,
    decoded-encoded (ciphers.seal data_key nonce plaintext (tools.canonical_json identity)) r,
    length,
    r.decrypts data_key,
    r.unseals data_key nonce plaintext (tools.canonical_json identity),
  )

  opened :
      (data_key nonce plaintext name version revision : String)
      → check_identity version revision name ≡ ok (release_identity version revision name)
      → envelope_identity ciphers tools version revision (
          sealed_envelope ciphers tools data_key nonce public
            (release_identity version revision name)
            plaintext)
        ≡ ok (release_identity version revision name)
  unfolding sealed_envelope
  opened data_key nonce plaintext name version revision checked =
      envelope_identity-eq version revision name _ _ _ _ checked

  -- What a successful encryption has found.
  record HasEncrypted (data_key nonce plaintext name version revision content : String)
      : Type 0 where
    checked : check_identity version revision name ≡ ok (release_identity version revision name)
    written :
        content
        ≡ tools.canonical_json (
            Json.object (
              sealed_envelope ciphers tools data_key nonce public
                (release_identity version revision name)
                plaintext))
          <> "\n"

  write_once-eq :
      (output : Output) (content : String) → Ensures (λ c. c ≡ content) (write_once output content)
  unfolding write_once
  write_once-eq output content = record { holds = λ c e. ground arith }

  encrypt-HasEncrypted :
      (data_key nonce plaintext name version revision : String) (output : Output)
      → IsRecipient
      → Ensures (HasEncrypted data_key nonce plaintext name version revision) (
          encrypt_release_evidence ciphers tools data_key nonce
            (Entry.regular plaintext)
            name
            output
            (Entry.regular pem)
            version
            revision)
  unfolding encrypt_release_evidence content_of
  encrypt-HasEncrypted data_key nonce plaintext name version revision output r =
      Ensures-step (check_identity version revision name) _ λ identity checked.
        let named = check_identity-eq version revision name identity checked in
        Ensures-step (long_rsa (ciphers.load_public pem)) _ λ key loaded.
          let own : key ≡ public = cc (rw r.loads_public at loaded, long_rsa-key public r) in
          Ensures-mono (write_once output _) (write_once-eq output _) λ content e. record {
            checked = rw (← named) checked;
            written =
                e
                ∙ ap
                    (λ (p : String × Json).
                      tools.canonical_json (
                        Json.object
                          (sealed_envelope ciphers tools data_key nonce p.0 p.1 plaintext))
                      <> "\n")
                    (pair_eq key public identity (release_identity version revision name) own
                      named);
          }

  -- Evidence that was encrypted for a recipient's key under a release is recovered unchanged with
  -- the private key under that release, into an output that may be written. The keys belong
  -- together, the nonce has 12 bytes, and the envelope can be read back from what is printed of it.
  pub decrypt-encrypt_release_evidence :
      (data_key nonce plaintext name version revision content : String) (output recovered : Output)
      → IsRecipient
      → count nonce ≡ 12
      → ReadsBack (
          Json.object (
            sealed_envelope ciphers tools data_key nonce public
              (release_identity version revision name)
              plaintext))
      → recovered.exists ≡ false
      → recovered.parent_is_real ≡ true
      → encrypt_release_evidence ciphers tools data_key nonce
          (Entry.regular plaintext)
          name
          output
          (Entry.regular pem)
          version
          revision
        ≡ ok content
      → decrypt_release_evidence ciphers tools
          (Entry.regular content)
          recovered
          (Entry.regular private_pem)
          version
          revision
          password
        ≡ ok plaintext
  unfolding decrypt_release_evidence content_of
  decrypt-encrypt_release_evidence data_key nonce plaintext name version revision content output
        recovered r length back absent real h =
      let identity = release_identity version revision name in
      let x =
        (encrypt-HasEncrypted data_key nonce plaintext name version revision output r).holds content
          h in
      rw x.written (
        rw (
          read_envelope-content
              (sealed_envelope ciphers tools data_key nonce public identity plaintext) back,
          opened data_key nonce plaintext name version revision x.checked,
          r.loads_private,
          long_rsa-key private r,
          open_envelope-eq data_key nonce plaintext identity r (nonce_length nonce length),
          written_once recovered plaintext absent real,
        ))
