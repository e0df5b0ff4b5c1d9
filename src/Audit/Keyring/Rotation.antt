-- ===== src/Audit/Keyring/Rotation.antt =====
-- A transition that is published extends the trust from the active key to the new one.
use smart_factory_monitor.Common.{
  String, false, ◌≡◌, inl, inr, some, List, [], ◌∷◌, arith, str_eq, eq_iff, text_leb, Bool-cases,
  Option-cases, ok, Result-cases, bind_inversion, guard_inversion, guard,
}
use smart_factory_monitor.Signing.{Crypto}
use smart_factory_monitor.Audit.Checkpoint.{public_key_id}
use smart_factory_monitor.Audit.Keyring.{
  SignedAuditKeyTransition, DirectoryEntry, Keyring, KeyringError, KeyringFormat, find_file,
  key_identity, verify_transition, active_key,
}
use smart_factory_monitor.Audit.Keyring.Publication.{
  insert_file, created, write_once, publishable, write_transition, publish_transition,
}
use smart_factory_monitor.Audit.Keyring.Trust.{
  IsKeyFile, IsAuthorized, Trusted, IsAuthorized-verify_transition,
}

find_file-insert_other :
    (name content other : String) (entries : List DirectoryEntry)
    → str_eq name other ≡ false
    → find_file other (insert_file name content entries) ≡ find_file other entries
unfolding insert_file find_file
find_file-insert_other name content other [] h = rw h
find_file-insert_other name content other (DirectoryEntry.irregular ∷ rest) h =
    find_file-insert_other name content other rest h
find_file-insert_other name content other (DirectoryEntry.regular stem present ∷ rest) h =
    elim (Bool-cases (text_leb name stem)) [
      | inl first ↦ rw first (rw h)
      | inr later ↦ rw later (rw (find_file-insert_other name content other rest h))
    ]

-- A file that is there keeps its content when another one is written.
find_file-write_once :
    (name content other present : String) (entries later : List DirectoryEntry)
    → write_once name content entries ≡ ok later
    → find_file other entries ≡ some present
    → find_file other later ≡ some present
unfolding write_once created
find_file-write_once name content other present entries later h p =
    elim (Option-cases (find_file name entries)) [
      | inr (there, q) ↦ ground (arith, q, h, p)
      | inl q ↦
          let same : later ≡ insert_file name content entries = ground (arith, q, h) in
          elim (Bool-cases (str_eq name other)) [
            | inl equal ↦ absurd (cc (q, p, (eq_iff name other).0 equal))
            | inr differs ↦
                rw same (rw (find_file-insert_other name content other entries differs) p)
          ]
    ]

module _ (c : Crypto) (format : KeyringFormat) where
  find_file_of_IsKeyFile :
      (keys : List DirectoryEntry) (key_id : String)
      → IsKeyFile c format keys key_id
      → (content : String) × (find_file key_id keys ≡ some content)
  unfolding public_key_id
  find_file_of_IsKeyFile keys key_id k = elim (Option-cases (find_file key_id keys)) [
    | inl p ↦ absurd (ground (arith, p, k.identity))
    | inr (content, p) ↦ (content, p)
  ]

  module _ (name content : String) (keys later : List DirectoryEntry)
      (written : write_once name content keys ≡ ok later) where
    find_file-later :
        (key_id : String)
        → IsKeyFile c format keys key_id
        → find_file key_id later ≡ find_file key_id keys
    find_file-later key_id k =
        let (present, p) = find_file_of_IsKeyFile keys key_id k in
        cc (find_file-write_once name content key_id present keys later written p, p)

    IsKeyFile-later :
        (key_id : String) → IsKeyFile c format keys key_id → IsKeyFile c format later key_id
    IsKeyFile-later key_id k = record { identity = rw (find_file-later key_id k) k.identity }

    IsAuthorized-later :
        (chain : String) (e : SignedAuditKeyTransition)
        → IsAuthorized c format keys chain e
        → IsAuthorized c format later chain e
    IsAuthorized-later chain e a = record {
      on_chain = a.on_chain;
      previous_key = IsKeyFile-later _ a.previous_key;
      new_key = IsKeyFile-later _ a.new_key;
      previous_signature = a.previous_signature;
      new_signature = a.new_signature;
      previous_decodes = a.previous_decodes;
      new_decodes = a.new_decodes;
      signed_by_previous = rw (find_file-later _ a.previous_key) a.signed_by_previous;
      signed_by_new = rw (find_file-later _ a.new_key) a.signed_by_new;
    }

    Trusted-later :
        (chain root key : String)
        → Trusted c format keys chain root key
        → Trusted c format later chain root key
    Trusted-later chain root _ (Trusted.at_root k) = Trusted.at_root (IsKeyFile-later root k)
    Trusted-later chain root _ (Trusted.after e t a) =
        Trusted.after e (Trusted-later chain root _ t) (IsAuthorized-later chain e a)

  publishable-active :
      (ring : Keyring) (e : SignedAuditKeyTransition) (new_public_key : String)
      → publishable c format ring e new_public_key ≡ ok tt
      → ring.active_key_id ≡ some e.transition.previous_key_id
  unfolding publishable active_key
  publishable-active ring e new_public_key h =
      let (i, p, h1) =
        bind_inversion (key_identity c format (public_key_id c (some new_public_key))) _ tt h in
      let (u, q, h2) =
        bind_inversion (guard (str_eq i e.transition.new_key_id) KeyringError.wrong_new_key) _ tt
          h1 in
      let (active, r, h3) = bind_inversion (active_key ring.active_key_id) _ tt h2 in
      let same =
        (eq_iff e.transition.previous_key_id active).0
          (guard_inversion _ KeyringError.not_at_active h3) in
      elim (Option-cases ring.active_key_id) [
        | inl s ↦ absurd (ground (arith, s, r))
        | inr (key_id, s) ↦ ground (arith, s, r, same)
      ]

  -- When `publish_transition` returns and the key that its transition starts at was trusted: that
  -- key is the active one, and the new key is trusted in the keyring that is left, by the same
  -- root.
  pub publish_transition-Trusted :
      (e : SignedAuditKeyTransition) (new_public_key : String) (ring later : Keyring)
      → publish_transition c format e new_public_key ring ≡ (ok tt, later)
      → Trusted c format ring.keys e.transition.chain_id ring.trusted_root_key_id
          e.transition.previous_key_id
      → (ring.active_key_id ≡ some e.transition.previous_key_id)
        × Trusted c format later.keys e.transition.chain_id later.trusted_root_key_id
            e.transition.new_key_id
  unfolding publish_transition write_transition publishable active_key key_identity
  publish_transition-Trusted e new_public_key ring later h trusted =
      let chain = e.transition.chain_id in
      elim (Result-cases (publishable c format ring e new_public_key)) [
        | inr (x, p) ↦ absurd (ground (arith, p, h))
        | inl (u, p) ↦
            elim (Result-cases (write_once e.transition.new_key_id new_public_key ring.keys)) [
              | inr (x, q) ↦ absurd (ground (arith, p, q, h))
              | inl (keys, q) ↦ elim (Result-cases (verify_transition c format keys chain e)) [
                | inr (x, r) ↦ absurd (ground (arith, p, q, r, h))
                | inl (v, r) ↦
                    let kept : (later.keys ≡ keys)
                        × (later.trusted_root_key_id ≡ ring.trusted_root_key_id) =
                      ground (arith, p, q, r, h) in
                    let before =
                      Trusted-later e.transition.new_key_id new_public_key ring.keys keys q chain _
                        _ trusted in
                    let extended =
                      Trusted.after e before
                        (IsAuthorized-verify_transition c format keys chain e r) in
                    (publishable-active ring e new_public_key p, rw (kept.0) (rw (kept.1) extended))
              ]
            ]
      ]
