-- ===== src/Audit/Keyring/Rotator/Outcomes.antt =====
-- What `rotate` of src/smart_factory/infrastructure/audit/keyring.py leaves, whether it returns or
-- raises.
use smart_factory_monitor.Common.{
  String, ◌≡◌, refl, ◌⊎◌, inl, inr, true, Option, none, some, List, str_eq, Result, ok, err,
  Result-cases, arith,
}
use smart_factory_monitor.Common.Ensures.{Ensures, Ensures-step, Ensures-guard, Ensures-ok}
use smart_factory_monitor.Signing.{Crypto, signer_from_file}
use smart_factory_monitor.Audit.Checkpoint.{public_key_id}
use smart_factory_monitor.Audit.Keyring.{
  SignedAuditKeyTransition, DirectoryEntry, Keyring, KeyringError, KeyringFormat, find_file,
  validate_transition, resolve_trusted_key, validate_key_file,
}
use smart_factory_monitor.Audit.Keyring.Integrity.{verify_integrity}
use smart_factory_monitor.Audit.Keyring.Trust.{Trusted, resolve_trusted_key-Trusted}
use smart_factory_monitor.Audit.Keyring.Publication.{write_once, publish_transition, activate}
use smart_factory_monitor.Audit.Keyring.Rotation.{publish_transition-Trusted}
use smart_factory_monitor.Audit.Keyring.Rotator.{
  KeyRotator, Replacement, RotatorError, settled, identified, signer, same_content, current_key_id,
  signed_transition, new_transition, prepare, promote_pending, activate_new, publish_new, rotate,
}
use smart_factory_monitor.Operations.Rotation.{AuditKeyRotationResult}

settled-some :
    {A : Type 0} (o : Option (Result KeyringError A)) (a : A) → settled o ≡ ok a → o ≡ some (ok a)
unfolding settled
settled-some none a h = absurd (cc h)
settled-some (some (ok b)) a h = let e : b ≡ a = cc in rw e
settled-some (some (err e)) a h = absurd (cc h)

module _ (c : Crypto) (format : KeyringFormat) where
  -- Authorized transitions of the rotator's chain lead from the trusted root to the key.
  abbrev pub IsTrustedBy : KeyRotator → Keyring → String → Type 0
  IsTrustedBy s ring key_id = Trusted c format ring.keys s.chain_id ring.trusted_root_key_id key_id

  current_key_id-Trusted :
      (s : KeyRotator) → Ensures (IsTrustedBy s s.ring) (current_key_id c format s)
  unfolding current_key_id
  current_key_id-Trusted s =
      Ensures-step (settled (verify_integrity c format s.ring s.chain_id)) _ λ v _.
        Ensures-step (identified (public_key_id c s.public_key)) _ λ identity _.
          Ensures-guard (str_eq identity v.active_key_id) _ _ λ _.
            Ensures-step (settled (resolve_trusted_key c format s.ring v.active_key_id s.chain_id))
              _
              λ key found.
                Ensures-guard (same_content (find_file key s.ring.keys) s.public_key) _ _ λ _.
                  let (trusted, same) =
                    resolve_trusted_key-Trusted c format s.ring v.active_key_id s.chain_id key
                      (settled-some _ key found) in
                  Ensures-ok v.active_key_id (rw same at trusted)

  -- What a transition that was prepared is.
  record IsPrepared (s : KeyRotator) (e : SignedAuditKeyTransition) : Type 0 where
    locked : s.owned ≡ true
    chain : e.transition.chain_id ≡ s.chain_id
    trusted : IsTrustedBy s s.ring e.transition.previous_key_id

  prepare-IsPrepared :
      (s : KeyRotator) (fresh : Replacement) → Ensures (IsPrepared s) (prepare c format s fresh)
  unfolding prepare
  prepare-IsPrepared s fresh = Ensures-guard s.owned _ _ λ locked.
      Ensures-step (current_key_id c format s) _ λ previous current.
        Ensures-step (signer (signer_from_file c s.private_key)) _ λ key _.
          Ensures-step (identified (public_key_id c (some fresh.public_pem))) _ λ new _.
            Ensures-guard
              (validate_transition c format (signed_transition c format s fresh key previous new)) _
              _
              λ _.
                unfold signed_transition new_transition in
                Ensures-ok (signed_transition c format s fresh key previous new) record {
                  locked = locked;
                  chain = refl;
                  trusted = (current_key_id-Trusted s).holds previous current;
                }

  -- What a completed rotation leaves: both key files are the new ones, the new key is active, and
  -- authorized transitions lead to it from the root, the last of them from the key that was active.
  pub record HasRotated (s : KeyRotator) (fresh : Replacement) (result : AuditKeyRotationResult)
      (later : KeyRotator) : Type 0 where
    pub locked : s.owned ≡ true
    pub private_key : later.private_key ≡ some fresh.private_pem
    pub public_key : later.public_key ≡ some fresh.public_pem
    pub was_active : s.ring.active_key_id ≡ some result.previous_key_id
    pub now_active : later.ring.active_key_id ≡ some result.new_key_id
    pub trusted :
        Trusted c format later.ring.keys s.chain_id later.ring.trusted_root_key_id result.new_key_id

  activated :
      (key_id : String) (ring later : Keyring)
      → activate c format key_id ring ≡ (ok tt, later)
      → (later.active_key_id ≡ some key_id)
        × (later.keys ≡ ring.keys)
        × (later.trusted_root_key_id ≡ ring.trusted_root_key_id)
  unfolding activate
  activated key_id ring later h =
      elim (Result-cases (validate_key_file c format ring.keys key_id)) [
        | inr (x, p) ↦ absurd (ground (arith, p, h))
        | inl (u, p) ↦ ground (arith, p, h)
      ]

  activate_new-eq :
      (fresh : Replacement) (e : SignedAuditKeyTransition) (s later : KeyRotator)
      (result : AuditKeyRotationResult)
      → activate_new c format fresh e s ≡ (ok result, later)
      → (ring : Keyring) × (activate c format e.transition.new_key_id s.ring ≡ (ok tt, ring))
        × (later.ring ≡ ring)
        × (later.private_key ≡ some fresh.private_pem)
        × (later.public_key ≡ some fresh.public_pem)
        × (result.previous_key_id ≡ e.transition.previous_key_id)
        × (result.new_key_id ≡ e.transition.new_key_id)
  unfolding activate_new promote_pending activate
  activate_new-eq fresh e s later result h =
      elim (Result-cases (validate_key_file c format s.ring.keys e.transition.new_key_id)) [
        | inr (x, p) ↦ absurd (ground (arith, p, h))
        | inl (u, p) ↦ (
          record s.ring { active_key_id = some e.transition.new_key_id },
          ground (arith, p, h),
          ground (arith, p, h),
          ground (arith, p, h),
          ground (arith, p, h),
          ground (arith, p, h),
          ground (arith, p, h),
        )
      ]

  publish_new-eq :
      (fresh : Replacement) (e : SignedAuditKeyTransition) (s later : KeyRotator)
      (result : AuditKeyRotationResult)
      → publish_new c format fresh e s ≡ (ok result, later)
      → (ring : Keyring) × (publish_transition c format e fresh.public_pem s.ring ≡ (ok tt, ring))
        × (activate_new c format fresh e (record s { ring = ring }) ≡ (ok result, later))
  unfolding publish_new
  publish_new-eq fresh e s later result h =
      ends (publish_transition c format e fresh.public_pem s.ring) h
    where
      ends :
          (r : Result KeyringError (Unit {0}) × Keyring)
          → (elim r.0 [
            | err x ↦ (err (RotatorError.keyring_error x), record s { ring = r.1 })
            | ok _ ↦ activate_new c format fresh e (record s { ring = r.1 })
          ])
            ≡ (ok result, later)
          → (ring : Keyring) × (r ≡ (ok tt, ring))
            × (activate_new c format fresh e (record s { ring = ring }) ≡ (ok result, later))
      ends (ok _, ring) h = (ring, refl, h)
      ends (err x, ring) h = absurd (cc h)

  activate_new-err :
      (fresh : Replacement) (e : SignedAuditKeyTransition) (s later : KeyRotator) (x : RotatorError)
      → activate_new c format fresh e s ≡ (err x, later)
      → later.private_key ≡ s.private_key
  unfolding activate_new promote_pending activate
  activate_new-err fresh e s later x h =
      elim (Result-cases (validate_key_file c format s.ring.keys e.transition.new_key_id)) [
        | inr (y, p) ↦ ground (arith, p, h)
        | inl (u, p) ↦ absurd (ground (arith, p, h))
      ]

  publish_new-err :
      (fresh : Replacement) (e : SignedAuditKeyTransition) (s later : KeyRotator) (x : RotatorError)
      → publish_new c format fresh e s ≡ (err x, later)
      → later.private_key ≡ s.private_key
  unfolding publish_new
  publish_new-err fresh e s later x h =
      ends (publish_transition c format e fresh.public_pem s.ring) h
    where
      ends :
          (r : Result KeyringError (Unit {0}) × Keyring)
          → (elim r.0 [
            | err y ↦ (err (RotatorError.keyring_error y), record s { ring = r.1 })
            | ok _ ↦ activate_new c format fresh e (record s { ring = r.1 })
          ])
            ≡ (err x, later)
          → later.private_key ≡ s.private_key
      ends (ok _, ring) h = activate_new-err fresh e (record s { ring = ring }) later x h
      ends (err y, ring) h = ground arith

  publish_new-HasRotated :
      (fresh : Replacement) (e : SignedAuditKeyTransition) (s : KeyRotator)
      (pending : List DirectoryEntry) (result : AuditKeyRotationResult) (later : KeyRotator)
      → IsPrepared s e
      → publish_new c format fresh e (record s { pending = pending }) ≡ (ok result, later)
      → HasRotated s fresh result later
  publish_new-HasRotated fresh e s pending result later p h =
      let (ring, published, rest) =
        publish_new-eq fresh e (record s { pending = pending }) later result h in
      let (final, done, same, private, public, previous, new) =
        activate_new-eq fresh e (record s { pending = pending; ring = ring }) later result rest in
      let trusted_before : Trusted c format s.ring.keys e.transition.chain_id
          s.ring.trusted_root_key_id e.transition.previous_key_id =
        rw p.chain p.trusted in
      let (active, trusted) =
        publish_transition-Trusted c format e fresh.public_pem s.ring ring published
          trusted_before in
      let (now, keys, root) = activated e.transition.new_key_id ring final done in
      record {
        locked = p.locked;
        private_key = private;
        public_key = public;
        was_active = rw previous active;
        now_active = rw same (rw new now);
        trusted = rw new (rw same (rw keys (rw root (rw (← p.chain) trusted))));
      }

  finished :
      (fresh : Replacement) (e : SignedAuditKeyTransition) (s : KeyRotator)
      (pending : List DirectoryEntry) (r : Result RotatorError AuditKeyRotationResult × KeyRotator)
      → IsPrepared s e
      → publish_new c format fresh e (record s { pending = pending }) ≡ r
      → ((result : AuditKeyRotationResult) × (r.0 ≡ ok result) × HasRotated s fresh result r.1)
        ⊎ ((x : RotatorError) × (r.0 ≡ err x) × (r.1.private_key ≡ s.private_key))
  finished fresh e s pending (ok result, later) p h =
      inl (result, refl, publish_new-HasRotated fresh e s pending result later p h)
  finished fresh e s pending (err x, later) p h =
      inr (x, refl, publish_new-err fresh e (record s { pending = pending }) later x h)

  rotate_refused :
      (fresh : Replacement) (s : KeyRotator) (x : RotatorError)
      → prepare c format s fresh ≡ err x
      → rotate c format fresh s ≡ (err x, s)
  unfolding rotate
  rotate_refused fresh s x p = rw (p, rotate)

  rotate_blocked :
      (fresh : Replacement) (s : KeyRotator) (e : SignedAuditKeyTransition) (x : KeyringError)
      → prepare c format s fresh ≡ ok e
      → write_once e.transition.new_key_id fresh.private_pem s.pending ≡ err x
      → rotate c format fresh s ≡ (err (RotatorError.keyring_error x), s)
  unfolding rotate
  rotate_blocked fresh s e x p q = rw (p, rotate) (rw (q, rotate))

  rotate_prepared :
      (fresh : Replacement) (s : KeyRotator) (e : SignedAuditKeyTransition)
      (pending : List DirectoryEntry)
      → prepare c format s fresh ≡ ok e
      → write_once e.transition.new_key_id fresh.private_pem s.pending ≡ ok pending
      → rotate c format fresh s ≡ publish_new c format fresh e (record s { pending = pending })
  unfolding rotate
  rotate_prepared fresh s e pending p q = rw (p, rotate) (rw (q, rotate))

  -- A rotation that returns ran under the lock, started at the active key, and leaves the new key
  -- active, trusted through authorized transitions from the root, and in both key files. A rotation
  -- that raises leaves the file of the old private key as it was.
  pub rotate_outcome :
      (fresh : Replacement) (s : KeyRotator)
      → ((result : AuditKeyRotationResult) × ((rotate c format fresh s).0 ≡ ok result)
          × HasRotated s fresh result (rotate c format fresh s).1)
        ⊎ ((x : RotatorError) × ((rotate c format fresh s).0 ≡ err x)
            × ((rotate c format fresh s).1.private_key ≡ s.private_key))
  rotate_outcome fresh s = elim (Result-cases (prepare c format s fresh)) [
    | inr (x, p) ↦ rw (rotate_refused fresh s x p) (inr (x, refl, refl))
    | inl (e, p) ↦
        elim (Result-cases (write_once e.transition.new_key_id fresh.private_pem s.pending)) [
          | inr (x, q) ↦
              rw (rotate_blocked fresh s e x p q) (inr (RotatorError.keyring_error x, refl, refl))
          | inl (pending, q) ↦
              rw (rotate_prepared fresh s e pending p q)
                (finished fresh e s pending _ ((prepare-IsPrepared s fresh).holds e p) refl)
        ]
  ]
