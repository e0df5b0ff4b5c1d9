-- ===== src/Audit/Keyring/Integrity/Soundness.antt =====
-- What `verify_integrity` establishes: every file of the keys directory is a trusted key.
use smart_factory_monitor.Common.{
  ℕ, suc, zero, String, true, ◌&&◌, ◌≡◌, inl, inr, Option, none, some, List, [], ◌∷◌, ◌++◌, All,
  All-append, all, length, arith, str_eq, eq_iff, Bool-cases, Option-cases, ok, err, Result-cases,
  bind_inversion, guard_inversion, guard, ◌==◌, leb,
}
use smart_factory_monitor.Domain.{is_hex_digest}
use smart_factory_monitor.Signing.{Crypto}
use smart_factory_monitor.Audit.Keyring.{
  SignedAuditKeyTransition, DirectoryEntry, Keyring, KeyringError, KeyringFormat, find_transition,
  member, validate_key_file, load_verified_transitions, active_key, max_transitions,
}
use smart_factory_monitor.Audit.Keyring.Trust.{
  IsKeyFile, IsAuthorized, Trusted, IsKeyFile-validate_key_file, load_entries-IsAuthorized,
  find_transition-All,
}
use smart_factory_monitor.Audit.Keyring.Integrity.{
  AuditKeyringVerification, Trace, follow, archived_keys, same_keys, check_trace, checked,
  start_trace, read_keyring, verify_integrity,
}

-- Each entry of a directory is a regular file named by one of these keys.
abbrev pub AllArchived : List String → List DirectoryEntry → Type 0
AllArchived key_ids [] = Unit
AllArchived key_ids (DirectoryEntry.irregular ∷ rest) = ⊥
AllArchived key_ids (DirectoryEntry.regular key_id content ∷ rest) =
    (member key_id key_ids ≡ true) × AllArchived key_ids rest

module _ (c : Crypto) (format : KeyringFormat) where
  module _ (keys : List DirectoryEntry) (chain root : String) where
    -- The keys of a trace are trusted, its last one too.
    record IsTrusted (t : Trace) : Type 0 where
      pub current : Trusted c format keys chain root t.current
      pub key_ids : All (Trusted c format keys chain root) t.key_ids

    follow-IsTrusted :
        (fuel : ℕ) (ts : List SignedAuditKeyTransition) (t u : Trace)
        → All (IsAuthorized c format keys chain) ts
        → IsTrusted t
        → follow c format fuel ts t ≡ some (ok u)
        → IsTrusted u
    unfolding follow
    follow-IsTrusted zero ts t u l k h = absurd (cc h)
    follow-IsTrusted (suc fuel) ts t u l k h = elim (Option-cases (find_transition t.current ts)) [
      | inl p ↦ let same : u ≡ t = ground (arith, p, h) in rw same k
      | inr (e, p) ↦
          let (authorized, same) = find_transition-All c format keys chain t.current ts e l p in
          let reached = Trusted.after e (rw (← same) at k.current) authorized in
          elim (Bool-cases (member e.transition.new_key_id t.key_ids)) [
            | inl seen ↦ absurd (ground (arith, p, seen, h))
            | inr fresh ↦
                follow-IsTrusted fuel ts
                  (record {
                    current = e.transition.new_key_id;
                    key_ids = t.key_ids ++ (e.transition.new_key_id ∷ []);
                    taken = t.taken ++ (e ∷ []);
                  })
                  u l
                  (record {
                    current = reached;
                    key_ids =
                        All-append (Trusted c format keys chain root) t.key_ids
                          (e.transition.new_key_id ∷ []) k.key_ids (reached, tt);
                  })
                  (ground (arith, p, fresh, h))
          ]
    ]

  AllArchived-archived_keys :
      (keys entries : List DirectoryEntry) (archived key_ids : List String)
      → archived_keys c format keys entries ≡ ok archived
      → all (λ (k : String). member k key_ids) archived ≡ true
      → AllArchived key_ids entries
  unfolding archived_keys
  AllArchived-archived_keys keys [] archived key_ids h m = tt
  AllArchived-archived_keys keys (DirectoryEntry.irregular ∷ rest) archived key_ids h m =
      absurd (cc h)
  AllArchived-archived_keys keys (DirectoryEntry.regular key_id content ∷ rest) archived key_ids h
        m =
      let (u, p, h1) =
        bind_inversion (guard (is_hex_digest key_id) KeyringError.invalid_key_entry) _ archived h in
      let (file, q, h2) = bind_inversion (validate_key_file c format keys key_id) _ archived h1 in
      let (later, r, h3) = bind_inversion (archived_keys c format keys rest) _ archived h2 in
      let same : archived ≡ key_id ∷ later = ground (arith, h3) in
      let both : (member key_id key_ids && all (λ (k : String). member k key_ids) later) ≡ true =
        rw same at m in
      (
        ground (arith, both),
        AllArchived-archived_keys keys rest later key_ids r (ground (arith, both)),
      )

  check_trace-AllArchived :
      (ring : Keyring) (active : String) (ts : List SignedAuditKeyTransition) (t : Trace)
      (v : AuditKeyringVerification)
      → check_trace c format ring active ts t ≡ ok v
      → (t.current ≡ active)
        × (v.active_key_id ≡ active)
        × (v.key_ids ≡ t.key_ids)
        × AllArchived t.key_ids ring.keys
  unfolding check_trace
  check_trace-AllArchived ring active ts t v h =
      let (u, p, h1) =
        bind_inversion (guard (str_eq t.current active) KeyringError.not_terminal) _ v h in
      let (w, q, h2) =
        bind_inversion (guard (length t.taken == length ts) KeyringError.disconnected) _ v h1 in
      let (archived, r, h3) = bind_inversion (archived_keys c format ring.keys ring.keys) _ v h2 in
      let (x, s, h4) =
        bind_inversion (guard (same_keys c format archived t.key_ids) KeyringError.unexpected_keys)
          _ v h3 in
      let both =
        guard_inversion (same_keys c format archived t.key_ids) KeyringError.unexpected_keys s in
      (
        (eq_iff t.current active).0
            (guard_inversion (str_eq t.current active) KeyringError.not_terminal p),
        ground (arith, h4),
        ground (arith, h4),
        AllArchived-archived_keys ring.keys ring.keys archived t.key_ids r (ground (arith, both)),
      )

  active_key-some : (o : Option String) (key : String) → active_key o ≡ ok key → o ≡ some key
  unfolding active_key
  active_key-some none key h = absurd (cc h)
  active_key-some (some k) key h = ground (arith, h)

  read_keyring-IsAuthorized :
      (ring : Keyring) (chain active : String) (ts : List SignedAuditKeyTransition)
      → read_keyring c format ring chain ≡ ok (active, ts)
      → IsKeyFile c format ring.keys ring.trusted_root_key_id
        × (ring.active_key_id ≡ some active)
        × All (IsAuthorized c format ring.keys chain) ts
  unfolding read_keyring load_verified_transitions
  read_keyring-IsAuthorized ring chain active ts h =
      let (root, p, h1) =
        bind_inversion (validate_key_file c format ring.keys ring.trusted_root_key_id) _
          (active, ts) h in
      let (key, q, h2) = bind_inversion (active_key ring.active_key_id) _ (active, ts) h1 in
      let (loaded, r, h3) =
        bind_inversion (load_verified_transitions c format ring chain) _ (active, ts) h2 in
      let same : (key ≡ active) × (loaded ≡ ts) = ground (arith, h3) in
      let (u, s, h4) =
        bind_inversion
          (guard (leb (length ring.transitions) max_transitions) KeyringError.too_many_transitions)
          _ loaded r in
      (
        (IsKeyFile-validate_key_file c format ring.keys ring.trusted_root_key_id root p).0,
        active_key-some ring.active_key_id active (rw same.0 at q),
        load_entries-IsAuthorized c format ring.keys chain ring.transitions [] ts tt
            (rw same.1 at h4),
      )

  -- When `verify_integrity` returns, its active key is the keyring's, every key that it lists is
  -- trusted by the root along the expected chain, and every entry of the keys directory is the file
  -- of one of those keys.
  pub verify_integrity-Trusted :
      (ring : Keyring) (chain : String) (v : AuditKeyringVerification)
      → verify_integrity c format ring chain ≡ some (ok v)
      → (ring.active_key_id ≡ some v.active_key_id)
        × Trusted c format ring.keys chain ring.trusted_root_key_id v.active_key_id
        × All (Trusted c format ring.keys chain ring.trusted_root_key_id) v.key_ids
        × AllArchived v.key_ids ring.keys
  unfolding verify_integrity read_keyring checked check_trace load_verified_transitions
  verify_integrity-Trusted ring chain v h = elim (Result-cases (read_keyring c format ring chain)) [
    | inr (x, p) ↦ absurd (ground (arith, p, h))
    | inl ((active, ts), p) ↦
        elim (Option-cases (follow c format (suc (length ts)) ts (start_trace c format ring))) [
          | inl q ↦ absurd (ground (arith, p, q, h))
          | inr (err x, q) ↦ absurd (ground (arith, p, q, h))
          | inr (ok t, q) ↦
              let root = ring.trusted_root_key_id in
              let (root_file, active_file, authorized) =
                read_keyring-IsAuthorized ring chain active ts p in
              let (terminal, same_active, same_keys, archived) =
                check_trace-AllArchived ring active ts t v (ground (arith, p, q, h)) in
              let at_root : Trusted c format ring.keys chain root root =
                Trusted.at_root root_file in
              let start : IsTrusted ring.keys chain root (start_trace c format ring) = record {
                current = at_root;
                key_ids = (at_root, tt);
              } in
              let trusted =
                follow-IsTrusted ring.keys chain root (suc (length ts)) ts
                  (start_trace c format ring) t authorized start q in
              (
                rw same_active active_file,
                rw same_active (rw terminal at trusted.current),
                rw same_keys trusted.key_ids,
                rw same_keys archived,
              )
        ]
  ]
