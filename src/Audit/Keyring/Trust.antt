-- ===== src/Audit/Keyring/Trust.antt =====
-- What `resolve_trusted_key` returns is reached from the trusted root by authorized transitions.
use smart_factory_monitor.Common.{
  ℕ, suc, zero, String, not, ◌≡◌, refl, sym, inl, inr, Option, none, some, List, [], ◌∷◌, ◌++◌, All,
  All-append, length, arith, str_eq, eq_iff, Bool-cases, Option-cases, ok, Result-cases,
  bind_inversion, guard_inversion, guard, leb,
}
use smart_factory_monitor.Signing.{Crypto}
use smart_factory_monitor.Audit.Checkpoint.{public_key_id, check_signature}
use smart_factory_monitor.Audit.Keyring.{
  SignedAuditKeyTransition, DirectoryEntry, Keyring, KeyringError, KeyringFormat, find_file,
  find_transition, member, key_identity, validate_key_file, verify_transition, load_entries,
  load_verified_transitions, walk, walk_from_root, loaded_walk, resolve_trusted_key, signed_by,
  transition_name, parsed_transition, is_present, max_transition_bytes, max_transitions,
}

module _ (c : Crypto) (format : KeyringFormat) where
  -- The file of a key holds an Ed25519 key with that identity.
  pub record IsKeyFile (keys : List DirectoryEntry) (key_id : String) : Type 0 where
    pub identity : public_key_id c (find_file key_id keys) ≡ ok key_id

  -- A transition of the chain that is signed by both of its keys.
  pub record IsAuthorized (keys : List DirectoryEntry) (chain : String)
      (e : SignedAuditKeyTransition) : Type 0 where
    pub on_chain : e.transition.chain_id ≡ chain
    pub previous_key : IsKeyFile keys e.transition.previous_key_id
    pub new_key : IsKeyFile keys e.transition.new_key_id
    pub previous_signature : String
    pub new_signature : String
    pub previous_decodes : c.b64decode e.previous_signature ≡ some previous_signature
    pub new_decodes : c.b64decode e.new_signature ≡ some new_signature
    pub signed_by_previous :
        check_signature c
          (find_file e.transition.previous_key_id keys)
          (format.canonical_json e.transition)
          previous_signature
        ≡ ok tt
    pub signed_by_new :
        check_signature c
          (find_file e.transition.new_key_id keys)
          (format.canonical_json e.transition)
          new_signature
        ≡ ok tt

  -- A key to which authorized transitions lead from the root.
  pub data Trusted (keys : List DirectoryEntry) (chain root : String) : String → Type 0 where
    at_root : IsKeyFile keys root → Trusted keys chain root root
    after :
        (e : SignedAuditKeyTransition)
        → Trusted keys chain root e.transition.previous_key_id
        → IsAuthorized keys chain e
        → Trusted keys chain root e.transition.new_key_id

  pub IsKeyFile-validate_key_file :
      (keys : List DirectoryEntry) (key_id : String) (file : Option String)
      → validate_key_file c format keys key_id ≡ ok file
      → IsKeyFile keys key_id × (file ≡ find_file key_id keys)
  unfolding validate_key_file key_identity
  IsKeyFile-validate_key_file keys key_id file h =
      elim (Result-cases (public_key_id c (find_file key_id keys))) [
        | inr (x, p) ↦ absurd (ground (arith, p, h))
        | inl (key, p) ↦
            (record { identity = ground (arith, p, h, eq_iff key key_id) }, ground (arith, p, h))
      ]

  signed_by-check_signature :
      (pem : Option String) (payload : String) (signature : Option String)
      → signed_by c format pem payload signature ≡ ok tt
      → (s : String) × (signature ≡ some s) × (check_signature c pem payload s ≡ ok tt)
  signed_by-check_signature pem payload none h = absurd (cc h)
  signed_by-check_signature pem payload (some s) h =
      elim (Result-cases (check_signature c pem payload s)) [
        | inl (u, p) ↦ (s, refl, p)
        | inr (x, p) ↦ absurd (ground (arith, p, h))
      ]

  pub IsAuthorized-verify_transition :
      (keys : List DirectoryEntry) (chain : String) (e : SignedAuditKeyTransition)
      → verify_transition c format keys chain e ≡ ok tt
      → IsAuthorized keys chain e
  unfolding verify_transition
  IsAuthorized-verify_transition keys chain e h =
      let payload = format.canonical_json e.transition in
      let (u, p, h1) =
        bind_inversion (guard (str_eq e.transition.chain_id chain) KeyringError.unexpected_chain) _
          tt h in
      let (previous, q, h2) =
        bind_inversion (validate_key_file c format keys e.transition.previous_key_id) _ tt h1 in
      let (next, r, h3) =
        bind_inversion (validate_key_file c format keys e.transition.new_key_id) _ tt h2 in
      let (w, s, h4) =
        bind_inversion (signed_by c format previous payload (c.b64decode e.previous_signature)) _ tt
          h3 in
      let (previous_key, previous_file) = IsKeyFile-validate_key_file keys _ previous q in
      let (new_key, new_file) = IsKeyFile-validate_key_file keys _ next r in
      let (ps, pd, pc) = signed_by-check_signature previous payload _ s in
      let (ns, nd, nc) = signed_by-check_signature next payload _ h4 in
      record {
        on_chain =
            (eq_iff e.transition.chain_id chain).0
              (guard_inversion _ KeyringError.unexpected_chain p);
        previous_key = previous_key;
        new_key = new_key;
        previous_signature = ps;
        new_signature = ns;
        previous_decodes = pd;
        new_decodes = nd;
        signed_by_previous = rw previous_file at pc;
        signed_by_new = rw new_file at nc;
      }

  pub load_entries-IsAuthorized :
      (keys : List DirectoryEntry) (chain : String) (entries : List DirectoryEntry)
      (loaded ts : List SignedAuditKeyTransition)
      → All (IsAuthorized keys chain) loaded
      → load_entries c format keys chain entries loaded ≡ ok ts
      → All (IsAuthorized keys chain) ts
  unfolding load_entries
  load_entries-IsAuthorized keys chain [] loaded ts l h =
      let same : ts ≡ loaded = ground (arith, h) in rw same l
  load_entries-IsAuthorized keys chain (DirectoryEntry.irregular ∷ rest) loaded ts l h =
      absurd (cc h)
  load_entries-IsAuthorized keys chain (DirectoryEntry.regular name content ∷ rest) loaded ts l h =
      let (u, p, h1) =
        bind_inversion
          (guard (leb (format.byte_length content) max_transition_bytes)
            KeyringError.transition_too_large)
          _ ts h in
      let (e, q, h2) =
        bind_inversion (parsed_transition c format (format.model_validate_json content)) _ ts h1 in
      let (v, r, h3) =
        bind_inversion
          (guard (str_eq name (transition_name c format e.transition)) KeyringError.wrong_filename)
          _ ts h2 in
      let (w, s, h4) =
        bind_inversion
          (guard (not (is_present c format (find_transition e.transition.previous_key_id loaded)))
            KeyringError.fork)
          _ ts h3 in
      let (x, y, h5) = bind_inversion (verify_transition c format keys chain e) _ ts h4 in
      load_entries-IsAuthorized keys chain rest (loaded ++ (e ∷ [])) ts
        (All-append (IsAuthorized keys chain) loaded (e ∷ []) l
          (IsAuthorized-verify_transition keys chain e y, tt))
        h5

  pub find_transition-All :
      (keys : List DirectoryEntry) (chain key : String) (ts : List SignedAuditKeyTransition)
      (e : SignedAuditKeyTransition)
      → All (IsAuthorized keys chain) ts
      → find_transition key ts ≡ some e
      → IsAuthorized keys chain e × (e.transition.previous_key_id ≡ key)
  unfolding find_transition
  find_transition-All keys chain key [] e l h = absurd (cc h)
  find_transition-All keys chain key (t ∷ ts) e (a, l) h =
      elim (Bool-cases (str_eq t.transition.previous_key_id key)) [
        | inl s ↦
            let same : e ≡ t = ground (arith, s, h) in
            rw same (a, (eq_iff t.transition.previous_key_id key).0 s)
        | inr s ↦ find_transition-All keys chain key ts e l (rw s at h)
      ]

  walk-Trusted :
      (keys : List DirectoryEntry) (chain root : String) (fuel : ℕ)
      (ts : List SignedAuditKeyTransition) (target current : String) (visited : List String)
      (key : String)
      → All (IsAuthorized keys chain) ts
      → Trusted keys chain root current
      → walk c format fuel ts target current visited ≡ some (ok key)
      → Trusted keys chain root key × (key ≡ target)
  unfolding walk
  walk-Trusted keys chain root zero ts target current visited key l trusted h = absurd (cc h)
  walk-Trusted keys chain root (suc fuel) ts target current visited key l trusted h =
      elim (Option-cases (find_transition current ts)) [
        | inl p ↦ absurd (ground (arith, p, h))
        | inr (t, p) ↦
            let next = t.transition.new_key_id in
            let (authorized, same) = find_transition-All keys chain current ts t l p in
            let reached = Trusted.after t (rw (← same) at trusted) authorized in
            elim (Bool-cases (member next visited)) [
              | inl seen ↦ absurd (ground (arith, p, seen, h))
              | inr fresh ↦ elim (Bool-cases (str_eq next target)) [
                | inl done ↦
                    let found : key ≡ next = ground (arith, p, fresh, done, h) in
                    rw found (reached, (eq_iff next target).0 done)
                | inr on ↦
                    walk-Trusted keys chain root fuel ts target next (next ∷ visited) key l reached
                      (ground (arith, p, fresh, on, h))
              ]
            ]
      ]

  -- A key that `resolve_trusted_key` returns is the one that was asked for, and authorized
  -- transitions of the expected chain lead to it from the trusted root, each signed by the key
  -- before it and by its own.
  pub resolve_trusted_key-Trusted :
      (ring : Keyring) (target chain key : String)
      → resolve_trusted_key c format ring target chain ≡ some (ok key)
      → Trusted ring.keys chain ring.trusted_root_key_id key × (key ≡ target)
  unfolding resolve_trusted_key loaded_walk walk_from_root load_verified_transitions
  resolve_trusted_key-Trusted ring target chain key h =
      let root = ring.trusted_root_key_id in
      elim (Result-cases (validate_key_file c format ring.keys root)) [
        | inr (x, p) ↦ absurd (ground (arith, p, h))
        | inl (file, p) ↦
            let start = Trusted.at_root ((IsKeyFile-validate_key_file ring.keys root file p).0) in
            elim (Bool-cases (str_eq target root)) [
              | inl same ↦
                  let found : key ≡ root = ground (arith, p, same, h) in
                  rw found (start, sym ((eq_iff target root).0 same))
              | inr other ↦ elim (Result-cases (load_verified_transitions c format ring chain)) [
                | inr (x, q) ↦ absurd (ground (arith, p, other, q, h))
                | inl (ts, q) ↦
                    let (u, r, loaded) =
                      bind_inversion
                        (guard (leb (length ring.transitions) max_transitions)
                          KeyringError.too_many_transitions)
                        _ ts q in
                    walk-Trusted ring.keys chain root (suc (length ts)) ts target root (root ∷ [])
                      key
                      (load_entries-IsAuthorized ring.keys chain ring.transitions [] ts tt loaded)
                      start (ground (arith, p, other, q, h))
              ]
            ]
      ]
