-- ===== src/Settings/Audit/Roots.antt =====
-- The trusted root of `AuditKeyringSettings` and `AuditCheckpointSettings` of
-- src/smart_factory/config.py.
use smart_factory_monitor.Common.{
  String, Bool, true, false, not, ◌≡◌, ◌≢◌, ◌⊎◌, inl, inr, refl, strip, Option, none, some, ok,
  guard, guard_inversion, bind_inversion,
}
use smart_factory_monitor.Common.Ensures.{
  Ensures, Ensures-bind, Ensures-guard, Ensures-ok, Ensures-err,
}
use smart_factory_monitor.Domain.{is_hex_digest, is_chain_id}
use smart_factory_monitor.Settings.{
  Host, is_none, stripped_text, optional_text, required_boolean, is_readable_file,
  absent_or_readable,
}
use smart_factory_monitor.Settings.Audit.{
  AuditKeyringSettings, AuditCheckpointSettings, is_set, is_root_key_id, check_root_text, read_root,
  resolve_root, keyring_root, checkpoint_root, check_colocated, check_colocated_file, is_directory,
  keyring_from_env, required_root, absent_or_directory, given_if, readable_if,
  check_checkpoint_files, check_checkpoint, checkpoint_from_env,
}

abbrev IsDigest : String → Type 0
IsDigest key = is_hex_digest key ≡ true

check_root_text-IsDigest : (o : Option String) → Ensures IsDigest (check_root_text o)
unfolding check_root_text
check_root_text-IsDigest none = Ensures-err _
check_root_text-IsDigest (some text) =
    Ensures-guard (is_hex_digest (strip text)) _ _ λ d. Ensures-ok (strip text) d

IsDigest-of_root :
    (key : String) (o : Option String) → is_root_key_id o ≡ true → o ≡ some key → IsDigest key
unfolding is_root_key_id
IsDigest-of_root key none e p = absurd (cc p)
IsDigest-of_root key (some k) e p = let q : k ≡ key = cc p in rw (← q) e

module _ {F : Type 0} (h : Host F) where
  read_root-IsDigest :
      (allow : Bool) (path : Option String) → Ensures IsDigest (read_root h allow path)
  unfolding read_root
  read_root-IsDigest false path = Ensures-err _
  read_root-IsDigest true none = Ensures-err _
  read_root-IsDigest true (some path) = check_root_text-IsDigest (h.read_text path)

  resolve_root-IsDigest :
      (key path : Option String) (allow : Bool)
      → is_root_key_id key ≡ true
      → Ensures IsDigest (resolve_root h key path allow)
  unfolding resolve_root
  resolve_root-IsDigest (some key) path allow e =
      Ensures-ok key (IsDigest-of_root key (some key) e refl)
  resolve_root-IsDigest none path allow e = read_root-IsDigest allow path

  -- The root is configured, or the co-located mode is on and its path names a readable file.
  abbrev pub HasRootSource : Option String → Bool → Option String → Type 0
  HasRootSource key allow path =
      (key ≢ none)
      ⊎ ((allow ≡ true) × (file : String) × (path ≡ some file) × (is_readable_file h file ≡ true))

  source_of_tests :
      (allow : Bool) (path : Option String)
      → allow ≡ true
      → not (is_none path) ≡ true
      → absent_or_readable h path ≡ true
      → (allow ≡ true) × (file : String) × (path ≡ some file) × (is_readable_file h file ≡ true)
  unfolding absent_or_readable
  source_of_tests allow none a p r = absurd (cc p)
  source_of_tests allow (some file) a p r = (a, file, refl, r)

  check_colocated_file-HasRootSource :
      (key : Option String) (allow : Bool) (path : Option String)
      → Ensures (λ _. HasRootSource key allow path) (check_colocated_file h key allow path)
  unfolding check_colocated_file
  check_colocated_file-HasRootSource (some key) allow path = Ensures-ok tt (inl (λ q. cc))
  check_colocated_file-HasRootSource none allow path = record {
    holds = λ t e.
        let (u, p, q) = bind_inversion (check_colocated allow path) _ t e in
        let (v, a, b) = bind_inversion (guard allow _) _ u (unfold check_colocated in p) in
        inr (
          source_of_tests allow path (guard_inversion allow _ a) (guard_inversion _ _ b)
            (guard_inversion (absent_or_readable h path) _ q));
  }

  pub record IsTrustInput (s : AuditKeyringSettings) : Type 0 where
    pub chain : is_chain_id s.chain_id ≡ true
    pub directory : is_directory h s.keyring_path ≡ true
    pub root_form : is_root_key_id s.trusted_root_key_id ≡ true
    pub root_source :
        HasRootSource s.trusted_root_key_id s.allow_colocated_trusted_root
          s.trusted_root_key_id_path

  pub keyring_from_env-IsTrustInput : Ensures IsTrustInput (keyring_from_env h)
  unfolding keyring_from_env
  keyring_from_env-IsTrustInput =
      let chain = stripped_text h "AUDIT_CHAIN_ID" in
      let ring = stripped_text h "AUDIT_ATTESTATION_KEYRING_PATH" in
      let key = optional_text h "AUDIT_ATTESTATION_TRUSTED_ROOT_KEY_ID" in
      let path = optional_text h "AUDIT_ATTESTATION_ROOT_KEY_ID_PATH" in
      Ensures-bind (required_boolean h _ _) _ (record { holds = λ t e. tt })
        λ allow _. Ensures-guard (is_set chain) _ _ λ _. Ensures-guard (is_chain_id chain) _ _ λ c.
          Ensures-guard (is_directory h ring) _ _ λ d. Ensures-guard (is_root_key_id key) _ _ λ r.
            Ensures-bind _ _ (check_colocated_file-HasRootSource key allow path) λ t source.
              Ensures-ok _ record { chain = c; directory = d; root_form = r; root_source = source }

  -- The trust inputs that were read from the environment name a chain and a directory, and the root
  -- key that they resolve to, configured or read from its file, has 64 hexadecimal digits.
  pub keyring_root_valid :
      (s : AuditKeyringSettings) (key : String)
      → keyring_from_env h ≡ ok s
      → keyring_root h s ≡ ok key
      → IsDigest key
        × (is_chain_id s.chain_id ≡ true)
        × HasRootSource s.trusted_root_key_id s.allow_colocated_trusted_root
            s.trusted_root_key_id_path
  unfolding keyring_root
  keyring_root_valid s key e r =
      let t = keyring_from_env-IsTrustInput.holds s e in
      (
        (resolve_root-IsDigest s.trusted_root_key_id s.trusted_root_key_id_path
              s.allow_colocated_trusted_root t.root_form).holds
            key r,
        t.chain,
        t.root_source,
      )

  -- What a checkpoint command may rely on, by what it requires.
  pub record IsCheckpointInput (require_private_key require_keyring : Bool)
      (s : AuditCheckpointSettings) : Type 0 where
    pub chain : is_chain_id s.chain_id ≡ true
    pub destination : is_set s.checkpoint_path ≡ true
    pub public_key : is_readable_file h s.public_key_path ≡ true
    pub private_key : (require_private_key ≡ false) ⊎ (s.private_key_path ≢ none)
    pub private_readable : absent_or_readable h s.private_key_path ≡ true
    pub keyring : (require_keyring ≡ false) ⊎ (s.keyring_path ≢ none)
    pub keyring_directory : absent_or_directory h s.keyring_path ≡ true
    pub root_form : is_root_key_id s.trusted_root_key_id ≡ true
    pub root :
        (require_keyring ≡ false)
        ⊎ HasRootSource s.trusted_root_key_id s.allow_colocated_trusted_root
            s.trusted_root_key_id_path

given_of :
    (required : Bool) (path : Option String)
    → given_if required path ≡ true
    → (required ≡ false) ⊎ (path ≢ none)
unfolding given_if
given_of false path e = inl refl
given_of true none e = absurd (cc e)
given_of true (some path) e = inr (λ q. cc)

module _ {F : Type 0} (h : Host F) where
  required_root_source :
      (required : Bool) (key : Option String) (allow : Bool) (path : Option String)
      → required_root required key allow path ≡ ok tt
      → readable_if h allow path ≡ true
      → (required ≡ false) ⊎ HasRootSource h key allow path
  unfolding required_root readable_if check_colocated
  required_root_source false key allow path e r = inl refl
  required_root_source true (some key) allow path e r = inr (inl (λ q. cc))
  required_root_source true none false path e r = absurd (cc e)
  required_root_source true none true none e r = absurd (cc e)
  required_root_source true none true (some file) e r =
      inr (inr (source_of_tests h true (some file) refl refl r))

  check_checkpoint-IsCheckpointInput :
      (private ring : Bool) (s : AuditCheckpointSettings)
      → Ensures (IsCheckpointInput h private ring) (check_checkpoint h private ring s)
  unfolding check_checkpoint check_checkpoint_files
  check_checkpoint-IsCheckpointInput private ring s = Ensures-guard (is_set s.chain_id) _ _ λ _.
      Ensures-guard (is_chain_id s.chain_id) _ _ λ chain.
        Ensures-guard (is_set s.checkpoint_path) _ _ λ destination.
          Ensures-guard (is_set s.public_key_path) _ _ λ _.
            Ensures-guard (given_if private s.private_key_path) _ _ λ key.
              Ensures-guard (given_if ring s.keyring_path) _ _ λ keyring.
                Ensures-guard (is_root_key_id s.trusted_root_key_id) _ _ λ form.
                  Ensures-bind
                    (required_root ring s.trusted_root_key_id s.allow_colocated_trusted_root
                      s.trusted_root_key_id_path)
                    _ (record { holds = λ t e. e })
                    λ t root. Ensures-guard (is_readable_file h s.public_key_path) _ _ λ p.
                      Ensures-guard (absent_or_readable h s.private_key_path) _ _ λ q.
                        Ensures-guard (absent_or_directory h s.keyring_path) _ _ λ d.
                          Ensures-guard
                            (readable_if h s.allow_colocated_trusted_root
                              s.trusted_root_key_id_path)
                            _ _
                            λ r. Ensures-ok s record {
                              chain = chain;
                              destination = destination;
                              public_key = p;
                              private_key = given_of private s.private_key_path key;
                              private_readable = q;
                              keyring = given_of ring s.keyring_path keyring;
                              keyring_directory = d;
                              root_form = form;
                              root =
                                  required_root_source ring s.trusted_root_key_id
                                    s.allow_colocated_trusted_root s.trusted_root_key_id_path root
                                    r;
                            }

  pub checkpoint_from_env-IsCheckpointInput :
      (private ring : Bool)
      → Ensures (IsCheckpointInput h private ring) (checkpoint_from_env h private ring)
  unfolding checkpoint_from_env
  checkpoint_from_env-IsCheckpointInput private ring =
      Ensures-bind (required_boolean h _ _) _ (record { holds = λ t e. tt })
        λ allow _. check_checkpoint-IsCheckpointInput private ring _

  -- The settings of a checkpoint command that were read from the environment have what the command
  -- requires, and the root key that they resolve to has 64 hexadecimal digits.
  pub checkpoint_root_valid :
      (private ring : Bool) (s : AuditCheckpointSettings) (key : String)
      → checkpoint_from_env h private ring ≡ ok s
      → checkpoint_root h s ≡ ok key
      → IsDigest key × IsCheckpointInput h private ring s
  unfolding checkpoint_root
  checkpoint_root_valid private ring s key e r =
      let t = (checkpoint_from_env-IsCheckpointInput private ring).holds s e in
      (
        (resolve_root-IsDigest h s.trusted_root_key_id s.trusted_root_key_id_path
              s.allow_colocated_trusted_root t.root_form).holds
            key r,
        t,
      )
