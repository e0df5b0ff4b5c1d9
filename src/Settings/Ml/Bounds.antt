-- ===== src/Settings/Ml/Bounds.antt =====
-- What `MlSettings.from_env` of src/smart_factory/config.py guarantees.
use smart_factory_monitor.Common.{
  ℕ, String, ◌≤◌, ◌≡◌, ◌≢◌, refl, true, false, Bool-cases, inl, inr, List, [], ◌∷◌, All, any,
  str_eq, strip, without, fromkeys, arith,
}
use smart_factory_monitor.Common.Ensures.{Ensures, Ensures-bind, Ensures-guard, Ensures-ok}
use smart_factory_monitor.Domain.{is_slug_from}
use smart_factory_monitor.Settings.{
  Host, getenv_or, optional_text, required_boolean, absent_or_readable,
}
use smart_factory_monitor.Settings.Ranges.{
  IsInRange, IsWithin, required_range-IsInRange, required_float_range-IsWithin,
}
use smart_factory_monitor.Settings.Ml.{
  MlSettings, is_nonempty, not_below, parse_machine_ids, has_machine, all_machine_ids,
  configured_machine_ids, finish_ml, check_ml, ml_from_env,
}

-- No text stands twice.
abbrev pub AllDistinct : List String → Type 0
AllDistinct [] = Unit {0}
AllDistinct (x ∷ xs) = (any (str_eq x) xs ≡ false) × AllDistinct xs

any-without_self : (x : String) (xs : List String) → any (str_eq x) (without x xs) ≡ false
unfolding without
any-without_self x [] = refl
any-without_self x (y ∷ xs) = ground (arith, any-without_self x xs)

any-without :
    (x y : String) (xs : List String)
    → any (str_eq y) xs ≡ false
    → any (str_eq y) (without x xs) ≡ false
unfolding without
any-without x y [] h = refl
any-without x y (z ∷ xs) h = ground (arith, any-without x y xs)

without-AllDistinct : (x : String) (xs : List String) → AllDistinct xs → AllDistinct (without x xs)
unfolding without
without-AllDistinct x [] h = tt
without-AllDistinct x (y ∷ xs) h = elim (Bool-cases (str_eq x y)) [
  | inl e ↦ rw e (without-AllDistinct x xs h.1)
  | inr e ↦ rw e (any-without x y xs h.0, without-AllDistinct x xs h.1)
]

fromkeys-AllDistinct : (xs : List String) → AllDistinct (fromkeys xs)
unfolding fromkeys
fromkeys-AllDistinct [] = tt
fromkeys-AllDistinct (x ∷ xs) = (
  any-without_self x (fromkeys xs),
  without-AllDistinct x (fromkeys xs) (fromkeys-AllDistinct xs),
)

parse_machine_ids-AllDistinct : (s : String) → AllDistinct (parse_machine_ids s)
unfolding parse_machine_ids
parse_machine_ids-AllDistinct s = fromkeys-AllDistinct _

All-of_all_machine_ids :
    (ids : List String)
    → all_machine_ids ids ≡ true
    → All (λ machine_id. is_slug_from false machine_id ≡ true) ids
unfolding all_machine_ids
All-of_all_machine_ids [] h = tt
All-of_all_machine_ids (x ∷ xs) h = (ground arith, All-of_all_machine_ids xs (ground arith))

ne_nil_of_has_machine : (ids : List String) → has_machine ids ≡ true → ids ≢ []
unfolding has_machine
ne_nil_of_has_machine [] h = absurd (cc h)
ne_nil_of_has_machine (x ∷ xs) h = λ e. cc

le_of_not_below : (a b : ℕ) → not_below a b ≡ true → b ≤ a
unfolding not_below
le_of_not_below a b h = ground arith

-- At least one machine, none twice, each a valid identifier.
pub record AreMachineIds (ids : List String) : Type 0 where
  pub nonempty : ids ≢ []
  pub distinct : AllDistinct ids
  pub valid : All (λ machine_id. is_slug_from false machine_id ≡ true) ids

module _ {F : Type 0} (h : Host F) where
  pub record AreBounded (s : MlSettings F) : Type 0 where
    pub machines : AreMachineIds s.machine_ids
    pub training :
        (20 ≤ s.minimum_training_samples)
        × (s.minimum_training_samples ≤ s.training_limit)
        × (s.training_limit ≤ 1_000_000)
    pub evaluation :
        (20 ≤ s.evaluation_minimum_samples)
        × (s.evaluation_minimum_samples ≤ s.evaluation_limit)
        × (s.evaluation_limit ≤ 1_000_000)
    pub contamination : IsWithin h (h.literal "0.001") (h.literal "0.5") s.contamination
    pub rate : IsWithin h (h.literal "0.0") (h.literal "1.0") s.maximum_evaluation_anomaly_rate
    pub psi : IsWithin h (h.literal "0.0") (h.literal "10.0") s.maximum_feature_psi
    pub public_key : absent_or_readable h s.signature_public_key_path ≡ true
    pub private_key : absent_or_readable h s.signing_private_key_path ≡ true

  module _ (a b c d : ℕ) (ha : IsInRange 20 100_000 a) (hb : IsInRange 20 1_000_000 b)
      (hc : IsInRange 20 100_000 c) (hd : IsInRange 20 1_000_000 d) (ab : a ≤ b) (cd : c ≤ d) where
    finish_ml-AreBounded :
        (directory : String) (ids : List String)
        → AreMachineIds ids
        → absent_or_readable h (optional_text h "ML_SIGNATURE_PUBLIC_KEY_PATH") ≡ true
        → absent_or_readable h (optional_text h "ML_SIGNING_PRIVATE_KEY_PATH") ≡ true
        → Ensures AreBounded (finish_ml h a b c d directory ids)
    unfolding finish_ml
    finish_ml-AreBounded directory ids m p q =
        Ensures-bind (required_boolean h _ _) _ (record { holds = λ t e. tt })
          λ enabled _. Ensures-bind _ _ (required_float_range-IsWithin h _ _ _ _) λ x hx.
            Ensures-bind _ _ (required_float_range-IsWithin h _ _ _ _) λ y hy.
              Ensures-bind _ _ (required_float_range-IsWithin h _ _ _ _) λ z hz.
                Ensures-ok _ record {
                  machines = m;
                  training = (ha.0, ab, hb.1);
                  evaluation = (hc.0, cd, hd.1);
                  contamination = hx;
                  rate = hy;
                  psi = hz;
                  public_key = p;
                  private_key = q;
                }

    check_ml-AreBounded : Ensures AreBounded (check_ml h a b c d)
    unfolding check_ml
    check_ml-AreBounded =
        let ids = parse_machine_ids (configured_machine_ids h) in
        Ensures-guard (is_nonempty _) _ _ λ directory.
          Ensures-guard (has_machine ids) _ _ λ some_id.
            Ensures-guard (all_machine_ids ids) _ _ λ valid. Ensures-guard _ _ _ λ p.
              Ensures-guard _ _ _ λ q.
                finish_ml-AreBounded (strip (getenv_or h "ML_MODEL_DIRECTORY" "/models")) ids
                  record {
                    nonempty = ne_nil_of_has_machine ids some_id;
                    distinct = parse_machine_ids-AllDistinct _;
                    valid = All-of_all_machine_ids ids valid;
                  }
                  p q

  pub ml_from_env-AreBounded : Ensures AreBounded (ml_from_env h)
  unfolding ml_from_env
  ml_from_env-AreBounded = Ensures-bind _ _ (required_range-IsInRange h _ _ _ _) λ a ha.
      Ensures-bind _ _ (required_range-IsInRange h _ _ _ _) λ b hb. Ensures-guard _ _ _ λ ab.
        Ensures-bind _ _ (required_range-IsInRange h _ _ _ _) λ c hc.
          Ensures-bind _ _ (required_range-IsInRange h _ _ _ _) λ d hd. Ensures-guard _ _ _ λ cd.
            check_ml-AreBounded a b c d ha hb hc hd (le_of_not_below b a ab)
              (le_of_not_below d c cd)
