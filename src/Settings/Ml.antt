-- ===== src/Settings/Ml.antt =====
-- `MlSettings` of src/smart_factory/config.py
pub mod Bounds
use smart_factory_monitor.Common.{
  ℕ, Bool, true, false, not, ◌&&◌, String, count, ◌==◌, leb, Option, none, some, List, [], ◌∷◌, all,
  is_empty, str_eq, strip, split_on, fromkeys, Result, ok, err, ◌>>=◌, ◌>>◌, guard, if◌then◌else◌,
}
use smart_factory_monitor.Domain.{is_slug_from}
use smart_factory_monitor.Settings.{
  Host, Reads, SettingsError, getenv_or, or_default, optional_text, required_boolean,
  required_range, required_float_range, absent_or_readable,
}

pub record MlSettings (F : Type 0) : Type 0 where
  pub enabled : Bool
  pub model_directory : String
  pub machine_ids : List String
  pub contamination : F
  pub minimum_training_samples : ℕ
  pub training_limit : ℕ
  pub signature_public_key_path : Option String
  pub signing_private_key_path : Option String
  pub evaluation_minimum_samples : ℕ
  pub evaluation_limit : ℕ
  pub maximum_evaluation_anomaly_rate : F
  pub maximum_feature_psi : F

-- `not a < b`, as a test of its own
unfoldable pub not_below : ℕ → ℕ → Bool
not_below a b = leb b a

unfoldable pub is_nonempty : String → Bool
is_nonempty text = not (count text == 0)

unfoldable pub stripped_parts : List String → List String
unfolding strip is_nonempty
stripped_parts [] = []
stripped_parts (part ∷ parts) =
    let rest = stripped_parts parts in if is_nonempty (strip part) then strip part ∷ rest else rest

unfoldable pub parse_machine_ids : String → List String
unfolding split_on fromkeys stripped_parts
parse_machine_ids configured = fromkeys (stripped_parts (split_on b',' configured))

unfoldable pub has_machine : List String → Bool
has_machine machine_ids = not (is_empty machine_ids)

-- `_MACHINE_ID_PATTERN.fullmatch` of every identifier
unfoldable pub all_machine_ids : List String → Bool
all_machine_ids machine_ids = all (is_slug_from false) machine_ids

module _ {F : Type 0} (h : Host F) where
  -- ML_MACHINE_IDS, or else ML_MACHINE_ID, or else MACHINE_ID
  unfoldable pub configured_machine_ids : String
  unfolding getenv_or
  configured_machine_ids =
      getenv_or h "ML_MACHINE_IDS"
        (getenv_or h "ML_MACHINE_ID" (getenv_or h "MACHINE_ID" "press-01"))

  -- `cls(...)`, whose arguments still read four variables
  unfoldable pub finish_ml : ℕ → ℕ → ℕ → ℕ → String → List String → Reads (MlSettings F)
  finish_ml minimum_samples training_limit evaluation_minimum evaluation_limit directory
        machine_ids =
      do
        enabled ← required_boolean h "ML_ANOMALY_DETECTION_ENABLED" "false"
        contamination ←
            required_float_range h "ML_CONTAMINATION" "0.05" (h.literal "0.001") (h.literal "0.5")
        rate ←
            required_float_range h "ML_MAX_EVALUATION_ANOMALY_RATE" "0.15" (h.literal "0.0")
              (h.literal "1.0")
        psi ←
            required_float_range h "ML_MAX_FEATURE_PSI" "0.25" (h.literal "0.0") (h.literal "10.0")
        ok record {
          enabled = enabled;
          model_directory = directory;
          machine_ids = machine_ids;
          contamination = contamination;
          minimum_training_samples = minimum_samples;
          training_limit = training_limit;
          signature_public_key_path = optional_text h "ML_SIGNATURE_PUBLIC_KEY_PATH";
          signing_private_key_path = optional_text h "ML_SIGNING_PRIVATE_KEY_PATH";
          evaluation_minimum_samples = evaluation_minimum;
          evaluation_limit = evaluation_limit;
          maximum_evaluation_anomaly_rate = rate;
          maximum_feature_psi = psi;
        }

  -- The directory, the machines and the files of the keys are checked before.
  unfoldable pub check_ml : ℕ → ℕ → ℕ → ℕ → Reads (MlSettings F)
  check_ml minimum_samples training_limit evaluation_minimum evaluation_limit = do
    guard (is_nonempty (strip (getenv_or h "ML_MODEL_DIRECTORY" "/models")))
        (SettingsError.value_error "ML_MODEL_DIRECTORY must not be empty")
    guard (has_machine (parse_machine_ids (configured_machine_ids)))
        (SettingsError.value_error "ML_MACHINE_IDS must contain at least one machine ID")
    guard (all_machine_ids (parse_machine_ids (configured_machine_ids)))
        (SettingsError.value_error "invalid machine ID in ML_MACHINE_IDS")
    guard (absent_or_readable h (optional_text h "ML_SIGNATURE_PUBLIC_KEY_PATH"))
        (SettingsError.unreadable_file "ML_SIGNATURE_PUBLIC_KEY_PATH")
    guard (absent_or_readable h (optional_text h "ML_SIGNING_PRIVATE_KEY_PATH"))
        (SettingsError.unreadable_file "ML_SIGNING_PRIVATE_KEY_PATH")
    finish_ml minimum_samples training_limit evaluation_minimum evaluation_limit
        (strip (getenv_or h "ML_MODEL_DIRECTORY" "/models"))
        (parse_machine_ids (configured_machine_ids))

  -- `MlSettings.from_env`
  unfoldable pub ml_from_env : Reads (MlSettings F)
  ml_from_env = do
    minimum_samples ← required_range h "ML_MINIMUM_TRAINING_SAMPLES" "100" 20 100_000
    training_limit ← required_range h "ML_TRAINING_LIMIT" "10000" 20 1_000_000
    guard (not_below training_limit minimum_samples) (
        SettingsError.value_error "ML_TRAINING_LIMIT must not be below ML_MINIMUM_TRAINING_SAMPLES")
    evaluation_minimum ← required_range h "ML_EVALUATION_MINIMUM_SAMPLES" "30" 20 100_000
    evaluation_limit ← required_range h "ML_EVALUATION_LIMIT" "1000" 20 1_000_000
    guard (not_below evaluation_limit evaluation_minimum) (
        SettingsError.value_error
          "ML_EVALUATION_LIMIT must not be below ML_EVALUATION_MINIMUM_SAMPLES")
    check_ml minimum_samples training_limit evaluation_minimum evaluation_limit
