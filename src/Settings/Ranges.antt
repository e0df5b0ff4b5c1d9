-- ===== src/Settings/Ranges.antt =====
-- What the readers of src/smart_factory/config.py return lies in the range that they are given.
use smart_factory_monitor.Common.{ℕ, ℤ, String, true, ◌≡◌, ◌≤◌, ok, arith}
use smart_factory_monitor.Common.Ensures.{Ensures, Ensures-bind, Ensures-guard, Ensures-ok}
use smart_factory_monitor.Telemetry.Reading.{within}
use smart_factory_monitor.Settings.{
  Host, getenv_or, required_float, required_range, required_float_range, in_range, parsed_as,
}

abbrev pub IsInRange : ℕ → ℕ → ℕ → Type 0
IsInRange minimum maximum n = (minimum ≤ n) × (n ≤ maximum)

in_range_inversion :
    (name : String) (minimum maximum : ℕ) (value : ℤ) (n : ℕ)
    → in_range name minimum maximum value ≡ ok n
    → IsInRange minimum maximum n
unfolding in_range
in_range_inversion name minimum maximum (ℤ.pos k) n e = ground arith
in_range_inversion name minimum maximum (ℤ.negsuc k) n e = absurd (cc e)

module _ {F : Type 0} (h : Host F) where
  pub required_range-IsInRange :
      (name default : String) (minimum maximum : ℕ)
      → Ensures (IsInRange minimum maximum) (required_range h name default minimum maximum)
  unfolding required_range
  required_range-IsInRange name default minimum maximum =
      Ensures-bind (parsed_as (getenv_or h name default) (h.int (getenv_or h name default)))
        (in_range name minimum maximum) (record { holds = λ v e. tt })
        λ v _. record { holds = λ n e. in_range_inversion name minimum maximum v n e }

  abbrev pub IsWithin : F → F → F → Type 0
  IsWithin minimum maximum x = within h.floats minimum maximum x ≡ true

  pub required_float_range-IsWithin :
      (name default : String) (minimum maximum : F)
      → Ensures (IsWithin minimum maximum) (required_float_range h name default minimum maximum)
  unfolding required_float_range
  required_float_range-IsWithin name default minimum maximum =
      Ensures-bind (required_float h name default) _ (record { holds = λ v e. tt })
        λ v _. Ensures-guard _ _ _ λ t. Ensures-ok v t
