-- ===== src/Alerts/Retry.antt =====
-- The delays of `retry_delay`.
use smart_factory_monitor.Common.{ℕ, ◌-◌, ◌*◌, ◌^◌, ◌≤◌, ◌≡◌, arith}
use native.Mathlib.Nat.{pow-le-pow_right, mul-le-mul_left}
use smart_factory_monitor.Alerts.{DispatchConfig, min, retry_delay}

min_mono : (a b c d : ℕ) → a ≤ c → b ≤ d → min a b ≤ min c d
min_mono a b c d h k = ground arith

power_mono : (b k l : ℕ) → k ≤ l → b * 2 ^ k ≤ b * 2 ^ l
power_mono b k l h = mul-le-mul_left b (pow-le-pow_right (omega arith) h)

-- The delay is at most the configured maximum, a later attempt waits no shorter than an earlier
-- one, and the first attempt waits the base, or the maximum where that is smaller.
pub retry_delay-bounds :
    (config : DispatchConfig) (m n : ℕ)
    → m ≤ n
    → (retry_delay config m ≤ retry_delay config n)
      × (retry_delay config n ≤ config.retry_max)
      × (retry_delay config 1 ≡ min config.retry_base config.retry_max)
unfolding retry_delay
retry_delay-bounds config m n h = (
  min_mono _ config.retry_max _ config.retry_max
      (power_mono config.retry_base (min (m - 1) 30) (min (n - 1) 30)
        (min_mono (m - 1) 30 (n - 1) 30 (omega (arith, h)) (omega arith)))
      (omega arith),
  ground arith,
  ground arith,
)
