-- ===== src/Tests/Settings.antt =====
-- An environment with a webhook and an audit operator; a number is read up to its point.
use Prim.Native.Char.{code}
use native.Mathlib.Nat.{pow-le-pow_right, mul-le-mul_left}
use smart_factory_monitor.Common.{
  ℕ, ℤ, ◌+◌, ◌^◌, ◌*◌, ◌-◌, ◌≤◌, String, ◌≡◌, refl, true, false, Option, none, some, leb, ltb, ◌==◌,
  str_eq, if◌then◌else◌, List, [], ◌∷◌, ok, arith,
}
use smart_factory_monitor.Telemetry.Reading.{Floats, AnomalySeverity, within}
use smart_factory_monitor.Settings.{
  Host, required_range, required_float_range, optional_text, required_boolean, absent_or_readable,
}
use smart_factory_monitor.Settings.Alerts.{
  AlertSettings, is_approved_url, credentials_have_url, check_url, lease_covers, not_below_base,
  severity_from_text, alert_route, alert_limits, alerts_from_env, retry_seconds,
}
use smart_factory_monitor.Settings.Alerts.Bounds.{IsScale, configured_retry}

abbrev number : ℕ → String → ℕ
number n String.[] = n
number n (String.◌∷◌ c s) = if code c == b'.' then n else number (n * 10 + (code c - 48)) s

abbrev floats : Floats ℕ
floats = record {
  gt = λ a b. ltb b a;
  le = leb;
  eq = ◌==◌;
  add = ◌+◌;
  sub = ◌-◌;
  is_finite = λ a. true;
  of_int = λ n. n;
  neg = λ a. 0;
  format_g = λ a. "";
}

abbrev variables : List (String × String)
variables =
    ("ALERT_WEBHOOK_URL", " https://alerts.example/hook ")
    ∷ ("ALERT_MINIMUM_SEVERITY", "Medium")
    ∷ ("ALERT_RETRY_BASE_SECONDS", "7.5")
    ∷ ("AUDIT_CHAIN_ID", "factory/audit")
    ∷ ("AUDIT_CHECKPOINT_PATH", "/audit/checkpoint.json")
    ∷ ("AUDIT_ATTESTATION_PUBLIC_KEY_PATH", "/keys/audit.pem")
    ∷ []

abbrev value_of : List (String × String) → String → Option String
value_of [] name = none
value_of ((key, value) ∷ rest) name = if str_eq key name then some value else value_of rest name

abbrev host : Host ℕ
host = record {
  getenv = value_of variables;
  is_file = λ path. true;
  is_readable = λ path. true;
  is_dir = λ path. true;
  read_text = λ path. none;
  int = λ text. some (ℤ.pos (number 0 text));
  float = λ text. some (number 0 text);
  literal = number 0;
  times = ◌*◌;
  floats = floats;
  urlsplit = λ text. some (record {
    scheme = "https";
    hostname = some "alerts.example";
    username = none;
    password = none;
    fragment = "";
  });
  uuid = λ text. some 7;
  upper = λ text. text;
}

abbrev alert_settings : AlertSettings ℕ
alert_settings = record {
  webhook_url = some "https://alerts.example/hook";
  minimum_severity = AnomalySeverity.medium;
  batch_size = 20;
  poll_interval_seconds = 2;
  request_timeout_seconds = 5;
  lease_seconds = 120;
  retry_base_seconds = 7;
  retry_max_seconds = 300;
  bearer_token = none;
  ca_cert_path = none;
  allow_insecure_http = false;
}

alert_settings_read : alerts_from_env host ≡ ok alert_settings
unfolding alerts_from_env required_boolean alert_route credentials_have_url optional_text check_url
    is_approved_url absent_or_readable severity_from_text alert_limits required_range
    required_float_range within lease_covers not_below_base
alert_settings_read = refl

doubled : IsScale host (λ (x k : ℕ). x * 2 ^ k)
unfolding within
doubled = record {
  once = λ x e. omega arith;
  finite = λ x k e l. refl;
  not_below = λ x k e l. not_less x (2 ^ k) (pow_pos k);
  irreflexive = λ x. ground arith;
}
  where
    not_less : (x y : ℕ) → 1 ≤ y → ltb (x * y) x ≡ false
    not_less x y h = let m : x * 1 ≤ x * y = mul-le-mul_left x h in ground (arith, m)

    pow_pos : (k : ℕ) → 1 ≤ 2 ^ k
    pow_pos k =
        let z : 0 ≤ k = omega arith in
        let p : 2 ^ 0 ≤ 2 ^ k = pow-le-pow_right (omega arith) z in omega (arith, p)

configured_retry_example :
    (retry_seconds host (λ (x k : ℕ). x * 2 ^ k) alert_settings 1 ≡ 7)
    × (host.floats.is_finite (retry_seconds host (λ (x k : ℕ). x * 2 ^ k) alert_settings 3) ≡ true)
    × (host.floats.gt 7 (retry_seconds host (λ (x k : ℕ). x * 2 ^ k) alert_settings 3) ≡ false)
    × (host.floats.gt (retry_seconds host (λ (x k : ℕ). x * 2 ^ k) alert_settings 3) 300 ≡ false)
configured_retry_example =
    configured_retry host (λ (x k : ℕ). x * 2 ^ k) doubled alert_settings 3 alert_settings_read
