-- ===== src/Settings/Alerts.antt =====
-- `AlertSettings` of src/smart_factory/config.py, and the dispatcher that `run` of
-- src/smart_factory/alert_dispatcher_main.py builds from it.
pub mod Bounds
use smart_factory_monitor.Common.{
  ℕ, ◌-◌, Bool, true, false, not, ◌&&◌, ◌||◌, String, count, ◌==◌, Option, none, some, List, [],
  ◌∷◌, str_eq, strip, lowers_to, Result, ok, err, ◌>>=◌, ◌>>◌, guard, if◌then◌else◌,
}
use smart_factory_monitor.Telemetry.Reading.{AnomalySeverity}
use smart_factory_monitor.Alerts.{min}
use smart_factory_monitor.Settings.{
  Host, SplitUrl, Reads, SettingsError, is_none, getenv_or, optional_text, required_boolean,
  required_range, required_float_range, absent_or_readable,
}

pub record AlertSettings (F : Type 0) : Type 0 where
  pub webhook_url : Option String
  pub minimum_severity : AnomalySeverity
  pub batch_size : ℕ
  pub poll_interval_seconds : F
  pub request_timeout_seconds : F
  pub lease_seconds : ℕ
  pub retry_base_seconds : F
  pub retry_max_seconds : F
  pub bearer_token : Option String
  pub ca_cert_path : Option String
  pub allow_insecure_http : Bool

-- `AlertSettings.routed_severities`
unfoldable pub routed_severities : AnomalySeverity → List AnomalySeverity
routed_severities AnomalySeverity.high = AnomalySeverity.high ∷ []
routed_severities AnomalySeverity.medium = AnomalySeverity.medium ∷ AnomalySeverity.high ∷ []

-- `AnomalySeverity(text.strip().lower())`
unfoldable pub severity_from_text : String → Reads AnomalySeverity
unfolding lowers_to
severity_from_text text =
    if lowers_to text "medium"
    then ok AnomalySeverity.medium
    else if lowers_to text "high"
    then ok AnomalySeverity.high
    else err (SettingsError.value_error "ALERT_MINIMUM_SEVERITY must be medium or high")

-- The negation of the test that refuses an address.
unfoldable pub is_approved_url : Bool → SplitUrl → Bool
is_approved_url allow_insecure_http parsed =
    (str_eq parsed.scheme "https" || (allow_insecure_http && str_eq parsed.scheme "http"))
    && not (is_none parsed.hostname)
    && is_none parsed.username
    && is_none parsed.password
    && count parsed.fragment == 0

check_parsed : Bool → Option SplitUrl → Reads (Unit {0})
check_parsed allow none = err (SettingsError.invalid_literal "ALERT_WEBHOOK_URL")
check_parsed allow (some parsed) =
    guard (is_approved_url allow parsed)
      (SettingsError.value_error "ALERT_WEBHOOK_URL must be an absolute approved webhook URL")

unfoldable pub credentials_have_url : Option String → Option String → Option String → Bool
credentials_have_url webhook_url bearer_token ca_cert_path =
    not (is_none webhook_url) || (is_none bearer_token && is_none ca_cert_path)

module _ {F : Type 0} (h : Host F) where
  unfoldable pub check_url : Bool → Option String → Reads (Unit {0})
  unfolding check_parsed
  check_url allow none = ok tt
  check_url allow (some url) = check_parsed allow (h.urlsplit url)

  -- `lease_seconds <= request_timeout * batch_size` is refused.
  unfoldable pub lease_covers : ℕ → F → ℕ → Bool
  lease_covers lease_seconds request_timeout batch_size =
      h.floats.gt (h.floats.of_int lease_seconds) (h.times request_timeout batch_size)

  -- `retry_max < retry_base` is refused.
  unfoldable pub not_below_base : F → F → Bool
  not_below_base retry_max retry_base = not (h.floats.gt retry_base retry_max)

  -- The address, the credentials and the severity.
  unfoldable pub alert_route : Bool → Reads AnomalySeverity
  alert_route allow_insecure_http = do
    guard
        (credentials_have_url (optional_text h "ALERT_WEBHOOK_URL")
          (optional_text h "ALERT_WEBHOOK_BEARER_TOKEN")
          (optional_text h "ALERT_WEBHOOK_CA_CERT_PATH"))
        (SettingsError.value_error "alert webhook credentials require ALERT_WEBHOOK_URL")
    check_url allow_insecure_http (optional_text h "ALERT_WEBHOOK_URL")
    guard (absent_or_readable h (optional_text h "ALERT_WEBHOOK_CA_CERT_PATH"))
        (SettingsError.unreadable_file "ALERT_WEBHOOK_CA_CERT_PATH")
    severity_from_text (strip (getenv_or h "ALERT_MINIMUM_SEVERITY" "high"))

  -- The batch, the lease and the delays.
  unfoldable pub alert_limits : Bool → AnomalySeverity → Reads (AlertSettings F)
  alert_limits allow_insecure_http minimum_severity = do
    batch_size ← required_range h "ALERT_BATCH_SIZE" "20" 1 1_000
    request_timeout ←
        required_float_range h "ALERT_REQUEST_TIMEOUT_SECONDS" "5.0" (h.literal "0.1")
          (h.literal "60.0")
    lease_seconds ← required_range h "ALERT_LEASE_SECONDS" "120" 1 86_400
    guard (lease_covers lease_seconds request_timeout batch_size) (
        SettingsError.value_error
          "ALERT_LEASE_SECONDS must exceed ALERT_BATCH_SIZE times ALERT_REQUEST_TIMEOUT_SECONDS")
    retry_base ←
        required_float_range h "ALERT_RETRY_BASE_SECONDS" "5.0" (h.literal "0.1")
          (h.literal "3600.0")
    retry_max ←
        required_float_range h "ALERT_RETRY_MAX_SECONDS" "300.0" (h.literal "0.1")
          (h.literal "86400.0")
    guard (not_below_base retry_max retry_base) (
        SettingsError.value_error
          "ALERT_RETRY_MAX_SECONDS must not be below ALERT_RETRY_BASE_SECONDS")
    poll_interval ←
        required_float_range h "ALERT_POLL_INTERVAL_SECONDS" "2.0" (h.literal "0.1")
          (h.literal "300.0")
    ok record {
      webhook_url = optional_text h "ALERT_WEBHOOK_URL";
      minimum_severity = minimum_severity;
      batch_size = batch_size;
      poll_interval_seconds = poll_interval;
      request_timeout_seconds = request_timeout;
      lease_seconds = lease_seconds;
      retry_base_seconds = retry_base;
      retry_max_seconds = retry_max;
      bearer_token = optional_text h "ALERT_WEBHOOK_BEARER_TOKEN";
      ca_cert_path = optional_text h "ALERT_WEBHOOK_CA_CERT_PATH";
      allow_insecure_http = allow_insecure_http;
    }

  -- `AlertSettings.from_env`
  unfoldable pub alerts_from_env : Reads (AlertSettings F)
  alerts_from_env = do
    allow_insecure_http ← required_boolean h "ALERT_WEBHOOK_ALLOW_INSECURE_HTTP" "false"
    minimum_severity ← alert_route allow_insecure_http
    alert_limits allow_insecure_http minimum_severity

-- `min(self._retry_base_seconds * 2 ** min(attempt_number - 1, 30), self._retry_max_seconds)` of
-- application/services/alert_dispatch.py with the settings' seconds, where `scale x k` is the float
-- `x * 2 ** k`; attempts are counted from one.
unfoldable pub retry_seconds : {F : Type 0} → Host F → (F → ℕ → F) → AlertSettings F → ℕ → F
retry_seconds h scale s attempt_number =
    let delay = scale s.retry_base_seconds (min (attempt_number - 1) 30) in
    if h.floats.gt delay s.retry_max_seconds then s.retry_max_seconds else delay
