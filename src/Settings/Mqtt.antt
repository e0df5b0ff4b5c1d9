-- ===== src/Settings/Mqtt.antt =====
-- `MqttSecuritySettings` of src/smart_factory/config.py
use smart_factory_monitor.Common.{
  Bool, true, false, not, ◌&&◌, ◌||◌, ◌≡◌, String, Option, none, some, ok, ◌>>=◌, ◌>>◌, guard, refl,
  Option-cases, ◌⊎◌, ◌≢◌, ◌↔◌, inl, inr, arith,
}
use smart_factory_monitor.Common.Ensures.{Ensures, Ensures-bind, Ensures-guard, Ensures-ok}
use smart_factory_monitor.Settings.{
  Host, Reads, SettingsError, is_none, optional_text, required_boolean, absent_or_readable,
}

pub record MqttSecuritySettings : Type 0 where
  pub username : Option String
  pub password : Option String
  pub tls_enabled : Bool
  pub ca_cert_path : Option String
  pub client_cert_path : Option String
  pub client_key_path : Option String

abbrev pub same_bool : Bool → Bool → Bool
same_bool true b = b
same_bool false b = not b

-- `password is not None and username is None` is the rejected case, and so on.
unfoldable pub password_has_username : MqttSecuritySettings → Bool
password_has_username s = is_none s.password || not (is_none s.username)

unfoldable pub client_pair_complete : MqttSecuritySettings → Bool
client_pair_complete s = same_bool (is_none s.client_cert_path) (is_none s.client_key_path)

unfoldable pub paths_have_tls : MqttSecuritySettings → Bool
paths_have_tls s =
    s.tls_enabled
    || (is_none s.ca_cert_path && is_none s.client_cert_path && is_none s.client_key_path)

absent_of : {A : Type 0} (o : Option A) → (is_none o || false) ≡ true → o ≡ none
absent_of none e = refl
absent_of (some a) e = absurd (cc e)

pair_of :
    {A : Type 0} (c k : Option A)
    → same_bool (is_none c) (is_none k) ≡ true
    → (c ≡ none) ↔ (k ≡ none)
pair_of none none e = (λ q. refl, λ q. refl)
pair_of none (some k) e = absurd (cc e)
pair_of (some c) none e = absurd (cc e)
pair_of (some c) (some k) e = (λ q. absurd (cc q), λ q. absurd (cc q))

module _ {F : Type 0} (h : Host F) where
  -- The tests of `from_env` on the values that it has read.
  unfoldable pub check_security : MqttSecuritySettings → Reads MqttSecuritySettings
  check_security s = do
    guard (password_has_username s)
        (SettingsError.value_error "MQTT_PASSWORD requires MQTT_USERNAME")
    guard (client_pair_complete s) (
        SettingsError.value_error "MQTT TLS client certificate and key must be configured together")
    guard (paths_have_tls s)
        (SettingsError.value_error "MQTT TLS certificate paths require MQTT_TLS_ENABLED=true")
    guard (absent_or_readable h s.ca_cert_path)
        (SettingsError.unreadable_file "MQTT_TLS_CA_CERT_PATH")
    guard (absent_or_readable h s.client_cert_path)
        (SettingsError.unreadable_file "MQTT_TLS_CLIENT_CERT_PATH")
    guard (absent_or_readable h s.client_key_path)
        (SettingsError.unreadable_file "MQTT_TLS_CLIENT_KEY_PATH")
    ok s

  -- `MqttSecuritySettings.from_env`
  unfoldable pub mqtt_security_from_env : Reads MqttSecuritySettings
  mqtt_security_from_env = do
    tls_enabled ← required_boolean h "MQTT_TLS_ENABLED" "false"
    check_security record {
      username = optional_text h "MQTT_USERNAME";
      password = optional_text h "MQTT_PASSWORD";
      tls_enabled = tls_enabled;
      ca_cert_path = optional_text h "MQTT_TLS_CA_CERT_PATH";
      client_cert_path = optional_text h "MQTT_TLS_CLIENT_CERT_PATH";
      client_key_path = optional_text h "MQTT_TLS_CLIENT_KEY_PATH";
    }

  -- A password comes with a user, a client certificate with its key, paths with TLS, and every path
  -- names a readable file.
  pub record IsSecure (s : MqttSecuritySettings) : Type 0 where
    pub has_username : (s.password ≡ none) ⊎ (s.username ≢ none)
    pub client_pair : (s.client_cert_path ≡ none) ↔ (s.client_key_path ≡ none)
    pub has_tls :
        (s.tls_enabled ≡ true)
        ⊎ ((s.ca_cert_path ≡ none) × (s.client_cert_path ≡ none) × (s.client_key_path ≡ none))
    pub ca_readable : absent_or_readable h s.ca_cert_path ≡ true
    pub client_cert_readable : absent_or_readable h s.client_cert_path ≡ true
    pub client_key_readable : absent_or_readable h s.client_key_path ≡ true

  has_username_of :
      (s : MqttSecuritySettings)
      → password_has_username s ≡ true
      → (s.password ≡ none) ⊎ (s.username ≢ none)
  unfolding password_has_username
  has_username_of s e = elim (Option-cases s.username) [
    | inl u ↦ inl (absent_of s.password (rw u at e))
    | inr (u, p) ↦ inr (λ q. cc)
  ]

  client_pair_of :
      (s : MqttSecuritySettings)
      → client_pair_complete s ≡ true
      → (s.client_cert_path ≡ none) ↔ (s.client_key_path ≡ none)
  unfolding client_pair_complete
  client_pair_of s e = pair_of s.client_cert_path s.client_key_path e

  has_tls_of :
      (s : MqttSecuritySettings)
      → paths_have_tls s ≡ true
      → (s.tls_enabled ≡ true)
        ⊎ ((s.ca_cert_path ≡ none) × (s.client_cert_path ≡ none) × (s.client_key_path ≡ none))
  unfolding paths_have_tls
  has_tls_of s e = ground arith

  check_security-IsSecure : (s : MqttSecuritySettings) → Ensures IsSecure (check_security s)
  unfolding check_security
  check_security-IsSecure s = Ensures-guard _ _ _ λ a. Ensures-guard _ _ _ λ b.
      Ensures-guard _ _ _ λ c. Ensures-guard _ _ _ λ d. Ensures-guard _ _ _ λ e.
        Ensures-guard _ _ _ λ f. Ensures-ok s record {
          has_username = has_username_of s a;
          client_pair = client_pair_of s b;
          has_tls = has_tls_of s c;
          ca_readable = d;
          client_cert_readable = e;
          client_key_readable = f;
        }

  pub mqtt_security_from_env-IsSecure : Ensures IsSecure mqtt_security_from_env
  unfolding mqtt_security_from_env
  mqtt_security_from_env-IsSecure =
      Ensures-bind (required_boolean h "MQTT_TLS_ENABLED" "false") _ (record { holds = λ t e. tt })
        λ t _. check_security-IsSecure _
