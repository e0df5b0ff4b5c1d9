-- ===== src/Settings/Runtime/Limits.antt =====
-- What `Settings.from_env` of src/smart_factory/config.py guarantees.
use smart_factory_monitor.Common.{ℕ, ◌≤◌, ◌≡◌, true, strip, arith}
use smart_factory_monitor.Common.Ensures.{Ensures, Ensures-bind, Ensures-guard, Ensures-ok}
use smart_factory_monitor.Settings.{Host, getenv_or, optional_integer, required_float}
use smart_factory_monitor.Settings.Ranges.{
  IsInRange, IsWithin, required_range-IsInRange, required_float_range-IsWithin,
}
use smart_factory_monitor.Settings.Mqtt.{IsSecure, mqtt_security_from_env-IsSecure}
use smart_factory_monitor.Settings.Runtime.{
  Settings, Checked, is_filter, at_most, not_nonpositive, read_checked, finish_settings,
  settings_from_env,
}

le_of_at_most : (a b : ℕ) → at_most a b ≡ true → a ≤ b
unfolding at_most
le_of_at_most a b e = ground arith

module _ {F : Type 0} (h : Host F) where
  record IsChecked (c : Checked F) : Type 0 where
    interval : not_nonpositive h c.interval ≡ true
    topic_filter : is_filter c.topic_filter ≡ true
    pool : (1 ≤ c.pool_min_size) × (c.pool_min_size ≤ c.pool_max_size) × (c.pool_max_size ≤ 100)
    timeout : not_nonpositive h c.database_timeout ≡ true
    temperature : IsWithin h (h.literal "-50.0") (h.literal "250.0") c.maximum_temperature
    vibration : IsWithin h (h.literal "0.0") (h.literal "100.0") c.maximum_vibration
    power : IsWithin h (h.literal "0.0") (h.literal "500.0") c.maximum_power
    production : c.minimum_production ≤ 10_000

  read_checked-IsChecked : Ensures IsChecked (read_checked h)
  unfolding read_checked
  read_checked-IsChecked =
      Ensures-bind (required_float h _ _) _ (record { holds = λ t e. tt })
        λ interval _. Ensures-guard (not_nonpositive h interval) _ _ λ hi.
          Ensures-guard
            (is_filter (strip (getenv_or h "MQTT_TOPIC_FILTER" "factory/+/+/telemetry"))) _ _
            λ hf. Ensures-bind _ _ (required_range-IsInRange h _ _ _ _) λ low hl.
              Ensures-bind _ _ (required_range-IsInRange h _ _ _ _) λ high hh.
                Ensures-guard (at_most low high) _ _ λ le.
                  Ensures-bind (required_float h _ _) _ (record { holds = λ t e. tt })
                    λ timeout _. Ensures-guard (not_nonpositive h timeout) _ _ λ ht.
                      Ensures-bind _ _ (required_float_range-IsWithin h _ _ _ _) λ t htemp.
                        Ensures-bind _ _ (required_float_range-IsWithin h _ _ _ _) λ v hv.
                          Ensures-bind _ _ (required_float_range-IsWithin h _ _ _ _) λ p hp.
                            Ensures-bind _ _ (required_range-IsInRange h _ _ _ _) λ n hn.
                              Ensures-ok _ record {
                                interval = hi;
                                topic_filter = hf;
                                pool = (hl.0, le_of_at_most low high le, hh.1);
                                timeout = ht;
                                temperature = htemp;
                                vibration = hv;
                                power = hp;
                                production = hn.1;
                              }

  pub record AreWithinLimits (s : Settings F) : Type 0 where
    pub checked :
        (not_nonpositive h s.publish_interval_seconds ≡ true)
        × (is_filter s.mqtt_topic_filter ≡ true)
        × (not_nonpositive h s.database_connect_timeout_seconds ≡ true)
    pub pool :
        (1 ≤ s.database_pool_min_size)
        × (s.database_pool_min_size ≤ s.database_pool_max_size)
        × (s.database_pool_max_size ≤ 100)
    pub thresholds :
        IsWithin h (h.literal "-50.0") (h.literal "250.0") s.maximum_temperature_c
        × IsWithin h (h.literal "0.0") (h.literal "100.0") s.maximum_vibration_mm_s
        × IsWithin h (h.literal "0.0") (h.literal "500.0") s.maximum_power_kw
        × (s.minimum_production_rate ≤ 10_000)
    pub port : IsInRange 1 65_535 s.mqtt_port
    pub keepalive : IsInRange 1 65_535 s.mqtt_keepalive
    pub qos : s.mqtt_qos ≤ 2
    pub expiry : IsInRange 1 2_147_483_647 s.mqtt_session_expiry_seconds
    pub receive_maximum : IsInRange 1 65_535 s.mqtt_receive_maximum
    pub monitoring : IsInRange 1 65_535 s.monitoring_port
    pub security : IsSecure h s.mqtt_security

  finish_settings-AreWithinLimits :
      (c : Checked F) → IsChecked c → Ensures AreWithinLimits (finish_settings h c)
  unfolding finish_settings
  finish_settings-AreWithinLimits c hc =
      Ensures-bind _ _ (required_range-IsInRange h _ _ _ _) λ port hp.
        Ensures-bind _ _ (required_range-IsInRange h _ _ _ _) λ keepalive hk.
          Ensures-bind _ _ (required_range-IsInRange h _ _ _ _) λ qos hq.
            Ensures-bind (optional_integer h _) _ (record { holds = λ t e. tt })
              λ seed _. Ensures-bind _ _ (required_range-IsInRange h _ _ _ _) λ expiry he.
                Ensures-bind _ _ (required_range-IsInRange h _ _ _ _) λ receive hr.
                  Ensures-bind _ _ (required_range-IsInRange h _ _ _ _) λ monitoring hm.
                    Ensures-bind _ _ (mqtt_security_from_env-IsSecure h) λ security hs.
                      Ensures-ok _ record {
                        checked = (hc.interval, hc.topic_filter, hc.timeout);
                        pool = hc.pool;
                        thresholds = (hc.temperature, hc.vibration, hc.power, hc.production);
                        port = hp;
                        keepalive = hk;
                        qos = hq.1;
                        expiry = he;
                        receive_maximum = hr;
                        monitoring = hm;
                        security = hs;
                      }

  pub settings_from_env-AreWithinLimits : Ensures AreWithinLimits (settings_from_env h)
  unfolding settings_from_env
  settings_from_env-AreWithinLimits =
      Ensures-bind _ _ read_checked-IsChecked λ c hc. finish_settings-AreWithinLimits c hc
