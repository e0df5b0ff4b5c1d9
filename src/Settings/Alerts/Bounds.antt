-- ===== src/Settings/Alerts/Bounds.antt =====
-- What `AlertSettings.from_env` of src/smart_factory/config.py guarantees.
use smart_factory_monitor.Common.{
  ℕ, ◌-◌, Bool-cases, ◌≤◌, ◌≡◌, ◌≢◌, ◌⊎◌, inl, inr, refl, Bool, true, false, String, Option, none,
  some, guard_inversion, ok, count, eq_iff, arith,
}
use smart_factory_monitor.Common.Ensures.{
  Ensures, Ensures-bind, Ensures-guard, Ensures-ok, Ensures-err,
}
use smart_factory_monitor.Telemetry.Reading.{AnomalySeverity, within}
use smart_factory_monitor.Alerts.{min}
use smart_factory_monitor.Settings.{
  Host, SplitUrl, optional_text, required_boolean, absent_or_readable,
}
use smart_factory_monitor.Settings.Ranges.{
  IsInRange, IsWithin, required_range-IsInRange, required_float_range-IsWithin,
}
use smart_factory_monitor.Settings.Alerts.{
  AlertSettings, is_approved_url, check_parsed, check_url, credentials_have_url, lease_covers,
  not_below_base, alert_route, alert_limits, alerts_from_env, retry_seconds,
}

-- An absolute address over an allowed scheme, with neither credentials nor a fragment.
pub record IsApproved (allow : Bool) (url : SplitUrl) : Type 0 where
  pub scheme : (url.scheme ≡ "https") ⊎ ((allow ≡ true) × (url.scheme ≡ "http"))
  pub hostname : url.hostname ≢ none
  pub username : url.username ≡ none
  pub password : url.password ≡ none
  pub fragment : count url.fragment ≡ 0

IsApproved-of_test :
    (allow : Bool) (url : SplitUrl) → is_approved_url allow url ≡ true → IsApproved allow url
unfolding is_approved_url
IsApproved-of_test allow url e = ground (arith, eq_iff url.scheme "https", eq_iff url.scheme "http")

check_parsed-IsApproved :
    (allow : Bool) (o : Option SplitUrl)
    → Ensures (λ _. (url : SplitUrl) × (o ≡ some url) × IsApproved allow url) (check_parsed allow o)
unfolding check_parsed
check_parsed-IsApproved allow none = Ensures-err _
check_parsed-IsApproved allow (some url) = record {
  holds = λ t e.
      (url, refl, IsApproved-of_test allow url (guard_inversion (is_approved_url allow url) _ e));
}

no_credentials :
    (url token path : Option String)
    → credentials_have_url url token path ≡ true
    → url ≡ none
    → (token ≡ none) × (path ≡ none)
unfolding credentials_have_url
no_credentials url token path e u = ground arith

module _ {F : Type 0} (h : Host F) where
  -- There is no address, or one that splits into an approved one.
  abbrev pub HasApprovedUrl : Bool → Option String → Type 0
  HasApprovedUrl allow o =
      (o ≡ none)
      ⊎ ((text : String) × (url : SplitUrl) × (o ≡ some text)
          × (h.urlsplit text ≡ some url)
          × IsApproved allow url)

  check_url-HasApprovedUrl :
      (allow : Bool) (o : Option String)
      → Ensures (λ _. HasApprovedUrl allow o) (check_url h allow o)
  unfolding check_url
  check_url-HasApprovedUrl allow none = Ensures-ok tt (inl refl)
  check_url-HasApprovedUrl allow (some text) = record {
    holds = λ t e.
        let (url, p, q) = (check_parsed-IsApproved allow (h.urlsplit text)).holds t e in
        inr (text, url, refl, p, q);
  }

  -- The address is approved, credentials come with an address only, a lease outlasts the requests
  -- of a batch, and the delays are ordered.
  pub record AreDeliverable (s : AlertSettings F) : Type 0 where
    pub approved : HasApprovedUrl s.allow_insecure_http s.webhook_url
    pub token_with_url : (s.webhook_url ≢ none) ⊎ (s.bearer_token ≡ none)
    pub path_with_url : (s.webhook_url ≢ none) ⊎ (s.ca_cert_path ≡ none)
    pub ca_readable : absent_or_readable h s.ca_cert_path ≡ true
    pub batch : IsInRange 1 1_000 s.batch_size
    pub lease : IsInRange 1 86_400 s.lease_seconds
    pub lease_outlasts :
        h.floats.gt
          (h.floats.of_int s.lease_seconds)
          (h.times s.request_timeout_seconds s.batch_size)
        ≡ true
    pub timeout : IsWithin h (h.literal "0.1") (h.literal "60.0") s.request_timeout_seconds
    pub base : IsWithin h (h.literal "0.1") (h.literal "3600.0") s.retry_base_seconds
    pub max : IsWithin h (h.literal "0.1") (h.literal "86400.0") s.retry_max_seconds
    pub ordered : h.floats.gt s.retry_base_seconds s.retry_max_seconds ≡ false
    pub poll : IsWithin h (h.literal "0.1") (h.literal "300.0") s.poll_interval_seconds

  record IsRouted (allow : Bool) : Type 0 where
    approved : HasApprovedUrl allow (optional_text h "ALERT_WEBHOOK_URL")
    credentials :
        credentials_have_url
          (optional_text h "ALERT_WEBHOOK_URL")
          (optional_text h "ALERT_WEBHOOK_BEARER_TOKEN")
          (optional_text h "ALERT_WEBHOOK_CA_CERT_PATH")
        ≡ true
    ca_readable : absent_or_readable h (optional_text h "ALERT_WEBHOOK_CA_CERT_PATH") ≡ true

  alert_route-IsRouted : (allow : Bool) → Ensures (λ _. IsRouted allow) (alert_route h allow)
  unfolding alert_route
  alert_route-IsRouted allow = Ensures-guard _ _ _ λ c.
      Ensures-bind _ _ (check_url-HasApprovedUrl allow (optional_text h "ALERT_WEBHOOK_URL")) λ t a.
        Ensures-guard _ _ _
          λ r. record { holds = λ s e. record { approved = a; credentials = c; ca_readable = r } }

  lease_covers_lem :
      (lease : ℕ) (timeout : F) (batch : ℕ)
      → lease_covers h lease timeout batch ≡ true
      → h.floats.gt (h.floats.of_int lease) (h.times timeout batch) ≡ true
  unfolding lease_covers
  lease_covers_lem lease timeout batch e = e

  not_below_base_lem :
      (retry_max retry_base : F)
      → not_below_base h retry_max retry_base ≡ true
      → h.floats.gt retry_base retry_max ≡ false
  unfolding not_below_base
  not_below_base_lem retry_max retry_base e = ground arith

  with_url :
      (url token path : Option String)
      → credentials_have_url url token path ≡ true
      → ((url ≢ none) ⊎ (token ≡ none)) × ((url ≢ none) ⊎ (path ≡ none))
  with_url (some u) token path e = (inl (λ q. cc), inl (λ q. cc))
  with_url none token path e = let (t, p) = no_credentials none token path e refl in (inr t, inr p)

  alert_limits-AreDeliverable :
      (allow : Bool) (severity : AnomalySeverity)
      → IsRouted allow
      → Ensures AreDeliverable (alert_limits h allow severity)
  unfolding alert_limits
  alert_limits-AreDeliverable allow severity routed =
      Ensures-bind _ _ (required_range-IsInRange h _ _ _ _) λ batch hb.
        Ensures-bind _ _ (required_float_range-IsWithin h _ _ _ _) λ timeout ht.
          Ensures-bind _ _ (required_range-IsInRange h _ _ _ _) λ lease hl.
            Ensures-guard (lease_covers h lease timeout batch) _ _ λ covers.
              Ensures-bind _ _ (required_float_range-IsWithin h _ _ _ _) λ base hbase.
                Ensures-bind _ _ (required_float_range-IsWithin h _ _ _ _) λ max hmax.
                  Ensures-guard (not_below_base h max base) _ _ λ ordered.
                    Ensures-bind _ _ (required_float_range-IsWithin h _ _ _ _) λ poll hp.
                      Ensures-ok _ record {
                        approved = routed.approved;
                        token_with_url = (with_url _ _ _ routed.credentials).0;
                        path_with_url = (with_url _ _ _ routed.credentials).1;
                        ca_readable = routed.ca_readable;
                        batch = hb;
                        lease = hl;
                        lease_outlasts = lease_covers_lem lease timeout batch covers;
                        timeout = ht;
                        base = hbase;
                        max = hmax;
                        ordered = not_below_base_lem max base ordered;
                        poll = hp;
                      }

  pub alerts_from_env-AreDeliverable : Ensures AreDeliverable (alerts_from_env h)
  unfolding alerts_from_env
  alerts_from_env-AreDeliverable =
      Ensures-bind (required_boolean h _ _) _ (record { holds = λ t e. tt })
        λ allow _.
          Ensures-bind _ _ (alert_route-IsRouted allow)
            λ severity r. alert_limits-AreDeliverable allow severity r

  finite_of_within : (low high x : F) → IsWithin h low high x → h.floats.is_finite x ≡ true
  unfolding within
  finite_of_within low high x e = ground arith

  -- What floats do to the product `x * 2 ** k` of a base delay that the settings admit.
  pub record IsScale (scale : F → ℕ → F) : Type 0 where
    pub once : (x : F) → h.floats.is_finite x ≡ true → scale x 0 ≡ x
    pub finite :
        (x : F) (k : ℕ)
        → IsWithin h (h.literal "0.1") (h.literal "3600.0") x
        → k ≤ 30
        → h.floats.is_finite (scale x k) ≡ true
    pub not_below :
        (x : F) (k : ℕ)
        → IsWithin h (h.literal "0.1") (h.literal "3600.0") x
        → k ≤ 30
        → h.floats.gt x (scale x k) ≡ false
    pub irreflexive : (x : F) → h.floats.gt x x ≡ false

  min-30 : (n : ℕ) → min n 30 ≤ 30
  min-30 n = ground arith

  -- With settings that were read from the environment, the delay before every retry is a finite
  -- float, not below the configured base and not above the configured maximum, and before the first
  -- retry it is the base. Assumed of floats: multiplying by one changes nothing, multiplying a base
  -- that the settings admit by a power of two up to the thirtieth stays finite and is not below it,
  -- and no float is above itself.
  pub configured_retry :
      (scale : F → ℕ → F)
      → IsScale scale
      → (s : AlertSettings F) (n : ℕ) → alerts_from_env h ≡ ok s
      → (retry_seconds h scale s 1 ≡ s.retry_base_seconds)
        × (h.floats.is_finite (retry_seconds h scale s n) ≡ true)
        × (h.floats.gt s.retry_base_seconds (retry_seconds h scale s n) ≡ false)
        × (h.floats.gt (retry_seconds h scale s n) s.retry_max_seconds ≡ false)
  unfolding retry_seconds
  configured_retry scale law s n e =
      let d = alerts_from_env-AreDeliverable.holds s e in
      let base = s.retry_base_seconds in
      let k = min (n - 1) 30 in
      let first : scale base 0 ≡ base = law.once base (finite_of_within _ _ base d.base) in
      let finite : h.floats.is_finite (scale base k) ≡ true =
        law.finite base k d.base (min-30 (n - 1)) in
      let lower : h.floats.gt base (scale base k) ≡ false =
        law.not_below base k d.base (min-30 (n - 1)) in
      let started : retry_seconds h scale s 1 ≡ base = rw first (rw d.ordered refl) in
      elim (Bool-cases (h.floats.gt (scale base k) s.retry_max_seconds)) [
        | inl t ↦ (
          started,
          rw t (finite_of_within _ _ s.retry_max_seconds d.max),
          rw t d.ordered,
          rw t (law.irreflexive s.retry_max_seconds),
        )
        | inr t ↦ (started, rw t finite, rw t lower, rw t t)
      ]
