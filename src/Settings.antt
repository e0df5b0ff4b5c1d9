-- ===== src/Settings.antt =====
-- src/smart_factory/config.py: the readers of single environment variables. The environment and the
-- file system are parameters, and so are Python's parsers of numbers, addresses and UUIDs.
pub mod Ranges
pub mod Ml
pub mod Alerts
pub mod Audit
pub mod Runtime
pub mod Mqtt
use smart_factory_monitor.Common.{
  ℕ, ℤ, String, Bool, true, false, not, ◌&&◌, ◌||◌, ◌==◌, count, Option, none, some, List, [], ◌∷◌,
  leb, is_empty, Result, ok, err, ◌>>=◌, ◌>>◌, guard, strip, lowers_to, if◌then◌else◌,
}
use smart_factory_monitor.Telemetry.Reading.{Floats, within}

-- What `urlsplit` gives.
pub record SplitUrl : Type 0 where
  pub scheme : String
  pub hostname : Option String
  pub username : Option String
  pub password : Option String
  pub fragment : String

-- The process that reads its settings. `none` is a `ValueError` of a parser, or an `OSError` of a
-- file; `literal` is a float that the source writes out.
pub record Host (F : Type 0) : Type 0 where
  pub getenv : String → Option String
  pub is_file : String → Bool
  pub is_readable : String → Bool
  pub is_dir : String → Bool
  pub read_text : String → Option String
  pub int : String → Option ℤ
  pub float : String → Option F
  pub literal : String → F
  pub times : F → ℕ → F
  pub floats : Floats F
  pub urlsplit : String → Option SplitUrl
  pub uuid : String → Option ℕ
  pub upper : String → String

-- The `ValueError`s, by the variable or by the message.
pub data SettingsError : Type 0 where
  invalid_literal : String → SettingsError
  out_of_range not_an_integer not_a_boolean unreadable_file : String → SettingsError
  value_error : String → SettingsError

abbrev pub Reads : Type 0 → Type 0
Reads A = Result SettingsError A

abbrev pub or_default : String → Option String → String
or_default default none = default
or_default default (some text) = text

abbrev pub is_none {ℓ} : {A : Type ℓ} → Option A → Bool
is_none none = true
is_none (some a) = false

parsed_as : {A : Type 0} → String → Option A → Reads A
parsed_as text none = err (SettingsError.invalid_literal text)
parsed_as text (some a) = ok a

-- The minimum of every range of integers is a natural number.
in_range : String → ℕ → ℕ → ℤ → Reads ℕ
in_range name minimum maximum (ℤ.negsuc n) = err (SettingsError.out_of_range name)
in_range name minimum maximum (ℤ.pos n) = do
  guard (leb minimum n && leb n maximum) (SettingsError.out_of_range name)
  ok n

integer_or_error : String → Option ℤ → Reads (Option ℤ)
integer_or_error name none = err (SettingsError.not_an_integer name)
integer_or_error name (some n) = ok (some n)

abbrev lowers_to_any : String → List String → Bool
lowers_to_any text [] = false
lowers_to_any text (word ∷ words) = lowers_to text word || lowers_to_any text words

abbrev is_blank : String → Bool
is_blank text = count text == 0

module _ {F : Type 0} (h : Host F) where
  -- `os.getenv(name, default)`
  unfoldable pub getenv_or : String → String → String
  getenv_or name default = or_default default (h.getenv name)

  -- `_required_range`
  unfoldable pub required_range : String → String → ℕ → ℕ → Reads ℕ
  unfolding parsed_as in_range getenv_or
  required_range name default minimum maximum = do
    value ← parsed_as (getenv_or name default) (h.int (getenv_or name default))
    in_range name minimum maximum value

  -- `float(os.getenv(name, default))`
  unfoldable pub required_float : String → String → Reads F
  unfolding parsed_as getenv_or
  required_float name default =
      parsed_as (getenv_or name default) (h.float (getenv_or name default))

  -- `_required_float_range`
  unfoldable pub required_float_range : String → String → F → F → Reads F
  unfolding required_float
  required_float_range name default minimum maximum = do
    value ← required_float name default
    guard (within h.floats minimum maximum value) (SettingsError.out_of_range name)
    ok value

  -- `_optional_integer`
  unfoldable pub optional_integer : String → Reads (Option ℤ)
  unfolding integer_or_error getenv_or strip
  optional_integer name =
      let text = strip (getenv_or name "") in
      if is_blank text then ok none else integer_or_error name (h.int text)

  -- `_required_boolean`
  unfoldable pub required_boolean : String → String → Reads Bool
  unfolding getenv_or strip lowers_to
  required_boolean name default =
      let text = strip (getenv_or name default) in
      if lowers_to_any text ("1" ∷ "true" ∷ "yes" ∷ "on" ∷ [])
      then ok true
      else if lowers_to_any text ("0" ∷ "false" ∷ "no" ∷ "off" ∷ [])
      then ok false
      else err (SettingsError.not_a_boolean name)

  -- `_optional_text`
  unfoldable pub optional_text : String → Option String
  unfolding getenv_or strip
  optional_text name =
      let value = strip (getenv_or name "") in if is_blank value then none else some value

  -- `os.getenv(name, "").strip()`
  unfoldable pub stripped_text : String → String
  unfolding getenv_or strip
  stripped_text name = strip (getenv_or name "")

  -- `Path(path).is_file()` and `os.access(path, os.R_OK)`
  unfoldable pub is_readable_file : String → Bool
  is_readable_file path = h.is_file path && h.is_readable path

  -- An optional path is left out, or names a readable file.
  unfoldable pub absent_or_readable : Option String → Bool
  unfolding is_readable_file
  absent_or_readable none = true
  absent_or_readable (some path) = is_readable_file path
