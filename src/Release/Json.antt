-- ===== src/Release/Json.antt =====
-- JSON documents as Python holds them, and `==` on them.
pub mod Equality
use smart_factory_monitor.Common.{
  ℕ, ℤ, suc, Bool, true, false, not, ◌&&◌, ◌==◌, String, Option, none, some, str_eq, same_int,
  if◌then◌else◌,
}

-- A float is kept by its text, with the integer that it equals, if any. The keys of an object are
-- unique, as its parser leaves them.
mutual
  pub data Json : Type 0 where
    null : Json
    flag : Bool → Json
    integer : ℤ → Json
    decimal : String → Option ℤ → Json
    text : String → Json
    array : Items → Json
    object : Members → Json

  pub data Items : Type 0 where
    no_items : Items
    item : Json → Items → Items

  pub data Members : Type 0 where
    no_members : Members
    member_of : String → Json → Members → Members

unfoldable pub get : String → Members → Option Json
get key no_members = none
get key (member_of name value rest) =
    let later = get key rest in if str_eq key name then some value else later

-- `{name: value for name, value in document.items() if name != key}`
unfoldable pub remove : String → Members → Members
remove key no_members = no_members
remove key (member_of name value rest) =
    let later = remove key rest in if str_eq key name then later else member_of name value later

unfoldable pub size_items : Items → ℕ
size_items no_items = 0
size_items (item value rest) = suc (size_items rest)

unfoldable pub size_members : Members → ℕ
size_members no_members = 0
size_members (member_of name value rest) = suc (size_members rest)

-- `isinstance(value, str)`, and so on; `as_number` is the integer that a value equals.
unfoldable pub as_text : Option Json → Option String
as_text (some (Json.text s)) = some s
as_text _ = none

unfoldable pub as_integer : Option Json → Option ℤ
as_integer (some (Json.integer n)) = some n
as_integer _ = none

unfoldable pub as_array : Option Json → Option Items
as_array (some (Json.array xs)) = some xs
as_array _ = none

unfoldable pub as_object : Option Json → Option Members
as_object (some (Json.object ms)) = some ms
as_object _ = none

abbrev of_flag : Bool → ℤ
of_flag true = ℤ.pos 1
of_flag false = ℤ.pos 0

unfoldable pub as_number : Json → Option ℤ
as_number (Json.flag b) = some (of_flag b)
as_number (Json.integer n) = some n
as_number (Json.decimal s value) = value
as_number _ = none

abbrev same_number : ℤ → Option ℤ → Bool
same_number n none = false
same_number n (some m) = same_int n m

is_number : ℤ → Json → Bool
unfolding as_number
is_number n value = same_number n (as_number value)

unfoldable pub is_text : String → Json → Bool
is_text s (Json.text t) = str_eq s t
is_text s _ = false

abbrev is_decimal : String → Json → Bool
is_decimal s (Json.decimal t none) = str_eq s t && not (str_eq s "NaN")
is_decimal s _ = false

abbrev is_null : Json → Bool
is_null Json.null = true
is_null _ = false

-- `==`
unfoldable mutual
  unfolding is_number is_text get size_members

  pub json_eq : Json → Json → Bool
  json_eq Json.null other = is_null other
  json_eq (Json.flag b) other = is_number (of_flag b) other
  json_eq (Json.integer n) other = is_number n other
  json_eq (Json.decimal s (some n)) other = is_number n other
  json_eq (Json.decimal s none) other = is_decimal s other
  json_eq (Json.text s) other = is_text s other
  json_eq (Json.array xs) (Json.array ys) = items_eq xs ys
  json_eq (Json.array xs) _ = false
  json_eq (Json.object ms) (Json.object ns) = size_members ms == size_members ns && members_in ms ns
  json_eq (Json.object ms) _ = false

  pub items_eq : Items → Items → Bool
  items_eq no_items no_items = true
  items_eq no_items (item y ys) = false
  items_eq (item x xs) no_items = false
  items_eq (item x xs) (item y ys) = json_eq x y && items_eq xs ys

  pub members_in : Members → Members → Bool
  members_in no_members ns = true
  members_in (member_of name value rest) ns =
      (elim (get name ns) [ none ↦ false | some other ↦ json_eq value other ]) && members_in rest ns

-- `document.get(key) == value`; `==` is symmetric, and a missing key gives `None`.
unfoldable pub has_value : Option Json → Json → Bool
has_value none value = json_eq value Json.null
has_value (some found) value = json_eq value found
