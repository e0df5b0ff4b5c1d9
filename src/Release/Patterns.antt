-- ===== src/Release/Patterns.antt =====
-- The patterns of src/smart_factory/release_verification.py, matched as a whole.
use Prim.Native.Char.{code}
use smart_factory_monitor.Common.{
  ℕ, Bool, true, false, not, ◌&&◌, ◌||◌, ◌==◌, leb, String, count, Option, none, some, List, [],
  ◌∷◌, all, str_eq, split_on, all_codes, is_digit, is_lower, if◌then◌else◌,
}
use smart_factory_monitor.Domain.{is_hex_digest}

abbrev is_nonempty : String → Bool
is_nonempty s = not (count s == 0)

-- `^[0-9]+$`
unfoldable pub is_decimal_number : String → Bool
unfolding all_codes
is_decimal_number s = is_nonempty s && all_codes is_digit s

three_numbers : List String → Bool
unfolding is_decimal_number
three_numbers (major ∷ minor ∷ patch ∷ []) =
    is_decimal_number major && is_decimal_number minor && is_decimal_number patch
three_numbers _ = false

-- VERSION_PATTERN
unfoldable pub is_version : String → Bool
unfolding three_numbers split_on
is_version s = three_numbers (split_on b'.' s)

-- REVISION_PATTERN
unfoldable pub is_revision : String → Bool
unfolding all_codes
is_revision s = count s == 40 && all_codes (λ c. is_digit c || leb b'a' c && leb c b'f') s

-- What follows a prefix.
unfoldable pub after : String → String → Option String
after String.[] s = some s
after (String.◌∷◌ c p) String.[] = none
after (String.◌∷◌ c p) (String.◌∷◌ d s) =
    let rest = after p s in if code c == code d then rest else none

rest_is_digest : Option String → Bool
rest_is_digest none = false
rest_is_digest (some rest) = is_hex_digest rest

-- DIGEST_PATTERN
unfoldable pub is_image_digest : String → Bool
unfolding rest_is_digest after is_hex_digest
is_image_digest s = rest_is_digest (after "sha256:" s)

abbrev is_alphanumeric : ℕ → Bool
is_alphanumeric c = is_digit c || is_lower c

abbrev is_inner : ℕ → Bool
is_inner c = is_alphanumeric c || c == b'.' || c == b'_' || c == b'-'

-- Whether the last character at hand ends a segment.
ends_segment : Bool → String → Bool
ends_segment last String.[] = last
ends_segment last (String.◌∷◌ c s) =
    let rest = ends_segment (is_alphanumeric (code c)) s in is_inner (code c) && rest

-- `[a-z0-9](?:[a-z0-9._-]*[a-z0-9])?`
is_segment : String → Bool
unfolding ends_segment
is_segment String.[] = false
is_segment (String.◌∷◌ c s) = is_alphanumeric (code c) && ends_segment true s

-- A segment with an optional port
is_host : List String → Bool
unfolding is_segment is_decimal_number
is_host (name ∷ []) = is_segment name
is_host (name ∷ port ∷ []) = is_segment name && is_decimal_number port
is_host _ = false

is_path : List String → Bool
unfolding is_host is_segment split_on
is_path (host ∷ first ∷ rest) =
    is_host (split_on b':' host) && is_segment first && all is_segment rest
is_path _ = false

-- IMAGE_PATTERN
unfoldable pub is_image : String → Bool
unfolding is_path split_on
is_image s = is_path (split_on b'/' s)

-- PLATFORM_PATTERN
unfoldable pub is_platform : String → Bool
is_platform s = str_eq s "linux/amd64" || str_eq s "linux/arm64"

-- `Path(name).name == name`, for a name that is not empty
unfoldable pub is_plain_name : String → Bool
unfolding all_codes
is_plain_name s = is_nonempty s && all_codes (λ c. not (c == b'/')) s && not (str_eq s ".")
