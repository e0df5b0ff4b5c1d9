-- ===== src/Release/Files.antt =====
-- The files of a release directory, and the readers and record checks of
-- src/smart_factory/release_verification.py.

use smart_factory_monitor.Common.{
  ◌≡◌, ℕ, ℤ, Bool, true, ◌&&◌, ◌==◌, String, count, Option, none, some, List, [], ◌∷◌, map, str_eq,
  Result, ok, err, ◌>>=◌, ◌>>◌, guard, if◌then◌else◌,
}
use smart_factory_monitor.Domain.{is_hex_digest}
use smart_factory_monitor.Release.Json.{
  Json, Members, get, as_text, as_integer, as_object, has_value,
}
use smart_factory_monitor.Release.Patterns.{is_plain_name}

-- A regular file with its bytes; a symbolic link, a directory or another file.
pub data Entry : Type 0 where
  regular : String → Entry
  irregular : Entry

pub record Directory : Type 0 where
  pub is_real : Bool
  pub entries : List (String × Entry)

-- A `ValueError`, by its message.
abbrev pub Checks : Type 0 → Type 0
Checks A = Result String A

-- UTF-8, the JSON parser and printer, SHA-256 and base64 with validation, over texts as bytes; and
-- for each Deployment document of a manifest the images that it names, as the regular expressions
-- of the source find them. `none` is an exception of the reader.
pub record ReleaseTools : Type 0 where
  pub decode_utf8 : String → Option String
  pub loads : String → Option Json
  pub canonical_json : Json → String
  pub sha256 : String → String
  pub b64decode : String → Option String
  pub b64encode : String → String
  pub deployment_images : String → List (List String)

abbrev pub entry_names : List (String × Entry) → List String
entry_names entries = map (λ (entry : String × Entry). entry.0) entries

unfoldable pub find_entry : String → List (String × Entry) → Option Entry
find_entry name [] = none
find_entry name ((key, entry) ∷ rest) =
    let later = find_entry name rest in if str_eq name key then some entry else later

as_regular : Option Entry → Checks String
as_regular (some (Entry.regular content)) = ok content
as_regular _ = err "must be a regular file"

-- `_regular_file`, with the bytes of the file
unfoldable pub regular_file : List (String × Entry) → String → Checks String
unfolding as_regular
regular_file entries name = as_regular (find_entry name entries)

as_regular-ok :
    (o : Option Entry) (content : String)
    → as_regular o ≡ ok content
    → o ≡ some (Entry.regular content)
unfolding as_regular
as_regular-ok none content e = absurd (cc e)
as_regular-ok (some Entry.irregular) content e = absurd (cc e)
as_regular-ok (some (Entry.regular other)) content e = cc e

-- What the file holds is in the listing.
pub regular_file-ok :
    (entries : List (String × Entry)) (name content : String)
    → regular_file entries name ≡ ok content
    → find_entry name entries ≡ some (Entry.regular content)
unfolding regular_file
regular_file-ok entries name content e = as_regular-ok (find_entry name entries) content e

-- The loop over `iterdir()`
unfoldable pub all_regular : List (String × Entry) → Checks (Unit {0})
all_regular [] = ok tt
all_regular ((name, Entry.irregular) ∷ rest) = err "must be a regular file"
all_regular ((name, Entry.regular content) ∷ rest) = all_regular rest

unfoldable pub given : {A : Type 0} → String → Option A → Checks A
given message none = err message
given message (some a) = ok a

-- `_plain_name`
unfoldable pub plain_name : Option Json → Checks String
unfolding given
plain_name value = do
  name ← given "name is invalid" (as_text value)
  guard (is_plain_name name) "name is invalid"
  ok name

unfoldable pub natural : Option ℤ → Option ℕ
natural (some (ℤ.pos n)) = some n
natural _ = none

-- `expected_media_type is not None and record.get("media_type") != expected_media_type` is refused.
unfoldable pub has_media_type : Option String → Members → Bool
unfolding has_value
has_media_type none record_members = true
has_media_type (some expected) record_members =
    has_value (get "media_type" record_members) (Json.text expected)

-- `isinstance(digest, str) and SHA256_PATTERN.fullmatch(digest)`, with the digest
unfoldable pub digest_of : Option Json → Option String
digest_of value = elim (as_text value) [
  | none ↦ none
  | some digest ↦ if is_hex_digest digest then some digest else none
]

module _ (tools : ReleaseTools) where
  -- `_read_json`
  unfoldable pub read_json : List (String × Entry) → String → Checks Members
  unfolding given
  read_json entries name = do
    content ← regular_file entries name
    text ← given "must be valid UTF-8 JSON" (tools.decode_utf8 content)
    value ← given "must be valid UTF-8 JSON" (tools.loads text)
    given "must be a JSON object" (as_object (some value))

  unfoldable pub matches_record : String → ℕ → String → Bool
  matches_record digest size content = count content == size && str_eq (tools.sha256 content) digest

  -- `_validate_record`, with the bytes of the file
  unfoldable pub validate_record :
      List (String × Entry) → Option Json → String → Option String → Checks String
  unfolding given
  validate_record entries record_value expected_name expected_media_type = do
    record_members ← given "record is invalid" (as_object record_value)
    name ← plain_name (get "name" record_members)
    guard (str_eq name expected_name) "name does not match the release identity"
    digest ← given "digest is invalid" (digest_of (get "sha256" record_members))
    size ← given "size is invalid" (natural (as_integer (get "size" record_members)))
    guard (has_media_type expected_media_type record_members) "media type is invalid"
    content ← regular_file entries name
    guard (matches_record digest size content) "does not match its recorded identity"
    ok content
