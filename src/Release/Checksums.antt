-- ===== src/Release/Checksums.antt =====
-- `_parse_checksums` of src/smart_factory/release_verification.py, and the comparison of every file
-- with its checksum.
use Prim.Native.Char.{Char, code}
use smart_factory_monitor.Common.{
  ℕ, zero, suc, Bool, false, not, ◌&&◌, ◌||◌, ◌==◌, leb, String, count, Option, none, some, List,
  [], ◌∷◌, map, str_eq, contains, all_codes, ok, ◌>>=◌, ◌>>◌, guard, if◌then◌else◌,
}
use smart_factory_monitor.Domain.{is_hex_digest}
use smart_factory_monitor.Release.Patterns.{is_plain_name}
use smart_factory_monitor.Release.Files.{Entry, Checks, ReleaseTools, regular_file, given}

-- The characters at which `str.splitlines` ends a line; a carriage return takes a line feed with
-- it.
abbrev is_break : ℕ → Bool
is_break c = (leb 10 c && leb c 13) || (leb 28 c && leb c 30) || c == 133 || c == 8232 || c == 8233

extend_line : Char → List String → List String
extend_line c [] = String.◌∷◌ c String.[] ∷ []
extend_line c (line ∷ lines) = String.◌∷◌ c line ∷ lines

-- The lines after a carriage return, whose line feed makes no line.
after_return : String → List String → List String
after_return String.[] lines = lines
after_return (String.◌∷◌ d s) [] = []
after_return (String.◌∷◌ d s) (line ∷ lines) = if code d == 10 then lines else line ∷ lines

-- `content.splitlines()`
unfoldable pub split_lines : String → List String
unfolding extend_line after_return
split_lines String.[] = []
split_lines (String.◌∷◌ c s) =
    let lines = split_lines s in
    if code c == 13
    then String.[] ∷ after_return s lines
    else if is_break (code c)
    then String.[] ∷ lines
    else extend_line c lines

-- The first characters of a text, and what follows them.
unfoldable pub split_at : ℕ → String → String × String
split_at zero s = (String.[], s)
split_at (suc n) String.[] = (String.[], String.[])
split_at (suc n) (String.◌∷◌ c s) = let (first, rest) = split_at n s in (String.◌∷◌ c first, rest)

two_spaces : String → Option String
two_spaces (String.◌∷◌ a (String.◌∷◌ b name)) =
    if code a == 32 && code b == 32 then some name else none
two_spaces _ = none

named : String → Option String → Option (String × String)
named digest none = none
named digest (some name) =
    if is_hex_digest digest
      && not (count name == 0)
      && all_codes (λ c. not (c == b'/') && not (c == 92)) name
    then some (digest, name)
    else none

-- CHECKSUM_LINE_PATTERN, with its groups
unfoldable pub match_line : String → Option (String × String)
unfolding split_at two_spaces named
match_line line = let (digest, rest) = split_at 64 line in named digest (two_spaces rest)

ends_with_newline : String → Bool
ends_with_newline String.[] = false
ends_with_newline (String.◌∷◌ c String.[]) = code c == 10
ends_with_newline (String.◌∷◌ c (String.◌∷◌ d s)) = ends_with_newline (String.◌∷◌ d s)

abbrev pub Checksums : Type 0
Checksums = List (String × String)

abbrev pub checksum_names : Checksums → List String
checksum_names checksums = map (λ (entry : String × String). entry.0) checksums

-- The loop over the lines, with the entries so far; a name stands before its digest.
unfoldable pub parse_lines : List String → List String → Checks Checksums
unfolding contains is_plain_name
parse_lines [] seen = ok []
parse_lines (line ∷ lines) seen = do
  entry ← given "SHA256SUMS contains an invalid line" (match_line line)
  guard (is_plain_name entry.1) "checksum entry name is invalid"
  guard (not (contains entry.1 seen)) "SHA256SUMS contains a duplicate entry"
  rest ← parse_lines lines (entry.1 ∷ seen)
  ok ((entry.1, entry.0) ∷ rest)

module _ (tools : ReleaseTools) where
  -- `_parse_checksums`
  unfoldable pub parse_checksums : List (String × Entry) → Checks Checksums
  unfolding ends_with_newline given
  parse_checksums entries = do
    content ← regular_file entries "SHA256SUMS"
    text ← given "SHA256SUMS must be valid UTF-8 text" (tools.decode_utf8 content)
    guard (ends_with_newline text) "SHA256SUMS must be nonempty and newline-terminated"
    parse_lines (split_lines text) []

  -- The loop over `checksums.items()`
  unfoldable pub check_all : List (String × Entry) → Checksums → Checks (Unit {0})
  check_all entries [] = ok tt
  check_all entries ((name, digest) ∷ rest) = do
    content ← regular_file entries name
    guard (str_eq (tools.sha256 content) digest) "checksum mismatch"
    check_all entries rest
