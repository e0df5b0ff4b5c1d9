-- ===== src/Common/Texts.antt =====
-- Texts as Python orders them: by code points, the first difference decides.
pub mod Stripping
use Prim.Native.Char.{Char, code}
use Prim.Native.String.{String}
use mathlib.Core.Path.{◌≡◌, refl}
use Prim.Native.Nat.{ℕ, ◌+◌}
use mathlib.Core.Bool.{Bool, true, false, ◌&&◌, ◌||◌}
use mathlib.Core.List.{List, [], ◌∷◌}
use native.Mathlib.Omega.{arith}
use text.Mathlib.TextEquality.{eq_iff}
use smart_factory_monitor.Common.Tests.{ltb, leb, ◌==◌, str_eq, if◌then◌else◌}
use smart_factory_monitor.Common.Lists.{all}

unfoldable pub text_leb : String → String → Bool
text_leb String.[] t = true
text_leb (String.◌∷◌ c s) String.[] = false
text_leb (String.◌∷◌ c s) (String.◌∷◌ d t) =
    if ltb (code c) (code d) then true else if ltb (code d) (code c) then false else text_leb s t

pub text_leb_total : (s t : String) → text_leb s t ≡ false → text_leb t s ≡ true
unfolding text_leb
text_leb_total String.[] t h = cc
text_leb_total (String.◌∷◌ c s) String.[] h = refl
text_leb_total (String.◌∷◌ c s) (String.◌∷◌ d t) h = ground (arith, text_leb_total s t)

-- Whether every character passes a test on its code point.
unfoldable pub all_codes : (ℕ → Bool) → String → Bool
all_codes p String.[] = true
all_codes p (String.◌∷◌ c s) = p (code c) && all_codes p s

abbrev pub is_digit : ℕ → Bool
is_digit c = leb b'0' c && leb c b'9'

abbrev pub is_lower : ℕ → Bool
is_lower c = leb b'a' c && leb c b'z'

abbrev pub is_upper : ℕ → Bool
is_upper c = leb b'A' c && leb c b'Z'

-- The characters that `str.isspace` accepts.
abbrev pub is_space : ℕ → Bool
is_space c =
    (leb 9 c && leb c 13)
    || (leb 28 c && leb c 32)
    || c == 133
    || c == 160
    || c == 5760
    || (leb 8192 c && leb c 8202)
    || c == 8232
    || c == 8233
    || c == 8239
    || c == 8287
    || c == 12288

lstrip : String → String
lstrip String.[] = String.[]
lstrip (String.◌∷◌ c s) = let rest = lstrip s in if is_space (code c) then rest else String.◌∷◌ c s

prepend : Char → String → String
prepend c String.[] = if is_space (code c) then String.[] else String.◌∷◌ c String.[]
prepend c (String.◌∷◌ d s) = String.◌∷◌ c (String.◌∷◌ d s)

rstrip : String → String
unfolding prepend
rstrip String.[] = String.[]
rstrip (String.◌∷◌ c s) = prepend c (rstrip s)

-- `text.strip()`
unfoldable pub strip : String → String
unfolding lstrip rstrip
strip s = lstrip (rstrip s)

-- Whether `text.lower()` is the word, for a word of ASCII letters other than `k` and of digits:
-- then only the ASCII letters lower to letters of the word.
unfoldable pub lowers_to : String → String → Bool
lowers_to String.[] String.[] = true
lowers_to String.[] (String.◌∷◌ d t) = false
lowers_to (String.◌∷◌ c s) String.[] = false
lowers_to (String.◌∷◌ c s) (String.◌∷◌ d t) =
    (code c == code d || (is_upper (code c) && code c + 32 == code d)) && lowers_to s t

extend : Char → List String → List String
extend c [] = String.◌∷◌ c String.[] ∷ []
extend c (part ∷ parts) = String.◌∷◌ c part ∷ parts

-- `text.split(separator)`, for a separator of one character
unfoldable pub split_on : ℕ → String → List String
unfolding extend
split_on separator String.[] = String.[] ∷ []
split_on separator (String.◌∷◌ c s) =
    let parts = split_on separator s in
    if code c == separator then String.[] ∷ parts else extend c parts

unfoldable pub without : String → List String → List String
without text [] = []
without text (x ∷ xs) = let rest = without text xs in if str_eq text x then rest else x ∷ rest

-- `tuple(dict.fromkeys(texts))`: the first occurrence of each text
unfoldable pub fromkeys : List String → List String
unfolding without
fromkeys [] = []
fromkeys (x ∷ xs) = x ∷ without x (fromkeys xs)

-- `text in texts`
unfoldable pub contains : String → List String → Bool
contains text [] = false
contains text (x ∷ xs) = str_eq text x || contains text xs

-- `set(xs) == set(ys)`
unfoldable pub same_set : List String → List String → Bool
unfolding contains
same_set xs ys = all (λ x. contains x ys) xs && all (λ y. contains y xs) ys

pub str_eq_refl : (s : String) → str_eq s s ≡ true
str_eq_refl s = ground (arith, eq_iff s s)
