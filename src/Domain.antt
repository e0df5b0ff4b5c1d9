-- ===== src/Domain.antt =====
-- Values that the domain models share: timestamps (src/smart_factory/domain/*.py keep them
-- timezone-aware). An instant is counted in microseconds.
use Prim.Native.Char.{code}
use smart_factory_monitor.Common.{
  ℕ, String, count, Bool, true, false, ◌&&◌, ◌||◌, Option, none, some, leb, ◌==◌, all_codes,
  is_digit, is_upper, is_lower,
}

pub data UtcOffset : Type 0 where
  east : ℕ → UtcOffset
  west : ℕ → UtcOffset

-- A `datetime`: its instant, and its `tzinfo` with what `utcoffset()` of that returns.
pub record Datetime : Type 0 where
  pub instant : ℕ
  pub tzinfo : Option (Option UtcOffset)

abbrev has_offset : Option (Option UtcOffset) → Bool
has_offset none = false
has_offset (some none) = false
has_offset (some (some o)) = true

-- `value.tzinfo is None or value.utcoffset() is None` is the rejected case.
unfoldable pub is_aware : Datetime → Bool
is_aware d = has_offset d.tzinfo

abbrev pub utc : ℕ → Datetime
utc t = record { instant = t; tzinfo = some (some (UtcOffset.east 0)) }

-- `^[0-9a-f]{64}$`: key ids, digests, hashes.
unfoldable pub is_hex_digest : String → Bool
unfolding all_codes
is_hex_digest s = count s == 64 && all_codes (λ c. is_digit c || leb b'a' c && leb c b'f') s

abbrev chain_id_character : ℕ → Bool
chain_id_character c =
    is_digit c
    || is_upper c
    || is_lower c
    || c == b'.'
    || c == b'_'
    || c == b':'
    || c == b'/'
    || c == b'-'

-- `^[A-Za-z0-9][A-Za-z0-9._:/-]*$`, at most 255 characters. The pattern leaves no white space.
unfoldable pub is_chain_id : String → Bool
unfolding all_codes
is_chain_id String.[] = false
is_chain_id (String.◌∷◌ c s) =
    (is_digit (code c) || is_upper (code c) || is_lower (code c))
    && all_codes chain_id_character s
    && leb (count s) 254

abbrev slug_character : ℕ → Bool
slug_character c = is_digit c || is_lower c

-- `^[a-z0-9]+(?:-[a-z0-9]+)*$`, from a state: whether the segment at hand has a character.
unfoldable pub is_slug_from : Bool → String → Bool
is_slug_from started String.[] = started
is_slug_from started (String.◌∷◌ c s) =
    let rest = is_slug_from (slug_character (code c)) s in
    (slug_character (code c) || (started && code c == b'-')) && rest

-- `MachineId`
unfoldable pub is_machine_id : String → Bool
unfolding is_slug_from
is_machine_id s = is_slug_from false s && leb 3 (count s) && leb (count s) 64
