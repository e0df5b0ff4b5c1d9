-- ===== src/Release/Json/Equality.antt =====
-- What an equation between JSON documents says of their parts.
use smart_factory_monitor.Common.{
  true, ◌⊎◌, String, Option, none, some, ◌≡◌, refl, Option-cases, inl, inr, eq_iff, arith,
}
use smart_factory_monitor.Release.Json.{
  Json, Members, no_members, member_of, get, as_object, json_eq, members_in, is_text,
}

pub text_of_json_eq : (s : String) (j : Json) → json_eq (Json.text s) j ≡ true → j ≡ Json.text s
unfolding json_eq is_text
text_of_json_eq s (Json.text t) e = let p : s ≡ t = ground (arith, eq_iff s t) in cc p
text_of_json_eq s Json.null e = absurd (cc e)
text_of_json_eq s (Json.flag b) e = absurd (cc e)
text_of_json_eq s (Json.integer n) e = absurd (cc e)
text_of_json_eq s (Json.decimal t n) e = absurd (cc e)
text_of_json_eq s (Json.array xs) e = absurd (cc e)
text_of_json_eq s (Json.object ms) e = absurd (cc e)

pub object_of_json_eq :
    (ms : Members) (j : Json)
    → json_eq (Json.object ms) j ≡ true
    → (ns : Members) × (j ≡ Json.object ns) × (members_in ms ns ≡ true)
unfolding json_eq
object_of_json_eq ms (Json.object ns) e = (ns, refl, ground arith)
object_of_json_eq ms Json.null e = absurd (cc e)
object_of_json_eq ms (Json.flag b) e = absurd (cc e)
object_of_json_eq ms (Json.integer n) e = absurd (cc e)
object_of_json_eq ms (Json.decimal t n) e = absurd (cc e)
object_of_json_eq ms (Json.array xs) e = absurd (cc e)
object_of_json_eq ms (Json.text s) e = absurd (cc e)

pub found_of_members_in :
    (key : String) (value : Json) (rest ns : Members)
    → members_in (member_of key value rest) ns ≡ true
    → (j : Json) × (get key ns ≡ some j) × (json_eq value j ≡ true) × (members_in rest ns ≡ true)
unfolding members_in
found_of_members_in key value rest ns e = elim (Option-cases (get key ns)) [
  | inl p ↦ absurd (ground arith)
  | inr (j, p) ↦ (j, p, ground arith, ground arith)
]

-- `value[key]` of an object
unfoldable pub at_key : String → Option Json → Option Json
at_key key value = elim (as_object value) [ none ↦ none | some ms ↦ get key ms ]

abbrev pub MemberAt : String → Json → Members → Type 0
MemberAt key value no_members = ⊥
MemberAt key value (member_of name found rest) =
    ((key ≡ name) × (value ≡ found)) ⊎ MemberAt key value rest

get_of_members_in :
    (key : String) (value : Json) (ms ns : Members)
    → MemberAt key value ms
    → members_in ms ns ≡ true
    → (found : Json) × (get key ns ≡ some found) × (json_eq value found ≡ true)
get_of_members_in key value no_members ns at h = absurd at
get_of_members_in key value (member_of name v rest) ns (inl (same, equal)) h =
    let (j, p, q, r) = found_of_members_in name v rest ns h in (j, rw same p, rw equal q)
get_of_members_in key value (member_of name v rest) ns (inr at) h =
    let (j, p, q, r) = found_of_members_in name v rest ns h in
    get_of_members_in key value rest ns at r

-- What is equal to an object has an equal value at each of the object's keys.
pub at_key_of_json_eq :
    (key : String) (value : Json) (ms : Members) (j : Json)
    → MemberAt key value ms
    → json_eq (Json.object ms) j ≡ true
    → (found : Json) × (at_key key (some j) ≡ some found) × (json_eq value found ≡ true)
unfolding at_key as_object
at_key_of_json_eq key value ms j at h =
    let (ns, same, inside) = object_of_json_eq ms j h in
    let (found, p, q) = get_of_members_in key value ms ns at inside in (found, rw same p, q)
