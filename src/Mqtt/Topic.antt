-- ===== src/Mqtt/Topic.antt =====
-- Topics: `Settings.topic` of src/smart_factory/config.py and `_machine_id_from_topic` of
-- src/smart_factory/infrastructure/mqtt/consumer.py.
use Prim.Native.Char.{Char, code}
use text.Mathlib.TextEquality.{Char-path}
use text.Mathlib.TextLemmas.{append_assoc, nil-append, cons-append}
use smart_factory_monitor.Common.{
  String, ◌<>◌, ◌≡◌, refl, ap, sym, ◌∙◌, Bool, true, false, ◌&&◌, ◌||◌, not, Option, none, some,
  List, [], ◌∷◌, arith, ◌==◌, str_eq, eq_iff, Bool-cases, inl, inr, ◌≢◌, all_codes, is_digit,
  is_lower, if◌then◌else◌,
}
use smart_factory_monitor.Domain.{is_machine_id, is_slug_from}

-- `Settings.topic`
unfoldable pub topic : String → String → String
topic factory_area machine_id =
    "factory/" <> (factory_area <> ("/" <> (machine_id <> "/telemetry")))

push : Char → List String → List String
push c [] = String.◌∷◌ c String.[] ∷ []
push c (part ∷ parts) = String.◌∷◌ c part ∷ parts

-- `text.split("/")`
unfoldable pub split_slash : String → List String
unfolding push
split_slash String.[] = String.[] ∷ []
split_slash (String.◌∷◌ c s) =
    let parts = split_slash s in if code c == b'/' then String.[] ∷ parts else push c parts

machine_id_of_parts : List String → Option String
machine_id_of_parts (root ∷ area ∷ machine ∷ leaf ∷ []) =
    if str_eq root "factory" && str_eq leaf "telemetry" then some machine else none
machine_id_of_parts _ = none

-- `_machine_id_from_topic`; `none` is the `ValueError`.
unfoldable pub machine_id_from_topic : String → Option String
unfolding split_slash machine_id_of_parts
machine_id_from_topic t = machine_id_of_parts (split_slash t)

unfoldable pub no_slash : String → Bool
unfolding all_codes
no_slash = all_codes (λ c. not (c == b'/'))

split_slash_of_no_slash : (s : String) → no_slash s ≡ true → split_slash s ≡ s ∷ []
unfolding split_slash no_slash all_codes
split_slash_of_no_slash String.[] h = refl
split_slash_of_no_slash (String.◌∷◌ c s) h = ground (arith, split_slash_of_no_slash s)

split_slash-slash : (t : String) → split_slash ("/" <> t) ≡ String.[] ∷ split_slash t
unfolding split_slash
split_slash-slash t = rw cons-append (rw nil-append)

split_slash-append :
    (s t : String) → no_slash s ≡ true → split_slash (s <> ("/" <> t)) ≡ s ∷ split_slash t
unfolding split_slash no_slash all_codes
split_slash-append String.[] t h = rw nil-append (split_slash-slash t)
split_slash-append (String.◌∷◌ c s) t h =
    rw (cons-append c s ("/" <> t)) (ground (arith, split_slash-append s t))

no_slash-is_slug_from : (b : Bool) (s : String) → is_slug_from b s ≡ true → no_slash s ≡ true
unfolding is_slug_from no_slash all_codes
no_slash-is_slug_from b String.[] h = refl
no_slash-is_slug_from b (String.◌∷◌ c s) h =
    ground (arith, no_slash-is_slug_from (is_digit (code c) || is_lower (code c)) s)

no_slash-is_machine_id : (s : String) → is_machine_id s ≡ true → no_slash s ≡ true
unfolding is_machine_id
no_slash-is_machine_id s h = no_slash-is_slug_from false s (ground arith)

topic_parts :
    (area machine : String)
    → topic area machine ≡ "factory" <> ("/" <> (area <> ("/" <> (machine <> "/telemetry"))))
unfolding topic
topic_parts area machine = append_assoc "factory" "/" (area <> ("/" <> (machine <> "/telemetry")))

-- The consumer reads back the machine of a topic that the simulator publishes to: for an area
-- without a slash and a valid machine id.
pub machine_id_from_topic-topic :
    (area machine : String)
    → no_slash area ≡ true
    → is_machine_id machine ≡ true
    → machine_id_from_topic (topic area machine) ≡ some machine
unfolding machine_id_from_topic
machine_id_from_topic-topic area machine p q = rw (topic_parts area machine) (
    rw
      (split_slash-append "factory" (area <> ("/" <> (machine <> "/telemetry")))
        (unfold no_slash all_codes in refl))
      (rw (split_slash-append area (machine <> "/telemetry") p) (
        rw (split_slash-append machine "telemetry" (no_slash-is_machine_id machine q))
          (unfold split_slash machine_id_of_parts in refl))))

-- The parts put together again.
join_slash : List String → String
join_slash [] = ""
join_slash (part ∷ []) = part
join_slash (part ∷ next ∷ parts) = part <> ("/" <> join_slash (next ∷ parts))

join_slash-push :
    (c : Char) (parts : List String) → join_slash (push c parts) ≡ String.◌∷◌ c (join_slash parts)
unfolding join_slash push
join_slash-push c [] = refl
join_slash-push c (part ∷ []) = refl
join_slash-push c (part ∷ next ∷ parts) = rw cons-append

push-ne-nil : (c : Char) (parts : List String) → push c parts ≢ []
unfolding push
push-ne-nil c [] h = cc
push-ne-nil c (part ∷ parts) h = cc

split_slash-ne-nil : (s : String) → split_slash s ≢ []
unfolding split_slash
split_slash-ne-nil String.[] h = cc
split_slash-ne-nil (String.◌∷◌ c s) h = ground (arith, push-ne-nil c (split_slash s))

join_slash-empty :
    (parts : List String) → parts ≢ [] → join_slash ("" ∷ parts) ≡ "/" <> join_slash parts
unfolding join_slash
join_slash-empty [] h = absurd (h refl)
join_slash-empty (part ∷ parts) h = rw nil-append

slash-cons : (c : Char) (s : String) → code c ≡ b'/' → "/" <> s ≡ String.◌∷◌ c s
slash-cons c s h =
    rw cons-append (rw nil-append (ap (λ (d : Char). String.◌∷◌ d s) (Char-path _ c (sym h))))

join_slash-split_slash : (s : String) → join_slash (split_slash s) ≡ s
unfolding split_slash
join_slash-split_slash String.[] = unfold join_slash in refl
join_slash-split_slash (String.◌∷◌ c s) = elim (Bool-cases (code c == b'/')) [
  | inl e ↦ rw e (
      join_slash-empty (split_slash s) (split_slash-ne-nil s)
      ∙ rw (join_slash-split_slash s) (slash-cons c s (ground arith)))
  | inr e ↦ rw e (join_slash-push c (split_slash s) ∙ rw (join_slash-split_slash s))
]

topic_of_parts :
    (parts : List String) (machine : String)
    → machine_id_of_parts parts ≡ some machine
    → (area : String) × (join_slash parts ≡ topic area machine)
unfolding machine_id_of_parts join_slash
topic_of_parts (root ∷ area ∷ m ∷ leaf ∷ []) machine h =
    let p : root ≡ "factory" = ground (arith, eq_iff root "factory") in
    let q : leaf ≡ "telemetry" = ground (arith, eq_iff leaf "telemetry") in
    let r : m ≡ machine = ground arith in (area, rw (p, q, r) (sym (topic_parts area machine)))
topic_of_parts _ machine h = absurd (cc h)

-- A topic from which the consumer reads a machine is the topic of that machine in some area.
pub topic-machine_id_from_topic :
    (t machine : String)
    → machine_id_from_topic t ≡ some machine
    → (area : String) × (t ≡ topic area machine)
unfolding machine_id_from_topic
topic-machine_id_from_topic t machine h =
    rw (← join_slash-split_slash t) (topic_of_parts (split_slash t) machine h)
