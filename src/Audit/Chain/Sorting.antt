-- ===== src/Audit/Chain/Sorting.antt =====
-- `sorted_items` of the audit chain: sorting again changes nothing, and keys stay unique.
use smart_factory_monitor.Common.{
  String, ◌≡◌, refl, ap, Bool, true, ◌||◌, [], ◌∷◌, arith, str_eq, text_leb, text_leb_total, any,
  Bool-cases, inl, inr, eq_iff,
}
use smart_factory_monitor.Audit.Event.{AuditValue, AuditState, keys_unique}
use smart_factory_monitor.Audit.Chain.{insert_item, sorted_items}

-- No item of the list is before this key, judged by the first.
abbrev Leads : String → AuditState → Type 0
Leads key [] = Unit
Leads key (item ∷ rest) = text_leb key item.0 ≡ true

abbrev IsOrdered : AuditState → Type 0
IsOrdered [] = Unit
IsOrdered (item ∷ rest) = Leads item.0 rest × IsOrdered rest

Leads-insert_item :
    (key : String) (item : String × AuditValue) (l : AuditState)
    → text_leb key item.0 ≡ true
    → Leads key l
    → Leads key (insert_item item l)
unfolding insert_item
Leads-insert_item key item [] h k = h
Leads-insert_item key item (other ∷ rest) h k = elim (Bool-cases (text_leb item.0 other.0)) [
  | inl e ↦ rw e h
  | inr e ↦ rw e k
]

insert_item-IsOrdered :
    (item : String × AuditValue) (l : AuditState) → IsOrdered l → IsOrdered (insert_item item l)
unfolding insert_item
insert_item-IsOrdered item [] h = (tt, tt)
insert_item-IsOrdered item (other ∷ rest) h = elim (Bool-cases (text_leb item.0 other.0)) [
  | inl e ↦ rw e (e, h)
  | inr e ↦ rw e (
    Leads-insert_item other.0 item rest (text_leb_total item.0 other.0 e) h.0,
    insert_item-IsOrdered item rest h.1,
  )
]

sorted_items-IsOrdered : (l : AuditState) → IsOrdered (sorted_items l)
unfolding sorted_items
sorted_items-IsOrdered [] = tt
sorted_items-IsOrdered (item ∷ rest) =
    insert_item-IsOrdered item (sorted_items rest) (sorted_items-IsOrdered rest)

insert_item-first :
    (item : String × AuditValue) (l : AuditState) → Leads item.0 l → insert_item item l ≡ item ∷ l
unfolding insert_item
insert_item-first item [] h = refl
insert_item-first item (other ∷ rest) h = rw h

sorted_items_of_ordered : (l : AuditState) → IsOrdered l → sorted_items l ≡ l
unfolding sorted_items
sorted_items_of_ordered [] h = refl
sorted_items_of_ordered (item ∷ rest) h =
    rw (sorted_items_of_ordered rest h.1) (insert_item-first item rest h.0)

pub sorted_items_idem : (l : AuditState) → sorted_items (sorted_items l) ≡ sorted_items l
sorted_items_idem l = sorted_items_of_ordered (sorted_items l) (sorted_items-IsOrdered l)

any-insert_item :
    (p : String × AuditValue → Bool) (item : String × AuditValue) (l : AuditState)
    → any p (insert_item item l) ≡ (p item || any p l)
unfolding insert_item
any-insert_item p item [] = refl
any-insert_item p item (other ∷ rest) = ground (arith, any-insert_item p item rest)

any-sorted_items :
    (p : String × AuditValue → Bool) (l : AuditState) → any p (sorted_items l) ≡ any p l
unfolding sorted_items
any-sorted_items p [] = refl
any-sorted_items p (item ∷ rest) =
    rw any-insert_item (ap (λ b. p item || b) (any-sorted_items p rest))

keys_unique-insert_item :
    (item : String × AuditValue) (l : AuditState)
    → keys_unique (insert_item item l) ≡ keys_unique (item ∷ l)
unfolding insert_item keys_unique
keys_unique-insert_item item [] = refl
keys_unique-insert_item item (other ∷ rest) = ground (
  arith,
  keys_unique-insert_item item rest,
  any-insert_item (λ (entry : String × AuditValue). str_eq other.0 entry.0) item rest,
  eq_iff item.0 other.0,
  eq_iff other.0 item.0,
)

pub keys_unique-sorted_items : (l : AuditState) → keys_unique (sorted_items l) ≡ keys_unique l
unfolding sorted_items keys_unique
keys_unique-sorted_items [] = refl
keys_unique-sorted_items (item ∷ rest) = rw keys_unique-insert_item (
    rw (keys_unique-sorted_items rest)
      (rw (any-sorted_items (λ (entry : String × AuditValue). str_eq item.0 entry.0) rest)))
