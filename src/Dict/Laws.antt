-- ===== src/Dict/Laws.antt =====
-- Sinetek-rtsx/util_dict.h: what addToList(), removeFromList() and getValueFromList() do to the
-- partial map that the two arrays stand for.
use sinetek_rtsx.Base.{
  ◌+◌, suc, ◌<◌, ◌≡◌, refl, sym, ap, ◌≢◌, inl, inr, none, some, arith, Ptr, null, ◌==◌,
  if◌then◌else◌, Option-cases, Bool-cases, eq_of_==, ne_of_==,
}
use sinetek_rtsx.Dict.{Dict, index_of, add_to_list, remove_from_list, get_value_from_list}
use sinetek_rtsx.Dict.Slots.{index_of-lt, get_or-index_of, count_of_none, count-set}
use sinetek_rtsx.Dict.Valid.{
  IsKey, IsValid, free_slots, added, add_to_list-some, add_to_list-none, absent_count,
  add_to_list-inv, remove_from_list-inv, get_value_self, get_value_other, added-IsValid, removed,
}

-- In a valid dictionary, addToList() that succeeds with a key that is neither null nor bound yet
-- binds that key and keeps the binding of every other key but null.
pub get_value-add_to_list :
    (key val : Ptr) (d d' : Dict) (j : Ptr)
    → IsValid d
    → get_value_from_list key d ≡ none
    → add_to_list key val d ≡ some d'
    → key ≢ 0
    → j ≢ 0
    → get_value_from_list j d' ≡ (if key == j then some val else get_value_from_list j d)
get_value-add_to_list key val d d' j valid absent e nk nj =
    let (i, f, made) = add_to_list-inv key val d d' e in
    elim (Bool-cases (key == j)) [
      | inl h ↦
          rw (h, made, ← eq_of_== key j h)
            (get_value_self d valid key val i (absent_count key d absent) f)
      | inr h ↦
          rw (h, made)
            (get_value_other d valid 0 key val i j (λ z. nj (sym z)) (ne_of_== key j h) f)
    ]

-- With a key that is not null, addToList() succeeds and takes one slot if a slot is free, and
-- fails if none is.
pub add_to_list_total :
    (key val : Ptr) (d : Dict)
    → key ≢ 0
    → (0 < free_slots d
        → (d' : Dict) × (add_to_list key val d ≡ some d') × (free_slots d ≡ suc (free_slots d')))
      × (free_slots d ≡ 0 → add_to_list key val d ≡ none)
add_to_list_total key val d nk = elim (Option-cases (index_of 0 d.keys)) [
  | inl f ↦
      (λ h. absurd (omega (arith, count_of_none 0 d.keys f)), λ _. add_to_list-none key val d f)
  | inr (i, f) ↦
      let moved = count-set 0 d.keys i key (index_of-lt 0 d.keys i f) in
      let held = get_or-index_of 0 d.keys i 0 f in
      (
        λ h. (added key val i d, add_to_list-some key val d i f, ground (arith, moved, held)),
        λ h. absurd (ground (arith, moved, held)),
      )
]

-- In a valid dictionary, removeFromList() that succeeds with a key that is not null unbinds that
-- key and keeps the binding of every other key but null.
pub get_value-remove_from_list :
    (key : Ptr) (d d' : Dict) (j : Ptr)
    → IsValid d
    → remove_from_list key d ≡ some d'
    → key ≢ 0
    → j ≢ 0
    → get_value_from_list j d' ≡ (if key == j then none else get_value_from_list j d)
get_value-remove_from_list key d d' j valid e nk nj =
    let (i, f, made) = remove_from_list-inv key d d' e in
    elim (Bool-cases (key == j)) [
      | inl h ↦ rw (h, made, ← eq_of_== key j h) (removed d valid key i nk f)
      | inr h ↦
          rw (h, made) (get_value_other d valid key 0 0 i j (ne_of_== key j h) (λ z. nj (sym z)) f)
    ]

-- addToList() that succeeds with a key that is neither null, reserved nor bound yet keeps the
-- dictionary valid: no key but the free one stands twice, no slot is left reserved, and a free
-- slot has the value null.
pub add_to_list-IsValid :
    (key val : Ptr) (d d' : Dict)
    → IsKey key
    → IsValid d
    → get_value_from_list key d ≡ none
    → add_to_list key val d ≡ some d'
    → IsValid d'
add_to_list-IsValid key val d d' isk valid absent e =
    let (i, f, made) = add_to_list-inv key val d d' e in
    rw made (
      added-IsValid 0 key val i d valid f (λ _. absent_count key d absent) isk.1
        (λ z. absurd (isk.0 z)))

-- removeFromList() that succeeds keeps a valid dictionary valid.
pub remove_from_list-IsValid :
    (key : Ptr) (d d' : Dict) → IsValid d → remove_from_list key d ≡ some d' → IsValid d'
remove_from_list-IsValid key d d' valid e =
    let (i, f, made) = remove_from_list-inv key d d' e in
    rw made (added-IsValid key 0 0 i d valid f (λ z. absurd (z refl)) (omega arith) (λ _. refl))

-- While a slot of a valid dictionary is free, the look-up of the null pointer succeeds with a null
-- value.
pub get_value-null : (d : Dict) → IsValid d → 0 < free_slots d → get_value_from_list 0 d ≡ some null
unfolding get_value_from_list
get_value-null d valid h = elim (Option-cases (index_of 0 d.keys)) [
  | inl f ↦ absurd (omega (arith, count_of_none 0 d.keys f))
  | inr (i, f) ↦
      rw (f, get_value_from_list) (ap some (valid.cleared i (get_or-index_of 0 d.keys i 0 f)))
]

-- removeFromList() succeeds on a key that is bound.
pub remove_from_list_total :
    (key : Ptr) (d : Dict) (v : Ptr)
    → get_value_from_list key d ≡ some v
    → (d' : Dict) × (remove_from_list key d ≡ some d')
unfolding remove_from_list get_value_from_list
remove_from_list_total key d v e = elim (Option-cases (index_of key d.keys)) [
  | inl f ↦ let g : none ≡ some v = rw (f, get_value_from_list) at e in cc g
  | inr (i, f) ↦ (added 0 0 i d, rw (f, remove_from_list))
]

-- An addition that succeeds takes a free slot.
pub add_takes :
    (key val : Ptr) (d d' : Dict)
    → key ≢ null
    → add_to_list key val d ≡ some d'
    → free_slots d ≡ free_slots d' + 1
add_takes key val d d' nk e =
    let (i, f, made) = add_to_list-inv key val d d' e in
    let moved = count-set 0 d.keys i key (index_of-lt 0 d.keys i f) in
    let held = get_or-index_of 0 d.keys i 0 f in rw made (ground (arith, moved, held))

-- A removal that succeeds frees a slot.
pub remove_frees :
    (key : Ptr) (d d' : Dict)
    → key ≢ null
    → remove_from_list key d ≡ some d'
    → free_slots d' ≡ free_slots d + 1
remove_frees key d d' nk e =
    let (i, f, made) = remove_from_list-inv key d d' e in
    let moved = count-set 0 d.keys i 0 (index_of-lt key d.keys i f) in
    let held = get_or-index_of key d.keys i 0 f in rw made (ground (arith, moved, held))
