-- ===== src/Dict/Calls/Keeps.antt =====
-- Every call of Sinetek-rtsx/util_dict.h keeps the dictionary valid.
use sinetek_rtsx.Base.{◌≡◌, none, Option-cases, inl, inr}
use sinetek_rtsx.Dict.{Dict, add_to_list, remove_from_list, get_value_from_list}
use sinetek_rtsx.Dict.Valid.{IsKey, IsValid}
use sinetek_rtsx.Dict.Laws.{add_to_list-IsValid, remove_from_list-IsValid}
use sinetek_rtsx.Dict.Calls.{Call, add, remove, look_up, call}

-- An addition is of a key that is neither null, reserved nor bound yet.
abbrev pub IsFresh : Call → Dict → Type 0
IsFresh (add key val) d = IsKey key × (get_value_from_list key d ≡ none)
IsFresh (remove key) d = Unit
IsFresh (look_up key) d = Unit

-- A call on a valid dictionary, which adds a key that is neither null, reserved nor bound yet,
-- removes or looks up a key, whether it succeeds or fails, leaves it valid: no key but the free
-- one stands twice, no slot is reserved, and a free slot has the value null.
pub call-IsValid : (c : Call) (d : Dict) → IsFresh c d → IsValid d → IsValid (call c d).1
unfolding call
call-IsValid (add key val) d (isk, fresh) valid = elim (Option-cases (add_to_list key val d)) [
  | inl e ↦ rw (e, call) valid
  | inr (d', e) ↦ rw (e, call) (add_to_list-IsValid key val d d' isk valid fresh e)
]
call-IsValid (remove key) d fresh valid = elim (Option-cases (remove_from_list key d)) [
  | inl e ↦ rw (e, call) valid
  | inr (d', e) ↦ rw (e, call) (remove_from_list-IsValid key d d' valid e)
]
call-IsValid (look_up key) d fresh valid = elim (Option-cases (get_value_from_list key d)) [
  | inl e ↦ rw (e, call) valid
  | inr (v, e) ↦ rw (e, call) valid
]
