-- ===== src/Dict/Race.antt =====
-- Sinetek-rtsx/util_dict.h with calls that overlap. getFreeSlot() and findKey() run under the lock;
-- addToList(), removeFromList() and getValueFromList() go on without it, an access at a time.
pub mod Filling
pub mod Clobber
pub mod Bound
use sinetek_rtsx.Base.{
  ℕ, ◌≡◌, Bool, true, false, Option, none, some, List, [], ◌∷◌, Ptr, null, ◌==◌, if◌then◌else◌,
  get_or, set,
}
use sinetek_rtsx.Dict.{Dict, get_free_slot, find_key}
use sinetek_rtsx.Dict.Valid.{IsKey}

-- What a call came to.
pub data Event : Type 0 where
  added : (key val : Ptr) → Event
  removed : (key : Ptr) → Event
  looked_up : (key val : Ptr) → Event

-- Where a thread stands, with its locals; `slot` is `slotIdx`.
pub data Pc : Type 0 where
  idle : Pc
  put_key : (slot : ℕ) (key val : Ptr) → Pc  -- before `keys[slotIdx] = key`
  put_value : (slot : ℕ) (key val : Ptr) → Pc  -- before `values[slotIdx] = val`
  clear_key : (slot : ℕ) (key : Ptr) → Pc  -- before `keys[slotIdx] = 0`
  clear_value : (slot : ℕ) (key : Ptr) → Pc  -- before `values[slotIdx] = 0`
  get_value : (slot : ℕ) (key : Ptr) → Pc  -- before `*outVal = values[slotIdx]`

-- The arrays, the threads, and the calls that succeeded, the last one first.
pub record System : Type 0 where
  pub mem : Dict
  pub pc : ℕ → Pc
  pub log : List Event

abbrev pub update : (ℕ → Pc) → ℕ → Pc → ℕ → Pc
update pc i p j = if j == i then p else pc j

-- A step of addToList() or getValueFromList(). Callers add addresses, never null or (T_KEY)-1.
pub data Move (d : Dict) (log : List Event) : Pc → Dict → Pc → List Event → Type 0 where
  reserve :
      {slot : ℕ} {d' : Dict} (key val : Ptr)
      → IsKey key
      → get_free_slot d ≡ some (slot, d')
      → Move d log idle d' (put_key slot key val) log
  full : get_free_slot d ≡ none → Move d log idle d idle log
  write_key :
      {slot : ℕ} {key val : Ptr}
      → Move d log
          (put_key slot key val)
          (record d { keys = set d.keys slot key })
          (put_value slot key val)
          log
  write_value :
      {slot : ℕ} {key val : Ptr}
      → Move d log
          (put_value slot key val)
          (record d { values = set d.values slot val })
          idle
          (added key val ∷ log)
  find :
      {slot : ℕ} (key : Ptr)
      → find_key key d ≡ some slot
      → Move d log idle d (get_value slot key) log
  find_none : (key : Ptr) → find_key key d ≡ none → Move d log idle d idle log
  read_value :
      {slot : ℕ} {key : Ptr}
      → Move d log (get_value slot key) d idle (looked_up key (get_or d.values slot null) ∷ log)

-- A step of removeFromList().
pub data Removal (d : Dict) (log : List Event) : Pc → Dict → Pc → List Event → Type 0 where
  locate :
      {slot : ℕ} (key : Ptr)
      → find_key key d ≡ some slot
      → Removal d log idle d (clear_key slot key) log
  absent : (key : Ptr) → find_key key d ≡ none → Removal d log idle d idle log
  free_slot :
      {slot : ℕ} {key : Ptr}
      → Removal d log
          (clear_key slot key)
          (record d { keys = set d.keys slot 0 })
          (clear_value slot key)
          log
  zero_value :
      {slot : ℕ} {key : Ptr}
      → Removal d log
          (clear_value slot key)
          (record d { values = set d.values slot 0 })
          idle
          (removed key ∷ log)

-- One step of one thread; `removing` says whether threads call removeFromList().
pub data Step (removing : Bool) (s : System) : System → Type 0 where
  move :
      (i : ℕ) {d : Dict} {p : Pc} {log : List Event}
      → Move s.mem s.log (s.pc i) d p log
      → Step removing s (record { mem = d; pc = update s.pc i p; log = log })
  remove :
      (i : ℕ) {d : Dict} {p : Pc} {log : List Event}
      → removing ≡ true
      → Removal s.mem s.log (s.pc i) d p log
      → Step removing s (record { mem = d; pc = update s.pc i p; log = log })

abbrev pub quiet : Dict → System
quiet d = record { mem = d; pc = λ i. idle; log = [] }

pub data Reach (removing : Bool) (d : Dict) : System → Type 0 where
  start : Reach removing d (quiet d)
  later : {s t : System} → Reach removing d s → Step removing s t → Reach removing d t
