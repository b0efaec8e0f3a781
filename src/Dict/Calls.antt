-- ===== src/Dict/Calls.antt =====
-- Sinetek-rtsx/util_dict.h: sequences of calls, beside a map of at most ten bindings.
pub mod Refines
pub mod Keeps
use sinetek_rtsx.Base.{
  ℕ, ◌+◌, ◌-◌, ◌≡◌, ◌≢◌, Option, none, some, List, [], ◌∷◌, Ptr, null, ltb, ◌==◌, if◌then◌else◌,
}
use sinetek_rtsx.Dict.{Dict, array_size, add_to_list, remove_from_list, get_value_from_list}
use sinetek_rtsx.Dict.Valid.{IsKey}

pub data Call : Type 0 where
  add : (key val : Ptr) → Call
  remove : (key : Ptr) → Call
  look_up : (key : Ptr) → Call

-- 0, a code that is not 0, and 0 with a value.
pub data Answer : Type 0 where
  done : Answer
  failed : Answer
  value : (val : Ptr) → Answer

-- A call that fails leaves the arrays as they were.
unfoldable pub call : Call → Dict → Answer × Dict
call (add key val) d = elim (add_to_list key val d) [ none ↦ (failed, d) | some d' ↦ (done, d') ]
call (remove key) d = elim (remove_from_list key d) [ none ↦ (failed, d) | some d' ↦ (done, d') ]
call (look_up key) d = elim (get_value_from_list key d) [
  | none ↦ (failed, d)
  | some v ↦ (value v, d)
]

-- The map that the dictionary stands for: what is bound, and how many bindings more it can take.
pub record Map : Type 0 where
  pub room : ℕ
  pub at : Ptr → Option Ptr

abbrev pub no_bindings : Map
no_bindings = record { room = array_size; at = λ k. none }

abbrev pub bind : Ptr → Option Ptr → Map → Ptr → Option Ptr
bind key v m j = if key == j then v else m.at j

-- The same calls on the map.
unfoldable pub call_map : Call → Map → Answer × Map
call_map (add key val) m =
    if ltb 0 m.room
    then (done, record { room = m.room - 1; at = bind key (some val) m })
    else (failed, m)
call_map (remove key) m = elim (m.at key) [
  | none ↦ (failed, m)
  | some v ↦ (done, record { room = m.room + 1; at = bind key none m })
]
call_map (look_up key) m = elim (m.at key) [ none ↦ (failed, m) | some v ↦ (value v, m) ]

-- Callers add a key that is neither null nor (T_KEY)-1 and is not bound, and ask for no null key.
abbrev pub Allowed : Call → Map → Type 0
Allowed (add key val) m = IsKey key × (m.at key ≡ none)
Allowed (remove key) m = key ≢ null
Allowed (look_up key) m = key ≢ null

-- The answers of one call after another.
abbrev pub calls : List Call → Dict → List Answer
calls [] d = []
calls (c ∷ cs) d = (call c d).0 ∷ calls cs (call c d).1

abbrev pub calls_map : List Call → Map → List Answer
calls_map [] m = []
calls_map (c ∷ cs) m = (call_map c m).0 ∷ calls_map cs (call_map c m).1

abbrev pub AllAllowed : List Call → Map → Type 0
AllAllowed [] m = Unit
AllAllowed (c ∷ cs) m = Allowed c m × AllAllowed cs (call_map c m).1
