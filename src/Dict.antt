-- ===== src/Dict.antt =====
-- Sinetek-rtsx/util_dict.h: a dictionary in two arrays of a fixed size. Keys and values are pointers.
-- A slot is free when its key is 0; (T_KEY)-1 marks a slot that is being filled.
pub mod Slots
pub mod Valid
pub mod Laws
pub mod Calls
pub mod Race
use sinetek_rtsx.Base.{
  ℕ, suc, ◌-◌, ◌^◌, Option, none, some, List, [], ◌∷◌, Ptr, null, ◌==◌, if◌then◌else◌, get_or, set,
  replicate,
}

pub record Dict : Type 0 where
  pub keys : List Ptr
  pub values : List Ptr

abbrev pub array_size : ℕ
array_size = 10

-- (T_KEY)-1
abbrev pub reserved : Ptr
reserved = 2 ^ 64 - 1

unfoldable pub init : Dict
init = record { keys = replicate array_size 0; values = replicate array_size 0 }

-- The loops over the key array: the first index at which `key` stands.
unfoldable pub index_of : Ptr → List Ptr → Option ℕ
index_of key [] = none
index_of key (k ∷ ks) =
    if k == key then some 0 else elim (index_of key ks) [ none ↦ none | some i ↦ some (suc i) ]

-- `none` is -1.
unfoldable pub get_free_slot : Dict → Option (ℕ × Dict)
unfolding index_of
get_free_slot d = elim (index_of 0 d.keys) [
  | none ↦ none
  | some i ↦ some (i, record d { keys = set d.keys i reserved })
]

unfoldable pub find_key : Ptr → Dict → Option ℕ
unfolding index_of
find_key key d = index_of key d.keys

unfoldable pub add_to_list : Ptr → Ptr → Dict → Option Dict
unfolding get_free_slot
add_to_list key val d = elim (get_free_slot d) [
  | none ↦ none
  | some (i, d') ↦ some (record { keys = set d'.keys i key; values = set d'.values i val })
]

unfoldable pub remove_from_list : Ptr → Dict → Option Dict
unfolding find_key
remove_from_list key d = elim (find_key key d) [
  | none ↦ none
  | some i ↦ some (record { keys = set d.keys i 0; values = set d.values i 0 })
]

unfoldable pub get_value_from_list : Ptr → Dict → Option Ptr
unfolding find_key
get_value_from_list key d = elim (find_key key d) [
  | none ↦ none
  | some i ↦ some (get_or d.values i null)
]
