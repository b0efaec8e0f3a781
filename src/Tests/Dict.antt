-- ===== src/Tests/Dict.antt =====
-- util_dict.h at the empty dictionary, at one entry, and at ten.
use sinetek_rtsx.Base.{List, ◌≡◌, refl, some, [], ◌∷◌, arith, replicate}
use sinetek_rtsx.Dict.{Dict, init, array_size, add_to_list, get_value_from_list}
use sinetek_rtsx.Dict.Valid.{IsValid, init-IsValid, get_or-replicate}
use sinetek_rtsx.Dict.Calls.{Call, add, remove, look_up, done, failed, value, call, call_map, calls}
use sinetek_rtsx.Dict.Calls.Keeps.{call-IsValid}
use sinetek_rtsx.Dict.Calls.Refines.{dict_refines}
use sinetek_rtsx.Dict.Laws.{add_to_list-IsValid}

-- One buffer at 4096, with its segments at 2.
abbrev pub one : Dict
one = record { keys = 4096 ∷ replicate 9 0; values = 2 ∷ replicate 9 0 }

added : add_to_list 4096 2 init ≡ some one
unfolding add_to_list init
added = refl

pub one-IsValid : IsValid one
unfolding get_value_from_list init
one-IsValid = add_to_list-IsValid 4096 2 init one (omega arith, omega arith) init-IsValid refl added

abbrev pub full : Dict
full = record {
  keys = 1 ∷ 2 ∷ 3 ∷ 4 ∷ 5 ∷ 6 ∷ 7 ∷ 8 ∷ 9 ∷ 10 ∷ [];
  values = replicate array_size 0;
}

pub full-IsValid : IsValid full
full-IsValid = record {
  keys_size = refl;
  values_size = refl;
  distinct = λ k nz. ground arith;
  settled = refl;
  cleared = λ i e. get_or-replicate array_size i;
}

-- Two buffers, of which the first is taken out again.
abbrev two_buffers : List Call
two_buffers =
    add 4096 2 ∷ look_up 4096 ∷ add 8192 3 ∷ remove 4096 ∷ look_up 4096 ∷ look_up 8192 ∷ []

dict_refines_example : calls two_buffers init ≡ done ∷ value 2 ∷ done ∷ done ∷ failed ∷ value 3 ∷ []
unfolding call_map
dict_refines_example = dict_refines two_buffers (
  ((omega arith, omega arith), refl),
  (
    omega arith,
    (((omega arith, omega arith), refl), (omega arith, (omega arith, (omega arith, tt)))),
  ),
)

call-IsValid_example : IsValid (call (remove 4096) (call (add 4096 2) init).1).1
unfolding get_value_from_list init
call-IsValid_example =
    call-IsValid (remove 4096) (call (add 4096 2) init).1 tt
      (call-IsValid (add 4096 2) init ((omega arith, omega arith), refl) init-IsValid)
