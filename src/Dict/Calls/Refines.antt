-- ===== src/Dict/Calls/Refines.antt =====
-- Sinetek-rtsx/util_dict.h against the map that it stands for.
use sinetek_rtsx.Base.{
  Bool-cases, true, false, ◌≡◌, ◌≢◌, refl, sym, ap, ◌∙◌, inl, inr, Option, none, some, List, [],
  ◌∷◌, arith, Ptr, null, ltb, ◌==◌, if◌then◌else◌, Option-cases, get_or,
}
use sinetek_rtsx.Dict.{Dict, init, index_of, add_to_list, remove_from_list, get_value_from_list}
use sinetek_rtsx.Dict.Valid.{IsValid, init-IsValid, free_slots}
use sinetek_rtsx.Dict.Laws.{
  get_value-add_to_list, get_value-remove_from_list, add_to_list-IsValid, remove_from_list-IsValid,
  add_to_list_total, remove_from_list_total, add_takes, remove_frees,
}
use sinetek_rtsx.Dict.Calls.{
  Call, add, remove, look_up, Answer, call, Map, no_bindings, call_map, Allowed, calls, calls_map,
  AllAllowed,
}

-- The dictionary stands for the map.
record Stands (d : Dict) (m : Map) : Type 0 where
  valid : IsValid d
  room : free_slots d ≡ m.room
  bound : (j : Ptr) → j ≢ null → get_value_from_list j d ≡ m.at j

-- An addition that fails finds no free slot.
add_full : (key val : Ptr) (d : Dict) → key ≢ null → add_to_list key val d ≡ none → free_slots d ≡ 0
add_full key val d nk e = elim (Bool-cases (ltb 0 (free_slots d))) [
  | inl h ↦ let (d', f, g) = (add_to_list_total key val d nk).0 (ground arith) in cc (e, f)
  | inr h ↦ ground arith
]

-- A removal of a key that is not bound fails.
remove_absent :
    (key : Ptr) (d : Dict) → get_value_from_list key d ≡ none → remove_from_list key d ≡ none
unfolding remove_from_list get_value_from_list
remove_absent key d e = elim (Option-cases (index_of key d.keys)) [
  | inl f ↦ rw (f, remove_from_list)
  | inr (i, f) ↦
      let g : some (get_or d.values i null) ≡ none = rw (f, get_value_from_list) at e in cc g
]

abbrev Agree : Answer × Dict → Answer × Map → Type 0
Agree x y = (x.0 ≡ y.0) × Stands x.1 y.1

call-Agree :
    (c : Call) (d : Dict) (m : Map) → Allowed c m → Stands d m → Agree (call c d) (call_map c m)
unfolding call call_map
call-Agree (add key val) d m ok r =
    let absent = r.bound key ok.0.0 ∙ ok.1 in
    elim (Option-cases (add_to_list key val d)) [
      | inl e ↦
          let no_room : ltb 0 m.room ≡ false =
            ground (arith, r.room, add_full key val d ok.0.0 e) in
          rw (e, call, call_map, no_room) (refl, r)
      | inr (d', e) ↦
          let took = add_takes key val d d' ok.0.0 e in
          let some_room : ltb 0 m.room ≡ true = ground (arith, r.room) in
          rw (e, call, call_map, some_room)
            (
              refl,
              record {
                valid = add_to_list-IsValid key val d d' ok.0 r.valid absent e;
                room = omega (arith, r.room);
                bound = λ j nj.
                    get_value-add_to_list key val d d' j r.valid absent e ok.0.0 nj
                    ∙ ap (λ (z : Option Ptr). if key == j then some val else z) (r.bound j nj);
              },
            )
    ]
call-Agree (remove key) d m ok r = elim (Option-cases (get_value_from_list key d)) [
  | inl e ↦ rw (remove_absent key d e, call, call_map, sym (r.bound key ok) ∙ e) (refl, r)
  | inr (v, e) ↦
      let (d', f) = remove_from_list_total key d v e in
      rw (f, call, call_map, sym (r.bound key ok) ∙ e)
        (
          refl,
          record {
            valid = remove_from_list-IsValid key d d' r.valid f;
            room = omega (arith, r.room, remove_frees key d d' ok f);
            bound = λ j nj.
                get_value-remove_from_list key d d' j r.valid f ok nj
                ∙ ap (λ (z : Option Ptr). if key == j then none else z) (r.bound j nj);
          },
        )
]
call-Agree (look_up key) d m ok r = elim (Option-cases (m.at key)) [
  | inl e ↦ rw (r.bound key ok, call, call_map, e) (refl, r)
  | inr (v, e) ↦ rw (r.bound key ok, call, call_map, e) (refl, r)
]

calls-Stands :
    (cs : List Call) (d : Dict) (m : Map)
    → AllAllowed cs m
    → Stands d m
    → calls cs d ≡ calls_map cs m
calls-Stands [] d m ok r = refl
calls-Stands (c ∷ cs) d m ok r =
    let (same, next) = call-Agree c d m ok.0 r in
    rw (same, calls-Stands cs (call c d).1 (call_map c m).1 ok.1 next)

init-Stands : Stands init no_bindings
unfolding init get_value_from_list index_of
init-Stands = record { valid = init-IsValid; room = refl; bound = λ j nz. ground arith }

-- A sequence of calls on the new dictionary, each of which adds a key that is neither null nor
-- (T_KEY)-1 and is not bound, removes a key that is not null or looks one up, gives the same
-- answers as on a map that takes ten bindings: additions fail if and only if it is full, removals
-- and look-ups if and only if the key is not bound.
pub dict_refines :
    (cs : List Call) → AllAllowed cs no_bindings → calls cs init ≡ calls_map cs no_bindings
dict_refines cs ok = calls-Stands cs init no_bindings ok init-Stands
