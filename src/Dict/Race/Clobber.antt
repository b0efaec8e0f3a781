-- ===== src/Dict/Race/Clobber.antt =====
-- removeFromList() of Sinetek-rtsx/util_dict.h that overlaps an addToList() in another thread.
use sinetek_rtsx.Base.{
  ℕ, ◌<◌, ◌≡◌, refl, sym, ap, ◌∙◌, subst, true, none, some, [], ◌∷◌, arith, Ptr, null, set,
  get_or-set_self, set-set, length-set,
}
use sinetek_rtsx.Dict.{Dict, get_free_slot, find_key, index_of, reserved, get_value_from_list}
use sinetek_rtsx.Dict.Slots.{index_of-lt, index_of-set_self, count_of_none}
use sinetek_rtsx.Dict.Valid.{IsKey, IsValid, lt_size}
use sinetek_rtsx.Dict.Race.{
  Pc, System, update, Reach, idle, reserve, write_key, write_value, locate, free_slot, zero_value,
  move, remove, start, later, added, removed,
}

module _ (d : Dict) (valid : IsValid d) (key key' val' : Ptr) (slot : ℕ)
    (bound : find_key key d ≡ some slot) (isk : IsKey key') (fresh : index_of key' d.keys ≡ none)
    (next : index_of 0 (set d.keys slot 0) ≡ some slot) where
  -- The arrays after the key of `slot` is cleared, after it is reserved, and at the end.
  at : index_of key d.keys ≡ some slot
  unfolding find_key
  at = bound

  abbrev cleared_key : Dict
  cleared_key = record d { keys = set d.keys slot 0 }

  abbrev marked : Dict
  marked = record d { keys = set (set d.keys slot 0) slot reserved }

  abbrev keyed : Dict
  keyed = record d { keys = set marked.keys slot key' }

  abbrev ended : Dict
  ended = record { keys = keyed.keys; values = set (set d.values slot val') slot 0 }

  takes : get_free_slot cleared_key ≡ some (slot, marked)
  unfolding get_free_slot
  takes = rw (next, get_free_slot) refl

  abbrev pcs : Pc → Pc → ℕ → Pc
  pcs p q = update (update (λ i. idle) 0 p) 1 q

  runs :
      (s : System) × Reach true d s
      × ((i : ℕ) → s.pc i ≡ idle)
      × (s.log ≡ removed key ∷ added key' val' ∷ [])
      × (s.mem ≡ ended)
  runs = (
    _,
    later
        (later
          (later
            (later
              (later (later start (remove 0 refl (locate key bound))) (remove 0 refl free_slot))
              (move 1 (reserve key' val' isk takes)))
            (move 1 write_key))
          (move 1 write_value))
        (remove 0 refl zero_value),
    λ i. ground arith,
    refl,
    refl,
  )

  lost : get_value_from_list key' ended ≡ some null
  unfolding get_value_from_list
  lost =
      let one_write : keyed.keys ≡ set d.keys slot key' =
        ap (λ x. set x slot key') (set-set d.keys slot 0 reserved)
        ∙ set-set d.keys slot reserved key' in
      let found : index_of key' keyed.keys ≡ some slot =
        ap (index_of key') one_write
        ∙ index_of-set_self key' d.keys slot (index_of-lt key d.keys slot at)
            (count_of_none key' d.keys fresh) in
      rw (found, get_value_from_list)
        (ap some (
          get_or-set_self (set d.values slot val') slot 0 null
            (subst (◌<◌ slot) (sym (length-set d.values slot val')) (lt_size d valid key slot at))))

  -- In a valid dictionary whose first free slot, once a bound key is cleared, is the slot of that
  -- key: a removal of it in one thread and an addition of another key that is not bound yet in a
  -- second thread can interleave so that both succeed, all threads are done, and the added key has
  -- the value null.
  pub removal_clobbers :
      (s : System) × Reach true d s
      × ((i : ℕ) → s.pc i ≡ idle)
      × (s.log ≡ removed key ∷ added key' val' ∷ [])
      × (get_value_from_list key' s.mem ≡ some null)
  removal_clobbers =
      let (s, reach, over, log, mem) = runs in
      (s, reach, over, log, ap (get_value_from_list key') mem ∙ lost)
