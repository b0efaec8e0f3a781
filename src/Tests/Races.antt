-- ===== src/Tests/Races.antt =====
-- Threads over the static dictionary.
use sinetek_rtsx.Base.{ℕ, ◌≡◌, ◌≢◌, refl, true, false, some, [], ◌∷◌, arith, null, get_or}
use sinetek_rtsx.Dict.{init, find_key, get_free_slot, get_value_from_list}
use sinetek_rtsx.Dict.Race.{
  Pc, System, Reach, idle, reserve, write_key, write_value, find, read_value, move, start, later,
  removed, added, looked_up,
}
use sinetek_rtsx.Dict.Race.Filling.{filling_apart}
use sinetek_rtsx.Dict.Valid.{init-IsValid}
use sinetek_rtsx.Dict.Race.Bound.{AllBacked, Old}
use sinetek_rtsx.Dict.Race.Bound.Kept.{bindings_kept}
use sinetek_rtsx.Dict.Race.Clobber.{removal_clobbers}
use sinetek_rtsx.Tests.Dict.{one, one-IsValid}

-- Thread 3 has written its key to the first slot of the empty dictionary.
one_filling : (s : System) × Reach false init s × (s.pc 3 ≡ Pc.put_value 0 4096 2)
unfolding get_free_slot init
one_filling = (
  _,
  later (later start (move 3 (reserve 4096 2 (omega arith, omega arith) refl))) (move 3 write_key),
  refl,
)

filling_apart_example : ◌≡◌ {A = ℕ} 3 3 × (get_or one_filling.0.mem.keys 0 0 ≢ 0)
unfolding one_filling
filling_apart_example = filling_apart init one_filling.0 one_filling.1 3 3 0 refl refl

-- The only buffer is unmapped while another one is mapped.
removal_clobbers_example :
    (s : System) × Reach true one s
    × ((i : ℕ) → s.pc i ≡ idle)
    × (s.log ≡ removed 4096 ∷ added 8192 6 ∷ [])
    × (get_value_from_list 8192 s.mem ≡ some null)
unfolding find_key
removal_clobbers_example =
    removal_clobbers one one-IsValid 4096 8192 6 0 refl (omega arith, omega arith) refl refl

-- Thread 3 has added its key, and thread 4 has found it.
one_added : (s : System) × Reach false init s × (s.log ≡ looked_up 4096 2 ∷ added 4096 2 ∷ [])
unfolding get_free_slot find_key init
one_added = (
  _,
  later
      (later
        (later
          (later (later start (move 3 (reserve 4096 2 (omega arith, omega arith) refl)))
            (move 3 write_key))
          (move 3 write_value))
        (move 4 (find 4096 refl)))
      (move 4 read_value),
  refl,
)

bindings_kept_example :
    AllBacked one_added.0.mem one_added.0.pc one_added.0.log
    × ((x : ℕ) → Old init one_added.0.mem one_added.0.pc x)
bindings_kept_example = bindings_kept init one_added.0 init-IsValid one_added.1
