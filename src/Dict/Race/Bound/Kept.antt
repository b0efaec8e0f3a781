-- ===== src/Dict/Race/Bound/Kept.antt =====
-- Threads that add to and look up in the dictionary of Sinetek-rtsx/util_dict.h lose no binding.
use sinetek_rtsx.Base.{
  ℕ, zero, suc, ◌<◌, ◌≡◌, ◌≢◌, refl, sym, ap, ◌∙◌, inl, inr, false, List, [], ◌∷◌, arith, Ptr,
  get_or,
}
use sinetek_rtsx.Dict.{Dict}
use sinetek_rtsx.Dict.Slots.{count}
use sinetek_rtsx.Dict.Valid.{IsValid}
use sinetek_rtsx.Dict.Race.{System, Reach, move, remove, start, later}
use sinetek_rtsx.Dict.Race.Filling.{Reach-Inv}
use sinetek_rtsx.Dict.Race.Bound.{AllBacked, Old, Bound, Marks-cases}
use sinetek_rtsx.Dict.Race.Bound.Moves.{Move-Bound}

counted : (k : Ptr) (ks : List Ptr) (i : ℕ) → k ≢ 0 → get_or ks i 0 ≡ k → 0 < count k ks
counted k [] i nz e = absurd (nz (sym e))
counted k (x ∷ ks) zero nz e = ground arith
counted k (x ∷ ks) (suc i) nz e = omega (arith, counted k ks i nz e)

Reach-Bound : (d : Dict) (s : System) → IsValid d → Reach false d s → Bound d s.mem s.pc s.log
Reach-Bound d s valid start = record {
  size = valid.keys_size ∙ sym valid.values_size;
  local = λ i. tt;
  free = valid.cleared;
  backed = tt;
  old = λ x. elim (Marks-cases (get_or d.keys x 0)) [
    | inl (inl z) ↦ inl z
    | inl (inr m) ↦ absurd (
        omega (
          arith,
          counted (get_or d.keys x 0) d.keys x (omega (arith, m)) refl,
          valid.settled,
          ap (λ k. count k d.keys) m,
        ))
    | inr isk ↦ inr (refl, refl, isk, λ j e. ground arith)
  ];
}
Reach-Bound d _ valid (later {s = r} reach (move i mv)) =
    Move-Bound (Reach-Inv reach) (Reach-Bound d r valid reach) i mv refl
Reach-Bound d _ valid (later reach (remove i yes_removing mv)) = absurd (ground arith)

-- However additions and look-ups of any number of threads interleave, from a valid dictionary:
-- every addition that finished has a slot, which no thread fills, with its key and its value; so
-- has every look-up that succeeded, unless its key marks slots or it gave null; a slot that was in
-- use at the start has its key and its value still.
pub bindings_kept :
    (d : Dict) (s : System)
    → IsValid d
    → Reach false d s
    → AllBacked s.mem s.pc s.log × ((x : ℕ) → Old d s.mem s.pc x)
bindings_kept d s valid reach = let bound = Reach-Bound d s valid reach in (bound.backed, bound.old)
