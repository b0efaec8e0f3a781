-- ===== src/Dict/Slots.antt =====
-- The key array of Sinetek-rtsx/util_dict.h: searching it and counting in it.
use sinetek_rtsx.Base.{
  ℕ, zero, suc, ◌+◌, ◌<◌, ◌≡◌, refl, ◌≢◌, inl, inr, none, some, List, [], ◌∷◌, arith, Ptr, ◌==◌,
  if◌then◌else◌, length, get_or, set, Option-cases,
}
use sinetek_rtsx.Dict.{index_of}

-- How often a key stands in the array.
abbrev pub count : Ptr → List Ptr → ℕ
count k [] = 0
count k (x ∷ xs) = (if x == k then 1 else 0) + count k xs

pub index_of-lt : (k : Ptr) (ks : List Ptr) (i : ℕ) → index_of k ks ≡ some i → i < length ks
unfolding index_of
index_of-lt k [] i h = ground arith
index_of-lt k (x ∷ xs) i h = elim (Option-cases (index_of k xs)) [
  | inl e ↦ ground (arith, e)
  | inr (j, e) ↦ ground (arith, e, index_of-lt k xs j e)
]

pub get_or-index_of :
    (k : Ptr) (ks : List Ptr) (i d : ℕ) → index_of k ks ≡ some i → get_or ks i d ≡ k
unfolding index_of
get_or-index_of k [] i d h = ground arith
get_or-index_of k (x ∷ xs) zero d h = ground arith
get_or-index_of k (x ∷ xs) (suc i) d h = ground (arith, get_or-index_of k xs i d)

pub count_of_none : (k : Ptr) (ks : List Ptr) → index_of k ks ≡ none → count k ks ≡ 0
unfolding index_of
count_of_none k [] h = refl
count_of_none k (x ∷ xs) h = ground (arith, count_of_none k xs)

pub none_of_count : (k : Ptr) (ks : List Ptr) → count k ks ≡ 0 → index_of k ks ≡ none
unfolding index_of
none_of_count k [] h = refl
none_of_count k (x ∷ xs) h = ground (arith, none_of_count k xs)

-- A write moves one unit of count from the old key of the slot to the new one.
pub count-set :
    (k : Ptr) (ks : List Ptr) (i v : ℕ)
    → i < length ks
    → count k (set ks i v) + (if get_or ks i 0 == k then 1 else 0)
      ≡ count k ks + (if v == k then 1 else 0)
count-set k [] i v h = absurd (omega arith)
count-set k (x ∷ xs) zero v h = omega arith
count-set k (x ∷ xs) (suc i) v h = omega (arith, count-set k xs i v (omega arith))

pub index_of-set_self :
    (k : Ptr) (ks : List Ptr) (i : ℕ)
    → i < length ks
    → count k ks ≡ 0
    → index_of k (set ks i k) ≡ some i
unfolding index_of
index_of-set_self k [] i h c = absurd (omega arith)
index_of-set_self k (x ∷ xs) zero h c = ground arith
index_of-set_self k (x ∷ xs) (suc i) h c = ground (arith, index_of-set_self k xs i (omega arith))

pub index_of-set_ne :
    (k : Ptr) (ks : List Ptr) (i v : ℕ)
    → get_or ks i 0 ≢ k
    → v ≢ k
    → index_of k (set ks i v) ≡ index_of k ks
unfolding index_of
index_of-set_ne k [] i v h n = refl
index_of-set_ne k (x ∷ xs) zero v h n = ground arith
index_of-set_ne k (x ∷ xs) (suc i) v h n = ground (arith, index_of-set_ne k xs i v h n)
