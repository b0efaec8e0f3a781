-- ===== src/Dict/Race/Filling.antt =====
-- Threads that add to and look up in the dictionary of Sinetek-rtsx/util_dict.h, without removals.
use sinetek_rtsx.Base.{
  ℕ, zero, suc, ◌<◌, ◌≡◌, ◌≢◌, refl, sym, ap, ◌∙◌, subst, ◌⊎◌, Bool-cases, eq_of_==, inl, inr,
  false, Option, none, some, List, [], ◌∷◌, arith, Ptr, ◌==◌, length, get_or, set, get_or-set_self,
  Option-cases,
}
use sinetek_rtsx.Dict.{Dict, get_free_slot, index_of, reserved}
use sinetek_rtsx.Dict.Slots.{index_of-lt, get_or-index_of}
use sinetek_rtsx.Dict.Race.{
  Event, Pc, System, update, Move, Reach, idle, put_key, put_value, clear_key, clear_value,
  get_value, reserve, full, write_key, write_value, find, find_none, read_value, move, remove,
  start, later,
}

-- The slot that a thread is filling.
abbrev pub filling : Pc → Option ℕ
filling (put_key slot key val) = some slot
filling (put_value slot key val) = some slot
filling _ = none

-- What the locals of a thread say about the key array.
abbrev Holds : Dict → Pc → Type 0
Holds d (put_key slot key val) = (get_or d.keys slot 0 ≢ 0) × (key ≢ 0)
Holds d (put_value slot key val) = get_or d.keys slot 0 ≢ 0
Holds d _ = Unit

pub record Inv (d : Dict) (pc : ℕ → Pc) : Type 0 where
  pub holds : (i : ℕ) → Holds d (pc i)
  pub apart : (i j slot : ℕ) → filling (pc i) ≡ some slot → filling (pc j) ≡ some slot → i ≡ j

pub lt_of_get_or : (ks : List Ptr) (i : ℕ) → get_or ks i 0 ≢ 0 → i < length ks
lt_of_get_or [] i h = absurd (h refl)
lt_of_get_or (k ∷ ks) zero h = omega arith
lt_of_get_or (k ∷ ks) (suc i) h = omega (arith, lt_of_get_or ks i h)

-- getFreeSlot() takes a slot that was free, and marks it.
pub free_slot_lem :
    (d d' : Dict) (slot : ℕ)
    → get_free_slot d ≡ some (slot, d')
    → (get_or d.keys slot 0 ≡ 0)
      × (d' ≡ record d { keys = set d.keys slot reserved })
      × (slot < length d.keys)
unfolding get_free_slot
free_slot_lem d d' slot e = elim (Option-cases (index_of 0 d.keys)) [
  | inl f ↦ absurd (ground arith)
  | inr (i, f) ↦
      let at = get_or-index_of 0 d.keys i 0 f in let lt = index_of-lt 0 d.keys i f in ground arith
]

-- A write of a key leaves used slots used.
get_or-set_used :
    (ks : List Ptr) (i j k : ℕ) → k ≢ 0 → get_or ks j 0 ≢ 0 → get_or (set ks i k) j 0 ≢ 0
get_or-set_used [] i j k nz h = h
get_or-set_used (x ∷ ks) zero zero k nz h = nz
get_or-set_used (x ∷ ks) zero (suc j) k nz h = h
get_or-set_used (x ∷ ks) (suc i) zero k nz h = h
get_or-set_used (x ∷ ks) (suc i) (suc j) k nz h = get_or-set_used ks i j k nz h

set-Holds :
    (d : Dict) (slot k : ℕ) (p : Pc)
    → k ≢ 0
    → Holds d p
    → Holds (record d { keys = set d.keys slot k }) p
set-Holds d slot k (put_key i key val) nz h = (get_or-set_used d.keys slot i k nz h.0, h.1)
set-Holds d slot k (put_value i key val) nz h = get_or-set_used d.keys slot i k nz h
set-Holds d slot k idle nz h = tt
set-Holds d slot k (clear_key i key) nz h = tt
set-Holds d slot k (clear_value i key) nz h = tt
set-Holds d slot k (get_value i key) nz h = tt

-- The values are not what a thread holds on.
values-Holds :
    (d : Dict) (values : List Ptr) (p : Pc) → Holds d p → Holds (record d { values = values }) p
values-Holds d values (put_key i key val) h = h
values-Holds d values (put_value i key val) h = h
values-Holds d values idle h = tt
values-Holds d values (clear_key i key) h = tt
values-Holds d values (clear_value i key) h = tt
values-Holds d values (get_value i key) h = tt

-- A thread that fills a slot has that slot in use.
filling_used :
    (d : Dict) (p : Pc) (slot : ℕ) → Holds d p → filling p ≡ some slot → get_or d.keys slot 0 ≢ 0
filling_used d (put_key i key val) slot h e = ground (arith, h.0)
filling_used d (put_value i key val) slot h e = ground (arith, h)
filling_used d idle slot h e = ground arith
filling_used d (clear_key i key) slot h e = ground arith
filling_used d (clear_value i key) slot h e = ground arith
filling_used d (get_value i key) slot h e = ground arith

module _ {d : Dict} {log : List Event} {pc : ℕ → Pc} (inv : Inv d pc) (i : ℕ) where
  -- What thread `i` goes to, and what a move does for the others.
  Move-Holds :
      {p p' : Pc} {d' : Dict} {log' : List Event}
      → Move d log p d' p' log'
      → pc i ≡ p
      → Holds d' p' × ((q : Pc) → Holds d q → Holds d' q)
  Move-Holds (reserve {slot} {d'} key val isk e) here =
      let (free, made, lt) = free_slot_lem d d' slot e in
      let marked : get_or (set d.keys slot reserved) slot 0 ≡ reserved =
        get_or-set_self d.keys slot reserved 0 lt in
      subst (λ x. Holds x (put_key slot key val) × ((q : Pc) → Holds d q → Holds x q)) (sym made)
        ((λ z. omega (arith, z, marked), isk.0), λ q h. set-Holds d slot reserved q (omega arith) h)
  Move-Holds (full e) here = (tt, λ q h. h)
  Move-Holds (write_key {slot} {key} {val}) here =
      let mine : Holds d (put_key slot key val) = subst (Holds d) here (inv.holds i) in
      (get_or-set_used d.keys slot slot key mine.1 mine.0, λ q h. set-Holds d slot key q mine.1 h)
  Move-Holds (write_value {slot} {key} {val}) here =
      (tt, λ q h. values-Holds d (set d.values slot val) q h)
  Move-Holds (find key e) here = (tt, λ q h. h)
  Move-Holds (find_none key e) here = (tt, λ q h. h)
  Move-Holds read_value here = (tt, λ q h. h)

  -- A slot that a thread fills after a move, it filled before, or the slot was free.
  Move-filling :
      {p p' : Pc} {d' : Dict} {log' : List Event} (slot : ℕ)
      → Move d log p d' p' log'
      → filling p' ≡ some slot
      → (filling p ≡ some slot) ⊎ (get_or d.keys slot 0 ≡ 0)
  Move-filling slot (reserve {slot = free} {d' = d'} key val isk e) f =
      inr (ground (arith, (free_slot_lem d d' free e).0))
  Move-filling slot (full e) f = absurd (ground arith)
  Move-filling slot write_key f = inl f
  Move-filling slot write_value f = absurd (ground arith)
  Move-filling slot (find key e) f = absurd (ground arith)
  Move-filling slot (find_none key e) f = absurd (ground arith)
  Move-filling slot read_value f = absurd (ground arith)

  -- No other thread fills the slot that thread `i` fills after its move.
  apart_from :
      {p p' : Pc} {d' : Dict} {log' : List Event} (j slot : ℕ)
      → Move d log p d' p' log'
      → pc i ≡ p
      → filling p' ≡ some slot
      → filling (pc j) ≡ some slot
      → i ≡ j
  apart_from j slot mv here f g = elim (Move-filling slot mv f) [
    | inl before ↦ inv.apart i j slot (ap filling here ∙ before) g
    | inr free ↦ absurd (filling_used d (pc j) slot (inv.holds j) g free)
  ]

  Move-Inv :
      {p p' : Pc} {d' : Dict} {log' : List Event}
      → Move d log p d' p' log'
      → pc i ≡ p
      → Inv d' (update pc i p')
  Move-Inv {p} {p'} mv here = record {
    holds = λ j. elim (Bool-cases (j == i)) [
      | inl e ↦ rw e (Move-Holds mv here).0
      | inr e ↦ rw e ((Move-Holds mv here).1 (pc j) (inv.holds j))
    ];
    apart = λ a b slot f g. elim (Bool-cases (a == i)) [
      | inl ea ↦ elim (Bool-cases (b == i)) [
        | inl eb ↦ eq_of_== a i ea ∙ sym (eq_of_== b i eb)
        | inr eb ↦ eq_of_== a i ea ∙ apart_from b slot mv here (rw ea at f) (rw eb at g)
      ]
      | inr ea ↦ elim (Bool-cases (b == i)) [
        | inl eb ↦ sym (eq_of_== b i eb ∙ apart_from a slot mv here (rw eb at g) (rw ea at f))
        | inr eb ↦ inv.apart a b slot (rw ea at f) (rw eb at g)
      ]
    ];
  }

pub Reach-Inv : {d : Dict} {s : System} → Reach false d s → Inv s.mem s.pc
Reach-Inv start = record { holds = λ i. tt; apart = λ i j slot f g. absurd (ground arith) }
Reach-Inv (later r (move i mv)) = Move-Inv (Reach-Inv r) i mv refl
Reach-Inv (later r (remove i yes_removing mv)) = absurd (ground arith)

-- However additions and look-ups of any number of threads interleave, two threads never fill the
-- same slot, and the slot that a thread fills is not free.
pub filling_apart :
    (d : Dict) (s : System)
    → Reach false d s
    → (i j slot : ℕ) → filling (s.pc i) ≡ some slot
    → filling (s.pc j) ≡ some slot
    → (i ≡ j) × (get_or s.mem.keys slot 0 ≢ 0)
filling_apart d s r i j slot f g =
    let inv = Reach-Inv r in
    (inv.apart i j slot f g, filling_used s.mem (s.pc i) slot (inv.holds i) f)
