-- ===== src/Dict/Race/Bound.antt =====
-- What threads that add to the dictionary of Sinetek-rtsx/util_dict.h, without removals, have bound in
-- it, and what look-ups give meanwhile.
pub mod Moves
pub mod Kept
use sinetek_rtsx.Base.{
  false, ◌∙◌, ℕ, zero, suc, ◌<◌, ◌≡◌, ◌≢◌, refl, sym, ap, ◌∙◌, subst, ◌⊎◌, Bool, Bool-cases,
  eq_of_==, ne_of_==, inl, inr, false, Option, none, some, List, [], ◌∷◌, arith, Ptr, null, ◌==◌,
  length, get_or, set, get_or-set_self, get_or-set_ne, length-set, if◌then◌else◌,
}
use sinetek_rtsx.Dict.{Dict, find_key, get_free_slot, reserved}
use sinetek_rtsx.Dict.Slots.{count, get_or-index_of}
use sinetek_rtsx.Dict.Valid.{IsKey, IsValid}
use sinetek_rtsx.Dict.Race.{
  update, Event, Pc, System, update, Move, Reach, idle, put_key, put_value, clear_key, clear_value,
  get_value, reserve, full, write_key, write_value, find, find_none, read_value, move, remove,
  start, later, added, removed, looked_up,
}
use sinetek_rtsx.Dict.Race.Filling.{filling, Inv, Reach-Inv, free_slot_lem}

-- Keys that mark slots.
abbrev pub Marks : Ptr → Type 0
Marks key = (key ≡ 0) ⊎ (key ≡ reserved)

-- What a thread knows of its slot.
abbrev pub Local : Dict → Pc → Type 0
Local d (put_key slot key val) =
    (get_or d.keys slot 0 ≡ reserved) × (get_or d.values slot null ≡ null) × IsKey key
Local d (put_value slot key val) =
    (get_or d.keys slot 0 ≡ key) × (get_or d.values slot null ≡ null) × IsKey key
Local d (get_value slot key) = Marks key ⊎ (get_or d.keys slot 0 ≡ key)
Local d _ = Unit

-- A slot that no thread fills.
abbrev pub Settled : (ℕ → Pc) → ℕ → Type 0
Settled pc x = (j : ℕ) → filling (pc j) ≢ some x

-- A slot holds the key and the value, and is settled.
abbrev pub Binds : Dict → (ℕ → Pc) → Ptr → Ptr → Type 0
Binds d pc key val =
    (x : ℕ) × (get_or d.keys x 0 ≡ key) × (get_or d.values x null ≡ val) × IsKey key × Settled pc x

abbrev pub Backed : Dict → (ℕ → Pc) → Event → Type 0
Backed d pc (added key val) = Binds d pc key val
Backed d pc (looked_up key val) = Marks key ⊎ (val ≡ null) ⊎ Binds d pc key val
Backed d pc (removed key) = ⊥

abbrev pub AllBacked : Dict → (ℕ → Pc) → List Event → Type 0
AllBacked d pc [] = Unit
AllBacked d pc (e ∷ log) = Backed d pc e × AllBacked d pc log

-- A slot that was in use at the start, when the dictionary was `d0`, is as it was.
abbrev pub Old : Dict → Dict → (ℕ → Pc) → ℕ → Type 0
Old d0 d pc x =
    (get_or d0.keys x 0 ≡ 0)
    ⊎ (get_or d.keys x 0 ≡ get_or d0.keys x 0)
      × (get_or d.values x null ≡ get_or d0.values x null)
      × IsKey (get_or d.keys x 0)
      × Settled pc x

pub record Bound (d0 d : Dict) (pc : ℕ → Pc) (log : List Event) : Type 0 where
  pub size : length d.keys ≡ length d.values
  pub local : (i : ℕ) → Local d (pc i)
  pub free : (x : ℕ) → get_or d.keys x 0 ≡ 0 → get_or d.values x null ≡ null
  pub backed : AllBacked d pc log
  pub old : (x : ℕ) → Old d0 d pc x

-- Another slot than `y` is as it was.
abbrev pub Elsewhere : Dict → Dict → ℕ → Type 0
Elsewhere d d' y =
    (x : ℕ)
    → x ≢ y
    → (get_or d'.keys x 0 ≡ get_or d.keys x 0) × (get_or d'.values x null ≡ get_or d.values x null)

pub set_keys-Elsewhere : (d : Dict) (y k : ℕ) → Elsewhere d (record d { keys = set d.keys y k }) y
set_keys-Elsewhere d y k x n = (get_or-set_ne d.keys y x k 0 (λ e. n (sym e)), refl)

pub set_values-Elsewhere :
    (d : Dict) (y v : ℕ) → Elsewhere d (record d { values = set d.values y v }) y
set_values-Elsewhere d y v x n = (refl, get_or-set_ne d.values y x v null (λ e. n (sym e)))

-- What a write to the slot `y`, which marks it or keeps its key, leaves to another thread.
pub Local-other :
    (d d' : Dict) (y : ℕ) (q : Pc)
    → Elsewhere d d' y
    → Marks (get_or d.keys y 0) ⊎ (get_or d'.keys y 0 ≡ get_or d.keys y 0)
    → filling q ≢ some y
    → Local d q
    → Local d' q
Local-other d d' y (put_key slot key val) same stable n h =
    ground (arith, same slot (λ e. n (ap some e)))
Local-other d d' y (put_value slot key val) same stable n h =
    ground (arith, same slot (λ e. n (ap some e)))
Local-other d d' y (get_value slot key) same stable n h = elim (Bool-cases (slot == y)) [
  | inl e ↦ ground (arith, eq_of_== slot y e)
  | inr e ↦ ground (arith, same slot (λ f. ground arith))
]
Local-other d d' y idle same stable n h = tt
Local-other d d' y (clear_key slot key) same stable n h = tt
Local-other d d' y (clear_value slot key) same stable n h = tt

-- A slot that a thread fills is not free.
pub Local-filling :
    (d : Dict) (q : Pc) (y : ℕ) → Local d q → filling q ≡ some y → get_or d.keys y 0 ≢ 0
Local-filling d (put_key slot key val) y h e = ground arith
Local-filling d (put_value slot key val) y h e = ground arith
Local-filling d (get_value slot key) y h e = ground arith
Local-filling d idle y h e = ground arith
Local-filling d (clear_key slot key) y h e = ground arith
Local-filling d (clear_value slot key) y h e = ground arith

-- Its value is null as yet.
pub Local-null :
    (d : Dict) (q : Pc) (y : ℕ) → Local d q → filling q ≡ some y → get_or d.values y null ≡ null
Local-null d (put_key slot key val) y h e = ground arith
Local-null d (put_value slot key val) y h e = ground arith
Local-null d (get_value slot key) y h e = ground arith
Local-null d idle y h e = ground arith
Local-null d (clear_key slot key) y h e = ground arith
Local-null d (clear_value slot key) y h e = ground arith

pub find_key_lem :
    (key : Ptr) (d : Dict) (slot : ℕ) → find_key key d ≡ some slot → get_or d.keys slot 0 ≡ key
unfolding find_key
find_key_lem key d slot e = get_or-index_of key d.keys slot 0 e

pub Marks-cases : (key : Ptr) → Marks key ⊎ IsKey key
Marks-cases key = elim (Bool-cases (key == 0)) [
  | inl z ↦ inl (inl (ground arith))
  | inr nz ↦ elim (Bool-cases (key == reserved)) [
    | inl m ↦ inl (inr (eq_of_== key reserved m))
    | inr nm ↦ inr (ne_of_== key 0 nz, ne_of_== key reserved nm)
  ]
]

-- A step of thread `i` to `p'` that leaves the slots that bind a key as they are.
module _ (d d' : Dict) (pc : ℕ → Pc) (i : ℕ) (p' : Pc)
    (kept : (x : ℕ)
      → IsKey (get_or d.keys x 0)
      → Settled pc x
      → (get_or d'.keys x 0 ≡ get_or d.keys x 0)
        × (get_or d'.values x null ≡ get_or d.values x null)
        × (filling p' ≢ some x)) where
  pub Settled-update : (x : ℕ) → filling p' ≢ some x → Settled pc x → Settled (update pc i p') x
  Settled-update x n settled j e = elim (Bool-cases (j == i)) [
    | inl same ↦ n (rw same at e)
    | inr other ↦ settled j (rw other at e)
  ]

  Binds-kept : (key val : Ptr) → Binds d pc key val → Binds d' (update pc i p') key val
  Binds-kept key val (x, k, v, isk, settled) =
      let (sk, sv, n) = kept x (ground (arith, isk)) settled in
      (x, sk ∙ k, sv ∙ v, isk, Settled-update x n settled)

  Backed-kept : (e : Event) → Backed d pc e → Backed d' (update pc i p') e
  Backed-kept (added key val) b = Binds-kept key val b
  Backed-kept (removed key) b = b
  Backed-kept (looked_up key val) (inl m) = inl m
  Backed-kept (looked_up key val) (inr (inl z)) = inr (inl z)
  Backed-kept (looked_up key val) (inr (inr b)) = inr (inr (Binds-kept key val b))

  pub Old-kept : (d0 : Dict) (x : ℕ) → Old d0 d pc x → Old d0 d' (update pc i p') x
  Old-kept d0 x (inl was_free) = inl was_free
  Old-kept d0 x (inr (k, v, isk, settled)) =
      let (sk, sv, n) = kept x isk settled in
      inr (sk ∙ k, sv ∙ v, ground (arith, isk), Settled-update x n settled)

  pub AllBacked-kept : (log : List Event) → AllBacked d pc log → AllBacked d' (update pc i p') log
  AllBacked-kept [] b = tt
  AllBacked-kept (e ∷ log) b = (Backed-kept e b.0, AllBacked-kept log b.1)
