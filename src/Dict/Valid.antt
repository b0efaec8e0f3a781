-- ===== src/Dict/Valid.antt =====
-- Sinetek-rtsx/util_dict.h: the dictionary between two calls, and a write to one slot.
use sinetek_rtsx.Base.{
  replicate, zero, suc, refl, ℕ, ◌≤◌, ◌<◌, ◌≡◌, sym, ap, ◌∙◌, ◌≢◌, inl, inr, none, some, arith, Ptr,
  null, ◌==◌, length, get_or, set, length-set, get_or-set_self, get_or-set_ne, set-set,
  Option-cases, Bool-cases, eq_of_==, ne_of_==,
}
use sinetek_rtsx.Dict.{
  Dict, init, array_size, reserved, index_of, add_to_list, remove_from_list, get_value_from_list,
}
use sinetek_rtsx.Dict.Slots.{
  count, index_of-lt, get_or-index_of, count_of_none, none_of_count, count-set, index_of-set_self,
  index_of-set_ne,
}

-- The keys that a client may use: 0 and (T_KEY)-1 mark slots.
abbrev pub IsKey : Ptr → Type 0
IsKey k = (k ≢ 0) × (k ≢ reserved)

-- The dictionary between two calls: arrays of the declared size, no key twice, no slot half filled,
-- and no value left in a free slot.
pub record IsValid (d : Dict) : Type 0 where
  pub keys_size : length d.keys ≡ array_size
  pub values_size : length d.values ≡ array_size
  pub distinct : (k : Ptr) → k ≢ 0 → count k d.keys ≤ 1
  pub settled : count reserved d.keys ≡ 0
  pub cleared : (i : ℕ) → get_or d.keys i 0 ≡ 0 → get_or d.values i null ≡ null

pub get_or-replicate : (n i : ℕ) → ◌≡◌ {A = ℕ} (get_or (replicate n 0) i 0) 0
get_or-replicate zero i = refl
get_or-replicate (suc n) zero = refl
get_or-replicate (suc n) (suc i) = get_or-replicate n i

-- What `init` gives is valid.
pub init-IsValid : IsValid init
unfolding init
init-IsValid = record {
  keys_size = refl;
  values_size = refl;
  distinct = λ k nz. ground arith;
  settled = refl;
  cleared = λ i e. get_or-replicate array_size i;
}

-- The slots that are free.
abbrev pub free_slots : Dict → ℕ
free_slots d = count 0 d.keys

abbrev pub added : Ptr → Ptr → ℕ → Dict → Dict
added key val i d = record { keys = set d.keys i key; values = set d.values i val }

pub add_to_list-some :
    (key val : Ptr) (d : Dict) (i : ℕ)
    → index_of 0 d.keys ≡ some i
    → add_to_list key val d ≡ some (added key val i d)
unfolding add_to_list
add_to_list-some key val d i e = rw (e, add_to_list) (rw (set-set d.keys i reserved key))

pub add_to_list-none :
    (key val : Ptr) (d : Dict) → index_of 0 d.keys ≡ none → add_to_list key val d ≡ none
unfolding add_to_list
add_to_list-none key val d e = rw (e, add_to_list)

-- A slot that holds another key is another slot.
ne_of_keys :
    (d : Dict) (i k j a : ℕ)
    → index_of a d.keys ≡ some i
    → index_of j d.keys ≡ some k
    → a ≢ j
    → i ≢ k
ne_of_keys d i k j a e f n same = n (
    sym (get_or-index_of a d.keys i 0 e)
    ∙ ap (λ (t : ℕ). get_or d.keys t 0) same
    ∙ get_or-index_of j d.keys k 0 f)

module _ (d : Dict) (valid : IsValid d) where
  pub lt_size : (a i : ℕ) → index_of a d.keys ≡ some i → i < length d.values
  lt_size a i e = omega (arith, index_of-lt a d.keys i e, valid.keys_size, valid.values_size)

  pub get_value_self :
      (key val : Ptr) (i : ℕ)
      → count key d.keys ≡ 0
      → index_of 0 d.keys ≡ some i
      → get_value_from_list key (added key val i d) ≡ some val
  unfolding get_value_from_list
  get_value_self key val i fresh e =
      rw (index_of-set_self key d.keys i (index_of-lt 0 d.keys i e) fresh, get_value_from_list)
        (ap some (get_or-set_self d.values i val null (lt_size 0 i e)))

  -- A write to the slot of the key `a` keeps what is stored under another key.
  pub get_value_other :
      (a b val : Ptr) (i : ℕ) (j : Ptr)
      → a ≢ j
      → b ≢ j
      → index_of a d.keys ≡ some i
      → get_value_from_list j (record { keys = set d.keys i b; values = set d.values i val })
        ≡ get_value_from_list j d
  unfolding get_value_from_list
  get_value_other a b val i j na nb e =
      let same : index_of j (set d.keys i b) ≡ index_of j d.keys =
        index_of-set_ne j d.keys i b (λ f. na (sym (get_or-index_of a d.keys i 0 e) ∙ f)) nb in
      elim (Option-cases (index_of j d.keys)) [
        | inl f ↦ rw (same, f, get_value_from_list)
        | inr (k, f) ↦
            rw (same, f, get_value_from_list)
              (ap some (get_or-set_ne d.values i k val null (ne_of_keys d i k j a e f na)))
      ]

pub absent_count : (k : Ptr) (d : Dict) → get_value_from_list k d ≡ none → count k d.keys ≡ 0
unfolding get_value_from_list
absent_count k d h = elim (Option-cases (index_of k d.keys)) [
  | inl f ↦ count_of_none k d.keys f
  | inr (i, f) ↦
      let g : some (get_or d.values i null) ≡ none = rw (f, get_value_from_list) at h in cc g
]

-- A successful call is a write to a free slot.
pub add_to_list-inv :
    (key val : Ptr) (d d' : Dict)
    → add_to_list key val d ≡ some d'
    → (i : ℕ) × (index_of 0 d.keys ≡ some i) × (d' ≡ added key val i d)
add_to_list-inv key val d d' e = elim (Option-cases (index_of 0 d.keys)) [
  | inl f ↦ cc (add_to_list-none key val d f)
  | inr (i, f) ↦ (i, f, cc (add_to_list-some key val d i f))
]

pub remove_from_list-inv :
    (key : Ptr) (d d' : Dict)
    → remove_from_list key d ≡ some d'
    → (i : ℕ) × (index_of key d.keys ≡ some i) × (d' ≡ added 0 0 i d)
unfolding remove_from_list
remove_from_list-inv key d d' e = elim (Option-cases (index_of key d.keys)) [
  | inl f ↦ let g : none ≡ some d' = rw (f, remove_from_list) at e in cc g
  | inr (i, f) ↦
      let g : some (added 0 0 i d) ≡ some d' = rw (f, remove_from_list) at e in (i, f, cc g)
]

-- A write to the slot that holds `a` keeps the dictionary valid if the new key is fresh or 0.
pub added-IsValid :
    (a b val i : ℕ) (d : Dict)
    → IsValid d
    → index_of a d.keys ≡ some i
    → (b ≢ 0 → count b d.keys ≡ 0)
    → b ≢ reserved
    → (b ≡ 0 → val ≡ 0)
    → IsValid (added b val i d)
added-IsValid a b val i d valid f fresh settled cleared = record {
  keys_size = length-set d.keys i b ∙ valid.keys_size;
  values_size = length-set d.values i val ∙ valid.values_size;
  distinct = λ k nk.
      ground (arith, count-set k d.keys i b (index_of-lt a d.keys i f), valid.distinct k nk);
  settled = ground (arith, count-set reserved d.keys i b (index_of-lt a d.keys i f), valid.settled);
  cleared = λ j h. elim (Bool-cases (i == j)) [
    | inl e ↦
        let same = eq_of_== i j e in
        let b_zero : b ≡ 0 =
          sym (get_or-set_self d.keys i b 0 (index_of-lt a d.keys i f))
          ∙ (ap (λ (t : ℕ). get_or (set d.keys i b) t 0) same ∙ h) in
        ap (λ (t : ℕ). get_or (set d.values i val) t null) (sym same)
        ∙ (get_or-set_self d.values i val null (lt_size d valid a i f) ∙ cleared b_zero)
    | inr e ↦
        let other = ne_of_== i j e in
        get_or-set_ne d.values i j val null other
        ∙ valid.cleared j (sym (get_or-set_ne d.keys i j b 0 other) ∙ h)
  ];
}

-- After the slot of `key` is cleared, the key is bound no more.
pub removed :
    (d : Dict)
    → IsValid d
    → (key i : ℕ) → key ≢ 0
    → index_of key d.keys ≡ some i
    → get_value_from_list key (added 0 0 i d) ≡ none
unfolding get_value_from_list
removed d valid key i nk f =
    let moved = count-set key d.keys i 0 (index_of-lt key d.keys i f) in
    let held = get_or-index_of key d.keys i 0 f in
    let gone : count key (set d.keys i 0) ≡ 0 =
      ground (arith, moved, held, valid.distinct key nk) in
    rw (none_of_count key (set d.keys i 0) gone, get_value_from_list)
