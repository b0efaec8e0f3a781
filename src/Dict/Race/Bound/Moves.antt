-- ===== src/Dict/Race/Bound/Moves.antt =====
-- What a step of addToList() or getValueFromList() of Sinetek-rtsx/util_dict.h leaves of what is bound.
use sinetek_rtsx.Base.{
  ℕ, ◌≡◌, ◌≢◌, refl, sym, ap, ◌∙◌, subst, ◌⊎◌, Bool-cases, eq_of_==, ne_of_==, inl, inr, some, List,
  ◌∷◌, arith, Ptr, null, ◌==◌, length, get_or, set, get_or-set_self, length-set,
}
use sinetek_rtsx.Dict.{Dict, get_free_slot, reserved}
use sinetek_rtsx.Dict.Valid.{IsKey}
use sinetek_rtsx.Dict.Race.{
  Event, Pc, update, Move, idle, put_key, put_value, get_value, reserve, full, write_key,
  write_value, find, find_none, read_value, added, looked_up,
}
use sinetek_rtsx.Dict.Race.Filling.{lt_of_get_or, filling, Inv, free_slot_lem}
use sinetek_rtsx.Dict.Race.Bound.{
  Marks, Local, Settled, Backed, AllBacked, Bound, Elsewhere, set_keys-Elsewhere,
  set_values-Elsewhere, Local-other, Local-filling, Local-null, find_key_lem, Marks-cases,
  Settled-update, Old-kept, AllBacked-kept,
}

module _ {d0 d : Dict} {log : List Event} {pc : ℕ → Pc} (inv : Inv d pc) (b : Bound d0 d pc log)
    (i : ℕ) where
  -- A step that writes nothing.
  still :
      (p' : Pc) (log' : List Event)
      → Local d p'
      → ((x : ℕ) → filling p' ≢ some x)
      → AllBacked d (update pc i p') log'
      → Bound d0 d (update pc i p') log'
  still p' log' mine n all = record {
    size = b.size;
    local = λ j. elim (Bool-cases (j == i)) [ inl e ↦ rw e mine | inr e ↦ rw e (b.local j) ];
    free = b.free;
    backed = all;
    old = λ x. Old-kept d d pc i p' (λ x isk settled. (refl, refl, n x)) d0 x (b.old x);
  }

  still-AllBacked : (p' : Pc) → ((x : ℕ) → filling p' ≢ some x) → AllBacked d (update pc i p') log
  still-AllBacked p' n =
      AllBacked-kept d d pc i p' (λ x isk settled. (refl, refl, n x)) log b.backed

  -- A step that writes the slot `y`, which was free or is that of thread `i`.
  writes :
      (d' : Dict) (y : ℕ) (p' : Pc)
      → Elsewhere d d' y
      → (get_or d.keys y 0 ≡ 0) ⊎ (filling (pc i) ≡ some y)
      → length d'.keys ≡ length d'.values
      → Marks (get_or d.keys y 0) ⊎ (get_or d'.keys y 0 ≡ get_or d.keys y 0)
      → Local d' p'
      → get_or d'.keys y 0 ≢ 0
      → ((x : ℕ) → filling p' ≡ some x → x ≡ y)
      → (log' : List Event)
      → (AllBacked d' (update pc i p') log → AllBacked d' (update pc i p') log')
      → Bound d0 d' (update pc i p') log'
  writes d' y p' same whose size stable mine used only log' more =
      let others : (j : ℕ) → j ≢ i → filling (pc j) ≢ some y = λ j n e. elim whose [
        | inl free ↦ Local-filling d (pc j) y (b.local j) e free
        | inr fills ↦ n (inv.apart j i y e fills)
      ] in
      let apart : (x : ℕ) → IsKey (get_or d.keys x 0) → Settled pc x → x ≢ y = λ x isk settled e.
        elim whose [
          | inl free ↦ isk.0 (ap (λ (t : ℕ). get_or d.keys t 0) e ∙ free)
          | inr fills ↦ settled i (fills ∙ ap some (sym e))
        ] in
      let kept : (x : ℕ)
          → IsKey (get_or d.keys x 0)
          → Settled pc x
          → (get_or d'.keys x 0 ≡ get_or d.keys x 0)
            × (get_or d'.values x null ≡ get_or d.values x null)
            × (filling p' ≢ some x) =
        λ x isk settled.
          let n = apart x isk settled in ((same x n).0, (same x n).1, λ e. n (only x e)) in
      record {
        size = size;
        local = λ j. elim (Bool-cases (j == i)) [
          | inl e ↦ rw e mine
          | inr e ↦
              rw e
                (Local-other d d' y (pc j) same stable (others j (λ f. ground arith)) (b.local j))
        ];
        free = λ x e. elim (Bool-cases (x == y)) [
          | inl here ↦
              absurd (used (ap (λ (t : ℕ). get_or d'.keys t 0) (sym (eq_of_== x y here)) ∙ e))
          | inr there ↦ let (sk, sv) = same x (λ f. ground arith) in sv ∙ b.free x (sym sk ∙ e)
        ];
        backed = more (AllBacked-kept d d' pc i p' kept log b.backed);
        old = λ x. Old-kept d d' pc i p' kept d0 x (b.old x);
      }

  looks_up :
      (slot : ℕ) (key : Ptr)
      → pc i ≡ get_value slot key
      → Backed d (update pc i idle) (looked_up key (get_or d.values slot null))
  looks_up slot key here =
      let mine : Local d (get_value slot key) = subst (Local d) here (b.local i) in
      elim (Marks-cases key) [
        | inl m ↦ inl m
        | inr isk ↦ elim (Bool-cases (get_or d.values slot null == null)) [
          | inl z ↦ inr (inl (eq_of_== (get_or d.values slot null) null z))
          | inr nz ↦
              let settled : Settled pc slot = λ j e.
                ne_of_== (get_or d.values slot null) null nz
                  (Local-null d (pc j) slot (b.local j) e) in
              inr (
                inr (
                  slot,
                  ground arith,
                  refl,
                  isk,
                  Settled-update d d pc i idle (λ x k s. (refl, refl, λ e. ground arith)) slot
                      (λ e. ground arith) settled,
                ))
        ]
      ]

  reserves :
      (slot : ℕ) (d' : Dict) (key val : Ptr)
      → IsKey key
      → get_free_slot d ≡ some (slot, d')
      → Bound d0 d' (update pc i (put_key slot key val)) log
  reserves slot d' key val isk e =
      let (free, made, lt) = free_slot_lem d d' slot e in
      let marked : get_or (set d.keys slot reserved) slot 0 ≡ reserved =
        get_or-set_self d.keys slot reserved 0 lt in
      let d1 : Dict = record d { keys = set d.keys slot reserved } in
      subst (λ x. Bound d0 x (update pc i (put_key slot key val)) log) (sym made)
        (writes d1 slot (put_key slot key val) (set_keys-Elsewhere d slot reserved) (inl free)
          (length-set d.keys slot reserved ∙ b.size) (inl (inl free))
          (marked, b.free slot free, isk) (λ z. omega (arith, z, marked)) (λ x f. ground arith) log
          (λ a. a))

  writes_key :
      (slot : ℕ) (key val : Ptr)
      → pc i ≡ put_key slot key val
      → Bound d0
          (record d { keys = set d.keys slot key })
          (update pc i (put_value slot key val))
          log
  writes_key slot key val here =
      let mine : Local d (put_key slot key val) = subst (Local d) here (b.local i) in
      let lt = lt_of_get_or d.keys slot (ground arith) in
      let set_so = get_or-set_self d.keys slot key 0 lt in
      writes (record d { keys = set d.keys slot key }) slot (put_value slot key val)
        (set_keys-Elsewhere d slot key) (inr (ap filling here))
        (length-set d.keys slot key ∙ b.size) (inl (inr mine.0)) (set_so, mine.1, mine.2)
        (λ z. mine.2.0 (sym set_so ∙ z)) (λ x f. ground arith) log (λ a. a)

  writes_value :
      (slot : ℕ) (key val : Ptr)
      → pc i ≡ put_value slot key val
      → Bound d0
          (record d { values = set d.values slot val })
          (update pc i idle)
          (added key val ∷ log)
  writes_value slot key val here =
      let mine : Local d (put_value slot key val) = subst (Local d) here (b.local i) in
      let lt = lt_of_get_or d.keys slot (λ z. mine.2.0 (sym mine.0 ∙ z)) in
      let set_so = get_or-set_self d.values slot val null (omega (arith, lt, b.size)) in
      let settled : Settled (update pc i idle) slot = λ j e. elim (Bool-cases (j == i)) [
        | inl same ↦ ground arith
        | inr other ↦ ne_of_== j i other (inv.apart j i slot (rw other at e) (ap filling here))
      ] in
      writes (record d { values = set d.values slot val }) slot idle
        (set_values-Elsewhere d slot val) (inr (ap filling here))
        (b.size ∙ sym (length-set d.values slot val)) (inr refl) tt (λ z. mine.2.0 (sym mine.0 ∙ z))
        (λ x f. ground arith) (added key val ∷ log)
        (λ a. ((slot, mine.0, set_so, mine.2, settled), a))

  pub Move-Bound :
      {p p' : Pc} {d' : Dict} {log' : List Event}
      → Move d log p d' p' log'
      → pc i ≡ p
      → Bound d0 d' (update pc i p') log'
  Move-Bound (full e) here =
      still idle log tt (λ x f. ground arith) (still-AllBacked idle (λ x f. ground arith))
  Move-Bound (find_none key e) here =
      still idle log tt (λ x f. ground arith) (still-AllBacked idle (λ x f. ground arith))
  Move-Bound (find {slot} key e) here =
      still (get_value slot key) log (inr (find_key_lem key d slot e)) (λ x f. ground arith)
        (still-AllBacked (get_value slot key) (λ x f. ground arith))
  Move-Bound (read_value {slot} {key}) here =
      still idle (looked_up key (get_or d.values slot null) ∷ log) tt (λ x f. ground arith)
        (looks_up slot key here, still-AllBacked idle (λ x f. ground arith))
  Move-Bound (reserve {slot} {d'} key val isk e) here = reserves slot d' key val isk e
  Move-Bound (write_key {slot} {key} {val}) here = writes_key slot key val here
  Move-Bound (write_value {slot} {key} {val}) here = writes_value slot key val here
