-- ===== src/Compat/Spl/Exclusion.antt =====
-- Whether the sections of Sinetek-rtsx/compat/openbsd/spl.cpp exclude each other.
use sinetek_rtsx.Base.{ℕ, suc, ◌<◌, ◌≡◌, ◌≢◌, ◌↔◌, refl, sym, ◌∙◌, Option, some, arith, Ptr, null}
use sinetek_rtsx.Compat.Spl.Race.{
  Pc, System, sections, Step, Reach, running, allocate, publish, fetch, acquire, asleep, see_null,
  see_lock, make, store, load, take, take_again, release, release_one, sleep, time_out, wake_one,
  wake_nobody, resume, woken, start, later,
}

-- A thread in a section owns the lock, as often as it is in one.
abbrev Owns : Ptr → (Ptr → Option (ℕ × ℕ)) → ℕ → ℕ → Type 0
Owns lock owner i depth = 0 < depth → owner lock ≡ some (i, depth)

-- With a global lock that was made before: what a thread says about it.
abbrev Agrees : Ptr → (Ptr → Option (ℕ × ℕ)) → ℕ → Pc → Type 0
Agrees lock owner i (running depth) = Owns lock owner i depth
Agrees lock owner i (allocate depth) = ⊥
Agrees lock owner i (publish depth fresh) = ⊥
Agrees lock owner i (fetch depth) = Owns lock owner i depth
Agrees lock owner i (acquire depth l) = (l ≡ lock) × Owns lock owner i depth
Agrees lock owner i (asleep depth count l ident deadline) =
    (l ≡ lock) × (depth ≡ count) × (0 < count)
Agrees lock owner i (woken depth count l) = (l ≡ lock) × (depth ≡ count) × (0 < count)

record Inv (lock : Ptr) (s : System) : Type 0 where
  same : s.global_lock ≡ lock
  agrees : (i : ℕ) → Agrees lock s.owner i (s.pc i)
  held : (i n : ℕ) → s.owner lock ≡ some (i, n) → (0 < n) × (sections (s.pc i) ≡ n)

Step-Inv : (lock : Ptr) (s t : System) → lock ≢ null → Step s t → Inv lock s → Inv lock t
Step-Inv lock s t nz (see_null i d at none_yet) inv = absurd (nz (sym inv.same ∙ none_yet))
Step-Inv lock s t nz (see_lock i d at set) inv = record {
  same = inv.same;
  agrees = λ j. ground (arith, inv.agrees i, inv.agrees j);
  held = λ j n h. ground (arith, inv.held j n);
}
Step-Inv lock s t nz (make i d fresh at set free) inv = absurd (ground (arith, inv.agrees i))
Step-Inv lock s t nz (store i d fresh at) inv = absurd (ground (arith, inv.agrees i))
Step-Inv lock s t nz (load i d at) inv = record {
  same = inv.same;
  agrees = λ j. ground (arith, inv.agrees i, inv.agrees j, inv.same);
  held = λ j n h. ground (arith, inv.held j n);
}
Step-Inv lock s t nz (take i d l at free) inv = record {
  same = inv.same;
  agrees = λ j. ground (arith, inv.agrees j, inv.agrees i);
  held = λ j n h. ground (arith, inv.agrees i, inv.held j n);
}
Step-Inv lock s t nz (take_again i d c l at own) inv = record {
  same = inv.same;
  agrees = λ j. ground (arith, inv.agrees j, inv.agrees i, inv.held i c);
  held = λ j n h. ground (arith, inv.agrees i, inv.held i c, inv.held j n);
}
Step-Inv lock s t nz (release i d at own) inv = record {
  same = inv.same;
  agrees = λ j. ground (arith, inv.agrees j, inv.agrees i, inv.same, inv.held i 1);
  held = λ j n h. ground (arith, inv.same);
}
Step-Inv lock s t nz (release_one i d c at own) inv = record {
  same = inv.same;
  agrees = λ j. ground (arith, inv.agrees j, inv.agrees i, inv.same, inv.held i (suc (suc c)));
  held = λ j n h. ground (arith, inv.same, inv.held i (suc (suc c)));
}
Step-Inv lock s t nz (sleep i d c e b at own) inv = record {
  same = inv.same;
  agrees = λ j. ground (arith, inv.agrees j, inv.agrees i, inv.same, inv.held i c);
  held = λ j n h. ground (arith, inv.same);
}
Step-Inv lock s t nz (time_out i d c l e at) inv = record {
  same = inv.same;
  agrees = λ j. ground (arith, inv.agrees j, inv.agrees i);
  held = λ j n h. ground (arith, inv.agrees i, inv.held j n);
}
Step-Inv lock s t nz (wake_one k h i d c l e b up set at) inv = record {
  same = inv.same;
  agrees = λ j. ground (arith, inv.agrees j, inv.agrees i);
  held = λ j n h. ground (arith, inv.agrees i, inv.held j n);
}
Step-Inv lock s t nz (wake_nobody j h e up set nobody) inv = inv
Step-Inv lock s t nz (resume i d c l at free) inv = record {
  same = inv.same;
  agrees = λ j. ground (arith, inv.agrees j, inv.agrees i);
  held = λ j n h. ground (arith, inv.agrees i, inv.held j n);
}

Reach-Inv : (lock : Ptr) (s : System) → lock ≢ null → Reach lock s → Inv lock s
Reach-Inv lock s nz start = record {
  same = refl;
  agrees = λ i h. absurd (omega arith);
  held = λ i n h. absurd (ground arith);
}
Reach-Inv lock s nz (later {s = r} reach step) =
    Step-Inv lock r s nz step (Reach-Inv lock r nz reach)

-- With a global lock that is there before the threads start, whatever their steps: a thread owns
-- the lock n times if and only if it is awake in n sections of splbio(), and n is positive.
pub lock_counts :
    (lock : Ptr) (s : System)
    → lock ≢ null
    → Reach lock s
    → (i n : ℕ) → (s.owner lock ≡ some (i, n)) ↔ ((0 < n) × (sections (s.pc i) ≡ n))
lock_counts lock s nz r i n =
    let inv = Reach-Inv lock s nz r in
    (inv.held i n, λ (pos, e). owns (s.pc i) (inv.agrees i) pos e)
  where
    owns : (p : Pc) → Agrees lock s.owner i p → 0 < n → sections p ≡ n → s.owner lock ≡ some (i, n)
    owns (running depth) a pos e = ground (arith, a)
    owns (allocate depth) a pos e = absurd a
    owns (publish depth fresh) a pos e = absurd a
    owns (fetch depth) a pos e = ground (arith, a)
    owns (acquire depth l) a pos e = ground (arith, a)
    owns (asleep depth count l ident deadline) a pos e = absurd (omega arith)
    owns (woken depth count l) a pos e = absurd (omega arith)

-- With a global lock that is there before the threads start, however they interleave, nest their
-- sections and sleep in them, two threads that are awake are never in sections of splbio() at
-- once.
pub sections_exclude :
    (lock : Ptr) (s : System)
    → lock ≢ null
    → Reach lock s
    → (i j : ℕ) → 0 < sections (s.pc i)
    → 0 < sections (s.pc j)
    → i ≡ j
sections_exclude lock s nz r i j in_i in_j =
    let own_i = (lock_counts lock s nz r i (sections (s.pc i))).1 (in_i, refl) in
    let own_j = (lock_counts lock s nz r j (sections (s.pc j))).1 (in_j, refl) in cc (own_i, own_j)

-- Without one, and for any two new locks, the threads can interleave so that two are in a section
-- at once, and each of them owns one of the locks.
pub sections_overlap :
    (a b : Ptr)
    → a ≢ null
    → b ≢ null
    → a ≢ b
    → (s : System) × Reach null s
      × (sections (s.pc 0) ≡ 1)
      × (sections (s.pc 1) ≡ 1)
      × (s.owner a ≡ some (0, 1))
      × (s.owner b ≡ some (1, 1))
sections_overlap a b na nb ne =
    let both_saw = later (later start (see_null 0 0 refl refl)) (see_null 1 0 refl refl) in
    let first_in =
      later
        (later (later (later both_saw (make 0 0 a refl na refl)) (store 0 0 a refl))
          (load 0 0 refl))
        (take 0 0 a refl refl) in
    (
      _,
      later
          (later (later (later first_in (make 1 0 b refl nb (ground arith))) (store 1 0 b refl))
            (load 1 0 refl))
          (take 1 0 b refl (ground arith)),
      refl,
      refl,
      ground arith,
      ground arith,
    )
