-- ===== src/Compat/Spl/Waking.antt =====
-- How many threads the wakeup() of Sinetek-rtsx/compat/openbsd/tsleep.cpp wakes up.
use sinetek_rtsx.Base.{
  ℕ, zero, suc, ◌+◌, ◌≤◌, ◌≡◌, refl, true, false, Ptr, ◌==◌, arith, if◌then◌else◌, Bool-cases, inl,
  inr,
}
use sinetek_rtsx.Compat.Spl.Race.{
  Pc, System, Step, running, allocate, publish, fetch, acquire, asleep, woken, see_null, see_lock,
  make, store, load, take, take_again, release, release_one, sleep, time_out, wake_one, wake_nobody,
  resume, update,
}

-- Whether a thread sleeps on `e` without a deadline, as a number.
abbrev pub waits_on : Ptr → Pc → ℕ
waits_on e (asleep depth count lock ident false) = if ident == e then 1 else 0
waits_on e (asleep depth count lock ident true) = 0
waits_on e (running depth) = 0
waits_on e (allocate depth) = 0
waits_on e (publish depth fresh) = 0
waits_on e (fetch depth) = 0
waits_on e (acquire depth lock) = 0
waits_on e (woken depth count lock) = 0

-- How many of the threads below `n` do so.
abbrev pub sleepers : Ptr → ℕ → (ℕ → Pc) → ℕ
sleepers e zero pc = 0
sleepers e (suc n) pc = waits_on e (pc n) + sleepers e n pc

-- Whether a step is a call of wakeup(e), as a number.
abbrev pub wakeups : Ptr → {s t : System} → Step s t → ℕ
wakeups e (wake_one j here i depth count lock ident deadline up set at) =
    if ident == e then 1 else 0
wakeups e (wake_nobody j here ident up set nobody) = if ident == e then 1 else 0
wakeups e step = 0

-- Steps of any threads, with the calls of wakeup(e) among them.
pub data Runs (e : Ptr) (s : System) : ℕ → System → Type 0 where
  still : Runs e s 0 s
  onward :
      {calls : ℕ} {t u : System} (step : Step t u)
      → Runs e s calls t
      → Runs e s (calls + wakeups e step) u

sleepers-above :
    (e : Ptr) (n i : ℕ) (pc : ℕ → Pc) (p : Pc)
    → n ≤ i
    → sleepers e n (update pc i p) ≡ sleepers e n pc
sleepers-above e zero i pc p h = refl
sleepers-above e (suc n) i pc p h = ground (arith, sleepers-above e n i pc p (omega arith))

sleepers-update :
    (e : Ptr) (n i : ℕ) (pc : ℕ → Pc) (p : Pc)
    → sleepers e n pc ≤ sleepers e n (update pc i p) + waits_on e (pc i)
sleepers-update e zero i pc p = omega arith
sleepers-update e (suc n) i pc p = elim (Bool-cases (n == i)) [
  | inl same ↦ ground (arith, sleepers-above e n i pc p (ground arith))
  | inr other ↦ ground (arith, sleepers-update e n i pc p)
]

step-sleepers :
    (e : Ptr) (n : ℕ) (s t : System) (step : Step s t)
    → sleepers e n s.pc ≤ sleepers e n t.pc + wakeups e step
step-sleepers e n s _ (see_null i d at set) =
    ground (arith, sleepers-update e n i s.pc (allocate d))
step-sleepers e n s _ (see_lock i d at set) = ground (arith, sleepers-update e n i s.pc (fetch d))
step-sleepers e n s _ (make i d fresh at set free) =
    ground (arith, sleepers-update e n i s.pc (publish d fresh))
step-sleepers e n s _ (store i d fresh at) = ground (arith, sleepers-update e n i s.pc (fetch d))
step-sleepers e n s _ (load i d at) =
    ground (arith, sleepers-update e n i s.pc (acquire d s.global_lock))
step-sleepers e n s _ (take i d l at free) =
    ground (arith, sleepers-update e n i s.pc (running (suc d)))
step-sleepers e n s _ (take_again i d c l at own) =
    ground (arith, sleepers-update e n i s.pc (running (suc d)))
step-sleepers e n s _ (release i d at own) = ground (arith, sleepers-update e n i s.pc (running d))
step-sleepers e n s _ (release_one i d c at own) =
    ground (arith, sleepers-update e n i s.pc (running d))
step-sleepers e n s _ (sleep i d c ident b at own) =
    ground (arith, sleepers-update e n i s.pc (asleep d c s.global_lock ident b))
step-sleepers e n s _ (time_out i d c l ident at) =
    ground (arith, sleepers-update e n i s.pc (woken d c l))
step-sleepers e n s _ (wake_one j h i d c l ident true up set at) =
    ground (arith, sleepers-update e n i s.pc (woken d c l))
step-sleepers e n s _ (wake_one j h i d c l ident false up set at) =
    ground (arith, sleepers-update e n i s.pc (woken d c l))
step-sleepers e n s _ (wake_nobody j h ident up set nobody) = omega arith
step-sleepers e n s _ (resume i d c l at free) =
    ground (arith, sleepers-update e n i s.pc (running d))

-- However threads interleave: of the threads below a number that sleep on an identifier without a
-- deadline, at most as many stop to do so as wakeup() is called for that identifier, since a call
-- wakes up one thread.
pub calls_bound_wakes :
    (e : Ptr) (n : ℕ) (s : System) (calls : ℕ) (t : System)
    → Runs e s calls t
    → sleepers e n s.pc ≤ sleepers e n t.pc + calls
calls_bound_wakes e n s _ _ still = omega arith
calls_bound_wakes e n s _ u (onward {calls = calls} {t = t} step runs) =
    omega (arith, calls_bound_wakes e n s calls t runs, step-sleepers e n t u step)
