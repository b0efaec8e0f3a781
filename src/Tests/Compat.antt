-- ===== src/Tests/Compat.antt =====
-- The compatibility layer's locks and threads at concrete inputs.
use sinetek_rtsx.Base.{
  some, none, ltb, false, ◌≤◌, ℕ, ◌+◌, ◌*◌, ◌≡◌, refl, true, arith, null, success, if◌then◌else◌,
  is_error,
}
use sinetek_rtsx.Compat.Spl.Race.{
  System, Reach, sections, see_lock, load, take, take_again, start, later, running, asleep,
  wake_one,
}
use sinetek_rtsx.Compat.Spl.Exclusion.{lock_counts, sections_exclude, sections_overlap}
use sinetek_rtsx.Compat.Spl.Waking.{Runs, still, onward, sleepers, calls_bound_wakes}
use sinetek_rtsx.Compat.Thread.{Threads, kthread_create, my_thread_continue, kthread_balanced}

-- Thread 2 in a section within its section, with a lock at 64.
entered : (s : System) × Reach 64 s × (sections (s.pc 2) ≡ 2)
entered =
    let once =
      later (later (later start (see_lock 2 0 refl (omega arith))) (load 2 0 refl))
        (take 2 0 64 refl refl) in
    (
      _,
      later (later (later once (see_lock 2 1 refl (omega arith))) (load 2 1 refl))
          (take_again 2 1 1 64 refl refl),
      refl,
    )

lock_counts_example : entered.0.owner 64 ≡ some (2, 2)
unfolding entered
lock_counts_example = (lock_counts 64 entered.0 (omega arith) entered.1 2 2).1 (omega arith, refl)

sections_exclude_example : ◌≡◌ {A = ℕ} 2 2
unfolding entered
sections_exclude_example =
    sections_exclude 64 entered.0 (omega arith) entered.1 2 2 (omega arith) (omega arith)

sections_overlap_example :
    (s : System) × Reach null s
    × (sections (s.pc 0) ≡ 1)
    × (sections (s.pc 1) ≡ 1)
    × (s.owner 64 ≡ some (0, 1))
    × (s.owner 128 ≡ some (1, 1))
sections_overlap_example = sections_overlap 64 128 (omega arith) (omega arith) (omega arith)

abbrev no_threads : Threads
no_threads = record { args = 0 }

-- A thread whose function adds its argument, and whose end doubles.
kthread_balanced_example :
    let (code, np, my_arg, t) = kthread_create true success 1 2 3 0 no_threads in
    my_thread_continue (λ func arg s. s + arg) (λ s. 2 * s) my_arg (t, 4)
    ≡ (no_threads, if is_error code then 4 else 2 * (4 + 3))
kthread_balanced_example =
    kthread_balanced (λ func arg s. s + arg) (λ s. 2 * s) true success 1 2 3 0 no_threads 4

-- Threads 0 and 1 sleep on 32, and thread 2 calls wakeup(32) once.
abbrev two_sleep : System
two_sleep = record {
  global_lock = 64;
  owner = λ l. none;
  pc = λ i. if ltb i 2 then asleep 1 1 64 32 false else running 0;
}

abbrev one_call : (t : System) × Runs 32 two_sleep 1 t
one_call = (_, onward (wake_one 2 0 0 1 1 64 32 false refl (omega arith) refl) still)

-- One of them sleeps on.
calls_bound_wakes_example : 2 ≤ sleepers 32 3 one_call.0.pc + 1
calls_bound_wakes_example = calls_bound_wakes 32 3 two_sleep 1 one_call.0 one_call.1
