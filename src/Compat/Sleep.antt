-- ===== src/Compat/Sleep.antt =====
-- Sinetek-rtsx/compat/openbsd/tsleep.cpp: tsleep_nsec() and wakeup() over the global lock of spl.cpp.
use sinetek_rtsx.Base.{
  ℕ, ◌-◌, ◌^◌, ◌≡◌, ◌≢◌, ◌↔◌, ◌⊎◌, Bool, true, not, some, arith, Ptr, null, Code, success, eagain,
  ewouldblock, ◌==◌, if◌then◌else◌,
}
use sinetek_rtsx.Compat.Spl.{Locks, Spl, get_global_lock}

-- The wait results of Darwin that the code tells apart.
pub data WaitResult : Type 0 where
  thread_awakened thread_timed_out thread_interrupted : WaitResult

-- What tsleep.cpp calls on top of spl.cpp. `sleep` is IORecursiveLockSleep(), and `sleep_deadline`
-- IORecursiveLockSleepDeadline() with nsecs2AbsoluteTimeDeadline(nsecs), both with THREAD_UNINT.
pub record Sleeps (S : Type 0) : Type 0 where
  pub have_lock : Ptr → S → Bool
  pub io_sleep : ℕ → S → S
  pub sleep : Ptr → Ptr → S → WaitResult × S
  pub sleep_deadline : Ptr → Ptr → ℕ → S → WaitResult × S
  pub wake : Ptr → Ptr → S → S

abbrev pub infslp : ℕ
infslp = 2 ^ 64 - 1

-- the end of tsleep_nsec()
abbrev pub sleep_code : WaitResult → Code
sleep_code thread_timed_out = some ewouldblock
sleep_code r = success

module _ {S : Type 0} (kit : Locks S) (sleeps : Sleeps S) where
  -- `UTL_LOG_DELAY_MS`, which lengthens the timeout in a debug build, is taken to be 0.
  unfoldable pub tsleep_nsec : Ptr → ℕ → Spl S → Code × Spl S
  unfolding get_global_lock
  tsleep_nsec ident nsecs s =
      let (l, s') = get_global_lock kit s in
      let (forever, awake) = sleeps.sleep l ident s'.locks in
      let (bounded, up) = sleeps.sleep_deadline l ident nsecs s'.locks in
      if not (sleeps.have_lock l s'.locks)
      then (some eagain, record s' { locks = sleeps.io_sleep 1 s'.locks })
      else if nsecs == infslp
      then (sleep_code forever, record s' { locks = awake })
      else (sleep_code bounded, record s' { locks = up })

  unfoldable pub wakeup : Ptr → Spl S → Code × Spl S
  unfolding get_global_lock
  wakeup ident s =
      let (l, s') = get_global_lock kit s in
      (success, record s' { locks = sleeps.wake l ident s'.locks })

  -- With a global lock: tsleep_nsec() succeeds if and only if the lock is held by the thread, and the
  -- sleep, which has a deadline unless the timeout is INFSLP, does not time out.
  pub tsleep_lem :
      (ident : Ptr) (nsecs : ℕ) (s : Spl S)
      → s.global_lock ≢ null
      → ((tsleep_nsec ident nsecs s).0 ≡ success) ↔ (
          (sleeps.have_lock s.global_lock s.locks ≡ true)
          × ((nsecs ≡ infslp) × ((sleeps.sleep s.global_lock ident s.locks).0 ≢ thread_timed_out)
              ⊎ (nsecs ≢ infslp)
                × ((sleeps.sleep_deadline s.global_lock ident nsecs s.locks).0 ≢ thread_timed_out)))
  unfolding tsleep_nsec
  tsleep_lem ident nsecs s set = (λ h. ground arith, λ h. ground arith)
