-- ===== src/Compat/Spl.antt =====
-- Sinetek-rtsx/compat/openbsd/spl.cpp: splbio() and splhigh() take a global recursive lock, which the
-- first call makes, and splx() releases it.
pub mod Race
pub mod Exclusion
pub mod Waking
use sinetek_rtsx.Base.{ℕ, Ptr, null, is_null, if◌then◌else◌}

-- What spl.cpp and tsleep.cpp use of IOKit's recursive locks. `sleep` is IORecursiveLockSleep() and
-- IORecursiveLockSleepDeadline(), with the deadline if there is one, and gives a wait result.
pub record Locks (S : Type 0) : Type 0 where
  pub alloc : S → Ptr × S
  pub lock : Ptr → S → S
  pub unlock : Ptr → S → S

-- `globalLock` and the state of the locks.
pub record Spl (S : Type 0) : Type 0 where
  pub global_lock : Ptr
  pub locks : S

module _ {S : Type 0} (kit : Locks S) where
  unfoldable pub get_global_lock : Spl S → Ptr × Spl S
  get_global_lock s =
      let (fresh, locks) = kit.alloc s.locks in
      if is_null s.global_lock
      then (fresh, record { global_lock = fresh; locks = locks })
      else (s.global_lock, s)

  -- LOCK gives 0.
  unfoldable pub splbio : Spl S → ℕ × Spl S
  unfolding get_global_lock
  splbio s = let (l, s') = get_global_lock s in (0, record s' { locks = kit.lock l s'.locks })

  unfoldable pub splhigh : Spl S → ℕ × Spl S
  unfolding get_global_lock
  splhigh s = let (l, s') = get_global_lock s in (0, record s' { locks = kit.lock l s'.locks })

  unfoldable pub splx : ℕ → Spl S → Spl S
  unfolding get_global_lock
  splx val s = let (l, s') = get_global_lock s in record s' { locks = kit.unlock l s'.locks }
