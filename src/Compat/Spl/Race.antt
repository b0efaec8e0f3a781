-- ===== src/Compat/Spl/Race.antt =====
-- Sinetek-rtsx/compat/openbsd/spl.cpp by several threads, a shared access at a time, with sections
-- that nest, and with tsleep_nsec() in a section and wakeup() of
-- Sinetek-rtsx/compat/openbsd/tsleep.cpp.
use sinetek_rtsx.Base.{
  Bool, true, false, ℕ, suc, ◌≡◌, ◌≢◌, Option, none, some, Ptr, null, ◌==◌, if◌then◌else◌,
}

-- Where a thread stands; `depth` counts the sections that it is in, from splbio() to splx().
pub data Pc : Type 0 where
  running : (depth : ℕ) → Pc
  allocate : (depth : ℕ) → Pc  -- getGlobalLock() saw null, before IORecursiveLockAlloc()
  publish : (depth : ℕ) (fresh : Ptr) → Pc  -- before `globalLock = …`
  fetch : (depth : ℕ) → Pc  -- before `return globalLock`
  acquire : (depth : ℕ) (lock : Ptr) → Pc  -- before IORecursiveLockLock()
  -- in IORecursiveLockSleep(), or in IORecursiveLockSleepDeadline(), with its count put by
  asleep : (depth count : ℕ) (lock ident : Ptr) (deadline : Bool) → Pc
  woken : (depth count : ℕ) (lock : Ptr) → Pc  -- woken up or timed out, before it has the lock again

-- The sections that a thread is in while it is awake.
abbrev pub sections : Pc → ℕ
sections (running depth) = depth
sections (allocate depth) = depth
sections (publish depth fresh) = depth
sections (fetch depth) = depth
sections (acquire depth lock) = depth
sections (asleep depth count lock ident deadline) = 0
sections (woken depth count lock) = 0

-- Whether a thread sleeps on `ident`.
abbrev pub awaits : Ptr → Pc → Bool
awaits e (running depth) = false
awaits e (allocate depth) = false
awaits e (publish depth fresh) = false
awaits e (fetch depth) = false
awaits e (acquire depth lock) = false
awaits e (asleep depth count lock ident deadline) = ident == e
awaits e (woken depth count lock) = false

-- `globalLock`, the thread that owns a lock and how often, and the threads.
pub record System : Type 0 where
  pub global_lock : Ptr
  pub owner : Ptr → Option (ℕ × ℕ)
  pub pc : ℕ → Pc

abbrev pub update : {A : Type 0} → (ℕ → A) → ℕ → A → ℕ → A
update f i a j = if j == i then a else f j

-- One step of thread `i`. IORecursiveLockAlloc() gives a lock that nobody owns; IORecursiveLockLock()
-- waits until nobody else owns it; splx() unlocks what getGlobalLock() gives by then. A sleep gives the
-- lock up whole, and ends, woken up or timed out, when nobody owns it. wakeup(ident), for which
-- IORecursiveLockWakeup() is asked to wake one thread, wakes one that sleeps on `ident`, if there is one.
pub data Step (s : System) : System → Type 0 where
  see_null :
      (i depth : ℕ)
      → s.pc i ≡ running depth
      → s.global_lock ≡ null
      → Step s (record s { pc = update s.pc i (allocate depth) })
  see_lock :
      (i depth : ℕ)
      → s.pc i ≡ running depth
      → s.global_lock ≢ null
      → Step s (record s { pc = update s.pc i (fetch depth) })
  make :
      (i depth : ℕ) (fresh : Ptr)
      → s.pc i ≡ allocate depth
      → fresh ≢ null
      → s.owner fresh ≡ none
      → Step s (record s { pc = update s.pc i (publish depth fresh) })
  store :
      (i depth : ℕ) (fresh : Ptr)
      → s.pc i ≡ publish depth fresh
      → Step s (record s { global_lock = fresh; pc = update s.pc i (fetch depth) })
  load :
      (i depth : ℕ)
      → s.pc i ≡ fetch depth
      → Step s (record s { pc = update s.pc i (acquire depth s.global_lock) })
  take :
      (i depth : ℕ) (lock : Ptr)
      → s.pc i ≡ acquire depth lock
      → s.owner lock ≡ none
      → Step s (record s {
        owner = update s.owner lock (some (i, 1));
        pc = update s.pc i (running (suc depth));
      })
  take_again :
      (i depth count : ℕ) (lock : Ptr)
      → s.pc i ≡ acquire depth lock
      → s.owner lock ≡ some (i, count)
      → Step s (record s {
        owner = update s.owner lock (some (i, suc count));
        pc = update s.pc i (running (suc depth));
      })
  release :
      (i depth : ℕ)
      → s.pc i ≡ running (suc depth)
      → s.owner s.global_lock ≡ some (i, 1)
      → Step s (record s {
        owner = update s.owner s.global_lock none;
        pc = update s.pc i (running depth);
      })
  release_one :
      (i depth count : ℕ)
      → s.pc i ≡ running (suc depth)
      → s.owner s.global_lock ≡ some (i, suc (suc count))
      → Step s (record s {
        owner = update s.owner s.global_lock (some (i, suc count));
        pc = update s.pc i (running depth);
      })
  sleep :
      (i depth count : ℕ) (ident : Ptr) (deadline : Bool)
      → s.pc i ≡ running depth
      → s.owner s.global_lock ≡ some (i, count)
      → Step s (record s {
        owner = update s.owner s.global_lock none;
        pc = update s.pc i (asleep depth count s.global_lock ident deadline);
      })
  time_out :
      (i depth count : ℕ) (lock ident : Ptr)
      → s.pc i ≡ asleep depth count lock ident true
      → Step s (record s { pc = update s.pc i (woken depth count lock) })
  wake_one :
      (j here i depth count : ℕ) (lock ident : Ptr) (deadline : Bool)
      → s.pc j ≡ running here
      → s.global_lock ≢ null
      → s.pc i ≡ asleep depth count lock ident deadline
      → Step s (record s { pc = update s.pc i (woken depth count lock) })
  wake_nobody :
      (j here : ℕ) (ident : Ptr)
      → s.pc j ≡ running here
      → s.global_lock ≢ null
      → ((i : ℕ) → awaits ident (s.pc i) ≡ false)
      → Step s s
  resume :
      (i depth count : ℕ) (lock : Ptr)
      → s.pc i ≡ woken depth count lock
      → s.owner lock ≡ none
      → Step s (record s {
        owner = update s.owner lock (some (i, count));
        pc = update s.pc i (running depth);
      })

-- Nobody is in a section yet; `lock` is null until a first call.
abbrev pub at_rest : Ptr → System
at_rest lock = record { global_lock = lock; owner = λ l. none; pc = λ i. running 0 }

pub data Reach (lock : Ptr) : System → Type 0 where
  start : Reach lock (at_rest lock)
  later : {s t : System} → Reach lock s → Step s t → Reach lock t
