-- ===== src/Compat/Thread.antt =====
-- Sinetek-rtsx/compat/openbsd/kthread.cpp: OpenBSD's kernel threads as threads of Darwin.
use sinetek_rtsx.Base.{
  ℕ, ◌+◌, ◌-◌, ◌≡◌, Bool, Option, none, some, arith, Ptr, is_null, Code, success, enomem, is_error,
  if◌then◌else◌,
}

-- struct MyArgStruct
pub record MyArgStruct : Type 0 where
  pub func : Ptr
  pub arg : Ptr

-- The structs that are allocated.
pub record Threads : Type 0 where
  pub args : ℕ

-- `calls func arg` is the call of an OpenBSD function, `terminate` the thread_terminate() of
-- kthread_exit().
unfoldable pub my_thread_continue :
    {S : Type 0} → (Ptr → Ptr → S → S) → (S → S) → Option MyArgStruct → Threads × S → Threads × S
my_thread_continue calls terminate none (t, s) = (t, s)
my_thread_continue calls terminate (some a) (t, s) =
    (record t { args = t.args - 1 }, terminate (calls a.func a.arg s))

-- `allocated` is whether UTL_MALLOC gives a struct; `started` is the result of kernel_thread_start()
-- and the thread. The result is the code, `*newpp` if it is written, and the argument of the thread
-- that runs from now on.
unfoldable pub kthread_create :
    Bool → Code → Ptr → Ptr → Ptr → Ptr → Threads → Code × Option Ptr × Option MyArgStruct × Threads
kthread_create allocated started new_thread func arg newpp t =
    let my_arg : MyArgStruct = record { func = func; arg = arg } in
    if allocated
    then if is_error started then (started, none, none, t) else (
      success,
      if is_null newpp then none else some new_thread,
      some my_arg,
      record t { args = t.args + 1 },
    )
    else (some enomem, none, none, t)

-- The deferred function runs at once.
unfoldable pub kthread_create_deferred : {S : Type 0} → (Ptr → Ptr → S → S) → Ptr → Ptr → S → S
kthread_create_deferred calls func arg s = calls func arg s

-- Whatever kernel_thread_start() answers: after kthread_create(), and once the thread that it
-- started, if any, has run, no argument struct is left allocated; on success the function was
-- called once, with its argument, and the thread then ended, and on failure nothing was called.
pub kthread_balanced :
    {S : Type 0} (calls : Ptr → Ptr → S → S) (terminate : S → S) (allocated : Bool) (started : Code)
    (new_thread func arg newpp : Ptr) (t : Threads) (s : S)
    → let (code, np, my_arg, t') = kthread_create allocated started new_thread func arg newpp t in
      my_thread_continue calls terminate my_arg (t', s)
      ≡ (t, if is_error code then s else terminate (calls func arg s))
unfolding kthread_create my_thread_continue
kthread_balanced calls terminate allocated started new_thread func arg newpp t s = ground arith
