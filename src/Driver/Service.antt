-- ===== src/Driver/Service.antt =====
-- From doAsyncReadWrite() in Sinetek-rtsx/SDDisk.cpp over the task queue of
-- Sinetek-rtsx/Sinetek_rtsx.cpp to the completion of the request.
pub mod Ends
pub mod Queued
pub mod Serves
pub mod Laws
pub mod Buffers
pub mod ReadBack
pub mod Race
use sinetek_rtsx.Base.{
  ℕ, Bool, true, false, Option, none, some, List, [], ◌∷◌, ◌++◌, Ptr, IoReturn, kio_success,
  if◌then◌else◌,
}
use sinetek_rtsx.Disk.Io.{Io}
use sinetek_rtsx.Disk.Task.{BioArgs, Completion, Site, read_task_impl}
use sinetek_rtsx.Disk.Request.{
  Task, read_task, other_task, Request, DiskView, fill_args, do_async_read_write,
}
use sinetek_rtsx.Driver.Tasks.{Runner}

-- The completion routines that were called, first to last, each with its arguments; `none` for a
-- request without one.
abbrev pub Log : Type 0
Log = List (Completion × Option (IoReturn × ℕ))

pub record Served (S : Type 0) : Type 0 where
  pub state : S
  pub done : Log

-- `io b` are the calls of a task whose request has the memory descriptor `b`.
module _ {S : Type 0} (io : Ptr → Io S) (no_adma : Bool) (site : Site)
    (other : Ptr → List Task → S → List Task × S) where
  -- `task->func(task->arg)`; `other` runs a task of the OpenBSD code.
  unfoldable pub run_task : Task → List Task → Served S → List Task × Served S
  run_task (read_task args) q s =
      elim (read_task_impl (io args.buffer) no_adma site (some args) s.state) [
        | none ↦ (q, s)
        | some out ↦ (
          q,
          record { state = out.state; done = s.done ++ (args.completion, out.completed) ∷ [] },
        )
      ]
  run_task (other_task p) q s =
      let (q', state) = other p q s.state in (q', record s { state = state })

  abbrev pub lift : (S → S) → Served S → Served S
  lift f s = record s { state = f s.state }

  -- The task loop of the driver, with its lock.
  abbrev pub service : (Task → List Task → List Task) → (S → S) → (S → S) → Runner (Served S)
  service del_task lock unlock = record {
    del_task = del_task;
    run = run_task;
    lock = lift lock;
    unlock = lift unlock;
  }

-- A call of doAsyncReadWrite(): what it sees of the disk, whether its task is allocated, what the
-- fresh BioArgs hold, and its arguments.
pub record Submission : Type 0 where
  pub view : DiskView
  pub allocated : Bool
  pub fresh : BioArgs
  pub request : Request

abbrev pub is_success : IoReturn → Bool
is_success kio_success = true
is_success r = false

module _ (add_task : Task → List Task → List Task) where
  abbrev pub submit : Submission → List Task → IoReturn × List Task
  submit x q = do_async_read_write add_task x.view x.allocated x.fresh x.request q

  -- The queue after one call after another.
  unfoldable pub submit_all : List Submission → List Task → List Task
  submit_all [] q = q
  submit_all (x ∷ xs) q = submit_all xs (submit x q).1

  -- The arguments of the calls that returned success. What is in the queue has no part in that.
  abbrev pub accepted : List Submission → List BioArgs
  accepted [] = []
  accepted (x ∷ xs) =
      if is_success (submit x []).0
      then fill_args x.fresh x.view.this x.request ∷ accepted xs
      else accepted xs
