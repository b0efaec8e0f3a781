-- ===== src/Driver/Service/Race.antt =====
-- Requests that threads submit to Sinetek-rtsx/SDDisk.cpp while a worker takes the tasks off the queue:
-- the loop of task_execute_one_impl_() in Sinetek-rtsx/Sinetek_rtsx.cpp, a step at a time. The queue is
-- that of the OpenBSD driver, which locks each access.
pub mod Order
pub mod Drain
pub mod ReadBack
pub mod Success
pub mod Dma
use sinetek_rtsx.Base.{
  ℕ, ◌≡◌, Bool, true, false, Option, none, some, List, [], ◌∷◌, ◌++◌, Ptr, if◌then◌else◌,
}
use sinetek_rtsx.Disk.Io.{Io}
use sinetek_rtsx.Disk.Task.{BioArgs, Site}
use sinetek_rtsx.Disk.Request.{Task, read_task, other_task, fill_args}
use sinetek_rtsx.Driver.Tasks.{is_read_task}
use sinetek_rtsx.Driver.Service.{Served, run_task, Submission, is_success, submit}

-- Where the worker stands in its loop.
pub data Worker : Type 0 where
  looking : Worker  -- before TAILQ_FIRST
  holding : Task → Worker  -- after sdmmc_del_task(task), before task->func(task->arg)
  finished : Task → Worker  -- before the test for read_task_impl_

-- The queue, the worker, what the tasks changed, what was freed, and the arguments of the requests that
-- were accepted, first to last.
pub record System (S : Type 0) : Type 0 where
  pub queue : List Task
  pub worker : Worker
  pub served : Served S
  pub freed : List Task
  pub accepted : List BioArgs

module _ {S : Type 0} (io : Ptr → Io S) (no_adma : Bool) (site : Site) (other : Ptr → S → S)
    (add_task : Task → List Task → List Task) (del_task : Task → List Task → List Task) where
  -- A task as the worker runs it; `other` is a task of the OpenBSD code.
  abbrev pub ran : Task → List Task → Served S → List Task × Served S
  ran = run_task io no_adma site (λ p q s. (q, other p s))

  -- A step of the worker.
  pub data Work (s : System S) : System S → Type 0 where
    take :
        (t : Task) (q : List Task)
        → s.worker ≡ looking
        → s.queue ≡ t ∷ q
        → Work s (record s { worker = holding t; queue = del_task t (t ∷ q) })
    run :
        (t : Task)
        → s.worker ≡ holding t
        → Work s (record s {
          worker = finished t;
          queue = (ran t s.queue s.served).0;
          served = (ran t s.queue s.served).1;
        })
    free :
        (t : Task)
        → s.worker ≡ finished t
        → Work s (record s {
          worker = looking;
          freed = s.freed ++ (if is_read_task t then t ∷ [] else []);
        })

  -- The arguments that a call of doAsyncReadWrite() queues, if it returns success.
  abbrev pub queued : Submission → List BioArgs
  queued x =
      if is_success (submit add_task x []).0
      then fill_args x.fresh x.view.this x.request ∷ []
      else []

  -- A step of the worker, a request from any thread, or a task that the OpenBSD code adds.
  pub data Step (s : System S) : System S → Type 0 where
    work : {t : System S} → Work s t → Step s t
    request :
        (x : Submission)
        → Step s
            (record s { queue = (submit add_task x s.queue).1; accepted = s.accepted ++ queued x })
    add_other : (p : Ptr) → Step s (record s { queue = add_task (other_task p) s.queue })

  abbrev pub idle_system : S → System S
  idle_system s = record {
    queue = [];
    worker = looking;
    served = record { state = s; done = [] };
    freed = [];
    accepted = [];
  }

  pub data Reach (s : S) : System S → Type 0 where
    start : Reach s (idle_system s)
    later : {t u : System S} → Reach s t → Step t u → Reach s u

  -- Steps of the worker alone.
  pub data Works : System S → System S → Type 0 where
    rest : {s : System S} → Works s s
    onward : {s t u : System S} → Work s t → Works t u → Works s u
