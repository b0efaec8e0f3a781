-- ===== src/Driver/Service/Laws.antt =====
-- Requests of Sinetek-rtsx/SDDisk.cpp from their submission to their completion.
use sinetek_rtsx.Base.{ℕ, ◌<◌, ◌≡◌, ◌≢◌, Bool, some, List, [], ◌∷◌, ◌++◌, map, Ptr, null, length}
use sinetek_rtsx.Disk.Io.{Io}
use sinetek_rtsx.Disk.Task.{Site}
use sinetek_rtsx.Disk.Request.{Task, read_task}
use sinetek_rtsx.Driver.Tasks.{task_execute_one_impl}
use sinetek_rtsx.Driver.Service.{Log, service, Submission, submit_all, accepted}
use sinetek_rtsx.Driver.Service.Serves.{Answered, Serves-Answered, action-Serves}

module _ {S : Type 0} (io : Ptr → Io S) (no_adma : Bool) (site : Site)
    (other : Ptr → List Task → S → List Task × S) (del_task : Task → List Task → List Task)
    (lock unlock : S → S)
    (del_task-head : (t : Task) (q : List Task) → del_task t (t ∷ q) ≡ q) where
  -- For any calls of doAsyncReadWrite(), one after another, where sdmmc_add_task() adds at the end
  -- and sdmmc_del_task() takes the first task off: the task action, given a target and one round
  -- more than accepted requests, ends with the queue empty; it has carried out each accepted
  -- request once, in the order of the calls, and freed its task, and has called its completion
  -- routine, if there is one, once, with the status of some code, unless a pointer on the way is
  -- null.
  pub requests_complete :
      (add_task : Task → List Task → List Task)
      → ((t : Task) (q : List Task) → add_task t q ≡ q ++ t ∷ [])
      → (calls : List Submission) (fuel : ℕ) (target : Ptr) (s : S) → target ≢ null
      → length (accepted add_task calls) < fuel
      → (log : Log) × (end : S) × Answered site (accepted add_task calls) log
        × (task_execute_one_impl
              (service io no_adma site other del_task lock unlock)
              fuel
              target
              (submit_all add_task calls [])
              (record { state = s; done = [] })
            ≡ some (record {
              queue = [];
              freed = map read_task (accepted add_task calls);
              state = record { state = end; done = log };
            }))
  requests_complete add_task tail calls fuel target s nz enough =
      let (log, end, serves, e) =
        action-Serves io no_adma site other del_task lock unlock del_task-head add_task tail calls
          fuel target s nz enough in
      (
        log,
        unlock end,
        Serves-Answered io no_adma site (accepted add_task calls) (lock s) log end serves,
        e,
      )
