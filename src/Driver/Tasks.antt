-- ===== src/Driver/Tasks.antt =====
-- task_execute_one_impl_() of Sinetek-rtsx/Sinetek_rtsx.cpp: the timer action that runs the queued
-- tasks.
pub mod Order
use sinetek_rtsx.Base.{
  ℕ, zero, suc, Bool, true, false, Option, none, some, List, [], ◌∷◌, Ptr, is_null, if◌then◌else◌,
}
use sinetek_rtsx.Disk.Request.{Task, read_task, other_task}

-- The calls of the action: `sdmmc_del_task(task)`, `task->func(task->arg)`, which may change the queue
-- too, and the lock `splsdmmc_rec_lock`.
pub record Runner (S : Type 0) : Type 0 where
  pub del_task : Task → List Task → List Task
  pub run : Task → List Task → S → List Task × S
  pub lock : S → S
  pub unlock : S → S

-- What is left of the queue, the tasks that were given to UTL_FREE, first to last, and the state.
pub record Drained (S : Type 0) : Type 0 where
  pub queue : List Task
  pub freed : List Task
  pub state : S

-- `task->func == read_task_impl_`
abbrev pub is_read_task : Task → Bool
is_read_task (read_task args) = true
is_read_task (other_task p) = false

abbrev pub free_task : {S : Type 0} → Task → Option (Drained S) → Option (Drained S)
free_task t none = none
free_task t (some out) = some (if is_read_task t then record out { freed = t ∷ out.freed } else out)

module _ {S : Type 0} (runner : Runner S) where
  -- The `for` loop, with fuel; `none` means that the fuel ran out.
  unfoldable pub task_loop : ℕ → List Task → S → Option (Drained S)
  task_loop zero q s = none
  task_loop (suc fuel) [] s = some (record { queue = []; freed = []; state = s })
  task_loop (suc fuel) (t ∷ q) s =
      let (q', s') = runner.run t (runner.del_task t (t ∷ q)) s in
      free_task t (task_loop fuel q' s')

  unfoldable pub task_execute_one_impl : ℕ → Ptr → List Task → S → Option (Drained S)
  unfolding task_loop
  task_execute_one_impl fuel target q s =
      if is_null target
      then some (record { queue = q; freed = []; state = s })
      else elim (task_loop fuel q (runner.lock s)) [
        | none ↦ none
        | some out ↦ some (record out { state = runner.unlock out.state })
      ]
