-- ===== src/Driver/Tasks/Order.antt =====
-- The order in which task_execute_one_impl_() in Sinetek-rtsx/Sinetek_rtsx.cpp runs the tasks.
use sinetek_rtsx.Base.{
  ℕ, zero, suc, ◌+◌, ◌<◌, ◌≡◌, ◌≢◌, refl, ap, subst, ◌∙◌, some, List, [], ◌∷◌, ◌++◌, arith, Ptr,
  null, ==-false_of_ne, if◌then◌else◌,
}
use mathlib.Core.List.{append_assoc}
use sinetek_rtsx.Disk.Request.{Task}
use sinetek_rtsx.Driver.Tasks.{
  Runner, Drained, is_read_task, free_task, task_loop, task_execute_one_impl,
}

abbrev pub total_weight : (Task → ℕ) → List Task → ℕ
total_weight w [] = 0
total_weight w (t ∷ q) = w t + total_weight w q

abbrev pub read_tasks : List Task → List Task
read_tasks [] = []
read_tasks (t ∷ q) = if is_read_task t then t ∷ read_tasks q else read_tasks q

-- The documented behaviour of the queue: sdmmc_del_task() takes the first task off, a task that runs
-- adds tasks at the end only. `weight` bounds what a task can bring about.
pub record Queueing {S : Type 0} (runner : Runner S) : Type 0 where
  pub spawned : Task → S → List Task
  pub weight : Task → ℕ
  pub del_task-head : (t : Task) (q : List Task) → runner.del_task t (t ∷ q) ≡ q
  pub run-queue : (t : Task) (q : List Task) (s : S) → (runner.run t q s).0 ≡ q ++ spawned t s
  pub spawned_lighter : (t : Task) (s : S) → total_weight weight (spawned t s) < weight t

total_weight-append :
    (w : Task → ℕ) (xs ys : List Task)
    → total_weight w (xs ++ ys) ≡ total_weight w xs + total_weight w ys
total_weight-append w [] ys = omega arith
total_weight-append w (x ∷ xs) ys = omega (arith, total_weight-append w xs ys)

module _ {S : Type 0} (runner : Runner S) (queueing : Queueing runner) where
  open queueing use {spawned, weight}

  -- The tasks run from a queue and a state, in order, until the queue is empty.
  pub data Runs : List Task → S → List Task → S → Type 0 where
    idle : {s : S} → Runs [] s [] s
    next :
        {t : Task} {q ran : List Task} {s s' : S}
        → Runs (q ++ spawned t s) (runner.run t q s).1 ran s'
        → Runs (t ∷ q) s (t ∷ ran) s'

  -- First in, first out: what stands in the queue runs first, in the order of the queue.
  pub Runs-prefix :
      (q ran : List Task) (s s' : S) → Runs q s ran s' → (later : List Task) × (ran ≡ q ++ later)
  Runs-prefix [] ran s s' r = (ran, refl)
  Runs-prefix (t ∷ q) _ s s' (next {ran = ran} r) =
      let (later, e) = Runs-prefix (q ++ spawned t s) ran (runner.run t q s).1 s' r in
      (spawned t s ++ later, ap (◌∷◌ t) (e ∙ append_assoc q (spawned t s) later))

  drained : List Task → S → Drained S
  drained ran s = record { queue = []; freed = read_tasks ran; state = s }

  free_task_lem :
      (t : Task) (ran : List Task) (s : S)
      → free_task t (some (drained ran s)) ≡ some (drained (t ∷ ran) s)
  unfolding drained
  free_task_lem (Task.read_task args) ran s = refl
  free_task_lem (Task.other_task p) ran s = refl

  task_loop_lem :
      (fuel : ℕ) (q : List Task) (s : S)
      → total_weight weight q < fuel
      → (ran : List Task) × (s' : S) × Runs q s ran s'
        × (task_loop runner fuel q s ≡ some (drained ran s'))
  unfolding task_loop drained
  task_loop_lem zero q s h = absurd (omega arith)
  task_loop_lem (suc fuel) [] s h = ([], s, idle, refl)
  task_loop_lem (suc fuel) (t ∷ q) s h =
      let lighter = queueing.spawned_lighter t s in
      let sum = total_weight-append weight q (spawned t s) in
      let (ran, s', runs, e) =
        task_loop_lem fuel (q ++ spawned t s) (runner.run t q s).1 (omega (arith, lighter, sum)) in
      (
        t ∷ ran,
        s',
        next runs,
        rw (task_loop, queueing.del_task-head t q, queueing.run-queue t q s, e)
            (free_task_lem t ran s'),
      )

  -- Given a target, and fuel for the weight of the queue, the task action ends with the queue
  -- empty and the lock released; what stood in the queue ran first, in its order, and then what
  -- the tasks added; exactly the read tasks among them were freed.
  pub task_execute_one_lem :
      (fuel : ℕ) (target : Ptr) (q : List Task) (s : S)
      → target ≢ null
      → total_weight weight q < fuel
      → (later : List Task) × (s' : S) × Runs q (runner.lock s) (q ++ later) s'
        × (task_execute_one_impl runner fuel target q s
            ≡ some
                (record { queue = []; freed = read_tasks (q ++ later); state = runner.unlock s' }))
  unfolding task_execute_one_impl drained
  task_execute_one_lem fuel target q s nz h =
      let (ran, s', runs, e) = task_loop_lem fuel q (runner.lock s) h in
      let (later, same) = Runs-prefix q ran (runner.lock s) s' runs in
      (
        later,
        s',
        subst (λ x. Runs q (runner.lock s) x s') same runs,
        rw (task_execute_one_impl, ==-false_of_ne target 0 nz, e, ← same) refl,
      )
