-- ===== src/Driver/Service/Serves.antt =====
-- The requests that the task loop of Sinetek-rtsx/Sinetek_rtsx.cpp carries out for
-- Sinetek-rtsx/SDDisk.cpp, one after another.
use sinetek_rtsx.Base.{
  ap, subst, ℕ, zero, suc, ◌<◌, ◌≡◌, ◌≢◌, refl, ◌⊎◌, inl, inr, Bool, true, false, Option, none,
  some, List, [], ◌∷◌, ◌++◌, map, arith, Ptr, null, is_null, Code, IoReturn, length, ==-false_of_ne,
  if◌then◌else◌, Bool-cases,
}
use mathlib.Core.List.{append_assoc, append-nil}
use sinetek_rtsx.Disk.Io.{Io}
use sinetek_rtsx.Disk.Task.{
  BioArgs, Completion, Site, Outcome, completion_status, actual_byte_count, some_null,
  read_task_impl, complete,
}
use sinetek_rtsx.Disk.Request.{Task, read_task}
use sinetek_rtsx.Driver.Tasks.{Runner, task_loop, task_execute_one_impl}
use sinetek_rtsx.Driver.Service.{Log, Served, run_task, service, Submission, submit_all, accepted}
use sinetek_rtsx.Driver.Service.Ends.{read_task_ends}
use sinetek_rtsx.Driver.Service.Queued.{submit_all-accepted}

module _ (site : Site) where
  -- One entry of the log: the completion routine, if there is one, was called with the status of some
  -- code, unless a pointer on the way is null.
  abbrev pub Answers : BioArgs → Completion × Option (IoReturn × ℕ) → Type 0
  Answers args (completion, call) =
      (completion ≡ args.completion)
      × ((some_null args site ≡ true) × (call ≡ none)
          ⊎ (some_null args site ≡ false)
            × ((c : Code) × (call ≡ (
                  if is_null args.completion.action
                  then none
                  else some (completion_status c (actual_byte_count args site))))))

  abbrev pub Answered : List BioArgs → Log → Type 0
  Answered [] [] = Unit
  Answered [] (e ∷ log) = ⊥
  Answered (args ∷ more) [] = ⊥
  Answered (args ∷ more) (e ∷ log) = Answers args e × Answered more log

  pub Answered-append :
      (done : List BioArgs) (log : Log) (args : BioArgs) (e : Completion × Option (IoReturn × ℕ))
      → Answered done log
      → Answers args e
      → Answered (done ++ args ∷ []) (log ++ e ∷ [])
  Answered-append [] [] args e a b = (b, tt)
  Answered-append [] (x ∷ log) args e a b = absurd a
  Answered-append (d ∷ done) [] args e a b = absurd a
  Answered-append (d ∷ done) (x ∷ log) args e a b = (a.0, Answered-append done log args e a.1 b)

module _ {S : Type 0} (io : Io S) (no_adma : Bool) (site : Site) where
  pub task-Answers :
      (args : BioArgs) (s : S)
      → (out : Outcome S) × (read_task_impl io no_adma site (some args) s ≡ some out)
        × Answers site args (args.completion, out.completed)
  unfolding read_task_impl complete
  task-Answers args s = elim (Bool-cases (some_null args site)) [
    | inl bad ↦ (
      record { completed = none; deleted = false; state = s },
      rw (bad, read_task_impl) refl,
      (refl, inl (bad, refl)),
    )
    | inr good ↦
        let (done, runs) = read_task_ends io no_adma site args s good in
        (complete args (actual_byte_count args site) done, runs, (refl, inr (good, (done.0, refl))))
  ]

-- What holds of the outcome of a computation holds of the outcome.
pub of_outcome {ℓ} :
    {A : Type ℓ} {r : Option A} (P : A → Type 0) (x y : A) → r ≡ some x → r ≡ some y → P x → P y
of_outcome P x y e f p = let same : x ≡ y = cc in subst P same p

module _ {S : Type 0} (io : Ptr → Io S) (no_adma : Bool) (site : Site) where
  -- Requests carried out one after another, with what they changed and the calls of their completion
  -- routines.
  pub data Serves : List BioArgs → S → Log → S → Type 0 where
    all_served : {s : S} → Serves [] s [] s
    serves_one :
        {args : BioArgs} {more : List BioArgs} {log : Log} {s t : S} (out : Outcome S)
        → read_task_impl (io args.buffer) no_adma site (some args) s ≡ some out
        → Serves more out.state log t
        → Serves (args ∷ more) s ((args.completion, out.completed) ∷ log) t

  pub Serves-Answered :
      (requests : List BioArgs) (s : S) (log : Log) (t : S)
      → Serves requests s log t
      → Answered site requests log
  Serves-Answered [] s _ _ all_served = tt
  Serves-Answered (args ∷ more) s _ t (serves_one {log = log} out runs rest) =
      let (out', runs', answers) = task-Answers (io args.buffer) no_adma site args s in
      (
        of_outcome (λ o. Answers site args (args.completion, o.completed)) out' out runs' runs
            answers,
        Serves-Answered more out.state log t rest,
      )

  pub Serves-append :
      (xs ys : List BioArgs) (s : S) (log : Log) (t : S)
      → Serves (xs ++ ys) s log t
      → (log1 : Log) × (log2 : Log) × (mid : S) × Serves xs s log1 mid
        × Serves ys mid log2 t
        × (log ≡ log1 ++ log2)
  Serves-append [] ys s log t serves = ([], log, s, all_served, serves, refl)
  Serves-append (x ∷ xs) ys s _ t (serves_one {log = log} out runs rest) =
      let (log1, log2, mid, first, second, e) = Serves-append xs ys out.state log t rest in
      (
        (x.completion, out.completed) ∷ log1,
        log2,
        mid,
        serves_one out runs first,
        second,
        ap (◌∷◌ (x.completion, out.completed)) e,
      )

  module _ (other : Ptr → List Task → S → List Task × S) (del_task : Task → List Task → List Task)
      (lock unlock : S → S)
      (del_task-head : (t : Task) (q : List Task) → del_task t (t ∷ q) ≡ q) where
    abbrev runner : Runner (Served S)
    runner = service io no_adma site other del_task lock unlock

    runs_task :
        (args : BioArgs) (q : List Task) (s : Served S) (out : Outcome S)
        → read_task_impl (io args.buffer) no_adma site (some args) s.state ≡ some out
        → run_task io no_adma site other (read_task args) q s ≡ (
          q,
          record { state = out.state; done = s.done ++ (args.completion, out.completed) ∷ [] },
        )
    unfolding run_task
    runs_task args q s out runs = rw (run_task, runs) refl

    loop-Serves :
        (fuel : ℕ) (requests : List BioArgs) (s : Served S)
        → length requests < fuel
        → (log : Log) × (end : S) × Serves requests s.state log end
          × (task_loop runner fuel (map read_task requests) s
              ≡ some (record {
                queue = [];
                freed = map read_task requests;
                state = record { state = end; done = s.done ++ log };
              }))
    unfolding task_loop
    loop-Serves zero requests s enough = absurd (omega arith)
    loop-Serves (suc fuel) [] s enough = ([], s.state, all_served, rw (append-nil s.done) refl)
    loop-Serves (suc fuel) (args ∷ more) s enough =
        let (out, runs, answers) = task-Answers (io args.buffer) no_adma site args s.state in
        let entry : Completion × Option (IoReturn × ℕ) = (args.completion, out.completed) in
        let s' : Served S = record { state = out.state; done = s.done ++ entry ∷ [] } in
        let ran = runs_task args (map read_task more) s out runs in
        let (log, end, serves, e) = loop-Serves fuel more s' (omega arith) in
        (
          entry ∷ log,
          end,
          serves_one out runs serves,
          rw (task_loop, del_task-head (read_task args) (map read_task more), ran, e)
              (rw (append_assoc s.done (entry ∷ []) log) refl),
        )

    -- The task action carries out the accepted requests, one after another, with the lock.
    pub action-Serves :
        (add_task : Task → List Task → List Task)
        → ((t : Task) (q : List Task) → add_task t q ≡ q ++ t ∷ [])
        → (calls : List Submission) (fuel : ℕ) (target : Ptr) (s : S) → target ≢ null
        → length (accepted add_task calls) < fuel
        → (log : Log) × (end : S) × Serves (accepted add_task calls) (lock s) log end
          × (task_execute_one_impl runner fuel target
                (submit_all add_task calls [])
                (record { state = s; done = [] })
              ≡ some (record {
                queue = [];
                freed = map read_task (accepted add_task calls);
                state = record { state = unlock end; done = log };
              }))
    unfolding task_execute_one_impl
    action-Serves add_task tail calls fuel target s nz enough =
        let (log, end, serves, e) =
          loop-Serves fuel (accepted add_task calls) (record { state = lock s; done = [] })
            enough in
        (
          log,
          end,
          serves,
          rw
              (
                submit_all-accepted add_task tail calls [],
                task_execute_one_impl,
                ==-false_of_ne target 0 nz,
                e,
              )
              refl,
        )
