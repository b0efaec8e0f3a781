-- ===== src/Driver/Service/Race/Order.antt =====
-- The requests of Sinetek-rtsx/SDDisk.cpp are answered in the order in which they were accepted,
-- whatever threads submit meanwhile.
use sinetek_rtsx.Base.{
  some, if◌then◌else◌, ap, ◌≡◌, refl, sym, ◌∙◌, inl, inr, Bool, List, [], ◌∷◌, ◌++◌, Ptr,
  Bool-cases,
}
use mathlib.Core.List.{append_assoc, append-nil}
use sinetek_rtsx.Disk.Io.{Io}
use sinetek_rtsx.Disk.Task.{BioArgs, Site, Outcome, read_task_impl}
use sinetek_rtsx.Disk.Request.{Task, read_task, other_task, fill_args}
use sinetek_rtsx.Driver.Tasks.{is_read_task}
use sinetek_rtsx.Driver.Tasks.Order.{read_tasks}
use sinetek_rtsx.Driver.Service.{Log, Served, run_task, Submission, is_success, submit}
use sinetek_rtsx.Driver.Service.Queued.{submit_lem}
use sinetek_rtsx.Driver.Service.Serves.{
  Answers, Answered, Answered-append, task-Answers, of_outcome,
}
use sinetek_rtsx.Driver.Service.Race.{
  Worker, looking, holding, finished, System, ran, Work, take, run, free, queued, Step, work,
  request, add_other, Reach, start, later,
}

-- The requests in a task, in a queue, and in the hands of the worker before they run.
abbrev pub args_of : Task → List BioArgs
args_of (read_task args) = args ∷ []
args_of (other_task p) = []

abbrev pub requests : List Task → List BioArgs
requests [] = []
requests (t ∷ q) = args_of t ++ requests q

abbrev pub in_hand : Worker → List BioArgs
in_hand looking = []
in_hand (holding t) = args_of t
in_hand (finished t) = []

-- The task that the worker is about to free.
abbrev pub to_free : Worker → List Task
to_free looking = []
to_free (holding t) = []
to_free (finished t) = if is_read_task t then t ∷ [] else []

read_tasks-append : (q r : List Task) → read_tasks (q ++ r) ≡ read_tasks q ++ read_tasks r
read_tasks-append [] r = refl
read_tasks-append (read_task args ∷ q) r = ap (◌∷◌ (read_task args)) (read_tasks-append q r)
read_tasks-append (other_task p ∷ q) r = read_tasks-append q r

requests-append : (q r : List Task) → requests (q ++ r) ≡ requests q ++ requests r
requests-append [] r = refl
requests-append (t ∷ q) r =
    rw (requests-append q r) (sym (append_assoc (args_of t) (requests q) (requests r)))

pub requests-other : (q : List Task) (p : Ptr) → requests (q ++ other_task p ∷ []) ≡ requests q
requests-other q p = requests-append q (other_task p ∷ []) ∙ append-nil (requests q)

pub requests-request :
    (q : List Task) (args : BioArgs) → requests (q ++ read_task args ∷ []) ≡ requests q ++ args ∷ []
requests-request q args = requests-append q (read_task args ∷ [])

module _ {S : Type 0} (io : Ptr → Io S) (no_adma : Bool) (site : Site) (other : Ptr → S → S)
    (add_task : Task → List Task → List Task) (del_task : Task → List Task → List Task)
    (tail : (t : Task) (q : List Task) → add_task t q ≡ q ++ t ∷ [])
    (head : (t : Task) (q : List Task) → del_task t (t ∷ q) ≡ q) where
  -- Tasks that ran one after another from a state, with the log and the state that they left.
  pub data Ran (s : S) : List Task → Log → S → Type 0 where
    none_ran : Ran s [] [] s
    then_other :
        {before : List Task} {log : Log} {t : S} (p : Ptr)
        → Ran s before log t
        → Ran s (before ++ other_task p ∷ []) log (other p t)
    then_request :
        {before : List Task} {log : Log} {t : S} (args : BioArgs) (out : Outcome S)
        → Ran s before log t
        → read_task_impl (io args.buffer) no_adma site (some args) t ≡ some out
        → Ran s
            (before ++ read_task args ∷ [])
            (log ++ (args.completion, out.completed) ∷ [])
            out.state

  Ran-Answered :
      (s : S) (ran : List Task) (log : Log) (t : S)
      → Ran s ran log t
      → Answered site (requests ran) log
  Ran-Answered s _ _ _ none_ran = tt
  Ran-Answered s _ log _ (then_other {before = before} {t = t} p r) =
      rw (requests-append before (other_task p ∷ []), append-nil (requests before))
        (Ran-Answered s before log t r)
  Ran-Answered s _ _ _ (then_request {before = before} {log = log} {t = t} args out r runs) =
      let (out', runs', answers) = task-Answers (io args.buffer) no_adma site args t in
      rw (requests-append before (read_task args ∷ [])) (
        Answered-append site (requests before) log args (args.completion, out.completed)
          (Ran-Answered s before log t r)
          (of_outcome (λ o. Answers site args (args.completion, o.completed)) out' out runs' runs
            answers))

  -- A task that runs leaves the queue as it is, and runs after those before it.
  pub ran_lem :
      (t : Task) (q : List Task) (s : Served S)
      → let (q', s') = ran io no_adma site other add_task del_task t q s in
        (q' ≡ q)
        × ((first : S) (before : List Task)
            → Ran first before s.done s.state
            → Ran first (before ++ t ∷ []) s'.done s'.state)
  unfolding run_task
  ran_lem (other_task p) q s = (refl, λ first before r. then_other p r)
  ran_lem (read_task args) q s =
      let (out, runs, answers) = task-Answers (io args.buffer) no_adma site args s.state in
      rw (run_task, runs) (refl, λ first before r. then_request args out r runs)

  -- The tasks that ran are the requests that were answered; what was accepted is what they are, what
  -- the worker holds, and what is queued, in this order; what was freed, and what the worker is to
  -- free, are the read tasks that ran.
  Ordered : S → System S → Type 0
  Ordered first s =
      (before : List Task) × Ran first before s.served.done s.served.state
      × (s.accepted ≡ requests before ++ in_hand s.worker ++ requests s.queue)
      × (s.freed ++ to_free s.worker ≡ read_tasks before)

  Work-Ordered :
      (first : S) (s t : System S)
      → Work io no_adma site other add_task del_task s t
      → Ordered first s
      → Ordered first t
  unfolding Ordered
  Work-Ordered first s u (take t q stands queued_first) (before, run_so, same, gone) = (
    before,
    run_so,
    same
        ∙ rw (stands, queued_first, head t q, append-nil (requests before))
            (sym (append_assoc (requests before) (args_of t) (requests q))),
    rw stands at gone,
  )
  Work-Ordered first s u (run t stands) (before, run_so, same, gone) =
      let (still, more) = ran_lem t s.queue s.served in
      let free_before : s.freed ≡ read_tasks before =
        sym (append-nil s.freed) ∙ rw stands at gone in
      (
        before ++ t ∷ [],
        more first before run_so,
        same
            ∙ rw
                (
                  stands,
                  still,
                  requests-append before (t ∷ []),
                  append-nil (args_of t),
                  append-nil (requests before ++ args_of t),
                )
                refl,
        rw (free_before, read_tasks-append before (t ∷ [])) refl,
      )
  Work-Ordered first s u (free t stands) (before, run_so, same, gone) = (
    before,
    run_so,
    same ∙ rw stands refl,
    rw (append-nil (s.freed ++ to_free (finished t))) (rw stands at gone),
  )

  requests-submit :
      (x : Submission) (q : List Task)
      → requests (submit add_task x q).1
        ≡ requests q ++ queued io no_adma site other add_task del_task x
  requests-submit x q = elim (Bool-cases (is_success (submit add_task x []).0)) [
    | inl ok ↦
        rw (submit_lem add_task tail x q, ok)
          (requests-append q (read_task (fill_args x.fresh x.view.this x.request) ∷ []))
    | inr bad ↦ rw (submit_lem add_task tail x q, bad) (requests-append q [])
  ]

  Step-Ordered :
      (first : S) (s t : System S)
      → Step io no_adma site other add_task del_task s t
      → Ordered first s
      → Ordered first t
  unfolding Ordered
  Step-Ordered first s t (work w) o = Work-Ordered first s t w o
  Step-Ordered first s t (request x) (before, run_so, same, gone) = (
    before,
    run_so,
    rw (same, requests-submit x s.queue)
        (append_assoc (requests before ++ in_hand s.worker) (requests s.queue)
          (queued io no_adma site other add_task del_task x)),
    gone,
  )
  Step-Ordered first s t (add_other p) (before, run_so, same, gone) = (
    before,
    run_so,
    same
        ∙ rw
            (
              tail (other_task p) s.queue,
              requests-append s.queue (other_task p ∷ []),
              append-nil (requests s.queue),
            )
            refl,
    gone,
  )

  Reach-Ordered :
      (s : S) (t : System S) → Reach io no_adma site other add_task del_task s t → Ordered s t
  unfolding Ordered
  Reach-Ordered s t start = ([], none_ran, refl, refl)
  Reach-Ordered s t (later {t = r} reach step) = Step-Ordered s r t step (Reach-Ordered s r reach)

  -- However requests of any threads, tasks that the OpenBSD code adds, and the steps of the worker
  -- that runs the queue interleave, where sdmmc_add_task() adds at the end and sdmmc_del_task()
  -- takes the first task off: the state and the log are those of some tasks that ran one after
  -- another; the requests that were accepted are, in this order, those among these tasks, with an
  -- entry of the log each, the one that the worker holds, and those in the queue; the tasks that
  -- were freed, with the one that the worker is about to free, are the read tasks among those that
  -- ran.
  pub order_kept :
      (s : S) (t : System S)
      → Reach io no_adma site other add_task del_task s t
      → (before : List Task) × Ran s before t.served.done t.served.state
        × Answered site (requests before) t.served.done
        × (t.accepted ≡ requests before ++ in_hand t.worker ++ requests t.queue)
        × (t.freed ++ to_free t.worker ≡ read_tasks before)
  unfolding Ordered
  order_kept s t reach =
      let (before, run_so, same, gone) = Reach-Ordered s t reach in
      (before, run_so, Ran-Answered s before t.served.done t.served.state run_so, same, gone)
