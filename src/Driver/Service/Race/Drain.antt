-- ===== src/Driver/Service/Race/Drain.antt =====
-- Every accepted request of Sinetek-rtsx/SDDisk.cpp can be answered, whatever was submitted when.
use sinetek_rtsx.Base.{
  ap, map, ◌≡◌, refl, sym, ◌∙◌, Bool, List, [], ◌∷◌, ◌++◌, Ptr, subst, if◌then◌else◌,
}
use mathlib.Core.List.{append-nil}
use sinetek_rtsx.Disk.Io.{Io}
use sinetek_rtsx.Disk.Task.{Site}
use sinetek_rtsx.Disk.Request.{Task, read_task, other_task}
use sinetek_rtsx.Driver.Tasks.{is_read_task}
use sinetek_rtsx.Driver.Service.Race.{
  Worker, looking, holding, finished, System, ran, take, run, free, Reach, later, work, Works, rest,
  onward,
}
use sinetek_rtsx.Driver.Service.Race.Order.{Ran, requests, ran_lem, order_kept}
use sinetek_rtsx.Driver.Tasks.Order.{read_tasks}
use sinetek_rtsx.Driver.Service.Serves.{Answered}

pub read_tasks-requests : (q : List Task) → read_tasks q ≡ map read_task (requests q)
read_tasks-requests [] = refl
read_tasks-requests (read_task args ∷ q) = ap (◌∷◌ (read_task args)) (read_tasks-requests q)
read_tasks-requests (other_task p ∷ q) = read_tasks-requests q

module _ {S : Type 0} (io : Ptr → Io S) (no_adma : Bool) (site : Site) (other : Ptr → S → S)
    (add_task : Task → List Task → List Task) (del_task : Task → List Task → List Task)
    (tail : (t : Task) (q : List Task) → add_task t q ≡ q ++ t ∷ [])
    (head : (t : Task) (q : List Task) → del_task t (t ∷ q) ≡ q) where
  -- The worker alone comes to an empty queue.
  Emptied : System S → Type 0
  Emptied s =
      (u : System S) × Works io no_adma site other add_task del_task s u
      × (u.queue ≡ [])
      × (u.worker ≡ looking)
      × (u.accepted ≡ s.accepted)

  abbrev freed : Task → System S → System S
  freed t s = record s {
    worker = looking;
    freed = s.freed ++ (if is_read_task t then t ∷ [] else []);
  }

  abbrev done : Task → System S → System S
  done t s = record s {
    worker = finished t;
    queue = (ran io no_adma site other add_task del_task t s.queue s.served).0;
    served = (ran io no_adma site other add_task del_task t s.queue s.served).1;
  }

  abbrev taken : Task → List Task → System S → System S
  taken t q s = record s { worker = holding t; queue = del_task t (t ∷ q) }

  empties_finished :
      (t : Task) (s : System S) → s.worker ≡ finished t → Emptied (freed t s) → Emptied s
  unfolding Emptied
  empties_finished t s at (u, works, empty, idle', same) =
      (u, onward (free t at) works, empty, idle', same)

  empties_holding :
      (t : Task) (s : System S) → s.worker ≡ holding t → Emptied (freed t (done t s)) → Emptied s
  unfolding Emptied
  empties_holding t s at (u, works, empty, idle', same) =
      (u, onward (run t at) (onward (free t refl) works), empty, idle', same)

  empties_looking : (q : List Task) (s : System S) → s.worker ≡ looking → s.queue ≡ q → Emptied s
  unfolding Emptied
  empties_looking [] s idle empty = (s, rest, empty, idle, refl)
  empties_looking (t ∷ q) s idle first =
      let left =
        (ran_lem io no_adma site other add_task del_task tail head t (del_task t (t ∷ q))
          s.served).0
        ∙ head t q in
      let (u, works, empty, idle', same) =
        empties_holding t (taken t q s) refl
          (empties_looking q (freed t (done t (taken t q s))) refl left) in
      (u, onward (take t q idle first) works, empty, idle', same)

  empties : (s : System S) (w : Worker) → s.worker ≡ w → Emptied s
  empties s looking at = empties_looking s.queue s at refl
  empties s (holding t) at =
      empties_holding t s at (empties_looking _ (freed t (done t s)) refl refl)
  empties s (finished t) at = empties_finished t s at (empties_looking _ (freed t s) refl refl)

  Reach-Works :
      (s : S) (t u : System S)
      → Reach io no_adma site other add_task del_task s t
      → Works io no_adma site other add_task del_task t u
      → Reach io no_adma site other add_task del_task s u
  Reach-Works s t u reach rest = reach
  Reach-Works s t u reach (onward {t = r} w works) = Reach-Works s r u (later reach (work w)) works

  -- The worker alone comes to an empty queue, and has then run what was accepted, in order.
  pub drains :
      (s : S) (t : System S)
      → Reach io no_adma site other add_task del_task s t
      → (u : System S) × (before : List Task) × Works io no_adma site other add_task del_task t u
        × (u.queue ≡ [])
        × Ran io no_adma site other add_task del_task tail head s before u.served.done
            u.served.state
        × Answered site (requests before) u.served.done
        × (requests before ≡ t.accepted)
        × (u.freed ≡ read_tasks before)
  unfolding Emptied
  drains s t reach =
      let (u, works, empty, idle, same) = empties t t.worker refl in
      let (before, run_so, answered, order, gone) =
        order_kept io no_adma site other add_task del_task tail head s u
          (Reach-Works s t u reach works) in
      let all : t.accepted ≡ requests before =
        sym same
        ∙ order
        ∙ rw (idle, empty, append-nil (requests before)) (append-nil (requests before)) in
      let free_all : u.freed ≡ read_tasks before = sym (append-nil u.freed) ∙ rw idle at gone in
      (u, before, works, empty, run_so, answered, sym all, free_all)

  -- From every state that such an interleaving comes to, the worker alone comes to an empty queue,
  -- with every request answered that was accepted before, in order, and its task freed once: the
  -- completion routine, if there is one, was called once, with the status of some code, unless a
  -- pointer on the way is null.
  pub queue_drains :
      (s : S) (t : System S)
      → Reach io no_adma site other add_task del_task s t
      → (u : System S) × Works io no_adma site other add_task del_task t u
        × (u.queue ≡ [])
        × Answered site t.accepted u.served.done
        × (u.freed ≡ map read_task t.accepted)
  queue_drains s t reach =
      let (u, before, works, empty, run_so, answered, all, free_all) = drains s t reach in
      (
        u,
        works,
        empty,
        subst (λ x. Answered site x u.served.done) all answered,
        free_all ∙ rw (← all) (read_tasks-requests before),
      )
