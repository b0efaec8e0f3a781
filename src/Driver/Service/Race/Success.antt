-- ===== src/Driver/Service/Race/Success.antt =====
-- When every request that threads submit to Sinetek-rtsx/SDDisk.cpp succeeds.
use sinetek_rtsx.Base.{
  ℕ, ◌+◌, ◌*◌, ◌≤◌, ◌≡◌, ◌≢◌, refl, sym, ◌∙◌, ap, Bool, false, Option, some, List, [], ◌∷◌, ◌++◌,
  map, Ptr, null, IoReturn, kio_success, subst,
}
use mathlib.Core.List.{map-append}
use sinetek_rtsx.Disk.Io.{Io, Storage}
use sinetek_rtsx.Disk.Task.{
  BioArgs, Completion, Site, Outcome, some_null, actual_byte_count, read_task_impl,
}
use sinetek_rtsx.Disk.Task.Laws.{Fits}
use sinetek_rtsx.Disk.Task.Success.{Recovering, Granted, read_task_succeeds}
use sinetek_rtsx.Disk.Request.{Task, read_task}
use sinetek_rtsx.Driver.Service.{Log}
use sinetek_rtsx.Driver.Service.Serves.{of_outcome}
use sinetek_rtsx.Driver.Service.Buffers.{Every, Every-append}
use sinetek_rtsx.Driver.Service.Race.{System, Reach, Works}
use sinetek_rtsx.Driver.Service.Race.Order.{
  Ran, none_ran, then_other, then_request, requests, requests-other, requests-request,
}
use sinetek_rtsx.Driver.Service.Race.Drain.{drains, read_tasks-requests}

module _ {S : Type 0} (io : Ptr → Io S) (st : (b : Ptr) → Storage (io b)) (no_adma : Bool)
    (size : ℕ) (site : Site) where
  -- A request on the card, whose memory covers it, with a completion routine and no null pointer.
  abbrev pub Sane : BioArgs → Type 0
  Sane args =
      Fits args (st args.buffer).size
      × ((args.block + args.nblks) * 512 ≤ size)
      × (some_null args site ≡ false)
      × (args.completion.action ≢ null)

-- Its completion routine is called with kIOReturnSuccess and all of its bytes.
abbrev pub succeeded : Site → BioArgs → Completion × Option (IoReturn × ℕ)
succeeded site args = (args.completion, some (kio_success, actual_byte_count args site))

-- Requests that satisfy `P`, in states that satisfy `Ok`, which give them a buffer.
module _ {S : Type 0} (io : Ptr → Io S) (st : (b : Ptr) → Storage (io b)) (no_adma : Bool)
    (size : ℕ) (recovering : (b : Ptr) → Recovering (io b) size) (site : Site) (other : Ptr → S → S)
    (add_task : Task → List Task → List Task) (del_task : Task → List Task → List Task)
    (tail : (t : Task) (q : List Task) → add_task t q ≡ q ++ t ∷ [])
    (head : (t : Task) (q : List Task) → del_task t (t ∷ q) ≡ q) (P : BioArgs → Type 0)
    (sane : (args : BioArgs) → P args → Sane io st no_adma size site args) (Ok : S → Type 0)
    (grants : (args : BioArgs) (s : S)
      → P args
      → Ok s
      → Granted (io args.buffer) no_adma site args s)
    (keeps : (args : BioArgs) (s : S)
      → P args
      → Ok s
      → (out : Outcome S) × (read_task_impl (io args.buffer) no_adma site (some args) s ≡ some out)
        × Ok out.state)
    (other_keeps : (p : Ptr) (s : S) → Ok s → Ok (other p s)) where
  Ran-succeeded :
      (s : S) (ran : List Task) (log : Log) (t : S)
      → Ran io no_adma site other add_task del_task tail head s ran log t
      → Every P (requests ran)
      → Ok s
      → (log ≡ map (succeeded site) (requests ran)) × Ok t
  Ran-succeeded s _ _ _ none_ran fine ok = (refl, ok)
  Ran-succeeded s _ log _ (then_other {before = before} {t = t} p r) fine ok =
      let (all, still) =
        Ran-succeeded s before log t r (subst (Every P) (requests-other before p) fine) ok in
      (all ∙ ap (map (succeeded site)) (sym (requests-other before p)), other_keeps p t still)
  Ran-succeeded s _ _ _ (then_request {before = before} {log = log} {t = t} args out r runs) fine
        ok =
      let (so_far, this) =
        Every-append P (requests before) args
          (subst (Every P) (requests-request before args) fine) in
      let (all, still) = Ran-succeeded s before log t r so_far ok in
      let (fits, on_card, good, notified) = sane args this in
      let (out1, runs1, success, deleted) =
        read_task_succeeds (io args.buffer) (st args.buffer) size (recovering args.buffer) no_adma
          site args t fits on_card good notified (grants args t this still) in
      let reported =
        of_outcome (λ o. o.completed ≡ some (kio_success, actual_byte_count args site)) out1 out
          runs1 runs success in
      let (out2, runs2, after) = keeps args t this still in
      (
        rw (all, reported, requests-request before args)
            (sym (map-append (succeeded site) (requests before) (args ∷ []))),
        of_outcome (λ o. Ok o.state) out2 out runs2 runs after,
      )

  pub queue_succeeds :
      (s : S) (t : System S)
      → Reach io no_adma site other add_task del_task s t
      → Every P t.accepted
      → Ok s
      → (u : System S) × Works io no_adma site other add_task del_task t u
        × (u.queue ≡ [])
        × (u.served.done ≡ map (succeeded site) t.accepted)
        × (u.freed ≡ map read_task t.accepted)
        × Ok u.served.state
  queue_succeeds s t reach fine ok =
      let (u, before, works, empty, run_so, answered, all, free_all) =
        drains io no_adma site other add_task del_task tail head s t reach in
      let (done, still) =
        Ran-succeeded s before u.served.done u.served.state run_so (subst (Every P) (sym all) fine)
          ok in
      (
        u,
        works,
        empty,
        done ∙ ap (map (succeeded site)) all,
        free_all ∙ read_tasks-requests before ∙ ap (map read_task) all,
        still,
      )
