-- ===== src/Driver/Service/Buffers.antt =====
-- The requests of Sinetek-rtsx/SDDisk.cpp, one after another, over the memory of
-- Sinetek-rtsx/compat/openbsd/dma.cpp.
use sinetek_rtsx.Base.{ℕ, ◌<◌, ◌≡◌, ◌≢◌, refl, Bool, some, List, [], ◌∷◌, ◌++◌, Ptr, null, length}
use sinetek_rtsx.Dict.Valid.{free_slots}
use sinetek_rtsx.Disk.Io.{Io}
use sinetek_rtsx.Disk.Transfer.{send_byte_count}
use sinetek_rtsx.Disk.Task.{BioArgs, Site, Outcome, actual_byte_count, read_task_impl}
use sinetek_rtsx.Disk.Request.{Task}
use sinetek_rtsx.Disk.Buffered.{dma_io, SameHeld, Ready, read_task-Ready}
use sinetek_rtsx.Dma.Alloc.Laws.{Sound}
use sinetek_rtsx.Dma.Mapping.{Mem, Call}
use sinetek_rtsx.Dma.Mapping.Steps.{Good}
use sinetek_rtsx.Driver.Tasks.{Runner, Drained, task_execute_one_impl}
use sinetek_rtsx.Driver.Service.{Log, Served, service, Submission, submit_all, accepted}
use sinetek_rtsx.Driver.Service.Serves.{Serves, all_served, serves_one, of_outcome, action-Serves}

-- Requests that all satisfy `P`.
abbrev pub Every : (BioArgs → Type 0) → List BioArgs → Type 0
Every P [] = Unit
Every P (args ∷ more) = P args × Every P more

-- Requests that satisfy `P`, and one after them.
pub Every-append :
    (P : BioArgs → Type 0) (xs : List BioArgs) (a : BioArgs)
    → Every P (xs ++ a ∷ [])
    → Every P xs × P a
Every-append P [] a e = (tt, e.0)
Every-append P (x ∷ xs) a e =
    let (some_of, last) = Every-append P xs a e.1 in ((e.0, some_of), last)

-- What every request that satisfies `P` keeps, the loop keeps.
-- What every request that satisfies `P` keeps, requests carried out one after another keep.
module _ {S : Type 0} (io : Ptr → Io S) (no_adma : Bool) (site : Site) (P : BioArgs → Type 0)
    (I : S → Type 0)
    (kept : (args : BioArgs) (s : S)
      → P args
      → I s
      → (out : Outcome S) × (read_task_impl (io args.buffer) no_adma site (some args) s ≡ some out)
        × I out.state) where
  pub Serves-keeps :
      (requests : List BioArgs) (s : S) (log : Log) (t : S)
      → Serves io no_adma site requests s log t
      → Every P requests
      → I s
      → I t
  Serves-keeps [] s _ _ all_served ok i = i
  Serves-keeps (args ∷ more) s _ t (serves_one {log = log} out runs rest) ok i =
      let (out', runs', next) = kept args s ok.0 i in
      Serves-keeps more out.state log t rest ok.1
        (of_outcome (λ o. I o.state) out' out runs' runs next)

module _ {D : Type 0} (io : Ptr → Io D) (c : Call) (nsegs : ℕ) (no_adma : Bool) (site : Site)
    (other : Ptr → List Task → D × Mem → List Task × (D × Mem))
    (del_task : Task → List Task → List Task) (lock unlock : D → D)
    (del_task-head : (t : Task) (q : List Task) → del_task t (t ∷ q) ≡ q) where
  abbrev on_device : (D → D) → D × Mem → D × Mem
  on_device f (d, m) = (f d, m)

  abbrev pub calls_over : Ptr → Io (D × Mem)
  calls_over b = dma_io (io b) c nsegs

  abbrev pub buffered_service : Runner (Served (D × Mem))
  buffered_service =
      service calls_over no_adma site other del_task (on_device lock) (on_device unlock)

  -- Physical segments of the buffer that bus_dmamem_alloc() can walk.
  abbrev pub Walks : BioArgs → Type 0
  Walks args = Sound c.kit (send_byte_count (actual_byte_count args site))

  -- For any calls of doAsyncReadWrite(), one after another, where sdmmc_add_task() adds at the end
  -- and sdmmc_del_task() takes the first task off, over dma.cpp with a free slot in a valid
  -- VA_SEGS that does not bind the address of the buffer, pointers that are there, and physical
  -- segments that bus_dmamem_alloc() can walk for each accepted request: the task action, given a
  -- target and one round more than accepted requests, ends with the queue empty, and the
  -- compatibility layer holds as many maps and descriptors as before, with a valid VA_SEGS that
  -- binds the same and has as many free slots, whatever the card answers.
  pub requests_give_back :
      (add_task : Task → List Task → List Task)
      → ((t : Task) (q : List Task) → add_task t q ≡ q ++ t ∷ [])
      → (calls : List Submission) (fuel : ℕ) (target : Ptr) (d : D) (m : Mem) → target ≢ null
      → 0 < nsegs
      → Good c m
      → 0 < free_slots m.va_segs
      → Every Walks (accepted add_task calls)
      → length (accepted add_task calls) < fuel
      → (end : Drained (Served (D × Mem))) × (task_execute_one_impl buffered_service fuel target
            (submit_all add_task calls [])
            (record { state = (d, m); done = [] })
          ≡ some end)
        × (end.queue ≡ [])
        × SameHeld m end.state.state.1
  unfolding Ready
  requests_give_back add_task tail calls fuel target d m nz pos good room walks enough =
      let (log, end, serves, e) =
        action-Serves calls_over no_adma site other del_task (on_device lock) (on_device unlock)
          del_task-head add_task tail calls fuel target (d, m) nz enough in
      let (still, held) =
        Serves-keeps calls_over no_adma site Walks (Ready c m)
          (λ args s. read_task-Ready (io args.buffer) c nsegs no_adma site pos m room args s)
          (accepted add_task calls) (lock d, m) log end serves walks
          (good, (refl, refl, λ j nj. refl, good.valid, refl)) in
      (_, e, refl, held)
