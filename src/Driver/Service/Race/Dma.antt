-- ===== src/Driver/Service/Race/Dma.antt =====
-- Every request that threads submit to Sinetek-rtsx/SDDisk.cpp, over the memory of
-- Sinetek-rtsx/compat/openbsd/dma.cpp.
use sinetek_rtsx.Base.{arith, ℕ, ◌<◌, ◌≡◌, refl, Bool, List, [], ◌∷◌, ◌++◌, map, Ptr}
use sinetek_rtsx.Dict.Valid.{free_slots}
use sinetek_rtsx.Disk.Io.{Io, Storage}
use sinetek_rtsx.Disk.Task.{BioArgs, Site}
use sinetek_rtsx.Disk.Task.Success.{Recovering}
use sinetek_rtsx.Disk.Buffered.{dma_io, SameHeld, Ready, read_task-Ready}
use sinetek_rtsx.Disk.Buffered.Success.{dma_storage, dma_io-Recovering, dma_io-Granted, Provides}
use sinetek_rtsx.Disk.Request.{Task, read_task}
use sinetek_rtsx.Dma.Mapping.{Mem, Call}
use sinetek_rtsx.Dma.Mapping.Steps.{Good}
use sinetek_rtsx.Driver.Service.Buffers.{Every}
use sinetek_rtsx.Driver.Service.Race.{System, Reach, Works}
use sinetek_rtsx.Driver.Service.Race.Success.{Sane, succeeded, queue_succeeds}

abbrev pub over_dma : {D : Type 0} → (Ptr → Io D) → Call → ℕ → Ptr → Io (D × Mem)
over_dma io c nsegs b = dma_io (io b) c nsegs

-- The tasks of the OpenBSD code leave the memory of dma.cpp alone.
abbrev pub device_only : {D : Type 0} → (Ptr → D → D) → Ptr → D × Mem → D × Mem
device_only other p (d, m) = (other p d, m)

module _ {D : Type 0} (io : Ptr → Io D) (st : (b : Ptr) → Storage (io b)) (size : ℕ)
    (recovering : (b : Ptr) → Recovering (io b) size) (c : Call) (nsegs : ℕ) (no_adma : Bool)
    (site : Site) (other : Ptr → D → D) (add_task : Task → List Task → List Task)
    (del_task : Task → List Task → List Task)
    (tail : (t : Task) (q : List Task) → add_task t q ≡ q ++ t ∷ [])
    (head : (t : Task) (q : List Task) → del_task t (t ∷ q) ≡ q) where
  -- A request that the card and its memory can hold, and whose buffer can be had.
  abbrev pub Feasible : BioArgs → Type 0
  Feasible args = Sane io st no_adma size site args × Provides c nsegs site args

  -- Over a card of which no block transfer within its size fails four times in a row, and over
  -- dma.cpp with room for a segment, a free slot in a valid VA_SEGS that does not bind the address
  -- of the buffer, and pointers that are there: from every state that an interleaving of requests,
  -- tasks that the OpenBSD code adds and that leave dma.cpp alone, and the worker comes to, where
  -- sdmmc_add_task() adds at the end and sdmmc_del_task() takes the first task off, and where
  -- every accepted request has a completion routine, blocks on the card that an `int` counts,
  -- memory that covers them, no null pointer on the way, and bytes to move in no more physical
  -- segments than there is room for, of memory that IOKit allocates and prepares: the worker alone
  -- comes to an empty queue, each completion routine was called once, in order, with
  -- kIOReturnSuccess and the byte count of its request, each task was freed once, and the
  -- compatibility layer holds as many maps and descriptors as before, with a valid VA_SEGS that
  -- binds the same and has as many free slots.
  pub dma_queue_succeeds :
      (d : D) (m : Mem) (t : System (D × Mem))
      → 0 < nsegs
      → Good c m
      → 0 < free_slots m.va_segs
      → Reach (over_dma io c nsegs) no_adma site (device_only other) add_task del_task (d, m) t
      → Every Feasible t.accepted
      → (u : System (D × Mem)) × Works
          (over_dma io c nsegs)
          no_adma
          site
          (device_only other)
          add_task
          del_task
          t
          u
        × (u.queue ≡ [])
        × (u.served.done ≡ map (succeeded site) t.accepted)
        × (u.freed ≡ map read_task t.accepted)
        × SameHeld m u.served.state.1
  unfolding Ready
  dma_queue_succeeds d m t pos good room reach feasible =
      let (u, works, empty, done, freed, (still, held)) =
        queue_succeeds (over_dma io c nsegs) (λ b. dma_storage (io b) c nsegs (st b)) no_adma size
          (λ b. dma_io-Recovering (io b) c nsegs size (recovering b)) site (device_only other)
          add_task del_task tail head Feasible (λ args f. f.0) (Ready c m)
          (λ args s f ready.
            dma_io-Granted (io args.buffer) c nsegs no_adma site args s f.1 ready.0
              (omega (arith, ready.1.4)))
          (λ args s f ready.
            read_task-Ready (io args.buffer) c nsegs no_adma site pos m room args s f.1.sound ready)
          (λ p s ready. ready) (d, m) t reach feasible
          (good, (refl, refl, λ j nz. refl, good.valid, refl)) in
      (u, works, empty, done, freed, held)
