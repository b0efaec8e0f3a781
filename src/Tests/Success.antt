-- ===== src/Tests/Success.antt =====
-- Requests of two blocks over the memory of dma.cpp, while the worker holds the first one.
use sinetek_rtsx.Base.{
  kio_success, ℕ, ◌+◌, ◌*◌, ◌≡◌, refl, true, false, some, [], ◌∷◌, arith, ltb, if◌then◌else◌,
}
use sinetek_rtsx.Disk.Io.{direction_in}
use sinetek_rtsx.Disk.Buffered.{SameHeld}
use sinetek_rtsx.Disk.Buffered.Success.{Provides}
use sinetek_rtsx.Disk.Request.{read_task, fill_args, do_async_read_write}
use sinetek_rtsx.Dict.{init, get_value_from_list}
use sinetek_rtsx.Dict.Valid.{init-IsValid}
use sinetek_rtsx.Dma.Alloc.{Extent, Kit}
use sinetek_rtsx.Dma.Alloc.Loop.{Covers, done, piece}
use sinetek_rtsx.Dma.Alloc.Laws.{Sound}
use sinetek_rtsx.Dma.Mapping.{Mem, Call}
use sinetek_rtsx.Dma.Mapping.Steps.{Good}
use sinetek_rtsx.Driver.Service.{Submission}
use sinetek_rtsx.Driver.Service.Race.{System, Step, Reach, Works, later, work, take}
use sinetek_rtsx.Driver.Service.Race.Dma.{over_dma, device_only, dma_queue_succeeds}
use sinetek_rtsx.Tests.Device.{Device}
use sinetek_rtsx.Tests.Memories.{devices, devices_storage, devices-Recovering, card_bytes}
use sinetek_rtsx.Tests.Disk.{notify, start, site, enqueue}
use sinetek_rtsx.Tests.Dma.{holding}
use sinetek_rtsx.Tests.ReadBack.{call, args_of_call, write_two, untouched}
use sinetek_rtsx.Tests.Service.{first_off}

-- 1024 bytes in two physical segments.
abbrev halves : ℕ → Extent
halves off = if ltb off 1024 then (8192 + 2 * off, 512) else (0, 0)

abbrev small_kit : Kit
small_kit = record { mem_desc = 11; prepared = true; physical_segment = halves }

abbrev small_call : Call
small_call = record {
  kit = small_kit;
  mapped = 21;
  addr = 4096;
  tag = 1;
  segs = 2;
  rsegs = 3;
  kvap = 5;
}

small_kit-Sound : Sound small_kit 1024
small_kit-Sound = record {
  bounded = λ off h. ground arith;
  first_pos = omega arith;
  first_le = omega arith;
}

init-small : Good small_call (holding init)
unfolding get_value_from_list init
init-small = record {
  segs_set = omega arith;
  kvap_set = omega arith;
  desc_set = omega arith;
  map_set = omega arith;
  key = (omega arith, omega arith);
  valid = init-IsValid;
  fresh = refl;
}

abbrev read_two : Submission
read_two = call direction_in 10 0 2

abbrev Reaches : System (Device × Mem) → Type 0
Reaches =
    Reach (over_dma devices small_call 4) false site (device_only untouched) enqueue first_off
      (start, holding init)

two_requests : (t : System (Device × Mem)) × Reaches t
unfolding do_async_read_write
two_requests = (
  _,
  later
      (later (later Reach.start (Step.request write_two))
        (work (take (read_task (args_of_call write_two)) [] refl refl)))
      (Step.request read_two),
)

covers : Covers halves 1024 0 ((8192, 512) ∷ (9216, 512) ∷ [])
covers = piece refl (omega arith) (omega arith) (piece refl (omega arith) (omega arith) (done refl))

write_two-Provides : Provides small_call 4 site (args_of_call write_two)
unfolding fill_args
write_two-Provides = record {
  sound = small_kit-Sound;
  extents = (8192, 512) ∷ (9216, 512) ∷ [];
  covers = covers;
  few = omega arith;
  some_bytes = omega arith;
  tag_set = omega arith;
  rsegs_set = omega arith;
  prepared = refl;
}

read_two-Provides : Provides small_call 4 site (args_of_call read_two)
unfolding fill_args
read_two-Provides = record {
  sound = small_kit-Sound;
  extents = (8192, 512) ∷ (9216, 512) ∷ [];
  covers = covers;
  few = omega arith;
  some_bytes = omega arith;
  tag_set = omega arith;
  rsegs_set = omega arith;
  prepared = refl;
}

-- The two faults of the device are made good by the retries.
dma_queue_succeeds_example :
    (u : System (Device × Mem)) × Works
      (over_dma devices small_call 4)
      false
      site
      (device_only untouched)
      enqueue
      first_off
      two_requests.0
      u
    × (u.queue ≡ [])
    × (u.served.done ≡ (notify, some (kio_success, 1024)) ∷ (notify, some (kio_success, 1024)) ∷ [])
    × (u.freed ≡ read_task (args_of_call write_two) ∷ read_task (args_of_call read_two) ∷ [])
    × SameHeld (holding init) u.served.state.1
unfolding init do_async_read_write two_requests
dma_queue_succeeds_example =
    dma_queue_succeeds devices devices_storage card_bytes devices-Recovering small_call 4 false site
      untouched enqueue first_off (λ t q. refl) (λ t q. refl) start (holding init) two_requests.0
      (omega arith) init-small (omega arith) two_requests.1
      (
        ((omega arith, omega arith, refl, omega arith), write_two-Provides),
        (((omega arith, omega arith, refl, omega arith), read_two-Provides), tt),
      )
