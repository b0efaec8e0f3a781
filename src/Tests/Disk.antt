-- ===== src/Tests/Disk.antt =====
-- SDDisk.cpp at a read and a write of two blocks, with block transfers that fail twice, and at requests
-- to a card of four blocks.
use sinetek_rtsx.Base.{
  ℕ, ◌+◌, ◌-◌, ◌*◌, ◌^◌, ◌<◌, ◌≡◌, ◌↔◌, refl, inl, true, false, Option, none, some, List, [], Bool,
  ◌⊎◌, ◌∷◌, ◌++◌, arith, IoReturn, kio_success,
}
use mathlib.Core.Option
use sinetek_rtsx.Retry.{run_with_retry}
use sinetek_rtsx.Disk.Io.{direction_in, direction_out, IoDirection}
use sinetek_rtsx.Disk.Task.{BioArgs, Completion, Site, Outcome, read_task_impl}
use sinetek_rtsx.Disk.Transfer.{transfer, piece}
use sinetek_rtsx.Disk.Task.Rule.{Ends}
use sinetek_rtsx.Disk.Task.Laws.{ReadEnd, WriteEnd, read_task_read, read_task_write}
use sinetek_rtsx.Disk.Task.Balance.{read_task_balanced}
use sinetek_rtsx.Disk.Request.{Task, Request, DiskView, do_async_read_write}
use sinetek_rtsx.Disk.Request.Laws.{Queues, do_async-accepts, do_async-queue, do_async-wraps}
use sinetek_rtsx.Disk.Nub.{
  Disk, CardView, attach, do_get_format_capacities, report_max_valid_block, report_block_size,
  report_write_protection,
}
use sinetek_rtsx.Disk.Nub.Laws.{attach_reports, format_capacity_exact}
use sinetek_rtsx.Tests.Device.{Device, device, device_storage, device_counted}

abbrev pub start : Device
start = record { card = λ a. a; memory = λ a. a + 1; bounce = λ a. 0; faults = 2; buffers = 0 }

abbrev pub site : Site
site = record { provider = 1; rtsx_softc_original = 2; sdmmc = 3; sc_fn0 = 4; blk_size = 512 }

abbrev pub notify : Completion
notify = record { target = 5; action = 6; parameter = 7 }

abbrev pub two_blocks : IoDirection → BioArgs
two_blocks dir = record {
  buffer = 8;
  direction = dir;
  block = 1;
  nblks = 2;
  attributes = 0;
  completion = notify;
  that = 9;
}

-- The task as it runs: the completion, a byte of the second block, and the buffers left.
read_runs :
    Option.map {B = Option (IoReturn × ℕ) × ℕ × ℕ}
      (λ (o : Outcome Device). (o.completed, o.state.memory 515, o.state.buffers))
      (read_task_impl device false site (some (two_blocks direction_in)) start)
    ≡ some (some (kio_success, 1024), 1027, 0)
unfolding read_task_impl transfer piece run_with_retry
read_runs = refl

read_task_read_example :
    (out : Outcome Device) × (read_task_impl device false site
        (some (two_blocks direction_in))
        start
      ≡ some out)
    × Ends device device_storage false site
        (two_blocks direction_in)
        (ReadEnd device device_storage (two_blocks direction_in) start)
        out
read_task_read_example =
    read_task_read device device_storage (two_blocks direction_in) start false site refl
      (omega arith) refl

read_task_write_example :
    (out : Outcome Device) × (read_task_impl device true site
        (some (two_blocks direction_out))
        start
      ≡ some out)
    × Ends device device_storage true site
        (two_blocks direction_out)
        (WriteEnd device device_storage (two_blocks direction_out) start)
        out
read_task_write_example =
    read_task_write device device_storage (two_blocks direction_out) start true site refl
      (omega arith) refl

read_task_balanced_example :
    (out : Outcome Device) × (read_task_impl device false site
        (some (two_blocks direction_in))
        start
      ≡ some out)
    × (out.state.buffers ≡ 0)
read_task_balanced_example =
    read_task_balanced device device_counted false site (some (two_blocks direction_in)) start

abbrev pub card_of_four : DiskView
card_of_four = record { this = 9; inactive = false; write_enabled = true; num_blocks = 4 }

abbrev pub request : ℕ → ℕ → Request
request block nblks = record {
  buffer = 8;
  direction = direction_in;
  block = block;
  nblks = nblks;
  attributes = none;
  completion = some notify;
}

-- the queue as a list, oldest first
abbrev pub enqueue : Task → List Task → List Task
enqueue t q = q ++ t ∷ []

abbrev pub garbage : BioArgs
garbage = two_blocks direction_in

do_async-accepts_example :
    (do_async_read_write enqueue card_of_four true garbage (request 1 2) []).0 ≡ kio_success
do_async-accepts_example =
    (do_async-accepts enqueue card_of_four true garbage (request 1 2) []).1
      (refl, inl refl, omega arith, refl)

do_async-queue_example :
    Queues enqueue card_of_four true garbage
      (request 1 2)
      []
      (do_async_read_write enqueue card_of_four true garbage (request 1 2) [])
do_async-queue_example = do_async-queue enqueue card_of_four true garbage (request 1 2) []

-- block 2 ^ 64 - 1, and two blocks of it
do_async-wraps_example :
    ((do_async_read_write enqueue card_of_four true garbage (request (2 ^ 64 - 1) 2) []).0
      ≡ kio_success)
    × (4 < 2 ^ 64 - 1 + 2)
do_async-wraps_example =
    do_async-wraps enqueue card_of_four true garbage (request (2 ^ 64 - 1) 2) [] refl refl refl
      (omega arith) (omega arith) (omega arith)

abbrev fresh_disk : Disk
fresh_disk = record {
  provider = 0;
  num_blocks = 0;
  blk_size = 0;
  card_is_write_protected = true;
  sdmmc_softc = 3;
  holds = 0;
}

-- 8 GiB in sectors of 512 bytes
abbrev big_card : CardView
big_card = record { sc_fn0 = 4; capacity = 16777216; sector_size = 512 }

abbrev empty_slot : CardView
empty_slot = record { sc_fn0 = 0; capacity = 0; sector_size = 0 }

-- a card that may be written, under a driver that may not write
attach_reports_example :
    let d' = (attach true 1 big_card false fresh_disk).1 in
    (report_block_size d' ≡ (kio_success, 512))
    × ((report_max_valid_block d').0 ≡ kio_success)
    × ((report_max_valid_block d').1 + 1 ≡ 16777216)
    × ((report_write_protection false d').0 ≡ kio_success)
    × ((report_write_protection false d').1 ≡ true
        ↔ ◌≡◌ {A = Bool} false false ⊎ ◌≡◌ {A = Bool} false true)
unfolding attach
attach_reports_example =
    attach_reports 1 big_card false false fresh_disk (omega arith) (omega arith) (omega arith) refl

abbrev big_disk : Disk
big_disk = record fresh_disk { num_blocks = 16777216; blk_size = 512 }

-- the 8 GiB are not reported
format_capacity_exact_example :
    (do_get_format_capacities big_disk true 1 ≡ (1, some (16777216 * 512)))
    ↔ (16777216 * 512 < 2 ^ 32)
format_capacity_exact_example = format_capacity_exact big_disk 1 (omega arith)
