-- ===== src/Disk/Request.antt =====
-- doAsyncReadWrite() of Sinetek-rtsx/SDDisk.cpp: the checks on a request, and its task.
pub mod Laws
use sinetek_rtsx.Base.{
  ℕ, ◌+◌, ◌-◌, ◌%◌, ◌^◌, ◌≤◌, ◌<◌, ◌≡◌, refl, ◌↔◌, ◌⊎◌, Bool, true, false, not, ◌&&◌, ◌||◌, Option,
  none, some, arith, Ptr, IoReturn, kio_success, kio_no_memory, kio_not_attached, kio_bad_argument,
  kio_not_writable, ltb, if◌then◌else◌,
}
use sinetek_rtsx.Disk.Io.{
  IoDirection, direction_none, direction_in, direction_out, direction_in_out, is_in,
}
use sinetek_rtsx.Disk.Task.{BioArgs, Completion}

abbrev pub is_out : IoDirection → Bool
is_out direction_out = true
is_out d = false

-- What `init_task` puts in an sdmmc_task: the function with its argument. The kext queues requests;
-- the OpenBSD code queues tasks of its own.
pub data Task : Type 0 where
  read_task : BioArgs → Task
  other_task : Ptr → Task

-- The arguments of the call.
pub record Request : Type 0 where
  pub buffer : Ptr
  pub direction : IoDirection  -- buffer->getDirection()
  pub block : ℕ  -- UInt64
  pub nblks : ℕ  -- UInt64
  pub attributes : Option ℕ
  pub completion : Option Completion

-- What the method reads of its object and of its provider.
pub record DiskView : Type 0 where
  pub this : Ptr
  pub inactive : Bool  -- isInactive()
  pub write_enabled : Bool  -- provider_->writeEnabled()
  pub num_blocks : ℕ  -- uint32_t

abbrev pub or_else {ℓ} : {A : Type ℓ} → Option A → A → A
or_else none d = d
or_else (some a) d = a

-- `*bioargs`, over the memory that `new` returned, which nothing initialises.
unfoldable pub fill_args : BioArgs → Ptr → Request → BioArgs
fill_args fresh this r = record {
  buffer = r.buffer;
  direction = r.direction;
  block = r.block;
  nblks = r.nblks;
  attributes = or_else r.attributes fresh.attributes;
  completion = or_else r.completion fresh.completion;
  that = this;
}

module _ {Q : Type 0} (add_task : Task → Q → Q) where
  -- `allocated` says whether UTL_MALLOC(sdmmc_task) gave a task.
  unfoldable pub do_async_read_write : DiskView → Bool → BioArgs → Request → Q → IoReturn × Q
  unfolding fill_args
  do_async_read_write d allocated fresh r q =
      if d.inactive
      then (kio_not_attached, q)
      else if not (is_in r.direction) && not (is_out r.direction)
      then (kio_bad_argument, q)
      else if not d.write_enabled && is_out r.direction
      then (kio_not_writable, q)
      else if ltb d.num_blocks ((r.block + r.nblks) % 2 ^ 64)
      then (kio_bad_argument, q)
      else if not (is_in r.direction) && not (is_out r.direction)
      then (kio_bad_argument, q)
      else if not allocated
      then (kio_no_memory, q)
      else (kio_success, add_task (read_task (fill_args fresh d.this r)) q)
