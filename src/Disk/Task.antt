-- ===== src/Disk/Task.antt =====
-- The queued request of Sinetek-rtsx/SDDisk.cpp: BioArgs, and the task that carries it out.
pub mod Rule
pub mod Laws
pub mod Keeps
pub mod Balance
pub mod Success
use sinetek_rtsx.Base.{
  ℕ, ◌+◌, ◌*◌, ◌/◌, ◌%◌, ◌^◌, Bool, true, false, Option, none, some, Ptr, null, Code, Errno,
  is_error, is_null, enomem, is_enomem, IoReturn, kio_success, kio_no_memory, kio_io_error, ltb,
  ◌||◌, if◌then◌else◌,
}
use sinetek_rtsx.Disk.Io.{Io, IoDirection}
use sinetek_rtsx.Disk.Transfer.{transfer, max_send_bytes, send_byte_count}

-- IOStorageCompletion
pub record Completion : Type 0 where
  pub target : Ptr
  pub action : Ptr
  pub parameter : Ptr

pub record BioArgs : Type 0 where
  pub buffer : Ptr
  pub direction : IoDirection
  pub block : ℕ
  pub nblks : ℕ
  pub attributes : ℕ
  pub completion : Completion
  pub that : Ptr

-- What the pointers behind `args->that` show when the task runs.
pub record Site : Type 0 where
  pub provider : Ptr
  pub rtsx_softc_original : Ptr
  pub sdmmc : Ptr
  pub sc_fn0 : Ptr
  pub blk_size : ℕ

-- What the task did: the call of the completion routine, if any, and whether `args` was deleted.
pub record Outcome (S : Type 0) : Type 0 where
  pub completed : Option (IoReturn × ℕ)
  pub deleted : Bool
  pub state : S

-- The rounds that the loop needs at most, and one for its end.
abbrev pub fuel_for : ℕ → ℕ
fuel_for bytes = bytes / max_send_bytes + 2

-- actualByteCount and remainingBytes, both 64 bits wide
abbrev pub actual_byte_count : BioArgs → Site → ℕ
actual_byte_count args site = args.nblks * site.blk_size % 2 ^ 64

abbrev pub request_bytes : BioArgs → ℕ
request_bytes args = args.nblks * 512 % 2 ^ 64

-- the buffer from dma_alloc(), or the static buffer
unfoldable pub transfer_buffered : {S : Type 0} → Io S → Bool → BioArgs → ℕ → S → Option (Code × S)
transfer_buffered io no_adma args actual s =
    let bytes = request_bytes args in
    let move = transfer io args.direction (fuel_for bytes) (args.block % 2 ^ 32) bytes 0 in
    let (got, s1) = io.dma_alloc (send_byte_count actual) args.direction s in
    if no_adma
    then move s
    else if got
    then elim (move s1) [ none ↦ none | some (error, s2) ↦ some (error, io.dma_free actual s2) ]
    else some (some enomem, s1)

-- the arguments of the completion routine
unfoldable pub completion_status : Code → ℕ → IoReturn × ℕ
completion_status none actual = (kio_success, actual)
completion_status (some e) actual = (if is_enomem e then kio_no_memory else kio_io_error, 0)

-- the label `complete:`
unfoldable pub complete : {S : Type 0} → BioArgs → ℕ → Code × S → Outcome S
unfolding completion_status
complete args actual (error, s) = record {
  completed =
      if is_null args.completion.action then none else some (completion_status error actual);
  deleted = true;
  state = s;
}

-- the UTL_CHK_PTR lines, after that of `args` itself
abbrev pub some_null : BioArgs → Site → Bool
some_null args site =
    is_null args.buffer
    || is_null args.that
    || is_null site.provider
    || is_null site.rtsx_softc_original
    || is_null site.sdmmc
    || is_null site.sc_fn0

-- `none` as the result means that the loop's fuel ran out; `none` for `args` is the null pointer.
unfoldable pub read_task_impl :
    {S : Type 0} → Io S → Bool → Site → Option BioArgs → S → Option (Outcome S)
unfolding transfer_buffered complete
read_task_impl io no_adma site none s =
    some (record { completed = none; deleted = false; state = s })
read_task_impl io no_adma site (some args) s =
    let actual = actual_byte_count args site in
    if some_null args site
    then some (record { completed = none; deleted = false; state = s })
    else elim (transfer_buffered io no_adma args actual s) [
      | none ↦ none
      | some done ↦ some (complete args actual done)
    ]
