-- ===== src/Disk/Transfer.antt =====
-- read_task_impl_() of Sinetek-rtsx/SDDisk.cpp: a queued request is carried out in pieces of at most
-- 128 KiB through the bounce buffer.
pub mod Loop
pub mod Reads
pub mod ReadOk
mod Writes
pub mod WriteOk
use sinetek_rtsx.Base.{
  ℕ, zero, suc, ◌+◌, ◌-◌, ◌*◌, ◌/◌, ◌%◌, ◌^◌, Bool, true, false, not, Option, none, some, Ptr, Code,
  success, is_error, is_null, Errno, eio, enomem, is_enomem, IoReturn, kio_success, kio_no_memory,
  kio_io_error, ltb, ◌==◌, ◌||◌, if◌then◌else◌,
}
use sinetek_rtsx.Retry.{run_with_retry}
use sinetek_rtsx.Disk.Io.{Io, IoDirection, is_in}

abbrev pub max_send_bytes : ℕ
max_send_bytes = 128 * 1024

abbrev pub retries : ℕ
retries = 3

module _ {S : Type 0} (io : Io S) where
  -- card to buffer to memory
  unfoldable pub read_piece : ℕ → ℕ → ℕ → S → Code × S
  read_piece blocks sent count s =
      let (error, s1) = run_with_retry retries (io.read_block blocks count) s in
      let (copied, s2) = io.write_bytes sent count s1 in
      if is_error error then (error, s1) else if copied == 0 then (some eio, s2) else (success, s2)

  -- memory to buffer to card
  unfoldable pub write_piece : ℕ → ℕ → ℕ → S → Code × S
  write_piece blocks sent count s =
      let (copied, s1) = io.read_bytes sent count s in
      if copied == 0
      then (some eio, s1)
      else run_with_retry retries (io.write_block blocks count) s1

  unfoldable pub piece : IoDirection → ℕ → ℕ → ℕ → S → Code × S
  unfolding read_piece write_piece
  piece dir blocks sent count s =
      if is_in dir then read_piece blocks sent count s else write_piece blocks sent count s

abbrev pub send_byte_count : ℕ → ℕ
send_byte_count remaining = if ltb max_send_bytes remaining then max_send_bytes else remaining

-- `while (remainingBytes > 0)`, with fuel; `none` means that the fuel ran out. `blocks` is an `int`,
-- kept as its bit pattern.
unfoldable pub transfer : {S : Type 0} → Io S → IoDirection → ℕ → ℕ → ℕ → ℕ → S → Option (Code × S)
transfer io dir zero blocks remaining sent s = none
transfer io dir (suc fuel) blocks remaining sent s =
    let count = send_byte_count remaining in
    let done = piece io dir blocks sent count s in
    let rest =
      transfer io dir fuel ((blocks + count / 512) % 2 ^ 32) (remaining - count)
        ((sent + count) % 2 ^ 64) done.1 in
    if ltb 0 remaining then if is_error done.0 then some done else rest else some (success, s)
