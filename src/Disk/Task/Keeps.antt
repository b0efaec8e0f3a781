-- ===== src/Disk/Task/Keeps.antt =====
-- read_task_impl_() in Sinetek-rtsx/SDDisk.cpp: what its loop leaves as it was.
use sinetek_rtsx.Base.{ℕ, ◌≡◌, refl, ◌∙◌, some, arith, Code}
use sinetek_rtsx.Retry.{run_with_retry, run_with_retry_inv}
use sinetek_rtsx.Disk.Io.{Io, IoDirection}
use sinetek_rtsx.Disk.Transfer.{transfer, piece, send_byte_count, read_piece, write_piece, retries}
use sinetek_rtsx.Disk.Transfer.Loop.{transfer_rule}
use sinetek_rtsx.Disk.Task.{fuel_for}

-- A part of the state that only dma_alloc() and dma_free() may change.
pub record Keeps {S A : Type 0} (io : Io S) (view : S → A) : Type 0 where
  pub read_block-keeps : (blk len : ℕ) (s : S) → view (io.read_block blk len s).1 ≡ view s
  pub write_block-keeps : (blk len : ℕ) (s : S) → view (io.write_block blk len s).1 ≡ view s
  pub write_bytes-keeps : (off len : ℕ) (s : S) → view (io.write_bytes off len s).1 ≡ view s
  pub read_bytes-keeps : (off len : ℕ) (s : S) → view (io.read_bytes off len s).1 ≡ view s

module _ {S A : Type 0} (io : Io S) (view : S → A) (keeps : Keeps io view) where
  read_piece-keeps :
      (blocks sent count : ℕ) (s : S) → view (read_piece io blocks sent count s).1 ≡ view s
  unfolding read_piece
  read_piece-keeps blocks sent count s =
      let f = io.read_block blocks count in
      let tried =
        run_with_retry_inv f (λ t. view t ≡ view s)
          (λ t e. keeps.read_block-keeps blocks count t ∙ e) retries s refl in
      ground (arith, tried, keeps.write_bytes-keeps sent count (run_with_retry retries f s).1)

  write_piece-keeps :
      (blocks sent count : ℕ) (s : S) → view (write_piece io blocks sent count s).1 ≡ view s
  unfolding write_piece
  write_piece-keeps blocks sent count s =
      let s1 = (io.read_bytes sent count s).1 in
      let tried =
        run_with_retry_inv (io.write_block blocks count) (λ t. view t ≡ view s1)
          (λ t e. keeps.write_block-keeps blocks count t ∙ e) retries s1 refl in
      ground (arith, tried, keeps.read_bytes-keeps sent count s)

  piece-keeps :
      (dir : IoDirection) (blocks sent count : ℕ) (s : S)
      → view (piece io dir blocks sent count s).1 ≡ view s
  unfolding piece
  piece-keeps dir blocks sent count s =
      ground (arith, read_piece-keeps blocks sent count s, write_piece-keeps blocks sent count s)

  -- The loop ends, and leaves that part as it was.
  pub transfer-keeps :
      (dir : IoDirection) (block bytes : ℕ) (s : S)
      → (out : Code × S) × (transfer io dir (fuel_for bytes) block bytes 0 s ≡ some out)
        × (view out.1 ≡ view s)
  transfer-keeps dir block bytes s =
      transfer_rule io dir (λ b r t u. view u ≡ view s) (λ c u. view u ≡ view s)
        (λ b r t u e same more bad. piece-keeps dir b t (send_byte_count r) u ∙ same)
        (λ b r t u same more good. piece-keeps dir b t (send_byte_count r) u ∙ same)
        (λ b t u same. same) (fuel_for bytes) block bytes 0 s refl (omega arith)
