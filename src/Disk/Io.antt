-- ===== src/Disk/Io.antt =====
-- What read_task_impl_() of Sinetek-rtsx/SDDisk.cpp calls: the OpenBSD driver's block transfers, the
-- memory descriptor of the request, and the bounce buffer. All act on a state `S`.
use sinetek_rtsx.Base.{
  ℕ, ◌+◌, ◌-◌, ◌*◌, ◌<◌, ◌≡◌, none, min, Code, Bool, ltb, leb, ◌&&◌, if◌then◌else◌,
}

-- kIODirectionIn is a read of the card.
pub data IoDirection : Type 0 where
  direction_none direction_in direction_out direction_in_out : IoDirection

abbrev pub is_in : IoDirection → Bool
is_in direction_in = Bool.true
is_in d = Bool.false

pub record Io (S : Type 0) : Type 0 where
  -- sdmmc_mem_read_block(sc_fn0, blkno, buf, len), and write
  pub read_block : ℕ → ℕ → S → Code × S
  pub write_block : ℕ → ℕ → S → Code × S
  -- args->buffer->writeBytes(offset, buf, length) and readBytes: the number of bytes copied
  pub write_bytes : ℕ → ℕ → S → ℕ × S
  pub read_bytes : ℕ → ℕ → S → ℕ × S
  -- dma_alloc(size, …, flags), false for nullptr, and dma_free(kva, size, …)
  pub dma_alloc : ℕ → IoDirection → S → Bool × S
  pub dma_free : ℕ → S → S

abbrev pub block_size : ℕ
block_size = 512

-- A range of addresses as a test.
abbrev pub within : ℕ → ℕ → ℕ → Bool
within start len a = leb start a && ltb a (start + len)

-- The documented behaviour of these calls, over what the state shows of the card, of the request's
-- memory and of the bounce buffer, byte by byte.
pub record Storage {S : Type 0} (io : Io S) : Type 0 where
  pub card : S → ℕ → ℕ
  pub memory : S → ℕ → ℕ
  pub bounce : S → ℕ → ℕ
  -- the length of the memory descriptor
  pub size : ℕ
  pub read_block-card :
      (blk len : ℕ) (s : S) (a : ℕ) → card (io.read_block blk len s).1 a ≡ card s a
  pub read_block-memory :
      (blk len : ℕ) (s : S) (a : ℕ) → memory (io.read_block blk len s).1 a ≡ memory s a
  pub read_block-bounce :
      (blk len : ℕ) (s : S) (i : ℕ)
      → (io.read_block blk len s).0 ≡ none
      → i < len
      → bounce (io.read_block blk len s).1 i ≡ card s (blk * block_size + i)
  pub write_block-memory :
      (blk len : ℕ) (s : S) (a : ℕ) → memory (io.write_block blk len s).1 a ≡ memory s a
  pub write_block-bounce :
      (blk len : ℕ) (s : S) (a : ℕ) → bounce (io.write_block blk len s).1 a ≡ bounce s a
  -- a failed write may leave anything in its own range
  pub write_block-outside :
      (blk len : ℕ) (s : S) (a : ℕ)
      → within (blk * block_size) len a ≡ Bool.false
      → card (io.write_block blk len s).1 a ≡ card s a
  pub write_block-inside :
      (blk len : ℕ) (s : S) (i : ℕ)
      → (io.write_block blk len s).0 ≡ none
      → i < len
      → card (io.write_block blk len s).1 (blk * block_size + i) ≡ bounce s i
  pub write_bytes-count :
      (off len : ℕ) (s : S) → (io.write_bytes off len s).0 ≡ min len (size - off)
  pub write_bytes-card :
      (off len : ℕ) (s : S) (a : ℕ) → card (io.write_bytes off len s).1 a ≡ card s a
  pub write_bytes-memory :
      (off len : ℕ) (s : S) (a : ℕ)
      → memory (io.write_bytes off len s).1 a
        ≡ (if within off (min len (size - off)) a then bounce s (a - off) else memory s a)
  pub read_bytes-count : (off len : ℕ) (s : S) → (io.read_bytes off len s).0 ≡ min len (size - off)
  pub read_bytes-card :
      (off len : ℕ) (s : S) (a : ℕ) → card (io.read_bytes off len s).1 a ≡ card s a
  pub read_bytes-memory :
      (off len : ℕ) (s : S) (a : ℕ) → memory (io.read_bytes off len s).1 a ≡ memory s a
  pub read_bytes-bounce :
      (off len : ℕ) (s : S) (i : ℕ)
      → bounce (io.read_bytes off len s).1 i
        ≡ (if ltb i (min len (size - off)) then memory s (off + i) else bounce s i)
  pub dma_alloc-card :
      (len : ℕ) (dir : IoDirection) (s : S) (a : ℕ) → card (io.dma_alloc len dir s).1 a ≡ card s a
  pub dma_alloc-memory :
      (len : ℕ) (dir : IoDirection) (s : S) (a : ℕ)
      → memory (io.dma_alloc len dir s).1 a ≡ memory s a
  pub dma_free-card : (len : ℕ) (s : S) (a : ℕ) → card (io.dma_free len s) a ≡ card s a
  pub dma_free-memory : (len : ℕ) (s : S) (a : ℕ) → memory (io.dma_free len s) a ≡ memory s a
