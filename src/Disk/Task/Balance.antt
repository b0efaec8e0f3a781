-- ===== src/Disk/Task/Balance.antt =====
-- read_task_impl_() in Sinetek-rtsx/SDDisk.cpp: it always ends, and its bounce buffer with it.
use sinetek_rtsx.Base.{
  ℕ, suc, ◌-◌, ◌%◌, ◌^◌, ◌≡◌, refl, Bool, Option, none, some, arith, Code, Errno, if◌then◌else◌,
  Bool-cases, inl, inr,
}
use sinetek_rtsx.Disk.Io.{Io, IoDirection}
use sinetek_rtsx.Disk.Transfer.{send_byte_count}
use sinetek_rtsx.Disk.Task.Keeps.{Keeps, transfer-keeps}
use sinetek_rtsx.Disk.Task.{
  BioArgs, Site, Outcome, request_bytes, actual_byte_count, transfer_buffered, complete, some_null,
  read_task_impl,
}

-- The count of DMA buffers that are allocated: only dma_alloc() and dma_free() change it.
pub record Counted {S : Type 0} (io : Io S) : Type 0 where
  pub outstanding : S → ℕ
  pub keeps : Keeps io outstanding
  pub dma_alloc-counted :
      (len : ℕ) (dir : IoDirection) (s : S)
      → outstanding (io.dma_alloc len dir s).1
        ≡ (if (io.dma_alloc len dir s).0 then suc (outstanding s) else outstanding s)
  pub dma_free-counted : (len : ℕ) (s : S) → outstanding (io.dma_free len s) ≡ outstanding s - 1

module _ {S : Type 0} (io : Io S) (ct : Counted io) where
  open ct use {outstanding}

  buffered-counted :
      (no_adma : Bool) (args : BioArgs) (actual : ℕ) (s : S)
      → (out : Code × S) × (transfer_buffered io no_adma args actual s ≡ some out)
        × (outstanding out.1 ≡ outstanding s)
  unfolding transfer_buffered
  buffered-counted no_adma args actual s =
      let s1 = (io.dma_alloc (send_byte_count actual) args.direction s).1 in
      let held = ct.dma_alloc-counted (send_byte_count actual) args.direction s in
      let moved = λ (t : S).
        transfer-keeps io outstanding ct.keeps args.direction (args.block % 2 ^ 32)
          (request_bytes args) t in
      elim (Bool-cases no_adma) [
        | inl e ↦ rw e (moved s)
        | inr e ↦ elim (Bool-cases (io.dma_alloc (send_byte_count actual) args.direction s).0) [
          | inl got ↦
              let (out, runs, same) = moved s1 in
              (
                (out.0, io.dma_free actual out.1),
                ground arith,
                ground (arith, ct.dma_free-counted actual out.1),
              )
          | inr refused ↦ ((some Errno.enomem, s1), ground arith, ground arith)
        ]
      ]

  -- Whatever the request, and whatever its calls answer, the task ends, and every DMA buffer that
  -- it allocated is freed, where only dma_alloc() and dma_free() change the number of buffers.
  pub read_task_balanced :
      (no_adma : Bool) (site : Site) (args : Option BioArgs) (s : S)
      → (out : Outcome S) × (read_task_impl io no_adma site args s ≡ some out)
        × (outstanding out.state ≡ outstanding s)
  unfolding read_task_impl
  read_task_balanced no_adma site none s = (_, refl, refl)
  read_task_balanced no_adma site (some args) s =
      let (done, runs, same) = buffered-counted no_adma args (actual_byte_count args site) s in
      elim (Bool-cases (some_null args site)) [
        | inl bad ↦ rw (bad, read_task_impl) (_, refl, refl)
        | inr good ↦
            rw (good, runs, read_task_impl)
              (complete args (actual_byte_count args site) done, refl, same)
      ]
