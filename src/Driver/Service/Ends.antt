-- ===== src/Driver/Service/Ends.antt =====
-- read_task_impl_() in Sinetek-rtsx/SDDisk.cpp ends, whatever its calls answer.
use sinetek_rtsx.Base.{
  ℕ, ◌%◌, ◌^◌, ◌≡◌, refl, Bool, false, some, arith, Code, Errno, Bool-cases, inl, inr,
}
use sinetek_rtsx.Disk.Io.{Io, IoDirection}
use sinetek_rtsx.Disk.Transfer.{transfer, send_byte_count}
use sinetek_rtsx.Disk.Transfer.Loop.{transfer_rule}
use sinetek_rtsx.Disk.Task.{
  BioArgs, Site, fuel_for, request_bytes, actual_byte_count, transfer_buffered, complete, some_null,
  read_task_impl,
}

module _ {S : Type 0} (io : Io S) where
  transfer_ends :
      (dir : IoDirection) (block bytes : ℕ) (s : S)
      → (out : Code × S) × (transfer io dir (fuel_for bytes) block bytes 0 s ≡ some out)
  transfer_ends dir block bytes s =
      let (out, runs, end) =
        transfer_rule io dir (λ b r t u. Unit {0}) (λ c u. Unit {0}) (λ b r t u e i m f. tt)
          (λ b r t u i m f. tt) (λ b t u i. tt) (fuel_for bytes) block bytes 0 s tt (omega arith) in
      (out, runs)

  buffered_ends :
      (no_adma : Bool) (args : BioArgs) (actual : ℕ) (s : S)
      → (out : Code × S) × (transfer_buffered io no_adma args actual s ≡ some out)
  unfolding transfer_buffered
  buffered_ends no_adma args actual s =
      let s1 = (io.dma_alloc (send_byte_count actual) args.direction s).1 in
      let moved =
        λ (t : S). transfer_ends args.direction (args.block % 2 ^ 32) (request_bytes args) t in
      elim (Bool-cases no_adma) [
        | inl e ↦ rw e (moved s)
        | inr e ↦ elim (Bool-cases (io.dma_alloc (send_byte_count actual) args.direction s).0) [
          | inl got ↦
              let (out, runs) = moved s1 in ((out.0, io.dma_free actual out.1), ground arith)
          | inr refused ↦ ((some Errno.enomem, s1), ground arith)
        ]
      ]

  pub read_task_ends :
      (no_adma : Bool) (site : Site) (args : BioArgs) (s : S)
      → some_null args site ≡ false
      → (done : Code × S) × (read_task_impl io no_adma site (some args) s
          ≡ some (complete args (actual_byte_count args site) done))
  unfolding read_task_impl
  read_task_ends no_adma site args s good =
      let (done, runs) = buffered_ends no_adma args (actual_byte_count args site) s in
      (done, rw (good, runs, read_task_impl) refl)
