-- ===== src/Disk/Task/Rule.antt =====
-- read_task_impl_() in Sinetek-rtsx/SDDisk.cpp as a whole, for what one direction of the loop
-- leaves: the bounce buffer before it, and the completion routine after it.
use sinetek_rtsx.Base.{
  ℕ, ◌%◌, ◌^◌, ◌≡◌, refl, Bool, true, false, none, some, arith, Code, if◌then◌else◌, Bool-cases,
  inl, inr, is_null, enomem,
}
use sinetek_rtsx.Disk.Io.{Io, Storage}
use sinetek_rtsx.Disk.Transfer.{transfer, send_byte_count}
use sinetek_rtsx.Disk.Transfer.Reads.{Same}
use sinetek_rtsx.Disk.Task.{
  BioArgs, Site, Outcome, fuel_for, request_bytes, actual_byte_count, transfer_buffered, complete,
  completion_status, some_null, read_task_impl,
}

module _ {S : Type 0} (io : Io S) (st : Storage io) (no_adma : Bool) (site : Site)
    (args : BioArgs) where
  open st use {card, memory}

  -- What the task has done by its end, with `End` for what it leaves on the card and in memory: the
  -- completion routine, if there is one, was called once, with the code of the transfer, and the
  -- arguments were deleted.
  pub record Ends (End : Code → S → Type 0) (out : Outcome S) : Type 0 where
    pub code : Code
    pub completed : out.completed ≡ (
        if is_null args.completion.action
        then none
        else some (completion_status code (actual_byte_count args site)))
    pub deleted : out.deleted ≡ true
    pub left : End code out.state

  module _ (s : S) (End : Code → S → Type 0)
      (moves : (t : S)
        → Same io st s t
        → (out : Code × S) × (transfer io args.direction
              (fuel_for (request_bytes args))
              (args.block % 2 ^ 32)
              (request_bytes args)
              0
              t
            ≡ some out)
          × End out.0 out.1)
      (frees : (c : Code) (t : S) (len : ℕ) → End c t → End c (io.dma_free len t))
      (lacks : (t : S) → Same io st s t → End (some enomem) t) where
    buffered :
        (actual : ℕ)
        → (out : Code × S) × (transfer_buffered io no_adma args actual s ≡ some out)
          × End out.0 out.1
    unfolding transfer_buffered
    buffered actual =
        let s1 = (io.dma_alloc (send_byte_count actual) args.direction s).1 in
        let same : Same io st s s1 =
          (st.dma_alloc-card _ args.direction s, st.dma_alloc-memory _ args.direction s) in
        elim (Bool-cases no_adma) [
          | inl e ↦ rw e (moves s (λ a. refl, λ a. refl))
          | inr e ↦ elim (Bool-cases (io.dma_alloc (send_byte_count actual) args.direction s).0) [
            | inl got ↦
                let (out, runs, end) = moves s1 same in
                ((out.0, io.dma_free actual out.1), ground arith, frees out.0 out.1 actual end)
            | inr refused ↦ ((some enomem, s1), ground arith, lacks s1 same)
          ]
        ]

    pub read_task_rule :
        some_null args site ≡ false
        → (out : Outcome S) × (read_task_impl io no_adma site (some args) s ≡ some out)
          × Ends End out
    unfolding read_task_impl
    read_task_rule nulls =
        let (done, runs, end) = buffered (actual_byte_count args site) in
        (
          complete args (actual_byte_count args site) done,
          rw (nulls, runs, read_task_impl),
          record { code = done.0; completed = refl; deleted = refl; left = end },
        )
