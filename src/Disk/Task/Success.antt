-- ===== src/Disk/Task/Success.antt =====
-- When read_task_impl_() of Sinetek-rtsx/SDDisk.cpp reports success.
use sinetek_rtsx.Base.{
  subst, ℕ, ◌+◌, ◌-◌, ◌*◌, ◌/◌, ◌%◌, ◌^◌, ◌≤◌, ◌<◌, ◌≡◌, ◌≢◌, ◌⊎◌, refl, ap, ◌∙◌, Bool, true, false,
  none, some, arith, null, Code, kio_success, Bool-cases, ==-false_of_ne, inl, inr,
}
use sinetek_rtsx.Retry.{run_with_retry, Fails, run_with_retry_lem}
use sinetek_rtsx.Disk.Io.{Io, Storage, IoDirection, block_size}
use sinetek_rtsx.Disk.Transfer.{
  read_piece, write_piece, piece, transfer, retries, max_send_bytes, send_byte_count,
}
use sinetek_rtsx.Disk.Transfer.Loop.{transfer_rule}
use sinetek_rtsx.Disk.Task.{
  BioArgs, Site, Outcome, fuel_for, request_bytes, actual_byte_count, some_null, transfer_buffered,
  complete, completion_status, read_task_impl,
}
use sinetek_rtsx.Disk.Task.Laws.{Fits}

-- A transfer within the first `size` bytes of the card does not fail four times in a row.
abbrev pub Recovers : {S : Type 0} → (ℕ → ℕ → S → Code × S) → ℕ → Type 0
Recovers {S} call size =
    (blk len : ℕ)
    → blk * block_size + len ≤ size
    → (s t : S) → Fails (call blk len) 3 s t
    → (call blk len t).0 ≡ none

-- A card of `size` bytes.
pub record Recovering {S : Type 0} (io : Io S) (size : ℕ) : Type 0 where
  pub reads : Recovers io.read_block size
  pub writes : Recovers io.write_block size

-- The buffer of a request is the static one, or dma_alloc() gives it.
abbrev pub Granted : {S : Type 0} → Io S → Bool → Site → BioArgs → S → Type 0
Granted io no_adma site args s =
    (no_adma ≡ true)
    ⊎ ((io.dma_alloc (send_byte_count (actual_byte_count args site)) args.direction s).0 ≡ true)

retry_succeeds :
    {S : Type 0} (f : S → Code × S)
    → ((s t : S) → Fails f 3 s t → (f t).0 ≡ none)
    → (s : S) → (run_with_retry retries f s).0 ≡ none
retry_succeeds f recovers s =
    let (n, t, fails, le, stop, same) = run_with_retry_lem f retries s in
    ap (λ x. x.0) same
    ∙ elim stop [ inl ok ↦ ok | inr all ↦ recovers s t (subst (λ k. Fails f k s t) all fails) ]

module _ {S : Type 0} (io : Io S) (st : Storage io) (size : ℕ)
    (recovering : Recovering io size) where
  piece_succeeds :
      (dir : IoDirection) (blocks sent count : ℕ) (s : S)
      → blocks * block_size + count ≤ size
      → sent + count ≤ st.size
      → 0 < count
      → (piece io dir blocks sent count s).0 ≡ none
  unfolding piece read_piece write_piece
  piece_succeeds dir blocks sent count s on_card covered some_bytes = ground (
    arith,
    retry_succeeds (io.read_block blocks count) (recovering.reads blocks count on_card) s,
    retry_succeeds (io.write_block blocks count) (recovering.writes blocks count on_card)
        (io.read_bytes sent count s).1,
    st.write_bytes-count sent count (run_with_retry retries (io.read_block blocks count) s).1,
    st.read_bytes-count sent count s,
  )

  -- Where the loop stands in a request.
  record Stands (block nblks blocks remaining sent : ℕ) : Type 0 where
    at : 0 < remaining → blocks * 512 ≡ block * 512 + sent
    left : sent + remaining ≡ nblks * 512
    whole : remaining % 512 ≡ 0

  Stands-next :
      (block nblks blocks remaining sent : ℕ)
      → block + nblks ≤ 2 ^ 31
      → Stands block nblks blocks remaining sent
      → 0 < remaining
      → Stands block nblks
          ((blocks + send_byte_count remaining / 512) % 2 ^ 32)
          (remaining - send_byte_count remaining)
          ((sent + send_byte_count remaining) % 2 ^ 64)
  Stands-next block nblks blocks remaining sent range inv more =
      let at_here = inv.at more in
      let left = inv.left in
      let whole = inv.whole in
      record { at = ground arith; left = ground arith; whole = ground arith }

  transfer_succeeds :
      (dir : IoDirection) (block nblks fuel : ℕ) (s : S)
      → block + nblks ≤ 2 ^ 31
      → (block + nblks) * 512 ≤ size
      → nblks * 512 ≤ st.size
      → nblks * 512 + max_send_bytes ≤ max_send_bytes * fuel
      → (out : Code × S) × (transfer io dir fuel block (nblks * 512) 0 s ≡ some out)
        × (out.0 ≡ none)
  transfer_succeeds dir block nblks fuel s range on_card covered enough =
      transfer_rule io dir (λ blocks remaining sent t. Stands block nblks blocks remaining sent)
        (λ c t. c ≡ none)
        (λ blocks remaining sent t e inv more bad.
          let at_here = inv.at more in
          let left = inv.left in
          let fine =
            piece_succeeds dir blocks sent (send_byte_count remaining) t (ground arith)
              (ground arith) (ground arith) in
          cc (fine, bad))
        (λ blocks remaining sent t inv more good.
          Stands-next block nblks blocks remaining sent range inv more)
        (λ blocks sent t inv. refl) fuel block (nblks * 512) 0 s
        (record { at = λ h. omega arith; left = omega arith; whole = omega arith }) enough

  buffered_succeeds :
      (no_adma : Bool) (args : BioArgs) (actual : ℕ) (s : S)
      → Fits args st.size
      → (args.block + args.nblks) * 512 ≤ size
      → (no_adma ≡ true) ⊎ ((io.dma_alloc (send_byte_count actual) args.direction s).0 ≡ true)
      → (out : Code × S) × (transfer_buffered io no_adma args actual s ≡ some out) × (out.0 ≡ none)
  unfolding transfer_buffered
  buffered_succeeds no_adma args actual s fits on_card granted =
      let h = fits.on_card in
      let bytes : request_bytes args ≡ args.nblks * 512 = omega arith in
      let start : args.block % 2 ^ 32 ≡ args.block = omega arith in
      let enough : args.nblks * 512 + max_send_bytes
          ≤ max_send_bytes * fuel_for (args.nblks * 512) =
        omega arith in
      let moved = λ (t : S).
        transfer_succeeds args.direction args.block args.nblks (fuel_for (args.nblks * 512)) t
          fits.on_card on_card fits.in_memory enough in
      let s1 = (io.dma_alloc (send_byte_count actual) args.direction s).1 in
      rw (bytes, start)
        (elim (Bool-cases no_adma) [
          | inl e ↦ rw e (moved s)
          | inr e ↦
              let (out, runs, ok) = moved s1 in
              let got : (io.dma_alloc (send_byte_count actual) args.direction s).0 ≡ true =
                elim granted [ inl static ↦ cc (static, e) | inr given ↦ given ] in
              ((out.0, io.dma_free actual out.1), rw (e, got, runs) refl, ok)
        ])

  -- Over a card of which no block transfer within its size fails four times in a row, and a memory
  -- that behaves as documented: a request of blocks on the card that an `int` counts and that its
  -- memory covers, with a completion routine and no null pointer on the way, which gets a buffer
  -- from dma_alloc(), unless the static one is used, ends with one call of that routine, with
  -- kIOReturnSuccess and its byte count, and with its arguments deleted.
  pub read_task_succeeds :
      (no_adma : Bool) (site : Site) (args : BioArgs) (s : S)
      → Fits args st.size
      → (args.block + args.nblks) * 512 ≤ size
      → some_null args site ≡ false
      → args.completion.action ≢ null
      → Granted io no_adma site args s
      → (out : Outcome S) × (read_task_impl io no_adma site (some args) s ≡ some out)
        × (out.completed ≡ some (kio_success, actual_byte_count args site))
        × (out.deleted ≡ true)
  unfolding read_task_impl complete completion_status
  read_task_succeeds no_adma site args s fits on_card good notified granted =
      let (done, runs, ok) =
        buffered_succeeds no_adma args (actual_byte_count args site) s fits on_card granted in
      (
        complete args (actual_byte_count args site) done,
        rw (good, runs, read_task_impl) refl,
        rw (ok, ==-false_of_ne args.completion.action 0 notified) refl,
        refl,
      )
