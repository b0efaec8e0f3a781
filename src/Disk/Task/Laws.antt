-- ===== src/Disk/Task/Laws.antt =====
-- read_task_impl_() in Sinetek-rtsx/SDDisk.cpp as a whole: what reaches the completion routine, and
-- what the card and the memory hold by then.
use sinetek_rtsx.Base.{
  ℕ, ◌+◌, ◌-◌, ◌*◌, ◌%◌, ◌^◌, ◌≤◌, ◌<◌, ◌≡◌, ap, ◌∙◌, Bool, false, none, some, arith, Code,
}
use sinetek_rtsx.Disk.Io.{Io, Storage, direction_in, direction_out, block_size, within}
use sinetek_rtsx.Disk.Transfer.{transfer, max_send_bytes}
use sinetek_rtsx.Disk.Transfer.Reads.{Same}
use sinetek_rtsx.Disk.Transfer.ReadOk.{transfer_read}
use sinetek_rtsx.Disk.Transfer.WriteOk.{transfer_write}
use sinetek_rtsx.Disk.Task.{
  BioArgs, Site, Outcome, fuel_for, request_bytes, some_null, read_task_impl,
}
use sinetek_rtsx.Disk.Task.Rule.{Ends, read_task_rule}

-- A request whose blocks an `int` can count, and that its memory descriptor covers.
pub record Fits (args : BioArgs) (size : ℕ) : Type 0 where
  pub on_card : args.block + args.nblks ≤ 2 ^ 31
  pub in_memory : args.nblks * 512 ≤ size

module _ {S : Type 0} (io : Io S) (st : Storage io) (args : BioArgs) (s : S) where
  open st use {card, memory}

  pub record ReadEnd (c : Code) (t : S) : Type 0 where
    pub card_kept : (a : ℕ) → card t a ≡ card s a
    pub beyond : (a : ℕ) → args.nblks * 512 ≤ a → memory t a ≡ memory s a
    pub delivered :
        c ≡ none
        → (a : ℕ) → a < args.nblks * 512
        → memory t a ≡ card s (args.block * block_size + a)

  pub record WriteEnd (c : Code) (t : S) : Type 0 where
    pub memory_kept : (a : ℕ) → memory t a ≡ memory s a
    pub outside :
        (a : ℕ)
        → within (args.block * block_size) (args.nblks * 512) a ≡ false
        → card t a ≡ card s a
    pub written :
        c ≡ none
        → (a : ℕ) → a < args.nblks * 512
        → card t (args.block * block_size + a) ≡ memory s a

  -- the loop gets the counts of the request, and rounds enough
  counts :
      Fits args st.size
      → (request_bytes args ≡ args.nblks * 512)
        × (args.block % 2 ^ 32 ≡ args.block)
        × (args.nblks * 512 + max_send_bytes ≤ max_send_bytes * fuel_for (request_bytes args))
  counts fits = let h = fits.on_card in (omega arith, omega arith, omega arith)

  read_moves :
      args.direction ≡ direction_in
      → Fits args st.size
      → (t : S) → Same io st s t
      → (out : Code × S) × (transfer io args.direction
            (fuel_for (request_bytes args))
            (args.block % 2 ^ 32)
            (request_bytes args)
            0
            t
          ≡ some out)
        × ReadEnd out.0 out.1
  read_moves dir fits t (c, m) =
      let (bytes, start, enough) = counts fits in
      let (out, runs, post) =
        transfer_read io st args.block args.nblks t (fuel_for (request_bytes args)) fits.on_card
          fits.in_memory enough in
      (
        out,
        rw (dir, bytes, start) (rw bytes at runs),
        record {
          card_kept = λ a. post.kept a ∙ c a;
          beyond = λ a h. post.beyond a h ∙ m a;
          delivered =
              λ ok a h. ground (arith, post.delivered ok a, c (args.block * block_size + a));
        },
      )

  -- Over a card, a memory and a bounce buffer that behave as documented, for a read request of
  -- blocks that an `int` counts and that its memory covers, with no null pointer on the way: the
  -- task ends, deletes its arguments and calls the completion routine, if there is one, once, with
  -- the code of the transfer; the card is unchanged, and so is the memory behind the request;
  -- after a success the memory of the request holds the blocks of the card.
  pub read_task_read :
      (no_adma : Bool) (site : Site)
      → args.direction ≡ direction_in
      → Fits args st.size
      → some_null args site ≡ false
      → (out : Outcome S) × (read_task_impl io no_adma site (some args) s ≡ some out)
        × Ends io st no_adma site args ReadEnd out
  read_task_read no_adma site dir fits nulls =
      read_task_rule io st no_adma site args s ReadEnd (read_moves dir fits)
        (λ c t len end. record {
          card_kept = λ a. st.dma_free-card len t a ∙ end.card_kept a;
          beyond = λ a h. st.dma_free-memory len t a ∙ end.beyond a h;
          delivered = λ ok a h. st.dma_free-memory len t a ∙ end.delivered ok a h;
        })
        (λ t same. record { card_kept = same.0; beyond = λ a h. same.1 a; delivered = λ bad. cc })
        nulls

  write_moves :
      args.direction ≡ direction_out
      → Fits args st.size
      → (t : S) → Same io st s t
      → (out : Code × S) × (transfer io args.direction
            (fuel_for (request_bytes args))
            (args.block % 2 ^ 32)
            (request_bytes args)
            0
            t
          ≡ some out)
        × WriteEnd out.0 out.1
  write_moves dir fits t (c, m) =
      let (bytes, start, enough) = counts fits in
      let (out, runs, post) =
        transfer_write io st args.block args.nblks t (fuel_for (request_bytes args)) fits.on_card
          fits.in_memory enough in
      (
        out,
        rw (dir, bytes, start) (rw bytes at runs),
        record {
          memory_kept = λ a. post.kept a ∙ m a;
          outside = λ a h. post.outside a h ∙ c a;
          written = λ ok a h.
              let b = args.block * block_size + a in
              let back : b - args.block * block_size ≡ a = omega arith in
              ground (arith, post.written ok b, m a, ap (memory t) back);
        },
      )

  -- Over a card, a memory and a bounce buffer that behave as documented, for a write request of
  -- blocks that an `int` counts and that its memory covers, with no null pointer on the way: the
  -- task ends, deletes its arguments and calls the completion routine, if there is one, once, with
  -- the code of the transfer; the memory is unchanged, and so is the card outside the blocks of
  -- the request; after a success these blocks hold the memory of the request.
  pub read_task_write :
      (no_adma : Bool) (site : Site)
      → args.direction ≡ direction_out
      → Fits args st.size
      → some_null args site ≡ false
      → (out : Outcome S) × (read_task_impl io no_adma site (some args) s ≡ some out)
        × Ends io st no_adma site args WriteEnd out
  read_task_write no_adma site dir fits nulls =
      read_task_rule io st no_adma site args s WriteEnd (write_moves dir fits)
        (λ c t len end. record {
          memory_kept = λ a. st.dma_free-memory len t a ∙ end.memory_kept a;
          outside = λ a h. st.dma_free-card len t a ∙ end.outside a h;
          written = λ ok a h. st.dma_free-card len t _ ∙ end.written ok a h;
        })
        (λ t same. record { memory_kept = same.1; outside = λ a h. same.0 a; written = λ bad. cc })
        nulls
