-- ===== src/Disk/Transfer/ReadOk.antt =====
-- read_task_impl_() in Sinetek-rtsx/SDDisk.cpp: what a read of the card delivers.
use sinetek_rtsx.Base.{
  ℕ, ◌+◌, ◌-◌, ◌*◌, ◌/◌, ◌%◌, ◌^◌, ◌≤◌, ◌<◌, ◌≡◌, refl, ap, ◌∙◌, true, none, some, arith, Code,
  Errno, ltb, if◌then◌else◌, Bool-cases, inl, inr,
}
use sinetek_rtsx.Disk.Io.{Io, Storage, direction_in, within, block_size}
use sinetek_rtsx.Disk.Transfer.{read_piece, piece, transfer, max_send_bytes, send_byte_count}
use sinetek_rtsx.Disk.Transfer.Reads.{read_piece-memory, read_piece-outside, read_piece-card}
use sinetek_rtsx.Disk.Transfer.Loop.{transfer_rule}

module _ {S : Type 0} (io : Io S) (st : Storage io) (block nblks : ℕ) (s0 : S) where
  open st use {card, memory}

  -- The request's memory after its first `done` bytes have come from the card.
  abbrev pub Delivered : ℕ → S → Type 0
  Delivered done s =
      (a : ℕ) → memory s a ≡ (if ltb a done then card s0 (block * block_size + a) else memory s0 a)

  abbrev pub CardKept : S → Type 0
  CardKept s = (a : ℕ) → card s a ≡ card s0 a

  record ReadInv (blocks remaining sent : ℕ) (s : S) : Type 0 where
    at : 0 < remaining → blocks * 512 ≡ block * 512 + sent
    left : sent + remaining ≡ nblks * 512
    whole : remaining % 512 ≡ 0
    kept : CardKept s
    delivered : Delivered sent s

  pub record ReadPost (c : Code) (s : S) : Type 0 where
    pub kept : CardKept s
    pub beyond : (a : ℕ) → nblks * 512 ≤ a → memory s a ≡ memory s0 a
    pub delivered : c ≡ none → Delivered (nblks * 512) s

  -- One piece further.
  read_piece-Delivered :
      (blocks sent count : ℕ) (s : S)
      → blocks * 512 ≡ block * 512 + sent
      → sent + count ≤ st.size
      → CardKept s
      → Delivered sent s
      → (read_piece io blocks sent count s).0 ≡ none
      → Delivered (sent + count) (read_piece io blocks sent count s).1
  read_piece-Delivered blocks sent count s here fits kept old ok a =
      elim (Bool-cases (within sent count a)) [
        | inl inside ↦
            let place : blocks * block_size + (a - sent) ≡ block * block_size + a = ground arith in
            let in_prefix : ltb a (sent + count) ≡ true = ground arith in
            rw in_prefix (
              read_piece-memory io st blocks sent count a s fits inside ok
              ∙ (kept _ ∙ ap (card s0) place))
        | inr outside ↦
            ground (arith, read_piece-outside io st blocks sent count a s outside, old a)
      ]

  read_piece-beyond :
      (blocks sent count : ℕ) (s : S) (a : ℕ)
      → Delivered sent s
      → sent + count ≤ a
      → memory (read_piece io blocks sent count s).1 a ≡ memory s0 a
  read_piece-beyond blocks sent count s a old h =
      ground (arith, read_piece-outside io st blocks sent count a s, old a)

  failed :
      (blocks remaining sent : ℕ) (s : S) (e : Errno)
      → ReadInv blocks remaining sent s
      → (piece io direction_in blocks sent (send_byte_count remaining) s).0 ≡ some e
      → ReadPost (some e) (piece io direction_in blocks sent (send_byte_count remaining) s).1
  unfolding piece
  failed blocks remaining sent s e inv bad =
      let count = send_byte_count remaining in
      record {
        kept = λ a. read_piece-card io st blocks sent count a s ∙ inv.kept a;
        beyond =
            λ a h. read_piece-beyond blocks sent count s a inv.delivered (ground (arith, inv.left));
        delivered = λ z. cc;
      }

  next :
      (blocks remaining sent : ℕ) (s : S)
      → block + nblks ≤ 2 ^ 31
      → nblks * 512 ≤ st.size
      → ReadInv blocks remaining sent s
      → 0 < remaining
      → (piece io direction_in blocks sent (send_byte_count remaining) s).0 ≡ none
      → ReadInv
          ((blocks + send_byte_count remaining / 512) % 2 ^ 32)
          (remaining - send_byte_count remaining)
          ((sent + send_byte_count remaining) % 2 ^ 64)
          (piece io direction_in blocks sent (send_byte_count remaining) s).1
  unfolding piece
  next blocks remaining sent s range fits inv more good =
      let count = send_byte_count remaining in
      let at_here = inv.at more in
      let left = inv.left in
      let whole = inv.whole in
      let straight : (sent + count) % 2 ^ 64 ≡ sent + count = ground arith in
      record {
        at = ground arith;
        left = ground arith;
        whole = ground arith;
        kept = λ a. read_piece-card io st blocks sent count a s ∙ inv.kept a;
        delivered = rw straight (
            read_piece-Delivered blocks sent count s at_here (ground arith) inv.kept inv.delivered
              good);
      }

  finish : (blocks sent : ℕ) (s : S) → ReadInv blocks 0 sent s → ReadPost none s
  finish blocks sent s inv =
      let all : sent ≡ nblks * 512 = omega (arith, inv.left) in
      record {
        kept = inv.kept;
        beyond = λ a h. ground (arith, inv.delivered a);
        delivered = λ _. rw (← all) inv.delivered;
      }

  -- A read in range ends. It leaves the card as it was, and the memory behind the request; if it
  -- succeeds, the request's memory holds the blocks of the card in their order.
  pub transfer_read :
      (fuel : ℕ)
      → block + nblks ≤ 2 ^ 31
      → nblks * 512 ≤ st.size
      → nblks * 512 + max_send_bytes ≤ max_send_bytes * fuel
      → (out : Code × S) × (transfer io direction_in fuel block (nblks * 512) 0 s0 ≡ some out)
        × ReadPost out.0 out.1
  transfer_read fuel range fits enough =
      transfer_rule io direction_in ReadInv ReadPost
        (λ blocks remaining sent s e inv more bad. failed blocks remaining sent s e inv bad)
        (λ blocks remaining sent s inv more good.
          next blocks remaining sent s range fits inv more good)
        finish fuel block (nblks * 512) 0 s0
        (record {
          at = λ _. omega arith;
          left = omega arith;
          whole = omega arith;
          kept = λ a. refl;
          delivered = λ a. ground arith;
        })
        enough
