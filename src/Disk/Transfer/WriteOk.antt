-- ===== src/Disk/Transfer/WriteOk.antt =====
-- read_task_impl_() in Sinetek-rtsx/SDDisk.cpp: what a write leaves on the card.
use sinetek_rtsx.Base.{
  ℕ, ◌+◌, ◌-◌, ◌*◌, ◌/◌, ◌%◌, ◌^◌, ◌≤◌, ◌<◌, ◌≡◌, refl, ap, ◌∙◌, true, false, none, some, arith,
  Code, Errno, if◌then◌else◌, Bool-cases, inl, inr,
}
use sinetek_rtsx.Disk.Io.{Io, Storage, direction_out, within, block_size}
use sinetek_rtsx.Disk.Transfer.{write_piece, piece, transfer, max_send_bytes, send_byte_count}
use sinetek_rtsx.Disk.Transfer.Writes.{write_piece-memory, write_piece-outside, write_piece-card}
use sinetek_rtsx.Disk.Transfer.Loop.{transfer_rule}

module _ {S : Type 0} (io : Io S) (st : Storage io) (block nblks : ℕ) (s0 : S) where
  open st use {card, memory}

  -- The card after the first `done` bytes of the request have gone to it.
  abbrev pub Written : ℕ → S → Type 0
  Written done s =
      (a : ℕ)
      → card s a ≡ (
          if within (block * block_size) done a
          then memory s0 (a - block * block_size)
          else card s0 a)

  abbrev pub MemoryKept : S → Type 0
  MemoryKept s = (a : ℕ) → memory s a ≡ memory s0 a

  record WriteInv (blocks remaining sent : ℕ) (s : S) : Type 0 where
    at : 0 < remaining → blocks * 512 ≡ block * 512 + sent
    left : sent + remaining ≡ nblks * 512
    whole : remaining % 512 ≡ 0
    kept : MemoryKept s
    written : Written sent s

  pub record WritePost (c : Code) (s : S) : Type 0 where
    pub kept : MemoryKept s
    pub outside :
        (a : ℕ) → within (block * block_size) (nblks * 512) a ≡ false → card s a ≡ card s0 a
    pub written : c ≡ none → Written (nblks * 512) s

  -- One piece further.
  write_piece-Written :
      (blocks sent count : ℕ) (s : S)
      → blocks * 512 ≡ block * 512 + sent
      → sent + count ≤ st.size
      → MemoryKept s
      → Written sent s
      → (write_piece io blocks sent count s).0 ≡ none
      → Written (sent + count) (write_piece io blocks sent count s).1
  write_piece-Written blocks sent count s here fits kept old ok a =
      elim (Bool-cases (within (blocks * block_size) count a)) [
        | inl inside ↦
            let place : sent + (a - blocks * block_size) ≡ a - block * block_size = ground arith in
            let covered : within (block * block_size) (sent + count) a ≡ true = ground arith in
            rw covered (
              write_piece-card io st blocks count sent a s fits inside ok
              ∙ (kept _ ∙ ap (memory s0) place))
        | inr outside ↦
            ground (arith, write_piece-outside io st blocks count sent a s outside, old a)
      ]

  failed :
      (blocks remaining sent : ℕ) (s : S) (e : Errno)
      → WriteInv blocks remaining sent s
      → 0 < remaining
      → (piece io direction_out blocks sent (send_byte_count remaining) s).0 ≡ some e
      → WritePost (some e) (piece io direction_out blocks sent (send_byte_count remaining) s).1
  unfolding piece
  failed blocks remaining sent s e inv more bad =
      let count = send_byte_count remaining in
      let at_here = inv.at more in
      let left = inv.left in
      record {
        kept = λ a. write_piece-memory io st blocks count sent a s ∙ inv.kept a;
        outside =
            λ a h. ground (arith, write_piece-outside io st blocks count sent a s, inv.written a);
        written = λ z. cc;
      }

  next :
      (blocks remaining sent : ℕ) (s : S)
      → block + nblks ≤ 2 ^ 31
      → nblks * 512 ≤ st.size
      → WriteInv blocks remaining sent s
      → 0 < remaining
      → (piece io direction_out blocks sent (send_byte_count remaining) s).0 ≡ none
      → WriteInv
          ((blocks + send_byte_count remaining / 512) % 2 ^ 32)
          (remaining - send_byte_count remaining)
          ((sent + send_byte_count remaining) % 2 ^ 64)
          (piece io direction_out blocks sent (send_byte_count remaining) s).1
  unfolding piece
  next blocks remaining sent s range fits inv more good =
      let count = send_byte_count remaining in
      let at_here = inv.at more in
      let left = inv.left in
      let whole = inv.whole in
      let straight : (sent + count) % 2 ^ 64 ≡ sent + count = ground arith in
      record {
        at = ground arith;
        left = ground arith;
        whole = ground arith;
        kept = λ a. write_piece-memory io st blocks count sent a s ∙ inv.kept a;
        written = rw straight (
            write_piece-Written blocks sent count s at_here (ground arith) inv.kept inv.written
              good);
      }

  finish : (blocks sent : ℕ) (s : S) → WriteInv blocks 0 sent s → WritePost none s
  finish blocks sent s inv =
      let all : sent ≡ nblks * 512 = omega (arith, inv.left) in
      record {
        kept = inv.kept;
        outside = λ a h. ground (arith, inv.written a);
        written = λ _. rw (← all) inv.written;
      }

  -- A write in range ends. It leaves the request's memory as it was, and the card outside the
  -- blocks of the request; if it succeeds, those blocks hold the memory in its order.
  pub transfer_write :
      (fuel : ℕ)
      → block + nblks ≤ 2 ^ 31
      → nblks * 512 ≤ st.size
      → nblks * 512 + max_send_bytes ≤ max_send_bytes * fuel
      → (out : Code × S) × (transfer io direction_out fuel block (nblks * 512) 0 s0 ≡ some out)
        × WritePost out.0 out.1
  transfer_write fuel range fits enough =
      transfer_rule io direction_out WriteInv WritePost failed
        (λ blocks remaining sent s inv more good.
          next blocks remaining sent s range fits inv more good)
        finish fuel block (nblks * 512) 0 s0
        (record {
          at = λ _. omega arith;
          left = omega arith;
          whole = omega arith;
          kept = λ a. refl;
          written = λ a. ground arith;
        })
        enough
