-- ===== src/Disk/Transfer/Writes.antt =====
-- One piece of the write direction of read_task_impl_() in Sinetek-rtsx/SDDisk.cpp.
use sinetek_rtsx.Base.{
  ℕ, ◌+◌, ◌-◌, ◌*◌, ◌≤◌, ◌<◌, ◌≡◌, refl, sym, ap, ◌∙◌, true, false, none, arith, Code,
}
use sinetek_rtsx.Retry.{run_with_retry, run_with_retry_inv, run_with_retry_last}
use sinetek_rtsx.Disk.Io.{Io, Storage, within, block_size}
use sinetek_rtsx.Disk.Transfer.{write_piece, retries}

module _ {S : Type 0} (io : Io S) (st : Storage io) (blocks count : ℕ) where
  open st use {card, memory, bounce}

  -- What a failed write to the piece's blocks keeps.
  record Kept (s t : S) : Type 0 where
    memory_kept : (a : ℕ) → memory t a ≡ memory s a
    bounce_kept : (a : ℕ) → bounce t a ≡ bounce s a
    card_kept : (a : ℕ) → within (blocks * block_size) count a ≡ false → card t a ≡ card s a

  Kept-refl : (s : S) → Kept s s
  Kept-refl s = record { memory_kept = λ a. refl; bounce_kept = λ a. refl; card_kept = λ a h. refl }

  keep : (s t : S) → Kept s t → Kept s (io.write_block blocks count t).1
  keep s t k = record {
    memory_kept = λ a. st.write_block-memory blocks count t a ∙ k.memory_kept a;
    bounce_kept = λ a. st.write_block-bounce blocks count t a ∙ k.bounce_kept a;
    card_kept = λ a h. st.write_block-outside blocks count t a h ∙ k.card_kept a h;
  }

  store : S → Code × S
  store s = run_with_retry retries (io.write_block blocks count) s

  store-Kept : (s : S) → Kept s (store s).1
  unfolding store
  store-Kept s =
      run_with_retry_inv (io.write_block blocks count) (Kept s) (keep s) retries s (Kept-refl s)

  store-card :
      (s : S) (i : ℕ)
      → (store s).0 ≡ none
      → i < count
      → card (store s).1 (blocks * block_size + i) ≡ bounce s i
  unfolding store
  store-card s i ok h =
      let (t, k, e) =
        run_with_retry_last (io.write_block blocks count) (Kept s) (keep s) retries s (Kept-refl s)
          ok in
      ap (λ x. card x.1 (blocks * block_size + i)) (sym e)
      ∙ (st.write_block-inside blocks count t i (ap (λ x. x.0) e ∙ ok) h ∙ k.bounce_kept i)

  pub write_piece-memory :
      (sent a : ℕ) (s : S) → memory (write_piece io blocks sent count s).1 a ≡ memory s a
  unfolding write_piece store
  write_piece-memory sent a s = ground (
    arith,
    (store-Kept (io.read_bytes sent count s).1).memory_kept a,
    st.read_bytes-memory sent count s a,
  )

  pub write_piece-outside :
      (sent a : ℕ) (s : S)
      → within (blocks * block_size) count a ≡ false
      → card (write_piece io blocks sent count s).1 a ≡ card s a
  unfolding write_piece store
  write_piece-outside sent a s out = ground (
    arith,
    (store-Kept (io.read_bytes sent count s).1).card_kept a out,
    st.read_bytes-card sent count s a,
  )

  -- Where the memory descriptor covers the piece, its bytes are on the card after a success.
  pub write_piece-card :
      (sent a : ℕ) (s : S)
      → sent + count ≤ st.size
      → within (blocks * block_size) count a ≡ true
      → (write_piece io blocks sent count s).0 ≡ none
      → card (write_piece io blocks sent count s).1 a ≡ memory s (sent + (a - blocks * block_size))
  unfolding write_piece store
  write_piece-card sent a s fits inside ok =
      let i = a - blocks * block_size in
      let place : blocks * block_size + i ≡ a = ground arith in
      ground (
        arith,
        store-card (io.read_bytes sent count s).1 i,
        ap (card (store (io.read_bytes sent count s).1).1) place,
        st.read_bytes-bounce sent count s i,
        st.read_bytes-count sent count s,
      )
