-- ===== src/Disk/Transfer/Reads.antt =====
-- The read direction of read_task_impl_() in Sinetek-rtsx/SDDisk.cpp.
use sinetek_rtsx.Base.{
  ℕ, ◌+◌, ◌-◌, ◌*◌, ◌≤◌, ◌<◌, ◌≡◌, refl, sym, ap, ◌∙◌, true, false, none, arith, Code,
}
use sinetek_rtsx.Retry.{run_with_retry, run_with_retry_inv, run_with_retry_last}
use sinetek_rtsx.Disk.Io.{Io, Storage, within, block_size}
use sinetek_rtsx.Disk.Transfer.{read_piece, retries}

module _ {S : Type 0} (io : Io S) (st : Storage io) where
  open st use {card, memory, bounce}

  abbrev pub Same : S → S → Type 0
  Same s t = ((a : ℕ) → card t a ≡ card s a) × ((a : ℕ) → memory t a ≡ memory s a)

  fetch : ℕ → ℕ → S → Code × S
  fetch blocks count s = run_with_retry retries (io.read_block blocks count) s

  keep-Same : (blocks count : ℕ) (s t : S) → Same s t → Same s (io.read_block blocks count t).1
  keep-Same blocks count s t (c, m) = (
    λ a. st.read_block-card blocks count t a ∙ c a,
    λ a. st.read_block-memory blocks count t a ∙ m a,
  )

  fetch-Same : (blocks count : ℕ) (s : S) → Same s (fetch blocks count s).1
  unfolding fetch
  fetch-Same blocks count s =
      run_with_retry_inv (io.read_block blocks count) (Same s) (keep-Same blocks count s) retries s
        (λ a. refl, λ a. refl)

  fetch-bounce :
      (blocks count : ℕ) (s : S) (i : ℕ)
      → (fetch blocks count s).0 ≡ none
      → i < count
      → bounce (fetch blocks count s).1 i ≡ card s (blocks * block_size + i)
  unfolding fetch
  fetch-bounce blocks count s i ok h =
      let (t, (c, m), e) =
        run_with_retry_last (io.read_block blocks count) (Same s) (keep-Same blocks count s) retries
          s (λ a. refl, λ a. refl) ok in
      ap (λ x. bounce x.1 i) (sym e)
      ∙ (st.read_block-bounce blocks count t i (ap (λ x. x.0) e ∙ ok) h ∙ c _)

  -- Where the memory descriptor covers the piece, its bytes are the card's after a success.
  pub read_piece-memory :
      (blocks sent count a : ℕ) (s : S)
      → sent + count ≤ st.size
      → within sent count a ≡ true
      → (read_piece io blocks sent count s).0 ≡ none
      → memory (read_piece io blocks sent count s).1 a ≡ card s (blocks * block_size + (a - sent))
  unfolding read_piece fetch
  read_piece-memory blocks sent count a s fits inside ok = ground (
    arith,
    fetch-bounce blocks count s (a - sent),
    st.write_bytes-memory sent count (fetch blocks count s).1 a,
  )

  pub read_piece-outside :
      (blocks sent count a : ℕ) (s : S)
      → within sent count a ≡ false
      → memory (read_piece io blocks sent count s).1 a ≡ memory s a
  unfolding read_piece fetch
  read_piece-outside blocks sent count a s out = ground (
    arith,
    (fetch-Same blocks count s).1 a,
    st.write_bytes-memory sent count (fetch blocks count s).1 a,
  )

  pub read_piece-card :
      (blocks sent count a : ℕ) (s : S) → card (read_piece io blocks sent count s).1 a ≡ card s a
  unfolding read_piece fetch
  read_piece-card blocks sent count a s = ground (
    arith,
    (fetch-Same blocks count s).0 a,
    st.write_bytes-card sent count (fetch blocks count s).1 a,
  )
