-- ===== src/Disk/Transfer/Loop.antt =====
-- The loop of read_task_impl_() in Sinetek-rtsx/SDDisk.cpp: it ends, and keeps what its pieces keep.
use sinetek_rtsx.Base.{
  ℕ, zero, suc, ◌+◌, ◌-◌, ◌*◌, ◌/◌, ◌%◌, ◌^◌, ◌≤◌, ◌<◌, ◌≡◌, refl, sym, ◌∙◌, subst, none, some,
  arith, Code, success, Errno, Option-cases, inl, inr,
}
use sinetek_rtsx.Disk.Io.{Io, IoDirection}
use sinetek_rtsx.Disk.Transfer.{piece, transfer, max_send_bytes, send_byte_count}

module _ {S : Type 0} (io : Io S) (dir : IoDirection) where
  transfer-end :
      (fuel blocks sent : ℕ) (s : S)
      → transfer io dir (suc fuel) blocks 0 sent s ≡ some (success, s)
  unfolding transfer
  transfer-end fuel blocks sent s = refl

  transfer-fail :
      (fuel blocks remaining sent : ℕ) (s : S) (e : Errno)
      → 0 < remaining
      → (piece io dir blocks sent (send_byte_count remaining) s).0 ≡ some e
      → transfer io dir (suc fuel) blocks remaining sent s
        ≡ some (piece io dir blocks sent (send_byte_count remaining) s)
  unfolding transfer
  transfer-fail fuel blocks remaining sent s e h bad = ground arith

  transfer-next :
      (fuel blocks remaining sent : ℕ) (s : S)
      → 0 < remaining
      → (piece io dir blocks sent (send_byte_count remaining) s).0 ≡ none
      → transfer io dir (suc fuel) blocks remaining sent s
        ≡ transfer io dir fuel
            ((blocks + send_byte_count remaining / 512) % 2 ^ 32)
            (remaining - send_byte_count remaining)
            ((sent + send_byte_count remaining) % 2 ^ 64)
            (piece io dir blocks sent (send_byte_count remaining) s).1
  unfolding transfer
  transfer-next fuel blocks remaining sent s h good = ground arith

  module _ (Inv : ℕ → ℕ → ℕ → S → Type 0) (Post : Code → S → Type 0)
      (failed : (blocks remaining sent : ℕ) (s : S) (e : Errno)
        → Inv blocks remaining sent s
        → 0 < remaining
        → (piece io dir blocks sent (send_byte_count remaining) s).0 ≡ some e
        → Post (some e) (piece io dir blocks sent (send_byte_count remaining) s).1)
      (next : (blocks remaining sent : ℕ) (s : S)
        → Inv blocks remaining sent s
        → 0 < remaining
        → (piece io dir blocks sent (send_byte_count remaining) s).0 ≡ none
        → Inv
            ((blocks + send_byte_count remaining / 512) % 2 ^ 32)
            (remaining - send_byte_count remaining)
            ((sent + send_byte_count remaining) % 2 ^ 64)
            (piece io dir blocks sent (send_byte_count remaining) s).1)
      (finish : (blocks sent : ℕ) (s : S) → Inv blocks 0 sent s → Post none s) where
    pub transfer_rule :
        (fuel blocks remaining sent : ℕ) (s : S)
        → Inv blocks remaining sent s
        → remaining + max_send_bytes ≤ max_send_bytes * fuel
        → (out : Code × S) × (transfer io dir fuel blocks remaining sent s ≡ some out)
          × Post out.0 out.1
    transfer_rule zero blocks remaining sent s inv enough = absurd (omega arith)
    transfer_rule (suc fuel) blocks zero sent s inv enough =
        ((success, s), transfer-end fuel blocks sent s, finish blocks sent s inv)
    transfer_rule (suc fuel) blocks (suc r) sent s inv enough =
        elim (Option-cases (piece io dir blocks sent (send_byte_count (suc r)) s).0) [
          | inl good ↦
              let (out, runs, post) =
                transfer_rule fuel _ _ _ _ (next blocks (suc r) sent s inv (omega arith) good)
                  (ground arith) in
              (out, transfer-next fuel blocks (suc r) sent s (omega arith) good ∙ runs, post)
          | inr (e, bad) ↦ (
            piece io dir blocks sent (send_byte_count (suc r)) s,
            transfer-fail fuel blocks (suc r) sent s e (omega arith) bad,
            subst (λ c. Post c (piece io dir blocks sent (send_byte_count (suc r)) s).1) (sym bad)
                (failed blocks (suc r) sent s e inv (omega arith) bad),
          )
        ]
