-- ===== src/Dma/Alloc/Loop.antt =====
-- The loop of bus_dmamem_alloc() in Sinetek-rtsx/compat/openbsd/dma.cpp.
use sinetek_rtsx.Base.{
  ℕ, zero, suc, ◌+◌, ◌%◌, ◌^◌, ◌≤◌, ◌<◌, ◌≡◌, ◌≢◌, ◌⊎◌, refl, ◌&&◌, ◌||◌, none, some, List, [], ◌∷◌,
  arith, is_null, Code, success, enomem, ltb, ◌==◌, length, Bool-cases, inl, inr,
}
use sinetek_rtsx.Dma.Alloc.{Extent, alloc_loop}

-- The extents are those of the physical memory between two offsets, in order and without a gap.
pub data Covers (phys : ℕ → Extent) (size : ℕ) : ℕ → List Extent → Type 0 where
  done : {off : ℕ} → off ≡ size → Covers phys size off []
  piece :
      {off : ℕ} {x : Extent} {xs : List Extent}
      → phys off ≡ x
      → x.0 ≢ 0
      → 0 < x.1
      → Covers phys size (off + x.1) xs
      → Covers phys size off (x ∷ xs)

-- Inside the memory, the end of what getPhysicalSegment() returns fits 64 bits.
abbrev pub Bounded : (ℕ → Extent) → ℕ → Type 0
Bounded phys size = (off : ℕ) → off < size → off + (phys off).1 < 2 ^ 64

abbrev pub LoopPost : (ℕ → Extent) → ℕ → ℕ → ℕ → ℕ → Code × List Extent → Type 0
LoopPost phys size nsegs idx total (c, xs) =
    (idx + length xs ≤ nsegs + 1) × (c ≡ none → Covers phys size total xs)

module _ (phys : ℕ → Extent) (size nsegs : ℕ) (bounded : Bounded phys size) where
  pub alloc_loop_lem :
      (fuel idx total : ℕ)
      → total ≤ size
      → size < total + fuel
      → idx ≤ nsegs + 1
      → (total < size → idx ≤ nsegs)
      → (out : Code × List Extent) × (alloc_loop phys size nsegs fuel idx total ≡ some out)
        × LoopPost phys size nsegs idx total out
  unfolding alloc_loop
  alloc_loop_lem zero idx total le enough room more = absurd (omega arith)
  alloc_loop_lem (suc fuel) idx total le enough room more =
      let len = (phys total).1 in
      elim (Bool-cases (ltb total size)) [
        | inr stop ↦ ((success, []), ground arith, (omega arith, λ _. done (ground arith)))
        | inl go ↦
            let straight : (total + len) % 2 ^ 64 ≡ total + len = ground (arith, bounded total) in
            elim (Bool-cases (is_null (phys total).0 || len == 0)) [
              | inl bad ↦ ((some enomem, []), ground arith, (omega arith, λ e. cc))
              | inr good ↦ elim (Bool-cases (ltb size (total + len))) [
                | inl over ↦ ((some enomem, []), ground arith, (omega arith, λ e. cc))
                | inr fits ↦ elim (Bool-cases (ltb (total + len) size && ltb nsegs (idx + 1))) [
                  | inl many ↦
                      ((some enomem, phys total ∷ []), ground arith, (ground arith, λ e. cc))
                  | inr few ↦
                      let (out, runs, (bound, covers)) =
                        alloc_loop_lem fuel (idx + 1) (total + len) (ground arith) (ground arith)
                          (ground arith) (ground arith) in
                      (
                        (out.0, phys total ∷ out.1),
                        ground arith,
                        (omega arith, λ e. piece refl (ground arith) (ground arith) (covers e)),
                      )
                ]
              ]
            ]
      ]

  pub size-Covers : (off : ℕ) {xs : List Extent} → Covers phys size off xs → off ≤ size
  size-Covers off (done e) = omega arith
  size-Covers off (piece {x} e nz pos rest) = omega (arith, size-Covers (off + x.1) rest)

  pub Covers-nil :
      (off : ℕ) {xs : List Extent} → Covers phys size off xs → length xs ≡ 0 → off ≡ size
  Covers-nil off (done e) h = e
  Covers-nil off (piece e nz pos rest) h = absurd (omega arith)

  -- The loop accepts any cover that leaves at most one entry too many.
  pub alloc_loop-Covers :
      (fuel idx total : ℕ) {xs : List Extent}
      → Covers phys size total xs
      → size < total + fuel
      → idx + length xs ≤ nsegs + 1
      → alloc_loop phys size nsegs fuel idx total ≡ some (success, xs)
  unfolding alloc_loop
  alloc_loop-Covers zero idx total c enough room = absurd (omega (arith, size-Covers total c))
  alloc_loop-Covers (suc fuel) idx total (done e) enough room = ground arith
  alloc_loop-Covers (suc fuel) idx total (piece {x} {xs} e nz pos rest) enough room =
      let le = size-Covers (total + x.1) rest in
      let straight : (total + x.1) % 2 ^ 64 ≡ total + x.1 =
        ground (arith, bounded total (omega arith)) in
      let more = alloc_loop-Covers fuel (idx + 1) (total + x.1) rest (omega arith) (omega arith) in
      let tail : (0 < length xs) ⊎ (total + x.1 ≡ size) = nonempty rest in
      ground (arith, more, straight, tail)
    where
      nonempty :
          {off : ℕ} {ys : List Extent} → Covers phys size off ys → (0 < length ys) ⊎ (off ≡ size)
      nonempty (done e') = inr e'
      nonempty (piece e' nz' pos' r) = inl (omega arith)
