-- ===== src/Dma/Segments.antt =====
-- bufferNSegments() and dumpBuffer() of Sinetek-rtsx/util.h, and
-- bus_dmamem_alloc() beside them.
use sinetek_rtsx.Base.{
  ℕ, zero, suc, ◌+◌, ◌%◌, ◌^◌, ◌<◌, ◌≡◌, subst, ap, ◌∙◌, inl, inr, Option, none, some, List, [],
  ◌∷◌, arith, Ptr, is_null, ltb, length, if◌then◌else◌, Bool, true, false, refl,
}
use sinetek_rtsx.Dma.Alloc.{Extent, Kit, Held, bus_dmamem_alloc}
use sinetek_rtsx.Dma.Alloc.Loop.{Covers, done, piece, Bounded, size-Covers}
use sinetek_rtsx.Dma.Alloc.Laws.{Sound, Allocated, bus_dmamem_alloc_lem}

-- The loop over the memory, with fuel; `phys` is getPhysicalSegment() with kIOMemoryMapperNone. `none`
-- means that the fuel ran out.
unfoldable pub n_segments_loop : (ℕ → Extent) → ℕ → ℕ → ℕ → ℕ → Option ℕ
n_segments_loop phys len zero ret off = none
n_segments_loop phys len (suc fuel) ret off =
    let (addr, this_seg_len) = phys off in
    let rest = n_segments_loop phys len fuel (ret + 1) ((off + this_seg_len) % 2 ^ 64) in
    if ltb off len then if is_null addr then some 0 else rest else some ret

-- `debug` is DEBUG, without which the function does not look at the memory.
unfoldable pub buffer_n_segments : Bool → (ℕ → Extent) → ℕ → ℕ → Option ℕ
unfolding n_segments_loop
buffer_n_segments debug phys len fuel = if debug then n_segments_loop phys len fuel 0 0 else some 0

-- The segments that the loop of dumpBuffer() logs, the one at a null address included.
unfoldable pub dump_loop : (ℕ → Extent) → ℕ → ℕ → ℕ → Option (List Extent)
dump_loop phys len zero off = none
dump_loop phys len (suc fuel) off =
    let (addr, this_seg_len) = phys off in
    let rest = dump_loop phys len fuel ((off + this_seg_len) % 2 ^ 64) in
    if ltb off len
    then if is_null addr then some ((addr, this_seg_len) ∷ []) else cons (addr, this_seg_len) rest
    else some []
  where
    cons : Extent → Option (List Extent) → Option (List Extent)
    cons x none = none
    cons x (some xs) = some (x ∷ xs)

-- What dumpBuffer() logs; without DEBUG, nothing.
unfoldable pub dump_buffer : Bool → (ℕ → Extent) → ℕ → ℕ → Option (List Extent)
unfolding dump_loop
dump_buffer debug phys len fuel = if debug then dump_loop phys len fuel 0 else some []

module _ (phys : ℕ → Extent) (size : ℕ) (bounded : Bounded phys size) where
  n_segments-Covers :
      (fuel ret off : ℕ) {xs : List Extent}
      → Covers phys size off xs
      → size < off + fuel
      → n_segments_loop phys size fuel ret off ≡ some (ret + length xs)
  unfolding n_segments_loop
  n_segments-Covers zero ret off c enough =
      absurd (omega (arith, size-Covers phys size 0 bounded off c))
  n_segments-Covers (suc fuel) ret off (done e) enough = ground arith
  n_segments-Covers (suc fuel) ret off (piece {x} {xs} e nz pos rest) enough =
      let le = size-Covers phys size 0 bounded (off + x.1) rest in
      let straight : (off + x.1) % 2 ^ 64 ≡ off + x.1 = ground (arith, bounded off (omega arith)) in
      let more = n_segments-Covers fuel (ret + 1) (off + x.1) rest (omega arith) in
      ground (arith, more, straight)

-- Where physical segments end within 64 bits, the first one is neither empty nor longer than the
-- memory, nsegs is positive, and addresses do not depend on the mapper: of an allocation that
-- succeeds, bufferNSegments() counts in its memory, in a debug build, as many segments as it has,
-- and in any other build none.
pub alloc_n_segments :
    (debug : Bool) (kit : Kit) (tag segs rsegs : Ptr) (size nsegs : ℕ) (h h' : Held)
    (xs : List Extent)
    → Sound kit size
    → 0 < nsegs
    → bus_dmamem_alloc kit tag segs rsegs size nsegs h ≡ some (none, xs, h')
    → buffer_n_segments debug kit.physical_segment size (size + 1)
      ≡ some (if debug then length xs else 0)
unfolding buffer_n_segments
alloc_n_segments false kit tag segs rsegs size nsegs h h' xs sound pos e = refl
alloc_n_segments true kit tag segs rsegs size nsegs h h' xs sound pos e =
    let (out, runs, post) = bus_dmamem_alloc_lem kit tag segs rsegs size nsegs h sound pos in
    let same : out ≡ (none, xs, h') = cc in
    let (bound, which) = subst (Allocated kit tag segs rsegs size nsegs h) same post in
    elim which [
      | inl (ok, covers, d, w) ↦
          n_segments-Covers kit.physical_segment size sound.bounded (size + 1) 0 0 covers
            (omega arith)
          ∙ ap some (omega arith)
      | inr (err, bad, d) ↦ absurd (ground arith)
    ]
