-- ===== src/Dma/Alloc/Laws.antt =====
-- bus_dmamem_alloc() of Sinetek-rtsx/compat/openbsd/dma.cpp: the segments that it returns.
use sinetek_rtsx.Base.{
  ℕ, ◌+◌, ◌≤◌, ◌<◌, ◌≡◌, ◌≢◌, ◌⊎◌, refl, subst, Bool, true, false, not, ◌&&◌, ◌||◌, none, some,
  List, [], ◌∷◌, arith, Ptr, null, is_null, Code, success, Errno, enomem, einval, enotsup, ◌==◌,
  length, Bool-cases, inl, inr,
}
use sinetek_rtsx.Dma.Alloc.{Extent, Kit, Held, alloc_loop, bus_dmamem_alloc}
use sinetek_rtsx.Dma.Alloc.Loop.{
  Covers, done, piece, Bounded, alloc_loop_lem, alloc_loop-Covers, Covers-nil,
}

-- What IOKit's answers have to satisfy: segments that end within 64 bits, and a first segment that is not
-- empty and not longer than the memory.
pub record Sound (kit : Kit) (size : ℕ) : Type 0 where
  pub bounded : Bounded kit.physical_segment size
  pub first_pos : 0 < (kit.physical_segment 0).1
  pub first_le : (kit.physical_segment 0).1 ≤ size

module _ (kit : Kit) (tag segs rsegs : Ptr) (size nsegs : ℕ) (h : Held) where
  abbrev phys : ℕ → Extent
  phys = kit.physical_segment

  abbrev pub Allocated : Code × List Extent × Held → Type 0
  Allocated (c, xs, h') =
      (length xs ≤ nsegs + 1)
      × (((c ≡ none)
            × Covers kit.physical_segment size 0 xs
            × (h'.descriptors ≡ h.descriptors + 1)
            × (h'.wired ≡ h.wired + 1))
          ⊎ ((e : Errno) × (c ≡ some e) × (h'.descriptors ≡ h.descriptors)))

  abbrev after : Code → Held
  after none = record { descriptors = h.descriptors + 1; wired = h.wired + 1 }
  after (some e) = record h { wired = h.wired + 1 }

  abbrev refuses : Bool
  refuses =
      is_null tag
      || is_null segs
      || is_null rsegs
      || is_null kit.mem_desc
      || not kit.prepared
      || (nsegs == 1 && not ((phys 0).1 == size) || is_null (phys 0).0)

  refused :
      refuses ≡ true
      → (e : Errno) × (h' : Held) × (bus_dmamem_alloc kit tag segs rsegs size nsegs h
          ≡ some (some e, [], h'))
        × (h'.descriptors ≡ h.descriptors)
  unfolding bus_dmamem_alloc
  refused why = elim (Bool-cases (is_null tag || is_null segs || is_null rsegs)) [
    | inl a ↦ (einval, h, ground arith, refl)
    | inr a ↦ elim (Bool-cases (is_null kit.mem_desc || not kit.prepared)) [
      | inl b ↦ (enomem, h, ground arith, refl)
      | inr b ↦ (enotsup, record h { wired = h.wired + 1 }, ground arith, refl)
    ]
  ]

  looped :
      refuses ≡ false
      → (c : Code) (xs : List Extent)
      → alloc_loop phys size nsegs (size + 1) 1 (phys 0).1 ≡ some (c, xs)
      → bus_dmamem_alloc kit tag segs rsegs size nsegs h ≡ some (c, phys 0 ∷ xs, after c)
  unfolding bus_dmamem_alloc
  looped fine none xs e = ground arith
  looped fine (some c) xs e = ground arith

  allocated :
      (c : Code) (xs : List Extent)
      → 1 + length xs ≤ nsegs + 1
      → (c ≡ none → Covers phys size (phys 0).1 xs)
      → (phys 0).0 ≢ 0
      → 0 < (phys 0).1
      → Allocated (c, phys 0 ∷ xs, after c)
  allocated none xs bound covers nz pos =
      let rest : Covers phys size (0 + (phys 0).1) xs =
        subst (λ o. Covers phys size o xs) (omega arith) (covers refl) in
      (omega arith, inl (refl, piece refl nz pos rest, refl, refl))
  allocated (some e) xs bound covers nz pos = (omega arith, inr (e, refl, refl))

  -- Where physical segments end within 64 bits, the first one is neither empty nor longer than the
  -- memory, and nsegs is positive: bus_dmamem_alloc() ends and writes at most nsegs + 1 entries;
  -- on success these are the physical segments of the memory, in order and without a gap, and one
  -- descriptor more is held and wired; on failure no descriptor more is held.
  pub bus_dmamem_alloc_lem :
      Sound kit size
      → 0 < nsegs
      → (out : Code × List Extent × Held) × (bus_dmamem_alloc kit tag segs rsegs size nsegs h
          ≡ some out)
        × Allocated out
  bus_dmamem_alloc_lem sound pos = elim (Bool-cases refuses) [
    | inl bad ↦
        let (e, h', runs, same) = refused bad in
        ((some e, [], h'), runs, (omega arith, inr (e, refl, same)))
    | inr good ↦
        let (out, runs, (bound, covers)) =
          alloc_loop_lem phys size nsegs sound.bounded (size + 1) 1 (phys 0).1 sound.first_le
            (omega arith) (omega arith) (λ _. pos) in
        (
          _,
          looped good out.0 out.1 runs,
          allocated out.0 out.1 bound covers (ground arith) sound.first_pos,
        )
  ]

  -- For a call with pointers that are there and nsegs above 1, memory of exactly nsegs + 1
  -- physical segments, which IOKit allocates and prepares, is accepted by bus_dmamem_alloc(): the
  -- entry behind the array is written, and *rsegs is nsegs + 1.
  pub bus_dmamem_alloc_overflows :
      {xs : List Extent}
      → Sound kit size
      → Covers kit.physical_segment size 0 xs
      → length xs ≡ nsegs + 1
      → 1 < nsegs
      → tag ≢ null
      → segs ≢ null
      → rsegs ≢ null
      → kit.mem_desc ≢ null
      → kit.prepared ≡ true
      → (h' : Held) × (bus_dmamem_alloc kit tag segs rsegs size nsegs h ≡ some (success, xs, h'))
  bus_dmamem_alloc_overflows sound (done e) many n t s r m p = absurd (omega arith)
  bus_dmamem_alloc_overflows sound (piece {x} {xs} e nz pos rest) many n t s r m p =
      let tail : Covers phys size (phys 0).1 xs =
        subst (λ o. Covers phys size o xs) (ground arith) rest in
      let runs =
        alloc_loop-Covers phys size nsegs sound.bounded (size + 1) 1 (phys 0).1 tail (omega arith)
          (omega arith) in
      let fine : refuses ≡ false = ground arith in (after none, rw (← e) (looped fine none xs runs))

  -- Memory of at most nsegs segments, which IOKit allocates and prepares, is allocated.
  pub bus_dmamem_alloc-Covers :
      {xs : List Extent}
      → Sound kit size
      → Covers kit.physical_segment size 0 xs
      → length xs ≤ nsegs
      → 0 < size
      → tag ≢ null
      → segs ≢ null
      → rsegs ≢ null
      → kit.mem_desc ≢ null
      → kit.prepared ≡ true
      → (h' : Held) × (bus_dmamem_alloc kit tag segs rsegs size nsegs h ≡ some (success, xs, h'))
  bus_dmamem_alloc-Covers sound (done e) few some_bytes n t s m p = absurd (omega arith)
  bus_dmamem_alloc-Covers sound (piece {x} {xs} e nz pos rest) few some_bytes n t s m p =
      let tail : Covers phys size (phys 0).1 xs =
        subst (λ o. Covers phys size o xs) (ground arith) rest in
      let runs =
        alloc_loop-Covers phys size nsegs sound.bounded (size + 1) 1 (phys 0).1 tail (omega arith)
          (omega arith) in
      let fine : refuses ≡ false =
        ground (arith, Covers-nil phys size nsegs sound.bounded (phys 0).1 tail) in
      (after none, rw (← e) (looped fine none xs runs))

  -- A success holds one descriptor more, and one wired.
  pub bus_dmamem_alloc-held :
      (xs : List Extent) (h' : Held)
      → bus_dmamem_alloc kit tag segs rsegs size nsegs h ≡ some (none, xs, h')
      → (h'.descriptors ≡ h.descriptors + 1) × (h'.wired ≡ h.wired + 1)
  unfolding bus_dmamem_alloc
  bus_dmamem_alloc-held xs h' e = ground arith

  pub bus_dmamem_alloc-refused :
      (x : Errno) (xs : List Extent) (h' : Held)
      → bus_dmamem_alloc kit tag segs rsegs size nsegs h ≡ some (some x, xs, h')
      → h'.descriptors ≡ h.descriptors
  unfolding bus_dmamem_alloc
  bus_dmamem_alloc-refused x xs h' e = ground arith
