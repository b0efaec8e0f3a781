-- ===== src/Dma/Mapping/Laws.antt =====
-- dma_alloc() and dma_free() of Sinetek-rtsx/SDDisk.cpp over Sinetek-rtsx/compat/openbsd/dma.cpp:
-- what an allocated buffer holds, and that freeing it gives everything back.
use sinetek_rtsx.Base.{
  ℕ, ◌+◌, ◌≡◌, ◌≢◌, sym, ap, ◌∙◌, subst, none, some, List, Ptr, null, arith, Option-cases, inl, inr,
}
use sinetek_rtsx.Dict.{Dict, add_to_list, get_value_from_list}
use sinetek_rtsx.Dict.Valid.{IsValid, free_slots}
use sinetek_rtsx.Dict.Laws.{add_to_list_total}
use sinetek_rtsx.Dma.Alloc.{Extent, Held, bus_dmamem_alloc}
use sinetek_rtsx.Dma.Mapping.{Mem, Call, free_segs, dma_alloc, dma_free}
use sinetek_rtsx.Dma.Alloc.Laws.{bus_dmamem_alloc-held}
use sinetek_rtsx.Dma.Mapping.Steps.{
  Good, mapped, unmap_ok, dma_alloc-mapped, dma_alloc-full, dma_alloc-refused, dma_alloc-none,
  mapped_fields, free_segs_lem,
}

module _ (c : Call) (size nsegs : ℕ) (m : Mem) (good : Good c m) where
  -- a success mapped the new memory
  inversion :
      (kva : Ptr) (m' : Mem)
      → dma_alloc c size nsegs m ≡ some (kva, m')
      → kva ≢ null
      → (xs : List Extent) × (h : Held) × (d : Dict) × (bus_dmamem_alloc c.kit c.tag c.segs c.rsegs
            size nsegs m.held
          ≡ some (none, xs, h))
        × (add_to_list c.addr c.segs m.va_segs ≡ some d)
        × (kva ≡ c.addr)
        × (m' ≡ mapped c size nsegs m good h d)
  inversion kva m' e nz =
      elim (Option-cases (bus_dmamem_alloc c.kit c.tag c.segs c.rsegs size nsegs m.held)) [
        | inl none_left ↦ cc (dma_alloc-none c size nsegs m good none_left)
        | inr ((some x, xs, h), got) ↦
            absurd (nz (cc (dma_alloc-refused c size nsegs m good x xs h got)))
        | inr ((none, xs, h), got) ↦ elim (Option-cases (add_to_list c.addr c.segs m.va_segs)) [
          | inl full ↦ absurd (nz (cc (dma_alloc-full c size nsegs m good xs h got full)))
          | inr (d, room) ↦
              let same = dma_alloc-mapped c size nsegs m good xs h d got room in
              (xs, h, d, got, room, cc same, cc same)
        ]
      ]

  -- One descriptor, wired, and one map more are held in `m'`, and dma_free() gives them back.
  abbrev pub Restored : Ptr → Mem → Type 0
  Restored kva m' =
      (m'' : Mem) × (dma_free kva c.segs m' ≡ some m'')
      × (m'.maps ≡ m.maps + 1)
      × (m'.held.descriptors ≡ m.held.descriptors + 1)
      × (m'.held.wired ≡ m.held.wired + 1)
      × (m''.maps ≡ m.maps)
      × (m''.held ≡ m.held)
      × IsValid m''.va_segs
      × ((j : Ptr) → j ≢ 0 → get_value_from_list j m''.va_segs ≡ get_value_from_list j m.va_segs)
      × (free_slots m''.va_segs ≡ free_slots m.va_segs)

  restored :
      (xs : List Extent) (h : Held) (d : Dict)
      → bus_dmamem_alloc c.kit c.tag c.segs c.rsegs size nsegs m.held ≡ some (none, xs, h)
      → add_to_list c.addr c.segs m.va_segs ≡ some d
      → Restored c.addr (mapped c size nsegs m good h d)
  unfolding dma_free
  restored xs h d got room =
      let (d', m1, unmapped, dict, maps, held, desc, valid, binds, slots) =
        unmap_ok c size nsegs m good h d room in
      let more = bus_dmamem_alloc-held c.kit c.tag c.segs c.rsegs size nsegs m.held xs h got in
      let fields = mapped_fields c size nsegs m good h d in
      let freed = free_segs_lem c.segs m1 good.segs_set (λ z. good.desc_set (sym desc ∙ z)) in
      (
        free_segs c.segs m1,
        rw (unmapped, dma_free),
        fields.0,
        ground (arith, fields.1, more),
        ground (arith, fields.1, more),
        freed.0 ∙ maps,
        ground (arith, freed, held, more),
        subst IsValid (sym (freed.1 ∙ dict)) valid,
        λ j nj. ap (get_value_from_list j) (freed.1 ∙ dict) ∙ binds j nj,
        ap free_slots (freed.1 ∙ dict) ∙ slots,
      )

  -- For a call with pointers that are there and an address that a valid VA_SEGS does not bind yet:
  -- a dma_alloc() that succeeds holds one wired descriptor and one map more; dma_free() of its
  -- address gives them back, and VA_SEGS binds what it bound before, with as many free slots.
  pub dma_free-dma_alloc :
      (kva : Ptr) (m' : Mem)
      → dma_alloc c size nsegs m ≡ some (kva, m')
      → kva ≢ null
      → Restored kva m'
  dma_free-dma_alloc kva m' e nz =
      let (xs, h, d, got, room, at, made) = inversion kva m' e nz in
      subst (λ k. Restored k m') (sym at)
        (subst (λ x. Restored c.addr x) (sym made) (restored xs h d got room))

  -- For a call with pointers that are there, memory that is allocated, and VA_SEGS full,
  -- dma_alloc() fails after the map was made: the descriptor is given back, and the map is not.
  pub dma_alloc_leaks :
      (xs : List Extent) (h : Held)
      → bus_dmamem_alloc c.kit c.tag c.segs c.rsegs size nsegs m.held ≡ some (none, xs, h)
      → free_slots m.va_segs ≡ 0
      → (m' : Mem) × (dma_alloc c size nsegs m ≡ some (null, m'))
        × (m'.maps ≡ m.maps + 1)
        × (m'.held ≡ m.held)
  dma_alloc_leaks xs h got full =
      let fields = mapped_fields c size nsegs m good h m.va_segs in
      let refused = (add_to_list_total c.addr c.segs m.va_segs good.key.0).1 full in
      let more = bus_dmamem_alloc-held c.kit c.tag c.segs c.rsegs size nsegs m.held xs h got in
      let freed =
        free_segs_lem c.segs (mapped c size nsegs m good h m.va_segs) good.segs_set
          (λ z. good.desc_set (sym fields.2 ∙ z)) in
      (
        free_segs c.segs (mapped c size nsegs m good h m.va_segs),
        dma_alloc-full c size nsegs m good xs h got refused,
        freed.0 ∙ fields.0,
        ground (arith, freed, fields, more),
      )
