-- ===== src/Dma/Mapping/Steps.antt =====
-- The branches of bus_dmamem_map() and bus_dmamem_unmap() in Sinetek-rtsx/compat/openbsd/dma.cpp, and
-- of dma_alloc() in Sinetek-rtsx/SDDisk.cpp, that a good call takes.
use sinetek_rtsx.Base.{
  ℕ, ◌+◌, ◌-◌, ◌≡◌, ◌≢◌, refl, sym, ap, ◌∙◌, none, some, List, Ptr, null, success, arith, Errno,
  enotsup, ◌==◌, ==-refl, ==-false_of_ne, eq_of_==, Bool-cases, inl, inr,
}
use sinetek_rtsx.Dict.{Dict, add_to_list, remove_from_list, get_value_from_list}
use sinetek_rtsx.Dict.Valid.{IsKey, IsValid, free_slots}
use sinetek_rtsx.Dict.Laws.{
  get_value-add_to_list, get_value-remove_from_list, add_to_list-IsValid, remove_from_list-IsValid,
  remove_from_list_total, add_takes, remove_frees,
}
use sinetek_rtsx.Dma.Alloc.{Extent, Held, bus_dmamem_alloc}
use sinetek_rtsx.Dma.Mapping.{
  Mem, Call, set_head, bus_dmamem_map, bus_dmamem_unmap, free_segs, dma_alloc,
}

-- A call with pointers that are there, a map that succeeds, and a new address for it.
pub record Good (c : Call) (m : Mem) : Type 0 where
  pub segs_set : c.segs ≢ null
  pub kvap_set : c.kvap ≢ null
  pub desc_set : c.kit.mem_desc ≢ null
  pub map_set : c.mapped ≢ null
  pub key : IsKey c.addr
  pub valid : IsValid m.va_segs
  pub fresh : get_value_from_list c.addr m.va_segs ≡ none

module _ (c : Call) (size nsegs : ℕ) (m : Mem) (good : Good c m) where
  filled : Held → Mem
  filled h =
      set_head c.segs (record { mem_desc = c.kit.mem_desc; mem_map = null }) (record m { held = h })

  -- The state after a success.
  pub mapped : Held → Dict → Mem
  unfolding filled
  mapped h d =
      record (set_head c.segs (record { mem_desc = c.kit.mem_desc; mem_map = c.mapped })
        (filled h)) { maps = m.maps + 1; va_segs = d }

  map_ok :
      (h : Held) (d : Dict)
      → add_to_list c.addr c.segs m.va_segs ≡ some d
      → bus_dmamem_map c.mapped c.addr c.segs c.kvap (filled h) ≡ (success, some c.addr, mapped h d)
  unfolding bus_dmamem_map mapped
  map_ok h d e =
      let s = ==-false_of_ne c.segs 0 good.segs_set in
      let k = ==-false_of_ne c.kvap 0 good.kvap_set in
      let i = ==-false_of_ne c.kit.mem_desc 0 good.desc_set in
      let a = ==-false_of_ne c.mapped 0 good.map_set in
      rw (==-refl c.segs, s, k, i, a, e, bus_dmamem_map) (rw (==-refl c.segs))

  map_full :
      (h : Held)
      → add_to_list c.addr c.segs m.va_segs ≡ none
      → bus_dmamem_map c.mapped c.addr c.segs c.kvap (filled h)
        ≡ (some enotsup, some c.addr, mapped h m.va_segs)
  unfolding bus_dmamem_map mapped
  map_full h e =
      let s = ==-false_of_ne c.segs 0 good.segs_set in
      let k = ==-false_of_ne c.kvap 0 good.kvap_set in
      let i = ==-false_of_ne c.kit.mem_desc 0 good.desc_set in
      let a = ==-false_of_ne c.mapped 0 good.map_set in
      rw (==-refl c.segs, s, k, i, a, e, bus_dmamem_map) (rw (==-refl c.segs))

  unbound :
      (d d' : Dict) (j : Ptr)
      → j ≢ 0
      → add_to_list c.addr c.segs m.va_segs ≡ some d
      → IsValid d
      → remove_from_list c.addr d ≡ some d'
      → get_value_from_list j d' ≡ get_value_from_list j m.va_segs
  unbound d d' j nz e valid removed =
      let after = get_value-remove_from_list c.addr d d' j valid removed good.key.0 nz in
      let before =
        get_value-add_to_list c.addr c.segs m.va_segs d j good.valid good.fresh e good.key.0 nz in
      elim (Bool-cases (c.addr == j)) [
        | inl same ↦
            after
            ∙ rw same (
                sym good.fresh ∙ ap (λ k. get_value_from_list k m.va_segs) (eq_of_== c.addr j same))
        | inr other ↦ after ∙ (rw other (before ∙ rw other))
      ]

  pub unmap_ok :
      (h : Held) (d : Dict)
      → add_to_list c.addr c.segs m.va_segs ≡ some d
      → (d' : Dict) × (m' : Mem) × (bus_dmamem_unmap c.addr (mapped h d) ≡ some m')
        × (m'.va_segs ≡ d')
        × (m'.maps ≡ m.maps)
        × (m'.held ≡ h)
        × ((m'.heads c.segs).mem_desc ≡ c.kit.mem_desc)
        × IsValid d'
        × ((j : Ptr) → j ≢ 0 → get_value_from_list j d' ≡ get_value_from_list j m.va_segs)
        × (free_slots d' ≡ free_slots m.va_segs)
  unfolding bus_dmamem_unmap mapped
  unmap_ok h d e =
      let bound : get_value_from_list c.addr d ≡ some c.segs =
        get_value-add_to_list c.addr c.segs m.va_segs d c.addr good.valid good.fresh e good.key.0
          good.key.0
        ∙ rw (==-refl c.addr) in
      let valid = add_to_list-IsValid c.addr c.segs m.va_segs d good.key good.valid good.fresh e in
      let (d', removed) = remove_from_list_total c.addr d c.segs bound in
      let s = ==-false_of_ne c.segs 0 good.segs_set in
      let a = ==-false_of_ne c.mapped 0 good.map_set in
      (
        d',
        record (set_head c.segs (record { mem_desc = c.kit.mem_desc; mem_map = null })
            (mapped h d)) { maps = m.maps + 1 - 1; va_segs = d' },
        rw (bound, s, ==-refl c.segs, a, removed, bus_dmamem_unmap),
        refl,
        omega arith,
        refl,
        ground arith,
        remove_from_list-IsValid c.addr d d' valid removed,
        λ j nz. unbound d d' j nz e valid removed,
        remove_frees c.addr d d' good.key.0 removed
            ∙ sym (add_takes c.addr c.segs m.va_segs d good.key.0 e),
      )

  pub dma_alloc-mapped :
      (xs : List Extent) (h : Held) (d : Dict)
      → bus_dmamem_alloc c.kit c.tag c.segs c.rsegs size nsegs m.held ≡ some (none, xs, h)
      → add_to_list c.addr c.segs m.va_segs ≡ some d
      → dma_alloc c size nsegs m ≡ some (c.addr, mapped h d)
  unfolding dma_alloc filled
  dma_alloc-mapped xs h d got e = rw (got, dma_alloc) (rw (map_ok h d e))

  pub dma_alloc-full :
      (xs : List Extent) (h : Held)
      → bus_dmamem_alloc c.kit c.tag c.segs c.rsegs size nsegs m.held ≡ some (none, xs, h)
      → add_to_list c.addr c.segs m.va_segs ≡ none
      → dma_alloc c size nsegs m ≡ some (null, free_segs c.segs (mapped h m.va_segs))
  unfolding dma_alloc filled
  dma_alloc-full xs h got e = rw (got, dma_alloc) (rw (map_full h e))

  pub dma_alloc-refused :
      (x : Errno) (xs : List Extent) (h : Held)
      → bus_dmamem_alloc c.kit c.tag c.segs c.rsegs size nsegs m.held ≡ some (some x, xs, h)
      → dma_alloc c size nsegs m ≡ some (null, record m { held = h })
  unfolding dma_alloc
  dma_alloc-refused x xs h got = rw (got, dma_alloc)

  pub dma_alloc-none :
      bus_dmamem_alloc c.kit c.tag c.segs c.rsegs size nsegs m.held ≡ none
      → dma_alloc c size nsegs m ≡ none
  unfolding dma_alloc
  dma_alloc-none e = rw (e, dma_alloc)

  pub mapped_fields :
      (h : Held) (d : Dict)
      → ((mapped h d).maps ≡ m.maps + 1)
        × ((mapped h d).held ≡ h)
        × (((mapped h d).heads c.segs).mem_desc ≡ c.kit.mem_desc)
  unfolding mapped
  mapped_fields h d = (refl, refl, ground arith)

-- bus_dmamem_free() of an array that names a descriptor gives that back.
pub free_segs_lem :
    (segs : Ptr) (m : Mem)
    → segs ≢ null
    → (m.heads segs).mem_desc ≢ null
    → ((free_segs segs m).maps ≡ m.maps)
      × ((free_segs segs m).va_segs ≡ m.va_segs)
      × ((free_segs segs m).held.descriptors ≡ m.held.descriptors - 1)
      × ((free_segs segs m).held.wired ≡ m.held.wired - 1)
unfolding free_segs
free_segs_lem segs m s d = (refl, refl, ground arith, ground arith)
