-- ===== src/Dma/Mapping.antt =====
-- bus_dmamem_map() and bus_dmamem_unmap() of Sinetek-rtsx/compat/openbsd/dma.cpp, and their clients
-- dma_alloc() and dma_free() of Sinetek-rtsx/SDDisk.cpp.
pub mod Steps
pub mod Laws
use sinetek_rtsx.Base.{
  ℕ, ◌+◌, ◌-◌, Bool, true, false, not, ◌&&◌, ◌||◌, Option, none, some, List, Ptr, null, is_null,
  Code, success, Errno, enomem, einval, enotsup, is_error, ◌==◌, if◌then◌else◌,
}
use sinetek_rtsx.Dict.{Dict, add_to_list, remove_from_list, get_value_from_list}
use sinetek_rtsx.Dma.Alloc.{Kit, Held, bus_dmamem_alloc, bus_dmamem_free}

-- _ds_memDesc and _ds_memMap of the first entry of a segment array
pub record Head : Type 0 where
  pub mem_desc : Ptr
  pub mem_map : Ptr

-- The state of the module: what it holds on, VA_SEGS, and the segment arrays by their addresses.
pub record Mem : Type 0 where
  pub held : Held
  pub maps : ℕ
  pub va_segs : Dict
  pub heads : Ptr → Head

abbrev pub set_head : Ptr → Head → Mem → Mem
set_head segs x m = record m { heads = λ p. if p == segs then x else m.heads p }

-- `mapped` is what memDesc->map() returns, `addr` the address of that map. The result is the code,
-- *kvap if it is written, and the state.
unfoldable pub bus_dmamem_map : Ptr → Ptr → Ptr → Ptr → Mem → Code × Option Ptr × Mem
bus_dmamem_map mapped addr segs kvap m =
    let named = set_head segs (record { mem_desc = (m.heads segs).mem_desc; mem_map = mapped }) m in
    let counted = record named { maps = m.maps + 1 } in
    if is_null segs || is_null kvap
    then (some einval, none, m)
    else if is_null (m.heads segs).mem_desc
    then (some einval, none, m)
    else if not (is_null (m.heads segs).mem_map)
    then (some enotsup, none, m)
    else if is_null mapped
    then (some enomem, none, named)
    else elim (add_to_list addr segs m.va_segs) [
      | none ↦ (some enotsup, some addr, counted)
      | some d ↦ (success, some addr, record counted { va_segs = d })
    ]

abbrev or_same : Option Dict → Dict → Dict
or_same none d = d
or_same (some d') d = d'

-- `none` is the access to segs[0] through a null pointer.
unfoldable pub bus_dmamem_unmap : Ptr → Mem → Option Mem
bus_dmamem_unmap kva m = elim (get_value_from_list kva m.va_segs) [
  | none ↦ some m
  | some segs ↦
      let freed = set_head segs (record { mem_desc = (m.heads segs).mem_desc; mem_map = null }) m in
      if is_null segs
      then none
      else if is_null (m.heads segs).mem_map
      then some m
      else some (record freed {
        maps = m.maps - 1;
        va_segs = or_same (remove_from_list kva m.va_segs) m.va_segs;
      })
]

unfoldable pub free_segs : Ptr → Mem → Mem
unfolding bus_dmamem_free
free_segs segs m =
    let (desc, h) = bus_dmamem_free segs (m.heads segs).mem_desc m.held in
    record (set_head segs (record { mem_desc = desc; mem_map = (m.heads segs).mem_map }) m) {
      held = h;
    }

-- The caller's segment array, the tag and the address of `rsegs`, and what IOKit answers.
pub record Call : Type 0 where
  pub kit : Kit
  pub mapped : Ptr
  pub addr : Ptr
  pub tag : Ptr
  pub segs : Ptr
  pub rsegs : Ptr
  pub kvap : Ptr

-- The address of the buffer or null, and the state; `none` means that the fuel ran out.
unfoldable pub dma_alloc : Call → ℕ → ℕ → Mem → Option (Ptr × Mem)
unfolding bus_dmamem_map free_segs
dma_alloc c size nsegs m = elim (bus_dmamem_alloc c.kit c.tag c.segs c.rsegs size nsegs m.held) [
  | none ↦ none
  | some (error, xs, h) ↦
      let filled =
        set_head c.segs (record { mem_desc = c.kit.mem_desc; mem_map = null })
          (record m { held = h }) in
      let (failed, kva, m') = bus_dmamem_map c.mapped c.addr c.segs c.kvap filled in
      if is_error error
      then some (null, record m { held = h })
      else if is_error failed
      then some (null, free_segs c.segs m')
      else some (c.addr, m')
]

unfoldable pub dma_free : Ptr → Ptr → Mem → Option Mem
unfolding bus_dmamem_unmap free_segs
dma_free kva segs m = elim (bus_dmamem_unmap kva m) [
  | none ↦ none
  | some m' ↦ some (free_segs segs m')
]
