-- ===== src/Dma/Alloc.antt =====
-- bus_dmamem_alloc() and bus_dmamem_free() of Sinetek-rtsx/compat/openbsd/dma.cpp.
pub mod Loop
pub mod Laws
use sinetek_rtsx.Base.{
  ℕ, zero, suc, ◌+◌, ◌-◌, ◌%◌, ◌^◌, Bool, true, false, not, ◌&&◌, ◌||◌, Option, none, some, List,
  [], ◌∷◌, Ptr, is_null, Code, success, Errno, enomem, einval, enotsup, ltb, ◌==◌, if◌then◌else◌,
}

-- ds_addr and ds_len of a segment
abbrev pub Extent : Type 0
Extent = ℕ × ℕ

-- What IOKit answers in one call: the new IOBufferMemoryDescriptor or null, whether prepare()
-- succeeds, and getPhysicalSegment() at an offset.
pub record Kit : Type 0 where
  pub mem_desc : Ptr
  pub prepared : Bool
  pub physical_segment : ℕ → Extent

-- The memory descriptors that the module holds a reference on, and those that are prepared.
pub record Held : Type 0 where
  pub descriptors : ℕ
  pub wired : ℕ

abbrev push : Extent → Option (Code × List Extent) → Option (Code × List Extent)
push x none = none
push x (some (e, xs)) = some (e, x ∷ xs)

-- `while (totalLen < size)`: the code, and the entries written at segs[idx], segs[idx + 1], ….
-- `off` has the value of `totalLen` throughout. `none` means that the fuel ran out.
unfoldable pub alloc_loop : (ℕ → Extent) → ℕ → ℕ → ℕ → ℕ → ℕ → Option (Code × List Extent)
alloc_loop phys size nsegs zero idx total = none
alloc_loop phys size nsegs (suc fuel) idx total =
    let (addr, len) = phys total in
    let total' = (total + len) % 2 ^ 64 in
    let rest = alloc_loop phys size nsegs fuel (idx + 1) total' in
    if not (ltb total size)
    then some (success, [])
    else if is_null addr || len == 0
    then some (some enomem, [])
    else if ltb size total'
    then some (some enomem, [])
    else if ltb total' size && ltb nsegs (idx + 1)
    then some (some enomem, (addr, len) ∷ [])
    else push (addr, len) rest

-- The code, the entries written from segs[0] on, and what is held afterwards. `*rsegs` is the number
-- of the entries. On success segs[0]._ds_memDesc is the descriptor, and segs[0]._ds_memMap null.
unfoldable pub bus_dmamem_alloc :
    Kit → Ptr → Ptr → Ptr → ℕ → ℕ → Held → Option (Code × List Extent × Held)
bus_dmamem_alloc kit tag segs rsegs size nsegs h =
    let (addr, len) = kit.physical_segment 0 in
    let wired = record h { wired = h.wired + 1 } in
    let rest = alloc_loop kit.physical_segment size nsegs (size + 1) 1 len in
    if is_null tag || is_null segs || is_null rsegs
    then some (some einval, [], h)
    else if is_null kit.mem_desc
    then some (some enomem, [], h)
    else if not kit.prepared
    then some (some enomem, [], h)
    else if nsegs == 1 && not (len == size) || is_null addr
    then some (some enotsup, [], wired)
    else elim rest [
      | none ↦ none
      | some (error, xs) ↦ elim error [
        | none ↦ some (success, (addr, len) ∷ xs, record wired { descriptors = h.descriptors + 1 })
        | some e ↦ some (some e, (addr, len) ∷ xs, wired)
      ]
    ]

-- `mem_desc` is segs[0]._ds_memDesc, which is null afterwards.
unfoldable pub bus_dmamem_free : Ptr → Ptr → Held → Ptr × Held
bus_dmamem_free segs mem_desc h =
    if is_null segs || is_null mem_desc
    then (mem_desc, h)
    else (0, record h { descriptors = h.descriptors - 1; wired = h.wired - 1 })
