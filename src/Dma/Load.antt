-- ===== src/Dma/Load.antt =====
-- bus_dmamap_create(), _destroy(), _load() and _unload() of Sinetek-rtsx/compat/openbsd/dma.cpp.
pub mod Laws
pub mod Life
use sinetek_rtsx.Base.{
  ℕ, zero, suc, ◌+◌, ◌-◌, ◌%◌, ◌^◌, Bool, true, false, not, ◌&&◌, ◌||◌, Option, none, some, List,
  [], ◌∷◌, Ptr, null, is_null, Code, success, Errno, enomem, einval, enotsup, is_error, ltb, ◌==◌,
  if◌then◌else◌, length, overwrite,
}

-- ds_addr and ds_len of a segment
abbrev pub Extent : Type 0
Extent = ℕ × ℕ

-- struct bus_dmamap, as far as these functions use it
pub record DmaMap : Type 0 where
  pub size : ℕ
  pub flags : ℕ
  pub segcnt : ℕ
  pub maxsegsz : ℕ
  pub boundary : ℕ
  pub dma_command : Ptr
  pub mapsize : ℕ
  pub nsegs : ℕ
  pub segs : List Extent  -- the entries written so far; the first `nsegs` are valid
  pub mem_desc : Ptr  -- segs[0]._ds_memDesc
  pub mem_map : Ptr  -- segs[0]._ds_memMap

-- `allocated` is what IOMalloc returns, `dma_cmd` the new IODMACommand; `dmamp` is the argument.
unfoldable pub bus_dmamap_create : Ptr → Ptr → Ptr → ℕ → ℕ → ℕ → ℕ → ℕ → Code × Option DmaMap
bus_dmamap_create dmamp allocated dma_cmd size nsegments maxsegsz boundary flags =
    if is_null dmamp
    then (some einval, none)
    else if is_null allocated
    then (some enomem, none)
    else (
      success,
      some (record {
        size = size;
        flags = flags;
        segcnt = nsegments;
        maxsegsz = maxsegsz;
        boundary = boundary;
        dma_command = dma_cmd;
        mapsize = 0;
        nsegs = 0;
        segs = [];
        mem_desc = 0;
        mem_map = 0;
      }),
    )

-- genIOVMSegments() for one segment, from an offset: the code, the offset behind it, its address and
-- its length.
abbrev pub Gen : Type 0
Gen = ℕ → Code × ℕ × ℕ × ℕ

-- The methods of an IODMACommand that are called, over its state.
pub record Command (C : Type 0) : Type 0 where
  pub set_memory_descriptor : Ptr → C → Code × C
  pub clear_memory_descriptor : C → C
  pub gen_iovm_segments : C → Gen

-- Where the loop ends: with a code, the last offset, and the entries written from segs[0] on.
abbrev pub Loaded : Type 0
Loaded = Code × ℕ × List Extent

abbrev add : Extent → Loaded → Loaded
add x (c, off, xs) = (c, off, x ∷ xs)

-- `while (offset < buflen && segCnt < dmam->_dm_segcnt)`, by the entries that are left.
unfoldable pub load_loop : Gen → ℕ → ℕ → ℕ → Loaded
load_loop gen buflen zero offset = (success, offset, [])
load_loop gen buflen (suc room) offset =
    let (err, next, addr, len) = gen offset in
    let last = load_loop gen buflen room buflen in
    let rest = load_loop gen buflen room next in
    if not (ltb offset buflen)
    then (success, offset, [])
    else if is_error err
    then (err, next, [])
    else if ltb buflen next
    then add (addr, (len + 2 ^ 32 - (next - buflen) % 2 ^ 32) % 2 ^ 32) last
    else add (addr, len) rest

-- The first entry of the segment array that VA_SEGS knows for a virtual address.
pub record Known : Type 0 where
  pub mem_desc : Ptr
  pub mem_map : Ptr
  pub length : ℕ  -- md->getLength()

module _ {C : Type 0} (cmd : Command C) where
  -- `segs` is what VA_SEGS::getValueFromList(buf) gives, `known` what stands there, and `c` the
  -- IODMACommand of the map. A failure in or after the loop leaves entries overwritten.
  unfoldable pub bus_dmamap_load :
      Option DmaMap → Ptr → ℕ → Ptr → Option Ptr → Known → C → Code × Option DmaMap × C
  bus_dmamap_load none buf buflen p segs known c = (some einval, none, c)
  bus_dmamap_load (some m) buf buflen p none known c =
      if is_null m.dma_command || is_null buf
      then (some einval, some m, c)
      else (some enotsup, some m, c)
  bus_dmamap_load (some m) buf buflen p (some segs) known c =
      let (set_desc, c') = cmd.set_memory_descriptor known.mem_desc c in
      let (err, offset, xs) = load_loop (cmd.gen_iovm_segments c') buflen m.segcnt 0 in
      let scribbled = record m { segs = overwrite xs m.segs } in
      if is_null m.dma_command || is_null buf
      then (some einval, some m, c)
      else if not (is_null p)
      then (some enotsup, some m, c)
      else if is_null segs || is_null known.mem_desc || is_null known.mem_map
      then (some einval, some m, c)
      else if ltb known.length buflen
      then (some enotsup, some m, c)
      else if is_error set_desc
      then (set_desc, some m, c')
      else if is_error err
      then (err, some scribbled, c')
      else if not (offset == buflen)
      then (some enotsup, some scribbled, c')
      else (
        success,
        some (record scribbled {
          mapsize = buflen;
          nsegs = length xs;
          mem_desc = known.mem_desc;
          mem_map = known.mem_map;
        }),
        c',
      )

  unfoldable pub bus_dmamap_unload : Option DmaMap → C → Option DmaMap × C
  bus_dmamap_unload none c = (none, c)
  bus_dmamap_unload (some m) c =
      if is_null m.dma_command
      then (some m, c)
      else (some (record m { mapsize = 0; nsegs = 0 }), cmd.clear_memory_descriptor c)

-- What a map holds: the memory of IOMalloc, and the IODMACommand.
pub record MapObjects : Type 0 where
  pub memories : ℕ
  pub commands : ℕ

-- What bus_dmamap_create() took; without an IODMACommand the map is made all the same.
abbrev pub created : Option DmaMap → MapObjects → MapObjects
created none o = o
created (some m) o = record {
  memories = o.memories + 1;
  commands = if is_null m.dma_command then o.commands else o.commands + 1;
}

unfoldable pub bus_dmamap_destroy : Option DmaMap → MapObjects → MapObjects
bus_dmamap_destroy none o = o
bus_dmamap_destroy (some m) o = record {
  memories = o.memories - 1;
  commands = if is_null m.dma_command then o.commands else o.commands - 1;
}

-- OSSynchronizeIO(), whatever the arguments are
unfoldable pub bus_dmamap_sync : {S : Type 0} → (S → S) → S → S
bus_dmamap_sync synchronize_io s = synchronize_io s
