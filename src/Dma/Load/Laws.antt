-- ===== src/Dma/Load/Laws.antt =====
-- bus_dmamap_load() of Sinetek-rtsx/compat/openbsd/dma.cpp: the scatter/gather list that it builds.
use sinetek_rtsx.Base.{
  ℕ, zero, suc, ◌+◌, ◌^◌, ◌≤◌, ◌<◌, ◌≡◌, refl, Option, none, some, List, [], ◌∷◌, arith, Ptr, Code,
  Errno, success, is_null, Bool, false, not, ◌&&◌, leb, if◌then◌else◌, length, take, overwrite,
  take-overwrite,
}
use sinetek_rtsx.Dma.Load.{Extent, DmaMap, Gen, load_loop, Known, Command, bus_dmamap_load}

-- The bytes of a list of segments.
abbrev pub total : List Extent → ℕ
total [] = 0
total (x ∷ xs) = x.1 + total xs

-- genIOVMSegments() moves the offset past the segment that it returns, whose length has 32 bits.
pub record Sound (gen : Gen) : Type 0 where
  pub advances : (off : ℕ) → (gen off).0 ≡ none → (gen off).1 ≡ off + (gen off).3
  pub narrow : (off : ℕ) → (gen off).3 < 2 ^ 32

module _ (gen : Gen) (buflen : ℕ) (sound : Sound gen) where
  length-load_loop : (room offset : ℕ) → length (load_loop gen buflen room offset).2 ≤ room
  unfolding load_loop
  length-load_loop zero offset = omega arith
  length-load_loop (suc room) offset =
      ground (arith, length-load_loop room buflen, length-load_loop room (gen offset).1)

  -- As far as the loop comes, the segments have the bytes from the first offset to the last, and the
  -- last is not behind the end of the buffer.
  total-load_loop :
      (room offset : ℕ)
      → offset ≤ buflen
      → (load_loop gen buflen room offset).0 ≡ none
      → (offset + total (load_loop gen buflen room offset).2 ≡ (load_loop gen buflen room offset).1)
        × ((load_loop gen buflen room offset).1 ≤ buflen)
  unfolding load_loop
  total-load_loop zero offset le ok = (omega arith, le)
  total-load_loop (suc room) offset le ok = ground (
    arith,
    total-load_loop room buflen,
    total-load_loop room (gen offset).1,
    sound.advances offset,
    sound.narrow offset,
  )

module _ {C : Type 0} (cmd : Command C) (m : DmaMap) (buf : Ptr) (buflen : ℕ) (p : Ptr)
    (known : Known) (c : C) where
  -- The command with the memory descriptor of the buffer.
  abbrev pub set : Code × C
  set = cmd.set_memory_descriptor known.mem_desc c

  -- Where genIOVMSegments() moves the offset past each segment, whose length has 32 bits, a map
  -- that is loaded has at most as many valid segments as it was created for; together they have
  -- exactly buflen bytes, the memory behind them has as many, and the IODMACommand holds its
  -- descriptor.
  pub bus_dmamap_load-total :
      (segs : Option Ptr)
      → Sound (cmd.gen_iovm_segments set.1)
      → (bus_dmamap_load cmd (some m) buf buflen p segs known c).0 ≡ none
      → (m' : DmaMap) × (bus_dmamap_load cmd (some m) buf buflen p segs known c
          ≡ (success, some m', set.1))
        × (m'.nsegs ≤ m.segcnt)
        × (total (take m'.nsegs m'.segs) ≡ buflen)
        × (m'.mapsize ≡ buflen)
        × (buflen ≤ known.length)
  unfolding bus_dmamap_load
  bus_dmamap_load-total none sound ok = absurd (ground arith)
  bus_dmamap_load-total (some segs) sound ok =
      let gen = cmd.gen_iovm_segments set.1 in
      let out = load_loop gen buflen m.segcnt 0 in
      let room = length-load_loop gen buflen sound m.segcnt 0 in
      let bytes = total-load_loop gen buflen sound m.segcnt 0 (omega arith) in
      (
        record m {
          mapsize = buflen;
          nsegs = length out.2;
          segs = overwrite out.2 m.segs;
          mem_desc = known.mem_desc;
          mem_map = known.mem_map;
        },
        ground arith,
        room,
        rw (take-overwrite out.2 m.segs) (ground (arith, bytes)),
        refl,
        ground arith,
      )

  -- The map keeps its valid segments and its size.
  abbrev pub Keeps : Option DmaMap → Type 0
  Keeps none = ⊥
  Keeps (some m') = (m'.nsegs ≡ m.nsegs) × (m'.mapsize ≡ m.mapsize)

  -- The pointers are there, the process is the kernel, and the memory is long enough.
  abbrev pub is_ready : Option Ptr → Bool
  is_ready none = false
  is_ready (some segs) =
      not (is_null m.dma_command)
      && not (is_null buf)
      && is_null p
      && not (is_null segs)
      && not (is_null known.mem_desc)
      && not (is_null known.mem_map)
      && leb buflen known.length

  -- A load that fails leaves the number of valid segments and the size of the mapping as they
  -- were; the IODMACommand then holds the memory descriptor of the buffer, as far as it took it,
  -- if the pointers are there, the process is the kernel and the memory is long enough, and is
  -- untouched otherwise.
  pub bus_dmamap_load-fails :
      (segs : Option Ptr) (e : Errno)
      → (bus_dmamap_load cmd (some m) buf buflen p segs known c).0 ≡ some e
      → Keeps (bus_dmamap_load cmd (some m) buf buflen p segs known c).1
        × ((bus_dmamap_load cmd (some m) buf buflen p segs known c).2
            ≡ (if is_ready segs then set.1 else c))
  unfolding bus_dmamap_load
  bus_dmamap_load-fails none e bad = ground arith
  bus_dmamap_load-fails (some segs) e bad = ground arith
