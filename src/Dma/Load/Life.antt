-- ===== src/Dma/Load/Life.antt =====
-- The life of a DMA map of Sinetek-rtsx/compat/openbsd/dma.cpp, from its creation to its end.
use sinetek_rtsx.Base.{
  ℕ, ◌≡◌, ◌≢◌, refl, true, Option, none, some, arith, Ptr, null, success, Bool-cases, inl, inr,
  is_null, Option-cases,
}
use sinetek_rtsx.Dma.Load.{
  DmaMap, MapObjects, Known, Command, bus_dmamap_create, bus_dmamap_load, bus_dmamap_unload,
  bus_dmamap_destroy, created,
}

-- A load keeps what the map owns, and without an IODMACommand it keeps the map as it is.
abbrev Kept : DmaMap → Option DmaMap → Type 0
Kept m none = ⊥
Kept m (some m') =
    (m'.dma_command ≡ m.dma_command)
    × (is_null m.dma_command ≡ true → (m'.nsegs ≡ m.nsegs) × (m'.mapsize ≡ m.mapsize))

destroy-created :
    (m m' : DmaMap) (o : MapObjects)
    → m'.dma_command ≡ m.dma_command
    → bus_dmamap_destroy (some m') (created (some m) o) ≡ o
unfolding bus_dmamap_destroy
destroy-created m m' o same = ground arith

-- `descriptor` is the memory descriptor that a command holds on to.
module _ {C : Type 0} (cmd : Command C) (descriptor : C → Ptr)
    (clears : (c : C) → descriptor (cmd.clear_memory_descriptor c) ≡ null) where
  load-Kept :
      (m : DmaMap) (buf : Ptr) (buflen : ℕ) (p : Ptr) (segs : Option Ptr) (known : Known) (c : C)
      → Kept m (bus_dmamap_load cmd (some m) buf buflen p segs known c).1
  unfolding bus_dmamap_load
  load-Kept m buf buflen p none known c = ground arith
  load-Kept m buf buflen p (some s) known c = ground arith

  -- A DMA map that was created, loaded in whatever way and with whatever result, and unloaded has
  -- no valid segments and size 0, its IODMACommand, if it has one, holds no memory descriptor,
  -- where clearMemoryDescriptor() leaves none, and bus_dmamap_destroy() gives back the memory and
  -- the command that were taken for it.
  pub dmamap_life :
      (dmamp allocated dma_cmd : Ptr) (size nsegments maxsegsz boundary flags : ℕ) (m : DmaMap)
      (buf : Ptr) (buflen : ℕ) (p : Ptr) (segs : Option Ptr) (known : Known) (c : C)
      (o : MapObjects)
      → bus_dmamap_create dmamp allocated dma_cmd size nsegments maxsegsz boundary flags
        ≡ (success, some m)
      → let (code, loaded, c') = bus_dmamap_load cmd (some m) buf buflen p segs known c in
        (end : DmaMap) × ((bus_dmamap_unload cmd loaded c').0 ≡ some end)
        × (end.nsegs ≡ 0)
        × (end.mapsize ≡ 0)
        × (dma_cmd ≢ null → descriptor (bus_dmamap_unload cmd loaded c').1 ≡ null)
        × (bus_dmamap_destroy (some end) (created (some m) o) ≡ o)
  unfolding bus_dmamap_create bus_dmamap_unload
  dmamap_life dmamp allocated dma_cmd size nsegments maxsegsz boundary flags m buf buflen p segs
        known c o made =
      let out = bus_dmamap_load cmd (some m) buf buflen p segs known c in
      let kept = load-Kept m buf buflen p segs known c in
      elim (Option-cases out.1) [
        | inl gone ↦ absurd (rw gone at kept)
        | inr (m', e) ↦
            let same : Kept m (some m') = rw e at kept in
            elim (Bool-cases (is_null m'.dma_command)) [
              | inl bare ↦ (
                m',
                ground arith,
                ground arith,
                ground arith,
                λ nz. absurd (ground arith),
                destroy-created m m' o same.0,
              )
              | inr full ↦ (
                record m' { mapsize = 0; nsegs = 0 },
                ground arith,
                refl,
                refl,
                λ nz. ground (arith, clears out.2),
                destroy-created m (record m' { mapsize = 0; nsegs = 0 }) o same.0,
              )
            ]
      ]
