-- ===== src/Disk/Buffered/Success.antt =====
-- When read_task_impl_() of Sinetek-rtsx/SDDisk.cpp reports success over the buffer of
-- Sinetek-rtsx/compat/openbsd/dma.cpp.
use sinetek_rtsx.Base.{
  ℕ, zero, suc, ◌≤◌, ◌<◌, ◌≡◌, ◌≢◌, refl, ap, inr, Bool, true, Option, none, some, List, arith, Ptr,
  null, Code, length, ==-false_of_ne,
}
use sinetek_rtsx.Retry.{Fails, start, fail}
use sinetek_rtsx.Dict.Valid.{free_slots}
use sinetek_rtsx.Dict.Laws.{add_to_list_total}
use sinetek_rtsx.Disk.Io.{Io, Storage}
use sinetek_rtsx.Disk.Transfer.{send_byte_count}
use sinetek_rtsx.Disk.Task.{BioArgs, Site, actual_byte_count}
use sinetek_rtsx.Disk.Task.Success.{Recovering, Granted}
use sinetek_rtsx.Disk.Buffered.{dma_io, granted, released}
use sinetek_rtsx.Dma.Alloc.{Extent}
use sinetek_rtsx.Dma.Alloc.Loop.{Covers}
use sinetek_rtsx.Dma.Alloc.Laws.{Sound, bus_dmamem_alloc-Covers}
use sinetek_rtsx.Dma.Mapping.{Mem, Call, dma_alloc, dma_free}
use sinetek_rtsx.Dma.Mapping.Steps.{Good, dma_alloc-mapped}

-- A call on the device, beside the memory of dma.cpp.
abbrev beside : {D : Type 0} → (D → Code × D) → D × Mem → Code × (D × Mem)
beside f (d, m) = let (code, d') = f d in (code, (d', m))

Fails-beside :
    {D : Type 0} (f : D → Code × D) (n : ℕ) (s t : D × Mem)
    → Fails (beside f) n s t
    → Fails f n s.0 t.0
Fails-beside f zero s _ start = start
Fails-beside f (suc n) s t (fail e bad rest) = fail e bad (Fails-beside f n _ t rest)

pub granted-device :
    {D : Type 0} (d : D) (m : Mem) (r : Option (Ptr × Mem)) → (granted d m r).1.0 ≡ d
granted-device d m none = refl
granted-device d m (some (kva, m')) = refl

pub released-device : {D : Type 0} (d : D) (m : Mem) (r : Option Mem) → (released d m r).0 ≡ d
released-device d m none = refl
released-device d m (some m') = refl

-- Memory for the buffer of a request, in at most `nsegs` segments, that IOKit allocates and prepares.
pub record Provides (c : Call) (nsegs : ℕ) (site : Site) (args : BioArgs) : Type 0 where
  pub sound : Sound c.kit (send_byte_count (actual_byte_count args site))
  pub extents : List Extent
  pub covers :
      Covers c.kit.physical_segment (send_byte_count (actual_byte_count args site)) 0 extents
  pub few : length extents ≤ nsegs
  pub some_bytes : 0 < actual_byte_count args site
  pub tag_set : c.tag ≢ null
  pub rsegs_set : c.rsegs ≢ null
  pub prepared : c.kit.prepared ≡ true

module _ {D : Type 0} (io : Io D) (c : Call) (nsegs : ℕ) where
  pub dma_io-Recovering : (size : ℕ) → Recovering io size → Recovering (dma_io io c nsegs) size
  dma_io-Recovering size r = record {
    reads = λ blk len fits s t fails.
        r.reads blk len fits s.0 t.0 (Fails-beside (io.read_block blk len) 3 s t fails);
    writes = λ blk len fits s t fails.
        r.writes blk len fits s.0 t.0 (Fails-beside (io.write_block blk len) 3 s t fails);
  }

  -- The card and the memory of a request are those of the device.
  abbrev pub dma_storage : Storage io → Storage (dma_io io c nsegs)
  dma_storage st = record {
    card = λ s. st.card s.0;
    memory = λ s. st.memory s.0;
    bounce = λ s. st.bounce s.0;
    size = st.size;
    read_block-card = λ blk len s a. st.read_block-card blk len s.0 a;
    read_block-memory = λ blk len s a. st.read_block-memory blk len s.0 a;
    read_block-bounce = λ blk len s i. st.read_block-bounce blk len s.0 i;
    write_block-memory = λ blk len s a. st.write_block-memory blk len s.0 a;
    write_block-bounce = λ blk len s a. st.write_block-bounce blk len s.0 a;
    write_block-outside = λ blk len s a. st.write_block-outside blk len s.0 a;
    write_block-inside = λ blk len s i. st.write_block-inside blk len s.0 i;
    write_bytes-count = λ off len s. st.write_bytes-count off len s.0;
    write_bytes-card = λ off len s a. st.write_bytes-card off len s.0 a;
    write_bytes-memory = λ off len s a. st.write_bytes-memory off len s.0 a;
    read_bytes-count = λ off len s. st.read_bytes-count off len s.0;
    read_bytes-card = λ off len s a. st.read_bytes-card off len s.0 a;
    read_bytes-memory = λ off len s a. st.read_bytes-memory off len s.0 a;
    read_bytes-bounce = λ off len s i. st.read_bytes-bounce off len s.0 i;
    dma_alloc-card =
        λ len dir s a. ap (λ d. st.card d a) (granted-device s.0 s.1 (dma_alloc c len nsegs s.1));
    dma_alloc-memory =
        λ len dir s a. ap (λ d. st.memory d a) (granted-device s.0 s.1 (dma_alloc c len nsegs s.1));
    dma_free-card =
        λ len s a. ap (λ d. st.card d a) (released-device s.0 s.1 (dma_free c.addr c.segs s.1));
    dma_free-memory =
        λ len s a. ap (λ d. st.memory d a) (released-device s.0 s.1 (dma_free c.addr c.segs s.1));
  }

  pub dma_io-Granted :
      (no_adma : Bool) (site : Site) (args : BioArgs) (s : D × Mem)
      → Provides c nsegs site args
      → Good c s.1
      → 0 < free_slots s.1.va_segs
      → Granted (dma_io io c nsegs) no_adma site args s
  dma_io-Granted no_adma site args (d, m) p good room =
      let size = send_byte_count (actual_byte_count args site) in
      let (h, runs) =
        bus_dmamem_alloc-Covers c.kit c.tag c.segs c.rsegs size nsegs m.held p.sound p.covers p.few
          (ground (arith, p.some_bytes)) p.tag_set good.segs_set p.rsegs_set good.desc_set
          p.prepared in
      let (d', added, fewer) = (add_to_list_total c.addr c.segs m.va_segs good.key.0).0 room in
      let got = dma_alloc-mapped c size nsegs m good p.extents h d' runs added in
      inr (rw (got, ==-false_of_ne c.addr 0 good.key.0) refl)
