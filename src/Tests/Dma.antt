-- ===== src/Tests/Dma.antt =====
-- dma.cpp at memory of three physical segments, and at buffers in an empty and in a full VA_SEGS.
use sinetek_rtsx.Base.{
  ℕ, ◌+◌, ◌*◌, ◌≤◌, ◌≡◌, refl, true, none, some, List, [], ◌∷◌, arith, Code, success, null, ltb,
  take, if◌then◌else◌, eio,
}
use sinetek_rtsx.Dict.{Dict, init, get_value_from_list}
use sinetek_rtsx.Dma.Alloc.{Extent, Kit, Held, bus_dmamem_alloc, alloc_loop}
use sinetek_rtsx.Dma.Alloc.Loop.{Covers, done, piece}
use sinetek_rtsx.Dma.Alloc.Laws.{Sound, Allocated, bus_dmamem_alloc_lem, bus_dmamem_alloc_overflows}
use sinetek_rtsx.Dict.{add_to_list}
use sinetek_rtsx.Dma.Mapping.{Mem, Call, dma_alloc}
use sinetek_rtsx.Dma.Mapping.Steps.{Good}
use sinetek_rtsx.Dma.Mapping.Laws.{Restored, dma_free-dma_alloc, dma_alloc_leaks}
use sinetek_rtsx.Dma.Load.{Gen, DmaMap, Known, Command, bus_dmamap_load, load_loop}
use sinetek_rtsx.Dma.Load.Laws as Load
use sinetek_rtsx.Dict.Valid.{init-IsValid}
use sinetek_rtsx.Tests.Dict.{full, full-IsValid}

-- Pages of 4 KiB, each a physical segment of its own, at every second page.
abbrev pub pages : ℕ → Extent
pages off = if ltb off 12288 then (8192 + 2 * off, 4096) else (0, 0)

abbrev pub kit : Kit
kit = record { mem_desc = 11; prepared = true; physical_segment = pages }

abbrev pub nothing : Held
nothing = record { descriptors = 0; wired = 0 }

pub kit-Sound : Sound kit 12288
kit-Sound = record {
  bounded = λ off h. ground arith;
  first_pos = omega arith;
  first_le = omega arith;
}

abbrev pub three_pages : List Extent
three_pages = (8192, 4096) ∷ (16384, 4096) ∷ (24576, 4096) ∷ []

pages-Covers : Covers pages 12288 0 three_pages
pages-Covers =
    piece refl (omega arith) (omega arith)
      (piece refl (omega arith) (omega arith) (piece refl (omega arith) (omega arith) (done refl)))

bus_dmamem_alloc_lem_example :
    (out : Code × List Extent × Held) × (bus_dmamem_alloc kit 1 2 3 12288 4 nothing ≡ some out)
    × Allocated kit 1 2 3 12288 4 nothing out
bus_dmamem_alloc_lem_example =
    bus_dmamem_alloc_lem kit 1 2 3 12288 4 nothing kit-Sound (omega arith)

-- an array of two entries
bus_dmamem_alloc_overflows_example :
    (h' : Held) × (bus_dmamem_alloc kit 1 2 3 12288 2 nothing ≡ some (success, three_pages, h'))
bus_dmamem_alloc_overflows_example =
    bus_dmamem_alloc_overflows kit 1 2 3 12288 2 nothing kit-Sound pages-Covers refl (omega arith)
      (omega arith) (omega arith) (omega arith) (omega arith) refl

-- A call for the three pages.
abbrev pub call : Call
call = record { kit = kit; mapped = 21; addr = 4096; tag = 1; segs = 2; rsegs = 3; kvap = 5 }

abbrev pub holding : Dict → Mem
holding d = record {
  held = nothing;
  maps = 0;
  va_segs = d;
  heads = λ p. record { mem_desc = 0; mem_map = 0 };
}

pub init-Good : Good call (holding init)
unfolding get_value_from_list init
init-Good = record {
  segs_set = omega arith;
  kvap_set = omega arith;
  desc_set = omega arith;
  map_set = omega arith;
  key = (omega arith, omega arith);
  valid = init-IsValid;
  fresh = refl;
}

full-Good : Good call (holding full)
unfolding get_value_from_list
full-Good = record {
  segs_set = omega arith;
  kvap_set = omega arith;
  desc_set = omega arith;
  map_set = omega arith;
  key = (omega arith, omega arith);
  valid = full-IsValid;
  fresh = refl;
}

dma_free-dma_alloc_example :
    (m' : Mem) × (dma_alloc call 12288 4 (holding init) ≡ some (4096, m'))
    × Restored call 12288 4 (holding init) init-Good 4096 m'
unfolding dma_alloc bus_dmamem_alloc alloc_loop init add_to_list
dma_free-dma_alloc_example =
    (_, refl, dma_free-dma_alloc call 12288 4 (holding init) init-Good 4096 _ refl (omega arith))

dma_alloc_leaks_example :
    (m' : Mem) × (dma_alloc call 12288 4 (holding full) ≡ some (null, m'))
    × (m'.maps ≡ 1)
    × (m'.held ≡ nothing)
unfolding bus_dmamem_alloc alloc_loop
dma_alloc_leaks_example =
    dma_alloc_leaks call 12288 4 (holding full) full-Good three_pages
      (record { descriptors = 1; wired = 1 }) refl refl

-- genIOVMSegments() in pages
abbrev pub gen : Gen
gen off = (none, off + 4096, 8192 + 2 * off, 4096)

abbrev pub map_of_four : DmaMap
map_of_four = record {
  size = 16384;
  flags = 0;
  segcnt = 4;
  maxsegsz = 4096;
  boundary = 0;
  dma_command = 31;
  mapsize = 0;
  nsegs = 0;
  segs = [];
  mem_desc = 0;
  mem_map = 0;
}

abbrev pub known : Known
known = record { mem_desc = 11; mem_map = 21; length = 12288 }

-- A command over the descriptor that it holds on to, with segments in pages.
abbrev pub page_command : Command ℕ
page_command = record {
  set_memory_descriptor = λ md c. (none, md);
  clear_memory_descriptor = λ c. 0;
  gen_iovm_segments = λ c. gen;
}

-- 10000 bytes: the third segment is cut
load_runs : bus_dmamap_load page_command (some map_of_four) 4096 10000 0 (some 2) known 0 ≡ (
  none,
  some (record map_of_four {
    mapsize = 10000;
    nsegs = 3;
    segs = (8192, 4096) ∷ (16384, 4096) ∷ (24576, 1808) ∷ [];
    mem_desc = 11;
    mem_map = 21;
  }),
  11,
)
unfolding bus_dmamap_load load_loop
load_runs = refl

gen-Sound : Load.Sound gen
gen-Sound = record { advances = λ off e. refl; narrow = λ off. omega arith }

bus_dmamap_load-total_example :
    (m' : DmaMap) × (bus_dmamap_load page_command (some map_of_four) 4096 10000 0 (some 2) known 0
      ≡ (none, some m', 11))
    × (m'.nsegs ≤ 4)
    × (Load.total (take m'.nsegs m'.segs) ≡ 10000)
    × (m'.mapsize ≡ 10000)
    × (10000 ≤ 12288)
unfolding bus_dmamap_load load_loop
bus_dmamap_load-total_example =
    Load.bus_dmamap_load-total page_command map_of_four 4096 10000 0 known 0 (some 2) gen-Sound refl

-- A command that generates no segment: the load fails, and the descriptor stays set.
abbrev broken_command : Command ℕ
broken_command = record page_command { gen_iovm_segments = λ c off. (some eio, off, 0, 0) }

bus_dmamap_load-fails_example :
    Load.Keeps broken_command map_of_four 4096 10000 0 known 0
      (bus_dmamap_load broken_command (some map_of_four) 4096 10000 0 (some 2) known 0).1
    × ◌≡◌ {A = ℕ}
        (bus_dmamap_load broken_command (some map_of_four) 4096 10000 0 (some 2) known 0).2
        11
unfolding bus_dmamap_load load_loop
bus_dmamap_load-fails_example =
    Load.bus_dmamap_load-fails broken_command map_of_four 4096 10000 0 known 0 (some 2) eio refl
