-- ===== src/Tests/Maps.antt =====
-- The life of a DMA map, and the segments of an allocation, at concrete inputs.
use sinetek_rtsx.Base.{◌≡◌, refl, true, some, arith, null, ◌≢◌}
use sinetek_rtsx.Dma.Alloc.{bus_dmamem_alloc, alloc_loop}
use sinetek_rtsx.Dma.Segments.{buffer_n_segments, dump_loop, dump_buffer, alloc_n_segments}
use sinetek_rtsx.Dma.Load.{
  DmaMap, MapObjects, bus_dmamap_create, bus_dmamap_load, bus_dmamap_unload, bus_dmamap_destroy,
  created,
}
use sinetek_rtsx.Dma.Load.Life.{dmamap_life}
use sinetek_rtsx.Tests.Dma.{
  kit, kit-Sound, pages, three_pages, nothing, map_of_four, known, page_command,
}

dumps : dump_buffer true pages 12288 4 ≡ some three_pages
unfolding dump_buffer dump_loop
dumps = refl

alloc_n_segments_example : buffer_n_segments true pages 12288 12289 ≡ some 3
unfolding bus_dmamem_alloc alloc_loop
alloc_n_segments_example =
    alloc_n_segments true kit 1 2 3 12288 4 nothing (record { descriptors = 1; wired = 1 })
      three_pages kit-Sound (omega arith) refl

abbrev no_objects : MapObjects
no_objects = record { memories = 0; commands = 0 }

dmamap_life_example :
    let (code, loaded, c) =
      bus_dmamap_load page_command (some map_of_four) 4096 10000 0 (some 2) known 0 in
    (end : DmaMap) × ((bus_dmamap_unload page_command loaded c).0 ≡ some end)
    × (end.nsegs ≡ 0)
    × (end.mapsize ≡ 0)
    × (31 ≢ null → (bus_dmamap_unload page_command loaded c).1 ≡ null)
    × (bus_dmamap_destroy (some end) (created (some map_of_four) no_objects) ≡ no_objects)
unfolding bus_dmamap_create
dmamap_life_example =
    dmamap_life page_command (λ c. c) (λ c. refl) 1 2 31 16384 4 4096 0 0 map_of_four 4096 10000 0
      (some 2) known 0 no_objects refl
