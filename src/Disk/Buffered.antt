-- ===== src/Disk/Buffered.antt =====
-- read_task_impl_() of Sinetek-rtsx/SDDisk.cpp with its bounce buffer from
-- Sinetek-rtsx/compat/openbsd/dma.cpp.
pub mod Success
use sinetek_rtsx.Base.{
  ◌∙◌, ◌%◌, ◌^◌, ==-false_of_ne, List, ◌⊎◌, subst, ℕ, ◌≡◌, ◌≢◌, ◌<◌, refl, sym, ap, inl, inr, Bool,
  false, not, Option, none, some, arith, Ptr, null, is_null, Code, Errno, Bool-cases,
}
use sinetek_rtsx.Dict.{Dict, add_to_list, get_value_from_list}
use sinetek_rtsx.Dict.Valid.{IsValid, free_slots}
use sinetek_rtsx.Dict.Laws.{add_to_list_total}
use sinetek_rtsx.Disk.Io.{Io}
use sinetek_rtsx.Disk.Transfer.{send_byte_count}
use sinetek_rtsx.Disk.Task.{
  BioArgs, Site, Outcome, request_bytes, actual_byte_count, transfer_buffered, complete, some_null,
  read_task_impl,
}
use sinetek_rtsx.Disk.Task.Keeps.{Keeps, transfer-keeps}
use sinetek_rtsx.Dma.Alloc.{Extent, Held, bus_dmamem_alloc}
use sinetek_rtsx.Dma.Alloc.Laws.{Sound, Allocated, bus_dmamem_alloc_lem}
use sinetek_rtsx.Dma.Mapping.{Mem, Call, dma_alloc, dma_free}
use sinetek_rtsx.Dma.Mapping.Steps.{Good, dma_alloc-refused, dma_alloc-mapped}
use sinetek_rtsx.Dma.Mapping.Laws.{dma_free-dma_alloc}

-- The buffer that dma_alloc() gave; an allocation without a result, which ran out of fuel, gives none.
abbrev granted : {D : Type 0} → D → Mem → Option (Ptr × Mem) → Bool × (D × Mem)
granted d m none = (false, (d, m))
granted d m (some (kva, m')) = (not (is_null kva), (d, m'))

-- A release that would go through a null pointer leaves the state as it is.
abbrev released : {D : Type 0} → D → Mem → Option Mem → D × Mem
released d m none = (d, m)
released d m (some m') = (d, m')

-- The card and the memory of the request from `io`, and the buffer from dma.cpp, at the address
-- `c.addr` and with at most `nsegs` segments.
abbrev pub dma_io : {D : Type 0} → Io D → Call → ℕ → Io (D × Mem)
dma_io io c nsegs = record {
  read_block = λ blk len (d, m). let (code, d') = io.read_block blk len d in (code, (d', m));
  write_block = λ blk len (d, m). let (code, d') = io.write_block blk len d in (code, (d', m));
  write_bytes = λ off len (d, m). let (n, d') = io.write_bytes off len d in (n, (d', m));
  read_bytes = λ off len (d, m). let (n, d') = io.read_bytes off len d in (n, (d', m));
  dma_alloc = λ len dir (d, m). granted d m (dma_alloc c len nsegs m);
  dma_free = λ len (d, m). released d m (dma_free c.addr c.segs m);
}

-- `m'` holds what `m` holds, but for the count of prepared descriptors; its VA_SEGS is valid, binds
-- the same, and has as many free slots.
abbrev pub SameHeld : Mem → Mem → Type 0
SameHeld m m' =
    (m'.maps ≡ m.maps)
    × (m'.held.descriptors ≡ m.held.descriptors)
    × ((j : Ptr) → j ≢ null → get_value_from_list j m'.va_segs ≡ get_value_from_list j m.va_segs)
    × IsValid m'.va_segs
    × (free_slots m'.va_segs ≡ free_slots m.va_segs)

-- What stays between two requests.
unfoldable pub Ready : {D : Type 0} → Call → Mem → D × Mem → Type 0
Ready c m s = Good c s.1 × SameHeld m s.1

module _ {D : Type 0} (io : Io D) (c : Call) (nsegs : ℕ) where
  dma_io-Keeps : Keeps (dma_io io c nsegs) (λ s. s.1)
  dma_io-Keeps = record {
    read_block-keeps = λ blk len s. refl;
    write_block-keeps = λ blk len s. refl;
    write_bytes-keeps = λ off len s. refl;
    read_bytes-keeps = λ off len s. refl;
  }

  -- An allocation gives a buffer that can be freed, or leaves what is held.
  alloc_cases :
      (size : ℕ) (m : Mem)
      → Good c m
      → Sound c.kit size
      → 0 < nsegs
      → 0 < free_slots m.va_segs
      → ((m' m'' : Mem) × (dma_alloc c size nsegs m ≡ some (c.addr, m'))
          × (dma_free c.addr c.segs m' ≡ some m'')
          × SameHeld m m'')
        ⊎ ((m' : Mem) × (dma_alloc c size nsegs m ≡ some (null, m')) × SameHeld m m')
  alloc_cases size m good sound pos room =
      let (out, runs, post) =
        bus_dmamem_alloc_lem c.kit c.tag c.segs c.rsegs size nsegs m.held sound pos in
      let (d', added, fewer) = (add_to_list_total c.addr c.segs m.va_segs good.key.0).0 room in
      split out runs post d' added
    where
      split :
          (out : Code × List Extent × Held)
          → bus_dmamem_alloc c.kit c.tag c.segs c.rsegs size nsegs m.held ≡ some out
          → Allocated c.kit c.tag c.segs c.rsegs size nsegs m.held out
          → (d' : Dict) → add_to_list c.addr c.segs m.va_segs ≡ some d'
          → ((m' m'' : Mem) × (dma_alloc c size nsegs m ≡ some (c.addr, m'))
              × (dma_free c.addr c.segs m' ≡ some m'')
              × SameHeld m m'')
            ⊎ ((m' : Mem) × (dma_alloc c size nsegs m ≡ some (null, m')) × SameHeld m m')
      split (some e, xs, h) runs post d' added = inr (
        record m { held = h },
        dma_alloc-refused c size nsegs m good e xs h runs,
        (refl, ground (arith, post), λ j nz. refl, good.valid, refl),
      )
      split (none, xs, h) runs post d' added =
          let got = dma_alloc-mapped c size nsegs m good xs h d' runs added in
          let (m'', freed, maps, descs, wired, maps', held', valid, binds, slots) =
            dma_free-dma_alloc c size nsegs m good c.addr _ got good.key.0 in
          inl (
            _,
            m'',
            got,
            freed,
            (maps', ap (λ (t : Held). t.descriptors) held', binds, valid, slots),
          )

  buffered-Held :
      (no_adma : Bool) (args : BioArgs) (actual : ℕ) (d : D) (m : Mem)
      → Good c m
      → Sound c.kit (send_byte_count actual)
      → 0 < nsegs
      → 0 < free_slots m.va_segs
      → (out : Code × (D × Mem)) × (transfer_buffered (dma_io io c nsegs) no_adma args actual (d, m)
          ≡ some out)
        × SameHeld m out.1.1
  unfolding transfer_buffered
  buffered-Held no_adma args actual d m good sound pos room =
      let same_held : SameHeld m m = (refl, refl, λ j nz. refl, good.valid, refl) in
      let moved = λ (t : D × Mem).
        transfer-keeps (dma_io io c nsegs) (λ s. s.1) dma_io-Keeps args.direction
          (args.block % 2 ^ 32) (request_bytes args) t in
      let set : is_null c.addr ≡ false = ==-false_of_ne c.addr 0 good.key.0 in
      elim (Bool-cases no_adma) [
        | inl e ↦
            let (out, runs, same) = moved (d, m) in
            (out, rw e runs, subst (SameHeld m) (sym same) same_held)
        | inr e ↦ elim (alloc_cases (send_byte_count actual) m good sound pos room) [
          | inl (m', m'', got, freed, held) ↦
              let (out, runs, same) = moved (d, m') in
              (
                (out.0, (out.1.0, m'')),
                rw (e, got, set, runs, same, freed, transfer_buffered) refl,
                held,
              )
          | inr (m', got, held) ↦
              ((some Errno.enomem, (d, m')), rw (e, got, transfer_buffered) refl, held)
        ]
      ]

  -- Over dma.cpp, with a free slot in a valid VA_SEGS that does not bind the address of the
  -- buffer, pointers that are there, and physical segments that bus_dmamem_alloc() can walk:
  -- whatever the request and whatever the card answers, the task ends, and the compatibility layer
  -- holds as many maps and descriptors as before, with a valid VA_SEGS that binds the same and has
  -- as many free slots.
  pub read_task_gives_back :
      (no_adma : Bool) (site : Site) (args : BioArgs) (d : D) (m : Mem)
      → Good c m
      → Sound c.kit (send_byte_count (actual_byte_count args site))
      → 0 < nsegs
      → 0 < free_slots m.va_segs
      → (out : Outcome (D × Mem)) × (read_task_impl
            (dma_io io c nsegs)
            no_adma
            site
            (some args)
            (d, m)
          ≡ some out)
        × SameHeld m out.state.1
  unfolding read_task_impl
  read_task_gives_back no_adma site args d m good sound pos room =
      let actual = actual_byte_count args site in
      let (done, runs, same) = buffered-Held no_adma args actual d m good sound pos room in
      elim (Bool-cases (some_null args site)) [
        | inl bad ↦ rw (bad, read_task_impl) (_, refl, (refl, refl, λ j nz. refl, good.valid, refl))
        | inr fine ↦ rw (fine, runs, read_task_impl) (complete args actual done, refl, same)
      ]

  pub read_task-Ready :
      (no_adma : Bool) (site : Site)
      → 0 < nsegs
      → (m : Mem) → 0 < free_slots m.va_segs
      → (args : BioArgs) (s : D × Mem) → Sound c.kit (send_byte_count (actual_byte_count args site))
      → Ready c m s
      → (out : Outcome (D × Mem)) × (read_task_impl (dma_io io c nsegs) no_adma site (some args) s
          ≡ some out)
        × Ready c m out.state
  unfolding Ready
  read_task-Ready no_adma site pos m room args (d, m1) sound
        (good, (maps, descs, binds, valid, slots)) =
      let (out, runs, (maps', descs', binds', valid', slots')) =
        read_task_gives_back no_adma site args d m1 good sound pos (omega arith) in
      (
        out,
        runs,
        (
          record {
            segs_set = good.segs_set;
            kvap_set = good.kvap_set;
            desc_set = good.desc_set;
            map_set = good.map_set;
            key = good.key;
            valid = valid';
            fresh = binds' c.addr good.key.0 ∙ good.fresh;
          },
          (maps' ∙ maps, descs' ∙ descs, λ j nz. binds' j nz ∙ binds j nz, valid', slots' ∙ slots),
        ),
      )
