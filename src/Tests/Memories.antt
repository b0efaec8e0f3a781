-- ===== src/Tests/Memories.antt =====
-- The test device with a memory for each descriptor, side by side in one memory.
use sinetek_rtsx.Base.{◌%◌, ℕ, ◌+◌, ◌-◌, ◌*◌, ◌≡◌, refl, ap, min, Ptr, arith, ltb, if◌then◌else◌}
use sinetek_rtsx.Disk.Io.{Io, Storage, within}
use sinetek_rtsx.Disk.Task.Success.{Recovering}
use sinetek_rtsx.Tests.Device.{
  fetch, store, fetch-ok, store-ok, fetch-faults, store-faults, three_fail, Device, device,
  device_storage, memory_size,
}

abbrev base : Ptr → ℕ
base b = b * memory_size

abbrev pub devices : Ptr → Io Device
devices b = record device {
  write_bytes = λ off len s. (
    min len (memory_size - off),
    record s {
      memory = λ x.
          if within (base b + off) (min len (memory_size - off)) x
          then s.bounce (x - (base b + off))
          else s.memory x;
    },
  );
  read_bytes = λ off len s. (
    min len (memory_size - off),
    record s {
      bounce = λ i.
          if ltb i (min len (memory_size - off)) then s.memory (base b + (off + i)) else s.bounce i;
    },
  );
}

pub copied :
    (x off len a : ℕ) (new old : ℕ → ℕ)
    → (if within (x + off) len (x + a) then new (x + a - (x + off)) else old (x + a))
      ≡ (if within off len a then new (a - off) else old (x + a))
copied x off len a new old =
    let back : x + a - (x + off) ≡ a - off = omega arith in ground (arith, ap new back)

abbrev pub devices_storage : (b : Ptr) → Storage (devices b)
devices_storage b = record {
  card = λ s. s.card;
  memory = λ s a. s.memory (base b + a);
  bounce = λ s. s.bounce;
  size = memory_size;
  read_block-card = device_storage.read_block-card;
  read_block-memory = λ blk len s a. device_storage.read_block-memory blk len s (base b + a);
  read_block-bounce = device_storage.read_block-bounce;
  write_block-memory = λ blk len s a. device_storage.write_block-memory blk len s (base b + a);
  write_block-bounce = device_storage.write_block-bounce;
  write_block-outside = device_storage.write_block-outside;
  write_block-inside = device_storage.write_block-inside;
  write_bytes-count = λ off len s. refl;
  write_bytes-card = λ off len s a. refl;
  write_bytes-memory =
      λ off len s a. copied (base b) off (min len (memory_size - off)) a s.bounce s.memory;
  read_bytes-count = λ off len s. refl;
  read_bytes-card = λ off len s a. refl;
  read_bytes-memory = λ off len s a. refl;
  read_bytes-bounce = λ off len s i. refl;
  dma_alloc-card = λ len dir s a. refl;
  dma_alloc-memory = λ len dir s a. refl;
  dma_free-card = λ len s a. refl;
  dma_free-memory = λ len s a. refl;
}

abbrev pub card_bytes : ℕ
card_bytes = 4 * 512

pub devices-Recovering : (b : Ptr) → Recovering (devices b) card_bytes
devices-Recovering b = record {
  reads = λ blk len fits s t fails. fetch-ok blk len t (t.faults % 4) (
      omega (
        arith,
        three_fail (λ u. fetch blk len u (u.faults % 4))
            (λ u e bad. fetch-faults blk len u (u.faults % 4) e bad) s t fails,
      ));
  writes = λ blk len fits s t fails. store-ok blk len t (t.faults % 4) (
      omega (
        arith,
        three_fail (λ u. store blk len u (u.faults % 4))
            (λ u e bad. store-faults blk len u (u.faults % 4) e bad) s t fails,
      ));
}
