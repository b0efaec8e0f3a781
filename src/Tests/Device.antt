-- ===== src/Tests/Device.antt =====
-- A card, a request's memory and a bounce buffer, with block transfers that fail at most three times
-- in a row.
use sinetek_rtsx.Base.{
  ◌⊎◌, inl, inr, ◌≤◌, ◌%◌, Errno, ℕ, zero, suc, ◌+◌, ◌-◌, ◌*◌, ◌<◌, ◌≡◌, refl, ap, min, true, false,
  none, some, Code, eio, arith, ltb, if◌then◌else◌,
}
use sinetek_rtsx.Disk.Io.{Io, Storage, within, block_size}
use sinetek_rtsx.Disk.Task.Balance.{Counted}
use sinetek_rtsx.Retry.{Fails, start, fail}

pub record Device : Type 0 where
  pub card : ℕ → ℕ
  pub memory : ℕ → ℕ
  pub bounce : ℕ → ℕ
  pub faults : ℕ
  pub buffers : ℕ

abbrev pub memory_size : ℕ
memory_size = 1024

abbrev pub fetch : ℕ → ℕ → Device → ℕ → Code × Device
fetch blk len s zero = (
  none,
  record s { bounce = λ i. if ltb i len then s.card (blk * block_size + i) else s.bounce i },
)
fetch blk len s (suc n) = (some eio, record s { faults = n })

abbrev pub store : ℕ → ℕ → Device → ℕ → Code × Device
store blk len s zero = (
  none,
  record s {
    card =
        λ a. if within (blk * block_size) len a then s.bounce (a - blk * block_size) else s.card a;
  },
)
store blk len s (suc n) = (some eio, record s { faults = n })

abbrev pub device : Io Device
device = record {
  read_block = λ blk len s. fetch blk len s (s.faults % 4);
  write_block = λ blk len s. store blk len s (s.faults % 4);
  write_bytes = λ off len s. (
    min len (memory_size - off),
    record s {
      memory = λ a.
          if within off (min len (memory_size - off)) a then s.bounce (a - off) else s.memory a;
    },
  );
  read_bytes = λ off len s. (
    min len (memory_size - off),
    record s {
      bounce = λ i. if ltb i (min len (memory_size - off)) then s.memory (off + i) else s.bounce i;
    },
  );
  dma_alloc = λ len dir s. (true, record s { buffers = suc s.buffers });
  dma_free = λ len s. record s { buffers = s.buffers - 1 };
}

pub fetch-card : (blk len : ℕ) (s : Device) (n a : ℕ) → (fetch blk len s n).1.card a ≡ s.card a
fetch-card blk len s zero a = refl
fetch-card blk len s (suc n) a = refl

pub fetch-memory :
    (blk len : ℕ) (s : Device) (n a : ℕ) → (fetch blk len s n).1.memory a ≡ s.memory a
fetch-memory blk len s zero a = refl
fetch-memory blk len s (suc n) a = refl

pub fetch-bounce :
    (blk len : ℕ) (s : Device) (n i : ℕ)
    → (fetch blk len s n).0 ≡ none
    → i < len
    → (fetch blk len s n).1.bounce i ≡ s.card (blk * block_size + i)
fetch-bounce blk len s zero i ok h = ground arith
fetch-bounce blk len s (suc n) i ok h = cc

pub store-memory :
    (blk len : ℕ) (s : Device) (n a : ℕ) → (store blk len s n).1.memory a ≡ s.memory a
store-memory blk len s zero a = refl
store-memory blk len s (suc n) a = refl

pub store-bounce :
    (blk len : ℕ) (s : Device) (n a : ℕ) → (store blk len s n).1.bounce a ≡ s.bounce a
store-bounce blk len s zero a = refl
store-bounce blk len s (suc n) a = refl

pub store-outside :
    (blk len : ℕ) (s : Device) (n a : ℕ)
    → within (blk * block_size) len a ≡ false
    → (store blk len s n).1.card a ≡ s.card a
store-outside blk len s zero a h = ground arith
store-outside blk len s (suc n) a h = refl

pub store-inside :
    (blk len : ℕ) (s : Device) (n i : ℕ)
    → (store blk len s n).0 ≡ none
    → i < len
    → (store blk len s n).1.card (blk * block_size + i) ≡ s.bounce i
store-inside blk len s zero i ok h =
    let back : blk * block_size + i - blk * block_size ≡ i = omega arith in
    ground (arith, ap s.bounce back)
store-inside blk len s (suc n) i ok h = cc

abbrev pub device_storage : Storage device
device_storage = record {
  card = λ s. s.card;
  memory = λ s. s.memory;
  bounce = λ s. s.bounce;
  size = memory_size;
  read_block-card = λ blk len s a. fetch-card blk len s (s.faults % 4) a;
  read_block-memory = λ blk len s a. fetch-memory blk len s (s.faults % 4) a;
  read_block-bounce = λ blk len s i. fetch-bounce blk len s (s.faults % 4) i;
  write_block-memory = λ blk len s a. store-memory blk len s (s.faults % 4) a;
  write_block-bounce = λ blk len s a. store-bounce blk len s (s.faults % 4) a;
  write_block-outside = λ blk len s a. store-outside blk len s (s.faults % 4) a;
  write_block-inside = λ blk len s i. store-inside blk len s (s.faults % 4) i;
  write_bytes-count = λ off len s. refl;
  write_bytes-card = λ off len s a. refl;
  write_bytes-memory = λ off len s a. refl;
  read_bytes-count = λ off len s. refl;
  read_bytes-card = λ off len s a. refl;
  read_bytes-memory = λ off len s a. refl;
  read_bytes-bounce = λ off len s i. refl;
  dma_alloc-card = λ len dir s a. refl;
  dma_alloc-memory = λ len dir s a. refl;
  dma_free-card = λ len s a. refl;
  dma_free-memory = λ len s a. refl;
}

pub fetch-buffers : (blk len : ℕ) (s : Device) (n : ℕ) → (fetch blk len s n).1.buffers ≡ s.buffers
fetch-buffers blk len s zero = refl
fetch-buffers blk len s (suc n) = refl

pub store-buffers : (blk len : ℕ) (s : Device) (n : ℕ) → (store blk len s n).1.buffers ≡ s.buffers
store-buffers blk len s zero = refl
store-buffers blk len s (suc n) = refl

abbrev pub device_counted : Counted device
device_counted = record {
  outstanding = λ s. s.buffers;
  keeps = record {
    read_block-keeps = λ blk len s. fetch-buffers blk len s (s.faults % 4);
    write_block-keeps = λ blk len s. store-buffers blk len s (s.faults % 4);
    write_bytes-keeps = λ off len s. refl;
    read_bytes-keeps = λ off len s. refl;
  };
  dma_alloc-counted = λ len dir s. refl;
  dma_free-counted = λ len s. refl;
}

-- Each failure uses up a fault.
pub fetch-faults :
    (blk len : ℕ) (s : Device) (n : ℕ) (e : Errno)
    → (fetch blk len s n).0 ≡ some e
    → (fetch blk len s n).1.faults + 1 ≡ n
fetch-faults blk len s zero e bad = cc
fetch-faults blk len s (suc n) e bad = omega arith

pub store-faults :
    (blk len : ℕ) (s : Device) (n : ℕ) (e : Errno)
    → (store blk len s n).0 ≡ some e
    → (store blk len s n).1.faults + 1 ≡ n
store-faults blk len s zero e bad = cc
store-faults blk len s (suc n) e bad = omega arith

module _ (call : Device → Code × Device)
    (uses : (s : Device) (e : Errno)
      → (call s).0 ≡ some e
      → (call s).1.faults + 1 ≡ s.faults % 4) where
  few_faults : (n : ℕ) (s t : Device) → Fails call n s t → s.faults < 4 → t.faults + n ≡ s.faults
  few_faults zero s _ start h = omega arith
  few_faults (suc n) s t (fail e bad rest) h =
      omega (arith, uses s e bad, few_faults n (call s).1 t rest (omega (arith, uses s e bad)))

  -- At most three calls in a row fail.
  fails_out : (n : ℕ) (s t : Device) → Fails call n s t → (n ≡ 0) ⊎ (t.faults + n ≤ 3)
  fails_out zero s _ start = inl refl
  fails_out (suc n) s t (fail e bad rest) =
      inr
        (omega (arith, uses s e bad, few_faults n (call s).1 t rest (omega (arith, uses s e bad))))

  pub three_fail : (s t : Device) → Fails call 3 s t → t.faults ≡ 0
  three_fail s t fails = elim (fails_out 3 s t fails) [
    | inl none_at_all ↦ absurd (omega arith)
    | inr few ↦ omega arith
  ]

-- A call that finds no fault succeeds.
pub fetch-ok : (blk len : ℕ) (s : Device) (n : ℕ) → n ≡ 0 → (fetch blk len s n).0 ≡ none
fetch-ok blk len s zero e = refl
fetch-ok blk len s (suc n) e = absurd (omega arith)

pub store-ok : (blk len : ℕ) (s : Device) (n : ℕ) → n ≡ 0 → (store blk len s n).0 ≡ none
store-ok blk len s zero e = refl
store-ok blk len s (suc n) e = absurd (omega arith)
