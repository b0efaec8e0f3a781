-- ===== src/Compat/BusSpace.antt =====
-- Sinetek-rtsx/compat/openbsd/bus_space.cpp: registers of the device through a memory descriptor.
use sinetek_rtsx.Base.{ℕ, Ptr, is_null, if◌then◌else◌}

-- The calls of the memory descriptor. `read_bytes offset before` gives the four bytes of the target,
-- which had the value `before`.
pub record Registers (S : Type 0) : Type 0 where
  pub prepare : Ptr → S → S
  pub complete : Ptr → S → S
  pub read_bytes : Ptr → ℕ → ℕ → S → ℕ × S
  pub write_bytes : Ptr → ℕ → ℕ → S → S

module _ {S : Type 0} (io : Registers S) where
  -- `garbage` is what the uninitialised `ret` holds.
  unfoldable pub bus_space_read_4 : ℕ → Ptr → ℕ → S → ℕ × S
  bus_space_read_4 garbage mem_desc offset s =
      let (ret, s') = io.read_bytes mem_desc offset garbage (io.prepare mem_desc s) in
      if is_null mem_desc then (0, s) else (ret, io.complete mem_desc s')

  unfoldable pub bus_space_write_4 : Ptr → ℕ → ℕ → S → S
  bus_space_write_4 mem_desc offset value s =
      if is_null mem_desc
      then s
      else io.complete mem_desc (io.write_bytes mem_desc offset value (io.prepare mem_desc s))
