-- ===== src/Driver/Registers.antt =====
-- What Sinetek-rtsx/Sinetek_rtsx.cpp reads of the registers of the device, and its interrupt handler.
use sinetek_rtsx.Base.{ℕ, ◌/◌, ◌%◌, ◌^◌, Bool, false, Ptr, is_null, ◌==◌, if◌then◌else◌}
use sinetek_rtsx.Compat.BusSpace.{Registers, bus_space_read_4}
use sinetek_rtsx.Driver.Interrupts.{interrupt_filter}

-- RTSX_BIPR, RTSX_BIER, and the bit RTSX_SD_WRITE_PROTECT of the first
abbrev pub rtsx_bipr : ℕ
rtsx_bipr = 0x14

abbrev pub rtsx_bier : ℕ
rtsx_bier = 0x18

abbrev pub sd_write_protect : ℕ → Bool
sd_write_protect bipr = (bipr / 2 ^ 19) % 2 == 1

module _ {S : Type 0} (io : Registers S) where
  -- READ4(); `ret` is 0 before the call.
  unfoldable pub read4 : Ptr → ℕ → S → ℕ × S
  read4 memory_descriptor offset s = io.read_bytes memory_descriptor offset 0 s

  -- InterruptFilter() as a whole: the second register is read only if the first is not 0.
  unfoldable pub interrupt_filter_regs : Ptr → Ptr → Ptr → S → Bool × S
  unfolding read4
  interrupt_filter_regs arg cast memory_descriptor s =
      let (status, s1) = read4 memory_descriptor rtsx_bipr s in
      let (bier, s2) = read4 memory_descriptor rtsx_bier s1 in
      if is_null arg
      then (false, s)
      else if is_null cast
      then (false, s)
      else if status == 0
      then (false, s1)
      else (interrupt_filter arg cast status bier, s2)

  unfoldable pub card_is_write_protected : ℕ → Ptr → S → Bool × S
  card_is_write_protected garbage memory_descriptor s =
      let (bipr, s') = bus_space_read_4 io garbage memory_descriptor rtsx_bipr s in
      (sd_write_protect bipr, s')

-- `cast` is the target as a Sinetek_rtsx, `softc` its rtsx_softc_original_; `intr` is rtsx_intr().
unfoldable pub interrupt_handler : {S : Type 0} → (Ptr → S → S) → Ptr → Ptr → S → S
interrupt_handler intr cast softc s =
    if is_null cast then s else if is_null softc then s else intr softc s

-- rtsx_card_eject() on the softc
unfoldable pub card_eject : {S : Type 0} → (Ptr → S → S) → Ptr → S → S
card_eject eject softc s = eject softc s
