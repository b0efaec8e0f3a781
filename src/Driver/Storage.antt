-- ===== src/Driver/Storage.antt =====
-- blk_attach(), blk_detach() and setPowerState() of Sinetek-rtsx/Sinetek_rtsx.cpp.
use sinetek_rtsx.Base.{
  ℕ, zero, suc, ◌+◌, ◌≡◌, refl, Bool, true, false, not, Option, none, some, List, [], ◌∷◌, arith,
  Ptr, null, if◌then◌else◌,
}
use sinetek_rtsx.Disk.Nub.{Disk, CardView, init, attach}
use sinetek_rtsx.Driver.Autoconf.{DvAct, dvact_suspend, dvact_resume}

-- `sddisk_` as the object that it points to, and the calls of registerService().
pub record Blk : Type 0 where
  pub sddisk : Option Disk
  pub registered : ℕ

-- `fresh` is the object of OSTypeAlloc, `inits` and `attaches` the results of the inherited init() and
-- attach(); `this` is the driver, `sdmmc` its rtsx_softc_original_->sdmmc. The reference
-- of OSTypeAlloc is released on both ways out, so the driver keeps none.
unfoldable pub blk_attach : Option Disk → Bool → Bool → Ptr → Ptr → CardView → Bool → Blk → Blk
blk_attach none inits attaches this sdmmc card protected b = record b { sddisk = none }
blk_attach (some fresh) inits attaches this sdmmc card protected b =
    let (ok, made) = init inits sdmmc fresh in
    let attached = (attach attaches this card protected made).1 in
    if not ok
    then record b { sddisk = none }
    else record b { sddisk = some attached; registered = b.registered + 1 }

-- The result of terminate() is only logged.
unfoldable pub blk_detach : Blk → Blk
blk_detach b = record b { sddisk = none }

-- What setPowerState() calls, in order: IOSleep(), rtsx_activate() and rtsx_init().
pub data PowerCall : Type 0 where
  io_sleep : ℕ → PowerCall
  activate : DvAct → PowerCall
  init_chip : PowerCall

-- 0 is kPowerStateSleep, 1 is kPowerStateNormal.
unfoldable pub set_power_state : ℕ → ℕ → List PowerCall
set_power_state zero delay = io_sleep delay ∷ activate dvact_suspend ∷ io_sleep delay ∷ []
set_power_state (suc zero) delay =
    io_sleep delay ∷ init_chip ∷ io_sleep delay ∷ activate dvact_resume ∷ []
set_power_state ordinal delay = []

-- With a card that has no function 0, the new disk cannot be attached, and blk_attach() keeps it
-- and registers its service all the same, with the number of blocks that the object was made with.
pub blk_attach_registers :
    (fresh : Disk) (attaches : Bool) (this sdmmc : Ptr) (card : CardView) (protected : Bool)
    (b : Blk)
    → card.sc_fn0 ≡ null
    → let b' = blk_attach (some fresh) true attaches this sdmmc card protected b in
      ((attach attaches this card protected (init true sdmmc fresh).1).0 ≡ false)
      × (b'.registered ≡ b.registered + 1)
      × ((d : Disk) × (b'.sddisk ≡ some d) × (d.num_blocks ≡ fresh.num_blocks))
unfolding blk_attach attach init
blk_attach_registers fresh true this sdmmc card protected b gone =
    (ground arith, ground arith, (_, refl, ground arith))
blk_attach_registers fresh false this sdmmc card protected b gone =
    (ground arith, ground arith, (_, refl, ground arith))
