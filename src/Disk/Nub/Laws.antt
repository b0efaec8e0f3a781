-- ===== src/Disk/Nub/Laws.antt =====
-- What Sinetek-rtsx/SDDisk.cpp reports of the card, and the references that it holds.
use sinetek_rtsx.Base.{
  ℕ, ◌+◌, ◌*◌, ◌^◌, ◌<◌, ◌≡◌, ◌≢◌, ◌↔◌, ◌⊎◌, Bool, true, false, some, arith, Ptr, null, kio_success,
}
use sinetek_rtsx.Disk.Nub.{
  Disk, CardView, attach, detach, do_get_format_capacities, report_max_valid_block,
  report_block_size, report_write_protection,
}

-- A card that is attached, which is not empty and whose capacity and sector size fit 32 bits: the
-- sector size of its csd and its last block, which is the capacity less one, are reported with
-- success, and it is reported with success as protected if and only if the driver may not write or
-- cardIsWriteProtected() said so when it was attached.
pub attach_reports :
    (cast : Ptr) (card : CardView) (protected write_enabled : Bool) (d : Disk)
    → 0 < card.capacity
    → card.capacity < 2 ^ 32
    → card.sector_size < 2 ^ 32
    → (attach true cast card protected d).0 ≡ true
    → let d' = (attach true cast card protected d).1 in
      (report_block_size d' ≡ (kio_success, card.sector_size))
      × ((report_max_valid_block d').0 ≡ kio_success)
      × ((report_max_valid_block d').1 + 1 ≡ card.capacity)
      × ((report_write_protection write_enabled d').0 ≡ kio_success)
      × ((report_write_protection write_enabled d').1 ≡ true
          ↔ (write_enabled ≡ false) ⊎ (protected ≡ true))
unfolding attach report_block_size report_max_valid_block report_write_protection
attach_reports cast card protected write_enabled d pos small sectors h = ground arith

-- attach() that succeeds takes one reference on the provider, and detach() gives it back.
pub detach-attach :
    (inherited : Bool) (cast : Ptr) (card : CardView) (protected : Bool) (d : Disk)
    → (attach inherited cast card protected d).0 ≡ true
    → let d' = (attach inherited cast card protected d).1 in
      (d'.holds ≡ d.holds + 1)
      × (d'.provider ≢ null)
      × ((detach d').holds ≡ d.holds)
      × ((detach d').provider ≡ null)
unfolding attach detach
detach-attach inherited cast card protected d h = ground arith

-- attach() to a Sinetek_rtsx, without an sdmmc softc, or with one that has no function 0, fails
-- and keeps the reference that it took on the provider.
pub attach_leaks :
    (cast : Ptr) (card : CardView) (protected : Bool) (d : Disk)
    → cast ≢ null
    → (d.sdmmc_softc ≡ null) ⊎ (card.sc_fn0 ≡ null)
    → ((attach true cast card protected d).0 ≡ false)
      × ((attach true cast card protected d).1.holds ≡ d.holds + 1)
unfolding attach
attach_leaks cast card protected d h why = ground arith

-- The capacity that doGetFormatCapacities() reports in an array of at least one entry is the
-- number of bytes of the card if and only if that is below 4 GiB.
pub format_capacity_exact :
    (d : Disk) (max_count : ℕ)
    → 0 < max_count
    → (do_get_format_capacities d true max_count ≡ (1, some (d.num_blocks * d.blk_size)))
      ↔ (d.num_blocks * d.blk_size < 2 ^ 32)
unfolding do_get_format_capacities
format_capacity_exact d max_count h = (λ e. ground arith, λ e. ground arith)
