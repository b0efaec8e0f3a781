-- ===== src/Driver/Owner.antt =====
-- Sinetek-rtsx/compat/openbsd.cpp: the driver object that the compatibility layer keeps.
use sinetek_rtsx.Base.{
  ℕ, ◌+◌, ◌-◌, ◌≡◌, ◌≢◌, not, some, arith, Ptr, null, is_null, Code, success, einval, enotsup,
  if◌then◌else◌,
}

-- Sinetek_rtsx_openbsd_compat_owner, and the references that the layer holds on it.
pub record Compat : Type 0 where
  pub owner : Ptr
  pub holds : ℕ

unfoldable pub openbsd_compat_start : Ptr → Compat → Code × Compat
openbsd_compat_start owner c =
    if is_null owner
    then (some einval, c)
    else if not (is_null c.owner)
    then (some enotsup, c)
    else (success, record { owner = owner; holds = c.holds + 1 })

unfoldable pub openbsd_compat_stop : Compat → Compat
openbsd_compat_stop c = if is_null c.owner then c else record { owner = null; holds = c.holds - 1 }

-- `blk_attach` is the owner's method, given the owner as it stands, and so is `blk_detach`.
unfoldable pub sdmmc_scsi_attach : {S : Type 0} → (Ptr → S → S) → Compat → Ptr → S → Code × S
sdmmc_scsi_attach blk_attach c sc s =
    if is_null sc then (some enotsup, s) else (success, blk_attach c.owner s)

unfoldable pub sdmmc_scsi_detach : {S : Type 0} → (Ptr → S → S) → Compat → Ptr → S → Code × S
sdmmc_scsi_detach blk_detach c sc s =
    if is_null sc then (some enotsup, s) else (success, blk_detach c.owner s)

-- A compatibility layer without an owner starts for a driver, then refuses every further start
-- without a change, and once stopped is as it was and starts for any driver.
openbsd_compat_start_stop :
    (owner next : Ptr) (c : Compat)
    → c.owner ≡ null
    → owner ≢ null
    → next ≢ null
    → let c' = (openbsd_compat_start owner c).1 in
      ((openbsd_compat_start owner c).0 ≡ success)
      × (openbsd_compat_start next c' ≡ (some enotsup, c'))
      × (openbsd_compat_stop c' ≡ c)
      × ((openbsd_compat_start next (openbsd_compat_stop c')).0 ≡ success)
unfolding openbsd_compat_start openbsd_compat_stop
openbsd_compat_start_stop owner next c idle nz nn = ground arith
