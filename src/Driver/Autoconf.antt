-- ===== src/Driver/Autoconf.antt =====
-- Sinetek-rtsx/compat/openbsd/config.cpp: OpenBSD's autoconf for the one child that the driver has.
pub mod Search
pub mod Laws
use sinetek_rtsx.Base.{
  ℕ, ◌+◌, ◌-◌, ◌%◌, Bool, true, false, not, ◌&&◌, ◌||◌, Option, none, some, List, [], ◌∷◌, Ptr,
  null, is_null, Code, success, Errno, enomem, einval, enotsup, is_error, ◌==◌, if◌then◌else◌,
}

-- What is passed to the ca_activate function of a device.
pub data DvAct : Type 0 where
  dvact_deactivate dvact_suspend dvact_resume : DvAct
  dvact_other : ℕ → DvAct

-- `dv_flags` of the device in question, and all other state.
abbrev pub Flagged : Type 0 → Type 0
Flagged S = ℕ × S

-- The cfdata entries as pointers: cf_attach, and what its ca_match answers for the parent.
pub record CfData : Type 0 where
  pub this : Ptr
  pub cf_attach : Ptr
  pub matches : Bool

-- The first entry that has a cf_attach and matches; null if there is none.
unfoldable pub config_search : List CfData → Ptr
config_search [] = null
config_search (cf ∷ cfs) =
    if is_null cf.cf_attach
    then config_search cfs
    else if cf.matches
    then cf.this
    else config_search cfs

-- What config_attach() finds behind the match, and what IOMalloc returns.
pub record Attachment : Type 0 where
  pub cf_attach : Ptr
  pub allocated : Ptr
  pub cf_driver : Ptr
  pub cd_name : Ptr
  pub ca_attach : Ptr

-- struct device, as far as this code writes it; `this` is its address.
pub record Device : Type 0 where
  pub this : Ptr
  pub dv_flags : ℕ
  pub dv_xname : Ptr
  pub dv_cfdata : Ptr
  pub dv_parent : Ptr

abbrev pub dvf_active : ℕ
dvf_active = 1

abbrev pub new_device : Ptr → Ptr → Attachment → Device
new_device parent match a = record {
  this = a.allocated;
  dv_flags = dvf_active;
  dv_xname = a.cd_name;
  dv_cfdata = match;
  dv_parent = parent;
}

-- `none` is the null pointer. `ca_attach` gets the device, and may write it. `allocations` counts what
-- IOMalloc gave and IOFree did not take. The name is copied; `dv_xname` says from where.
unfoldable pub config_attach :
    {S : Type 0}
    → (Device → S → Device × S)
    → Ptr
    → Ptr
    → Attachment
    → ℕ × S
    → Option Device × ℕ × S
config_attach ca_attach parent match a (allocations, s) =
    let (dev', s') = ca_attach (new_device parent match a) s in
    if is_null match || is_null a.cf_attach
    then (none, allocations, s)
    else if is_null a.allocated
    then (none, allocations, s)
    else if is_null a.cf_driver || is_null a.cd_name || is_null a.ca_attach
    then (none, allocations + 1, s)
    else (some dev', allocations + 1, s')

-- `cfs` holds what the entries answer for the parent. The name of the parent only decides on a message.
unfoldable pub config_found_sm :
    {S : Type 0}
    → (Device → S → Device × S)
    → Ptr
    → List CfData
    → Attachment
    → ℕ × S
    → Option Device × ℕ × S
unfolding config_search config_attach
config_found_sm ca_attach parent cfs a (allocations, s) =
    let match = config_search cfs in
    if is_null parent
    then (none, allocations, s)
    else if is_null match
    then (none, allocations, s)
    else config_attach ca_attach parent match a (allocations, s)

-- The two device names that the code knows.
pub data XName : Type 0 where
  xname_rtsx xname_sdmmc xname_other : XName

-- `sdmmc` is the child of the rtsx device; `ca_activate` is that of my_cfdata[0], if it has one. Its
-- result is ignored. Without one, the call on the child, an sdmmc, does nothing.
unfoldable pub config_activate_children :
    {S : Type 0} → Option (Ptr → DvAct → S → Code × S) → Ptr → XName → Ptr → DvAct → S → Code × S
config_activate_children ca_activate dev name sdmmc act s =
    if is_null dev then (some einval, s) else elim name [
      | xname_rtsx ↦ if is_null sdmmc then (some enotsup, s) else elim ca_activate [
        | none ↦ (success, s)
        | some activate ↦ (success, (activate sdmmc act s).1)
      ]
      | xname_sdmmc ↦ (success, s)
      | xname_other ↦ (success, s)
    ]

-- `own` is ca_activate of the device, if it has one, and `children` config_activate_children() on it.
unfoldable pub config_suspend :
    {S : Type 0} → Option (DvAct → S → Code × S) → (DvAct → S → Code × S) → DvAct → S → Code × S
config_suspend none children act s = children act s
config_suspend (some activate) children act s = activate act s

-- DVF_ACTIVE is bit 0 of `dv_flags`; `suspend` is config_suspend() on the device, which may write
-- `dv_flags` as well.
unfoldable pub config_deactivate :
    {S : Type 0} → (DvAct → Flagged S → Code × Flagged S) → Flagged S → Code × Flagged S
config_deactivate suspend (flags, s) =
    let (rv, (flags', s')) = suspend dvact_deactivate (flags - 1, s) in
    if flags % 2 == 1
    then (rv, (if is_error rv then flags else flags', s'))
    else (success, (flags, s))

-- What a detach came to: the code, whether IOFree took the device, and the state.
pub record Detached (S : Type 0) : Type 0 where
  pub code : Code
  pub freed : Bool
  pub state : Flagged S

-- A device, its dv_cfdata, and the cf_attach of that.
pub record Located : Type 0 where
  pub dev : Ptr
  pub dv_cfdata : Ptr
  pub cf_attach : Ptr

abbrev pub some_missing : Located → Bool
some_missing at = is_null at.dev || is_null at.dv_cfdata || is_null at.cf_attach

-- `ca_detach` is none for a null function.
unfoldable pub config_detach :
    {S : Type 0}
    → (DvAct → Flagged S → Code × Flagged S)
    → Option (Flagged S → Code × Flagged S)
    → Located
    → Flagged S
    → Detached S
unfolding config_deactivate
config_detach suspend ca_detach at d =
    let (ret, d') = config_deactivate suspend d in
    if some_missing at
    then record { code = some einval; freed = false; state = d }
    else if is_error ret
    then record { code = ret; freed = true; state = d' }
    else elim ca_detach [
      | none ↦ record { code = some enotsup; freed = true; state = d' }
      | some detach ↦
          let (ret', d'') = detach d' in record { code = ret'; freed = true; state = d'' }
    ]
