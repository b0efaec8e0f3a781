-- ===== src/Disk/Nub.antt =====
-- The methods of Sinetek-rtsx/SDDisk.cpp that IOBlockStorageDriver calls, and the life of the object.
pub mod Laws
use sinetek_rtsx.Base.{
  ℕ, ◌+◌, ◌-◌, ◌*◌, ◌%◌, ◌^◌, Bool, true, false, not, ◌||◌, Option, none, some, Ptr, null, is_null,
  IoReturn, kio_success, kio_unsupported, ltb, ◌==◌, ◌&&◌, if◌then◌else◌,
}

-- The members of SDDisk; `holds` counts the references that it has on its provider.
pub record Disk : Type 0 where
  pub provider : Ptr
  pub num_blocks : ℕ  -- uint32_t
  pub blk_size : ℕ  -- uint32_t
  pub card_is_write_protected : Bool
  pub sdmmc_softc : Ptr
  pub holds : ℕ

-- What the `struct sdmmc_softc` shows: sc_fn0, and its csd.
pub record CardView : Type 0 where
  pub sc_fn0 : Ptr
  pub capacity : ℕ
  pub sector_size : ℕ

-- `inherited` is the result of super::init().
unfoldable pub init : Bool → Ptr → Disk → Bool × Disk
init inherited sc_sdmmc d =
    if not inherited
    then (false, d)
    else (true, record d { card_is_write_protected = true; sdmmc_softc = sc_sdmmc })

unfoldable pub free : Disk → Disk
free d = record d { sdmmc_softc = null }

-- `cast` is the provider as a Sinetek_rtsx, and null if it is none; `protected` is
-- provider_->cardIsWriteProtected().
unfoldable pub attach : Bool → Ptr → CardView → Bool → Disk → Bool × Disk
attach inherited cast card protected d =
    let named = record d { provider = cast } in
    let held = record named { holds = d.holds + 1 } in
    if not inherited
    then (false, d)
    else if is_null cast
    then (false, named)
    else if is_null d.sdmmc_softc
    then (false, held)
    else if is_null card.sc_fn0
    then (false, held)
    else (
      true,
      record held {
        num_blocks = card.capacity % 2 ^ 32;
        blk_size = card.sector_size % 2 ^ 32;
        card_is_write_protected = protected;
      },
    )

-- UTL_SAFE_RELEASE_NULL(provider_)
unfoldable pub detach : Disk → Disk
detach d = if is_null d.provider then d else record d { provider = null; holds = d.holds - 1 }

-- UInt32
unfoldable pub get_block_count : Disk → ℕ
get_block_count d = d.num_blocks

-- The result, and capacities[0] if it is written. The product is one of two uint32_t.
unfoldable pub do_get_format_capacities : Disk → Bool → ℕ → ℕ × Option ℕ
unfolding get_block_count
do_get_format_capacities d has_array max_count =
    if has_array && ltb max_count 1
    then (0, none)
    else (1, if has_array then some (get_block_count d * d.blk_size % 2 ^ 32) else none)

unfoldable pub report_block_size : Disk → IoReturn × ℕ
report_block_size d = (kio_success, d.blk_size)

-- `num_blocks_ - 1` in uint32_t
unfoldable pub report_max_valid_block : Disk → IoReturn × ℕ
report_max_valid_block d = (kio_success, (d.num_blocks + 2 ^ 32 - 1) % 2 ^ 32)

unfoldable pub report_write_protection : Bool → Disk → IoReturn × Bool
report_write_protection write_enabled d =
    (kio_success, not write_enabled || d.card_is_write_protected)

unfoldable pub report_ejectability : IoReturn × Bool
report_ejectability = (kio_success, true)

unfoldable pub report_removability : IoReturn × Bool
report_removability = (kio_success, true)

-- *mediaPresent and *changedState
unfoldable pub report_media_state : IoReturn × Bool × Bool
report_media_state = (kio_success, true, false)

-- *pollRequired and *pollIsExpensive
unfoldable pub report_poll_requirements : IoReturn × Bool × Bool
report_poll_requirements = (kio_success, false, false)

unfoldable pub do_lock_unlock_media : Bool → IoReturn
do_lock_unlock_media do_lock = kio_unsupported

unfoldable pub do_synchronize_cache : IoReturn
do_synchronize_cache = kio_success

unfoldable pub do_format_media : ℕ → IoReturn
do_format_media byte_capacity = kio_success

unfoldable pub get_write_cache_state : IoReturn
get_write_cache_state = kio_unsupported

unfoldable pub set_write_cache_state : Bool → IoReturn
set_write_cache_state enabled = kio_unsupported

-- `eject` is provider_->cardEject().
unfoldable pub do_eject_media : {S : Type 0} → (S → S) → S → IoReturn × S
do_eject_media eject s = (kio_success, eject s)

-- messageClients(kIOMessageMediaStateHasChanged, kIOMediaStateOffline)
unfoldable pub send_message_media_offline : {S : Type 0} → (S → IoReturn × S) → S → IoReturn × S
send_message_media_offline message_clients s = message_clients s

-- What setIcon() leaves: whether the dictionary got its two entries, the property of the object, and
-- how many of the three objects are still referenced by this function.
pub record Icon : Type 0 where
  pub filled : Bool
  pub property : Ptr
  pub held : ℕ

abbrev released : Ptr → ℕ → ℕ
released p n = if is_null p then n else n - 1

abbrev taken : Ptr → ℕ → ℕ
taken p n = if is_null p then n else n + 1

-- The arguments are the new dictionary and the two new strings, or null.
unfoldable pub set_icon : Ptr → Ptr → Ptr → Icon
set_icon dictionary identifier resource_file =
    let held = taken resource_file (taken identifier (taken dictionary 0)) in
    record {
      filled = not (is_null dictionary) && not (is_null identifier) && not (is_null resource_file);
      property = dictionary;
      held = released dictionary (released identifier (released resource_file held));
    }
