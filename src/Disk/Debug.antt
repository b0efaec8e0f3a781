-- ===== src/Disk/Debug.antt =====
-- Sinetek-rtsx/SDDisk.cpp: the strings that it reports, and its overrides with
-- RTSX_DEBUG_MESSAGES_RECEIVED and RTSX_DEBUG_RETAIN_RELEASE. Their logging is left out.
use sinetek_rtsx.Base.{
  ℕ, ◌+◌, ◌-◌, ◌%◌, ◌^◌, ◌<◌, ◌≡◌, Bool, arith, Ptr, IoReturn, String, if◌then◌else◌,
}

unfoldable pub get_vendor_string : String
get_vendor_string = "Realtek"

unfoldable pub get_product_string : String
get_product_string = "SD Card Reader"

unfoldable pub get_revision_string : String
get_revision_string = "1.0"

unfoldable pub get_additional_device_info_string : String
get_additional_device_info_string = "1.0"

-- The members of these overrides; the counts are `int`, as 32 bits.
pub record Debug : Type 0 where
  pub messages_received : ℕ
  pub debug_retain_release_enabled : Bool
  pub debug_retain_release_count : ℕ

unfoldable pub debug_retain_release : Bool → Debug → Debug
debug_retain_release enabled x = record x { debug_retain_release_enabled = enabled }

-- The state of the superclass is `S`, and its methods are the first arguments.
module _ {S : Type 0} where
  unfoldable pub message :
      (ℕ → Ptr → Ptr → S → IoReturn × S) → ℕ → Ptr → Ptr → Debug × S → IoReturn × (Debug × S)
  message super type provider argument (x, s) =
      let (result, s') = super type provider argument s in
      (result, (record x { messages_received = (x.messages_received + 1) % 2 ^ 32 }, s'))

  unfoldable pub tagged_retain : (Ptr → S → S) → Ptr → Debug × S → Debug × S
  tagged_retain super tag (x, s) =
      let counted = record x {
        debug_retain_release_count = (x.debug_retain_release_count + 1) % 2 ^ 32;
      } in
      (if x.debug_retain_release_enabled then counted else x, super tag s)

  unfoldable pub tagged_release : (Ptr → ℕ → S → S) → Ptr → ℕ → Debug × S → Debug × S
  tagged_release super tag when (x, s) =
      let counted = record x {
        debug_retain_release_count = (x.debug_retain_release_count + 2 ^ 32 - 1) % 2 ^ 32;
      } in
      (if x.debug_retain_release_enabled then counted else x, super tag when s)

  -- A retain and a release leave the members as they were, and pass both on.
  tagged_release-tagged_retain :
      (retain : Ptr → S → S) (release : Ptr → ℕ → S → S) (tag : Ptr) (when : ℕ) (x : Debug) (s : S)
      → x.debug_retain_release_count < 2 ^ 32
      → tagged_release release tag when (tagged_retain retain tag (x, s))
        ≡ (x, release tag when (retain tag s))
  unfolding tagged_release tagged_retain
  tagged_release-tagged_retain retain release tag when x s small = ground arith
