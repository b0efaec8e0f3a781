-- ===== src/Driver/Autoconf/Laws.antt =====
-- config_found_sm(), config_deactivate() and config_detach() of Sinetek-rtsx/compat/openbsd/config.cpp.
use sinetek_rtsx.Base.{
  null, enotsup, ap, ◌∙◌, ◌+◌, List, Ptr, ℕ, ◌-◌, ◌%◌, ◌≡◌, ◌≢◌, ◌↔◌, ◌⊎◌, inl, inr, true, false,
  Option, none, some, arith, Code, Bool-cases, Option-cases, ◌==◌, is_error,
}
use sinetek_rtsx.Driver.Autoconf.{
  DvAct, Flagged, Device, CfData, Attachment, Located, some_missing, dvf_active, config_search,
  Detached, new_device, config_found_sm, config_deactivate, config_detach, dvact_deactivate,
}
use sinetek_rtsx.Driver.Autoconf.Search.{FirstMatch, config_search-FirstMatch}

module _ {S : Type 0} (suspend : DvAct → Flagged S → Code × Flagged S) where
  -- The device's own code leaves its flags alone.
  abbrev pub KeepsFlags : Type 0
  KeepsFlags = (act : DvAct) (d : Flagged S) → (suspend act d).1.0 ≡ d.0

  -- Where the activation of a device leaves its flags alone, a deactivation ends with the device
  -- inactive and its other flags as they were, or with an error and all of its flags as they were;
  -- after a success, a second one succeeds and changes nothing.
  pub config_deactivate_lem :
      KeepsFlags
      → (flags : ℕ) (s : S)
      → let out = config_deactivate suspend (flags, s) in
        (((out.0 ≡ none) × (out.1.0 ≡ flags - flags % 2))
          ⊎ ((is_error out.0 ≡ true) × (out.1.0 ≡ flags)))
        × (out.0 ≡ none → config_deactivate suspend out.1 ≡ (none, out.1))
  unfolding config_deactivate
  config_deactivate_lem keeps flags s =
      let kept = keeps dvact_deactivate (flags - 1, s) in
      elim (Bool-cases (flags % 2 == 1)) [
        | inr even ↦ ground (arith, kept)
        | inl odd ↦ elim (Option-cases (suspend dvact_deactivate (flags - 1, s)).0) [
          | inl done ↦ ground (arith, kept)
          | inr (e, bad) ↦ ground (arith, kept)
        ]
      ]

  -- config_detach() frees the device if and only if no pointer is null, and so also when the
  -- deactivation fails, whose code it then returns.
  pub config_detach_frees :
      (ca_detach : Option (Flagged S → Code × Flagged S)) (at : Located) (d : Flagged S)
      → ((config_detach suspend ca_detach at d).freed ≡ true ↔ some_missing at ≡ false)
        × ((config_deactivate suspend d).0 ≢ none
            → some_missing at ≡ false
            → ((config_detach suspend ca_detach at d).code ≡ (config_deactivate suspend d).0)
              × ((config_detach suspend ca_detach at d).freed ≡ true))
  unfolding config_detach
  config_detach_frees none at d = ground arith
  config_detach_frees (some detach) at d = ground arith

-- A device as config_detach() finds it.
abbrev pub located : Device → Ptr → Located
located dev cf_attach = record { dev = dev.this; dv_cfdata = dev.dv_cfdata; cf_attach = cf_attach }

-- What ca_detach answers, ENOTSUP if there is none.
abbrev pub detach_or :
    {T : Type 0} → Option (Flagged T → Code × Flagged T) → Flagged T → Code × Flagged T
detach_or none d = (some enotsup, d)
detach_or (some detach) d = detach d

-- What config_detach() comes to: the device is told to deactivate while it counts as inactive; where
-- it refuses, it is active again, and else ca_detach decides.
abbrev pub Outcomes :
    {T : Type 0}
    → (DvAct → Flagged T → Code × Flagged T)
    → Option (Flagged T → Code × Flagged T)
    → T
    → Detached T
    → Type 0
Outcomes suspend ca_detach t out =
    let (rv, (flags, t')) = suspend dvact_deactivate (0, t) in
    ((rv ≢ none) × (out.code ≡ rv) × (out.state ≡ (dvf_active, t')))
    ⊎ ((rv ≡ none) × ((out.code, out.state) ≡ detach_or ca_detach (flags, t')))

detach-Outcomes :
    {T : Type 0} (suspend : DvAct → Flagged T → Code × Flagged T)
    (ca_detach : Option (Flagged T → Code × Flagged T)) (at : Located) (t : T)
    → some_missing at ≡ false
    → Outcomes suspend ca_detach t (config_detach suspend ca_detach at (dvf_active, t))
unfolding config_detach config_deactivate
detach-Outcomes suspend none at t good = ground arith
detach-Outcomes suspend (some detach) at t good = ground arith

-- What config_found_sm() finds is what config_attach() made for the entry of config_search().
found_lem :
    {S : Type 0} (ca_attach : Device → S → Device × S)
    → ((dev : Device) (s : S) → (ca_attach dev s).0 ≡ dev)
    → (parent : Ptr) (cfs : List CfData) (a : Attachment) (n n' : ℕ) (s s' : S) (dev : Device)
    → config_found_sm ca_attach parent cfs a (n, s) ≡ (some dev, n', s')
    → (dev ≡ new_device parent (config_search cfs) a)
      × (config_search cfs ≢ null)
      × (n' ≡ n + 1)
      × (some_missing (located dev a.cf_attach) ≡ false)
unfolding config_found_sm
found_lem ca_attach keeps parent cfs a n n' s s' dev found =
    ground (arith, keeps (new_device parent (config_search cfs) a) s)

-- Where ca_attach leaves the members of the device alone: a device that config_found_sm() finds
-- knows its parent and an entry that has a cf_attach and matches, while every entry before it has
-- none or does not match; one allocation was made for it. config_detach() of it frees it in every
-- case: an error of its deactivation, which is called with the device marked inactive, is returned
-- with the device marked active again, and else ca_detach, called on what the deactivation left,
-- gives the code, or ENOTSUP is returned if there is none.
pub config_detach-found :
    {S T : Type 0} (ca_attach : Device → S → Device × S)
    → ((dev : Device) (s : S) → (ca_attach dev s).0 ≡ dev)
    → (parent : Ptr) (cfs : List CfData) (a : Attachment) (n n' : ℕ) (s s' : S) (dev : Device)
    → config_found_sm ca_attach parent cfs a (n, s) ≡ (some dev, n', s')
    → (suspend : DvAct → Flagged T → Code × Flagged T)
      (ca_detach : Option (Flagged T → Code × Flagged T)) (t : T)
    → (cf : CfData) × FirstMatch cfs cf
      × (dev.dv_cfdata ≡ cf.this)
      × (dev.dv_parent ≡ parent)
      × (n' ≡ n + 1)
      × let out = config_detach suspend ca_detach (located dev a.cf_attach) (dev.dv_flags, t) in
        (out.freed ≡ true) × Outcomes suspend ca_detach t out
config_detach-found ca_attach keeps parent cfs a n n' s s' dev found suspend ca_detach t =
    let (made, hit, count, good) = found_lem ca_attach keeps parent cfs a n n' s s' dev found in
    let (cf, first, at_cf) = config_search-FirstMatch cfs hit in
    let flags : dev.dv_flags ≡ dvf_active = ap (λ d. d.dv_flags) made in
    (
      cf,
      first,
      ap (λ d. d.dv_cfdata) made ∙ at_cf,
      ap (λ d. d.dv_parent) made,
      count,
      (
        (config_detach_frees suspend ca_detach (located dev a.cf_attach) (dev.dv_flags, t)).0.1
            good,
        rw flags (detach-Outcomes suspend ca_detach (located dev a.cf_attach) t good),
      ),
    )
