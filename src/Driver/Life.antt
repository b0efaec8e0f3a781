-- ===== src/Driver/Life.antt =====
-- The life of the driver object in Sinetek-rtsx/Sinetek_rtsx.cpp: init() and free(), start() and
-- stop(), and what these call to set up the PCI device and the task loop.
pub mod Stop
pub mod Balance
use sinetek_rtsx.Base.{
  ℕ, zero, suc, ◌+◌, ◌-◌, Bool, true, false, not, Option, none, some, Ptr, null, is_null, Code,
  is_error, ◌==◌, if◌then◌else◌,
}
use sinetek_rtsx.Driver.Owner.{Compat, openbsd_compat_start, openbsd_compat_stop}
use sinetek_rtsx.Driver.Interrupts.{find_msi}
use sinetek_rtsx.Driver.Autoconf.{DvAct, Located, Flagged, config_detach}

-- The members of Sinetek_rtsx that this code writes.
pub record Driver : Type 0 where
  pub rtsx_softc_original : Ptr
  pub write_enabled : Bool
  pub provider : Ptr
  pub workloop : Ptr
  pub map : Ptr
  pub memory_descriptor : Ptr
  pub intr_source : Ptr
  pub intr_status_lock : Ptr
  pub splsdmmc_rec_lock : Ptr
  pub intr_status_event : Bool
  pub task_loop : Ptr
  pub task_execute_one : Ptr

-- The objects that the driver made, or got with a reference, and has not given back; and how often it
-- released the work loop, which getWorkLoop() hands out without a reference.
pub record Objects : Type 0 where
  pub softcs : ℕ
  pub locks : ℕ
  pub rec_locks : ℕ
  pub maps : ℕ
  pub sources : ℕ
  pub task_loops : ℕ
  pub timers : ℕ
  pub workloop_released : ℕ

-- The driver, its objects, the owner of the compatibility layer, and what the OpenBSD driver keeps.
pub record Sys (S : Type 0) : Type 0 where
  pub driver : Driver
  pub objects : Objects
  pub compat : Compat
  pub child : Flagged S

-- What IOKit and the PCI device answer.
pub record Kit : Type 0 where
  pub super_start : Bool
  pub lock : Ptr  -- IOLockAlloc()
  pub rec_lock : Ptr  -- IORecursiveLockAlloc()
  pub provider : Ptr  -- the provider as an IOPCIDevice
  pub workloop : Ptr  -- getWorkLoop()
  pub task_loop : Ptr  -- IOWorkLoop::workLoop()
  pub timer : Ptr  -- timerEventSource()
  pub no_asic : Bool  -- RTSX_CFG_ASIC of the register RTSX_CFG_PCI
  pub device_id : ℕ
  pub map : ℕ → Ptr  -- mapDeviceMemoryWithRegister(bar)
  pub memory_descriptor : Ptr  -- map_->getMemoryDescriptor()
  pub interrupt_type : ℕ → Option ℕ
  pub messaged : ℕ → Bool
  pub source : ℕ → Ptr  -- filterInterruptEventSource(…, index)

-- One object more, if there is one.
abbrev pub made : Ptr → ℕ → ℕ
made p n = if is_null p then n else n + 1

-- One object less, if there is one.
abbrev pub gone : Ptr → ℕ → ℕ
gone p n = if is_null p then n else n - 1

-- `argn name` is PE_parse_boot_argn("-rtsx_ro", …). The other boot arguments are globals that other
-- code reads.
unfoldable pub init : {S : Type 0} → Bool → Ptr → Bool → Sys S → Bool × Sys S
init inherited softc rtsx_ro s =
    let held = record s.objects { softcs = made softc s.objects.softcs } in
    let named = record s.driver { rtsx_softc_original = softc } in
    if not inherited
    then (false, s)
    else if is_null softc
    then (false, record s { driver = named })
    else (true, record s { driver = record named { write_enabled = not rtsx_ro }; objects = held })

-- UTL_FREE(rtsx_softc_original_, …)
unfoldable pub free : {S : Type 0} → Sys S → Sys S
free s = record s {
  driver = record s.driver { rtsx_softc_original = null };
  objects = record s.objects { softcs = gone s.driver.rtsx_softc_original s.objects.softcs };
}

-- `none` here and below is a call through a null pointer, or a loop whose fuel ran out.
unfoldable pub prepare_task_loop : {S : Type 0} → Kit → Sys S → Option (Sys S)
prepare_task_loop kit s =
    if is_null s.driver.workloop
    then some s
    else if is_null kit.task_loop
    then none
    else some (record s {
      driver = record s.driver { task_loop = kit.task_loop; task_execute_one = kit.timer };
      objects = record s.objects {
        task_loops = s.objects.task_loops + 1;
        timers = made kit.timer s.objects.timers;
      };
    })

unfoldable pub destroy_task_loop : {S : Type 0} → Sys S → Sys S
destroy_task_loop s =
    if is_null s.driver.task_execute_one
    then s
    else if is_null s.driver.task_loop
    then s
    else record s {
      driver = record s.driver { task_loop = null; task_execute_one = null };
      objects = record s.objects {
        task_loops = s.objects.task_loops - 1;
        timers = s.objects.timers - 1;
      };
    }

-- RTSX_PCI_BAR_525A for PCI_PRODUCT_REALTEK_RTS525A, else RTSX_PCI_BAR
abbrev pub device_bar : ℕ → ℕ
device_bar device_id = if device_id == 0x525A then 0x14 else 0x10

-- RTSX_F_5209, RTSX_F_5229 and RTSX_F_525A, by the product
abbrev pub device_flags : ℕ → ℕ
device_flags device_id =
    if device_id == 0x5209
    then 0x04
    else if device_id == 0x5229
    then 0x08
    else if device_id == 0x5249
    then 0x08
    else if device_id == 0x525A
    then 0x20
    else 0

-- the index from findMSI(), or 0 for -1
abbrev pub interrupt_index : Option ℕ → ℕ
interrupt_index none = 0
interrupt_index (some index) = index

module _ {S : Type 0} (kit : Kit) where
  -- The end of rtsx_pci_attach(), from the interrupt on. `rtsx_attach` gets the flags.
  unfoldable pub attach_interrupt :
      (ℕ → Flagged S → Code × Flagged S) → Option ℕ → Sys S → Option (Sys S)
  attach_interrupt rtsx_attach msi s =
      let source = kit.source (interrupt_index msi) in
      let sourced = record s {
        driver = record s.driver { intr_source = source };
        objects = record s.objects { sources = made source s.objects.sources };
      } in
      if is_null source
      then some sourced
      else if is_null s.driver.workloop
      then none
      else if is_null s.driver.rtsx_softc_original
      then some sourced
      else some (record sourced { child = (rtsx_attach (device_flags kit.device_id) s.child).1 })

  -- `fuel` is that of findMSI().
  unfoldable pub rtsx_pci_attach : ℕ → (ℕ → Flagged S → Code × Flagged S) → Sys S → Option (Sys S)
  unfolding attach_interrupt
  rtsx_pci_attach fuel rtsx_attach s =
      let map = kit.map (device_bar kit.device_id) in
      let mapped = record s {
        driver = record s.driver { map = map };
        objects = record s.objects { maps = made map s.objects.maps };
      } in
      let described = record mapped {
        driver = record mapped.driver { memory_descriptor = kit.memory_descriptor };
      } in
      if is_null s.driver.provider
      then none
      else if kit.no_asic
      then some s
      else if is_null map
      then some mapped
      else if is_null kit.memory_descriptor
      then some described
      else elim (find_msi kit.interrupt_type kit.messaged fuel 0) [
        | none ↦ none
        | some msi ↦ attach_interrupt rtsx_attach msi described
      ]

  -- the label `ERROR:` of start()
  unfoldable pub start_error : Sys S → Sys S
  start_error s = record s {
    driver = record s.driver { workloop = null };
    objects = record s.objects {
      locks = gone s.driver.intr_status_lock s.objects.locks;
      rec_locks = gone s.driver.splsdmmc_rec_lock s.objects.rec_locks;
    };
  }

  unfoldable pub start :
      ℕ → (ℕ → Flagged S → Code × Flagged S) → Ptr → Sys S → Option (Bool × Sys S)
  unfolding prepare_task_loop rtsx_pci_attach start_error
  start fuel rtsx_attach this s =
      let locked = record s {
        driver = record s.driver {
          intr_status_lock = kit.lock;
          splsdmmc_rec_lock = kit.rec_lock;
          intr_status_event = false;
          provider = kit.provider;
        };
        objects = record s.objects {
          locks = made kit.lock s.objects.locks;
          rec_locks = made kit.rec_lock s.objects.rec_locks;
        };
      } in
      let looped = record locked { driver = record locked.driver { workloop = kit.workloop } } in
      if not kit.super_start
      then some (false, s)
      else if is_null kit.provider
      then some (false, start_error locked)
      else if is_null kit.workloop
      then some (false, start_error looped)
      else elim (prepare_task_loop kit looped) [
        | none ↦ none
        | some ready ↦
            let (error, compat) = openbsd_compat_start this ready.compat in
            let owned = record ready { compat = compat } in
            if is_error error
            then some (false, start_error owned)
            else elim (rtsx_pci_attach fuel rtsx_attach owned) [
              | none ↦ none
              | some up ↦ some (true, up)
            ]
      ]

module _ {S : Type 0} (suspend : DvAct → Flagged S → Code × Flagged S)
    (ca_detach : Option (Flagged S → Code × Flagged S)) where
  -- `sdmmc` is rtsx_softc_original_->sdmmc, with what config_detach() looks at.
  unfoldable pub rtsx_pci_detach : Located → Sys S → Option (Sys S)
  rtsx_pci_detach sdmmc s =
      let detached = record s { child = (config_detach suspend ca_detach sdmmc s.child).state } in
      let unsourced = record detached {
        driver = record s.driver { intr_source = null };
        objects = record s.objects { sources = s.objects.sources - 1 };
      } in
      let d = s.driver in
      if is_null d.rtsx_softc_original
      then none
      else if is_null d.workloop
      then some detached
      else if is_null d.intr_source
      then some detached
      else if is_null d.splsdmmc_rec_lock
      then some unsourced
      else if is_null d.intr_status_lock
      then some unsourced
      else some (record detached {
        driver = record d {
          intr_source = null;
          splsdmmc_rec_lock = null;
          intr_status_lock = null;
          map = null;
        };
        objects = record s.objects {
          sources = s.objects.sources - 1;
          rec_locks = s.objects.rec_locks - 1;
          locks = s.objects.locks - 1;
          maps = gone d.map s.objects.maps;
        };
      })

  unfoldable pub stop : Located → Sys S → Option (Sys S)
  unfolding rtsx_pci_detach destroy_task_loop
  stop sdmmc s = elim (rtsx_pci_detach sdmmc s) [
    | none ↦ none
    | some off ↦
        let down = destroy_task_loop (record off { compat = openbsd_compat_stop off.compat }) in
        some (record down {
          driver = record down.driver { workloop = null };
          objects = record down.objects {
            workloop_released = made down.driver.workloop down.objects.workloop_released;
          };
        })
  ]
