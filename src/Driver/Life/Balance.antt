-- ===== src/Driver/Life/Balance.antt =====
-- What start() and stop() of Sinetek-rtsx/Sinetek_rtsx.cpp take and give back.
use sinetek_rtsx.Base.{
  ℕ, ◌+◌, ◌≡◌, ◌≢◌, refl, true, false, Option, none, some, arith, Ptr, null, Code,
}
use sinetek_rtsx.Driver.Owner.{openbsd_compat_start}
use sinetek_rtsx.Driver.Interrupts.{find_msi}
use sinetek_rtsx.Driver.Autoconf.{DvAct, Located, Flagged}
use sinetek_rtsx.Driver.Life.{
  Kit, Sys, Objects, device_bar, device_flags, interrupt_index, start, stop, start_error,
  rtsx_pci_attach, prepare_task_loop, attach_interrupt,
}
use sinetek_rtsx.Driver.Life.Stop.{stopped, stop_lem, stopped_early, stop_early}

-- A device that is set up as far as its memory: every object that start() asks for by then is there.
pub record Present (kit : Kit) : Type 0 where
  pub starts : kit.super_start ≡ true
  pub lock : kit.lock ≢ null
  pub rec_lock : kit.rec_lock ≢ null
  pub provider : kit.provider ≢ null
  pub workloop : kit.workloop ≢ null
  pub task_loop : kit.task_loop ≢ null
  pub timer : kit.timer ≢ null
  pub asic : kit.no_asic ≡ false
  pub map : kit.map (device_bar kit.device_id) ≢ null
  pub memory_descriptor : kit.memory_descriptor ≢ null

-- The objects after start() has made one of each.
abbrev pub one_more : Objects → Objects
one_more o = record o {
  locks = o.locks + 1;
  rec_locks = o.rec_locks + 1;
  maps = o.maps + 1;
  sources = o.sources + 1;
  task_loops = o.task_loops + 1;
  timers = o.timers + 1;
}

module _ {S : Type 0} (kit : Kit) (rtsx_attach : ℕ → Flagged S → Code × Flagged S) where
  abbrev pub started : Ptr → Option ℕ → Sys S → Sys S
  started this msi s = record {
    driver = record s.driver {
      provider = kit.provider;
      workloop = kit.workloop;
      map = kit.map (device_bar kit.device_id);
      memory_descriptor = kit.memory_descriptor;
      intr_source = kit.source (interrupt_index msi);
      intr_status_lock = kit.lock;
      splsdmmc_rec_lock = kit.rec_lock;
      intr_status_event = false;
      task_loop = kit.task_loop;
      task_execute_one = kit.timer;
    };
    objects = one_more s.objects;
    compat = record { owner = this; holds = s.compat.holds + 1 };
    child = (rtsx_attach (device_flags kit.device_id) s.child).1;
  }

  -- start() without an interrupt source
  abbrev started_deaf : Ptr → Sys S → Sys S
  started_deaf this s = record (started this none s) {
    driver = record (started this none s).driver { intr_source = null };
    objects = record (one_more s.objects) { sources = s.objects.sources };
    child = s.child;
  }

  -- start() that fails in openbsd_compat_start()
  abbrev refused : Sys S → Sys S
  refused s = record s {
    driver = record s.driver {
      provider = kit.provider;
      workloop = null;
      intr_status_lock = kit.lock;
      splsdmmc_rec_lock = kit.rec_lock;
      intr_status_event = false;
      task_loop = kit.task_loop;
      task_execute_one = kit.timer;
    };
    objects = record s.objects {
      task_loops = s.objects.task_loops + 1;
      timers = s.objects.timers + 1;
    };
  }

  module _ (p : Present kit) (fuel : ℕ) (this : Ptr) (this_set : this ≢ null) (s : Sys S)
      (idle : s.compat.owner ≡ null) (softc : s.driver.rtsx_softc_original ≢ null) where
    pub start_lem :
        (msi : Option ℕ)
        → find_msi kit.interrupt_type kit.messaged fuel 0 ≡ some msi
        → kit.source (interrupt_index msi) ≢ null
        → start kit fuel rtsx_attach this s ≡ some (true, started this msi s)
    unfolding start attach_interrupt rtsx_pci_attach prepare_task_loop openbsd_compat_start
    start_lem msi found source = ground arith

    -- For a device that has what start() asks for, a driver with a softc and a compatibility layer
    -- without an owner: start() succeeds, and stop() then gives back every lock, map, event
    -- source, task loop and timer and the owner of the layer, and releases the work loop once,
    -- which getWorkLoop() handed out without a reference.
    pub start-stop :
        (suspend : DvAct → Flagged S → Code × Flagged S)
        (ca_detach : Option (Flagged S → Code × Flagged S)) (sdmmc : Located) (msi : Option ℕ)
        → find_msi kit.interrupt_type kit.messaged fuel 0 ≡ some msi
        → kit.source (interrupt_index msi) ≢ null
        → (up down : Sys S) × (start kit fuel rtsx_attach this s ≡ some (true, up))
          × (stop suspend ca_detach sdmmc up ≡ some down)
          × (down.objects
              ≡ record s.objects { workloop_released = s.objects.workloop_released + 1 })
          × (down.compat ≡ s.compat)
    start-stop suspend ca_detach sdmmc msi found source =
        let up = started this msi s in
        (
          up,
          stopped suspend ca_detach sdmmc up,
          start_lem msi found source,
          stop_lem suspend ca_detach sdmmc up (record {
            softc = softc;
            workloop = p.workloop;
            source = source;
            rec_lock = p.rec_lock;
            lock = p.lock;
            map = p.map;
            task_loop = p.task_loop;
            timer = p.timer;
            owner = this_set;
          }),
          ground arith,
          ground arith,
        )

    start_deaf :
        (msi : Option ℕ)
        → find_msi kit.interrupt_type kit.messaged fuel 0 ≡ some msi
        → kit.source (interrupt_index msi) ≡ null
        → start kit fuel rtsx_attach this s ≡ some (true, started_deaf this s)
    unfolding start attach_interrupt rtsx_pci_attach prepare_task_loop openbsd_compat_start
    start_deaf msi found source = ground arith

    -- For such a device and driver, but without an interrupt source: start() succeeds all the
    -- same, and stop() then leaves a lock, a recursive lock and the memory map behind.
    pub start-stop_leaks :
        (suspend : DvAct → Flagged S → Code × Flagged S)
        (ca_detach : Option (Flagged S → Code × Flagged S)) (sdmmc : Located) (msi : Option ℕ)
        → find_msi kit.interrupt_type kit.messaged fuel 0 ≡ some msi
        → kit.source (interrupt_index msi) ≡ null
        → (up down : Sys S) × (start kit fuel rtsx_attach this s ≡ some (true, up))
          × (stop suspend ca_detach sdmmc up ≡ some down)
          × (down.objects ≡ record s.objects {
            locks = s.objects.locks + 1;
            rec_locks = s.objects.rec_locks + 1;
            maps = s.objects.maps + 1;
            workloop_released = s.objects.workloop_released + 1;
          })
    start-stop_leaks suspend ca_detach sdmmc msi found source =
        let up = started_deaf this s in
        (
          up,
          stopped_early suspend ca_detach sdmmc up,
          start_deaf msi found source,
          stop_early suspend ca_detach sdmmc up softc p.workloop refl p.task_loop p.timer this_set,
          ground arith,
        )

  -- For a device that has what start() asks for, and a compatibility layer with an owner: start()
  -- fails, gives its locks back, and leaves a task loop and a timer behind.
  pub start_fails_leak :
      Present kit
      → (fuel : ℕ) (this : Ptr) (s : Sys S) → s.compat.owner ≢ null
      → (end : Sys S) × (start kit fuel rtsx_attach this s ≡ some (false, end))
        × (end.objects ≡ record s.objects {
          task_loops = s.objects.task_loops + 1;
          timers = s.objects.timers + 1;
        })
  unfolding start prepare_task_loop openbsd_compat_start start_error
  start_fails_leak p fuel this s busy = (refused s, ground arith, refl)
