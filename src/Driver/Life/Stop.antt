-- ===== src/Driver/Life/Stop.antt =====
-- What stop() of Sinetek-rtsx/Sinetek_rtsx.cpp gives back.
use sinetek_rtsx.Base.{◌+◌, ◌-◌, ◌≡◌, ◌≢◌, Option, some, arith, null, Code}
use sinetek_rtsx.Driver.Owner.{openbsd_compat_stop}
use sinetek_rtsx.Driver.Autoconf.{DvAct, Located, Flagged, config_detach}
use sinetek_rtsx.Driver.Life.{Sys, Objects, stop, rtsx_pci_detach, destroy_task_loop}

-- What a driver that is up has, for stop() to give back.
pub record Up {S : Type 0} (s : Sys S) : Type 0 where
  pub softc : s.driver.rtsx_softc_original ≢ null
  pub workloop : s.driver.workloop ≢ null
  pub source : s.driver.intr_source ≢ null
  pub rec_lock : s.driver.splsdmmc_rec_lock ≢ null
  pub lock : s.driver.intr_status_lock ≢ null
  pub map : s.driver.map ≢ null
  pub task_loop : s.driver.task_loop ≢ null
  pub timer : s.driver.task_execute_one ≢ null
  pub owner : s.compat.owner ≢ null

-- The objects after stop() has given one of each back.
abbrev pub one_less : Objects → Objects
one_less o = record o {
  locks = o.locks - 1;
  rec_locks = o.rec_locks - 1;
  maps = o.maps - 1;
  sources = o.sources - 1;
  task_loops = o.task_loops - 1;
  timers = o.timers - 1;
  workloop_released = o.workloop_released + 1;
}

module _ {S : Type 0} (suspend : DvAct → Flagged S → Code × Flagged S)
    (ca_detach : Option (Flagged S → Code × Flagged S)) where
  abbrev pub stopped : Located → Sys S → Sys S
  stopped sdmmc s = record {
    driver = record s.driver {
      workloop = null;
      map = null;
      intr_source = null;
      intr_status_lock = null;
      splsdmmc_rec_lock = null;
      task_loop = null;
      task_execute_one = null;
    };
    objects = one_less s.objects;
    compat = record { owner = null; holds = s.compat.holds - 1 };
    child = (config_detach suspend ca_detach sdmmc s.child).state;
  }

  pub stop_lem :
      (sdmmc : Located) (s : Sys S) → Up s → stop suspend ca_detach sdmmc s ≡ some (stopped sdmmc s)
  unfolding stop rtsx_pci_detach destroy_task_loop openbsd_compat_stop
  stop_lem sdmmc s u = ground arith

  -- stop() with no interrupt source returns from rtsx_pci_detach() before it frees the locks.
  abbrev pub stopped_early : Located → Sys S → Sys S
  stopped_early sdmmc s = record {
    driver = record s.driver { workloop = null; task_loop = null; task_execute_one = null };
    objects = record s.objects {
      task_loops = s.objects.task_loops - 1;
      timers = s.objects.timers - 1;
      workloop_released = s.objects.workloop_released + 1;
    };
    compat = record { owner = null; holds = s.compat.holds - 1 };
    child = (config_detach suspend ca_detach sdmmc s.child).state;
  }

  pub stop_early :
      (sdmmc : Located) (s : Sys S)
      → s.driver.rtsx_softc_original ≢ null
      → s.driver.workloop ≢ null
      → s.driver.intr_source ≡ null
      → s.driver.task_loop ≢ null
      → s.driver.task_execute_one ≢ null
      → s.compat.owner ≢ null
      → stop suspend ca_detach sdmmc s ≡ some (stopped_early sdmmc s)
  unfolding stop rtsx_pci_detach destroy_task_loop openbsd_compat_stop
  stop_early sdmmc s softc workloop source task_loop timer owner = ground arith
