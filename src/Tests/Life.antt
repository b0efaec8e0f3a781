-- ===== src/Tests/Life.antt =====
-- start() and stop() of the driver with a device whose third interrupt is messaged.
use sinetek_rtsx.Base.{
  ℕ, zero, suc, ◌≡◌, refl, true, false, Option, none, some, arith, null, Code, success,
  if◌then◌else◌, ◌==◌,
}
use sinetek_rtsx.Driver.Autoconf.{DvAct, Flagged, Located}
use sinetek_rtsx.Driver.Interrupts.{find_msi}
use sinetek_rtsx.Driver.Life.{Kit, Sys, Objects, start, stop}
use sinetek_rtsx.Driver.Life.Balance.{Present, start-stop, start-stop_leaks, start_fails_leak}

abbrev kinds : ℕ → Option ℕ
kinds zero = some 0
kinds (suc zero) = some 0
kinds (suc (suc zero)) = some 1
kinds i = none

-- `line` is the interrupt source that the event source can be made for.
abbrev device_with : ℕ → Kit
device_with line = record {
  super_start = true;
  lock = 11;
  rec_lock = 12;
  provider = 13;
  workloop = 14;
  task_loop = 15;
  timer = 16;
  no_asic = false;
  device_id = 0x525A;
  map = λ bar. if bar == 0x14 then 17 else null;
  memory_descriptor = 18;
  interrupt_type = kinds;
  messaged = λ kind. kind == 1;
  source = λ index. if index == line then 19 else null;
}

device_with-Present : (line : ℕ) → Present (device_with line)
device_with-Present line = record {
  starts = refl;
  lock = λ e. omega (arith, e);
  rec_lock = λ e. omega (arith, e);
  provider = λ e. omega (arith, e);
  workloop = λ e. omega (arith, e);
  task_loop = λ e. omega (arith, e);
  timer = λ e. omega (arith, e);
  asic = refl;
  map = λ e. omega (arith, e);
  memory_descriptor = λ e. omega (arith, e);
}

abbrev none_held : Objects
none_held = record {
  softcs = 1;
  locks = 0;
  rec_locks = 0;
  maps = 0;
  sources = 0;
  task_loops = 0;
  timers = 0;
  workloop_released = 0;
}

abbrev initialised : ℕ → Sys ℕ
initialised owner = record {
  driver = record {
    rtsx_softc_original = 20;
    write_enabled = true;
    provider = null;
    workloop = null;
    map = null;
    memory_descriptor = null;
    intr_source = null;
    intr_status_lock = null;
    splsdmmc_rec_lock = null;
    intr_status_event = false;
    task_loop = null;
    task_execute_one = null;
  };
  objects = none_held;
  compat = record { owner = owner; holds = owner };
  child = (1, 0);
}

-- The OpenBSD driver keeps the flags it was attached with.
abbrev attaches : ℕ → Flagged ℕ → Code × Flagged ℕ
attaches flags (f, s) = (success, (f, flags))

abbrev child : Located
child = record { dev = 21; dv_cfdata = 22; cf_attach = 23 }

abbrev suspends : DvAct → Flagged ℕ → Code × Flagged ℕ
suspends act d = (success, d)

start-stop_example :
    (up down : Sys ℕ) × (start (device_with 2) 4 attaches 30 (initialised 0) ≡ some (true, up))
    × (stop suspends none child up ≡ some down)
    × (down.objects ≡ record none_held { workloop_released = 1 })
    × (down.compat ≡ record { owner = null; holds = 0 })
unfolding find_msi
start-stop_example =
    start-stop (device_with 2) attaches (device_with-Present 2) 4 30 (omega arith) (initialised 0)
      refl (omega arith) suspends none child (some 2) refl (omega arith)

start-stop_leaks_example :
    (up down : Sys ℕ) × (start (device_with 0) 4 attaches 30 (initialised 0) ≡ some (true, up))
    × (stop suspends none child up ≡ some down)
    × (down.objects
        ≡ record none_held { locks = 1; rec_locks = 1; maps = 1; workloop_released = 1 })
unfolding find_msi
start-stop_leaks_example =
    start-stop_leaks (device_with 0) attaches (device_with-Present 0) 4 30 (omega arith)
      (initialised 0) refl (omega arith) suspends none child (some 2) refl refl

start_fails_leak_example :
    (end : Sys ℕ) × (start (device_with 2) 4 attaches 30 (initialised 7) ≡ some (false, end))
    × (end.objects ≡ record none_held { task_loops = 1; timers = 1 })
start_fails_leak_example =
    start_fails_leak (device_with 2) attaches (device_with-Present 2) 4 30 (initialised 7)
      (omega arith)
