-- ===== src/Tests/Driver.antt =====
-- The driver's loop, its interrupts and the compatibility layer at concrete inputs.
use sinetek_rtsx.Base.{
  ℕ, zero, suc, ◌+◌, ◌-◌, ◌%◌, ◌<◌, ◌≡◌, refl, true, false, none, some, Option, List, [], ◌∷◌, ◌++◌,
  ◌⊎◌, arith, eio, Code, null, ◌==◌, is_error,
}
use sinetek_rtsx.Disk.Request.{Task}
use sinetek_rtsx.Driver.Tasks.{Runner, task_execute_one_impl}
use sinetek_rtsx.Driver.Tasks.Order.{Queueing, total_weight, Runs, read_tasks, task_execute_one_lem}
use sinetek_rtsx.Driver.Interrupts.{find_msi}
use sinetek_rtsx.Driver.Autoconf.{
  DvAct, Flagged, Device, CfData, Attachment, new_device, config_found_sm, config_deactivate,
  config_detach,
}
use sinetek_rtsx.Driver.Autoconf.Laws.{
  config_deactivate_lem, located, Outcomes, config_detach-found,
}
use sinetek_rtsx.Driver.Autoconf.Search.{FirstMatch}

-- A task that counts down queues its successor.
abbrev successors : Task → List Task
successors (Task.other_task (suc p)) = Task.other_task p ∷ []
successors t = []

abbrev weight_of : Task → ℕ
weight_of (Task.read_task args) = 1
weight_of (Task.other_task p) = p + 1

abbrev first_off : Task → List Task → List Task
first_off t [] = []
first_off t (u ∷ q) = q

-- The state counts the tasks that ran.
abbrev counter : Runner ℕ
counter = record {
  del_task = first_off;
  run = λ t q s. (q ++ successors t, s + 1);
  lock = λ s. s;
  unlock = λ s. s;
}

lighter : (t : Task) (s : ℕ) → total_weight weight_of (successors t) < weight_of t
lighter (Task.read_task args) s = omega arith
lighter (Task.other_task zero) s = omega arith
lighter (Task.other_task (suc p)) s = omega arith

abbrev counter-Queueing : Queueing counter
counter-Queueing = record {
  spawned = λ t s. successors t;
  weight = weight_of;
  del_task-head = λ t q. refl;
  run-queue = λ t q s. refl;
  spawned_lighter = lighter;
}

abbrev two_tasks : List Task
two_tasks = Task.other_task 2 ∷ Task.other_task 0 ∷ []

runs_four :
    task_execute_one_impl counter 5 1 two_tasks 0
    ≡ some (record { queue = []; freed = []; state = 4 })
unfolding task_execute_one_impl
runs_four = refl

task_execute_one_lem_example :
    (later : List Task) × (s' : ℕ) × Runs counter counter-Queueing two_tasks 0
      (two_tasks ++ later)
      s'
    × (task_execute_one_impl counter 5 1 two_tasks 0
        ≡ some (record { queue = []; freed = read_tasks (two_tasks ++ later); state = s' }))
task_execute_one_lem_example =
    task_execute_one_lem counter counter-Queueing 5 1 two_tasks 0 (omega arith) (omega arith)

-- Three interrupts, the last of them messaged.
abbrev kinds : ℕ → Option ℕ
kinds zero = some 0
kinds (suc zero) = some 0
kinds (suc (suc zero)) = some 1
kinds i = none

find_msi_runs : find_msi kinds (◌==◌ 1) 4 0 ≡ some (some 2)
unfolding find_msi
find_msi_runs = refl

-- An activation that always fails, and counts its calls.
abbrev busy : DvAct → Flagged ℕ → Code × Flagged ℕ
busy act (flags, s) = (some eio, (flags, s + 1))

config_deactivate_lem_example :
    let out = config_deactivate busy (5, 0) in
    (((out.0 ≡ none) × (out.1.0 ≡ 5 - 5 % 2)) ⊎ ((is_error out.0 ≡ true) × (out.1.0 ≡ 5)))
    × (out.0 ≡ none → config_deactivate busy out.1 ≡ (none, out.1))
config_deactivate_lem_example = config_deactivate_lem busy (λ act d. refl) 5 0

abbrev sdmmc_data : Attachment
sdmmc_data = record { cf_attach = 8; allocated = 21; cf_driver = 9; cd_name = 10; ca_attach = 11 }

-- The entry without a cf_attach and the one that does not match are passed over.
abbrev my_cfdata : List CfData
my_cfdata =
    record { this = 12; cf_attach = null; matches = true }
    ∷ record { this = 13; cf_attach = 14; matches = false }
    ∷ record { this = 7; cf_attach = 8; matches = true }
    ∷ record { this = 15; cf_attach = 16; matches = true }
    ∷ []

abbrev found_device : Device
found_device = new_device 6 7 sdmmc_data

-- The device refuses to deactivate, and is freed.
config_detach-found_example :
    (cf : CfData) × FirstMatch my_cfdata cf
    × ◌≡◌ {A = ℕ} 7 cf.this
    × ◌≡◌ {A = ℕ} 6 6
    × ◌≡◌ {A = ℕ} 3 (2 + 1)
    × let out = config_detach busy none (located found_device 8) (1, 0) in
      (out.freed ≡ true) × Outcomes busy none 0 out
unfolding config_found_sm
config_detach-found_example =
    config_detach-found (λ dev s. (dev, s + 1)) (λ dev s. refl) 6 my_cfdata sdmmc_data 2 3 40 41
      found_device refl busy none 0
