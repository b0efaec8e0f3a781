-- ===== src/Tests/ReadBack.antt =====
-- A write of two blocks, a write behind them, and a read of the second block into another memory.
use sinetek_rtsx.Base.{
  kio_success, ℕ, ◌+◌, ◌*◌, ◌≡◌, refl, inr, true, false, some, List, [], ◌∷◌, arith, Ptr,
}
use mathlib.Core.Option
use sinetek_rtsx.Retry.{run_with_retry}
use sinetek_rtsx.Disk.Transfer.{transfer, piece}
use sinetek_rtsx.Disk.Io.{IoDirection, direction_in, direction_out}
use sinetek_rtsx.Disk.Task.{BioArgs, Outcome, read_task_impl}
use sinetek_rtsx.Disk.Request.{Task, read_task, fill_args, do_async_read_write}
use sinetek_rtsx.Driver.Tasks.{Drained, task_loop, task_execute_one_impl}
use sinetek_rtsx.Driver.Service.{Served, run_task, service, Submission, submit_all}
use sinetek_rtsx.Driver.Service.Race.{System, Step, Reach, Works, later, work, take, add_other}
use sinetek_rtsx.Disk.Task.Success.{read_task_succeeds}
use sinetek_rtsx.Driver.Service.Race.ReadBack.{drains-ReadsBack}
use sinetek_rtsx.Driver.Service.ReadBack.Later.{ReadsBack}
use sinetek_rtsx.Tests.Device.{Device}
use sinetek_rtsx.Tests.Memories.{devices, devices_storage, devices-Recovering, card_bytes}
use sinetek_rtsx.Tests.Disk.{start, site, garbage, enqueue, request, card_of_four}
use sinetek_rtsx.Tests.Service.{first_off}

abbrev no_other : Ptr → List Task → Device → List Task × Device
no_other p q s = (q, s)

abbrev pub call : IoDirection → Ptr → ℕ → ℕ → Submission
call dir buffer block nblks = record {
  view = card_of_four;
  allocated = true;
  fresh = garbage;
  request = record (request block nblks) { direction = dir; buffer = buffer };
}

abbrev pub args_of_call : Submission → BioArgs
args_of_call x = fill_args x.fresh x.view.this x.request

abbrev pub write_two : Submission
write_two = call direction_out 8 0 2

abbrev write_last : Submission
write_last = call direction_out 8 3 1

abbrev read_second : Submission
read_second = call direction_in 10 1 1

-- The first byte that the reader gets is byte 512 of the writer's memory.
read_back_runs :
    Option.map {B = ℕ}
      (λ (o : Drained (Served Device)). o.state.state.memory (10 * 1024))
      (task_execute_one_impl
        (service devices false site no_other first_off (λ s. s) (λ s. s))
        4
        1
        (submit_all enqueue (write_two ∷ write_last ∷ read_second ∷ []) [])
        (record { state = start; done = [] }))
    ≡ some (8 * 1024 + 512 + 1)
unfolding task_execute_one_impl task_loop submit_all run_task do_async_read_write read_task_impl
    transfer piece run_with_retry
read_back_runs = refl

abbrev pub untouched : Ptr → Device → Device
untouched p s = s

-- The same requests, while the worker holds the first one, and with a task of the OpenBSD code.
abbrev Reaches : System Device → Type 0
Reaches = Reach devices false site untouched enqueue first_off start

three_requests : (t : System Device) × Reaches t
unfolding do_async_read_write
three_requests = (
  _,
  later
      (later
        (later
          (later (later Reach.start (Step.request write_two))
            (work (take (read_task (args_of_call write_two)) [] refl refl)))
          (Step.request write_last))
        (add_other 5))
      (Step.request read_second),
)

drains-ReadsBack_example :
    (u : System Device) × Works devices false site untouched enqueue first_off three_requests.0 u
    × (u.queue ≡ [])
    × ReadsBack devices devices_storage
        (λ s. s.card)
        (λ b s a. refl)
        false
        site
        (args_of_call write_two)
        (args_of_call read_second)
        (args_of_call write_last ∷ [])
        start
        u.served.done
        u.served.state
unfolding do_async_read_write three_requests
drains-ReadsBack_example =
    drains-ReadsBack devices devices_storage (λ s. s.card) (λ b s a. refl) false site untouched
      (λ p s a. refl) (λ b p s a. refl) enqueue first_off (λ t q. refl) (λ t q. refl)
      (args_of_call write_two) refl (omega arith) (args_of_call read_second)
      (args_of_call write_last ∷ []) refl (omega arith) (omega arith) (omega arith)
      ((omega arith, inr (refl, inr (omega arith))), tt) start three_requests.0 three_requests.1
      refl

read_task_succeeds_example :
    (out : Outcome Device) × (read_task_impl
        (devices 10)
        false
        site
        (some (args_of_call read_second))
        start
      ≡ some out)
    × (out.completed ≡ some (kio_success, 512))
    × (out.deleted ≡ true)
unfolding fill_args
read_task_succeeds_example =
    read_task_succeeds (devices 10) (devices_storage 10) card_bytes (devices-Recovering 10) false
      site (args_of_call read_second) start (omega arith) (omega arith) refl (omega arith)
      (inr refl)
