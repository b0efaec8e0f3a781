-- ===== src/Tests/Queue.antt =====
-- Two requests, the second of which comes while the worker holds the first.
use sinetek_rtsx.Base.{map, ℕ, ◌≡◌, refl, false, List, [], ◌∷◌, ◌++◌, Ptr}
use sinetek_rtsx.Disk.Task.{BioArgs}
use sinetek_rtsx.Disk.Request.{Task, read_task, fill_args, do_async_read_write}
use sinetek_rtsx.Driver.Service.Race.{System, Reach, Works, start, later, request, work, take}
use sinetek_rtsx.Driver.Service.Race.Order.{requests, Ran, order_kept}
use sinetek_rtsx.Driver.Tasks.Order.{read_tasks}
use sinetek_rtsx.Driver.Service.Serves.{Answered}
use sinetek_rtsx.Driver.Service.Race.Drain.{queue_drains}
use sinetek_rtsx.Tests.Device.{Device}
use sinetek_rtsx.Tests.Memories.{devices}
use sinetek_rtsx.Tests.Disk as D
use sinetek_rtsx.Tests.Service.{first_off, call}

abbrev untouched : Ptr → Device → Device
untouched p s = s

-- What a call queues.
abbrev first_args : ℕ → ℕ → BioArgs
first_args block nblks = fill_args D.garbage (call block nblks).view.this (call block nblks).request

abbrev Reaches : System Device → Type 0
Reaches = Reach devices false D.site untouched D.enqueue first_off D.start

two_requests : (t : System Device) × Reaches t
unfolding do_async_read_write
two_requests = (
  _,
  later
      (later
        (later (later start (request (call 1 2)))
          (work (take (read_task (first_args 1 2)) [] refl refl)))
        (request (call 3 2)))
      (request (call 0 1)),
)

order_kept_example :
    (before : List Task) × Ran devices false D.site untouched D.enqueue first_off
      (λ t q. refl)
      (λ t q. refl)
      D.start
      before
      []
      D.start
    × Answered D.site (requests before) []
    × (first_args 1 2 ∷ first_args 0 1 ∷ []
        ≡ requests before ++ first_args 1 2 ∷ [] ++ first_args 0 1 ∷ [])
    × ([] ++ [] ≡ read_tasks before)
unfolding do_async_read_write two_requests
order_kept_example =
    order_kept devices false D.site untouched D.enqueue first_off (λ t q. refl) (λ t q. refl)
      D.start two_requests.0 two_requests.1

queue_drains_example :
    (u : System Device) × Works devices false D.site untouched D.enqueue first_off two_requests.0 u
    × (u.queue ≡ [])
    × Answered D.site (first_args 1 2 ∷ first_args 0 1 ∷ []) u.served.done
    × (u.freed ≡ map read_task (first_args 1 2 ∷ first_args 0 1 ∷ []))
unfolding do_async_read_write two_requests
queue_drains_example =
    queue_drains devices false D.site untouched D.enqueue first_off (λ t q. refl) (λ t q. refl)
      D.start two_requests.0 two_requests.1
