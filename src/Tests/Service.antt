-- ===== src/Tests/Service.antt =====
-- Three requests to a card of four blocks, one of them beyond its end, from submission to completion.
use sinetek_rtsx.Base.{ℕ, ◌≡◌, refl, true, false, some, List, [], ◌∷◌, map, arith, Ptr}
use sinetek_rtsx.Disk.Request.{Task, read_task, do_async_read_write}
use sinetek_rtsx.Driver.Tasks.{task_execute_one_impl}
use sinetek_rtsx.Driver.Service.{Log, service, Submission, submit_all, accepted}
use sinetek_rtsx.Driver.Service.Laws.{requests_complete}
use sinetek_rtsx.Driver.Service.Serves.{Answered}
use sinetek_rtsx.Tests.Device.{Device}
use sinetek_rtsx.Tests.Memories.{devices}
use sinetek_rtsx.Tests.Disk.{start, site, garbage, enqueue, request, card_of_four}

abbrev pub first_off : Task → List Task → List Task
first_off t [] = []
first_off t (u ∷ q) = q

abbrev no_other : Ptr → List Task → Device → List Task × Device
no_other p q s = (q, s)

abbrev pub call : ℕ → ℕ → Submission
call block nblks = record {
  view = card_of_four;
  allocated = true;
  fresh = garbage;
  request = request block nblks;
}

abbrev calls : List Submission
calls = call 1 2 ∷ call 3 2 ∷ call 0 1 ∷ []

requests_complete_example :
    (log : Log) × (end : Device) × Answered site (accepted enqueue calls) log
    × (task_execute_one_impl
          (service devices false site no_other first_off (λ s. s) (λ s. s))
          3
          1
          (submit_all enqueue calls [])
          (record { state = start; done = [] })
        ≡ some (record {
          queue = [];
          freed = map read_task (accepted enqueue calls);
          state = record { state = end; done = log };
        }))
unfolding do_async_read_write
requests_complete_example =
    requests_complete devices false site no_other first_off (λ s. s) (λ s. s) (λ t q. refl) enqueue
      (λ t q. refl) calls 3 1 start (omega arith) (omega arith)
