-- ===== src/Tests/Buffered.antt =====
-- A request of 24 blocks, whose buffer has three physical segments.
use sinetek_rtsx.Base.{ℕ, ◌≡◌, refl, true, false, some, List, [], ◌∷◌, arith, Ptr}
use sinetek_rtsx.Dict.{init}
use sinetek_rtsx.Disk.Buffered.{SameHeld}
use sinetek_rtsx.Dma.Mapping.{Mem}
use sinetek_rtsx.Tests.Device.{Device}
use sinetek_rtsx.Tests.Memories.{devices}
use sinetek_rtsx.Disk.Request.{Task, do_async_read_write}
use sinetek_rtsx.Driver.Tasks.{Drained, task_execute_one_impl}
use sinetek_rtsx.Driver.Service.{Served, Submission, submit_all}
use sinetek_rtsx.Driver.Service.Buffers.{buffered_service, requests_give_back}
use sinetek_rtsx.Tests.Disk.{start, site, garbage, enqueue, request, card_of_four}
use sinetek_rtsx.Tests.Service.{first_off}
use sinetek_rtsx.Tests.Dma.{call, holding, init-Good, kit-Sound}

abbrev no_other : Ptr → List Task → Device × Mem → List Task × (Device × Mem)
no_other p q s = (q, s)

abbrev long_call : ℕ → Submission
long_call block = record {
  view = record card_of_four { num_blocks = 100 };
  allocated = true;
  fresh = garbage;
  request = request block 24;
}

abbrev long_calls : List Submission
long_calls = long_call 1 ∷ long_call 80 ∷ long_call 70 ∷ []

requests_give_back_example :
    (end : Drained (Served (Device × Mem))) × (task_execute_one_impl
        (buffered_service devices call 4 false site no_other first_off
          (λ d. d)
          (λ d. d)
          (λ t q. refl))
        3
        1
        (submit_all enqueue long_calls [])
        (record { state = (start, holding init); done = [] })
      ≡ some end)
    × (end.queue ≡ [])
    × SameHeld (holding init) end.state.state.1
unfolding init do_async_read_write
requests_give_back_example =
    requests_give_back devices call 4 false site no_other first_off (λ d. d) (λ d. d) (λ t q. refl)
      enqueue (λ t q. refl) long_calls 3 1 start (holding init) (omega arith) (omega arith)
      init-Good (omega arith) (kit-Sound, (kit-Sound, tt)) (omega arith)
