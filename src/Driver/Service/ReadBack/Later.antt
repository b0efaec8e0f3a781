-- ===== src/Driver/Service/ReadBack/Later.antt =====
-- What a read request of Sinetek-rtsx/SDDisk.cpp delivers, when an earlier one wrote its blocks.
use sinetek_rtsx.Base.{
  ℕ, ◌+◌, ◌-◌, ◌*◌, ◌≤◌, ◌<◌, ◌≡◌, ◌≢◌, refl, ◌∙◌, Bool, true, Option, some, List, [], ◌∷◌, ◌++◌,
  map, Ptr, null, IoReturn, length, subst,
}
use sinetek_rtsx.Disk.Io.{Io, Storage, direction_in, direction_out, block_size}
use sinetek_rtsx.Disk.Task.{BioArgs, Site, Outcome, read_task_impl}
use sinetek_rtsx.Disk.Request.{Task, read_task}
use sinetek_rtsx.Driver.Tasks.{task_execute_one_impl}
use sinetek_rtsx.Driver.Service.{Log, service, Submission, submit_all, accepted}
use sinetek_rtsx.Driver.Service.Serves.{
  Serves, all_served, serves_one, Serves-append, action-Serves,
}
use sinetek_rtsx.Driver.Service.Buffers.{Every, Serves-keeps}
use sinetek_rtsx.Driver.Service.ReadBack.{
  reported, memory_of, Small, Holds, write-Holds, read_delivers, Elsewhere, Holds-kept,
  Holds-within,
}

module _ {S : Type 0} (io : Ptr → Io S) (st : (b : Ptr) → Storage (io b)) (card : S → ℕ → ℕ)
    (same_card : (b : Ptr) (s : S) (a : ℕ) → (st b).card s a ≡ card s a) (no_adma : Bool)
    (site : Site) (w r : BioArgs) (between : List BioArgs) where
  -- The answers to `w` and to `r`, with those between them, and what a success of both delivers.
  unfoldable pub ReadsBack : S → Log → S → Type 0
  ReadsBack s log end =
      (wrote : Option (IoReturn × ℕ)) × (read : Option (IoReturn × ℕ)) × (others : Log) × (log
        ≡ (w.completion, wrote) ∷ others ++ (r.completion, read) ∷ [])
      × (reported wrote ≡ true
          → reported read ≡ true
          → (a : ℕ) → a < r.nblks * 512
          → memory_of io st card same_card no_adma site r.buffer end a
            ≡ memory_of io st card same_card no_adma site w.buffer s
                ((r.block - w.block) * block_size + a))

  last_outcome :
      (args : BioArgs) (s : S) (log : Log) (t : S)
      → Serves io no_adma site (args ∷ []) s log t
      → (out : Outcome S) × (read_task_impl (io args.buffer) no_adma site (some args) s ≡ some out)
        × (log ≡ (args.completion, out.completed) ∷ [])
        × (t ≡ out.state)
  last_outcome args s _ _ (serves_one out runs all_served) = (out, runs, refl, refl)

  module _ (writes : w.direction ≡ direction_out) (reads : r.direction ≡ direction_in)
      (small_w : Small io st card same_card no_adma site w)
      (small_r : Small io st card same_card no_adma site r) (from : w.block ≤ r.block)
      (upto : r.block + r.nblks ≤ w.block + w.nblks)
      (elsewhere : Every (Elsewhere io st card same_card no_adma site w) between) where
    delivered :
        (s : S) (log : Log) (end : S)
        → Serves io no_adma site (w ∷ between ++ r ∷ []) s log end
        → ReadsBack s log end
    unfolding ReadsBack
    delivered s _ end (serves_one {log = log} out runs rest) =
        let (log1, log2, mid, others, last, split) =
          Serves-append io no_adma site between (r ∷ []) out.state log end rest in
        let (out_r, runs_r, only, ended) = last_outcome r mid log2 end last in
        (
          out.completed,
          out_r.completed,
          log1,
          rw (split, only) refl,
          λ wrote read a h.
              let holds =
                Serves-keeps io no_adma site (Elsewhere io st card same_card no_adma site w)
                  (Holds io st card same_card no_adma site w
                    (memory_of io st card same_card no_adma site w.buffer s))
                  (Holds-kept io st card same_card no_adma site w
                    (memory_of io st card same_card no_adma site w.buffer s))
                  between out.state log1 mid others elsewhere
                  (write-Holds io st card same_card no_adma site w s out writes small_w runs
                    wrote) in
              let got =
                read_delivers io st card same_card no_adma site r mid out_r reads small_r runs_r
                  read a h in
              rw ended got
              ∙ Holds-within io st card same_card no_adma site w r
                  (memory_of io st card same_card no_adma site w.buffer s) mid from upto holds a h,
        )

    module _ (other : Ptr → List Task → S → List Task × S) (del_task : Task → List Task → List Task)
        (lock unlock : S → S) (del_task-head : (t : Task) (q : List Task) → del_task t (t ∷ q) ≡ q)
        (lock_keeps : (b : Ptr) (s : S) (a : ℕ) → (st b).memory (lock s) a ≡ (st b).memory s a)
        (unlock_keeps : (b : Ptr) (s : S) (a : ℕ)
          → (st b).memory (unlock s) a ≡ (st b).memory s a) where
      -- Over a card with a memory for each descriptor that behave as documented, for calls whose
      -- accepted requests are a write, any reads and any writes of other blocks, and a read of
      -- blocks that the first one wrote, each of blocks that an `int` counts and that its memory
      -- covers, where sdmmc_add_task() adds at the end, sdmmc_del_task() takes the first task off,
      -- and the lock leaves the memories alone: the task action, given a target and one round more
      -- than accepted requests, ends with the queue empty and has freed the tasks of the accepted
      -- requests; the log begins with the answer to the write and ends with the answer to the
      -- read; if the write and the read both report success, the memory of the read then holds the
      -- bytes that the memory of the write held at the start.
      pub read_back :
          (add_task : Task → List Task → List Task)
          → ((t : Task) (q : List Task) → add_task t q ≡ q ++ t ∷ [])
          → (calls : List Submission) (fuel : ℕ) (target : Ptr) (s : S) → target ≢ null
          → accepted add_task calls ≡ w ∷ between ++ r ∷ []
          → length (accepted add_task calls) < fuel
          → (log : Log) × (end : S) × (task_execute_one_impl
                (service io no_adma site other del_task lock unlock)
                fuel
                target
                (submit_all add_task calls [])
                (record { state = s; done = [] })
              ≡ some (record {
                queue = [];
                freed = map read_task (accepted add_task calls);
                state = record { state = end; done = log };
              }))
            × ReadsBack s log end
      unfolding ReadsBack
      read_back add_task tail calls fuel target s nz order enough =
          let (log, end, serves, e) =
            action-Serves io no_adma site other del_task lock unlock del_task-head add_task tail
              calls fuel target s nz enough in
          let (wrote, read, others, entries, back) =
            delivered (lock s) log end
              (subst (λ q. Serves io no_adma site q (lock s) log end) order serves) in
          (
            log,
            unlock end,
            e,
            (
              wrote,
              read,
              others,
              entries,
              λ p q a h. unlock_keeps r.buffer end a ∙ back p q a h ∙ lock_keeps w.buffer s _,
            ),
          )
