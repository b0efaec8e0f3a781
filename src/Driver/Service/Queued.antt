-- ===== src/Driver/Service/Queued.antt =====
-- What calls of doAsyncReadWrite() in Sinetek-rtsx/SDDisk.cpp leave in the queue.
use sinetek_rtsx.Base.{
  ◌≡◌, refl, sym, ◌∙◌, List, [], ◌∷◌, ◌++◌, map, arith, if◌then◌else◌, Bool-cases, inl, inr,
}
use mathlib.Core.List.{append_assoc, append-nil}
use sinetek_rtsx.Disk.Request.{Task, read_task, fill_args, do_async_read_write}
use sinetek_rtsx.Driver.Service.{Submission, is_success, submit, submit_all, accepted}

-- The queue after the calls: the accepted requests at the end, in order.
module _ (add_task : Task → List Task → List Task)
    (tail : (t : Task) (q : List Task) → add_task t q ≡ q ++ t ∷ []) where
  pub submit_lem :
      (x : Submission) (q : List Task)
      → (submit add_task x q).1
        ≡ q
          ++ (if is_success (submit add_task x []).0
              then read_task (fill_args x.fresh x.view.this x.request) ∷ []
              else [])
  unfolding do_async_read_write
  submit_lem x q =
      ground (arith, tail (read_task (fill_args x.fresh x.view.this x.request)) q, append-nil q)

  pub submit_all-accepted :
      (calls : List Submission) (q : List Task)
      → submit_all add_task calls q ≡ q ++ map read_task (accepted add_task calls)
  unfolding submit_all
  submit_all-accepted [] q = sym (append-nil q)
  submit_all-accepted (x ∷ calls) q =
      let tasks = map read_task (accepted add_task calls) in
      let task = read_task (fill_args x.fresh x.view.this x.request) in
      submit_all-accepted calls (submit add_task x q).1
      ∙ elim (Bool-cases (is_success (submit add_task x []).0)) [
        | inl yes_queued ↦ rw (submit_lem x q, yes_queued) (append_assoc q (task ∷ []) tasks)
        | inr refused ↦ rw (submit_lem x q, refused, append-nil q) refl
      ]
