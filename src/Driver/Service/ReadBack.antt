-- ===== src/Driver/Service/ReadBack.antt =====
-- A write request and a later read request of Sinetek-rtsx/SDDisk.cpp to the same blocks.
pub mod Later
use sinetek_rtsx.Base.{
  ap, ◌-◌, ◌≤◌, ℕ, ◌+◌, ◌-◌, ◌*◌, ◌≤◌, ◌<◌, ◌≡◌, ◌≢◌, refl, sym, ◌∙◌, ◌⊎◌, inl, inr, Bool, true,
  false, Option, none, some, List, [], ◌∷◌, ◌++◌, map, arith, Ptr, null, is_null, Code, IoReturn,
  length, if◌then◌else◌, Bool-cases, is_enomem, subst,
}
use sinetek_rtsx.Disk.Io.{Io, Storage, direction_in, direction_out, block_size, within}
use sinetek_rtsx.Disk.Task.{BioArgs, Site, Outcome, some_null, completion_status, read_task_impl}
use sinetek_rtsx.Disk.Task.Rule.{Ends}
use sinetek_rtsx.Disk.Task.Laws.{Fits, ReadEnd, WriteEnd, read_task_read, read_task_write}
use sinetek_rtsx.Disk.Request.{Task, read_task}
use sinetek_rtsx.Driver.Tasks.{task_execute_one_impl}
use sinetek_rtsx.Driver.Service.{Log, service, Submission, submit_all, accepted, is_success}
use sinetek_rtsx.Driver.Service.Serves.{
  Serves, all_served, serves_one, of_outcome, Serves-append, action-Serves,
}
use sinetek_rtsx.Driver.Service.Buffers.{Every, Serves-keeps}

-- The completion routine was called with kIOReturnSuccess.
abbrev pub reported : Option (IoReturn × ℕ) → Bool
reported none = false
reported (some (status, count)) = is_success status

reported-completion_status :
    (no_action : Bool) (c : Code) (n : ℕ)
    → reported (if no_action then none else some (completion_status c n)) ≡ true
    → c ≡ none
unfolding completion_status
reported-completion_status no_action none n ok = refl
reported-completion_status no_action (some e) n ok = ground arith

module _ {S : Type 0} (io : Ptr → Io S) (st : (b : Ptr) → Storage (io b)) (card : S → ℕ → ℕ)
    (same_card : (b : Ptr) (s : S) (a : ℕ) → (st b).card s a ≡ card s a) (no_adma : Bool)
    (site : Site) where
  -- The memory of a descriptor.
  abbrev pub memory_of : Ptr → S → ℕ → ℕ
  memory_of b = (st b).memory

  -- A request that its memory and the card can hold.
  abbrev pub Small : BioArgs → Type 0
  Small args = Fits args (st args.buffer).size

  -- The card holds `content` in the blocks of a request.
  unfoldable pub Holds : BioArgs → (ℕ → ℕ) → S → Type 0
  Holds w content s = (a : ℕ) → a < w.nblks * 512 → card s (w.block * block_size + a) ≡ content a

  -- A request that has a null pointer on the way changes nothing and reports nothing.
  null_skips :
      (args : BioArgs) (s : S)
      → some_null args site ≡ true
      → read_task_impl (io args.buffer) no_adma site (some args) s
        ≡ some (record { completed = none; deleted = false; state = s })
  unfolding read_task_impl
  null_skips args s bad = rw (bad, read_task_impl) refl

  pub write-Holds :
      (w : BioArgs) (s : S) (out : Outcome S)
      → w.direction ≡ direction_out
      → Small w
      → read_task_impl (io w.buffer) no_adma site (some w) s ≡ some out
      → reported out.completed ≡ true
      → Holds w (memory_of w.buffer s) out.state
  unfolding Holds
  write-Holds w s out dir fits runs = elim (Bool-cases (some_null w site)) [
    | inl bad ↦
        of_outcome (λ o. reported o.completed ≡ true → Holds w (memory_of w.buffer s) o.state) _ out
          (null_skips w s bad) runs (λ ok. ground arith)
    | inr good ↦
        let (out', runs', ends) =
          read_task_write (io w.buffer) (st w.buffer) w s no_adma site dir fits good in
        of_outcome (λ o. reported o.completed ≡ true → Holds w (memory_of w.buffer s) o.state) out'
          out runs' runs
          (λ ok a h.
            let no_error = reported-completion_status _ ends.code _ (rw ends.completed at ok) in
            sym (same_card w.buffer out'.state _) ∙ ends.left.written no_error a h)
  ]

  pub read_delivers :
      (r : BioArgs) (s : S) (out : Outcome S)
      → r.direction ≡ direction_in
      → Small r
      → read_task_impl (io r.buffer) no_adma site (some r) s ≡ some out
      → reported out.completed ≡ true
      → (a : ℕ) → a < r.nblks * 512
      → memory_of r.buffer out.state a ≡ card s (r.block * block_size + a)
  read_delivers r s out dir fits runs = elim (Bool-cases (some_null r site)) [
    | inl bad ↦
        of_outcome
          (λ o.
            reported o.completed ≡ true
            → (a : ℕ) → a < r.nblks * 512
            → memory_of r.buffer o.state a ≡ card s (r.block * block_size + a))
          _ out (null_skips r s bad) runs (λ ok. ground arith)
    | inr good ↦
        let (out', runs', ends) =
          read_task_read (io r.buffer) (st r.buffer) r s no_adma site dir fits good in
        of_outcome
          (λ o.
            reported o.completed ≡ true
            → (a : ℕ) → a < r.nblks * 512
            → memory_of r.buffer o.state a ≡ card s (r.block * block_size + a))
          out' out runs' runs
          (λ ok a h.
            let no_error = reported-completion_status _ ends.code _ (rw ends.completed at ok) in
            ends.left.delivered no_error a h ∙ same_card r.buffer s _)
  ]

  -- A request that reads, or that writes other blocks than those of `w`.
  abbrev pub Elsewhere : BioArgs → BioArgs → Type 0
  Elsewhere w args =
      Small args
      × ((args.direction ≡ direction_in)
          ⊎ (args.direction ≡ direction_out)
            × ((args.block + args.nblks ≤ w.block) ⊎ (w.block + w.nblks ≤ args.block)))

  elsewhere_outside :
      (w args : BioArgs) (a : ℕ)
      → (args.block + args.nblks ≤ w.block) ⊎ (w.block + w.nblks ≤ args.block)
      → a < w.nblks * 512
      → within (args.block * block_size) (args.nblks * 512) (w.block * block_size + a) ≡ false
  elsewhere_outside w args a (inl before) h = ground arith
  elsewhere_outside w args a (inr behind) h = ground arith

  pub Holds-kept :
      (w : BioArgs) (content : ℕ → ℕ) (args : BioArgs) (s : S)
      → Elsewhere w args
      → Holds w content s
      → (out : Outcome S) × (read_task_impl (io args.buffer) no_adma site (some args) s ≡ some out)
        × Holds w content out.state
  unfolding Holds
  Holds-kept w content args s (fits, way) holds = elim (Bool-cases (some_null args site)) [
    | inl bad ↦ (_, null_skips args s bad, holds)
    | inr good ↦ elim way [
      | inl dir ↦
          let (out, runs, ends) =
            read_task_read (io args.buffer) (st args.buffer) args s no_adma site dir fits good in
          (
            out,
            runs,
            λ a h.
                sym (same_card args.buffer out.state _)
                ∙ ends.left.card_kept _
                ∙ same_card args.buffer s _
                ∙ holds a h,
          )
      | inr (dir, apart) ↦
          let (out, runs, ends) =
            read_task_write (io args.buffer) (st args.buffer) args s no_adma site dir fits good in
          (
            out,
            runs,
            λ a h.
                sym (same_card args.buffer out.state _)
                ∙ ends.left.outside _ (elsewhere_outside w args a apart h)
                ∙ same_card args.buffer s _
                ∙ holds a h,
          )
    ]
  ]

  -- What the card holds for a request, it holds for a request within it.
  pub Holds-within :
      (w r : BioArgs) (content : ℕ → ℕ) (s : S)
      → w.block ≤ r.block
      → r.block + r.nblks ≤ w.block + w.nblks
      → Holds w content s
      → (a : ℕ) → a < r.nblks * 512
      → card s (r.block * block_size + a) ≡ content ((r.block - w.block) * block_size + a)
  unfolding Holds
  Holds-within w r content s from upto holds a h =
      let offset = (r.block - w.block) * block_size + a in
      let where_r : r.block * block_size + a ≡ w.block * block_size + offset = omega arith in
      ap (card s) where_r ∙ holds offset (omega arith)
