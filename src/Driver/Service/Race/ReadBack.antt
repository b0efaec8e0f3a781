-- ===== src/Driver/Service/Race/ReadBack.antt =====
-- A write request and a later read request of Sinetek-rtsx/SDDisk.cpp to the same blocks, while
-- threads submit requests and the OpenBSD code adds tasks.
use sinetek_rtsx.Base.{
  ℕ, ◌+◌, ◌≤◌, ◌≡◌, ◌≢◌, refl, sym, ◌∙◌, ap, Bool, true, Option, some, List, [], ◌∷◌, ◌++◌, Ptr,
  IoReturn, subst, ◌⊎◌, inl, inr,
}
use sinetek_rtsx.Disk.Io.{Io, Storage, direction_in, direction_out}
use sinetek_rtsx.Disk.Task.{BioArgs, Site, Outcome, read_task_impl}
use sinetek_rtsx.Disk.Request.{Task}
use sinetek_rtsx.Driver.Service.{Log}
use sinetek_rtsx.Driver.Service.Serves.{of_outcome}
use sinetek_rtsx.Driver.Service.Buffers.{Every, Every-append}
use sinetek_rtsx.Driver.Service.ReadBack.{
  reported, memory_of, Small, Holds, write-Holds, read_delivers, Elsewhere, Holds-kept,
  Holds-within,
}
use sinetek_rtsx.Driver.Service.ReadBack.Later.{ReadsBack}
use sinetek_rtsx.Driver.Service.Race.{System, Reach, Works}
use sinetek_rtsx.Driver.Service.Race.Drain.{drains}
use sinetek_rtsx.Driver.Service.Race.Order.{
  Ran, none_ran, then_other, then_request, requests, requests-other, requests-request,
}

-- A list that ends is not empty, and its end is its own.
append-last {ℓ} :
    {A : Type ℓ} (xs ys : List A) (a b : A) → xs ++ a ∷ [] ≡ ys ++ b ∷ [] → (xs ≡ ys) × (a ≡ b)
append-last [] [] a b e = (refl, cc)
append-last [] (y ∷ []) a b e = absurd (cc)
append-last [] (y ∷ z ∷ ys) a b e = absurd (cc)
append-last (x ∷ []) [] a b e = absurd (cc)
append-last (x ∷ z ∷ xs) [] a b e = absurd (cc)
append-last (x ∷ xs) (y ∷ ys) a b e =
    let tails : xs ++ a ∷ [] ≡ ys ++ b ∷ [] = cc in
    let (same, last) = append-last xs ys a b tails in (cc (e, same), last)

append_last-ne-nil {ℓ} : {A : Type ℓ} (xs : List A) (a : A) → xs ++ a ∷ [] ≢ []
append_last-ne-nil [] a e = absurd (cc)
append_last-ne-nil (x ∷ xs) a e = absurd (cc)

append_last_cases {ℓ} :
    {A : Type ℓ} (xs : List A) (a w : A) (done : List A)
    → xs ++ a ∷ [] ≡ w ∷ done
    → (xs ≡ []) × (a ≡ w) ⊎ ((rest : List A) × (xs ≡ w ∷ rest) × (done ≡ rest ++ a ∷ []))
append_last_cases [] a w done e = inl (refl, cc)
append_last_cases (x ∷ rest) a w done e = inr (rest, cc, cc)

module _ {S : Type 0} (io : Ptr → Io S) (st : (b : Ptr) → Storage (io b)) (card : S → ℕ → ℕ)
    (same_card : (b : Ptr) (s : S) (a : ℕ) → (st b).card s a ≡ card s a) (no_adma : Bool)
    (site : Site) (other : Ptr → S → S)
    (card_kept : (p : Ptr) (s : S) (a : ℕ) → card (other p s) a ≡ card s a)
    (memory_kept : (b p : Ptr) (s : S) (a : ℕ) → (st b).memory (other p s) a ≡ (st b).memory s a)
    (add_task : Task → List Task → List Task) (del_task : Task → List Task → List Task)
    (tail : (t : Task) (q : List Task) → add_task t q ≡ q ++ t ∷ [])
    (head : (t : Task) (q : List Task) → del_task t (t ∷ q) ≡ q) where
  abbrev RanSo : S → List Task → Log → S → Type 0
  RanSo = Ran io no_adma site other add_task del_task tail head

  -- Before the first request, the memories are as they were.
  before_requests :
      (b : Ptr) (s : S) (ran : List Task) (log : Log) (t : S)
      → RanSo s ran log t
      → requests ran ≡ []
      → (log ≡ []) × ((a : ℕ) → (st b).memory t a ≡ (st b).memory s a)
  before_requests b s _ _ _ none_ran none_yet = (refl, λ a. refl)
  before_requests b s _ log _ (then_other {before = before} {t = t} p r) none_yet =
      let (nothing, same) =
        before_requests b s before log t r (sym (requests-other before p) ∙ none_yet) in
      (nothing, λ a. memory_kept b p t a ∙ same a)
  before_requests b s _ _ _ (then_request {before = before} args out r runs) some_one =
      absurd
        (append_last-ne-nil (requests before) args (sym (requests-request before args) ∙ some_one))

  module _ (w : BioArgs) (writes : w.direction ≡ direction_out)
      (small_w : Small io st card same_card no_adma site w) where
    -- The answer to the write stands first, and if it is a success, the card holds what it wrote.
    Wrote : S → Log → S → Type 0
    Wrote s log t =
        (wrote : Option (IoReturn × ℕ)) × (others : Log) × (log ≡ (w.completion, wrote) ∷ others)
        × (reported wrote ≡ true
            → Holds io st card same_card no_adma site w
                (memory_of io st card same_card no_adma site w.buffer s) t)

    -- The write runs first.
    first_write :
        (s : S) (ran : List Task) (log : Log) (t : S) (out : Outcome S)
        → RanSo s ran log t
        → requests ran ≡ []
        → read_task_impl (io w.buffer) no_adma site (some w) t ≡ some out
        → Wrote s (log ++ (w.completion, out.completed) ∷ []) out.state
    unfolding Wrote Holds
    first_write s ran log t out r none_yet runs =
        let (nothing, same) = before_requests w.buffer s ran log t r none_yet in
        (
          out.completed,
          [],
          rw nothing refl,
          λ ok a h.
              write-Holds io st card same_card no_adma site w t out writes small_w runs ok a h
              ∙ same a,
        )

    after_write :
        (s : S) (ran : List Task) (log : Log) (t : S) (done : List BioArgs)
        → RanSo s ran log t
        → requests ran ≡ w ∷ done
        → Every (Elsewhere io st card same_card no_adma site w) done
        → Wrote s log t
    unfolding Wrote Holds
    after_write s _ _ _ done none_ran e elsewhere = absurd (cc)
    after_write s _ log _ done (then_other {before = before} {t = t} p r) e elsewhere =
        let (wrote, others, entries, holds) =
          after_write s before log t done r (sym (requests-other before p) ∙ e) elsewhere in
        (wrote, others, entries, λ ok a h. card_kept p t _ ∙ holds ok a h)
    after_write s _ _ _ done (then_request {before = before} {log = log} {t = t} args out r runs) e
          elsewhere =
        elim (append_last_cases (requests before) args w done
          (sym (requests-request before args) ∙ e)) [
            | inl (none_yet, same) ↦
                let runs_w =
                  subst (λ x. read_task_impl (io x.buffer) no_adma site (some x) t ≡ some out) same
                    runs in
                rw same (first_write s before log t out r none_yet runs_w)
            | inr (rest, so_far, last) ↦
                let (fine, here) =
                  Every-append (Elsewhere io st card same_card no_adma site w) rest args (
                    subst (Every (Elsewhere io st card same_card no_adma site w)) last elsewhere) in
                let (wrote, others, entries, holds) =
                  after_write s before log t rest r so_far fine in
                let content = memory_of io st card same_card no_adma site w.buffer s in
                (
                  wrote,
                  others ++ (args.completion, out.completed) ∷ [],
                  rw entries refl,
                  λ ok a h.
                      let (out', runs', kept) =
                        Holds-kept io st card same_card no_adma site w content args t here
                          (holds ok) in
                      of_outcome (λ o. Holds io st card same_card no_adma site w content o.state)
                        out' out runs' runs kept a h,
                )
          ]

    module _ (r : BioArgs) (between : List BioArgs) (reads : r.direction ≡ direction_in)
        (small_r : Small io st card same_card no_adma site r) (from : w.block ≤ r.block)
        (upto : r.block + r.nblks ≤ w.block + w.nblks)
        (elsewhere : Every (Elsewhere io st card same_card no_adma site w) between) where
      abbrev Back : S → Log → S → Type 0
      Back = ReadsBack io st card same_card no_adma site w r between

      after_read :
          (s : S) (ran : List Task) (log : Log) (t : S)
          → RanSo s ran log t
          → requests ran ≡ w ∷ between ++ r ∷ []
          → Back s log t
      unfolding ReadsBack Wrote
      after_read s _ _ _ none_ran e = absurd (cc)
      after_read s _ log _ (then_other {before = before} {t = t} p ran) e =
          let (wrote, read, others, entries, back) =
            after_read s before log t ran (sym (requests-other before p) ∙ e) in
          (
            wrote,
            read,
            others,
            entries,
            λ ok fine a h. memory_kept r.buffer p t a ∙ back ok fine a h,
          )
      after_read s _ _ _ (then_request {before = before} {log = log} {t = t} args out ran runs) e =
          let (so_far, same) =
            append-last (requests before) (w ∷ between) args r
              (sym (requests-request before args) ∙ e) in
          let runs_r =
            subst (λ x. read_task_impl (io x.buffer) no_adma site (some x) t ≡ some out) same
              runs in
          let (wrote, others, entries, holds) =
            after_write s before log t between ran so_far elsewhere in
          (
            wrote,
            out.completed,
            others,
            ap (λ x. log ++ (x.completion, out.completed) ∷ []) same
                ∙ ap (λ l. l ++ (r.completion, out.completed) ∷ []) entries,
            λ ok fine a h.
                read_delivers io st card same_card no_adma site r t out reads small_r runs_r fine a
                  h
                ∙ Holds-within io st card same_card no_adma site w r
                    (memory_of io st card same_card no_adma site w.buffer s) t from upto (holds ok)
                    a h,
          )

      -- Over a card with a memory for each descriptor that behave as documented, where the tasks
      -- of the OpenBSD code leave the card and the memories alone, sdmmc_add_task() adds at the
      -- end and sdmmc_del_task() takes the first task off: from every state that an interleaving
      -- of requests, such tasks and the worker comes to, and in which the accepted requests are a
      -- write, any reads and any writes of other blocks, and a read of blocks that the first one
      -- wrote, each of blocks that an `int` counts and that its memory covers, the worker alone
      -- comes to an empty queue; the log then begins with the answer to the write and ends with
      -- the answer to the read, and if both are a success, the memory of the read holds the bytes
      -- that the memory of the write held at the start.
      pub drains-ReadsBack :
          (s : S) (t : System S)
          → Reach io no_adma site other add_task del_task s t
          → t.accepted ≡ w ∷ between ++ r ∷ []
          → (u : System S) × Works io no_adma site other add_task del_task t u
            × (u.queue ≡ [])
            × ReadsBack io st card same_card no_adma site w r between s u.served.done u.served.state
      drains-ReadsBack s t reach accepted =
          let (u, before, works, empty, run_so, answered, all, free_all) =
            drains io no_adma site other add_task del_task tail head s t reach in
          (
            u,
            works,
            empty,
            after_read s before u.served.done u.served.state run_so (all ∙ accepted),
          )
