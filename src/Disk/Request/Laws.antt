-- ===== src/Disk/Request/Laws.antt =====
-- doAsyncReadWrite() of Sinetek-rtsx/SDDisk.cpp: which requests are queued, and what for.
use sinetek_rtsx.Base.{
  Ptr, refl, ◌≢◌, Option, none, some, inl, inr, ◌+◌, ◌%◌, ◌^◌, ◌≤◌, ◌<◌, ◌≡◌, ◌↔◌, ◌⊎◌, Bool, true,
  false, arith, IoReturn, kio_success,
}
use sinetek_rtsx.Disk.Io.{direction_in, direction_out}
use sinetek_rtsx.Disk.Task.{BioArgs}
use sinetek_rtsx.Disk.Request.{
  Task, read_task, Request, DiskView, fill_args, or_else, do_async_read_write,
}

-- What a task is to do: the request itself, for the object `this`. What the caller left
-- out may be anything.
pub record Carries (this : Ptr) (r : Request) (args : BioArgs) : Type 0 where
  pub buffer : args.buffer ≡ r.buffer
  pub direction : args.direction ≡ r.direction
  pub block : args.block ≡ r.block
  pub nblks : args.nblks ≡ r.nblks
  pub attributes : (r.attributes ≡ none) ⊎ (r.attributes ≡ some args.attributes)
  pub completion : (r.completion ≡ none) ⊎ (r.completion ≡ some args.completion)
  pub that : args.that ≡ this

given_or_not :
    {A : Type 0} (given : Option A) (d : A) → (given ≡ none) ⊎ (given ≡ some (or_else given d))
given_or_not none d = inl refl
given_or_not (some a) d = inr refl

module _ {Q : Type 0} (add_task : Task → Q → Q) (d : DiskView) (allocated : Bool) (fresh : BioArgs)
    (r : Request) (q : Q) where
  abbrev pub Directed : Type 0
  Directed =
      (r.direction ≡ direction_in) ⊎ ((r.direction ≡ direction_out) × (d.write_enabled ≡ true))

  -- doAsyncReadWrite() succeeds if and only if the device is active, the request reads, or writes
  -- to a driver that may write, its end as 64 bits count it is at most the number of blocks, and a
  -- task could be allocated.
  pub do_async-accepts : ((do_async_read_write add_task d allocated fresh r q).0 ≡ kio_success) ↔ (
      (d.inactive ≡ false)
      × Directed
      × ((r.block + r.nblks) % 2 ^ 64 ≤ d.num_blocks)
      × (allocated ≡ true))
  unfolding do_async_read_write
  do_async-accepts = (λ h. ground arith, λ h. ground arith)

  -- The answer and the queue after the call: a task for a request that lies on the card, unless its
  -- end overflows 64 bits, or the queue as it was.
  abbrev pub Queues : IoReturn × Q → Type 0
  Queues out =
      ((out.0 ≡ kio_success)
        × (args : BioArgs) × (out.1 ≡ add_task (read_task args) q)
        × Carries d.this r args
        × ((args.block + args.nblks ≤ d.num_blocks) ⊎ (2 ^ 64 ≤ args.block + args.nblks)))
      ⊎ ((out.0 ≢ kio_success) × (out.1 ≡ q))

  queued_or_refused :
      (((do_async_read_write add_task d allocated fresh r q).0 ≡ kio_success)
        × ((do_async_read_write add_task d allocated fresh r q).1
            ≡ add_task (read_task (fill_args fresh d.this r)) q)
        × ((r.block + r.nblks ≤ d.num_blocks) ⊎ (2 ^ 64 ≤ r.block + r.nblks)))
      ⊎ (((do_async_read_write add_task d allocated fresh r q).0 ≢ kio_success)
          × ((do_async_read_write add_task d allocated fresh r q).1 ≡ q))
  unfolding do_async_read_write
  queued_or_refused = ground arith

  -- A call of doAsyncReadWrite() either succeeds and adds one task to the queue, whose arguments
  -- carry the memory, the direction, the first block, the number of blocks, the attributes and the
  -- completion routine, where they are given, and the object of the call, and whose blocks lie on
  -- the card, unless their end overflows 64 bits; or it fails and leaves the queue as it was.
  pub do_async-queue : Queues (do_async_read_write add_task d allocated fresh r q)
  unfolding fill_args
  do_async-queue = elim (queued_or_refused) [
    | inl (ok, queued, within) ↦ inl (
      ok,
      fill_args fresh d.this r,
      queued,
      record {
        buffer = refl;
        direction = refl;
        block = refl;
        nblks = refl;
        attributes = given_or_not r.attributes fresh.attributes;
        completion = given_or_not r.completion fresh.completion;
        that = refl;
      },
      within,
    )
    | inr refused ↦ inr refused
  ]

  -- By an active device, and with a task allocated, a read whose end wraps around 64 bits to at
  -- most the number of blocks is accepted, although it lies beyond the card.
  pub do_async-wraps :
      d.inactive ≡ false
      → allocated ≡ true
      → r.direction ≡ direction_in
      → d.num_blocks < 2 ^ 32
      → 2 ^ 64 ≤ r.block + r.nblks
      → r.block + r.nblks ≤ 2 ^ 64 + d.num_blocks
      → ((do_async_read_write add_task d allocated fresh r q).0 ≡ kio_success)
        × (d.num_blocks < r.block + r.nblks)
  unfolding do_async_read_write
  do_async-wraps active got dir cards over near =
      let wrapped : (r.block + r.nblks) % 2 ^ 64 ≤ d.num_blocks = omega arith in
      (ground arith, omega arith)
