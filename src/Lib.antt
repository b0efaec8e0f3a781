-- ===== src/Lib.antt =====
-- Verification of the Sinetek-rtsx kernel extension, which lets macOS use Realtek card readers through
-- OpenBSD's rtsx driver. IOBlockStorageDriver calls the nub SDDisk; the nub queues each request as an
-- sdmmc task; the task moves the blocks between the card and the memory of the request, through a DMA
-- buffer that the compatibility layer provides over IOKit.
--
-- The files:
--   Base: numbers, lists, Boolean tests, pointers as numbers, and return codes.
--   Dict: Sinetek-rtsx/util_dict.h. StaticDictionary is a record of two lists of ARRAY_SIZE entries;
--     getFreeSlot, findKey, addToList, removeFromList and getValueFromList are functions on it. Dict/Calls:
--     sequences of calls, beside those on a map. Dict/Race: the same calls as steps of threads, where
--     what runs outside the lock interleaves; Race/Bound on what additions and look-ups leave bound.
--   Retry: UTL_RUN_WITH_RETRY of Sinetek-rtsx/util.h, for any call that changes a state.
--   Disk/Io: what read_task_impl_() calls, as a record of functions on a state, and the documented
--     behaviour of these functions, as a record of laws. Disk/Transfer: the loop of read_task_impl_()
--     in Sinetek-rtsx/SDDisk.cpp. Disk/Task: the function as a whole. Disk/Buffered: the
--     same over the DMA buffer of Dma/Mapping. Disk/Request: doAsyncReadWrite(). Disk/Nub: the other
--     methods of SDDisk. Disk/Debug: its strings, and its overrides in debug builds.
--   Dma/Alloc, Dma/Load, Dma/Mapping: Sinetek-rtsx/compat/openbsd/dma.cpp, and dma_alloc() and
--     dma_free() of Sinetek-rtsx/SDDisk.cpp. Held and Mem count the IOKit objects on which the module
--     holds a reference. Dma/Segments: bufferNSegments() and dumpBuffer() of Sinetek-rtsx/util.h,
--     in debug builds and in others.
--   Driver/Tasks: the task loop of Sinetek-rtsx/Sinetek_rtsx.cpp, over the queue that Disk/Request
--     fills. Driver/Interrupts: its interrupt filter and findMSI(). Driver/Storage: its
--     blk_attach(), blk_detach() and setPowerState(). Driver/Owner:
--     Sinetek-rtsx/compat/openbsd.cpp. Driver/Autoconf: Sinetek-rtsx/compat/openbsd/config.cpp.
--     Autoconf/Search: which entry its config_search() finds.
--     Driver/Registers: what it reads of the device. Driver/Life: init(), free(), start(), stop() and
--     the set-up of the PCI device; Objects counts what the driver has made and not given back.
--     Driver/Service: the requests of Disk/Request, run by the task loop as tasks of Disk/Task, each
--     over the calls that its memory descriptor has, and, in Service/Buffers, of Disk/Buffered.
--     Service/Queued: what stands in the queue. Service/Serves: requests one after another.
--     Service/ReadBack: a write request and a later read request.
--     Driver/Service/Race: the same a step at a time, while threads submit requests. No code arms the
--     timer of the task action; the OpenBSD task thread runs the queue in the same steps, but for the
--     last, which frees the task. Race/ReadBack: a write and a later read among them.
--     Race/Success and Disk/Task/Success: a card that recovers within the retries; Race/Dma and
--     Disk/Buffered/Success: the same over dma.cpp.
--   Compat: Sinetek-rtsx/compat/openbsd, file by file: Spl and Sleep (spl.cpp, tsleep.cpp; Spl/Race as
--     steps of threads, with Spl/Waking on those that sleep), Thread (kthread.cpp), RwLock (rwlock.cpp)
--     and BusSpace (bus_space.cpp).
--   Tests: the definitions and the theorems at concrete inputs.
--
-- Correspondence: names are the source's in snake case. An `int` result is `Code`, whose `none` is 0; a
-- pointer is a number, and null is 0. Machine integers are natural numbers with the wrap-around written
-- out: 64 bits for byte counts and block numbers, 32 bits for `int blocks` and the fields of SDDisk.
-- UTL_CHK_PTR is the test of its pointer. Logging is left out.
--
-- Fuel: the transfer loop has a round for each 128 KiB and two more, as many as it can make; the loop
-- of bus_dmamem_alloc() has one round for each byte and one more, since each segment has at least one
-- byte; the task loop takes fuel for the weight of the queue, where a task outweighs the tasks it adds,
-- and findMSI() for the interrupts of the device. Where fuel would run out, the result is `none`.
--
-- Threads: Dict/Race, Compat/Spl/Race and Driver/Service/Race are step relations with one shared access
-- to a step, in sequential consistency. Tasks run in one step, since only the worker touches the card
-- and the buffers. Sections of splbio() nest, and a thread may sleep in them; a sleep ends by a call of
-- wakeup() for its identifier, or at its deadline.
--
-- Not modelled: the vendored OpenBSD and Linux sources, whose calls are parameters; IOKit, likewise;
-- logging; the paths of RTSX_USE_IOCOMMANDGATE, which no build defines.
mod Base
pub mod Dict
pub mod Retry
pub mod Disk
pub mod Dma
pub mod Driver
pub mod Compat
mod Tests
