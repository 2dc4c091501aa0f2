-- ===== src/Lib.antt =====
-- A model of the Tomato exokernel: the parts of its core that decide something, with the theorems that
-- make them correct. Paths are from the repository's root.
--
-- Base holds what the parts share: tests, lists, 64-bit words, sums over the cores, the status codes of
-- include/tomato/err.h, and `Run`, the result of code that may fail an `ASSERT` of
-- src/lib/assert.h and stop.
--
-- Mem.Accounting is src/mem/accounting.c: the four page counters as a record, and each `mem_acct_`
-- function by its name. Mem.Accounting.Interleaved runs them on several cores, one atomic access at a
-- time.
--
-- Mem.Phys is src/mem/phys.c: the buddy allocator with its bitmap, the level in the header of each free
-- block, one free list per level, and the counters of Mem.Accounting, which an allocation commits to and
-- a free gives back to. Addresses are numbers. The loops run on fuel: the number of
-- levels for the searches, which is at most 16, and the number of pages of the range for
-- `phys_add_memory`.
--
-- Mem.Vmar is src/mem/vmar.c and vmar.h: the vmars as a store of records with a number for each, and the
-- functions by their names. The red-black tree of a region's children is the sequence of its nodes, and
-- the searches in it are an argument, `Tree`, as are the operations of src/mem/virt.c and the allocator
-- of vmars, `Services`. Mem.Vmar.Place has the search for a place and the operations that create or find
-- a vmar, Mem.Vmar.Unmap those that walk down a tree of vmars; their fuel is the depth of the tree. The
-- greatest gap of a subtree (`max_gap`), with its test in `vmar_find_gap`, belongs to the tree.
--
-- Mem.Virt is src/mem/virt.c: the page tables as the words of the direct map, with the operations of
-- src/mem/phys.c and accounting.c as an argument, `Frames`, and what another core stores during a walk as
-- another, `race`. Mem.Virt.Fault is the page-fault handler, with the vmars of Mem.Vmar, for which it
-- fills in `Services` with the operations of Mem.Virt. Mem.Virt.Kernel fills in `Frames` with Mem.Phys and
-- Mem.Accounting. The loops run as often as there are levels or
-- pages.
--
-- Mem.Stack is src/mem/stack.c: a stack between its two guard pages, over the vmars.
--
-- Boot is src/boot. For virt.c, Boot.Early is the allocator of single pages and its handover, over the
-- memory map as a list, and Boot.Tables the first page tables, in the words of Mem.Virt. Boot.Cores is
-- the numbering of the cores in entry.c, Boot.Segments gdt.c with src/arch/gdt.h, and Boot.Setup the
-- random numbers, the required features, the first regions and the locals of the cores.
--
-- Irq is src/irq: the interrupt flag and the GS bases of a core, the table of the interrupt gates
-- (Irq.Idt), the report of an exception (Irq.Panic), the handlers (Irq.Exceptions), and the page-fault
-- handler (Irq.Fault), which calls that of Mem.Virt. The addresses of the handlers are an argument, since
-- the linker places them, and a printed line is a constructor with its values.
--
-- Mem.Alloc is src/mem/alloc.c and alloc.h: the slabs by their addresses, the three lists of the
-- allocator, and the bytes of the objects. The pages come from an argument, `Pages`. A slab is carved in
-- as many rounds as it has objects.
--
-- Strings is src/lib/string.c: `memcpy`, `memset` and `memmove` on a memory of bytes.
--
-- Sched is src/thread: the scheduler of one core with its run queue, by the names of sched.c, runq.c and
-- thread.c. A switch of stacks is the change of the current thread; both places where the new thread can
-- go on begin with `scheduler_after_schedule`, which the model runs next. Sched.Frames is the switch
-- itself, thread.S, on registers and words of memory, and Sched.Threads the creation of a thread with its
-- stack and entry frame.
--
-- Format is src/lib/snprintf.c: `kvsnprintf` with its state machine over the format, and the number
-- conversions in Format.Digits. The argument list is a list of values.
--
-- Sync is src/sync: Sync.Locks has the operations of mutex.h and rwlock.h on the state word,
-- Sync.Rwlock runs those of the read-write lock on several threads, and Sync.Spinlock those of the
-- interrupt lock of spinlock.h on several cores.
--
-- Not modelled: the greatest gaps of the subtrees (`max_gap`) and their propagation, the local interrupt
-- controller (src/irq/apic.c), which is writes of device registers, the output of src/lib/trace.c, the
-- vmars of the kernel image as initialised data (src/mem/mapping.c), the protocol header of the
-- bootloader, and the copies of the lists and trees of Linux in src/lib, which the
-- parts see as the sequences of their nodes.
pub mod Base
pub mod Boot
pub mod Format
pub mod Irq
pub mod Mem
pub mod Sched
pub mod Strings
pub mod Sync
