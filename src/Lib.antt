-- ===== src/Lib.antt =====
-- A model of RikaiOS, a small 32-bit kernel, and of what its core is meant to do.
--
-- Parts, and the files of the repository that each models:
--   Process: the scheduler of src/kernel/src/process/proc.cc. A thread is a record at a number, its
--     address; the links prev_ready and next_ready are `Option ℕ`, and every write to a thread is
--     written out. Process/Links says when those links form a queue, Process/ReadyQueue proves what
--     enqueue, dequeue and unblock do to it, Process/RoundRobin what the dispatcher does, and
--     Process/Userspace what resuming userspace does. Switching stacks and address spaces is assembly
--     and is left out: `dispatch` ends where the thread would be entered.
--   Memory/Heap: the kernel heap of src/kernel/src/memory/kernel-heap.cc: init, alloc and free with
--     their counters and checks. The doubly linked list of nodes is the list of its nodes, in order,
--     so the writes to `prev` and `next` are insertions and removals; a function that works at a node
--     has the nodes before it and those behind it. A failed check is the outcome `panic`. What is in
--     the allocated bytes is not modelled; alloc returns how many it clears. A pointer that belongs
--     to no node is taken to lead to memory without a valid sentinel. The start and the end of the
--     heap are arguments, since the linker script sets them.
--     Memory/Heap/Shape has the order of the nodes and Sums what the counters stand for; Merge, Tidy and
--     Release lead to Free; Rest, Split, Moved, Take, Settle and AllocAt to AllocValid.
--   Queue: the ring buffer of src/kernel/include/os-std/queue.hh; a cell is an item or `none`. Queue/Ring
--     says where an index is after some steps, Queue/Fifo compares the queue with a list.
--   Ipc: the semaphores of src/kernel/src/ipc/semaphore.cc over Process and Queue, with yield, block and
--     thread_by_tid of proc.cc. The processes are a list of the lists of their threads. Ipc/Signal and
--     Ipc/Wait compare the operations with a list of waiting numbers, Ipc/Settled has the invariant.
--   Vfs: the functions on paths of src/kernel/src/filesystem/vfs.cc, with the operations of
--     src/kernel/include/os-std/string.hh that they call (Vfs/Path). A string is the list of its
--     characters, and what does not fit is cut off as there. Vfs/Render has paths as stacks of names,
--     Vfs/Canonical and Vfs/Basename say what canonicalise_path and basename do to them.
--   Vfs/Lookup: get_mount, lookup and get_inode of vfs.cc, over filesystems whose answers are parameters.
--     Vfs/Lookup/Walk compares them with a walk along the names of the path.
--   Vfs/Table: the tables of open files and handles of vfs.cc, with duplicate_fd, close and
--     transplant_fd. Handles and files in memory are total stores, and the result of `new` is an
--     argument. Vfs/Table/Fresh has the numbers that are found, Vfs/Table/Duplicate what a copy does,
--     and Vfs/Table/Failure what an error leaves.
--   Fat: src/kernel/src/filesystem/fat32.cc over a device whose reads and writes are parameters. A block is
--     a function from offsets to bytes; the caches are those of the code. Fat/Cached says when they hold
--     blocks of the disk, Fat/Chain follows the table, Fat/Blocks and Fat/Read prove what read gives;
--     Fat/Write and Fat/Writes have write, and Fat/Mount the checks of the boot record, whose fields are
--     taken as decoded. The locks are left out.
--   Vfs/Open: open of vfs.cc over Vfs/Lookup and Vfs/Table; what `new` returns is an argument here too.
--     Vfs/Open/Close has open followed by close, Vfs/Open/Refused the errors.
--   Vfs/Mount: mount of vfs.cc, where whether `new` gives memory is an argument.
--   Vfs/Io: read and write of vfs.cc at a handle, over what a filesystem answers, and read_all of vfs.hh, which
--     takes a round for each byte and one more; only the number of bytes is modelled, not their values.
--   Bitset: src/kernel/include/os-std/bitset.hh with the bit functions of math.hh. A word is the function
--     from the number of a bit to the bit. Bitset/Range proves what set_range does.
--   Memory/Physical: src/kernel/src/memory/manager-physical.cc over Bitset: allocate_one and free_one
--     (Memory/Physical/Search and Allocate), and init from the memory map (Memory/Physical/Init). The
--     end of the kernel, which the linker script sets, is an argument. The bitmap has no end here, where
--     that of the code has 2 ^ 20 bits.
--   Memory/Virtual: src/kernel/src/memory/manager-virtual.cc once paging is enabled. The state has the
--     current page directory, the current recursive table, which is the page at which the directory
--     points for the table of page tables, and the words of all other pages of physical memory that hold
--     page tables, so two tables at one page would be the same. Switching to a directory stores the
--     recursive table in its page and takes that of the directory from its page. The words of a directory
--     lie apart from these pages, and what map and unmap write at an address in the window itself is not seen
--     in the recursive table. Entries are numbers with the bits of Memory/Virtual/Entry. The cache of the
--     processor is left out, and the results of the allocations of make_address_space are arguments.
--     Translation says what an address is translated to through the window, Map, Unmap, Mapped and Spaces
--     what the functions do to that. Walk says what the processor finds from the directory, Switch and
--     Delete what making, switching to and deleting an address space do to that; Freed has the loops of
--     the deletion, whose heap objects are left out.
--   Memory/Region and Memory/Layout: src/kernel/src/memory/region.hh and layout.cc, on words that wrap.
--   Math: src/kernel/include/os-std/math.hh at the type u32.
--   Base: tests on numbers, lists, predicates on lists, and the arithmetic of 32-bit words.
--
-- The components meet where the code calls across them: a semaphore keeps its waiting threads in a
-- Queue and blocks and wakes them by the functions of Process; the heap rounds by Math.align_up, and the
-- regions of the layout are those of Memory/Region.
--
-- Numbers: a u32, size_t or addr_t is a natural number below 2 ^ 32, and its arithmetic wraps
-- (Base/Words). Loops over lists are structural; the loop of logn takes 33 rounds of fuel, one
-- more than a word has bits; the loops of signal and signal_all take one round more than the 32
-- numbers that wait at most; set_range has a round for each bit, find_next_free_page one for each
-- word that is left, lookup one for each character of the path, and read and write of a FAT file one
-- for each byte and one more.
--
-- Not modelled: the start of paging and the registers of the processor, creating and deleting processes,
-- pipes, reading directories, seeking, the device filesystem, system calls and drivers, the boot
-- loader and the user programs.
pub mod Base
pub mod Math
pub mod Process
pub mod Memory
pub mod Queue
pub mod Fat
pub mod Ipc
pub mod Vfs
pub mod Bitset
