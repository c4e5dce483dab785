-- ===== src/Lib.antt =====
-- A verification library for the PlenjOS kernel and the user programs beside it. Paths are from the
-- repository's root.
--
-- The parts, and the files that model them:
--   - Lock (src/lib/lock.c): the readers-writer lock, one step for each atomic access, and the runs of
--     any number of threads as a step relation. Mutexes are not modelled.
--   - Kheap (src/memory/kmalloc.c): the kernel heap as a store of segment headers that are linked by
--     addresses, and its abstract view as a sequence of blocks; Kheap/Bump has the allocators that serve
--     before paging. Every function of the heap runs under one mutex, so each is one step. The walk over
--     the chain takes fuel, and more fuel than segments is enough. Mapping a page is a call that is
--     recorded.
--   - Malloc (usr/libc/src/stdlib/alloc.c): the heap of a process, as the list of its segments in the
--     order of the chain. The bytes are not kept, and `mmap` does not fail.
--   - UserBuffer (src/syscall/syscall_helpers.c): copies between the kernel and the buffers of a process,
--     through a page table that is a function from addresses. A copy of `count` bytes takes at most
--     `count` rounds. The strings of a process are not modelled.
--   - Paths (src/syscall/syscall_helpers.c): `collapse_path` and `handle_relative_path` on lists of bytes.
--     Each round of the loop takes at least a byte, so the path's length is fuel enough. Allocation
--     succeeds, no pointer is NULL, and paths are shorter than PATH_MAX.
--   - Frames (src/memory/mm_phys.c, src/memory/detect.h): the map of page frames with its free list,
--     linked by indices, and the lock around it.
--   - Paging (src/memory/mm_page.c, src/memory/mm_virt.c): the page tables of all address spaces, named by
--     their frames, and the walks that find, make and map pages. The free frames are a list, which Frames justifies; the TLB
--     is left out. The proofs give each table a level, and every entry leads one level down.
--   - Memmap (src/syscall/mem/memmap.c): mapping memory for a process and taking rights away, page by
--     page, on Paging. A range that ends inside the last page of all addresses is left out.
--   - Scheduler (src/proc/scheduler.c): the queue of ready threads, linked through the threads, and the
--     ring of kernel tasks, over the circular arrays of Ring. The walk over the queue takes fuel, and the
--     number of threads before the one looked for is enough.
--   - Pit (src/timer/pit.c): the timer interrupt, on the timeouts of Slots and the ring of Scheduler.
--   - Fscache (src/vfs/fscache.c): following a path through the cached nodes of the file system, with the
--     state of each node's lock, while no other thread runs. `load_node`, which a file system supplies
--     through a pointer, is a parameter, and `Loads` says what is asked of it. The path's copy is
--     allocated. The slots for nodes are a list, which stands for all blocks that memory holds.
--   - Vfs (src/vfs/vfs.c): handles on the nodes of Fscache, with the permissions, the locks and the
--     reference counts, and files and directories created. The file systems are known by their
--     `load_node` and `create_child`, and `Loads` and `Creates` say what is asked of them. Whether the
--     memory for a handle is there is an argument.
--   - Kernelfs (src/vfs/kernelfs.c): the tree of the kernel's own nodes, with creation and loading, and
--     Kernelfs/Interface, which makes it one of the file systems of Vfs. The nodes are those of one
--     moment: that a creation changes what later loads see is not carried through Vfs.
--   - SyscallFs (src/syscall/fs): the system calls on files, which put Paths, Fscache, Vfs and Slots
--     together. The operations of the file systems and the copies to the user are parameters.
--   - Slots (src/proc/proc.c, src/timer/timer.c): the table of file descriptors and the timeouts.
--   - Access (src/lib/mode.c): the check of a file's mode.
--   - Keyboard (src/devices/input/keyboard/keyboard.c): the buffer of key events, over the circular
--     arrays of Ring.
--   - Bstree (src/lib/structures/bstree.c): removals and rotations on trees, and the insertion's loop on
--     nodes in memory.
--   - Fat12 (src/vfs/fat/fat.c, src/vfs/fat/fat12.c): the detection of the kind of FAT, the set-up of a
--     volume, and the reads through a drive, which is a function from a sector number and a count. Files
--     are not modelled: the source returns -EIO for them.
--   - Strings, Search and Sort (usr/libc/src/string, usr/libc/src/stdlib/ssort.c): operations on the
--     bytes of one memory, the binary search, and the insertion sort on a list of elements.
--   - Print (src/lib/stdio/stdio_out.c): numbers split into digits through the buffers on the stack, the
--     format of printf with its arguments, and the places of the characters on the console. A number
--     n has fewer than n + 2 digits, which is the fuel. The pixels of a glyph are left out.
--   - Tetris (usr/shell/src/tetris.c): the board and the rounds of the game, without the drawing.
--   - Prelude: the names that all share, lists and tests over the native numbers, signed integers, sums.
--
-- Each module's Examples has runs and the theorems at concrete values. Numbers are natural numbers, with
-- the wrap of the C types written out where the code can reach it; the comment of a file says what it
-- takes for granted beyond that.
--
-- Not modelled: the processor's set-up and interrupts (src/arch, src/cpu), the drivers of buses, disks and
-- keyboards (src/devices), building the memory map and freeing page tables (src/memory/detect.c,
-- src/memory/mm_page.c), the allocator of blocks of a fixed size, the creation and end of processes and
-- threads (src/proc/proc.c, src/proc/thread.c), reading a directory of the kernel and the file systems but
-- FAT12 (src/vfs/kernelfs.c, src/vfs/iso9660, src/vfs/fat), stat and the dispatch of system calls
-- (src/syscall), the printing of the C library, the dynamic loader (usr/ldso) and the shell (usr/shell).
-- The protocol of the boot loader (src/limine.h) comes from another project.
pub mod Prelude
pub mod Lock
pub mod Kheap
pub mod Ring
pub mod Keyboard
pub mod Strings
pub mod Access
pub mod Slots
pub mod Bstree
pub mod Paths
pub mod Fat12
pub mod Tetris
pub mod UserBuffer
pub mod Vfs
pub mod SyscallFs
pub mod Kernelfs
pub mod Malloc
pub mod Search
pub mod Sort
pub mod Frames
pub mod Paging
pub mod Memmap
pub mod Scheduler
pub mod Fscache
pub mod Pit
pub mod Print
