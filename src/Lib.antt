-- ===== src/Lib.antt =====
-- BalrogOS is a 64-bit hobby kernel in C with its libc, boot loader and tools. This library models the
-- parts of it that keep state of their own and that the rest stands on.
--
-- Memory.antt: flat memory, and the block routines of src/shared/string (memcpy, memmove, memset,
--   memcmp), under the C names. A loop is structural recursion on the rounds that are left.
-- Str.antt: strlen, strcmp, strcpy, strspn, strcspn and strtok of src/shared/string. A scan for the
--   NUL takes fuel, one unit a round; a string of n bytes needs n + 1. strcpy and strcmp call memcpy
--   and memcmp of Memory.
-- Endian.antt: src/shared/endian/byteorder.c, for AMD64.
-- Uuid.antt: src/shared/uuid/uuid.c, the text form of a uuid and its parser.
-- Heap.antt: src/shared/memory/heap.c, the blocks that kheap.c, vmheap.c and malloc.c share. The
--   state is the header at each address. The loops of heap_free take fuel: one unit for each block
--   behind the freed one and one more, and for the walk of the free list one for each step, which the
--   address of the block bounds.
-- Kheap.antt: src/kernel/memory/kheap.c, kmalloc and kfree. The search takes fuel: more than the bytes
--   between its first block and the end of the heap is enough.
-- Vmheap.antt: src/kernel/memory/vmheap.c, vmalloc and vmfree. The heap grows by pages; which pages
--   are missing is a parameter. The fuel is that of Kheap and a unit for the growth.
-- Malloc.antt: src/libc/stdlib/malloc.c, malloc and free. What brk answers is a parameter.
-- Vector.antt: src/klib/data_structure/vector.c, over Memory, with vmalloc as a parameter and vmfree
--   outside the memory of the model.
-- Queue.antt and MtxQueue.antt: queue.c and mtx_queue.c of src/klib/data_structure, linked nodes in a
--   memory of nodes. The locks of queue.c are left out: one call runs at a time.
-- Pmm.antt: src/kernel/memory/pmm.c, the page allocator; its queue is a list, and pmm_calloc clears
--   the page with memset of Memory. The loop over the reserved ranges takes fuel: one more than there
--   are ranges is enough.
-- FsCache.antt: src/kernel/file_system/fs_cache.c, the table of cached files and the buffer slots.
--   What pmm_calloc and vmm_set_page answer is a parameter. No fuel.
-- Kmutex.antt: src/klib/threading/kmutex.c with sys_park.c, as threads that take one step at a time
--   in the order of a schedule. The spin loop is one step a round, so nothing needs fuel.
-- HashTable.antt: list.c and hash_table.c of src/klib/data_structure, lists of nodes in a memory of
--   nodes and a table of 100 of them. The search takes fuel: one more than the list has nodes.
-- Vfs.antt: src/kernel/file_system/vfs/vfs.c, the tree of mount points as a value, with a device as its
--   address; Path has the parts of a path and vfs_sanitize_path. The loops over a path take fuel: the
--   length of the path and one more.
-- Rbt.antt: src/klib/data_structure/rbt.c, nodes with parent links in a memory of nodes, and the operations
--   up to rbt_insert; Rbt/Remove.antt has rbt_delete. Shape says which tree such a memory holds, seen
--   from one of its places. A walk takes fuel for each node, the repair of a deletion three units more.
-- Process.antt: src/kernel/tasking/process.c and gothmog_schedule of
--   src/kernel/cpu/scheduler/scheduler.c, the ring of ready processes in a memory of processes, with
--   process_tree as a map. No fuel.
-- ProcSleep.antt: src/kernel/tasking/proc_sleep.c and pit_compare of src/kernel/cpu/pit/pit.c, the sleepers
--   in a tree of Rbt, woken into the ready list of Process; Awake says what a round does to the processes. A round of wake_up for each sleeper and one
--   more is enough.
-- Ext2.antt: the usage bitmaps of src/kernel/file_system/ext2/ext2.c over a device whose sectors may
--   fail. The search takes fuel: more than the bytes of the bitmap is enough.
-- Prelude.antt: numbers, tests, lists and the integers of a C int.
--
-- Each part has child modules named for what they prove, and a Tests module with runs at concrete
-- inputs.
--
-- Not modelled: the boot loader, the drivers, the assembly, the interrupt and paging code, which
-- act on hardware; of the virtual file system the calls that hand a file to its device; of ext2
-- files and directories; of the processes their creation, fork, exec and death, and the red-black
-- tree that finds them; the clearing and printing of a red-black tree; the system calls, the rest
-- of the libc and the tool kit; printing and logging, which leave the modelled state alone;
-- init_pmm, init_kheap and init_vmheap, which take the layout of memory from outside. The queue of
-- pmm.c gets its nodes from kmalloc: whether there was one is an argument of pmm_free.
pub mod Prelude
pub mod Memory
pub mod Str
pub mod Endian
pub mod Kmutex
pub mod Pmm
pub mod Heap
pub mod Kheap
pub mod Vmheap
pub mod Malloc
pub mod Vector
pub mod Queue
pub mod MtxQueue
pub mod FsCache
pub mod Uuid
pub mod HashTable
pub mod Vfs
pub mod Rbt
pub mod Process
pub mod ProcSleep
pub mod Ext2
