-- ===== src/Lib.antt =====
-- A model of libpussy, a C library of memory allocators and buffers, and proofs about it.
--
-- The program has these parts. include/allocator.h holds the allocator interface and the alignment
-- helpers that every part uses. src/allocator_pet.c is the main allocator: it keeps small blocks in
-- pages with a bitmap of units, and gives larger ones pages of their own; src/allocator_debug.c and
-- src/allocator_stdlib.c are two others with the same interface. src/arena.c hands out memory from a growing
-- list of mapped regions. src/ringbuffer_base.c is a ring of bytes in a mapping that grows and shrinks, and
-- src/ringbuffer_sync.c shares one between threads. src/mmarray.c is an array of items in a mapping of its
-- own. All but the two other allocators take their memory from `mmap`.
--
-- - Base: shared names and lemmas. Base/Tests has the Boolean tests and the 32-bit `unsigned`, Base/Lists
--   the lists, Base/Outcome how a call ends, Base/Memory byte ranges and `memmove`, Base/Bits the binary
--   digits that the bit operations work on.
-- - Align: `align_unsigned`, `align_pointer` and the variants for pages, of include/allocator.h.
-- - MemoryMap: `mmap` and `mremap` as the ring and the arrays use them, with their laws; a mapping is a list of bytes.
-- - RingBuffer: the functions of src/ringbuffer_base.c, by their names. The structure is a record with
--   the fields of the C one. Inv is the invariant and the contents; Size, Grow, Shrink, Read and Write
--   are about one operation each.
-- - Word: src/word.h.
-- - SyncRingBuffer: src/ringbuffer_sync.c, as steps of threads. A state has the ring, the mutex, the flags of
--   the two events and where each thread is in its call; `Step` has a constructor for each point where a
--   thread may be interrupted. Inv says that the calls work as if one came after another, Progress that
--   some thread can always go on.
-- - Event: `set_event`, `clear_event` and `wait_event` of src/sync_event.c, as steps of threads, where `cnd_wait`
--   may wake for no reason. Waiting is about what a thread that waits can rely on.
-- - Allocator: the interface of include/allocator.h as a record of operations, and `init_allocator`.
-- - PetAllocator: src/allocator_pet.c. Bitmap has `count_zero_bits`, `count_nonzero_bits`, `set_bits`
--   and `clear_bits`, Search has `find_free_block` and `find_longest_free_block`, Cleanse has
--   `cleanse`. Sizes has what `_init` computes and the arithmetic of block addresses. State has the pages, the
--   superblock, `lru_page`, `grab_page` and `unhand_page`; Blocks the functions bm_*; Interface the functions
--   of the interface, without the underscore, and the wrappers of the system calls. Interface/RoundTrip, Resize
--   and Remap are about release, and about reallocation in a page with a bitmap and of whole pages.
-- - Heap: `malloc`, `calloc`, `free`, `memset` and `memcpy` on the bytes of the address space.
-- - DebugAllocator, StdlibAllocator: the functions of src/allocator_debug.c and src/allocator_stdlib.c, without
--   the underscore. Check is about `check_region`, Reallocate and Shrink about `_reallocate`.
-- - PageList: the circular lists of pages of src/allocator_pet.c and src/fsb_arena.c: the `next` and `prev`
--   of all pages are two functions on addresses. Ring says what a circular list is.
-- - FsbArena: src/fsb_arena.c. Fits is about the layout of a page that `_init_fsb_arena` computes; Blocks has
--   allocation, release and `destroy_fsb_arena`, Count the counter of free blocks, Bits the bitmap, and Serve
--   and Release are about the two operations. Walk has `fsb_arena_walk`, with the callback as a parameter.
-- - AddressSpace: `mmap` and `munmap` as the arena uses them, where addresses matter and contents do
--   not. Bump is one such `mmap`.
-- - Arena: the functions of src/arena.c, by their names, without the underscore. The linked list of
--   regions is a list, the pointer `last` a place in it. Room is about one region, Owned about which
--   addresses are handed out, Create, Fit, Alloc and Delete about the operations, Laid about where its mappings
--   are among the others.
-- - Timespec: src/timespec.c, with `double` and `modf` as a parameter.
-- - World: the state of the default allocator with the mutexes, condition variables and mappings there are.
--   RingBuffer/Create, SyncRingBuffer/Create and Event/Create have the functions that make and free the
--   structures over it, and Balance and RoundTrip below them say what they leave allocated.
-- - Allocator/Ownership: what a client may expect of an allocator, as an account of the blocks it has. Debug and
--   Stdlib are about the allocators that keep it.
-- - Dump: src/dump_hex.c and src/dump_bitmap.c. The output is the list of its bytes. Width is about the digits of
--   addresses, ReadBack about rows, Inside about which bytes are read.
-- - MmArray: the functions of src/mmarray.c, by their names. Size is about the sizes of mappings, Inv is
--   the invariant, Grow and Append are about the operations.
--
-- An `unsigned` is a number with its wrap at 2^32 written out, and an address wraps at 2^64; where the
-- width of a number is not written out, a file says why it is not reached. A failed `assert`,
-- `abort()` and `exit(1)` end in `aborted`. An access outside a mapping ends in `undefined` where a mapping is a
-- list of bytes: in the rings, the arrays, the bitmaps, the dumps and `cleanse`. The bytes of the blocks of the
-- debug, stdlib and pet allocators are a function on addresses instead, where an access outside a region is not
-- told from one inside; what these write is the subject of the theorems. The page size is an argument. Sizes of
-- structures are those of a 64-bit platform.
--
-- Loops over a list are recursion on it. The loops over a bitmap run on fuel: at most one more than the
-- number of units, while each round passes at least one unit. `cleanse` and `_init_fsb_arena` have loops whose
-- fuel is one more than the bytes of the range and of the page, while each round takes a word of them. `fsb_arena_walk` has a
-- round for each page of the list, unless the callback gives pages back, when it may never end. That the
-- fuel is enough is part of the theorems.
--
-- Each function of src/allocator_pet.c runs to its end with no other thread between; a page in no list, which
-- another thread has in use, makes `grab_page` wait, which is the outcome `blocked`. The pages that the
-- allocator looks at first must be in the lists that their fields say, which the theorems ask for at each call,
-- since deleting from a list of two pages loses one of them.
--
-- Not modelled: arithmetic on `double` in src/timespec.c, a parameter; what else is printed (`arena_print`,
-- `dump`, `dump_fsb_arena`, `check_units_allocated`, messages), which changes no state; the constructor of
-- src/allocator.c, which asks the system for the page size.
pub mod Base
pub mod AddressSpace
pub mod Align
pub mod Arena
pub mod FsbArena
pub mod MemoryMap
pub mod MmArray
pub mod RingBuffer
pub mod SyncRingBuffer
pub mod Event
pub mod World
pub mod Word
pub mod Heap
pub mod Dump
pub mod DebugAllocator
pub mod StdlibAllocator
pub mod Allocator
pub mod PageList
pub mod PetAllocator
pub mod Timespec
