-- ===== src/Lib.antt =====
-- A model of the ukoOS kernel, a small operating system for 64-bit RISC-V written in C, and the
-- theorems that say what its parts do. Paths are from the repository's root.
--
-- The parts and how they interact. At boot the kernel hands the ranges of memory that the device
-- tree lists to the physical page allocator, which keeps them in two linked lists of chunks, one
-- for addresses from 4 GiB on and one for those below; the page tables, the virtual address
-- allocator and the heap take their pages from it. The heap and the devices keep their objects in
-- intrusive doubly linked lists. The random number generator draws on the ChaCha20 key stream and
-- the BLAKE2s hash. Modelled are the parts at the bottom:
--
-- - Prelude: names of the library passed on, and what every part uses. Prelude/Runs has the
--   outcomes of a run: a value, a failed `assert` (src/kernel/include/panic.h), or no fuel left.
--   Prelude/Lists has lists measured by native numbers, Prelude/Bits laws of the bit operations.
-- - ListHead: src/kernel/include/list.h. A store gives each address its `struct list_head`; the
--   operations are sequences of writes to it, so that aliasing of the neighbours is real.
--   ListHead/Chain says what it means that a head's ring holds a sequence of elements,
--   ListHead/Insert and ListHead/Remove relate the operations to that sequence.
-- - Align: src/kernel/include/align.h and src/kernel/include/physical.h, the arithmetic of
--   addresses. `_align_down_uaddr` is `align_down`, `_align_down_paddr` is `align_down_paddr` and
--   so on. A physical address is a number below `2 ^ 56`, which the conversions assert.
-- - PhysicalAlloc: src/kernel/mm/physical_alloc.c, with the bounds check and the copies of
--   src/kernel/arch/riscv64/physical.c. Memory is a function from the addresses of 64-bit words,
--   and the two static variables are fields of the state, so that a link overwritten through
--   another page would show. PhysicalAlloc/FreeList says which chunks a list in memory stands for,
--   PhysicalAlloc/Pages which stacks of pages, PhysicalAlloc/Pool relates `mm_alloc_physical` and
--   `mm_free_physical` to these. PhysicalAlloc/Reserve is `consider_physical_memory`.
-- - Crypto: src/kernel/crypto/subtle. Crypto/Chacha20 is rfc7539.c, Crypto/Blake2s the BLAKE2s half
--   of rfc7693.c and Crypto/Blake2b its other half. Crypto/Blake2b/Rfc and Crypto/Blake2b/Message
--   write BLAKE2b as the RFC has it, apart from the code; Crypto/Blake2b/Loop and
--   Crypto/Blake2b/Reference compare the two. Crypto/Words and Crypto/Bytes are what they share.
--   Arrays are lists.
-- - Init: src/kernel/init.c, the sort of the initializers, and the order in which they are called.
-- - Paging: src/kernel/arch/riscv64/paging.c, over the state of PhysicalAlloc and the CSR. An entry
--   is a record, and Paging/Entry relates it to its word. Paging/Walk says what it means that the
--   tables for a page are there, Paging/Map maps and unmaps a page, Paging/NewTable allocates a
--   table, and Paging/Iomem maps device memory into an area of VirtualAlloc.
-- - Alloc: the heap, src/kernel/mm/alloc.c and src/kernel/mm/alloc. The state has the pages, the
--   segments, the list nodes, the words of the blocks and the heap of the hart that runs.
--   Alloc/Bounds, Alloc/Blocks, Alloc/Direct, Alloc/Init, Alloc/Segments, Alloc/Start and
--   Alloc/Malloc have the functions. Alloc/FreeList says which blocks a free list in memory stands
--   for, Alloc/Push and Alloc/Take relate pushing and taking a block to that; Alloc/Multiset,
--   Alloc/Shuffle and Alloc/Fill are about the random order of a new page's blocks. Alloc/Emptied
--   and Alloc/Shrink are about two errors. The mapping of a segment and the random numbers are a
--   parameter, the record `Services`, which Alloc/Kernel fills from VirtualAlloc, Paging and
--   Random.
-- - SizeClasses: src/kernel/mm/alloc/size_classes.h, which class of objects serves a request.
-- - Symbolicate: src/kernel/symbolicate.c, the function that an address belongs to.
--
-- - Treap: the treaps of src/kernel/mm/virtual_alloc.c, on pointers. A node is the address of its
--   area. Treap/Shape says which tree the pointers stand for, Treap/Around and Treap/Turn what a
--   rotation does to it, Treap/Order both orders. Treap/Descend and Treap/Climb are the loops of
--   `treap_insert`, which Treap/Link and Treap/Insert put together; Treap/Sink, Treap/Links and
--   Treap/Remove are `treap_remove`. Treap/Invariant is the invariant of a treap.
-- - VirtualAlloc: the allocator of src/kernel/mm/virtual_alloc.c over the list of ListHead and two
--   treaps. VirtualAlloc/Areas has the operations that carve and merge areas, VirtualAlloc/Find the
--   search by address, VirtualAlloc/Fit the search by size and the allocation of a whole area. What
--   `alloc` returns and `random_u32` draws are lists in the state; one allocator is modelled.
-- - Print: src/kernel/print.c. What is written is a list of bytes. Print has the numbers, which
--   Print/Digits and Print/Number read back, with the layout of a number; Print/Bytes has the other
--   format functions, Print/Directive the loop over a format, Print/Escape is about doubled braces.
-- - Random: src/kernel/random.c, the entropy pool over BLAKE2s and the generator of one hart over
--   ChaCha20. Random/Pool is about the pool, Random/Draw about the draws.
-- - Builtins: memcmp, strcmp, strlen and strnlen of src/kernel/builtins on lists of bytes.
-- - Fnv1a: src/kernel/include/crypto/subtle/fnv1a.h, the FNV-1a hash.
--
-- Numbers are natural numbers, with `% 2 ^ w` where a machine word wraps around. Each loop is
-- recursion on a list or on fuel. The loops of ChaCha20 and BLAKE2s run on the number of bytes left,
-- of which every turn takes one or more. `consider_physical_memory` takes its fuel as an argument,
-- since its loop does not end for some reservations; each of its turns raises `start`, so the
-- distance to the highest end is enough where no reservation is empty. The loops over a treap take
-- fuel as well, for which the number of nodes, or one more, is enough. The loop that fills a free
-- list has fuel for the distance of its addresses; `alloc_generic` takes fuel for the lengths of
-- its two lists; `vfprint` takes fuel for the length of its format.
--
-- Not modelled: the calls of `print` and `explicit_bzero`, which change nothing that the modelled
-- code reads; locks, which the source does not take (one hart runs); the device tree, with the walk
-- over it that calls `consider_physical_memory`; the drivers, and the code in assembly.
pub mod Prelude
pub mod ListHead
pub mod Align
pub mod Alloc
pub mod PhysicalAlloc
pub mod Paging
pub mod Crypto
pub mod Init
pub mod SizeClasses
pub mod Symbolicate
pub mod Treap
pub mod VirtualAlloc
pub mod Print
pub mod Random
pub mod Builtins
pub mod Fnv1a
