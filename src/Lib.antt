-- ===== src/Lib.antt =====
-- WasabiOS: a verification library for parts of the kernel and of its file system.
--
-- The parts, and how they interact. The kernel hands out physical and virtual memory from range
-- sets (libs/shared/src/rangeset.rs). The file system keeps its free blocks as sorted groups of
-- blocks (modules/wasabi-fs/src/block_allocator.rs) over the addresses and groups of the block
-- device library (libs/block-device/src/structs.rs).
--
-- Prelude: Boolean tests, lists with native indices, and `Outcome`, the result of a Rust call: a
-- value, a panic, or `stuck` for a loop of the model without rounds left. No theorem leaves `stuck`
-- open: each says which value or panic a call comes to.
--
-- RangeSet (libs/shared/src/rangeset.rs): `RangeSet` holds the slots of the array that are in use
-- and the capacity `N`; slots behind `in_use` are never read by the code. `delete` keeps the swap
-- loop. `insert`, `remove` and `subtract` are in RangeSet, `remove_if_exist` in RangeSet/Exact and
-- `allocate_prefer` with its search in RangeSet/Allocation. A `for` loop over the entries is a
-- recursion on the list, and a labelled outer loop that starts it anew takes fuel: one round more
-- than there are entries, since each round of `insert` deletes one and each round of `remove`
-- lowers the number of entries that overlap the range. `usize` has 64 bits.
--
-- BlockDevice (libs/block-device/src/structs.rs): an `LBA` is a number, its operators are in
-- BlockDevice/Lba with their assertions, `BlockGroup` is in BlockDevice/Group.
--
-- BlockAllocator (modules/wasabi-fs/src/block_allocator.rs): the record with its free list, and
-- `empty`, `mark_used`, `allocate_group`, `allocate` and `free_group`. The loop of `allocate` takes
-- the count and the first group size as fuel, since each round halves the group size or lowers the
-- remaining size.
--
-- BlockAllocator/Saving: `write` and `load`, with the device as an argument that writes and reads a
-- block as the `FreeBlockGroups` that it holds. The loop that allocates returns in its eleventh round
-- at the latest; the loop over the blocks that are left takes one round more than there are blocks;
-- `load` follows a chain on the device, and takes its length as fuel.
--
-- WrappingValue (libs/shared/src/math/mod_group.rs): a value and its modulo over a type of `bits`
-- bits; `add` keeps the branch for a sum that leaves the type.
--
-- CommandQueue (wasabi-kernel/src/pci/nvme/queue.rs and generic_command.rs): the record has the
-- memory of the submission queue as a list of commands and each doorbell as the list of the values
-- written to it. The completion queue is written by the controller, so what the n-th read finds in
-- a slot is an argument (`Ring`); the theorems about loops assume that it does not change while the
-- loop runs. `poll_single_completion` and `poll_completions` are in CommandQueue, and what polls on
-- the way (`submit`, `wait_for`, `clear_completions`) is in CommandQueue/Commands. The loops take
-- fuel: a loop that polls takes at most one entry for each slot, so one round more than the ring has
-- slots is enough; `wait_for` and `clear_completions` hand the rest of their own fuel on. The sorted
-- `VecDeque` is a list, and its binary search is given by its answer on a sorted list. The crate
-- `bit_field` is an argument. Addresses are left out: the memory that `allocate` maps, and `drop`.
--
-- PageAllocator (wasabi-kernel/src/mem/page_allocator.rs): the allocator as its `RangeSet`, a page as
-- its start address. What the crate `x86_64` says of an address (canonical, aligned) is an argument.
-- `init`, which reads the page tables, is not modelled.
--
-- Locks (libs/shared/src/sync/lockcell.rs): `UnsafeTicketLock`, to which `TicketLock` delegates, in
-- Locks/Ticket, and `ReadWriteCell`, alone and inside an `UnwrapLock`, in Locks/ReadWrite. A state has
-- the lock and what each context does; a step is one atomic access of one context, in any order, and
-- the memory is sequentially consistent. A context is a function from its number, contexts run on
-- cores, and a reachable state is an indexed data type. A guard is the state of a context that has it.
--
-- KernelHeap (wasabi-kernel/src/mem/kernel_heap/mod.rs): `SlabAllocator` with its blocks as a list in
-- the order of their links. The allocator below and the rounding of addresses by the crate `x86_64`
-- are an argument (`Memory`), of which `Rounds` says what the source relies on; a pointer is a number
-- that does not wrap around, as it points into mapped memory.
--
-- BlockList (modules/wasabi-fs/src/mem_structs.rs): the blocks of a file as a list of groups, and
-- `BlockListPartialIter`. The loop of `next` is a recursion on the groups; who collects all that the
-- iterator gives takes one round more than there are groups.
--
-- MemTree (modules/wasabi-fs/src/mem_tree/mod.rs): the B-tree of the files. A node has a number as its
-- address, so that its parent pointer is data, and `Links` is its list of children. `find` is in
-- MemTree with `insert_new` and `update`, and `delete` is in MemTree/Deleting. The loop of `find_leave`
-- takes fuel, and the height and one is enough. The two bounds on a node are an argument (`Limits`), of
-- which the source asserts what `IsEven` says. All nodes are in memory and one call runs at a time:
-- `resolve`, `flush_to_device`, the locks of the nodes and failed allocations are left out, and with the
-- locks what their debug checks say when the unlocking climbs by a stale parent pointer.
--
-- Integer overflow and `debug_assert!` panic, as in debug builds. Not modelled: logging and text
-- formatting, and the other components, which the manifest lists with the reason: hardware access,
-- build tools, copies of third-party libraries, and parts of the kernel that no file is about.
pub mod Prelude
pub mod RangeSet
pub mod BlockDevice
pub mod BlockAllocator
pub mod WrappingValue
pub mod CommandQueue
pub mod PageAllocator
pub mod Locks
pub mod MemTree
pub mod BlockList
pub mod KernelHeap
