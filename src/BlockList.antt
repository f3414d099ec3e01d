-- ===== src/BlockList.antt =====
-- modules/wasabi-fs/src/mem_structs.rs: the list of the blocks of a file, and the iterator over the
-- part of it that has a range of bytes.
pub mod Blocks
pub mod Stepping
pub mod Aligned
pub mod Unaligned
mod Tests
use wasabi_os.Prelude.{
  ℕ, zero, suc, ◌+◌, ◌-◌, ◌*◌, ◌/◌, ◌%◌, Bool, true, false, Option, none, some, List, [], ◌∷◌, ◌++◌,
  map, length, get_elem?, ltb, leb, ◌==◌, if◌then◌else◌, Outcome, ok, panic, stuck, ◌>>=◌, ◌>>◌,
  assert, expect, u64_max,
}
use wasabi_os.BlockDevice.Group
use wasabi_os.BlockDevice.Group.{BlockGroup}
use wasabi_os.BlockAllocator.Saving.{counts_required_for}

abbrev pub block_size : ℕ
block_size = 4096

abbrev pub blocks_required_for : ℕ → ℕ
blocks_required_for bytes = counts_required_for block_size bytes

pub data BlockList : Type 0 where
  one : BlockGroup → BlockList
  groups : List BlockGroup → BlockList

abbrev pub as_slice : BlockList → List BlockGroup
as_slice (one group) = group ∷ []
as_slice (groups gs) = gs

abbrev pub from_lba : ℕ → BlockList
from_lba block = one (record { start = block; count = 1 })

-- The sum of the counts, in `u64`.
abbrev pub sum_counts : List BlockGroup → ℕ → Outcome ℕ
sum_counts [] sum = ok sum
sum_counts (g ∷ gs) sum = assert (leb (sum + g.count) u64_max) >> sum_counts gs (sum + g.count)

abbrev pub block_count : BlockList → Outcome ℕ
block_count list = sum_counts (as_slice list) 0

abbrev pub single : BlockList → Outcome BlockGroup
single list = assert (length (as_slice list) == 1) >> expect (get_elem? (as_slice list) 0)

abbrev pub push : List BlockGroup → BlockList → BlockList
push more (one first) = groups (first ∷ more)
push more (groups gs) = groups (gs ++ more)

pub record PartialBlockGroup : Type 0 where
  pub group : BlockGroup
  pub offset : ℕ
  pub len : ℕ

pub record BlockListPartialIter : Type 0 where
  pub group_iter : List BlockGroup
  pub skip_bytes : ℕ
  pub remaining_bytes : ℕ

abbrev pub iter_partial : ℕ → ℕ → BlockList → BlockListPartialIter
iter_partial byte_offset bytes list = record {
  group_iter = as_slice list;
  skip_bytes = byte_offset;
  remaining_bytes = bytes;
}

-- The group without the blocks to skip, and the offset into its first block.
abbrev pub skip_blocks : BlockGroup → ℕ → Outcome (BlockGroup × ℕ)
skip_blocks g skip =
    if ltb 0 skip
    then (Group.subgroup (skip / block_size) g >>= λ rest.
        expect rest >>= λ g'. ok (g', skip % block_size))
    else ok (g, 0)

-- The group without the blocks behind the range, and the bytes of it that are used.
abbrev pub cut_blocks : BlockGroup → ℕ → Outcome (BlockGroup × ℕ)
cut_blocks g remaining = Group.bytes block_size g >>= λ size.
    if ltb remaining size
    then (Group.with_new_length (blocks_required_for remaining) g >>= λ front.
        expect front >>= λ g'. ok (g', remaining))
    else ok (g, size)

-- What `next` does with the group in which the range begins or goes on.
abbrev pub take_group :
    BlockGroup → List BlockGroup → ℕ → ℕ → Outcome (Option PartialBlockGroup × BlockListPartialIter)
take_group g gs skip remaining = do
  rest ← skip_blocks g skip
  part ← cut_blocks rest.0 remaining
  assert (leb part.1 remaining)
  size ← Group.bytes block_size part.0
  assert (leb (rest.1 + part.1) size)
  ok (
    some (record { group = part.0; offset = rest.1; len = part.1 }),
    record { group_iter = gs; skip_bytes = 0; remaining_bytes = remaining - part.1 },
  )

-- The loop of `next`.
unfoldable pub next_of :
    List BlockGroup → ℕ → ℕ → Outcome (Option PartialBlockGroup × BlockListPartialIter)
next_of [] skip remaining =
    ok (none, record { group_iter = []; skip_bytes = skip; remaining_bytes = remaining })
next_of (g ∷ gs) skip remaining = Group.bytes block_size g >>= λ size. elim (leb size skip) [
  | true ↦ next_of gs (skip - size) remaining
  | false ↦ take_group g gs skip remaining
]

abbrev pub next : BlockListPartialIter → Outcome (Option PartialBlockGroup × BlockListPartialIter)
next it = next_of it.group_iter it.skip_bytes it.remaining_bytes

-- All that the iterator gives, with as many calls of `next` as `fuel`.
unfoldable pub partials : ℕ → BlockListPartialIter → Outcome (List PartialBlockGroup)
partials zero it = stuck
partials (suc fuel) it = next it >>= λ out. elim (out.0) [
  | none ↦ ok []
  | some p ↦ partials fuel out.1 >>= λ ps. ok (p ∷ ps)
]
