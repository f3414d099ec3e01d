-- ===== src/BlockList/Tests.antt =====
-- A file of three and two blocks.
use wasabi_os.Prelude.{
  ℕ, ◌+◌, ◌-◌, ◌*◌, ◌≡◌, refl, ◌&&◌, List, [], ◌∷◌, some, ltb, leb, if◌then◌else◌, arith, ok, panic,
}
use wasabi_os.BlockDevice.Group.{BlockGroup}
use wasabi_os.BlockList.{
  block_size, blocks_required_for, one, groups, block_count, single, push, PartialBlockGroup,
  next_of, partials,
}
use wasabi_os.BlockList.Blocks.{IsSized}
use wasabi_os.BlockList.Aligned.{Serves, partials-Serves}
use wasabi_os.BlockList.Unaligned.{partials_early, next_unaligned}

abbrev group : ℕ → ℕ → BlockGroup
group start count = record { start = start; count = count }

abbrev file : List BlockGroup
file = group 10 3 ∷ group 40 2 ∷ []

file-IsSized : IsSized file
file-IsSized =
    ((omega arith, omega arith), omega arith, ((omega arith, omega arith), omega arith, tt))

test_count : block_count (push (group 40 2 ∷ []) (one (group 10 3))) ≡ ok 5
test_count = refl

test_single : single (groups file) ≡ panic
test_single = refl

partials-Serves_example :
    (ps : List PartialBlockGroup) × (partials 3
        (record { group_iter = file; skip_bytes = 1 * block_size; remaining_bytes = 12300 })
      ≡ ok ps)
    × Serves file 1 12300 ps
partials-Serves_example =
    partials-Serves file 1 12300 3 file-IsSized (omega arith) (omega arith) (omega arith)
      (omega arith)

-- The first block alone.
partials_early_example :
    partials 3 (record { group_iter = file; skip_bytes = 0 * block_size; remaining_bytes = 4096 })
    ≡ panic
partials_early_example =
    partials_early file 0 4096 3 file-IsSized (omega arith) (omega arith) (omega arith)

-- One block that begins in the middle of another.
next_unaligned_example : next_of file (0 * block_size + 100) 4096 ≡ (
    if ltb 4096 ((3 - 0) * block_size) && leb (100 + 4096) (blocks_required_for 4096 * block_size)
    then ok (
      some (record {
        group = record { start = 10 + 0; count = blocks_required_for 4096 };
        offset = 100;
        len = 4096;
      }),
      record { group_iter = group 40 2 ∷ []; skip_bytes = 0; remaining_bytes = 4096 - 4096 },
    )
    else panic)
next_unaligned_example =
    next_unaligned (group 10 3) (group 40 2 ∷ []) 0 100 4096 (omega arith, omega arith)
      (omega arith) (omega arith) (omega arith) (omega arith) (omega arith)
