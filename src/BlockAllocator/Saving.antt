-- ===== src/BlockAllocator/Saving.antt =====
-- modules/wasabi-fs/src/block_allocator.rs: `write` and `load` of the free list, and the iterator
-- over the blocks of a list of groups; fs_structs.rs: the block that holds a part of the free list.
mod Tests
pub mod Iterating
pub mod Chains
pub mod RoundTrip
pub mod Reloading
use wasabi_os.Prelude.{
  ℕ, zero, suc, ◌+◌, ◌-◌, ◌/◌, ◌%◌, Bool, true, false, not, Option, none, some, List, [], ◌∷◌, ◌++◌,
  max, length, take, drop, ltb, leb, ◌==◌, if◌then◌else◌, Outcome, ok, stuck, ◌>>=◌, ◌>>◌, assert,
  expect,
}
use wasabi_os.BlockDevice.Lba
use wasabi_os.BlockDevice.Group.{BlockGroup}
use wasabi_os.BlockAllocator.{
  BlockAllocator, FsResult, FsError, done, failed, block_device, write_allocator_free_list,
  check_consistent, free_block, free_list, block_count, allocate,
}

abbrev pub block_ranges_count_per_block : ℕ
block_ranges_count_per_block = 250

abbrev pub calc_alloc_size_try_count : ℕ
calc_alloc_size_try_count = 10

-- `next` points to the next block of the chain.
pub record FreeBlockGroups : Type 0 where
  pub free : List BlockGroup
  pub next : Option ℕ

-- What the file system uses of a block device in the state `S`: a block is written or read as the
-- structure that it holds, or the device fails.
pub record Disk (S : Type 0) : Type 0 where
  pub write_block : ℕ → FreeBlockGroups → S → Option S
  pub read_pointer : ℕ → S → Option FreeBlockGroups

-- The macro of libs/shared/src/lib.rs.
abbrev pub counts_required_for : ℕ → ℕ → ℕ
counts_required_for entry_size total_size =
    total_size / entry_size + (if not (total_size % entry_size == 0) then 1 else 0)

pub record BlockGroupListBlockIter : Type 0 where
  pub group_iter : List BlockGroup
  pub current_group : Option BlockGroup
  pub current_index : ℕ

abbrev pub block_iter : List BlockGroup → BlockGroupListBlockIter
block_iter groups = record { group_iter = groups; current_group = none; current_index = 0 }

-- The part of `next` behind the choice of the group.
abbrev pub step_in :
    BlockGroup → BlockGroupListBlockIter → Outcome (Option ℕ × BlockGroupListBlockIter)
step_in group it = do
  assert (ltb it.current_index group.count)
  result ← Lba.add group.start it.current_index
  ok (
    some result,
    if it.current_index == group.count - 1
        then record it { current_group = none; current_index = 0 }
        else record it { current_group = some group; current_index = it.current_index + 1 },
  )

unfoldable pub next : BlockGroupListBlockIter → Outcome (Option ℕ × BlockGroupListBlockIter)
next it = elim (it.current_group) [
  | some group ↦ step_in group it
  | none ↦ elim (it.group_iter) [
    | [] ↦ ok (none, it)
    | group ∷ groups ↦ step_in group (record it { group_iter = groups })
  ]
]

-- `Peekable`: the answer of `next` that was looked at already.
pub record Peekable : Type 0 where
  pub iter : BlockGroupListBlockIter
  pub peeked : Option (Option ℕ)

abbrev pub peekable : BlockGroupListBlockIter → Peekable
peekable it = record { iter = it; peeked = none }

unfoldable pub peek : Peekable → Outcome (Option ℕ × Peekable)
peek p = elim (p.peeked) [
  | some v ↦ ok (v, p)
  | none ↦ next p.iter >>= λ out. ok (out.0, record { iter = out.1; peeked = some out.0 })
]

unfoldable pub next_peeked : Peekable → Outcome (Option ℕ × Peekable)
next_peeked p = elim (p.peeked) [
  | some v ↦ ok (v, record p { peeked = none })
  | none ↦ next p.iter >>= λ out. ok (out.0, record { iter = out.1; peeked = none })
]

-- `chunks`, with the length as fuel.
abbrev pub chunks_of : ℕ → ℕ → List BlockGroup → List (List BlockGroup)
chunks_of zero size groups = []
chunks_of (suc fuel) size [] = []
chunks_of (suc fuel) size (g ∷ gs) = take size (g ∷ gs) ∷ chunks_of fuel size (drop size (g ∷ gs))

abbrev pub chunks : ℕ → List BlockGroup → List (List BlockGroup)
chunks size groups = chunks_of (length groups) size groups

-- The blocks of the old list are freed.
unfoldable pub free_blocks : List ℕ → BlockAllocator → Outcome BlockAllocator
free_blocks [] a = ok a
free_blocks (block ∷ blocks) a = free_block block a >>= free_blocks blocks

-- The loop of `write` that allocates. It returns in the round after the last attempt at the latest.
unfoldable pub allocate_rounds :
    ℕ → ℕ → ℕ → ℕ → BlockAllocator → Outcome (BlockAllocator × FsResult (List BlockGroup))
allocate_rounds zero loop_count free_group_count blocks_required new = stuck
allocate_rounds (suc fuel) loop_count free_group_count blocks_required new =
    allocate blocks_required new >>= λ out. elim (out.1) [
      | failed e ↦ ok (out.0, failed e)
      | done groups ↦
          elim (leb (counts_required_for block_ranges_count_per_block (length out.0.free))
            (block_count groups)) [
              | true ↦ ok (out.0, done groups)
              | false ↦
                  assert (ltb free_group_count (length out.0.free))
                  >> free_list groups out.0
                  >>= λ freed. elim (leb calc_alloc_size_try_count loop_count) [
                    | true ↦ ok (freed, failed write_allocator_free_list)
                    | false ↦
                        allocate_rounds fuel (loop_count + 1) (length out.0.free) blocks_required
                          freed
                  ]
            ]
    ]

module _ {S : Type 0} (disk : Disk S) where
  -- The body that the two writing loops share: the block at `lba` points to the one behind it.
  abbrev pub write_part : ℕ → List BlockGroup → Peekable → S → Outcome (S × FsResult Peekable)
  write_part lba groups p s = do
    behind ← peek p
    elim (disk.write_block lba (record { free = groups; next = behind.0 }) s) [
      | none ↦ ok (s, failed block_device)
      | some t ↦ ok (t, done behind.1)
    ]

  -- `for block_data in new.free.chunks(..)`
  unfoldable pub write_chunks :
      List (List BlockGroup) → Peekable → S → Outcome (S × FsResult Peekable)
  write_chunks [] p s = ok (s, done p)
  write_chunks (groups ∷ more) p s = next_peeked p >>= λ out. expect out.0 >>= λ lba.
      write_part lba groups out.1 s >>= λ written. elim (written.1) [
        | failed e ↦ ok (written.0, failed e)
        | done q ↦ write_chunks more q written.0
      ]

  -- The loop over the blocks that are left.
  unfoldable pub write_reserve : ℕ → Peekable → S → Outcome (S × FsResult (Unit {0}))
  write_reserve zero p s = stuck
  write_reserve (suc fuel) p s = next_peeked p >>= λ out. elim (out.0) [
    | none ↦ ok (s, done tt)
    | some lba ↦ write_part lba [] out.1 s >>= λ written. elim (written.1) [
      | failed e ↦ ok (written.0, failed e)
      | done q ↦ write_reserve fuel q written.0
    ]
  ]

  -- The part of `write` behind the allocation: the first block, and the chain written.
  unfoldable pub write_blocks : List BlockGroup → List BlockGroup → S → Outcome (S × FsResult ℕ)
  write_blocks groups free s = peek (peekable (block_iter groups)) >>= λ first.
      expect first.0 >>= λ first_block.
      write_chunks (chunks block_ranges_count_per_block free) first.1 s >>= λ parts.
      elim (parts.1) [
        | failed e ↦ ok (parts.0, failed e)
        | done p ↦ write_reserve (suc (block_count groups)) p parts.0 >>= λ rest. elim (rest.1) [
          | failed e ↦ ok (rest.0, failed e)
          | done _ ↦ ok (rest.0, done first_block)
        ]
      ]

  -- A failed call leaves the allocator as it was; what it wrote to the device stays there.
  unfoldable pub write : BlockAllocator → S → Outcome (BlockAllocator × S × FsResult ℕ)
  write a s = do
    consistent ← check_consistent a.free
    assert consistent
    new ← free_blocks a.self_on_disk (record a { self_on_disk = []; on_disk = none })
    let free_group_count = max (length new.free) 1
    let blocks_required = counts_required_for block_ranges_count_per_block free_group_count
    out ← allocate_rounds (suc calc_alloc_size_try_count) 0 free_group_count blocks_required new
    elim (out.1) [
      | failed e ↦ ok (a, s, failed e)
      | done groups ↦ write_blocks groups out.0.free s >>= λ written. elim (written.1) [
        | failed e ↦ ok (a, written.0, failed e)
        | done first_block ↦ ok (record out.0 { dirty = false }, written.0, done first_block)
      ]
    ]

  -- `while let Some(block) = next_block`, with the lists so far; `none` is a read error.
  unfoldable pub load_loop :
      ℕ → Option ℕ → List BlockGroup → List ℕ → S → Outcome (Option (List BlockGroup × List ℕ))
  load_loop fuel none free self_on_disk s = ok (some (free, self_on_disk))
  load_loop zero (some block) free self_on_disk s = stuck
  load_loop (suc fuel) (some block) free self_on_disk s = elim (disk.read_pointer block s) [
    | none ↦ ok none
    | some part ↦ load_loop fuel part.next (free ++ part.free) (self_on_disk ++ block ∷ []) s
  ]

  unfoldable pub load : ℕ → ℕ → S → Outcome (Option BlockAllocator)
  load fuel pointer s = load_loop fuel (some pointer) [] [] s >>= λ read. elim read [
    | none ↦ ok none
    | some lists ↦ do
      consistent ← check_consistent lists.0
      assert consistent
      ok (
          some (record {
            free = lists.0;
            on_disk = some pointer;
            self_on_disk = lists.1;
            dirty = false;
          }))
  ]

abbrev pub is_dirty : BlockAllocator → Bool
is_dirty a = a.dirty

-- `false` is the source's `Err(())`; the comparison with the device is still to do in the source.
unfoldable pub check_matches_device : BlockAllocator → Outcome Bool
check_matches_device a = if is_dirty a then ok false else check_consistent a.free
