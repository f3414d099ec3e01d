-- ===== src/KernelHeap.antt =====
-- wasabi-kernel/src/mem/kernel_heap/mod.rs: the slab allocator. The allocator below it and the
-- rounding of addresses are arguments.
pub mod Slabs
pub mod Allocating
pub mod Freeing
mod Tests
use wasabi_os.Prelude.{
  ℕ, zero, suc, ◌+◌, ◌-◌, Bool, true, false, ◌&&◌, not, Option, none, some, List, [], ◌∷◌, length,
  get_elem?, set, remove_at, ltb, leb, ◌==◌, if◌then◌else◌, Outcome, ok, ◌>>=◌, ◌>>◌, assert,
  expect, ◌⊎◌, inl, inr,
}

-- The alignment of a layout is a power of two by its type.
pub record Layout : Type 0 where
  pub size : ℕ
  pub align : ℕ

-- The errors of the slab allocator, and a failure of the allocator below it.
pub data MemError : Type 0 where
  out_of_memory : MemError
  zero_size_allocation : MemError
  invalid_alloc_size : ℕ → ℕ → MemError
  invalid_alloc_align : ℕ → ℕ → MemError
  ptr_not_allocated : ℕ → MemError
  free_failed : ℕ → MemError

-- What the slabs use: an allocator in the state `S`, and the least multiple of `align` that is not
-- below an address.
pub record Memory (S : Type 0) : Type 0 where
  pub alloc : Layout → S → (MemError ⊎ ℕ) × S
  pub free : ℕ → Layout → S → Option MemError × S
  pub align_up : ℕ → ℕ → ℕ

abbrev pub slab_block_size : ℕ
slab_block_size = 1024

-- The size of a `SlabBlock`, six words of eight bytes.
abbrev pub header_size : ℕ
header_size = 48

-- A block has the address of its header; `next` and `prev` are the order in the list.
pub record SlabBlock : Type 0 where
  pub address : ℕ
  pub start : ℕ
  pub end : ℕ
  pub used : ℕ
  pub freed : ℕ

pub record SlabAllocator : Type 0 where
  pub size : ℕ
  pub block : List SlabBlock

abbrev pub layout : Layout
layout = record { size = slab_block_size; align = 8 }

abbrev pub contains : ℕ → SlabBlock → Bool
contains addr b = leb b.start addr && ltb addr (b.start + slab_block_size)

abbrev pub is_full : ℕ → SlabBlock → Bool
is_full size b = leb b.end (b.start + b.used + size)

abbrev pub is_freed : ℕ → SlabBlock → Bool
is_freed size b = leb b.end (b.start + b.freed + size)

-- The index of the first block that passes the test.
abbrev pub find_block : (SlabBlock → Bool) → List SlabBlock → Option ℕ
find_block test [] = none
find_block test (b ∷ bs) =
    let rest = find_block test bs in
    if test b then some 0 else elim rest [ none ↦ none | some i ↦ some (suc i) ]

abbrev pub find_block_containing : ℕ → List SlabBlock → Option ℕ
find_block_containing ptr bs = find_block (contains ptr) bs

abbrev pub find_block_with_space : ℕ → List SlabBlock → Option ℕ
find_block_with_space size bs = find_block (λ b. not (is_full size b)) bs

module _ {S : Type 0} (mem : Memory S) where
  abbrev pub is_aligned : ℕ → ℕ → Bool
  is_aligned size ptr = mem.align_up size ptr == ptr

  abbrev pub new_block : ℕ → ℕ → SlabBlock
  new_block size block_start = record {
    address = block_start;
    start = mem.align_up size (block_start + header_size);
    end = block_start + (slab_block_size - 1);
    used = 0;
    freed = 0;
  }

  -- The new first block.
  abbrev pub push_new_block : SlabAllocator → S → Option MemError × SlabAllocator × S
  push_new_block a s =
      let (result, t) = mem.alloc layout s in
      elim result [
        | inl e ↦ (some e, a, t)
        | inr block_start ↦ (none, record a { block = new_block a.size block_start ∷ a.block }, t)
      ]

  -- `SlabBlock::alloc`
  abbrev pub alloc_in : ℕ → SlabBlock → Outcome ((MemError ⊎ ℕ) × SlabBlock)
  alloc_in size b =
      if is_full size b
      then ok (inl out_of_memory, b)
      else if size == 0
      then ok (inl zero_size_allocation, b)
      else (assert (leb (b.start + b.used + size) b.end)
          >> assert (is_aligned size (b.start + b.used))
          >> ok (inr (b.start + b.used), record b { used = b.used + size }))

  -- The allocation in the block at an index.
  abbrev pub alloc_at : ℕ → SlabAllocator → S → Outcome ((MemError ⊎ ℕ) × SlabAllocator × S)
  alloc_at i a s = do
    b ← expect (get_elem? a.block i)
    out ← alloc_in a.size b
    ok (out.0, record a { block = set a.block i out.1 }, s)

  -- In a new block, which is the first one then.
  abbrev pub alloc_new :
      Option MemError × SlabAllocator × S → Outcome ((MemError ⊎ ℕ) × SlabAllocator × S)
  alloc_new (some e, a, s) = ok (inl e, a, s)
  alloc_new (none, a, s) = alloc_at 0 a s

  -- In the first block with space, or in a new one.
  abbrev pub alloc_with_space : SlabAllocator → S → Outcome ((MemError ⊎ ℕ) × SlabAllocator × S)
  alloc_with_space a s = elim (find_block_with_space a.size a.block) [
    | some i ↦ alloc_at i a s
    | none ↦ alloc_new (push_new_block a s)
  ]

  -- Without a block, one is made first.
  abbrev pub alloc_or_push :
      Option MemError × SlabAllocator × S → Outcome ((MemError ⊎ ℕ) × SlabAllocator × S)
  alloc_or_push (some e, a, s) = ok (inl e, a, s)
  alloc_or_push (none, a, s) = alloc_with_space a s

  abbrev pub alloc : Layout → SlabAllocator → S → Outcome ((MemError ⊎ ℕ) × SlabAllocator × S)
  alloc l a s =
      if ltb a.size l.size
      then ok (inl (invalid_alloc_size l.size a.size), a, s)
      else if ltb a.size l.align
      then ok (inl (invalid_alloc_align l.align a.size), a, s)
      else elim (a.block) [ [] ↦ alloc_or_push (push_new_block a s) | _ ∷ _ ↦ alloc_with_space a s ]

  -- A block of which all was freed goes back.
  abbrev pub free_at :
      ℕ → SlabBlock → SlabAllocator → S → Outcome (Option MemError × SlabAllocator × S)
  free_at i b a s =
      let freed = record b { freed = b.freed + a.size } in
      if is_freed a.size freed
      then (let out = mem.free b.address layout s in
          ok (out.0, record a { block = remove_at i a.block }, out.1))
      else ok (none, record a { block = set a.block i freed }, s)

  abbrev pub free : ℕ → Layout → SlabAllocator → S → Outcome (Option MemError × SlabAllocator × S)
  free ptr l a s =
      if ltb a.size l.size
      then ok (some (invalid_alloc_size l.size a.size), a, s)
      else if ltb a.size l.align
      then ok (some (invalid_alloc_align l.align a.size), a, s)
      else elim (a.block) [
        | [] ↦ ok (some (free_failed ptr), a, s)
        | _ ∷ _ ↦ elim (find_block_containing ptr a.block) [
          | none ↦ ok (some (ptr_not_allocated ptr), a, s)
          | some i ↦ expect (get_elem? a.block i) >>= λ b. free_at i b a s
        ]
      ]
