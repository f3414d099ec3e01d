-- ===== src/BlockAllocator/Tests.antt =====
-- modules/wasabi-fs/src/block_allocator.rs: the theorems at a concrete allocator, and runs of the
-- code.
use wasabi_os.Prelude.{
  ℕ, ◌^◌, ◌<◌, ◌≡◌, ◌≢◌, ◌↔◌, ◌⊎◌, refl, inl, inr, true, false, none, some, List, [], ◌∷◌, ok,
  arith, zero, suc,
}
use wasabi_os.BlockDevice.Group.{BlockGroup}
use wasabi_os.BlockDevice.Group
use wasabi_os.BlockDevice.Lba
use wasabi_os.BlockAllocator.{
  BlockAllocator, done, failed, no_consecutive_free_blocks, block_device_full, mark_used, empty,
  allocate_group, allocate, free_group,
}
use wasabi_os.BlockAllocator.FreeList.{In, Covers, IsFree}
use wasabi_os.BlockAllocator.Marking.{Marks, mark_used-Marks, Among, empty_free}
use wasabi_os.BlockAllocator.Fitting.{Takes, AllSmaller, allocate_group-Takes}
use wasabi_os.BlockAllocator.Allocating.{allocate_pow}
use wasabi_os.BlockAllocator.Freeing.{free_group-Joined, free_group_lost}

abbrev group : ℕ → ℕ → BlockGroup
group start count = record { start = start; count = count }

abbrev with_free : List BlockGroup → BlockAllocator
with_free free = record { free = free; on_disk = none; self_on_disk = []; dirty = false }

-- 10, 11, 12 and 20 to 29 are free.
abbrev disk : BlockAllocator
disk = with_free (group 10 3 ∷ group 20 10 ∷ [])

disk-IsFree : IsFree 64 disk.free
disk-IsFree = record { sorted = omega arith; addresses = omega arith }

mark_middle : mark_used 25 disk ≡ ok (some (with_free (group 10 3 ∷ group 20 5 ∷ group 26 4 ∷ [])))
unfolding mark_used Group.contains Group.end Group.new Lba.add Lba.sub Lba.distance
mark_middle = refl

mark_used-Marks_example :
    ((Covers disk.free 25)
      × ((out : BlockAllocator) × (mark_used 25 disk ≡ ok (some out)) × Marks 64 25 disk out))
    ⊎ ((¬ Covers disk.free 25) × (mark_used 25 disk ≡ ok none))
mark_used-Marks_example = mark_used-Marks 64 25 disk disk-IsFree

empty_free_example :
    (out : BlockAllocator) × (empty (0 ∷ 5 ∷ []) 64 ≡ ok out)
    × IsFree 64 out.free
    × ((b : ℕ) → Covers out.free b ↔ ((b < 64) × (¬ Among b (0 ∷ 5 ∷ []))))
empty_free_example =
    empty_free (0 ∷ 5 ∷ []) 64 (omega arith) (omega arith) (λ h. ground arith, (λ h. h, tt))
      (λ b h. ground arith)

allocate_group-Takes_example :
    ((out : BlockAllocator) × (g : BlockGroup) × (allocate_group 2 disk ≡ ok (out, done g))
      × Takes 64 2 disk out g)
    ⊎ (AllSmaller 2 disk.free
        × (allocate_group 2 disk ≡ ok (disk, failed (no_consecutive_free_blocks 2))))
allocate_group-Takes_example = allocate_group-Takes 64 2 disk disk-IsFree (omega arith)

allocate_pow_example :
    ((out : BlockAllocator) × (g : BlockGroup) × (allocate 8 disk ≡ ok (out, done (g ∷ [])))
      × Takes 64 8 disk out g)
    ⊎ (AllSmaller 8 disk.free × (allocate 8 disk ≡ ok (disk, failed (block_device_full 8))))
allocate_pow_example = allocate_pow 64 3 disk disk-IsFree (omega arith)

not_power : (k : ℕ) → 3 ≢ 2 ^ k
not_power zero e = omega arith
not_power (suc k) e = omega (arith, Prim.Native.Nat.pow.suc 2 k)

free_group-Joined_example :
    (out : BlockAllocator) × (free_group (group 13 2) disk ≡ ok out)
    × IsFree 64 out.free
    × ((b : ℕ) → Covers out.free b ↔ (In b (group 13 2) ⊎ Covers disk.free b))
free_group-Joined_example =
    free_group-Joined 64 (group 13 2) disk disk-IsFree (omega arith) (omega arith)
      (λ b c. ground arith) (25, inr (inl (omega arith)), inl (omega arith))

-- The blocks from 40 on are used, and stay so.
free_group_lost_example : free_group (group 40 4) disk ≡ ok (record disk { dirty = true })
free_group_lost_example =
    free_group_lost 30 (group 40 4) disk (record { sorted = omega arith; addresses = omega arith })
      (omega arith)
