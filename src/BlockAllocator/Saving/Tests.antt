-- ===== src/BlockAllocator/Saving/Tests.antt =====
-- modules/wasabi-fs/src/block_allocator.rs: saving and loading at a concrete device.
use wasabi_os.Prelude.{
  ℕ, ◌<◌, ◌≤◌, ◌≡◌, ◌≢◌, ◌⊎◌, refl, true, false, Option, none, some, [], ◌∷◌, ◌==◌, if◌then◌else◌,
  length, ok, arith,
}
use wasabi_os.BlockDevice.Group.{BlockGroup}
use wasabi_os.BlockAllocator.{BlockAllocator, failed, block_device_full}
use wasabi_os.BlockAllocator.FreeList.{IsFree}
use wasabi_os.BlockAllocator.Fitting.{Takes, AllSmaller}
use wasabi_os.BlockAllocator.Saving.{FreeBlockGroups, Disk, write}
use wasabi_os.BlockAllocator.Saving.Chains.{Stores}
use wasabi_os.BlockAllocator.Saving.Reloading.{Reloads, cleared, write-load}

-- A device as a function from its blocks.
abbrev Memory : Type 0
Memory = ℕ → Option FreeBlockGroups

abbrev memory_disk : Disk Memory
memory_disk = record {
  write_block = λ lba part s. some (λ block. if block == lba then some part else s block);
  read_pointer = λ lba s. s lba;
}

memory_disk-Stores : Stores memory_disk 64
memory_disk-Stores = record { store = go }
  where
    go :
        (lba : ℕ) (part : FreeBlockGroups) (s : Memory)
        → lba < 64
        → length part.free ≤ 250
        → (t : Memory) × (memory_disk.write_block lba part s ≡ some t)
          × (memory_disk.read_pointer lba t ≡ some part)
          × ((other : ℕ)
              → other ≢ lba
              → memory_disk.read_pointer other t ≡ memory_disk.read_pointer other s)
    go lba part s lt fits =
        let own : (lba == lba) ≡ true = ground arith in
        (
          (λ block. if block == lba then some part else s block),
          refl,
          rw own,
          λ other apart. let differs : (other == lba) ≡ false = ground arith in rw differs,
        )

abbrev blank : Memory
blank block = none

abbrev used_once : BlockAllocator
used_once = record {
  free = record { start = 2; count = 1 } ∷ record { start = 8; count = 40 } ∷ [];
  on_disk = none;
  self_on_disk = [];
  dirty = true;
}

used_once-IsFree : IsFree 64 used_once.free
used_once-IsFree = record {
  sorted = (omega arith, omega arith, omega arith, (omega arith, omega arith, omega arith, tt));
  addresses = omega arith;
}

write-load_example :
    ((out : BlockAllocator) × (g : BlockGroup) × Takes 64 1 (cleared used_once) out g
      × Reloads memory_disk 9 used_once blank g out)
    ⊎ (AllSmaller 1 used_once.free
        × (write memory_disk used_once blank ≡ ok (used_once, blank, failed (block_device_full 1))))
write-load_example =
    write-load memory_disk 64 0 9 used_once blank memory_disk-Stores used_once-IsFree refl
      (omega arith) refl (omega arith)
