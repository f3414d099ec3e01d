-- ===== src/KernelHeap/Tests.antt =====
-- A slab of 64 bytes, over an allocator that gives one block after the other.
use wasabi_os.Prelude.{ℕ, zero, suc, ◌+◌, ◌*◌, ◌/◌, ◌≡◌, refl, none, inr, [], ◌∷◌, arith, ok, ◌>>=◌}
use wasabi_os.KernelHeap.{Memory, SlabAllocator, alloc}
use wasabi_os.KernelHeap.Slabs.{Rounds, AreBlocks}
use wasabi_os.KernelHeap.Allocating.{Result, alloc-Gives}
use wasabi_os.KernelHeap.Freeing.{Frees, free-Frees}

-- Rounded up by the remainder of the division.
abbrev round_up : ℕ → ℕ → ℕ
round_up zero x = x
round_up (suc n) x = (x + n) / suc n * suc n

abbrev memory : Memory ℕ
memory = record {
  alloc = λ l s. (inr s, s + l.size);
  free = λ addr l s. (none, s);
  align_up = round_up;
}

memory-Rounds : Rounds memory 64
memory-Rounds = record {
  multiple = λ x. ((x + 63) / 64, refl);
  above = λ x. omega arith;
  least = λ x. omega arith;
  fixed = λ k. omega arith;
}

abbrev slab : SlabAllocator
slab = record {
  size = 64;
  block =
      record { address = 8192; start = 8256; end = 9215; used = 128; freed = 0 }
      ∷ record { address = 4096; start = 4160; end = 5119; used = 64; freed = 0 }
      ∷ [];
}

slab-AreBlocks : AreBlocks memory 64 slab.block
slab-AreBlocks = (
  record {
    start_at = refl;
    end_at = refl;
    used_count = 2;
    used_by = refl;
    inside = omega arith;
    freed_le = omega arith;
    freed_count = 0;
    freed_by = refl;
  },
  (
    record {
      start_at = refl;
      end_at = refl;
      used_count = 1;
      used_by = refl;
      inside = omega arith;
      freed_le = omega arith;
      freed_count = 0;
      freed_by = refl;
    },
    tt,
  ),
)

-- The third allocation from the first block.
test_alloc :
    (alloc memory (record { size = 40; align = 8 }) slab 9216 >>= λ r. ok r.0) ≡ ok (inr 8384)
test_alloc = refl

alloc-Gives_example :
    Result memory 64 memory-Rounds
      (omega arith)
      (omega arith)
      (record { size = 40; align = 8 })
      slab
      9216
      (alloc memory (record { size = 40; align = 8 }) slab 9216)
alloc-Gives_example =
    alloc-Gives memory 64 memory-Rounds (omega arith) (omega arith)
      (record { size = 40; align = 8 }) slab 9216 refl slab-AreBlocks (omega arith) (omega arith)

free-Frees_example :
    Frees memory 64 16 memory-Rounds
      (omega arith)
      refl
      4160
      (record { size = 40; align = 8 })
      1
      (record { address = 4096; start = 4160; end = 5119; used = 64; freed = 0 })
      slab
      9216
free-Frees_example =
    free-Frees memory 64 16 memory-Rounds (omega arith) refl 4160 (record { size = 40; align = 8 })
      1 (record { address = 4096; start = 4160; end = 5119; used = 64; freed = 0 }) slab 9216 refl
      (omega arith) (omega arith) slab-AreBlocks ((inr (omega arith), tt), (tt, tt)) refl
      (omega arith) (omega arith) (omega arith)
