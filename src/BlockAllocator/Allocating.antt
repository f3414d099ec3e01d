-- ===== src/BlockAllocator/Allocating.antt =====
-- modules/wasabi-fs/src/block_allocator.rs: what `allocate` does for every count. It compares the
-- remaining size and the group size the wrong way round, so it never takes more than one group.
use native.Mathlib.Nat.{pow-suc}
use wasabi_os.Prelude.{
  ℕ, zero, suc, ◌+◌, ◌-◌, ◌/◌, ◌^◌, ◌≤◌, ◌<◌, ◌≡◌, refl, ◌⊎◌, inl, inr, ◌≢◌, true, false, List, [],
  ◌∷◌, arith, ltb, ok, lt→ltb, le→leb, Bool-cases, ◌==◌, ltb→ge,
}
use wasabi_os.BlockDevice.Group.{BlockGroup}
use wasabi_os.BlockAllocator.{
  BlockAllocator, done, failed, block_device_full, block_count, ilog2_digits, allocate_loop,
  allocate,
}
use wasabi_os.BlockAllocator.FreeList.{IsFree}
use wasabi_os.BlockAllocator.Fitting.{Takes, AllSmaller, allocate_group-Takes}

ilog2-le : (f n : ℕ) → 1 ≤ n → 2 ^ ilog2_digits f n ≤ n
unfolding ilog2_digits
ilog2-le zero n h = omega arith
ilog2-le (suc f) n h = elim (Bool-cases (ltb n 2)) [
  | inl small ↦ rw small (omega arith)
  | inr large ↦ rw large (
      omega (
        arith,
        ltb→ge n 2 large,
        pow-suc 2 (ilog2_digits f (n / 2)),
        ilog2-le f (n / 2) (omega (arith, ltb→ge n 2 large)),
      ))
]

pub pow_pos : (k : ℕ) → 1 ≤ 2 ^ k
pow_pos zero = omega arith
pow_pos (suc k) = omega (arith, pow-suc 2 k, pow_pos k)

ilog2-pow : (f k : ℕ) → k ≤ f → ilog2_digits f (2 ^ k) ≡ k
unfolding ilog2_digits
ilog2-pow zero zero h = refl
ilog2-pow zero (suc k) h = absurd (omega arith)
ilog2-pow (suc f) zero h = refl
ilog2-pow (suc f) (suc k) h =
    let double = pow-suc 2 k in
    let pos = pow_pos k in
    let half : 2 ^ suc k / 2 ≡ 2 ^ k = omega arith in
    let large : ltb (2 ^ suc k) 2 ≡ false = ground arith in
    rw (large, half, ilog2-pow f k (omega arith))

-- A group size below the remaining size is halved until nothing is left of it.
allocate_loop_full :
    (fuel count remaining group_size : ℕ) (a : BlockAllocator)
    → group_size < fuel
    → group_size < remaining
    → allocate_loop fuel count remaining group_size [] a ≡ ok (a, failed (block_device_full count))
unfolding allocate_loop
allocate_loop_full zero count remaining group_size a m h = absurd (omega arith)
allocate_loop_full (suc fuel) count remaining group_size a m h =
    elim (Bool-cases (group_size == 0)) [
      | inl empty ↦ rw (lt→ltb 0 remaining (omega arith), empty)
      | inr some_left ↦
          rw (lt→ltb 0 remaining (omega arith), some_left, lt→ltb group_size remaining h)
            (allocate_loop_full fuel count remaining (group_size / 2) a (ground arith)
              (omega arith))
    ]

-- `allocate` of a count of at least one that is no power of two always fails as if the device were
-- full, and changes nothing, however many blocks are free.
pub allocate_odd :
    (count : ℕ) (a : BlockAllocator)
    → 1 ≤ count
    → ((k : ℕ) → count ≢ 2 ^ k)
    → allocate count a ≡ ok (a, failed (block_device_full count))
unfolding allocate
allocate_odd count a pos odd =
    let below : 2 ^ ilog2_digits 64 count < count =
      omega (arith, ilog2-le 64 count pos, odd (ilog2_digits 64 count)) in
    rw (
      le→leb 1 count pos,
      allocate_loop_full (suc (count + 2 ^ ilog2_digits 64 count)) count count
          (2 ^ ilog2_digits 64 count) a (omega arith) below,
    )

allocate_loop_done :
    (fuel count group_size : ℕ) (list : List BlockGroup) (a : BlockAllocator)
    → allocate_loop (suc fuel) count 0 group_size list a ≡ ok (a, done list)
unfolding allocate_loop
allocate_loop_done fuel count group_size list a = refl

Takes-dirty :
    (blocks size : ℕ) (a out : BlockAllocator) (g : BlockGroup)
    → Takes blocks size a out g
    → Takes blocks size a (record out { dirty = true }) g
Takes-dirty blocks size a out g t = record {
  sized = t.sized;
  was_free = t.was_free;
  covers = t.covers;
  valid = t.valid;
  source = t.source;
  listed = t.listed;
  front = t.front;
  least = t.least;
  shorter = t.shorter;
  saved = t.saved;
}

-- A round in which the group size is all that remains.
allocate_loop_whole :
    (fuel blocks size : ℕ) (a : BlockAllocator)
    → IsFree blocks a.free
    → 1 ≤ size
    → size < fuel
    → ((out : BlockAllocator) × (g : BlockGroup) × (allocate_loop (suc fuel) size size size [] a
          ≡ ok (out, done (g ∷ [])))
        × Takes blocks size a out g)
      ⊎ (AllSmaller size a.free
          × (allocate_loop (suc fuel) size size size [] a
              ≡ ok (a, failed (block_device_full size))))
unfolding allocate_loop
allocate_loop_whole zero blocks size a v pos m = absurd (omega arith)
allocate_loop_whole (suc fuel) blocks size a v pos m =
    let some_left : (size == 0) ≡ false = ground arith in
    let whole : ltb size size ≡ false = ground arith in
    let nothing : size - size ≡ 0 = omega arith in
    elim (allocate_group-Takes blocks size a v pos) [
      | inl (out, g, run, takes) ↦
          inl (out, g, rw (lt→ltb 0 size pos, some_left, whole, run) (rw nothing), takes)
      | inr (small, run) ↦ inr (
        small,
        rw (lt→ltb 0 size pos, some_left, whole, run)
            (allocate_loop_full (suc fuel) size size (size / 2) a (omega arith) (omega arith)),
      )
    ]

-- On a well-formed list `allocate` of a power of two below 2^64 never panics: it returns one group
-- as `allocate_group` takes it, or no single group has that many blocks, and it fails and changes
-- nothing, also where smaller groups have enough blocks together.
pub allocate_pow :
    (blocks k : ℕ) (a : BlockAllocator)
    → IsFree blocks a.free
    → k < 64
    → ((out : BlockAllocator) × (g : BlockGroup) × (allocate (2 ^ k) a ≡ ok (out, done (g ∷ [])))
        × Takes blocks (2 ^ k) a out g)
      ⊎ (AllSmaller (2 ^ k) a.free
          × (allocate (2 ^ k) a ≡ ok (a, failed (block_device_full (2 ^ k)))))
unfolding allocate
allocate_pow blocks k a v h =
    let pos = pow_pos k in
    let log = ilog2-pow 64 k (omega arith) in
    elim (allocate_loop_whole (2 ^ k + 2 ^ k) blocks (2 ^ k) a v pos (omega arith)) [
      | inl (out, g, run, takes) ↦
          let total : (block_count (g ∷ []) == 2 ^ k) ≡ true = ground (arith, takes.sized) in
          inl (
            record out { dirty = true },
            g,
            rw (le→leb 1 (2 ^ k) pos, log, run) (rw total),
            Takes-dirty blocks (2 ^ k) a out g takes,
          )
      | inr (small, run) ↦ inr (small, rw (le→leb 1 (2 ^ k) pos, log, run))
    ]
