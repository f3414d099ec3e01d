-- ===== src/KernelHeap/Freeing.antt =====
-- A pointer goes back to the block that gave it, and a block goes back when all of it was freed.
use wasabi_os.Prelude.{
  ℕ, zero, suc, ◌+◌, ◌*◌, ◌≤◌, ◌<◌, ◌≡◌, refl, sym, ◌∙◌, ap, subst, true, false, Bool-cases, Option,
  none, some, ◌⊎◌, inl, inr, List, [], ◌∷◌, get_elem?, set, remove_at, ltb, leb, arith, ok, ◌>>=◌,
  expect,
}
use native.Mathlib.Nat.{add-mul, mul-le-mul_right, le_of_mul-le-mul_right, lt_of_mul-lt-mul_right}
use wasabi_os.KernelHeap.{
  Layout, Memory, MemError, SlabBlock, SlabAllocator, slab_block_size, layout, contains, is_full,
  is_freed, find_block_containing, free_failed, ptr_not_allocated, free_at, free,
}
use wasabi_os.KernelHeap.Slabs.{
  Rounds, IsBlock, AreBlocks, IsFarFrom, AreApart, AreBlocks-get_elem?, AreBlocks-set,
  AreBlocks-remove_at,
}

some-eq {ℓ} : {A : Type ℓ} {x y : A} → some x ≡ some y → x ≡ y
some-eq e = ground arith

leb→le : (a b : ℕ) → leb a b ≡ true → a ≤ b
leb→le a b e = ground arith

module _ {S : Type 0} (mem : Memory S) (size q : ℕ) (rounds : Rounds mem size) (pos : 0 < size)
    (divides : slab_block_size ≡ q * size) where
  far_at :
      (cs : List SlabBlock) (i : ℕ) (b c : SlabBlock)
      → IsFarFrom mem size c cs
      → get_elem? cs i ≡ some b
      → (c.address + slab_block_size ≤ b.address) ⊎ (b.address + slab_block_size ≤ c.address)
  far_at [] i b c far e = cc
  far_at (d ∷ ds) zero b c far e =
      subst {A = SlabBlock}
        (λ x. (c.address + slab_block_size ≤ x.address) ⊎ (x.address + slab_block_size ≤ c.address))
        (some-eq e) far.0
  far_at (d ∷ ds) (suc i) b c far e = far_at ds i b c far.1 e

  -- The start moves on at least by as much as the header does.
  starts_apart :
      (a b : ℕ)
      → a + slab_block_size ≤ b
      → mem.align_up size a + slab_block_size ≤ mem.align_up size b
  starts_apart a b apart =
      let (k, ek) = rounds.multiple a in
      let (m, em) = rounds.multiple b in
      elim (Bool-cases (leb (k + q) m)) [
        | inl behind ↦ omega (
          arith,
          ek,
          em,
          divides,
          add-mul k q size,
          mul-le-mul_right size (leb→le (k + q) m behind),
        )
        | inr before ↦ absurd (
            omega (
              arith,
              ek,
              em,
              divides,
              add-mul k q size,
              add-mul m 1 size,
              mul-le-mul_right {m = m + 1} {n = k + q} size (ground arith),
              rounds.above b,
              rounds.least a,
              apart,
            ))
      ]

  -- Another block that is far enough does not contain the pointer.
  elsewhere :
      (ptr : ℕ) (b c : SlabBlock)
      → IsBlock mem size b
      → IsBlock mem size c
      → (c.address + slab_block_size ≤ b.address) ⊎ (b.address + slab_block_size ≤ c.address)
      → b.start ≤ ptr
      → ptr < b.start + b.used
      → contains ptr c ≡ false
  elsewhere ptr b c is_b is_c (inl before) low high = ground (
    arith,
    is_b.start_at,
    is_c.start_at,
    starts_apart (c.address + 48) (b.address + 48) (omega arith),
  )
  elsewhere ptr b c is_b is_c (inr behind) low high =
      ground (arith, is_b.inside, is_b.end_at, is_c.start_at, rounds.above (c.address + 48))

  -- (find)
  pub find_block_containing-given :
      (ptr : ℕ) (bs : List SlabBlock) (i : ℕ) (b : SlabBlock)
      → AreBlocks mem size bs
      → AreApart mem size bs
      → get_elem? bs i ≡ some b
      → b.start ≤ ptr
      → ptr < b.start + b.used
      → find_block_containing ptr bs ≡ some i
  find_block_containing-given ptr [] i b are apart e low high = cc
  find_block_containing-given ptr (c ∷ cs) zero b are apart e low high =
      rw
        (subst (λ x. contains ptr x ≡ true) (sym (some-eq e))
          (itself (subst (IsBlock mem size) (some-eq e) are.0)))
        refl
    where
      itself : IsBlock mem size b → contains ptr b ≡ true
      itself is = ground (arith, is.inside, is.end_at, is.start_at, rounds.above (b.address + 48))
  find_block_containing-given ptr (c ∷ cs) (suc i) b are apart e low high =
      rw
        (elsewhere ptr b c (AreBlocks-get_elem? mem size cs i b are.1 e) are.0
          (far_at cs i b c apart.0 e) low high)
        (rw (find_block_containing-given ptr cs i b are.1 apart.1 e low high) refl)

  -- The block has the bytes counted as freed, or goes back to the allocator below.
  abbrev pub Frees : ℕ → Layout → ℕ → SlabBlock → SlabAllocator → S → Type 0
  Frees ptr l i b a s =
      (e : Option MemError) × (a' : SlabAllocator) × (s' : S) × (free mem ptr l a s
        ≡ ok (e, a', s'))
      × AreBlocks mem size a'.block
      × (((e ≡ none)
            × (s' ≡ s)
            × (a' ≡ record a { block = set a.block i (record b { freed = b.freed + size }) })
            × ((is_full size b ≡ false) ⊎ (b.freed + size < b.used)))
          ⊎ ((is_full size b ≡ true)
              × (b.used ≡ b.freed + size)
              × (a' ≡ record a { block = remove_at i a.block })
              × ((e, s') ≡ mem.free b.address layout s)))

  -- With such a rounding, a slab size that divides the size of a block, blocks that are as they
  -- have to be and do not overlap, and a pointer into the used bytes of one of them that has
  -- allocations left, `free` of a fitting layout counts one allocation as freed in that very block
  -- and changes nothing else; only if the block is full and nothing else of it is left, it takes
  -- the block out and hands it, by its address, to the allocator below, whose error it returns.
  pub free-Frees :
      (ptr : ℕ) (l : Layout) (i : ℕ) (b : SlabBlock) (a : SlabAllocator) (s : S)
      → a.size ≡ size
      → l.size ≤ size
      → l.align ≤ size
      → AreBlocks mem size a.block
      → AreApart mem size a.block
      → get_elem? a.block i ≡ some b
      → b.start ≤ ptr
      → ptr < b.start + b.used
      → b.freed + size ≤ b.used
      → Frees ptr l i b a s
  free-Frees ptr l i b a s sized fits aligns are apart at_i low high live =
      elim (Bool-cases (is_freed size freed)) [
        | inl all ↦ (
          (mem.free b.address layout s).0,
          record a { block = remove_at i a.block },
          (mem.free b.address layout s).1,
          opened ∙ rw (sized, free_at) (rw (all) refl),
          AreBlocks-remove_at mem size a.block i are,
          inr (ground arith, counted (ground (arith, is.inside)), refl, refl),
        )
        | inr some_left ↦ (
          none,
          record a { block = set a.block i freed },
          s,
          opened ∙ rw (sized, free_at) (rw (some_left) refl),
          AreBlocks-set mem size a.block i freed are freed-IsBlock,
          inl (refl, refl, refl, left_over some_left),
        )
      ]
    where
      is : IsBlock mem size b
      is = AreBlocks-get_elem? mem size a.block i b are at_i

      freed : SlabBlock
      freed = record b { freed = b.freed + size }

      freed-IsBlock : IsBlock mem size freed
      freed-IsBlock = record {
        start_at = is.start_at;
        end_at = is.end_at;
        used_count = is.used_count;
        used_by = is.used_by;
        inside = is.inside;
        freed_le = live;
        freed_count = is.freed_count + 1;
        freed_by = omega (arith, add-mul is.freed_count 1 size, is.freed_by);
      }

      counted : b.used < b.freed + size + size → b.used ≡ b.freed + size
      counted lt =
          let two = add-mul is.freed_count 2 size in
          let one = add-mul is.freed_count 1 size in
          let below =
            lt_of_mul-lt-mul_right size {m = is.used_count} {n = is.freed_count + 2}
              (omega (arith, two, is.used_by, is.freed_by)) in
          let above =
            le_of_mul-le-mul_right {m = is.freed_count + 1} {n = is.used_count} {k = size}
              (omega (arith, one, is.used_by, is.freed_by)) pos in
          is.used_by
          ∙ ap (λ k. k * size) {x = is.used_count} {y = is.freed_count + 1} (omega arith)
          ∙ omega (arith, one, is.freed_by)

      left_over : is_freed size freed ≡ false → (is_full size b ≡ false) ⊎ (b.freed + size < b.used)
      left_over e = elim (Bool-cases (is_full size b)) [
        | inl full ↦ inr (ground arith)
        | inr room ↦ inl room
      ]

      sizes : ltb a.size l.size ≡ false
      sizes = ground (arith, sized)

      aligned_to : ltb a.size l.align ≡ false
      aligned_to = ground (arith, sized)

      found : find_block_containing ptr a.block ≡ some i
      found = find_block_containing-given ptr a.block i b are apart at_i low high

      by_blocks :
          (bs : List SlabBlock)
          → get_elem? bs i ≡ some b
          → (elim bs [
            | [] ↦ ok (some (free_failed ptr), a, s)
            | _ ∷ _ ↦ elim (find_block_containing ptr a.block) [
              | none ↦ ok (some (ptr_not_allocated ptr), a, s)
              | some j ↦ expect (get_elem? a.block j) >>= λ c. free_at mem j c a s
            ]
          ])
            ≡ free_at mem i b a s
      by_blocks [] e = cc
      by_blocks (c ∷ cs) e = rw (found) (rw (at_i, ◌>>=◌) refl)

      opened : free mem ptr l a s ≡ free_at mem i b a s
      opened = rw (sizes, free) (rw (aligned_to) refl) ∙ by_blocks a.block at_i
