-- ===== src/KernelHeap/Allocating.antt =====
-- The allocation from a slab.
use wasabi_os.Prelude.{
  ℕ, ◌+◌, ◌*◌, ◌≤◌, ◌<◌, ◌≡◌, refl, sym, ◌∙◌, ap, subst, Bool, true, false, not, le→leb, some, ◌⊎◌,
  inl, inr, List, [], ◌∷◌, get_elem?, set, ltb, ◌==◌, arith, Outcome, ok, ◌>>=◌,
}
use native.Mathlib.Nat.{add-mul}
use wasabi_os.KernelHeap.{
  Layout, Memory, MemError, SlabBlock, SlabAllocator, header_size, layout, is_full, is_aligned,
  find_block, new_block, push_new_block, alloc_in, alloc_at, alloc_new, alloc_with_space,
  alloc_or_push, alloc,
}
use wasabi_os.KernelHeap.Slabs.{
  Rounds, IsBlock, AreBlocks, AreBlocks-get_elem?, AreBlocks-set, new_block-IsBlock,
  find_block-cases,
}

find_first :
    (test : SlabBlock → Bool) (b : SlabBlock) (bs : List SlabBlock)
    → test b ≡ true
    → find_block test (b ∷ bs) ≡ some 0
find_first test b bs e = rw (e) refl

module _ {S : Type 0} (mem : Memory S) (size : ℕ) (rounds : Rounds mem size) (pos : 0 < size)
    (small : size ≤ 256) where
  abbrev pub grown : SlabBlock → SlabBlock
  grown b = record b { used = b.used + size }

  aligned : (b : SlabBlock) → IsBlock mem size b → is_aligned mem size (b.start + b.used) ≡ true
  aligned b is =
      ground (arith, ap (mem.align_up size) whole ∙ rounds.fixed (k + is.used_count) ∙ sym whole)
    where
      k : ℕ
      k = (rounds.multiple (b.address + header_size)).0

      whole : b.start + b.used ≡ (k + is.used_count) * size
      whole = omega (
        arith,
        add-mul k is.used_count size,
        is.start_at,
        (rounds.multiple (b.address + header_size)).1,
        is.used_by,
      )

  grown-IsBlock :
      (b : SlabBlock) → IsBlock mem size b → is_full size b ≡ false → IsBlock mem size (grown b)
  grown-IsBlock b is room = record {
    start_at = is.start_at;
    end_at = is.end_at;
    used_count = is.used_count + 1;
    used_by = omega (arith, add-mul is.used_count 1 size, is.used_by);
    inside = ground (arith, is.inside);
    freed_le = omega (arith, is.freed_le);
    freed_count = is.freed_count;
    freed_by = is.freed_by;
  }

  alloc_in_lem :
      (b : SlabBlock)
      → IsBlock mem size b
      → is_full size b ≡ false
      → alloc_in mem size b ≡ ok (inr (b.start + b.used), grown b)
  alloc_in_lem b is room =
      rw (room, alloc_in)
        (rw (not_zero)
          (rw (le→leb (b.start + b.used + size) b.end (ground arith), aligned b is) refl))
    where
      not_zero : (size == 0) ≡ false
      not_zero = ground arith

  -- The block whose next bytes are given, of the blocks or with a new first one.
  pub record Gives (l : Layout) (a : SlabAllocator) (s : S) (out : MemError ⊎ ℕ)
      (a' : SlabAllocator) : Type 0 where
    pub blocks : List SlabBlock
    pub same_or_new :
        (blocks ≡ a.block)
        ⊎ ((start : ℕ) × ((mem.alloc layout s).0 ≡ inr start)
            × (blocks ≡ new_block mem size start ∷ a.block))
    pub index : ℕ
    pub block : SlabBlock
    pub at_index : get_elem? blocks index ≡ some block
    pub given : out ≡ inr (block.start + block.used)
    pub behind_header : block.address + header_size ≤ block.start
    pub fits : block.start + block.used + size ≤ block.end
    pub changed : a' ≡ record a { block = set blocks index (grown block) }
    pub are : AreBlocks mem size a'.block

  abbrev pub Result :
      Layout → SlabAllocator → S → Outcome ((MemError ⊎ ℕ) × SlabAllocator × S) → Type 0
  Result l a s o =
      (out : MemError ⊎ ℕ) × (a' : SlabAllocator) × (s' : S) × (o ≡ ok (out, a', s'))
      × (((e : MemError) × ((mem.alloc layout s).0 ≡ inl e) × (out ≡ inl e) × (a' ≡ a))
          ⊎ Gives l a s out a')

  module _ (l : Layout) (a : SlabAllocator) (s : S) (sized : a.size ≡ size)
      (are : AreBlocks mem size a.block) where
    at_block :
        (bs : List SlabBlock) (t : S) (i : ℕ) (b : SlabBlock)
        → AreBlocks mem size bs
        → (bs ≡ a.block)
          ⊎ ((start : ℕ) × ((mem.alloc layout s).0 ≡ inr start)
              × (bs ≡ new_block mem size start ∷ a.block))
        → get_elem? bs i ≡ some b
        → is_full size b ≡ false
        → Result l a s (alloc_at mem i (record a { block = bs }) t)
    at_block bs t i b are_bs from at_i room = (
      inr (b.start + b.used),
      record a { block = set bs i (grown b) },
      t,
      rw (at_i, alloc_at)
          (rw (sized) (
            rw (alloc_in_lem b (AreBlocks-get_elem? mem size bs i b are_bs at_i) room, ◌>>=◌)
              refl)),
      inr (record {
        blocks = bs;
        same_or_new = from;
        index = i;
        block = b;
        at_index = at_i;
        given = refl;
        behind_header = omega (arith, is.start_at, rounds.above (b.address + 48));
        fits = ground arith;
        changed = refl;
        are = AreBlocks-set mem size bs i (grown b) are_bs (grown-IsBlock b is room);
      }),
    )
      where
        is : IsBlock mem size b
        is = AreBlocks-get_elem? mem size bs i b are_bs at_i

    fresh_room : (start : ℕ) → is_full size (new_block mem size start) ≡ false
    fresh_room start = ground (arith, rounds.least (start + 48))

    at_new :
        (start : ℕ) (t : S)
        → (mem.alloc layout s).0 ≡ inr start
        → Result l a s (alloc_at mem 0 (record a { block = new_block mem size start ∷ a.block }) t)
    at_new start t e =
        at_block (new_block mem size start ∷ a.block) t 0 (new_block mem size start)
          (new_block-IsBlock mem size rounds small start, are) (inr (start, e, refl)) refl
          (fresh_room start)

    pushed :
        (r : MemError ⊎ ℕ)
        → (mem.alloc layout s).0 ≡ r
        → Result l a s (alloc_new mem (push_new_block mem a s))
    pushed (inl e) failed = (
      inl e,
      a,
      (mem.alloc layout s).1,
      rw (failed, push_new_block) refl,
      inl (e, failed, refl, refl),
    )
    pushed (inr start) got =
        subst (Result l a s) (sym opened) (at_new start (mem.alloc layout s).1 got)
      where
        opened :
            alloc_new mem (push_new_block mem a s)
            ≡ alloc_at mem 0
                (record a { block = new_block mem size start ∷ a.block })
                (mem.alloc layout s).1
        opened = rw (got, push_new_block) (rw (sized) refl)

    with_space : Result l a s (alloc_with_space mem a s)
    with_space = elim (find_block-cases (λ b. not (is_full a.size b)) a.block) [
      | inl e ↦
          subst (Result l a s) (sym (rw (e, alloc_with_space) refl))
            (pushed (mem.alloc layout s).0 refl)
      | inr (i, b, e, at_i, room) ↦
          subst (Result l a s) (sym (rw (e, alloc_with_space) refl))
            (at_block a.block s i b are (inl refl) at_i (ground (arith, sized)))
    ]

    or_push :
        (r : MemError ⊎ ℕ)
        → (mem.alloc layout s).0 ≡ r
        → Result l a s (alloc_or_push mem (push_new_block mem a s))
    or_push (inl e) failed = (
      inl e,
      a,
      (mem.alloc layout s).1,
      rw (failed, push_new_block) refl,
      inl (e, failed, refl, refl),
    )
    or_push (inr start) got =
        subst (Result l a s) (sym opened) (at_new start (mem.alloc layout s).1 got)
      where
        opened :
            alloc_or_push mem (push_new_block mem a s)
            ≡ alloc_at mem 0
                (record a { block = new_block mem size start ∷ a.block })
                (mem.alloc layout s).1
        opened =
            rw (got, push_new_block)
              (rw
                (
                  find_first (λ b. not (is_full a.size b)) (new_block mem a.size start) a.block
                      (subst (λ z. not (is_full z (new_block mem z start)) ≡ true) (sym sized)
                        (ap not (fresh_room start))),
                  alloc_with_space,
                )
                (rw (sized) refl))

    -- With a rounding of addresses to multiples of a slab size from 1 to 256, and blocks whose used
    -- bytes follow each other from their start, `alloc` of a layout that is no larger and no more
    -- aligned than the slab never panics. It fails only with the error of the allocator below, and
    -- then the slab is as before; or it returns the first unused bytes of one block, of those it
    -- had or of a new first one: they lie behind the header and in the block, the block counts them
    -- as used and no other block changes. The blocks stay as they have to be.
    pub alloc-Gives : l.size ≤ size → l.align ≤ size → Result l a s (alloc mem l a s)
    alloc-Gives fits aligns =
        subst (Result l a s) (sym (rw (sizes, alloc) (rw (aligned_to) refl))) (by_blocks a.block)
      where
        sizes : ltb a.size l.size ≡ false
        sizes = ground (arith, sized)

        aligned_to : ltb a.size l.align ≡ false
        aligned_to = ground (arith, sized)

        by_blocks :
            (bs : List SlabBlock)
            → Result l a s (elim bs [
              | [] ↦ alloc_or_push mem (push_new_block mem a s)
              | _ ∷ _ ↦ alloc_with_space mem a s
            ])
        by_blocks [] = or_push (mem.alloc layout s).0 refl
        by_blocks (b ∷ bs) = with_space
