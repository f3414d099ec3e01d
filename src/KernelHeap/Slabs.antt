-- ===== src/KernelHeap/Slabs.antt =====
-- What holds of the blocks of a slab allocator.
use wasabi_os.Prelude.{
  ℕ, zero, suc, ◌+◌, ◌-◌, ◌*◌, ◌≤◌, ◌<◌, ◌≡◌, refl, subst, Bool, true, Bool-cases, none, some, ◌⊎◌,
  inl, inr, List, [], ◌∷◌, get_elem?, set, remove_at, arith,
}
use wasabi_os.KernelHeap.{Memory, SlabBlock, header_size, slab_block_size, find_block, new_block}

-- What the source relies on when it rounds an address.
pub record Rounds {S : Type 0} (mem : Memory S) (size : ℕ) : Type 0 where
  pub multiple : (x : ℕ) → (k : ℕ) × (mem.align_up size x ≡ k * size)
  pub above : (x : ℕ) → x ≤ mem.align_up size x
  pub least : (x : ℕ) → mem.align_up size x < x + size
  pub fixed : (k : ℕ) → mem.align_up size (k * size) ≡ k * size

module _ {S : Type 0} (mem : Memory S) (size : ℕ) where
  -- The allocations follow each other from the start of the block.
  pub record IsBlock (b : SlabBlock) : Type 0 where
    pub start_at : b.start ≡ mem.align_up size (b.address + header_size)
    pub end_at : b.end ≡ b.address + (slab_block_size - 1)
    pub used_count : ℕ
    pub used_by : b.used ≡ used_count * size
    pub inside : b.start + b.used < b.end
    pub freed_le : b.freed ≤ b.used
    pub freed_count : ℕ
    pub freed_by : b.freed ≡ freed_count * size

  abbrev pub AreBlocks : List SlabBlock → Type 0
  AreBlocks [] = Unit
  AreBlocks (b ∷ bs) = IsBlock b × AreBlocks bs

  pub AreBlocks-get_elem? :
      (bs : List SlabBlock) (i : ℕ) (b : SlabBlock)
      → AreBlocks bs
      → get_elem? bs i ≡ some b
      → IsBlock b
  AreBlocks-get_elem? [] i b are e = cc
  AreBlocks-get_elem? (c ∷ cs) zero b are e = subst IsBlock (ground arith) are.0
  AreBlocks-get_elem? (c ∷ cs) (suc i) b are e = AreBlocks-get_elem? cs i b are.1 e

  pub AreBlocks-set :
      (bs : List SlabBlock) (i : ℕ) (b : SlabBlock)
      → AreBlocks bs
      → IsBlock b
      → AreBlocks (set bs i b)
  AreBlocks-set [] i b are is = tt
  AreBlocks-set (c ∷ cs) zero b are is = (is, are.1)
  AreBlocks-set (c ∷ cs) (suc i) b are is = (are.0, AreBlocks-set cs i b are.1 is)

  pub AreBlocks-remove_at :
      (bs : List SlabBlock) (i : ℕ) → AreBlocks bs → AreBlocks (remove_at i bs)
  AreBlocks-remove_at [] i are = tt
  AreBlocks-remove_at (c ∷ cs) zero are = are.1
  AreBlocks-remove_at (c ∷ cs) (suc i) are = (are.0, AreBlocks-remove_at cs i are.1)

  -- The memory of the headers and their blocks does not overlap.
  abbrev pub IsFarFrom : SlabBlock → List SlabBlock → Type 0
  IsFarFrom b [] = Unit
  IsFarFrom b (c ∷ cs) =
      ((b.address + slab_block_size ≤ c.address) ⊎ (c.address + slab_block_size ≤ b.address))
      × IsFarFrom b cs

  abbrev pub AreApart : List SlabBlock → Type 0
  AreApart [] = Unit
  AreApart (b ∷ bs) = IsFarFrom b bs × AreApart bs

  pub new_block-IsBlock : Rounds mem size → size ≤ 256 → (a : ℕ) → IsBlock (new_block mem size a)
  new_block-IsBlock rounds small a = record {
    start_at = refl;
    end_at = refl;
    used_count = 0;
    used_by = omega arith;
    inside = omega (arith, rounds.least (a + 48));
    freed_le = omega arith;
    freed_count = 0;
    freed_by = omega arith;
  }

pub find_block-cases :
    (test : SlabBlock → Bool) (bs : List SlabBlock)
    → (find_block test bs ≡ none)
      ⊎ ((i : ℕ) × (b : SlabBlock) × (find_block test bs ≡ some i)
          × (get_elem? bs i ≡ some b)
          × (test b ≡ true))
find_block-cases test [] = inl refl
find_block-cases test (b ∷ bs) = elim (Bool-cases (test b)) [
  | inl found ↦ inr (0, b, ground arith, refl, found)
  | inr other ↦ elim (find_block-cases test bs) [
    | inl e ↦ inl (ground arith)
    | inr (i, c, e, at_i, found) ↦ inr (suc i, c, ground arith, at_i, found)
  ]
]
