-- ===== src/BlockAllocator/Saving/RoundTrip.antt =====
-- modules/wasabi-fs/src/block_allocator.rs: `load` after `write`.
use wasabi_os.Prelude.{
  ℕ, zero, suc, ◌+◌, ◌-◌, ◌/◌, ◌≤◌, ◌≡◌, refl, sym, ap, ◌∙◌, subst, List, [], ◌∷◌, ◌++◌, length,
  length-append, take, drop, ok, arith,
}
use wasabi_os.BlockDevice.Group.{BlockGroup}
use wasabi_os.BlockAllocator.{done, block_count}
use wasabi_os.BlockAllocator.Saving.{
  Disk, counts_required_for, chunks, chunks_of, peekable, block_iter, write_blocks,
}
use wasabi_os.BlockAllocator.Saving.Iterating.{
  AreGroups, blocks_from, blocks_of, Yields, block_iter-Yields, peek-Gives,
}
use wasabi_os.BlockAllocator.Saving.Chains.{
  Stores, AreTargets, padded, AreParts, concat, Linked, Leaves, write_chunks-Linked,
}

take-drop : (n : ℕ) (gs : List BlockGroup) → take n gs ++ drop n gs ≡ gs
take-drop zero gs = refl
take-drop (suc n) [] = refl
take-drop (suc n) (g ∷ gs) = ap (◌∷◌ g) (take-drop n gs)

length-take_le : (n : ℕ) (gs : List BlockGroup) → length (take n gs) ≤ n
length-take_le zero gs = omega arith
length-take_le (suc n) [] = omega arith
length-take_le (suc n) (g ∷ gs) = omega (arith, length-take_le n gs)

length-drop : (n : ℕ) (gs : List BlockGroup) → length (drop n gs) ≡ length gs - n
length-drop zero gs = omega arith
length-drop (suc n) [] = omega arith
length-drop (suc n) (g ∷ gs) = omega (arith, length-drop n gs)

pub counts_up : (n : ℕ) → counts_required_for 250 n ≡ (n + 249) / 250
counts_up n = ground arith

-- The chunks are the list again, each fits in a block, and they need as many blocks as the macro says.
chunks_of-parts :
    (fuel : ℕ) (gs : List BlockGroup)
    → length gs ≤ fuel
    → (concat (chunks_of fuel 250 gs) ≡ gs)
      × AreParts (chunks_of fuel 250 gs)
      × (length (chunks_of fuel 250 gs) ≤ counts_required_for 250 (length gs))
chunks_of-parts zero [] h = (refl, tt, omega arith)
chunks_of-parts zero (g ∷ gs) h = absurd (omega arith)
chunks_of-parts (suc fuel) [] h = (refl, tt, omega arith)
chunks_of-parts (suc fuel) (g ∷ gs) h =
    let (same, parts, count) =
      chunks_of-parts fuel (drop 250 (g ∷ gs)) (omega (arith, length-drop 250 (g ∷ gs))) in
    (
      ap (λ rest. take 250 (g ∷ gs) ++ rest) same ∙ take-drop 250 (g ∷ gs),
      (length-take_le 250 (g ∷ gs), parts),
      omega (
        arith,
        count,
        counts_up (length (drop 250 (g ∷ gs))),
        counts_up (suc (length gs)),
        length-drop 250 (g ∷ gs),
      ),
    )

concat-padded :
    (parts : List (List BlockGroup)) (ls : List ℕ)
    → length parts ≤ length ls
    → concat (padded parts ls) ≡ concat parts
concat-padded [] [] h = refl
concat-padded [] (l ∷ ls) h = concat-padded [] ls (omega arith)
concat-padded (p ∷ ps) [] h = absurd (omega arith)
concat-padded (p ∷ ps) (l ∷ ls) h = ap (λ rest. p ++ rest) (concat-padded ps ls (omega arith))

pub length-blocks_from : (start n : ℕ) → length (blocks_from start n) ≡ n
length-blocks_from start zero = refl
length-blocks_from start (suc n) = ap suc (length-blocks_from (start + 1) n)

length-blocks_of : (gs : List BlockGroup) → length (blocks_of gs) ≡ block_count gs
unfolding block_count
length-blocks_of [] = refl
length-blocks_of (g ∷ gs) = omega (
  arith,
  length-append (blocks_from g.start g.count) (blocks_of gs),
  length-blocks_from g.start g.count,
  length-blocks_of gs,
)

module _ {S : Type 0} (disk : Disk S) where
  -- The chain of the free list, from its first block.
  abbrev pub Saves : S → List ℕ → List BlockGroup → Type 0
  Saves t ls free =
      (parts : List (List BlockGroup)) × Linked disk t ls parts × (concat parts ≡ free)

  -- With enough different blocks of the device, the part of `write` behind the allocation writes a
  -- chain of all of them that holds the free list, and no other block.
  pub write_blocks-Saves :
      (blocks b : ℕ) (bs : List ℕ) (groups free : List BlockGroup) (s : S)
      → Stores disk blocks
      → AreGroups groups
      → blocks_of groups ≡ b ∷ bs
      → AreTargets blocks (b ∷ bs)
      → counts_required_for 250 (length free) ≤ block_count groups
      → (t : S) × (write_blocks disk groups free s ≡ ok (t, done b))
        × Saves t (b ∷ bs) free
        × Leaves disk (b ∷ bs) s t
  unfolding write_blocks
  write_blocks-Saves blocks b bs groups free s law v first targets enough =
      let (same, parts, count) = chunks_of-parts (length free) free (omega arith) in
      let total : length (b ∷ bs) ≡ block_count groups =
        ap length (sym first) ∙ length-blocks_of groups in
      let start : Yields (block_iter groups) (b ∷ bs) =
        subst (Yields (block_iter groups)) first (block_iter-Yields groups v) in
      let (p, seen, g) = peek-Gives (peekable (block_iter groups)) (b ∷ bs) start in
      let (u, t, q, written, reserve, linked, leaves) =
        write_chunks-Linked disk (suc (block_count groups)) blocks (chunks 250 free) p (b ∷ bs) s
          law g targets parts (omega (arith, count, enough, total)) (omega (arith, total)) in
      (
        t,
        rw (seen, write_blocks) (rw written (rw reserve)),
        (
          padded (chunks 250 free) (b ∷ bs),
          linked,
          concat-padded (chunks 250 free) (b ∷ bs) (omega (arith, count, enough, total)) ∙ same,
        ),
        leaves,
      )
