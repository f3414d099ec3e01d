-- ===== src/BlockAllocator/Saving/Chains.antt =====
-- modules/wasabi-fs/src/block_allocator.rs: the chain of blocks that `write` leaves on a device, and
-- what `load` reads from it.
use wasabi_os.Prelude.{
  ℕ, zero, suc, ◌≤◌, ◌<◌, ◌≡◌, ◌≢◌, refl, sym, ap, ◌∙◌, Option, some, List, [], ◌∷◌, ◌++◌, length,
  append-nil, append_assoc, Outcome, ok, arith,
}
use wasabi_os.BlockDevice.Group.{BlockGroup}
use wasabi_os.BlockAllocator.{done}
use wasabi_os.BlockAllocator.Saving.{
  FreeBlockGroups, Disk, Peekable, write_part, write_chunks, write_reserve, load_loop,
}
use wasabi_os.BlockAllocator.Saving.Iterating.{
  Gives, head?, peek-Gives, next_peeked-Gives, next_peeked-end,
}

-- The device has `blocks` blocks: what is written to one of them, if it fits, is read back, and the
-- other blocks stay.
pub record Stores {S : Type 0} (disk : Disk S) (blocks : ℕ) : Type 0 where
  pub store :
      (lba : ℕ) (part : FreeBlockGroups) (s : S)
      → lba < blocks
      → length part.free ≤ 250
      → (t : S) × (disk.write_block lba part s ≡ some t)
        × (disk.read_pointer lba t ≡ some part)
        × ((other : ℕ) → other ≢ lba → disk.read_pointer other t ≡ disk.read_pointer other s)

abbrev pub Misses : ℕ → List ℕ → Type 0
Misses l [] = Unit {0}
Misses l (b ∷ bs) = (l ≢ b) × Misses l bs

-- Different blocks of the device.
abbrev pub AreTargets : ℕ → List ℕ → Type 0
AreTargets blocks [] = Unit {0}
AreTargets blocks (l ∷ ls) = (l < blocks) × Misses l ls × AreTargets blocks ls

-- The parts along the blocks; the blocks that are left hold none.
abbrev pub padded : List (List BlockGroup) → List ℕ → List (List BlockGroup)
padded parts [] = []
padded [] (l ∷ ls) = [] ∷ padded [] ls
padded (p ∷ ps) (l ∷ ls) = p ∷ padded ps ls

-- Each part fits in a block.
abbrev pub AreParts : List (List BlockGroup) → Type 0
AreParts [] = Unit {0}
AreParts (p ∷ ps) = (length p ≤ 250) × AreParts ps

abbrev pub concat : List (List BlockGroup) → List BlockGroup
concat [] = []
concat (p ∷ ps) = p ++ concat ps

same_lists :
    {a c : List BlockGroup} {b d : List ℕ}
    → a ≡ c
    → b ≡ d
    → ◌≡◌ {A = Outcome (Option (List BlockGroup × List ℕ))} (ok (some (a, b))) (ok (some (c, d)))
same_lists {a} {c} {b} {d} e f = ap (λ x. ok (some (x, b))) e ∙ ap (λ y. ok (some (c, y))) f

module _ {S : Type 0} (disk : Disk S) where
  -- The blocks hold the parts, and each points to the next.
  abbrev pub Linked : S → List ℕ → List (List BlockGroup) → Type 0
  Linked s [] parts = parts ≡ []
  Linked s (l ∷ ls) [] = ⊥
  Linked s (l ∷ ls) (p ∷ ps) =
      (disk.read_pointer l s ≡ some (record { free = p; next = head? ls })) × Linked s ls ps

  -- Every block but these is as it was.
  abbrev pub Leaves : List ℕ → S → S → Type 0
  Leaves ls s t =
      (other : ℕ) → Misses other ls → disk.read_pointer other t ≡ disk.read_pointer other s

  write_part_lem :
      (blocks lba : ℕ) (part : List BlockGroup) (p : Peekable) (bs : List ℕ) (s : S)
      → Stores disk blocks
      → lba < blocks
      → length part ≤ 250
      → Gives p bs
      → (q : Peekable) × (t : S) × (write_part disk lba part p s ≡ ok (t, done q))
        × Gives q bs
        × (disk.read_pointer lba t ≡ some (record { free = part; next = head? bs }))
        × ((other : ℕ) → other ≢ lba → disk.read_pointer other t ≡ disk.read_pointer other s)
  write_part_lem blocks lba part p bs s law lt fits g =
      let (q, run, h) = peek-Gives p bs g in
      let (t, written, own, others) =
        law.store lba (record { free = part; next = head? bs }) s lt fits in
      (q, t, rw run (rw written), h, own, others)

  pub write_reserve-Linked :
      (fuel blocks : ℕ) (p : Peekable) (bs : List ℕ) (s : S)
      → Stores disk blocks
      → Gives p bs
      → AreTargets blocks bs
      → length bs < fuel
      → (t : S) × (write_reserve disk fuel p s ≡ ok (t, done tt))
        × Linked t bs (padded [] bs)
        × Leaves bs s t
  unfolding write_reserve
  write_reserve-Linked zero blocks p bs s law g a enough = absurd (omega arith)
  write_reserve-Linked (suc fuel) blocks p [] s law g a enough =
      let (q, run) = next_peeked-end p g in (s, rw (run, write_reserve), refl, λ o m. refl)
  write_reserve-Linked (suc fuel) blocks p (b ∷ bs) s law g a enough =
      let (q, run, h) = next_peeked-Gives p b bs g in
      let (r, u, part, k, own, others) =
        write_part_lem blocks b [] q bs s law a.0 (omega arith) h in
      let (t, rest, linked, leaves) =
        write_reserve-Linked fuel blocks r bs u law k a.2 (omega (arith, enough)) in
      (
        t,
        rw (run, write_reserve) (rw part rest),
        (leaves b a.1 ∙ own, linked),
        λ o m. leaves o m.1 ∙ others o m.0,
      )

  -- Both loops of `write`, with the state between them.
  pub write_chunks-Linked :
      (fuel blocks : ℕ) (parts : List (List BlockGroup)) (p : Peekable) (bs : List ℕ) (s : S)
      → Stores disk blocks
      → Gives p bs
      → AreTargets blocks bs
      → AreParts parts
      → length parts ≤ length bs
      → length bs < fuel
      → (u t : S) × (q : Peekable) × (write_chunks disk parts p s ≡ ok (u, done q))
        × (write_reserve disk fuel q u ≡ ok (t, done tt))
        × Linked t bs (padded parts bs)
        × Leaves bs s t
  unfolding write_chunks
  write_chunks-Linked fuel blocks [] p bs s law g a fit short enough =
      let (t, run, linked, leaves) = write_reserve-Linked fuel blocks p bs s law g a enough in
      (s, t, p, refl, run, linked, leaves)
  write_chunks-Linked fuel blocks (part ∷ parts) p [] s law g a fit short enough =
      absurd (omega arith)
  write_chunks-Linked fuel blocks (part ∷ parts) p (b ∷ bs) s law g a fit short enough =
      let (q, run, h) = next_peeked-Gives p b bs g in
      let (r, v, first, k, own, others) = write_part_lem blocks b part q bs s law a.0 fit.0 h in
      let (u, t, e, chunks, reserve, linked, leaves) =
        write_chunks-Linked fuel blocks parts r bs v law k a.2 fit.1 (omega arith) (omega arith) in
      (
        u,
        t,
        e,
        rw (run, write_chunks) (rw first chunks),
        reserve,
        (leaves b a.1 ∙ own, linked),
        λ o m. leaves o m.1 ∙ others o m.0,
      )

  -- A chain is read back: the parts in order, and the blocks.
  pub load_loop-Linked :
      (fuel : ℕ) (ls : List ℕ) (parts : List (List BlockGroup)) (free : List BlockGroup)
      (self_on_disk : List ℕ) (s : S)
      → Linked s ls parts
      → length ls ≤ fuel
      → load_loop disk fuel (head? ls) free self_on_disk s
        ≡ ok (some (free ++ concat parts, self_on_disk ++ ls))
  unfolding load_loop
  load_loop-Linked fuel [] parts free self_on_disk s linked enough =
      same_lists (sym (append-nil free) ∙ ap (λ ps. free ++ concat ps) (sym linked))
        (sym (append-nil self_on_disk))
  load_loop-Linked zero (l ∷ ls) parts free self_on_disk s linked enough = absurd (omega arith)
  load_loop-Linked (suc fuel) (l ∷ ls) [] free self_on_disk s linked enough = absurd linked
  load_loop-Linked (suc fuel) (l ∷ ls) (p ∷ ps) free self_on_disk s linked enough =
      rw (linked.0, load_loop)
        (load_loop-Linked fuel ls ps (free ++ p) (self_on_disk ++ l ∷ []) s linked.1
            (omega (arith, enough))
          ∙ same_lists (append_assoc free p (concat ps)) (append_assoc self_on_disk (l ∷ []) ls))
