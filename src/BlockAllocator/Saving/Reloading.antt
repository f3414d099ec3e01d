-- ===== src/BlockAllocator/Saving/Reloading.antt =====
-- modules/wasabi-fs/src/block_allocator.rs: `load` after `write`.
use wasabi_os.Prelude.{
  ℕ, zero, suc, ◌+◌, ◌-◌, ◌^◌, ◌≤◌, ◌<◌, ◌≡◌, refl, sym, ap, ◌∙◌, subst, ◌⊎◌, inl, inr, true, false,
  none, some, List, [], ◌∷◌, length, append-nil, max, leb, le→leb, Outcome, ok, ◌>>=◌, arith,
}
use wasabi_os.BlockDevice.Group.{BlockGroup}
use wasabi_os.BlockAllocator.{
  BlockAllocator, FsResult, done, failed, block_device_full, block_count, allocate,
}
use wasabi_os.BlockAllocator.FreeList.{In, IsFree, Between-lower, check_consistent-Between}
use wasabi_os.BlockAllocator.Fitting.{Takes, AllSmaller}
use wasabi_os.BlockAllocator.Allocating.{allocate_pow, pow_pos}
use wasabi_os.BlockAllocator.Saving.{
  Disk, counts_required_for, free_blocks, allocate_rounds, write_blocks, write, load_loop, load,
}
use wasabi_os.BlockAllocator.Saving.Iterating.{head?, blocks_from}
use wasabi_os.BlockAllocator.Saving.Chains.{
  Stores, concat, Misses, AreTargets, Leaves, load_loop-Linked,
}
use wasabi_os.BlockAllocator.Saving.RoundTrip.{
  counts_up, Saves, write_blocks-Saves, length-blocks_from,
}

Misses-from : (l start n : ℕ) → l < start → Misses l (blocks_from start n)
Misses-from l start zero lt = tt
Misses-from l start (suc n) lt = (λ e. omega arith, Misses-from l (start + 1) n (omega arith))

targets_from : (blocks start n : ℕ) → start + n ≤ blocks → AreTargets blocks (blocks_from start n)
targets_from blocks start zero h = tt
targets_from blocks start (suc n) h = (
  omega arith,
  Misses-from start (start + 1) n (omega arith),
  targets_from blocks (start + 1) n (omega arith),
)

-- What a saved allocator has become, before and behind the device.
abbrev pub saved : List BlockGroup → BlockAllocator
saved free = record { free = free; on_disk = none; self_on_disk = []; dirty = false }

abbrev pub loaded : ℕ → List BlockGroup → List ℕ → BlockAllocator
loaded pointer free blocks = record {
  free = free;
  on_disk = some pointer;
  self_on_disk = blocks;
  dirty = false;
}

-- The allocator that `write` works on, with no old blocks to free.
abbrev pub cleared : BlockAllocator → BlockAllocator
cleared a = record a { self_on_disk = []; on_disk = none }

taken_bound :
    (blocks size : ℕ) (a out : BlockAllocator) (g : BlockGroup)
    → IsFree blocks a.free
    → 1 ≤ size
    → Takes blocks size a out g
    → g.start + g.count ≤ blocks
taken_bound blocks size a out g v pos t =
    let inside : In (g.start + (g.count - 1)) g = (omega arith, omega (arith, t.sized)) in
    omega (
      arith,
      t.sized,
      Between-lower 0 blocks a.free (g.start + (g.count - 1)) v.sorted
          (t.was_free (g.start + (g.count - 1)) inside),
    )

saved_eq :
    (out : BlockAllocator)
    → out.on_disk ≡ none
    → out.self_on_disk ≡ []
    → ◌≡◌ {A = BlockAllocator} (record out { dirty = false }) (saved out.free)
saved_eq out e f =
    ap (λ x. record out { on_disk = x; dirty = false }) e
    ∙ ap (λ y. record out { on_disk = none; self_on_disk = y; dirty = false }) f

first_round :
    (count required : ℕ) (a out : BlockAllocator) (groups : List BlockGroup)
    → allocate required a ≡ ok (out, done groups)
    → leb (counts_required_for 250 (length out.free)) (block_count groups) ≡ true
    → allocate_rounds 11 0 count required a ≡ ok (out, done groups)
unfolding allocate_rounds
first_round count required a out groups run total = rw (run, allocate_rounds) (rw (total, ◌>>=◌))

module _ {S : Type 0} (disk : Disk S) where
  -- The part of `write` behind the allocation.
  abbrev behind :
      BlockAllocator
      → S
      → BlockAllocator
      → FsResult (List BlockGroup)
      → Outcome (BlockAllocator × S × FsResult ℕ)
  behind a s out r = elim r [
    | failed e ↦ ok (a, s, failed e)
    | done groups ↦ write_blocks disk groups out.free s >>= λ written. elim (written.1) [
      | failed e ↦ ok (a, written.0, failed e)
      | done first_block ↦ ok (record out { dirty = false }, written.0, done first_block)
    ]
  ]

  -- What `write` and then `load` come to with a group for the chain.
  abbrev pub Reloads : ℕ → BlockAllocator → S → BlockGroup → BlockAllocator → Type 0
  Reloads fuel a s g out =
      (t : S) × (write disk a s ≡ ok (saved out.free, t, done g.start))
      × (load disk fuel g.start t
          ≡ ok (some (loaded g.start out.free (blocks_from g.start g.count))))
      × Leaves disk (blocks_from g.start g.count) s t

  save_group :
      (blocks size : ℕ) (a out : BlockAllocator) (g : BlockGroup) (s : S)
      → Stores disk blocks
      → IsFree blocks a.free
      → 1 ≤ size
      → Takes blocks size (cleared a) out g
      → counts_required_for 250 (length out.free) ≤ size
      → (t : S) × (write_blocks disk (g ∷ []) out.free s ≡ ok (t, done g.start))
        × Saves disk t (blocks_from g.start g.count) out.free
        × Leaves disk (blocks_from g.start g.count) s t
  unfolding block_count
  save_group blocks size a out g s law v pos takes enough =
      let last = taken_bound blocks size (cleared a) out g v pos takes in
      let rest = blocks_from (g.start + 1) (g.count - 1) in
      let one_more : suc (g.count - 1) ≡ g.count = omega (arith, takes.sized) in
      let e : blocks_from g.start g.count ≡ g.start ∷ rest =
        ap (blocks_from g.start) (sym one_more) in
      let (t, run, saves, leaves) =
        write_blocks-Saves disk blocks g.start rest (g ∷ []) out.free s law
          (omega (arith, takes.sized), omega (arith, last, v.addresses), tt)
          (append-nil (blocks_from g.start g.count) ∙ e)
          (subst (AreTargets blocks) e (targets_from blocks g.start g.count last))
          (omega (arith, takes.sized, enough)) in
      (
        t,
        run,
        subst (λ ls. Saves disk t ls out.free) (sym e) saves,
        subst (λ ls. Leaves disk ls s t) (sym e) leaves,
      )

  load-Saves :
      (blocks fuel : ℕ) (g : BlockGroup) (free : List BlockGroup) (t : S)
      → IsFree blocks free
      → 1 ≤ g.count
      → g.count ≤ fuel
      → Saves disk t (blocks_from g.start g.count) free
      → load disk fuel g.start t ≡ ok (some (loaded g.start free (blocks_from g.start g.count)))
  unfolding load
  load-Saves blocks fuel g free t v pos enough (parts, linked, same) =
      let one_more : suc (g.count - 1) ≡ g.count = omega arith in
      let start : head? (blocks_from g.start g.count) ≡ some g.start =
        ap (λ n. head? (blocks_from g.start n)) (sym one_more) in
      let run =
        load_loop-Linked disk fuel (blocks_from g.start g.count) parts [] [] t linked
          (omega (arith, length-blocks_from g.start g.count)) in
      let first =
        subst
          (λ pointer.
            load_loop disk fuel pointer [] [] t
            ≡ ok (some (concat parts, blocks_from g.start g.count)))
          start run in
      let read =
        subst
          (λ gs.
            load_loop disk fuel (some g.start) [] [] t
            ≡ ok (some (gs, blocks_from g.start g.count)))
          same first in
      rw (read, load) (rw (check_consistent-Between 0 blocks free v.addresses v.sorted))

  -- The part of `write` in front of the chain.
  write_front :
      (blocks required : ℕ) (a : BlockAllocator) (s : S) (out : BlockAllocator)
      (r : FsResult (List BlockGroup)) (end : BlockAllocator × S × FsResult ℕ)
      → IsFree blocks a.free
      → a.self_on_disk ≡ []
      → counts_required_for 250 (max (length a.free) 1) ≡ required
      → allocate_rounds 11 0 (max (length a.free) 1) required (cleared a) ≡ ok (out, r)
      → behind a s out r ≡ ok end
      → write disk a s ≡ ok end
  unfolding write free_blocks
  write_front blocks required a s out r end v fresh needed rounds rest =
      rw (check_consistent-Between 0 blocks a.free v.addresses v.sorted, fresh, write)
        (rw (needed, rounds) rest)

  write_full :
      (blocks k : ℕ) (a : BlockAllocator) (s : S)
      → IsFree blocks a.free
      → a.self_on_disk ≡ []
      → counts_required_for 250 (max (length a.free) 1) ≡ 2 ^ k
      → allocate (2 ^ k) (cleared a) ≡ ok (cleared a, failed (block_device_full (2 ^ k)))
      → write disk a s ≡ ok (a, s, failed (block_device_full (2 ^ k)))
  unfolding allocate_rounds
  write_full blocks k a s v fresh needed run =
      write_front blocks (2 ^ k) a s (cleared a) (failed (block_device_full (2 ^ k))) _ v fresh
        needed (rw run) refl

  written_whole :
      (blocks k : ℕ) (a out : BlockAllocator) (g : BlockGroup) (s t : S)
      → IsFree blocks a.free
      → a.self_on_disk ≡ []
      → counts_required_for 250 (max (length a.free) 1) ≡ 2 ^ k
      → allocate (2 ^ k) (cleared a) ≡ ok (out, done (g ∷ []))
      → Takes blocks (2 ^ k) (cleared a) out g
      → counts_required_for 250 (length out.free) ≤ 2 ^ k
      → write_blocks disk (g ∷ []) out.free s ≡ ok (t, done g.start)
      → write disk a s ≡ ok (saved out.free, t, done g.start)
  unfolding block_count
  written_whole blocks k a out g s t v fresh needed run takes fits written =
      let total : leb (counts_required_for 250 (length out.free)) (block_count (g ∷ [])) ≡ true =
        le→leb _ _ (omega (arith, takes.sized, fits)) in
      write_front blocks (2 ^ k) a s out (done (g ∷ [])) _ v fresh needed
        (first_round (max (length a.free) 1) (2 ^ k) (cleared a) out (g ∷ []) run total)
        (rw written (ap (λ b. ok (b, t, done g.start)) (saved_eq out takes.saved.0 takes.saved.1)))

  -- Saving and loading, with no old blocks to free, for a well-formed free list that needs a power of
  -- two of blocks, on a device that reads back what is written and with enough fuel: if some group has that many blocks, `write` returns and `load` reads the same free list
  -- back, with the blocks of the chain, and no block outside the group is written. Otherwise `write`
  -- fails and changes neither the allocator nor the device. The allocator that is left behind by
  -- `write` does not know the blocks of the chain.
  pub write-load :
      (blocks k fuel : ℕ) (a : BlockAllocator) (s : S)
      → Stores disk blocks
      → IsFree blocks a.free
      → a.self_on_disk ≡ []
      → k < 64
      → counts_required_for 250 (max (length a.free) 1) ≡ 2 ^ k
      → 2 ^ k ≤ fuel
      → ((out : BlockAllocator) × (g : BlockGroup) × Takes blocks (2 ^ k) (cleared a) out g
          × Reloads fuel a s g out)
        ⊎ (AllSmaller (2 ^ k) a.free
            × (write disk a s ≡ ok (a, s, failed (block_device_full (2 ^ k)))))
  write-load blocks k fuel a s law v fresh lt needed enough =
      let pos = pow_pos k in
      elim (allocate_pow blocks k (cleared a) v lt) [
        | inr (small, run) ↦ inr (small, write_full blocks k a s v fresh needed run)
        | inl (out, g, run, takes) ↦
            let fits : counts_required_for 250 (length out.free) ≤ 2 ^ k = omega (
              arith,
              takes.shorter,
              counts_up (length out.free),
              counts_up (max (length a.free) 1),
              needed,
            ) in
            let (t, written, saves, leaves) =
              save_group blocks (2 ^ k) a out g s law v pos takes fits in
            let back =
              load-Saves blocks fuel g out.free t takes.valid (omega (arith, takes.sized, pos))
                (omega (arith, takes.sized, enough)) saves in
            inl (
              out,
              g,
              takes,
              (
                t,
                written_whole blocks k a out g s t v fresh needed run takes fits written,
                back,
                leaves,
              ),
            )
      ]
