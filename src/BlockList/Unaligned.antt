-- ===== src/BlockList/Unaligned.antt =====
-- Ranges of bytes that the iterator does not serve: those that end before the last group, and most
-- of those that begin inside a block.
use wasabi_os.Prelude.{
  ℕ, zero, suc, ◌+◌, ◌-◌, ◌*◌, ◌/◌, ◌%◌, ◌≤◌, ◌<◌, ◌≡◌, refl, sym, subst, inl, inr, Bool, true,
  false, ◌&&◌, Bool-cases, lt→ltb, le→leb, Option, some, List, [], ◌∷◌, length, ltb, leb, ◌==◌,
  if◌then◌else◌, arith, ok, panic, ◌>>=◌, ◌>>◌, assert, u64_max,
}
use wasabi_os.BlockDevice.Group.{BlockGroup, IsGroup}
use wasabi_os.BlockDevice.Group.Subgroups.{subgroup_lem, with_no_length}
use wasabi_os.BlockList.{
  block_size, blocks_required_for, PartialBlockGroup, BlockListPartialIter, skip_blocks, cut_blocks,
  take_group, next_of, partials,
}
use wasabi_os.BlockList.Blocks.{before_last, IsSized}
use wasabi_os.BlockList.Stepping.{
  bytes_lem, blocks_required_for-le, cut_blocks_within, cut_blocks_whole, next_within, next_whole,
  next_later,
}

-- The loop goes on with the next group when no bytes remain.
nothing_left :
    (g : BlockGroup) (gs : List BlockGroup) (n : ℕ)
    → IsSized (g ∷ gs)
    → n ≡ 0
    → next_of (g ∷ gs) 0 n ≡ panic
unfolding next_of
nothing_left g gs n sized e =
    subst (λ m. next_of (g ∷ gs) 0 m ≡ panic) (sym e)
      (rw (bytes_lem g sized.1, ◌>>=◌)
        (rw (not_skipped) (
          rw (bytes_lem g sized.1, take_group, cut_blocks)
            (rw (lt→ltb 0 (g.count * 4096) (omega (arith, sized.0)))
              (rw (with_no_length g, ◌>>=◌) refl)))))
  where
    not_skipped : leb (g.count * 4096) 0 ≡ false
    not_skipped = ground (arith, sized.0)

-- For such groups, when a range of at least one byte begins with a block and ends in front of the
-- last group, the iterator panics before it is done, with more rounds than there are groups.
pub partials_early :
    (gs : List BlockGroup) (k n fuel : ℕ)
    → IsSized gs
    → 0 < n
    → k * block_size + n ≤ before_last gs * block_size
    → length gs < fuel
    → partials fuel (record { group_iter = gs; skip_bytes = k * block_size; remaining_bytes = n })
      ≡ panic
unfolding partials
partials_early gs k n zero sized pos ends enough = absurd (omega arith)
partials_early [] k n (suc fuel) sized pos ends enough = absurd (omega arith)
partials_early (g ∷ []) k n (suc fuel) sized pos ends enough = absurd (omega arith)
partials_early (g ∷ h ∷ hs) k n (suc zero) sized pos ends enough = absurd (omega arith)
partials_early (g ∷ h ∷ hs) k n (suc (suc fuel)) sized pos ends enough =
    elim (Bool-cases (ltb k g.count)) [
      | inr later ↦ rw (next_later g (h ∷ hs) k n sized.1 (ground arith)) (
          partials_early (h ∷ hs) (k - g.count) n (suc (suc fuel)) sized.2 pos (ground arith)
            (omega arith))
      | inl inside ↦ elim (Bool-cases (ltb n ((g.count - k) * block_size))) [
        | inl within ↦
            rw (next_within g (h ∷ hs) k n sized.0 sized.1 (ground arith) pos (ground arith), ◌>>=◌)
              (rw (nothing_left h hs (n - n) sized.2 (omega arith), ◌>>=◌) refl)
        | inr whole ↦
            rw (next_whole g (h ∷ hs) k n sized.0 sized.1 (ground arith) pos (ground arith), ◌>>=◌)
              (elim (Bool-cases (n - (g.count - k) * block_size == 0)) [
                | inl done ↦
                    rw (nothing_left h hs (n - (g.count - k) * 4096) sized.2 (ground arith), ◌>>=◌)
                      refl
                | inr more ↦
                    rw
                      (
                        partials_early (h ∷ hs) 0 (n - (g.count - k) * 4096) (suc fuel) sized.2
                            (ground arith) (ground arith) (omega arith),
                        ◌>>=◌,
                      )
                      refl
              ])
      ]
    ]

-- When a range of at least one byte begins inside a block of the first group, which is a run of
-- addresses whose bytes fit in `u64`, the call of `next` succeeds exactly if the number of bytes is
-- less than the bytes from that block to the end of the group, and the bytes with the offset fit in
-- the blocks that the bytes alone need; then it gives those blocks with the offset and all the
-- bytes. It panics otherwise.
pub next_unaligned :
    (g : BlockGroup) (gs : List BlockGroup) (k o n : ℕ)
    → IsGroup g
    → g.count * block_size ≤ u64_max
    → k < g.count
    → 0 < o
    → o < block_size
    → 0 < n
    → next_of (g ∷ gs) (k * block_size + o) n ≡ (
        if ltb n ((g.count - k) * block_size) && leb (o + n) (blocks_required_for n * block_size)
        then ok (
          some (record {
            group = record { start = g.start + k; count = blocks_required_for n };
            offset = o;
            len = n;
          }),
          record { group_iter = gs; skip_bytes = 0; remaining_bytes = n - n },
        )
        else panic)
unfolding next_of
next_unaligned g gs k o n ok_g fits lt inside short pos =
    rw (bytes_lem g fits, ◌>>=◌)
      (rw (not_skipped) (
        rw (skipped, take_group)
          (elim (Bool-cases (ltb n ((g.count - k) * 4096))) [
            | inl within ↦
                rw (cut_blocks_within rest n (ground arith) (omega arith) pos (ground arith), ◌>>=◌)
                  (rw (le→leb n n (omega arith)) (
                    rw
                      (
                        bytes_lem cut
                            (omega (arith, blocks_required_for-le n (g.count - k) (ground arith))),
                        ◌>>=◌,
                      )
                      (rw (within) (by_fit (leb (o + n) (blocks_required_for n * 4096))))))
            | inr whole ↦
                rw (cut_blocks_whole rest n (omega arith) (ground arith), ◌>>=◌)
                  (rw (le→leb ((g.count - k) * 4096) n (ground arith))
                    (rw (bytes_lem rest (omega arith), ◌>>=◌) (rw (whole) (rw (too_long) refl))))
          ])))
  where
    rest : BlockGroup
    rest = record { start = g.start + k; count = g.count - k }

    cut : BlockGroup
    cut = record { start = g.start + k; count = blocks_required_for n }

    Given : Type 0
    Given = Option PartialBlockGroup × BlockListPartialIter

    given : Given
    given = (
      some (record { group = cut; offset = o; len = n }),
      record { group_iter = gs; skip_bytes = 0; remaining_bytes = n - n },
    )

    by_fit :
        (b : Bool)
        → ◌>>◌ {B = Given} (assert b) (ok given) ≡ (if true && b then ok given else panic)
    by_fit true = refl
    by_fit false = refl

    too_long : leb (o + (g.count - k) * 4096) ((g.count - k) * 4096) ≡ false
    too_long = ground arith

    not_skipped : leb (g.count * 4096) (k * 4096 + o) ≡ false
    not_skipped = ground arith

    blocks_before : (k * 4096 + o) / 4096 ≡ k
    blocks_before = omega arith

    offset_in : (k * 4096 + o) % 4096 ≡ o
    offset_in = omega arith

    skipped :
        skip_blocks g (k * 4096 + o) ≡ ok (record { start = g.start + k; count = g.count - k }, o)
    skipped =
        rw (lt→ltb 0 (k * 4096 + o) (omega arith))
          (rw (blocks_before, subgroup_lem k g ok_g lt, offset_in) refl)
