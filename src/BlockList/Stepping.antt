-- ===== src/BlockList/Stepping.antt =====
-- One call of `next`, on a range that begins with a block.
use wasabi_os.Prelude.{
  ℕ, zero, suc, ◌+◌, ◌-◌, ◌*◌, ◌/◌, ◌%◌, ◌≤◌, ◌<◌, ◌≡◌, refl, ◌∙◌, ap, lt→ltb, le→leb, some, List,
  ◌∷◌, leb, arith, ok, ◌>>=◌, ◌>>◌, assert, u64_max,
}
use wasabi_os.BlockDevice.Group
use wasabi_os.BlockDevice.Group.{BlockGroup, IsGroup}
use wasabi_os.BlockDevice.Group.Subgroups.{subgroup_lem, with_new_length_lem}
use wasabi_os.BlockList.{
  block_size, blocks_required_for, skip_blocks, cut_blocks, take_group, next_of,
}

pub bytes_lem :
    (g : BlockGroup)
    → g.count * block_size ≤ u64_max
    → Group.bytes block_size g ≡ ok (g.count * block_size)
unfolding Group.bytes
bytes_lem g h = ground arith

pub blocks_required_for-pos : (n : ℕ) → 0 < n → 0 < blocks_required_for n
blocks_required_for-pos n pos = ground arith

pub blocks_required_for-le : (n k : ℕ) → n ≤ k * block_size → blocks_required_for n ≤ k
blocks_required_for-le n k le = ground arith

pub blocks_required_for-add :
    (n k : ℕ)
    → k * block_size ≤ n
    → blocks_required_for n ≡ k + blocks_required_for (n - k * block_size)
blocks_required_for-add n k le = ground arith

pub blocks_required_for-cover : (n : ℕ) → n ≤ blocks_required_for n * block_size
blocks_required_for-cover n = ground arith

skip_blocks_lem :
    (g : BlockGroup) (k : ℕ)
    → IsGroup g
    → k < g.count
    → skip_blocks g (k * block_size) ≡ ok (record { start = g.start + k; count = g.count - k }, 0)
skip_blocks_lem g zero ok_g lt = ap (λ h. ok (h, 0)) same
  where
    same : g ≡ record { start = g.start + 0; count = g.count - 0 }
    same =
        ap (λ n. record { start = n; count = g.count }) {x = g.start} {y = g.start + 0}
          (omega arith)
        ∙ ap (λ n. record { start = g.start + 0; count = n }) {x = g.count} {y = g.count - 0}
            (omega arith)
skip_blocks_lem g (suc k) ok_g lt =
    rw (lt→ltb 0 (suc k * 4096) (omega arith))
      (rw (blocks_before, subgroup_lem (suc k) g ok_g lt, no_offset) refl)
  where
    blocks_before : suc k * 4096 / 4096 ≡ suc k
    blocks_before = omega arith

    no_offset : suc k * 4096 % 4096 ≡ 0
    no_offset = omega arith

-- The group in which the range ends, and one that it goes beyond.
pub cut_blocks_within :
    (g : BlockGroup) (n : ℕ)
    → IsGroup g
    → g.count * block_size ≤ u64_max
    → 0 < n
    → n < g.count * block_size
    → cut_blocks g n ≡ ok (record { start = g.start; count = blocks_required_for n }, n)
cut_blocks_within g n ok_g fits pos lt =
    rw (bytes_lem g fits, cut_blocks)
      (rw (lt→ltb n (g.count * 4096) lt) (
        rw
          (with_new_length_lem (blocks_required_for n) g ok_g (blocks_required_for-pos n pos)
            (blocks_required_for-le n g.count (omega arith)))
          refl))

pub cut_blocks_whole :
    (g : BlockGroup) (n : ℕ)
    → g.count * block_size ≤ u64_max
    → g.count * block_size ≤ n
    → cut_blocks g n ≡ ok (g, g.count * block_size)
cut_blocks_whole g n fits le = rw (bytes_lem g fits, cut_blocks) (ground arith)

accepted {ℓ} : {R : Type ℓ} (a b : ℕ) (r : R) → a ≤ b → (assert (leb (0 + a) b) >> ok r) ≡ ok r
accepted a b r le = ground arith

module _ (g : BlockGroup) (gs : List BlockGroup) (k n : ℕ) (ok_g : IsGroup g)
    (fits : g.count * block_size ≤ u64_max) (lt : k < g.count) (pos : 0 < n) where
  abbrev rest : BlockGroup
  rest = record { start = g.start + k; count = g.count - k }

  abbrev cut : BlockGroup
  cut = record { start = g.start + k; count = blocks_required_for n }

  taken : next_of (g ∷ gs) (k * block_size) n ≡ take_group g gs (k * block_size) n
  unfolding next_of
  taken = rw (bytes_lem g fits, ◌>>=◌) (ground arith)

  pub next_within :
      n < (g.count - k) * block_size
      → next_of (g ∷ gs) (k * block_size) n
        ≡ ok (
          some (record { group = cut; offset = 0; len = n }),
          record { group_iter = gs; skip_bytes = 0; remaining_bytes = n - n },
        )
  next_within within =
      taken
      ∙ rw (skip_blocks_lem g k ok_g lt, take_group)
          (rw (cut_blocks_within rest n (ground arith) (omega arith) pos within, ◌>>=◌)
            (rw (le→leb n n (omega arith)) (
              rw
                (
                  bytes_lem cut
                      (omega (arith, blocks_required_for-le n (g.count - k) (omega arith))),
                  ◌>>=◌,
                )
                (accepted n (blocks_required_for n * 4096) _ (blocks_required_for-cover n)))))

  pub next_whole :
      (g.count - k) * block_size ≤ n
      → next_of (g ∷ gs) (k * block_size) n
        ≡ ok (
          some (record { group = rest; offset = 0; len = (g.count - k) * block_size }),
          record {
            group_iter = gs;
            skip_bytes = 0;
            remaining_bytes = n - (g.count - k) * block_size;
          },
        )
  next_whole whole =
      taken
      ∙ rw (skip_blocks_lem g k ok_g lt, take_group)
          (rw (cut_blocks_whole rest n (omega arith) whole, ◌>>=◌)
            (rw (le→leb ((g.count - k) * 4096) n whole) (
              rw (bytes_lem rest (omega arith), ◌>>=◌)
                (accepted ((g.count - k) * 4096) ((g.count - k) * 4096) _ (omega arith)))))

pub next_later :
    (g : BlockGroup) (gs : List BlockGroup) (k n : ℕ)
    → g.count * block_size ≤ u64_max
    → g.count ≤ k
    → next_of (g ∷ gs) (k * block_size) n ≡ next_of gs ((k - g.count) * block_size) n
unfolding next_of
next_later g gs k n fits le =
    rw (bytes_lem g fits, ◌>>=◌)
      (rw (le→leb (g.count * 4096) (k * 4096) (omega arith))
        (ap (λ s. next_of gs s n) (omega arith)))
