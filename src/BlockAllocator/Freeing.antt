-- ===== src/BlockAllocator/Freeing.antt =====
-- modules/wasabi-fs/src/block_allocator.rs: `free_group`, where it works and where it does not.
use wasabi_os.Prelude.{
  ℕ, ◌+◌, ◌-◌, ◌≤◌, ◌<◌, ◌≡◌, refl, ◌↔◌, ◌⊎◌, inl, inr, true, false, List, [], ◌∷◌, ◌++◌, arith,
  u64_max, ltb, ok, panic, lt→ltb, le→leb, Bool-cases, ==→≡, ==→≢, ◌==◌,
}
use wasabi_os.BlockDevice.Lba
use wasabi_os.BlockDevice.Group
use wasabi_os.BlockDevice.Group.{BlockGroup, IsGroup}
use wasabi_os.BlockAllocator.{BlockAllocator, check_consistent, free_into, free_group}
use wasabi_os.BlockAllocator.FreeList.{
  In, Covers, Between, IsFree, Between-lower, check_consistent-Between, checked_lem,
}

-- Behind a group that ends before `g` with a gap, the loop goes on.
free_into-after :
    (g x : BlockGroup) (gs out : List BlockGroup)
    → IsGroup x
    → x.start + x.count < g.start
    → free_into g gs ≡ ok out
    → free_into g (x ∷ gs) ≡ ok (x ∷ out)
unfolding free_into
free_into-after g x gs out p h e =
    let before : ltb g.start x.start ≡ false = ground arith in
    let gap : (x.start + x.count - 1 + 1 == g.start) ≡ false = ground arith in
    rw (
      before,
      Group.end_lem x p,
      Lba.add_lem (x.start + x.count - 1) 1 (omega arith),
      gap,
      lt→ltb (x.start + x.count - 1) g.start (omega arith),
      e,
    )

free_into_touching :
    (g x : BlockGroup) (gs : List BlockGroup)
    → IsGroup x
    → 1 ≤ g.count
    → x.start + x.count ≡ g.start
    → g.start + g.count < u64_max
    → free_into g (x ∷ gs) ≡ ok (record x { count = x.count + g.count } ∷ gs)
unfolding free_into
free_into_touching g x gs p q h w =
    let before : ltb g.start x.start ≡ false = ground arith in
    let meet : (x.start + x.count - 1 + 1 == g.start) ≡ true = ground arith in
    rw (
      before,
      Group.end_lem x p,
      Lba.add_lem (x.start + x.count - 1) 1 (omega arith),
      meet,
      le→leb (x.count + g.count) u64_max (omega arith),
    )

-- What freeing `g` has to make of the free list.
abbrev Joined : ℕ → ℕ → BlockGroup → List BlockGroup → List BlockGroup → Type 0
Joined lo hi g gs out = Between lo hi out × ((b : ℕ) → Covers out b ↔ (In b g ⊎ Covers gs b))

-- No free block is in `g` or right behind it.
abbrev pub IsClear : BlockGroup → List BlockGroup → Type 0
IsClear g gs = (b : ℕ) → Covers gs b → (b < g.start) ⊎ (g.start + g.count < b)

-- A later block is free, or the one in front of `g` is.
abbrev pub HasNeighbour : BlockGroup → List BlockGroup → Type 0
HasNeighbour g gs = (b : ℕ) × Covers gs b × ((g.start < b) ⊎ (b + 1 ≡ g.start))

Between-raise :
    (lo lo' hi : ℕ) (gs : List BlockGroup)
    → Between lo hi gs
    → ((b : ℕ) → Covers gs b → lo' ≤ b)
    → Between lo' hi gs
Between-raise lo lo' hi [] v h = tt
Between-raise lo lo' hi (x ∷ gs) v h = (h x.start (inl (omega arith)), v.1, v.2, v.3)

free_into-Joined :
    (lo hi : ℕ) (g : BlockGroup) (gs : List BlockGroup)
    → hi < u64_max
    → Between lo hi gs
    → 1 ≤ g.count
    → lo ≤ g.start
    → g.start + g.count ≤ hi
    → IsClear g gs
    → HasNeighbour g gs
    → (out : List BlockGroup) × (free_into g gs ≡ ok out) × Joined lo hi g gs out
free_into-Joined lo hi g [] w v q l u clear (b, c, where_b) = absurd c
free_into-Joined lo hi g (x ∷ gs) w v q l u clear (b, c, near) =
    let size : IsGroup x = omega arith in
    let first = clear x.start (inl (omega arith)) in
    elim (Bool-cases (ltb g.start x.start)) [
      | inl before ↦ (
        g ∷ x ∷ gs,
        unfold free_into in rw before,
        ((l, q, u, (ground (arith, first), v.1, v.2, v.3)), λ k. (λ h. h, λ h. h)),
      )
      | inr behind ↦
          let ends : x.start + x.count ≤ g.start =
            ground (arith, λ (m : In g.start x). clear g.start (inl m)) in
          elim (Bool-cases (x.start + x.count == g.start)) [
            | inl touch ↦
                let e = ==→≡ _ _ touch in
                let tail : Between (x.start + (x.count + g.count) + 1) hi gs =
                  Between-raise (x.start + x.count + 1) (x.start + (x.count + g.count) + 1) hi gs
                    v.3
                    (λ k d. ground (
                      arith,
                      clear k (inr d),
                      Between-lower (x.start + x.count + 1) hi gs k v.3 d,
                    )) in
                (
                  record x { count = x.count + g.count } ∷ gs,
                  free_into_touching g x gs size q e (omega arith),
                  ((v.0, omega arith, omega arith, tail), λ k. (ground arith, ground arith)),
                )
            | inr gap ↦
                let ne = ==→≢ _ _ gap in
                let later : Covers gs b = elim c [ inl m ↦ absurd (ground arith) | inr d ↦ d ] in
                let (out, run, (sorted, cov)) =
                  free_into-Joined (x.start + x.count + 1) hi g gs w v.3 q (omega arith) u
                    (λ k d. clear k (inr d)) (b, later, near) in
                (
                  x ∷ out,
                  free_into-after g x gs out size (omega arith) run,
                  (
                    (v.0, v.1, v.2, sorted),
                    λ k. (ground (arith, (cov k).0), ground (arith, (cov k).1)),
                  ),
                )
          ]
    ]

-- On a well-formed list, `free_group` adds exactly the blocks of a group that is not free yet and
-- is not right in front of a free block, if a later block is free or the group follows a free block:
-- it does not panic, and the list stays well formed.
pub free_group-Joined :
    (blocks : ℕ) (g : BlockGroup) (a : BlockAllocator)
    → IsFree blocks a.free
    → 1 ≤ g.count
    → g.start + g.count ≤ blocks
    → IsClear g a.free
    → HasNeighbour g a.free
    → (out : BlockAllocator) × (free_group g a ≡ ok out)
      × IsFree blocks out.free
      × ((b : ℕ) → Covers out.free b ↔ (In b g ⊎ Covers a.free b))
unfolding free_group
free_group-Joined blocks g a v q u clear near =
    let (free, run, (sorted, cov)) =
      free_into-Joined 0 blocks g a.free v.addresses v.sorted q (omega arith) u clear near in
    let out : BlockAllocator = record a { free = free; dirty = true } in
    let valid : IsFree blocks free = record { sorted = sorted; addresses = v.addresses } in
    (out, rw (run, checked_lem blocks out valid), valid, cov)

free_into_lost :
    (lo hi : ℕ) (g : BlockGroup) (gs : List BlockGroup)
    → hi < u64_max
    → Between lo hi gs
    → hi < g.start
    → free_into g gs ≡ ok gs
free_into_lost lo hi g [] w v h = unfold free_into in refl
free_into_lost lo hi g (x ∷ gs) w v h =
    free_into-after g x gs gs (omega arith) (omega arith)
      (free_into_lost (x.start + x.count + 1) hi g gs w v.3 h)

-- A group behind all free blocks and not next to the last is lost: on a list that is well formed
-- below `hi`, freeing a group that starts beyond `hi` succeeds and leaves the free list as it was.
pub free_group_lost :
    (hi : ℕ) (g : BlockGroup) (a : BlockAllocator)
    → IsFree hi a.free
    → hi < g.start
    → free_group g a ≡ ok (record a { dirty = true })
unfolding free_group
free_group_lost hi g a v h = rw (
  free_into_lost 0 hi g a.free v.addresses v.sorted h,
  check_consistent-Between 0 hi a.free v.addresses v.sorted,
)

check_touching :
    (lo hi : ℕ) (ys zs : List BlockGroup) (g h : BlockGroup)
    → hi < u64_max
    → Between lo hi ys
    → hi < g.start
    → h.start ≡ g.start + g.count
    → h.start < u64_max
    → check_consistent (ys ++ g ∷ h ∷ zs) ≡ ok false
unfolding check_consistent
check_touching lo hi [] zs g h w v before touch word =
    let close : ltb (g.start + g.count) h.start ≡ false = ground arith in
    rw (Lba.add_lem g.start g.count (omega arith), close)
check_touching lo hi (x ∷ []) zs g h w v before touch word =
    rw (Lba.add_lem x.start x.count (omega arith), lt→ltb (x.start + x.count) g.start (omega arith))
      (check_touching 0 hi [] zs g h w tt before touch word)
check_touching lo hi (x ∷ y ∷ ys) zs g h w v before touch word =
    rw (Lba.add_lem x.start x.count (omega arith), lt→ltb (x.start + x.count) y.start (omega arith))
      (check_touching (x.start + x.count + 1) hi (y ∷ ys) zs g h w v.3 before touch word)

free_into_front :
    (lo hi : ℕ) (ys zs : List BlockGroup) (g h : BlockGroup)
    → hi < u64_max
    → Between lo hi ys
    → hi < g.start
    → g.start < h.start
    → free_into g (ys ++ h ∷ zs) ≡ ok (ys ++ g ∷ h ∷ zs)
free_into_front lo hi [] zs g h w v before lt = unfold free_into in rw (lt→ltb g.start h.start lt)
free_into_front lo hi (x ∷ ys) zs g h w v before lt =
    free_into-after g x (ys ++ h ∷ zs) (ys ++ g ∷ h ∷ zs) (omega arith) (omega arith)
      (free_into_front (x.start + x.count + 1) hi ys zs g h w v.3 before lt)

-- A group right in front of a free one is not merged with it: with the earlier groups well formed
-- below `hi` and the group beyond `hi`, `free_group` fails its own consistency check and panics.
pub free_group_touching :
    (hi : ℕ) (g h : BlockGroup) (ys zs : List BlockGroup) (a : BlockAllocator)
    → IsFree hi ys
    → a.free ≡ ys ++ h ∷ zs
    → hi < g.start
    → 1 ≤ g.count
    → h.start ≡ g.start + g.count
    → h.start < u64_max
    → free_group g a ≡ panic
unfolding free_group
free_group_touching hi g h ys zs a v e before q touch word = rw (
  e,
  free_into_front 0 hi ys zs g h v.addresses v.sorted before (omega arith),
  check_touching 0 hi ys zs g h v.addresses v.sorted before touch word,
)
