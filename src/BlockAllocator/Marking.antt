-- ===== src/BlockAllocator/Marking.antt =====
-- modules/wasabi-fs/src/block_allocator.rs: `mark_used` takes one block out of the free list.
use wasabi_os.Prelude.{
  ℕ, suc, ◌+◌, ◌-◌, ◌<◌, ◌≡◌, refl, ◌↔◌, ◌⊎◌, inl, inr, ◌≢◌, true, false, none, some, List, [],
  subst, ◌∷◌, get_elem?, remove_at, length, arith, u64_max, ltb, ok, Bool-cases, leb, if◌then◌else◌,
  ==→≡, ==→≢, ◌==◌,
}
use wasabi_os.BlockDevice.Lba
use wasabi_os.BlockDevice.Group
use wasabi_os.BlockDevice.Group.{BlockGroup, IsGroup}
use wasabi_os.BlockAllocator.{
  BlockAllocator, position, take_block, mark_used, mark_all, empty, nonzero,
}
use wasabi_os.BlockAllocator.FreeList.{
  In, Covers, Between, IsFree, Between-get, Covers-remove_at, remove_at-disjoint, splice,
  splice-none, splice-one, splice-two, Between-splice, Covers-splice, checked_lem,
}

-- The search finds the group of the block, or that no group has it.
pub position_lem :
    (lba lo hi : ℕ) (gs : List BlockGroup)
    → hi < u64_max
    → Between lo hi gs
    → ((i : ℕ) × (g : BlockGroup) × (position lba gs ≡ ok (some (i, g)))
        × (get_elem? gs i ≡ some g)
        × In lba g
        × (i < length gs))
      ⊎ ((position lba gs ≡ ok none) × (¬ Covers gs lba))
unfolding position
position_lem lba lo hi [] h v = inr (refl, λ c. c)
position_lem lba lo hi (x ∷ gs) h v =
    let has = Group.contains_lem lba x (v.1, omega arith) in
    elim (Bool-cases (if leb x.start lba then ltb lba (x.start + x.count) else false)) [
      | inl here ↦ inl (0, x, rw (has, here), refl, ground arith, omega arith)
      | inr there ↦ elim (position_lem lba (x.start + x.count + 1) hi gs h v.3) [
        | inl (i, g, run, at, m, lt) ↦ inl (suc i, g, rw (has, there, run), at, m, omega arith)
        | inr (run, out) ↦ inr (rw (has, there, run), elim [ inl m ↦ ground arith | inr c ↦ out c ])
      ]
    ]

-- What taking `lba` has to make of the free list.
pub record Marks (blocks lba : ℕ) (a out : BlockAllocator) : Type 0 where
  pub valid : IsFree blocks out.free
  pub covers : (b : ℕ) → Covers out.free b ↔ (Covers a.free b × (b ≢ lba))

-- Each branch replaces the group by what is left of it.
pub splice-Marks :
    (blocks lba : ℕ) (a : BlockAllocator) (i : ℕ) (g : BlockGroup) (new : List BlockGroup)
    → IsFree blocks a.free
    → get_elem? a.free i ≡ some g
    → In lba g
    → Between g.start (g.start + g.count) new
    → ((b : ℕ) → Covers new b ↔ (In b g × (b ≢ lba)))
    → Marks blocks lba a (record a { free = splice i new a.free })
splice-Marks blocks lba a i g new v at m p cut = record {
  valid = record {
    sorted = Between-splice 0 blocks a.free i g new v.sorted at p;
    addresses = v.addresses;
  };
  covers = λ b.
      let c = Covers-splice a.free i g new b at in
      let d = Covers-remove_at a.free i g b at in
      (
        λ h. elim (c.0 h) [
          | inl k ↦ (d.1 (inl ((cut b).0 k).0), ((cut b).0 k).1)
          | inr old ↦ (
            d.1 (inr old),
            λ e.
                remove_at-disjoint 0 blocks a.free i g lba v.sorted at m
                  (subst (Covers (remove_at i a.free)) e old),
          )
        ],
        λ (h, far). c.1 (elim (d.0 h) [ inl k ↦ inl ((cut b).1 (k, far)) | inr old ↦ inr old ]),
      );
}

-- The allocator with the group at `i` replaced.
abbrev spliced : BlockAllocator → ℕ → List BlockGroup → BlockAllocator
spliced a i new = record a { free = splice i new a.free }

take_block-Marks :
    (blocks lba : ℕ) (a : BlockAllocator) (i : ℕ) (g : BlockGroup)
    → IsFree blocks a.free
    → get_elem? a.free i ≡ some g
    → i < length a.free
    → In lba g
    → (out : BlockAllocator) × (take_block lba i g a ≡ ok out) × Marks blocks lba a out
unfolding take_block
take_block-Marks blocks lba a i g v at lt m =
    let bounds = Between-get 0 blocks a.free i g v.sorted at in
    let size : IsGroup g = omega (arith, v.addresses) in
    elim (Bool-cases (lba == g.start)) [
      | inl first ↦
          let e = ==→≡ lba g.start first in
          elim (Bool-cases (g.count == 1)) [
            | inl one ↦
                let marks =
                  splice-Marks blocks lba a i g [] v at m tt
                    (λ b. (λ c. absurd c, λ c. ground arith)) in
                (
                  spliced a i [],
                  rw (first, one, ← splice-none i a.free)
                      (checked_lem blocks (spliced a i []) marks.valid),
                  marks,
                )
            | inr more ↦
                let f : BlockGroup = record { start = g.start + 1; count = g.count - 1 } in
                let marks =
                  splice-Marks blocks lba a i g (f ∷ []) v at m (ground arith)
                    (λ b. (ground arith, ground arith)) in
                (
                  spliced a i (f ∷ []),
                  rw (first, more, Lba.add_lem g.start 1 (omega arith), ← splice-one i f a.free)
                      (checked_lem blocks (spliced a i (f ∷ [])) marks.valid),
                  marks,
                )
          ]
      | inr later ↦
          let ne = ==→≢ lba g.start later in
          let last = Group.end_lem g size in
          elim (Bool-cases (lba == g.start + g.count - 1)) [
            | inl end ↦
                let f : BlockGroup = record g { count = g.count - 1 } in
                let nz : nonzero (g.count - 1) ≡ ok (g.count - 1) = ground arith in
                let marks =
                  splice-Marks blocks lba a i g (f ∷ []) v at m (ground arith)
                    (λ b. (ground arith, ground arith)) in
                (
                  spliced a i (f ∷ []),
                  rw (later, last, end, nz, ← splice-one i f a.free)
                      (checked_lem blocks (spliced a i (f ∷ [])) marks.valid),
                  marks,
                )
            | inr middle ↦
                let f : BlockGroup = record g { count = lba - g.start } in
                let h : BlockGroup = record {
                  start = lba + 1;
                  count = g.start + g.count - 1 + 1 - (lba + 1);
                } in
                let far = ==→≢ lba (g.start + g.count - 1) middle in
                let nz : nonzero (lba - g.start) ≡ ok (lba - g.start) = ground arith in
                let marks =
                  splice-Marks blocks lba a i g (f ∷ h ∷ []) v at m (omega arith)
                    (λ b. (ground arith, ground arith)) in
                (
                  spliced a i (f ∷ h ∷ []),
                  rw
                      (
                        later,
                        last,
                        middle,
                        Lba.distance_lem lba g.start m.0,
                        nz,
                        Lba.add_lem lba 1 (omega (arith, v.addresses)),
                        Group.new_lem (lba + 1) (g.start + g.count - 1) (omega arith),
                        ← splice-two i f h a.free lt,
                      )
                      (checked_lem blocks (spliced a i (f ∷ h ∷ [])) marks.valid),
                  marks,
                )
          ]
    ]

-- On a well-formed list `mark_used` never panics. A free block is taken out and the list stays well
-- formed and covers the other blocks; a block that is not free is refused.
pub mark_used-Marks :
    (blocks lba : ℕ) (a : BlockAllocator)
    → IsFree blocks a.free
    → ((Covers a.free lba)
        × ((out : BlockAllocator) × (mark_used lba a ≡ ok (some out)) × Marks blocks lba a out))
      ⊎ ((¬ Covers a.free lba) × (mark_used lba a ≡ ok none))
unfolding mark_used
mark_used-Marks blocks lba a v = elim (position_lem lba 0 blocks a.free v.addresses v.sorted) [
  | inl (i, g, run, at, m, lt) ↦
      let (out, took, marks) = take_block-Marks blocks lba a i g v at lt m in
      inl ((Covers-remove_at a.free i g lba at).1 (inl m), (out, rw (run, took), marks))
  | inr (run, out) ↦ inr (out, rw run)
]

abbrev pub Among : ℕ → List ℕ → Type 0
Among b [] = ⊥
Among b (x ∷ xs) = (b ≡ x) ⊎ Among b xs

abbrev pub AreDistinct : List ℕ → Type 0
AreDistinct [] = Unit {0}
AreDistinct (x ∷ xs) = (¬ Among x xs) × AreDistinct xs

mark_all-Marks :
    (blocks : ℕ) (used : List ℕ) (a : BlockAllocator)
    → IsFree blocks a.free
    → AreDistinct used
    → ((b : ℕ) → Among b used → Covers a.free b)
    → (out : BlockAllocator) × (mark_all used a ≡ ok out)
      × IsFree blocks out.free
      × ((b : ℕ) → Covers out.free b ↔ (Covers a.free b × (¬ Among b used)))
unfolding mark_all
mark_all-Marks blocks [] a v d h = (a, refl, v, λ b. (λ c. (c, λ n. n), λ c. c.0))
mark_all-Marks blocks (x ∷ xs) a v d h = elim (mark_used-Marks blocks x a v) [
  | inr (out, run) ↦ absurd (out (h x (inl refl)))
  | inl (c, (mid, run, m)) ↦
      let (out, rest, w, cov) =
        mark_all-Marks blocks xs mid m.valid d.1
          (λ b k. (m.covers b).1 (h b (inr k), λ e. d.0 (subst (λ (y : ℕ). Among y xs) e k))) in
      (
        out,
        rw (run, rest),
        w,
        λ b. (
          λ k.
              let (old, far) = (cov b).0 k in
              (((m.covers b).0 old).0, elim [ inl e ↦ ((m.covers b).0 old).1 e | inr n ↦ far n ]),
          λ (k, far). (cov b).1 ((m.covers b).1 (k, λ e. far (inl e)), λ n. far (inr n)),
        ),
      )
]

-- A new allocator for `max_lba` blocks with distinct used blocks, all on the device, is made
-- without a panic: its list is well formed and its free blocks are those not in use.
pub empty_free :
    (used : List ℕ) (max_lba : ℕ)
    → 0 < max_lba
    → max_lba < u64_max
    → AreDistinct used
    → ((b : ℕ) → Among b used → b < max_lba)
    → (out : BlockAllocator) × (empty used max_lba ≡ ok out)
      × IsFree max_lba out.free
      × ((b : ℕ) → Covers out.free b ↔ ((b < max_lba) × (¬ Among b used)))
unfolding empty
empty_free used max_lba pos word d h =
    let nz : nonzero max_lba ≡ ok max_lba = ground arith in
    let whole : List BlockGroup = record { start = 0; count = max_lba } ∷ [] in
    let a : BlockAllocator = record {
      free = whole;
      on_disk = none;
      self_on_disk = [];
      dirty = true;
    } in
    let valid : IsFree max_lba whole = record { sorted = omega arith; addresses = word } in
    let (out, run, w, cov) =
      mark_all-Marks max_lba used a valid d (λ b k. inl (omega (arith, h b k))) in
    (
      out,
      rw nz run,
      w,
      λ b. (
        λ k. let c = (cov b).0 k in (ground (arith, c.0), c.1),
        λ (lt, far). (cov b).1 (inl (omega arith), far),
      ),
    )
