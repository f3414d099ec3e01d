-- ===== src/BlockAllocator/Fitting.antt =====
-- modules/wasabi-fs/src/block_allocator.rs: `allocate_group` takes the front of a group that fits
-- best.
use wasabi_os.Prelude.{
  length-append, zero, ℕ, suc, ◌+◌, ◌-◌, ◌≤◌, ◌<◌, ◌≡◌, refl, ◌↔◌, ◌⊎◌, inl, inr, true, false, some,
  List, [], subst, ◌∷◌, get_elem?, length, arith, u64_max, ltb, ok, le→leb, Bool-cases, ◌==◌,
}
use wasabi_os.BlockDevice.Lba
use wasabi_os.BlockDevice.Group.{BlockGroup}
use wasabi_os.BlockAllocator.{
  BlockAllocator, done, failed, no_consecutive_free_blocks, Fit, carve, improve, best_fit,
  allocate_group,
}
use wasabi_os.BlockAllocator.FreeList.{
  In, Covers, Between, IsFree, Between-get, Covers-remove_at, remove_at-disjoint, splice,
  splice-none, splice-one, Between-splice, Covers-splice, checked_lem, length-Between,
}

-- The number of blocks that a group would leave is at least `rem`.
abbrev NoBetter : ℕ → ℕ → List BlockGroup → Type 0
NoBetter size rem [] = Unit {0}
NoBetter size rem (g ∷ gs) = (size ≤ g.count → rem ≤ g.count - size) × NoBetter size rem gs

-- `r` is the fit `f` from before the list, or a better group of it, whose index counts from `i`.
abbrev BestOf : ℕ → ℕ → List BlockGroup → Fit → Fit → Type 0
BestOf size i gs f r =
    NoBetter size r.best_rem gs
    × (r.best_rem ≤ f.best_rem)
    × ((r ≡ f)
        ⊎ ((j : ℕ) × (g : BlockGroup) × (get_elem? gs j ≡ some g)
            × (j < length gs)
            × (r.best ≡ i + j)
            × (size ≤ g.count)
            × (r.best_rem ≡ g.count - size)
            × (r.best_rem < f.best_rem)))

BestOf-improve :
    (size i : ℕ) (g : BlockGroup) (gs : List BlockGroup) (f r : Fit)
    → BestOf size (suc i) gs (improve size i g f) r
    → BestOf size i (g ∷ gs) f r
unfolding improve
BestOf-improve size i g gs f r (least, le, inr (j, h, at, lt, best, fits, rem, better)) = (
  (λ k. ground arith, least),
  ground arith,
  inr (suc j, h, at, omega arith, omega arith, fits, rem, ground arith),
)
BestOf-improve size i g gs f r (least, le, inl e) = elim (Bool-cases (ltb g.count size)) [
  | inl small ↦ ((λ k. ground arith, least), ground arith, inl (ground arith))
  | inr large ↦ elim (Bool-cases (ltb (g.count - size) f.best_rem)) [
    | inl better ↦ (
      (λ k. ground arith, least),
      ground arith,
      inr (0, g, refl, omega arith, ground arith, ground arith, ground arith, ground arith),
    )
    | inr worse ↦ ((λ k. ground arith, least), ground arith, inl (ground arith))
  ]
]

best_fit-BestOf :
    (size i : ℕ) (gs : List BlockGroup) (f : Fit) → BestOf size i gs f (best_fit size i gs f)
unfolding best_fit
best_fit-BestOf size i [] f = (tt, omega arith, inl refl)
best_fit-BestOf size i (g ∷ gs) f =
    BestOf-improve size i g gs f (best_fit size (suc i) gs (improve size i g f))
      (best_fit-BestOf size (suc i) gs (improve size i g f))

-- What a successful call has to make of the free list: the front of a group that fits best is taken.
pub record Takes (blocks size : ℕ) (a out : BlockAllocator) (g : BlockGroup) : Type 0 where
  pub sized : g.count ≡ size
  pub was_free : (b : ℕ) → In b g → Covers a.free b
  pub covers : (b : ℕ) → Covers out.free b ↔ (Covers a.free b × (¬ In b g))
  pub valid : IsFree blocks out.free
  pub source : BlockGroup
  pub listed : (i : ℕ) × (get_elem? a.free i ≡ some source)
  pub front : g.start ≡ source.start
  pub least : NoBetter size (source.count - size) a.free
  pub shorter : length out.free ≤ length a.free
  pub saved : (out.on_disk ≡ a.on_disk) × (out.self_on_disk ≡ a.self_on_disk)

-- At most one group takes the place of another.
length-splice :
    (i : ℕ) (new gs : List BlockGroup) → length new ≤ 1 → length (splice i new gs) ≤ length gs
length-splice i new [] h = omega arith
length-splice zero new (x ∷ gs) h = omega (arith, length-append new gs)
length-splice (suc i) new (x ∷ gs) h = omega (arith, length-splice i new gs h)

splice-Takes :
    (blocks size : ℕ) (a : BlockAllocator) (i : ℕ) (g : BlockGroup) (new : List BlockGroup)
    → IsFree blocks a.free
    → get_elem? a.free i ≡ some g
    → size ≤ g.count
    → NoBetter size (g.count - size) a.free
    → Between g.start (g.start + g.count) new
    → ((b : ℕ) → Covers new b ↔ ((g.start + size ≤ b) × (b < g.start + g.count)))
    → length new ≤ 1
    → Takes blocks size a
        (record a { free = splice i new a.free; dirty = true })
        (record { start = g.start; count = size })
splice-Takes blocks size a i g new v at fits least p rest short = record {
  sized = refl;
  was_free = λ b m. (Covers-remove_at a.free i g b at).1 (inl (omega arith));
  covers = λ b.
      let c = Covers-splice a.free i g new b at in
      let d = Covers-remove_at a.free i g b at in
      let r = rest b in
      (
        λ h. elim (c.0 h) [
          | inl k ↦ (d.1 (inl (omega (arith, r.0 k))), λ m. omega (arith, r.0 k))
          | inr old ↦ (
            d.1 (inr old),
            λ m. remove_at-disjoint 0 blocks a.free i g b v.sorted at (omega arith) old,
          )
        ],
        λ (h, far). c.1 (elim (d.0 h) [ inl k ↦ inl (r.1 (ground arith)) | inr old ↦ inr old ]),
      );
  valid = record {
    sorted = Between-splice 0 blocks a.free i g new v.sorted at p;
    addresses = v.addresses;
  };
  source = g;
  listed = (i, at);
  front = refl;
  least = least;
  shorter = length-splice i new a.free short;
  saved = (refl, refl);
}

-- No group has `size` blocks.
abbrev pub AllSmaller : ℕ → List BlockGroup → Type 0
AllSmaller size [] = Unit {0}
AllSmaller size (g ∷ gs) = (g.count < size) × AllSmaller size gs

NoBetter-AllSmaller :
    (lo blocks size : ℕ) (gs : List BlockGroup)
    → 1 ≤ size
    → blocks < u64_max
    → Between lo blocks gs
    → NoBetter size u64_max gs
    → AllSmaller size gs
NoBetter-AllSmaller lo blocks size [] pos w v n = tt
NoBetter-AllSmaller lo blocks size (g ∷ gs) pos w v n =
    (ground (arith, n.0), NoBetter-AllSmaller (g.start + g.count + 1) blocks size gs pos w v.3 n.1)

carve-Takes :
    (blocks size j : ℕ) (f : Fit) (a : BlockAllocator) (g : BlockGroup)
    → IsFree blocks a.free
    → 1 ≤ size
    → get_elem? a.free j ≡ some g
    → j < length a.free
    → f.best ≡ j
    → size ≤ g.count
    → f.best_rem ≡ g.count - size
    → NoBetter size (g.count - size) a.free
    → (out : BlockAllocator) × (t : BlockGroup) × (carve size f a ≡ ok (out, done t))
      × Takes blocks size a out t
unfolding carve
carve-Takes blocks size j f a g v pos at lt best fits rem least =
    let bounds = Between-get 0 blocks a.free j g v.sorted at in
    let found : (f.best == u64_max) ≡ false =
      ground (arith, length-Between 0 blocks a.free, v.addresses, v.sorted) in
    elim (Bool-cases (f.best_rem == 0)) [
      | inl all ↦
          let whole : g ≡ record { start = g.start; count = size } = ground arith in
          (
            record a { free = splice j [] a.free; dirty = true },
            record { start = g.start; count = size },
            rw (found, best, at, all, ← splice-none j a.free, ← whole),
            splice-Takes blocks size a j g [] v at fits least tt
                (λ b. (λ c. absurd c, λ c. ground arith)) (omega arith),
          )
      | inr more ↦
          let rest : BlockGroup = record { start = g.start + size; count = f.best_rem } in
          let takes =
            splice-Takes blocks size a j g (rest ∷ []) v at fits least (ground arith)
              (λ b. (ground arith, ground arith)) (omega arith) in
          let out : BlockAllocator = record a {
            free = splice j (rest ∷ []) a.free;
            dirty = true;
          } in
          (
            out,
            record { start = g.start; count = size },
            rw (
              found,
              best,
              at,
              more,
              Lba.add_lem g.start size (omega (arith, v.addresses)),
              ← splice-one j rest a.free,
              checked_lem blocks out takes.valid,
            ),
            takes,
          )
    ]

-- On a well-formed list `allocate_group` never panics for a size of at least one. It takes the front
-- of a group that leaves the fewest blocks, and exactly those; or no group has `size` blocks, and it
-- fails and changes nothing.
pub allocate_group-Takes :
    (blocks size : ℕ) (a : BlockAllocator)
    → IsFree blocks a.free
    → 1 ≤ size
    → ((out : BlockAllocator) × (g : BlockGroup) × (allocate_group size a ≡ ok (out, done g))
        × Takes blocks size a out g)
      ⊎ (AllSmaller size a.free
          × (allocate_group size a ≡ ok (a, failed (no_consecutive_free_blocks size))))
unfolding allocate_group carve
allocate_group-Takes blocks size a v pos =
    let init : Fit = record { best = u64_max; best_rem = u64_max } in
    let f = best_fit size 0 a.free init in
    let (least, le, found) = best_fit-BestOf size 0 a.free init in
    elim found [
      | inl e ↦ inr (
        NoBetter-AllSmaller 0 blocks size a.free pos v.addresses v.sorted
            (subst (λ (r : Fit). NoBetter size r.best_rem a.free) e least),
        rw (le→leb 1 size pos, e),
      )
      | inr (j, g, at, lt, best, fits, rem, better) ↦
          let (out, t, run, takes) =
            carve-Takes blocks size j f a g v pos at lt (omega arith) fits rem
              (subst (λ (r : ℕ). NoBetter size r a.free) rem least) in
          inl (out, t, rw (le→leb 1 size pos) run, takes)
    ]
