-- ===== src/BlockAllocator/FreeList.antt =====
-- modules/wasabi-fs/src/block_allocator.rs: the free list as a set of blocks, its well-formedness,
-- and the replacement of one group by parts of it.
use mathlib.Core.Option.{some-injective}
use wasabi_os.Prelude.{
  subst, sym, ℕ, zero, suc, ◌+◌, ◌-◌, ◌≤◌, ◌<◌, ◌≡◌, refl, ap, ◌↔◌, ◌⊎◌, inl, inr, true, some, List,
  [], ◌∷◌, ◌++◌, get_elem?, set, remove_at, insert_at, length, arith, u64_max, ok, lt→ltb,
}
use wasabi_os.BlockDevice.Lba
use wasabi_os.BlockDevice.Group.{BlockGroup}
use wasabi_os.BlockAllocator.{BlockAllocator, check_consistent, checked}

abbrev pub In : ℕ → BlockGroup → Type 0
In b g = (g.start ≤ b) × (b < g.start + g.count)

abbrev pub Covers : List BlockGroup → ℕ → Type 0
Covers [] b = ⊥
Covers (g ∷ gs) b = In b g ⊎ Covers gs b

-- Sorted groups of at least one block inside `lo .. hi`, with a block between any two.
abbrev pub Between : ℕ → ℕ → List BlockGroup → Type 0
Between lo hi [] = Unit {0}
Between lo hi (g ∷ gs) =
    (lo ≤ g.start)
    × (1 ≤ g.count)
    × (g.start + g.count ≤ hi)
    × Between (g.start + g.count + 1) hi gs

-- The free list of a device with `blocks` blocks, all of them addresses.
pub record IsFree (blocks : ℕ) (gs : List BlockGroup) : Type 0 where
  pub sorted : Between 0 blocks gs
  pub addresses : blocks < u64_max

pub Between-lower :
    (lo hi : ℕ) (gs : List BlockGroup) (b : ℕ)
    → Between lo hi gs
    → Covers gs b
    → (lo ≤ b) × (b < hi)
Between-lower lo hi [] b v c = absurd c
Between-lower lo hi (g ∷ gs) b v (inl i) = omega arith
Between-lower lo hi (g ∷ gs) b v (inr c) =
    omega (arith, Between-lower (g.start + g.count + 1) hi gs b v.3 c)

pub Between-weaken :
    (lo lo' hi : ℕ) (gs : List BlockGroup) → lo' ≤ lo → Between lo hi gs → Between lo' hi gs
Between-weaken lo lo' hi [] h v = tt
Between-weaken lo lo' hi (g ∷ gs) h v = (omega arith, v.1, v.2, v.3)

-- The group at an index is well formed, and its blocks are in no other group.
pub Between-get :
    (lo hi : ℕ) (gs : List BlockGroup) (i : ℕ) (g : BlockGroup)
    → Between lo hi gs
    → get_elem? gs i ≡ some g
    → (lo ≤ g.start) × (1 ≤ g.count) × (g.start + g.count ≤ hi)
Between-get lo hi [] i g v at = cc
Between-get lo hi (x ∷ gs) zero g v at = ground arith
Between-get lo hi (x ∷ gs) (suc i) g v at =
    omega (arith, Between-get (x.start + x.count + 1) hi gs i g v.3 at)

pub Covers-remove_at :
    (gs : List BlockGroup) (i : ℕ) (g : BlockGroup) (b : ℕ)
    → get_elem? gs i ≡ some g
    → Covers gs b ↔ (In b g ⊎ Covers (remove_at i gs) b)
Covers-remove_at [] i g b at = (λ c. absurd c, cc)
Covers-remove_at (x ∷ gs) zero g b at = (ground arith, ground arith)
Covers-remove_at (x ∷ gs) (suc i) g b at =
    let ih = Covers-remove_at gs i g b at in (ground (arith, ih.0), ground (arith, ih.1))

pub remove_at-disjoint :
    (lo hi : ℕ) (gs : List BlockGroup) (i : ℕ) (g : BlockGroup) (b : ℕ)
    → Between lo hi gs
    → get_elem? gs i ≡ some g
    → In b g
    → ¬ Covers (remove_at i gs) b
remove_at-disjoint lo hi [] i g b v at m = cc
remove_at-disjoint lo hi (x ∷ gs) zero g b v at m =
    λ c. ground (arith, Between-lower (x.start + x.count + 1) hi gs b v.3 c)
remove_at-disjoint lo hi (x ∷ gs) (suc i) g b v at m = elim [
  | inl here ↦ omega (arith, Between-get (x.start + x.count + 1) hi gs i g v.3 at)
  | inr c ↦ remove_at-disjoint (x.start + x.count + 1) hi gs i g b v.3 at m c
]

-- The group at `i` replaced by other groups.
abbrev pub splice : ℕ → List BlockGroup → List BlockGroup → List BlockGroup
splice i new [] = []
splice zero new (x ∷ gs) = new ++ gs
splice (suc i) new (x ∷ gs) = x ∷ splice i new gs

pub splice-none : (i : ℕ) (gs : List BlockGroup) → splice i [] gs ≡ remove_at i gs
splice-none i [] = refl
splice-none zero (x ∷ gs) = refl
splice-none (suc i) (x ∷ gs) = ap (◌∷◌ x) (splice-none i gs)

pub splice-one : (i : ℕ) (f : BlockGroup) (gs : List BlockGroup) → splice i (f ∷ []) gs ≡ set gs i f
splice-one i f [] = refl
splice-one zero f (x ∷ gs) = refl
splice-one (suc i) f (x ∷ gs) = ap (◌∷◌ x) (splice-one i f gs)

pub splice-two :
    (i : ℕ) (f h : BlockGroup) (gs : List BlockGroup)
    → i < length gs
    → splice i (f ∷ h ∷ []) gs ≡ insert_at (suc i) h (set gs i f)
splice-two i f h [] lt = absurd (omega arith)
splice-two zero f h (x ∷ gs) lt = refl
splice-two (suc i) f h (x ∷ gs) lt = ap (◌∷◌ x) (splice-two i f h gs (omega arith))

Between-append :
    (lo mid hi : ℕ) (new gs : List BlockGroup)
    → lo ≤ mid
    → mid ≤ hi
    → Between lo mid new
    → Between (mid + 1) hi gs
    → Between lo hi (new ++ gs)
Between-append lo mid hi [] gs h k p q = Between-weaken (mid + 1) lo hi gs (omega arith) q
Between-append lo mid hi (x ∷ []) gs h k p q =
    (p.0, p.1, omega arith, Between-weaken (mid + 1) (x.start + x.count + 1) hi gs (omega arith) q)
Between-append lo mid hi (x ∷ y ∷ new) gs h k p q = (
  p.0,
  p.1,
  omega arith,
  Between-append (x.start + x.count + 1) mid hi (y ∷ new) gs (omega arith) k p.3 q,
)

pub Between-splice :
    (lo hi : ℕ) (gs : List BlockGroup) (i : ℕ) (g : BlockGroup) (new : List BlockGroup)
    → Between lo hi gs
    → get_elem? gs i ≡ some g
    → Between g.start (g.start + g.count) new
    → Between lo hi (splice i new gs)
Between-splice lo hi [] i g new v at p = tt
Between-splice lo hi (x ∷ gs) zero g new v at p =
    let e : x ≡ g = some-injective x g at in
    let p' = subst (λ (y : BlockGroup). Between y.start (y.start + y.count) new) (sym e) p in
    Between-append lo (x.start + x.count) hi new gs (omega arith) (omega arith)
      (Between-weaken x.start lo (x.start + x.count) new v.0 p') v.3
Between-splice lo hi (x ∷ gs) (suc i) g new v at p =
    (v.0, v.1, v.2, Between-splice (x.start + x.count + 1) hi gs i g new v.3 at p)

pub Covers-append :
    (xs ys : List BlockGroup) (b : ℕ) → Covers (xs ++ ys) b ↔ (Covers xs b ⊎ Covers ys b)
Covers-append [] ys b = (inr, elim [ inl h ↦ absurd h | inr h ↦ h ])
Covers-append (x ∷ xs) ys b =
    let ih = Covers-append xs ys b in (ground (arith, ih.0), ground (arith, ih.1))

pub Covers-splice :
    (gs : List BlockGroup) (i : ℕ) (g : BlockGroup) (new : List BlockGroup) (b : ℕ)
    → get_elem? gs i ≡ some g
    → Covers (splice i new gs) b ↔ (Covers new b ⊎ Covers (remove_at i gs) b)
Covers-splice [] i g new b at = (λ c. absurd c, cc)
Covers-splice (x ∷ gs) zero g new b at = Covers-append new gs b
Covers-splice (x ∷ gs) (suc i) g new b at =
    let ih = Covers-splice gs i g new b at in (ground (arith, ih.0), ground (arith, ih.1))

-- Sorted lists with gaps pass the check, and it does not panic.
pub check_consistent-Between :
    (lo hi : ℕ) (gs : List BlockGroup)
    → hi < u64_max
    → Between lo hi gs
    → check_consistent gs ≡ ok true
unfolding check_consistent
check_consistent-Between lo hi [] h v = refl
check_consistent-Between lo hi (x ∷ []) h v = refl
check_consistent-Between lo hi (x ∷ y ∷ gs) h v =
    rw (Lba.add_lem x.start x.count (omega arith), lt→ltb (x.start + x.count) y.start (omega arith))
      (check_consistent-Between (x.start + x.count + 1) hi (y ∷ gs) h v.3)

pub checked_lem : (blocks : ℕ) (a : BlockAllocator) → IsFree blocks a.free → checked a ≡ ok a
checked_lem blocks a v = rw (check_consistent-Between 0 blocks a.free v.addresses v.sorted)

-- So a list is shorter than its device.
pub length-Between :
    (lo hi : ℕ) (gs : List BlockGroup) → lo ≤ hi → Between lo hi gs → length gs ≤ hi - lo
length-Between lo hi [] h v = omega arith
length-Between lo hi (g ∷ []) h v = omega arith
length-Between lo hi (g ∷ k ∷ gs) h v =
    omega (arith, length-Between (g.start + g.count + 1) hi (k ∷ gs) (omega arith) v.3)
