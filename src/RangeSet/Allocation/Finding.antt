-- ===== src/RangeSet/Allocation/Finding.antt =====
-- libs/shared/src/rangeset.rs: when `allocate` finds a block.
use wasabi_os.Prelude.{
  ◌>>=◌, panic, stuck, ◌≢◌, ℕ, zero, suc, ◌+◌, ◌-◌, ◌≤◌, ◌<◌, ◌≡◌, refl, sym, ◌∙◌, ◌⊎◌, inl, inr,
  false, not, Option, none, some, List, [], ◌∷◌, get_elem?, Bool-cases, u64_max, arith, ◌==◌, ltb,
  Outcome, ok, checked_add,
}
use wasabi_os.RangeSet.{Range, RangeSet, in_use, remove}
use wasabi_os.RangeSet.Coverage.{IsValid}
use wasabi_os.RangeSet.Allocation.{
  any, Candidate, best, count_ones, search_entries, Allocated, finish, allocate_prefer, allocate,
  align_fix, own_block, try_entry, skipped, offered, better,
}
use wasabi_os.RangeSet.Allocation.Blocks.{Allocates, try_entry_any, allocate_prefer-Allocates}

-- The padded block from the start of an entry stays in `u64`.
abbrev pub InWord : ℕ → ℕ → Range → Type 0
InWord size align e = e.start + (size - 1) + align_fix (align - 1) align e.start ≤ u64_max

abbrev pub AllInWord : ℕ → ℕ → List Range → Type 0
AllInWord size align [] = Unit {0}
AllInWord size align (e ∷ es) = InWord size align e × AllInWord size align es

-- The padded block fits in the entry.
abbrev pub Fits : ℕ → ℕ → Range → Type 0
Fits size align e = e.start + (size - 1) + align_fix (align - 1) align e.start ≤ e.end

own_block_lem :
    (size align : ℕ) (e : Range)
    → InWord size align e
    → own_block size (align - 1) align e
      ≡ some (record {
        base = e.start;
        end = e.start + (size - 1) + align_fix (align - 1) align e.start;
        ptr = e.start + align_fix (align - 1) align e.start;
      })
unfolding own_block
own_block_lem size align e h =
    let first : checked_add e.start (size - 1) ≡ some (e.start + (size - 1)) = ground arith in
    let second : checked_add (e.start + (size - 1)) (align_fix (align - 1) align e.start)
        ≡ some (e.start + (size - 1) + align_fix (align - 1) align e.start) =
      ground arith in
    rw (first, own_block) (rw second)

try_entry-InWord :
    (size align : ℕ) (e : Range)
    → InWord size align e
    → (try_entry size (align - 1) align none false e ≡ skipped)
      ⊎ ((c : Candidate) × (try_entry size (align - 1) align none false e ≡ offered c))
unfolding try_entry
try_entry-InWord size align e h = elim (try_entry_any size (align - 1) align e) [
  | inl o ↦ absurd (ground (arith, own_block_lem size align e h, o))
  | inr rest ↦ rest
]

try_entry-Fits :
    (size align : ℕ) (e : Range)
    → e.end ≤ u64_max
    → Fits size align e
    → (c : Candidate) × (try_entry size (align - 1) align none false e ≡ offered c)
unfolding try_entry
try_entry-Fits size align e word h = (
  record {
    base = e.start;
    end = e.start + (size - 1) + align_fix (align - 1) align e.start;
    ptr = e.start + align_fix (align - 1) align e.start;
  },
  rw (own_block_lem size align e (omega arith), try_entry) (ground arith),
)

better-some :
    (c : Candidate) (found : Option Candidate) → (d : Candidate) × (better c found ≡ some d)
better-some c none = (c, refl)
better-some c (some old) = elim (Bool-cases (ltb (c.end - c.base) (old.end - old.base))) [
  | inl less ↦ (c, rw less)
  | inr more ↦ (old, rw more)
]

-- A candidate is not lost again.
search_keeps :
    (size align : ℕ) (es : List Range) (c : Candidate)
    → AllInWord size align es
    → (d : Candidate) × (search_entries size (align - 1) align none false es (some c)
        ≡ best (some d))
unfolding search_entries
search_keeps size align [] c w = (c, refl)
search_keeps size align (e ∷ es) c w = elim (try_entry-InWord size align e w.0) [
  | inl s ↦ let (d, run) = search_keeps size align es c w.1 in (d, rw (s, search_entries) run)
  | inr (own, o) ↦
      let (b, e') = better-some own (some c) in
      let (d, run) = search_keeps size align es b w.1 in (d, rw (o, search_entries) (rw e' run))
]

search_finds :
    (size align i : ℕ) (es : List Range) (e : Range) (found : Option Candidate)
    → AllInWord size align es
    → get_elem? es i ≡ some e
    → e.end ≤ u64_max
    → Fits size align e
    → (d : Candidate) × (search_entries size (align - 1) align none false es found ≡ best (some d))
unfolding search_entries
search_finds size align i [] e found w at word h = cc
search_finds size align zero (x ∷ es) e found w at word h =
    let (own, o) = try_entry-Fits size align x (ground arith) (ground arith) in
    let (b, e') = better-some own found in
    let (d, run) = search_keeps size align es b w.1 in (d, rw (o, search_entries) (rw e' run))
search_finds size align (suc i) (x ∷ es) e found w at word h =
    elim (try_entry-InWord size align x w.0) [
      | inl s ↦
          let (d, run) = search_finds size align i es e found w.1 at word h in
          (d, rw (s, search_entries) run)
      | inr (own, o) ↦
          let (d, run) = search_finds size align i es e (better own found) w.1 at word h in
          (d, rw (o, search_entries) run)
    ]

finish-some : (rs rest : RangeSet) (c : Candidate) → finish rs (best (some c)) ≢ ok (rest, none)
finish-some rs rest c = go (remove (record { start = c.base; end = c.end }) rs)
  where
    go :
        (m : Outcome RangeSet)
        → ◌>>=◌ {B = Allocated} m (λ left. ok (left, some c.ptr)) ≢ ok (rest, none)
    go (ok left) e = cc
    go panic e = cc
    go stuck e = cc

allocate_search :
    (size align : ℕ) (rs : RangeSet) (d : Candidate)
    → 0 < size
    → count_ones align ≡ 1
    → search_entries size (align - 1) align none false rs.ranges none ≡ best (some d)
    → allocate_prefer size align any rs ≡ finish rs (best (some d))
unfolding allocate_prefer
allocate_search size align rs d pos power found =
    let full : (size == 0) ≡ false = ground arith in
    let one : not (count_ones align == 1) ≡ false = ground arith in rw (full, one, found)

-- On a valid set with a free slot, for a size of at least one and an alignment that is a power of
-- two, `allocate` returns a block whenever some entry has room for the block behind its padding and
-- no entry's padded block leaves `u64`; the block is aligned, was free and is taken.
pub allocate_finds :
    (size align i : ℕ) (rs : RangeSet) (e : Range)
    → 0 < size
    → align ≤ u64_max
    → count_ones align ≡ 1
    → IsValid rs
    → in_use rs < rs.capacity
    → AllInWord size align rs.ranges
    → get_elem? rs.ranges i ≡ some e
    → e.end ≤ u64_max
    → Fits size align e
    → (rest : RangeSet) × (ptr : ℕ) × (allocate size align rs ≡ ok (rest, some ptr))
      × Allocates size align rs (rest, some ptr)
unfolding allocate
allocate_finds size align i rs e pos word power v room w at end fits =
    let (d, found) = search_finds size align i rs.ranges e none w at end fits in
    let (out, run, a) = allocate_prefer-Allocates size align any rs word v room in
    pick d out run a (sym (allocate_search size align rs d pos power found) ∙ run)
  where
    pick :
        (d : Candidate) (out : Allocated)
        → allocate_prefer size align any rs ≡ ok out
        → Allocates size align rs out
        → finish rs (best (some d)) ≡ ok out
        → (rest : RangeSet) × (ptr : ℕ) × (allocate_prefer size align any rs ≡ ok (rest, some ptr))
          × Allocates size align rs (rest, some ptr)
    pick d (rest, none) run a f = absurd (finish-some rs rest d f)
    pick d (rest, some ptr) run a f = (rest, ptr, run, a)
