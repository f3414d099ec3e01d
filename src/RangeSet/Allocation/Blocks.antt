-- ===== src/RangeSet/Allocation/Blocks.antt =====
-- libs/shared/src/rangeset.rs: what a caller of `allocate_prefer` gets.
use wasabi_os.Prelude.{
  ◌≢◌, true, ◌||◌, subst, get_elem?, ℕ, zero, suc, ◌+◌, ◌-◌, ◌%◌, ◌^◌, ◌≤◌, ◌<◌, ◌≡◌, refl, sym,
  ◌⊎◌, inl, inr, false, Option, none, some, List, [], ◌∷◌, Bool-cases, Option-cases, u64_max, arith,
  ◌==◌, ltb, ok, not, checked_add,
}
use wasabi_os.RangeSet.{Range, RangeSet, in_use}
use wasabi_os.RangeSet.Coverage.{Covers, IsValid}
use wasabi_os.RangeSet.Remove.{remove-Takes}
use wasabi_os.RangeSet.Allocation.{
  usize_max, any, RegionRequest, Candidate, Search, overflow, best, count_ones, region_list,
  is_forced, search_entries, Allocated, finish, allocate_prefer, allocate, own_block, try_entry,
  overflowed, skipped, offered, better,
}
use wasabi_os.RangeSet.Allocation.Masks.{ones-one}
use wasabi_os.RangeSet.Allocation.Candidates.{GoodSearch, search_entries-Good}

-- What the call may return: nothing, with the set as it was, or a block that was free and is not
-- any more.
abbrev pub Allocates : ℕ → ℕ → RangeSet → Allocated → Type 0
Allocates size align rs (rest, none) = rest ≡ rs
Allocates size align rs (rest, some ptr) =
    (ptr % align ≡ 0)
    × (ptr + (size - 1) ≤ u64_max)
    × ((a : ℕ) → ptr ≤ a → a < ptr + size → Covers rs.ranges a × (¬ Covers rest.ranges a))
    × ((a : ℕ) → Covers rest.ranges a → Covers rs.ranges a)
    × IsValid rest
    × (rest.capacity ≡ rs.capacity)

finish-Allocates :
    (size k : ℕ) (pos : 0 < size) (small : k < 64) (rs : RangeSet) (s : Search)
    → IsValid rs
    → in_use rs < rs.capacity
    → GoodSearch size k pos small rs.ranges s
    → (out : Allocated) × (finish rs s ≡ ok out) × Allocates size (2 ^ k) rs out
finish-Allocates size k pos small rs overflow v room g = ((rs, none), refl, refl)
finish-Allocates size k pos small rs (best none) v room g = ((rs, none), refl, refl)
finish-Allocates size k pos small rs (best (some c)) v room g =
    let (rest, run, t) =
      remove-Takes (record { start = c.base; end = c.end }) rs
        (omega (arith, g.below, g.fits, g.word)) v room in
    (
      (rest, some c.ptr),
      rw run,
      (
        g.aligned,
        omega (arith, g.fits, g.word),
        λ a lo hi.
            let low : c.base ≤ a = omega (arith, g.below) in
            let high : a ≤ c.end = omega (arith, g.fits) in
            (g.inside a low high, λ h. ((t.covers a).0 h).1 (low, high)),
        λ a h. ((t.covers a).0 h).0,
        t.valid,
        t.capacity,
      ),
    )

abbrev Served : ℕ → RegionRequest → RangeSet → ℕ → Type 0
Served size request rs align =
    (out : Allocated) × (finish rs (
        search_entries size (align - 1) align (region_list request) (is_forced request) rs.ranges
          none)
      ≡ ok out)
    × Allocates size align rs out

Served-pow :
    (size k : ℕ) (request : RegionRequest) (rs : RangeSet)
    → 0 < size
    → k < 64
    → IsValid rs
    → in_use rs < rs.capacity
    → Served size request rs (2 ^ k)
Served-pow size k request rs pos small v room = finish-Allocates size k pos small rs _ v room (
    search_entries-Good size k pos small rs.ranges (region_list request) (is_forced request)
      rs.ranges none v (λ a c. c) tt)

-- On a valid set with a free slot the allocator never panics, for every request. It returns nothing
-- and leaves the set alone, or it returns an aligned block of `size` addresses that were all free
-- and are all taken; nothing becomes free and the set stays valid.
pub allocate_prefer-Allocates :
    (size align : ℕ) (request : RegionRequest) (rs : RangeSet)
    → align ≤ u64_max
    → IsValid rs
    → in_use rs < rs.capacity
    → (out : Allocated) × (allocate_prefer size align request rs ≡ ok out)
      × Allocates size align rs out
unfolding allocate_prefer
allocate_prefer-Allocates size align request rs word v room = elim (Bool-cases (size == 0)) [
  | inl empty ↦ ((rs, none), rw empty, refl)
  | inr pos ↦ elim (Bool-cases (not (count_ones align == 1))) [
    | inl odd ↦ ((rs, none), rw (pos, odd), refl)
    | inr power ↦
        let (k, e, lt) = ones-one 64 align (omega arith) (ground arith) in
        let (out, run, a) =
          subst (Served size request rs) {x = 2 ^ k} {y = align} (sym {b = 2 ^ k} e)
            (Served-pow size k request rs (ground arith) lt v room) in
        (out, rw (pos, power) run, a)
  ]
]

-- With no regions an entry is never chosen outright.
pub try_entry_any :
    (size mask align : ℕ) (e : Range)
    → (try_entry size mask align none false e ≡ overflowed)
      ⊎ (try_entry size mask align none false e ≡ skipped)
      ⊎ ((c : Candidate) × (try_entry size mask align none false e ≡ offered c))
unfolding try_entry
try_entry_any size mask align e = elim (Option-cases (own_block size mask align e)) [
  | inl over ↦ inl (rw (over, try_entry))
  | inr (own, at) ↦
      elim (Bool-cases (ltb usize_max e.start || ltb usize_max own.end || ltb e.end own.end)) [
        | inl off ↦ inr (inl (rw (at, try_entry) (ground arith)))
        | inr fits ↦ inr (inr (own, rw (at, try_entry) (ground arith)))
      ]
]

try_entry_overflow :
    (size mask align : ℕ) (e : Range)
    → u64_max < e.start + (size - 1)
    → try_entry size mask align none false e ≡ overflowed
unfolding try_entry own_block
try_entry_overflow size mask align e over =
    let no_sum : checked_add e.start (size - 1) ≡ none = ground arith in
    rw (no_sum, try_entry, own_block)

search_overflow :
    (size mask align : ℕ) (es : List Range) (e : Range) (i : ℕ) (found : Option Candidate)
    → get_elem? es i ≡ some e
    → u64_max < e.start + (size - 1)
    → search_entries size mask align none false es found ≡ overflow
unfolding search_entries
search_overflow size mask align [] e i found at over = cc
search_overflow size mask align (x ∷ es) e zero found at over =
    let o = try_entry_overflow size mask align x (ground arith) in rw (o, search_entries)
search_overflow size mask align (x ∷ es) e (suc i) found at over =
    elim (try_entry_any size mask align x) [
      | inl o ↦ rw (o, search_entries)
      | inr (inl s) ↦ rw (s, search_entries) (search_overflow size mask align es e i found at over)
      | inr (inr (c, o)) ↦
          rw (o, search_entries) (search_overflow size mask align es e i (better c found) at over)
    ]

-- One entry near the top of `u64` defeats the allocator: if a block of `size` from that entry's
-- start would leave `u64`, `allocate` returns nothing, whatever room the other entries have.
pub allocate_overflow :
    (size align : ℕ) (rs : RangeSet) (e : Range) (i : ℕ)
    → get_elem? rs.ranges i ≡ some e
    → u64_max < e.start + (size - 1)
    → allocate size align rs ≡ ok (rs, none)
unfolding allocate
allocate_overflow size align rs e i at over =
    let gives_up = search_overflow size (align - 1) align rs.ranges e i none at over in
    elim (Bool-cases (size == 0)) [
      | inl empty ↦ rw empty
      | inr pos ↦ elim (Bool-cases (not (count_ones align == 1))) [
        | inl odd ↦ rw (pos, odd)
        | inr power ↦ rw (pos, power, gives_up)
      ]
    ]

-- The same of `allocate`.
pub allocate-Allocates :
    (size align : ℕ) (rs : RangeSet)
    → align ≤ u64_max
    → IsValid rs
    → in_use rs < rs.capacity
    → (out : Allocated) × (allocate size align rs ≡ ok out) × Allocates size align rs out
unfolding allocate
allocate-Allocates size align rs word v room =
    allocate_prefer-Allocates size align any rs word v room

-- An alignment that is no power of two is never served.
pub allocate_odd_align :
    (size align : ℕ) (rs : RangeSet) → count_ones align ≢ 1 → allocate size align rs ≡ ok (rs, none)
unfolding allocate allocate_prefer
allocate_odd_align size align rs odd = elim (Bool-cases (size == 0)) [
  | inl empty ↦ rw (empty, allocate)
  | inr pos ↦
      let refused : not (count_ones align == 1) ≡ true = ground arith in
      rw (pos, allocate) (rw refused)
]
