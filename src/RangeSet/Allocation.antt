-- ===== src/RangeSet/Allocation.antt =====
-- libs/shared/src/rangeset.rs: `remove_if_exist`, and the allocator `allocate_prefer` with its
-- region requests. `usize` has 64 bits on this target.
pub mod Masks
pub mod Candidates
pub mod Blocks
pub mod Finding
use Prim.Native.Nat.{bit_and}
use wasabi_os.Prelude.{
  ℕ, zero, suc, ◌+◌, ◌-◌, ◌/◌, ◌%◌, Bool, true, false, not, ◌&&◌, ◌||◌, Option, none, some, List,
  [], ◌∷◌, ltb, leb, ◌==◌, if◌then◌else◌, set, Outcome, ok, ◌>>=◌, ◌>>◌, assert, u64_max,
  checked_add, wrapping_add,
}
use wasabi_os.RangeSet.{Range, RangeSet, overlaps, remove}

pub data RegionRequest : Type 0 where
  any : RegionRequest
  preference : RangeSet → RegionRequest
  forced : RangeSet → RegionRequest

-- The ones among the lowest digits of a word.
unfoldable pub ones : ℕ → ℕ → ℕ
ones zero x = 0
ones (suc n) x = x % 2 + ones n (x / 2)

abbrev pub count_ones : ℕ → ℕ
count_ones x = ones 64 x

abbrev pub usize_max : ℕ
usize_max = u64_max

-- The inclusive range that an allocation takes out of the set, and the pointer that it returns.
pub record Candidate : Type 0 where
  pub base : ℕ
  pub end : ℕ
  pub ptr : ℕ

-- How the loop over the regions ends: no region serves, `continue 'allocation_search`, or a block.
pub data RegionScan : Type 0 where
  no_region skip_entry : RegionScan
  use_region : Candidate → RegionScan

-- What the loop over the entries makes of one of them: the `?` returns, `continue`, a candidate to
-- compare, or a block from the regions, with which the loop breaks.
pub data EntryScan : Type 0 where
  overflowed skipped : EntryScan
  offered chosen : Candidate → EntryScan

-- How the loop over the entries ends: by the `?` on an overflow, or with the best block so far.
pub data Search : Type 0 where
  overflow : Search
  best : Option Candidate → Search

pub round_up : ℕ → ℕ → ℕ
round_up x mask = bit_and (wrapping_add x mask) (u64_max - mask)

-- The padding in front of an entry's own block.
unfoldable pub align_fix : ℕ → ℕ → ℕ → ℕ
align_fix mask align start = bit_and (align - bit_and start mask) mask

-- `allocation.is_none() || prev_size.unwrap() > end - base`
abbrev pub better : Candidate → Option Candidate → Option Candidate
better c none = some c
better c (some old) = if ltb (c.end - c.base) (old.end - old.base) then some c else some old

module _ (size mask : ℕ) where
  -- One region of the list that overlaps the entry.
  pub try_region : Range → RegionScan → RegionScan
  try_region overlap rest =
      let aligned = round_up overlap.start mask in
      if leb overlap.start aligned
        && leb aligned overlap.end
        && leb (size - 1) (overlap.end - aligned)
      then (let last = aligned + (size - 1) in
          if ltb usize_max aligned || ltb usize_max last
          then skip_entry
          else use_region (record { base = aligned; end = last; ptr = aligned }))
      else rest

  pub scan_regions : Range → List Range → RegionScan
  unfolding try_region
  scan_regions ent [] = no_region
  scan_regions ent (region ∷ regions) =
      let rest = scan_regions ent regions in
      elim (overlaps ent region) [ none ↦ rest | some o ↦ try_region o rest ]

  -- The entry's own candidate, from its start; `none` is the `?` on an overflow.
  pub own_block : ℕ → Range → Option Candidate
  own_block align ent =
      let fix = align_fix mask align ent.start in
      elim (checked_add ent.start (size - 1)) [
        | none ↦ none
        | some e ↦ elim (checked_add e fix) [
          | none ↦ none
          | some last ↦ some (record { base = ent.start; end = last; ptr = ent.start + fix })
        ]
      ]

  pub try_regions : Option (List Range) → Bool → Range → Candidate → EntryScan
  unfolding scan_regions
  try_regions none force ent own = if force then skipped else offered own
  try_regions (some regions) force ent own = elim (scan_regions ent regions) [
    | no_region ↦ if force then skipped else offered own
    | skip_entry ↦ skipped
    | use_region c ↦ chosen c
  ]

  -- The body of the loop over the entries; `regions` is `none` where the request names no set.
  pub try_entry : ℕ → Option (List Range) → Bool → Range → EntryScan
  unfolding own_block try_regions
  try_entry align regions force ent = elim (own_block align ent) [
    | none ↦ overflowed
    | some own ↦
        if ltb usize_max ent.start || ltb usize_max own.end
        then skipped
        else if ltb ent.end own.end
        then skipped
        else try_regions regions force ent own
  ]

  -- `'allocation_search`
  pub search_entries : ℕ → Option (List Range) → Bool → List Range → Option Candidate → Search
  unfolding try_entry
  search_entries align regions force [] found = best found
  search_entries align regions force (ent ∷ es) found =
      let skip = search_entries align regions force es found in
      elim (try_entry align regions force ent) [
        | overflowed ↦ overflow
        | skipped ↦ skip
        | offered c ↦ search_entries align regions force es (better c found)
        | chosen c ↦ best (some c)
      ]

abbrev pub region_list : RegionRequest → Option (List Range)
region_list any = none
region_list (preference rs) = some rs.ranges
region_list (forced rs) = some rs.ranges

abbrev pub is_forced : RegionRequest → Bool
is_forced any = false
is_forced (preference rs) = false
is_forced (forced rs) = true

-- The set that is left, and the pointer.
abbrev pub Allocated : Type 0
Allocated = RangeSet × Option ℕ

abbrev pub finish : RangeSet → Search → Outcome Allocated
finish rs overflow = ok (rs, none)
finish rs (best none) = ok (rs, none)
finish rs (best (some c)) = do
  rest ← remove (record { start = c.base; end = c.end }) rs
  ok (rest, some c.ptr)

pub allocate_prefer : ℕ → ℕ → RegionRequest → RangeSet → Outcome Allocated
unfolding search_entries ones round_up align_fix
allocate_prefer size align request rs =
    if size == 0
    then ok (rs, none)
    else if not (count_ones align == 1)
    then ok (rs, none)
    else finish rs (
        search_entries size (align - 1) align (region_list request) (is_forced request) rs.ranges
          none)

unfoldable pub allocate : ℕ → ℕ → RangeSet → Outcome Allocated
unfolding allocate_prefer
allocate size align rs = allocate_prefer size align any rs
