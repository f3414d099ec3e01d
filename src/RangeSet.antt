-- ===== src/RangeSet.antt =====
-- libs/shared/src/rangeset.rs: a set of inclusive `u64` ranges in an array of fixed capacity, from
-- which physical memory is handed out. `ranges` lists the slots of the array that are in use; the
-- slots behind `in_use` are never read.
mod Tests
pub mod Coverage
pub mod Delete
pub mod Insert
pub mod Overlaps
pub mod Scanning
pub mod Remove
pub mod Exact
pub mod Allocation
use wasabi_os.Prelude.{
  ℕ, zero, suc, ◌+◌, ◌-◌, min, max, Bool, true, false, not, ◌&&◌, Option, none, some, List, [], ◌∷◌,
  ◌++◌, ltb, leb, ◌==◌, if◌then◌else◌, length, get_elem?, set, take, Outcome, ok, panic, stuck,
  ◌>>=◌, ◌>>◌, assert, expect, map_ok, u64_max, checked_add, saturating_add,
}

pub record Range : Type 0 where
  pub start : ℕ
  pub end : ℕ

-- `capacity` is the const parameter `N`.
pub record RangeSet : Type 0 where
  pub capacity : ℕ
  pub ranges : List Range

abbrev pub in_use : RangeSet → ℕ
in_use rs = length rs.ranges

unfoldable pub new : ℕ → Outcome RangeSet
new n = do assert (leb n 0xffff_ffff); ok (record { capacity = n; ranges = [] })

-- The swap at the head of `overlaps` and of `contains`: lowest bound first.
abbrev pub ordered : Range → Range
ordered r = if ltb r.end r.start then record { start = r.end; end = r.start } else r

pub overlaps : Range → Range → Option Range
overlaps p q =
    let a = ordered p in
    let b = ordered q in
    if leb a.start b.end && leb b.start a.end
    then some (record { start = max a.start b.start; end = min a.end b.end })
    else none

-- All of the first lies in the second.
pub contains : Range → Range → Bool
contains p q = let a = ordered p in let b = ordered q in leb b.start a.start && leb a.end b.end

abbrev pub is_some {ℓ} : {A : Type ℓ} → Option A → Bool
is_some none = false
is_some (some a) = true

abbrev pub range_eq : Range → Range → Bool
range_eq a b = a.start == b.start && a.end == b.end

-- `ranges.swap(ii, ii + 1)`
pub swap_next : ℕ → List Range → List Range
swap_next i [] = []
swap_next i (x ∷ []) = x ∷ []
swap_next zero (x ∷ y ∷ xs) = y ∷ x ∷ xs
swap_next (suc i) (x ∷ y ∷ xs) = x ∷ swap_next i (y ∷ xs)

-- `for ii in idx..` over the given number of swaps.
pub move_last : ℕ → ℕ → List Range → List Range
unfolding swap_next
move_last zero i xs = xs
move_last (suc n) i xs = move_last n (suc i) (swap_next i xs)

pub delete : ℕ → RangeSet → Outcome RangeSet
unfolding move_last
delete idx rs = do
  assert (ltb idx (in_use rs))
  ok (record rs { ranges = take (in_use rs - 1) (move_last (in_use rs - 1 - idx) idx rs.ranges) })

-- The entry grown by one at its end, so that neighbours count as overlapping.
abbrev pub grown : Range → Range
grown r = record { start = r.start; end = saturating_add r.end 1 }

-- The `for` loop of `insert`: the first entry that overlaps or touches the range.
pub first_touching : Range → List Range → Option (ℕ × Range)
unfolding overlaps
first_touching r [] = none
first_touching r (e ∷ es) =
    let rest = first_touching r es in
    if is_some (overlaps (grown r) (grown e))
    then some (0, e)
    else elim rest [ none ↦ none | some (i, f) ↦ some (suc i, f) ]

abbrev pub hull : Range → Range → Range
hull r e = record { start = min r.start e.start; end = max r.end e.end }

pub push_range : Range → RangeSet → Outcome RangeSet
push_range r rs = do
  assert (ltb (in_use rs) rs.capacity)
  ok (record rs { ranges = rs.ranges ++ r ∷ [] })

-- `'try_merges`: each round takes one entry into the range.
pub try_merges : ℕ → Range → RangeSet → Outcome RangeSet
unfolding first_touching delete push_range
try_merges zero r rs = stuck
try_merges (suc fuel) r rs = elim (first_touching r rs.ranges) [
  | none ↦ push_range r rs
  | some (i, e) ↦ delete i rs >>= try_merges fuel (hull r e)
]

pub insert : Range → RangeSet → Outcome RangeSet
unfolding try_merges
insert r rs = do assert (leb r.start r.end); try_merges (suc (in_use rs)) r rs

-- How the `for` loop of `remove` ends: at the end of the entries, or with an entry to delete or to
-- split, after which the search starts anew. The lists are the entries after the trims so far.
pub data Scan : Type 0 where
  finished : List Range → Scan
  cut : ℕ → List Range → Scan
  split : List Range → Range → Scan

abbrev pub behind : Range → Scan → Scan
behind e (finished es) = finished (e ∷ es)
behind e (cut i es) = cut (suc i) (e ∷ es)
behind e (split es piece) = split (e ∷ es) piece

abbrev pub saturating_pred : ℕ → ℕ
saturating_pred n = n - 1

pub scan_remove : Range → List Range → Scan
unfolding overlaps contains
scan_remove r [] = finished []
scan_remove r (e ∷ es) =
    let rest = scan_remove r es in
    if not (is_some (overlaps r e))
    then behind e rest
    else if contains e r
    then cut 0 (e ∷ es)
    else if leb r.start e.start
    then behind (record e { start = saturating_add r.end 1 }) rest
    else if leb e.end r.end
    then behind (record e { end = saturating_pred r.start }) rest
    else split (record e { start = saturating_add r.end 1 } ∷ es)
        (record { start = e.start; end = saturating_pred r.start })

-- `'try_subtractions`
pub try_subtractions : ℕ → Range → RangeSet → Outcome RangeSet
unfolding scan_remove delete push_range
try_subtractions zero r rs = stuck
try_subtractions (suc fuel) r rs = elim (scan_remove r rs.ranges) [
  | finished es ↦ ok (record rs { ranges = es })
  | cut i es ↦ delete i (record rs { ranges = es }) >>= try_subtractions fuel r
  | split es piece ↦ push_range piece (record rs { ranges = es }) >>= try_subtractions fuel r
]

unfoldable pub remove : Range → RangeSet → Outcome RangeSet
unfolding try_subtractions
remove r rs = do assert (leb r.start r.end); try_subtractions (suc (in_use rs)) r rs

pub subtract_all : List Range → RangeSet → Outcome RangeSet
unfolding remove
subtract_all [] rs = ok rs
subtract_all (e ∷ es) rs = remove e rs >>= subtract_all es

pub subtract : RangeSet → RangeSet → Outcome RangeSet
unfolding subtract_all
subtract other rs = subtract_all other.ranges rs

-- `try_fold` of `sum`: `none` is the `?` on a range that covers all of `u64`, a sum that leaves
-- `u64` panics.
pub sum_from : ℕ → List Range → Outcome (Option ℕ)
sum_from acc [] = ok (some acc)
sum_from acc (e ∷ es) = assert (leb e.start e.end) >> elim (checked_add (e.end - e.start) 1) [
  | none ↦ ok none
  | some n ↦ elim (checked_add acc n) [ none ↦ panic | some total ↦ sum_from total es ]
]

unfoldable pub sum : RangeSet → Outcome (Option ℕ)
unfolding sum_from
sum rs = sum_from 0 rs.ranges
