-- ===== src/RangeSet/Exact.antt =====
-- libs/shared/src/rangeset.rs: `remove_if_exist`, which takes out a range that lies in one entry.
pub mod Effects
use wasabi_os.Prelude.{
  ℕ, zero, suc, ◌+◌, ◌-◌, Bool, true, false, not, ◌&&◌, Option, none, some, List, [], ◌∷◌, ltb,
  ◌==◌, if◌then◌else◌, set, Outcome, ok, ◌>>=◌, ◌>>◌, assert,
}
use wasabi_os.RangeSet.{Range, RangeSet, range_eq, contains, delete, insert}

-- The first entry that is the range, or that contains it.
pub data Holder : Type 0 where
  no_holder : Holder
  same : ℕ → Holder
  around : ℕ → Range → Holder

abbrev pub later : Holder → Holder
later no_holder = no_holder
later (same i) = same (suc i)
later (around i e) = around (suc i) e

pub find_holder : Range → List Range → Holder
unfolding contains
find_holder r [] = no_holder
find_holder r (e ∷ es) =
    let rest = find_holder r es in
    if range_eq r e then same 0 else if not (contains r e) then later rest else around 0 e

-- `ranges[i] = e`
abbrev pub put : ℕ → Range → RangeSet → RangeSet
put i e rs = record rs { ranges = set rs.ranges i e }

pub shrink : Range → ℕ → Range → RangeSet → Outcome RangeSet
shrink r i e rs =
    if r.start == e.start
    then (do
      assert (ltb r.end e.end && ltb e.start r.end)
      ok (put i (record e { start = r.end + 1 }) rs))
    else if r.end == e.end
    then (do
      assert (ltb e.start r.start && ltb r.start e.end)
      ok (put i (record e { end = r.start - 1 }) rs))
    else (do
      assert (ltb e.start r.start && ltb r.start e.end)
      assert (ltb e.start r.end && ltb r.end e.end)
      insert (record { start = r.end + 1; end = e.end }) (put i (record e { end = r.start }) rs))

unfoldable pub remove_if_exist : Range → RangeSet → Outcome (RangeSet × Bool)
unfolding find_holder shrink
remove_if_exist r rs = elim (find_holder r rs.ranges) [
  | no_holder ↦ ok (rs, false)
  | same i ↦ (do out ← delete i rs; ok (out, true))
  | around i e ↦ (do out ← shrink r i e rs; ok (out, true))
]
