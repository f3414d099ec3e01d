-- ===== src/RangeSet/Exact/Effects.antt =====
-- libs/shared/src/rangeset.rs: what `remove_if_exist` does to a range, by its place in its entry.
use wasabi_os.Prelude.{
  ℕ, zero, suc, ◌+◌, ◌-◌, ◌≤◌, ◌<◌, ◌≡◌, refl, ◌↔◌, ◌⊎◌, inl, inr, true, false, some, List, [], ◌∷◌,
  arith, ok, panic, get_elem?, set, length, if◌then◌else◌, length-set, remove_at,
}
use wasabi_os.RangeSet.{Range, RangeSet, in_use, range_eq, contains}
use wasabi_os.RangeSet.Coverage.{In, Covers, IsProper, AreApart, IsValid}
use wasabi_os.RangeSet.Delete.{delete_lem, Covers-remove_at, AreApart-remove_at, IsProper-get_elem?}
use wasabi_os.RangeSet.Insert.{insert-Adds}
use wasabi_os.RangeSet.Exact.{no_holder, same, around, find_holder, put, shrink, remove_if_exist}

-- The range lies in the entry.
abbrev pub Within : Range → Range → Type 0
Within r e = (e.start ≤ r.start) × (r.end ≤ e.end)

contains_iff : (r e : Range) → IsProper r → IsProper e → (contains r e ≡ true) ↔ Within r e
unfolding contains
contains_iff r e p q = (ground arith, ground arith)

-- On a valid set the entry around a range is unique, so the search finds it.
find_holder_lem :
    (r : Range) (es : List Range) (i : ℕ) (e : Range)
    → IsProper r
    → AreApart es
    → get_elem? es i ≡ some e
    → Within r e
    → find_holder r es ≡ (if range_eq r e then same i else around i e)
unfolding find_holder
find_holder_lem r [] i e p v at w = cc
find_holder_lem r (x ∷ es) zero e p v at w = ground (arith, (contains_iff r x p v.0).1)
find_holder_lem r (x ∷ es) (suc i) e p v at w =
    let there = (Covers-remove_at i es e r.start at).1 (inl (w.0, omega arith)) in
    let far = v.1 r.start there in
    let ih = find_holder_lem r es i e p v.2 at w in
    ground (arith, (contains_iff r x p v.0).0, ih, far)

-- Where no entry contains the range, the search finds none.
find_holder_none :
    (r : Range) (es : List Range)
    → IsProper r
    → AreApart es
    → ¬ ((i : ℕ) × (e : Range) × (get_elem? es i ≡ some e) × Within r e)
    → find_holder r es ≡ no_holder
unfolding find_holder
find_holder_none r [] p v h = refl
find_holder_none r (x ∷ es) p v h =
    let ih = find_holder_none r es p v.2 (λ (i, e, at, w). h (suc i, e, at, w)) in
    let out : ¬ Within r x = λ w. h (0, x, refl, w) in
    ground (arith, (contains_iff r x p v.0).0, ih, out)

Covers-set :
    (es : List Range) (i : ℕ) (e f : Range) (a : ℕ)
    → get_elem? es i ≡ some e
    → Covers (set es i f) a ↔ (In a f ⊎ Covers (remove_at i es) a)
Covers-set [] i e f a at = (λ c. absurd c, cc)
Covers-set (x ∷ es) zero e f a at = (λ c. c, λ c. c)
Covers-set (x ∷ es) (suc i) e f a at =
    let ih = Covers-set es i e f a at in (ground (arith, ih.0), ground (arith, ih.1))

-- An entry may be replaced by a part of it.
AreApart-set :
    (es : List Range) (i : ℕ) (e f : Range)
    → AreApart es
    → get_elem? es i ≡ some e
    → IsProper f
    → Within f e
    → AreApart (set es i f)
AreApart-set [] i e f v at p w = tt
AreApart-set (x ∷ es) zero e f v at p w = (p, λ a c. ground (arith, v.1 a c), v.2)
AreApart-set (x ∷ es) (suc i) e f v at p w = (
  v.0,
  λ a c. v.1 a (elim ((Covers-set es i e f a at).0 c) [
    | inl k ↦ (Covers-remove_at i es e a at).1 (inl (omega arith))
    | inr old ↦ (Covers-remove_at i es e a at).1 (inr old)
  ]),
  AreApart-set es i e f v.2 at p w,
)

-- What an exact removal has to make of the entries.
pub record Removes (r : Range) (rs out : RangeSet) : Type 0 where
  pub covers : (a : ℕ) → Covers out.ranges a ↔ (Covers rs.ranges a × (¬ In a r))
  pub valid : IsValid out

-- The range is the entry, or more than one address at one of its ends.
abbrev pub AtEdge : Range → Range → Type 0
AtEdge r e =
    (r.start ≡ e.start) × (r.end ≡ e.end)
    ⊎ (r.start ≡ e.start) × (r.start < r.end) × (r.end < e.end)
    ⊎ (r.end ≡ e.end) × (r.start < r.end) × (e.start < r.start)

delete-Removes :
    (r e : Range) (rs : RangeSet) (i : ℕ)
    → IsValid rs
    → get_elem? rs.ranges i ≡ some e
    → r.start ≡ e.start
    → r.end ≡ e.end
    → Removes r rs (record rs { ranges = remove_at i rs.ranges })
delete-Removes r e rs i v at es ee =
    let (apart, away) = AreApart-remove_at i rs.ranges e at v in
    record {
      covers = λ a.
          let c = Covers-remove_at i rs.ranges e a at in
          (λ h. (c.1 (inr h), λ k. ground (arith, away a h)), λ (h, far). ground (arith, c.0));
      valid = apart;
    }

put-Removes :
    (r e f : Range) (rs : RangeSet) (i : ℕ)
    → IsValid rs
    → get_elem? rs.ranges i ≡ some e
    → IsProper f
    → Within f e
    → ((a : ℕ) → In a f ↔ (In a e × (¬ In a r)))
    → Within r e
    → Removes r rs (put i f rs)
put-Removes r e f rs i v at p w cut wr =
    let (apart, away) = AreApart-remove_at i rs.ranges e at v in
    record {
      covers = λ a.
          let c = Covers-remove_at i rs.ranges e a at in
          let d = Covers-set rs.ranges i e f a at in
          (
            λ h. elim (d.0 h) [
              | inl k ↦ (c.1 (inl ((cut a).0 k).0), ((cut a).0 k).1)
              | inr old ↦ (c.1 (inr old), λ k. ground (arith, away a old))
            ],
            λ (h, far). d.1 (elim (c.0 h) [ inl k ↦ inl ((cut a).1 (k, far)) | inr old ↦ inr old ]),
          );
      valid = AreApart-set rs.ranges i e f v at p w;
    }

length-get : (es : List Range) (i : ℕ) (e : Range) → get_elem? es i ≡ some e → i < length es
length-get [] i e at = cc
length-get (x ∷ es) zero e at = omega arith
length-get (x ∷ es) (suc i) e at = omega (arith, length-get es i e at)

-- On a valid set a range that is an entry, or more than one address at an end of one, is taken out:
-- the call returns true and leaves a valid set of the other addresses.
pub remove_if_exist_edge :
    (r e : Range) (rs : RangeSet) (i : ℕ)
    → IsProper r
    → IsValid rs
    → get_elem? rs.ranges i ≡ some e
    → AtEdge r e
    → (out : RangeSet) × (remove_if_exist r rs ≡ ok (out, true)) × Removes r rs out
unfolding remove_if_exist
remove_if_exist_edge r e rs i p v at (inl (es, ee)) =
    let found = find_holder_lem r rs.ranges i e p v at (omega arith) in
    let eq : range_eq r e ≡ true = ground arith in
    (
      record rs { ranges = remove_at i rs.ranges },
      rw (found, remove_if_exist) (rw (eq, delete_lem i rs (length-get rs.ranges i e at))),
      delete-Removes r e rs i v at es ee,
    )
remove_if_exist_edge r e rs i p v at (inr (inl (es, long, lt))) =
    let found = find_holder_lem r rs.ranges i e p v at (omega arith) in
    let ne : range_eq r e ≡ false = ground arith in
    let q = IsProper-get_elem? i rs.ranges e at v in
    let f : Range = record e { start = r.end + 1 } in
    let run : shrink r i e rs ≡ ok (put i f rs) = ground arith in
    (
      put i f rs,
      rw (found, remove_if_exist) (rw (ne, run)),
      put-Removes r e f rs i v at (omega arith) (omega arith)
          (λ a. (λ k. (omega arith, λ j. omega arith), λ k. ground arith)) (omega arith),
    )
remove_if_exist_edge r e rs i p v at (inr (inr (ee, long, lt))) =
    let found = find_holder_lem r rs.ranges i e p v at (omega arith) in
    let ne : range_eq r e ≡ false = ground arith in
    let q = IsProper-get_elem? i rs.ranges e at v in
    let f : Range = record e { end = r.start - 1 } in
    let run : shrink r i e rs ≡ ok (put i f rs) = ground arith in
    (
      put i f rs,
      rw (found, remove_if_exist) (rw (ne, run)),
      put-Removes r e f rs i v at (omega arith) (omega arith)
          (λ a. (λ k. (omega arith, λ j. omega arith), λ k. ground arith)) (omega arith),
    )

-- On a valid set a proper range that no entry contains is left alone: the call returns false and
-- changes nothing.
pub remove_if_exist_missing :
    (r : Range) (rs : RangeSet)
    → IsProper r
    → IsValid rs
    → ¬ ((i : ℕ) × (e : Range) × (get_elem? rs.ranges i ≡ some e) × Within r e)
    → remove_if_exist r rs ≡ ok (rs, false)
unfolding remove_if_exist
remove_if_exist_missing r rs p v h =
    let found = find_holder_none r rs.ranges p v h in rw (found, remove_if_exist)

-- On a valid set a single address at one end of a longer entry makes `remove_if_exist` panic.
pub remove_if_exist_single :
    (r e : Range) (rs : RangeSet) (i : ℕ)
    → IsProper r
    → IsValid rs
    → get_elem? rs.ranges i ≡ some e
    → r.start ≡ r.end
    → e.start < e.end
    → (r.start ≡ e.start) ⊎ (r.end ≡ e.end)
    → remove_if_exist r rs ≡ panic
unfolding remove_if_exist
remove_if_exist_single r e rs i p v at one long edge =
    let found = find_holder_lem r rs.ranges i e p v at (omega arith) in
    let ne : range_eq r e ≡ false = ground arith in
    let run : shrink r i e rs ≡ panic = ground arith in rw (found, remove_if_exist) (rw (ne, run))

-- A range strictly inside an entry is not taken out whole: on a valid set with a free slot the call
-- returns true, and the first address of the range is still covered.
pub remove_if_exist_inside :
    (r e : Range) (rs : RangeSet) (i : ℕ)
    → IsProper r
    → IsValid rs
    → in_use rs < rs.capacity
    → get_elem? rs.ranges i ≡ some e
    → e.start < r.start
    → r.end < e.end
    → (out : RangeSet) × (remove_if_exist r rs ≡ ok (out, true)) × Covers out.ranges r.start
unfolding remove_if_exist shrink
remove_if_exist_inside r e rs i p v room at lo hi =
    let found = find_holder_lem r rs.ranges i e p v at (omega arith) in
    let ne : range_eq r e ≡ false = ground arith in
    let q = IsProper-get_elem? i rs.ranges e at v in
    let f : Range = record e { end = r.start } in
    let piece : Range = record { start = r.end + 1; end = e.end } in
    let valid = AreApart-set rs.ranges i e f v at (omega arith) (omega arith) in
    let same_size = length-set rs.ranges i f in
    let (out, run, adds) = insert-Adds piece (put i f rs) (omega arith) valid (omega arith) in
    let ran : shrink r i e rs ≡ ok out = ground arith in
    (
      out,
      rw (found, remove_if_exist) (rw (ne, ran)),
      (adds.covers r.start).1 (inr ((Covers-set rs.ranges i e f r.start at).1 (inl (omega arith)))),
    )
