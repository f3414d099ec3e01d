-- ===== src/RangeSet/Remove.antt =====
-- libs/shared/src/rangeset.rs: `remove` takes exactly the addresses of the range out of the set.
use wasabi_os.Prelude.{
  ℕ, zero, suc, ◌+◌, ◌≤◌, ◌<◌, ◌≡◌, refl, ◌↔◌, ◌⊎◌, inl, inr, List, [], ◌∷◌, ◌++◌, remove_at,
  length, length-remove_at, length-append, arith, ok, lt→ltb, le→leb,
}
use wasabi_os.RangeSet.{
  Range, RangeSet, in_use, Scan, finished, cut, split, scan_remove, push_range, try_subtractions,
  remove, subtract_all, subtract,
}
use wasabi_os.RangeSet.Coverage.{In, Covers, IsProper, IsValid}
use wasabi_os.RangeSet.Delete.{delete_lem, Covers-remove_at, AreApart-remove_at}
use wasabi_os.RangeSet.Overlaps.{hits, hits-zero, hits_le_length}
use wasabi_os.RangeSet.Scanning.{Scanned, scan_remove-Scanned}

-- What `remove` has to make of the entries.
pub record Takes (r : Range) (rs out : RangeSet) : Type 0 where
  pub covers : (a : ℕ) → Covers out.ranges a ↔ (Covers rs.ranges a × (¬ In a r))
  pub valid : IsValid out
  pub capacity : out.capacity ≡ rs.capacity
  pub small : in_use out ≤ in_use rs + 1

abbrev Runs : Range → ℕ → RangeSet → Type 0
Runs r fuel rs =
    (out : RangeSet) × (try_subtractions fuel r rs ≡ ok out)
    × Takes r rs out
    × (hits r rs.ranges ≡ 0 → in_use out ≤ in_use rs)

module _ (fuel : ℕ) (r : Range) (p : IsProper r)
    (again : (rs : RangeSet)
      → IsValid rs
      → hits r rs.ranges < fuel
      → (hits r rs.ranges ≡ 0) ⊎ (in_use rs < rs.capacity)
      → Runs r fuel rs) where
  Runs-scan :
      (rs : RangeSet) (s : Scan)
      → IsValid rs
      → hits r rs.ranges < suc fuel
      → (hits r rs.ranges ≡ 0) ⊎ (in_use rs < rs.capacity)
      → scan_remove r rs.ranges ≡ s
      → Scanned r rs.ranges s
      → Runs r (suc fuel) rs
  unfolding try_subtractions push_range
  Runs-scan rs (finished out) v m room e (g, gone, len) = (
    record rs { ranges = out },
    rw (e, try_subtractions),
    record {
      covers = λ a. (λ h. (g.fewer a h, gone a h), λ (h, far). (g.same a far).1 h);
      valid = g.apart;
      capacity = refl;
      small = omega arith;
    },
    λ z. omega arith,
  )
  Runs-scan rs (cut i es) v m room e (f, at, inside, g, less, len, lt) =
      let shorter = length-remove_at i es lt in
      let (apart, away) = AreApart-remove_at i es f at g.apart in
      let (out, run, takes, tight) =
        again (record rs { ranges = remove_at i es }) apart (omega arith) (ground arith) in
      (
        out,
        rw (e, try_subtractions) (rw (delete_lem i (record rs { ranges = es }) lt) run),
        record {
          covers = λ a.
              let c = Covers-remove_at i es f a at in
              let d = takes.covers a in
              (
                λ h. (g.fewer a (c.1 (inr (d.0 h).0)), (d.0 h).1),
                λ (h, far). d.1 (
                  elim (c.0 ((g.same a far).1 h)) [
                    | inl i' ↦ absurd (far (inside a i'))
                    | inr old ↦ old
                  ],
                  far,
                ),
              );
          valid = takes.valid;
          capacity = takes.capacity;
          small = omega (arith, takes.small);
        },
        λ z. absurd (omega arith),
      )
  Runs-scan rs (split es piece) v m room e (g, gone, some_hit, len) =
      let none_left = hits-zero r (es ++ piece ∷ []) p g.apart gone in
      let longer = length-append es (piece ∷ []) in
      let (out, run, takes, tight) =
        again (record rs { ranges = es ++ piece ∷ [] }) g.apart (omega arith) (inl none_left) in
      (
        out,
        rw (e, try_subtractions) (rw (lt→ltb (length es) rs.capacity (ground arith)) run),
        record {
          covers = λ a.
              let d = takes.covers a in
              (λ h. (g.fewer a (d.0 h).0, (d.0 h).1), λ (h, far). d.1 ((g.same a far).1 h, far));
          valid = takes.valid;
          capacity = takes.capacity;
          small = omega (arith, tight none_left);
        },
        λ z. absurd (omega arith),
      )

try_subtractions-Runs :
    (fuel : ℕ) (r : Range)
    → IsProper r
    → (rs : RangeSet) → IsValid rs
    → hits r rs.ranges < fuel
    → (hits r rs.ranges ≡ 0) ⊎ (in_use rs < rs.capacity)
    → Runs r fuel rs
try_subtractions-Runs zero r p rs v m room = absurd (omega arith)
try_subtractions-Runs (suc fuel) r p rs v m room =
    Runs-scan fuel r p (try_subtractions-Runs fuel r p) rs (scan_remove r rs.ranges) v m room refl
      (scan_remove-Scanned r rs.ranges p v)

-- On a valid set with a free slot `remove` of a proper range ends without a panic: the new set is
-- valid, covers the old addresses outside the range and no others, and uses at most one more slot.
pub remove-Takes :
    (r : Range) (rs : RangeSet)
    → IsProper r
    → IsValid rs
    → in_use rs < rs.capacity
    → (out : RangeSet) × (remove r rs ≡ ok out) × Takes r rs out
unfolding remove
remove-Takes r rs p v room =
    let (out, run, takes, _) =
      try_subtractions-Runs (suc (in_use rs)) r p rs v (omega (arith, hits_le_length r rs.ranges))
        (inr room) in
    (out, rw (le→leb _ _ p.0) run, takes)

abbrev pub AreProper : List Range → Type 0
AreProper [] = Unit {0}
AreProper (e ∷ es) = IsProper e × AreProper es

-- What `subtract` has to make of the entries.
pub record Subtracts (es : List Range) (rs out : RangeSet) : Type 0 where
  pub covers : (a : ℕ) → Covers out.ranges a ↔ (Covers rs.ranges a × (¬ Covers es a))
  pub valid : IsValid out

subtract_all-Subtracts :
    (es : List Range) (rs : RangeSet)
    → AreProper es
    → IsValid rs
    → in_use rs + length es ≤ rs.capacity
    → (out : RangeSet) × (subtract_all es rs ≡ ok out) × Subtracts es rs out
unfolding subtract_all
subtract_all-Subtracts [] rs p v room =
    (rs, refl, record { covers = λ a. (λ h. (h, λ n. n), λ h. h.0); valid = v })
subtract_all-Subtracts (e ∷ es) rs p v room =
    let (mid, first, t) = remove-Takes e rs p.0 v (omega arith) in
    let (out, run, s) =
      subtract_all-Subtracts es mid p.1 t.valid (omega (arith, t.small, t.capacity)) in
    (
      out,
      rw first run,
      record {
        covers = λ a.
            let c = t.covers a in
            let d = s.covers a in
            (
              λ h. ((c.0 (d.0 h).0).0, elim [ inl i ↦ (c.0 (d.0 h).0).1 i | inr k ↦ (d.0 h).1 k ]),
              λ (h, far). d.1 (c.1 (h, λ i. far (inl i)), λ k. far (inr k)),
            );
        valid = s.valid;
      },
    )

-- With one free slot for each entry of `other`, `subtract` ends without a panic, and leaves a valid
-- set of the addresses that `other` does not cover.
pub subtract-Subtracts :
    (other rs : RangeSet)
    → AreProper other.ranges
    → IsValid rs
    → in_use rs + in_use other ≤ rs.capacity
    → (out : RangeSet) × (subtract other rs ≡ ok out) × Subtracts other.ranges rs out
unfolding subtract
subtract-Subtracts other rs p v room = subtract_all-Subtracts other.ranges rs p v room
