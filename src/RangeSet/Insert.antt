-- ===== src/RangeSet/Insert.antt =====
-- libs/shared/src/rangeset.rs: `insert` adds exactly the addresses of the range and keeps the
-- entries apart; it fails for want of a free slot only.
use wasabi_os.Prelude.{
  ℕ, zero, suc, ◌+◌, ◌≤◌, ◌<◌, ◌≡◌, refl, ◌↔◌, ◌⊎◌, inl, inr, true, false, none, some, List, [],
  ◌∷◌, ◌++◌, get_elem?, remove_at, length, length-remove_at, length-append, arith, ok, lt→ltb,
  le→leb, Option-cases, Bool-cases,
}
use wasabi_os.RangeSet.{
  Range, RangeSet, in_use, overlaps, is_some, grown, hull, first_touching, push_range, try_merges,
  insert,
}
use wasabi_os.RangeSet.Coverage.{
  In, Covers, Away, AreApart, IsProper, IsValid, Covers-append, AreApart-append,
}
use wasabi_os.RangeSet.Delete.{delete_lem, Covers-remove_at, AreApart-remove_at, IsProper-get_elem?}

-- The test of `insert`: false exactly when every address of the entry is away from the range.
touching-Away :
    (r e : Range) (a : ℕ)
    → IsProper r
    → IsProper e
    → is_some (overlaps (grown r) (grown e)) ≡ false
    → In a e
    → Away r a
unfolding overlaps
touching-Away r e a p q h i = ground arith

touching_near :
    (r e : Range)
    → IsProper r
    → IsProper e
    → is_some (overlaps (grown r) (grown e)) ≡ true
    → (r.start ≤ e.end + 1) × (e.start ≤ r.end + 1)
unfolding overlaps
touching_near r e p q h = ground arith

first_touching-none :
    (r : Range) (es : List Range) (a : ℕ)
    → IsProper r
    → AreApart es
    → first_touching r es ≡ none
    → Covers es a
    → Away r a
unfolding first_touching
first_touching-none r [] a p v h c = absurd c
first_touching-none r (e ∷ es) a p v h c =
    ground (arith, touching-Away r e a p v.0, first_touching-none r es a p v.2)

first_touching-some :
    (r : Range) (es : List Range) (i : ℕ) (e : Range)
    → IsProper r
    → AreApart es
    → first_touching r es ≡ some (i, e)
    → (i < length es) × (get_elem? es i ≡ some e) × (r.start ≤ e.end + 1) × (e.start ≤ r.end + 1)
unfolding first_touching
first_touching-some r [] i e p v h = cc
first_touching-some r (x ∷ es) i e p v h =
    elim (Bool-cases (is_some (overlaps (grown r) (grown x)))) [
      | inl hit ↦ ground (arith, touching_near r x p v.0 hit)
      | inr miss ↦ elim (Option-cases (first_touching r es)) [
        | inl e' ↦ ground arith
        | inr ((j, f), e') ↦ ground (arith, first_touching-some r es j f p v.2 e')
      ]
    ]

hull-In :
    (r e : Range) (a : ℕ)
    → IsProper r
    → IsProper e
    → (r.start ≤ e.end + 1) × (e.start ≤ r.end + 1)
    → In a (hull r e) ↔ (In a r ⊎ In a e)
hull-In r e a p q n = (ground arith, ground arith)

-- What `insert` has to make of the entries `es`.
pub record Adds (r : Range) (rs out : RangeSet) : Type 0 where
  pub covers : (a : ℕ) → Covers out.ranges a ↔ (In a r ⊎ Covers rs.ranges a)
  pub valid : IsValid out
  pub capacity : out.capacity ≡ rs.capacity
  pub small : in_use out ≤ in_use rs + 1

try_merges-Adds :
    (fuel : ℕ) (r : Range) (rs : RangeSet)
    → IsProper r
    → IsValid rs
    → in_use rs < fuel
    → in_use rs < rs.capacity
    → (out : RangeSet) × (try_merges fuel r rs ≡ ok out) × Adds r rs out
unfolding try_merges push_range
try_merges-Adds zero r rs p v m room = absurd (omega arith)
try_merges-Adds (suc fuel) r rs p v m room = elim (Option-cases (first_touching r rs.ranges)) [
  | inl e ↦ (
    record rs { ranges = rs.ranges ++ r ∷ [] },
    rw (e, try_merges) (rw (lt→ltb _ _ room)),
    record {
      covers = λ a.
          let c = Covers-append rs.ranges (r ∷ []) a in (ground (arith, c.0), ground (arith, c.1));
      valid = AreApart-append rs.ranges r v p (λ a. first_touching-none r rs.ranges a p v e);
      capacity = refl;
      small = omega (arith, length-append rs.ranges (r ∷ []));
    },
  )
  | inr ((i, e), hit) ↦
      let (lt, at, below, above) = first_touching-some r rs.ranges i e p v hit in
      let q = IsProper-get_elem? i rs.ranges e at v in
      let (apart, away) = AreApart-remove_at i rs.ranges e at v in
      let shorter = length-remove_at i rs.ranges lt in
      let (out, run, adds) =
        try_merges-Adds fuel (hull r e) (record rs { ranges = remove_at i rs.ranges }) (omega arith)
          apart (omega arith) (omega arith) in
      (
        out,
        rw (hit, try_merges) (rw (delete_lem i rs lt) run),
        record {
          covers = λ a.
              let h = hull-In r e a p q (below, above) in
              let c = Covers-remove_at i rs.ranges e a at in
              let d = adds.covers a in
              (ground (arith, h.0, c.1, d.0), ground (arith, h.1, c.0, d.1));
          valid = adds.valid;
          capacity = adds.capacity;
          small = omega (arith, adds.small);
        },
      )
]

-- On a valid set with a free slot `insert` of a proper range ends without a panic: the new set is
-- valid, covers the addresses of the range and the old ones and no others, and uses at most one
-- more slot.
pub insert-Adds :
    (r : Range) (rs : RangeSet)
    → IsProper r
    → IsValid rs
    → in_use rs < rs.capacity
    → (out : RangeSet) × (insert r rs ≡ ok out) × Adds r rs out
unfolding insert
insert-Adds r rs p v room =
    rw (le→leb _ _ p.0) (try_merges-Adds (suc (in_use rs)) r rs p v (omega arith) room)
