-- ===== src/RangeSet/Overlaps.antt =====
-- libs/shared/src/rangeset.rs: the tests `overlaps` and `contains`, and how many entries a range
-- overlaps.
use wasabi_os.Prelude.{
  ℕ, ◌+◌, ◌≤◌, ◌<◌, ◌≡◌, refl, ◌⊎◌, inl, inr, true, false, List, [], ◌∷◌, length, arith,
  if◌then◌else◌,
}
use wasabi_os.RangeSet.{Range, overlaps, contains, is_some}
use wasabi_os.RangeSet.Coverage.{In, Covers, AreApart, IsProper}

-- How many entries the range overlaps: the measure of `'try_subtractions`.
abbrev pub hits : Range → List Range → ℕ
hits r [] = 0
hits r (e ∷ es) = (if is_some (overlaps r e) then 1 else 0) + hits r es

pub overlaps_meet :
    (r e : Range)
    → IsProper r
    → IsProper e
    → is_some (overlaps r e) ≡ true
    → (r.start ≤ e.end) × (e.start ≤ r.end)
unfolding overlaps
overlaps_meet r e p q h = ground arith

pub overlaps_miss :
    (r e : Range)
    → IsProper r
    → IsProper e
    → is_some (overlaps r e) ≡ false
    → (e.end < r.start) ⊎ (r.end < e.start)
unfolding overlaps
overlaps_miss r e p q h = ground arith

pub overlaps_miss-of :
    (r e : Range)
    → IsProper r
    → IsProper e
    → (e.end < r.start) ⊎ (r.end < e.start)
    → is_some (overlaps r e) ≡ false
unfolding overlaps
overlaps_miss-of r e p q h = ground arith

pub contains_bounds :
    (e r : Range)
    → IsProper r
    → IsProper e
    → (contains e r ≡ true → (r.start ≤ e.start) × (e.end ≤ r.end))
      × (contains e r ≡ false → (e.start < r.start) ⊎ (r.end < e.end))
unfolding contains
contains_bounds e r p q = (ground arith, ground arith)

pub hits-zero :
    (r : Range) (es : List Range)
    → IsProper r
    → AreApart es
    → ((a : ℕ) → Covers es a → ¬ In a r)
    → hits r es ≡ 0
hits-zero r [] p v h = refl
hits-zero r (e ∷ es) p v h =
    let off : (e.end < r.start) ⊎ (r.end < e.start) = ground (
      arith,
      λ (i : In e.start e) (j : In e.start r). h e.start (inl i) j,
      λ (i : In r.start e) (j : In r.start r). h r.start (inl i) j,
    ) in
    rw (overlaps_miss-of r e p v.0 off) (omega (arith, hits-zero r es p v.2 (λ a c. h a (inr c))))

pub hits_le_length : (r : Range) (es : List Range) → hits r es ≤ length es
hits_le_length r [] = omega arith
hits_le_length r (e ∷ es) = ground (arith, hits_le_length r es)
