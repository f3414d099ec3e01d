-- ===== src/RangeSet/Coverage.antt =====
-- libs/shared/src/rangeset.rs: which addresses a list of ranges covers, when the entries are well
-- formed, and what the tests `overlaps` and `contains` decide.
use wasabi_os.Prelude.{ℕ, ◌+◌, ◌≤◌, ◌<◌, ◌↔◌, ◌⊎◌, inl, inr, List, [], ◌∷◌, ◌++◌, arith, u64_max}
use wasabi_os.RangeSet.{Range, RangeSet}

-- `a` is an address of the range.
abbrev pub In : ℕ → Range → Type 0
In a r = (r.start ≤ a) × (a ≤ r.end)

abbrev pub Covers : List Range → ℕ → Type 0
Covers [] a = ⊥
Covers (e ∷ es) a = In a e ⊎ Covers es a

abbrev pub IsProper : Range → Type 0
IsProper r = (r.start ≤ r.end) × (r.end ≤ u64_max)

-- `a` is neither in the range nor next to it.
abbrev pub Away : Range → ℕ → Type 0
Away r a = (a + 1 < r.start) ⊎ (r.end + 1 < a)

-- Entries are proper ranges of `u64` that neither overlap nor touch.
abbrev pub AreApart : List Range → Type 0
AreApart [] = Unit {0}
AreApart (e ∷ es) = IsProper e × ((a : ℕ) → Covers es a → Away e a) × AreApart es

abbrev pub IsValid : RangeSet → Type 0
IsValid rs = AreApart rs.ranges

pub Covers-append : (xs ys : List Range) (a : ℕ) → Covers (xs ++ ys) a ↔ (Covers xs a ⊎ Covers ys a)
Covers-append [] ys a = (inr, elim [ inl h ↦ absurd h | inr h ↦ h ])
Covers-append (x ∷ xs) ys a =
    let ih = Covers-append xs ys a in (ground (arith, ih.0), ground (arith, ih.1))

pub AreApart-append :
    (xs : List Range) (r : Range)
    → AreApart xs
    → IsProper r
    → ((a : ℕ) → Covers xs a → Away r a)
    → AreApart (xs ++ r ∷ [])
AreApart-append [] r v p far = (p, λ a h. absurd h, tt)
AreApart-append (x ∷ xs) r v p far = (
  v.0,
  λ a h. elim ((Covers-append xs (r ∷ []) a).0 h) [
    | inl old ↦ v.1 a old
    | inr (inl new) ↦ ground (
      arith,
      far a,
      far x.start (inl (omega arith)),
      far x.end (inl (omega arith)),
      far (r.start),
      v.0,
      p,
      new,
    )
    | inr (inr nowhere) ↦ absurd nowhere
  ],
  AreApart-append xs r v.2 p (λ a h. far a (inr h)),
)
