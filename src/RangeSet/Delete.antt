-- ===== src/RangeSet/Delete.antt =====
-- libs/shared/src/rangeset.rs: `delete` swaps an entry to the end and drops it, which takes that
-- entry out and leaves the others in order.
use native.Mathlib.Nat.{le_refl}
use wasabi_os.Prelude.{
  ℕ, zero, suc, ◌+◌, ◌-◌, ◌<◌, ◌≡◌, refl, ap, ◌∙◌, ◌↔◌, ◌⊎◌, inl, inr, some, List, [], ◌∷◌, ◌++◌,
  get_elem?, remove_at, length, take, take_all_but_last, arith, ok, lt→ltb,
}
use wasabi_os.RangeSet.{Range, RangeSet, in_use, swap_next, move_last, delete}
use wasabi_os.RangeSet.Coverage.{In, Covers, Away, AreApart, IsProper}

move_last-suc :
    (n i : ℕ) (x : Range) (xs : List Range)
    → n + i < length xs
    → move_last n (suc i) (x ∷ xs) ≡ x ∷ move_last n i xs
unfolding move_last
move_last-suc zero i x xs h = refl
move_last-suc (suc n) i x [] h = absurd (omega arith)
move_last-suc (suc n) i x (y ∷ []) h = absurd (omega arith)
move_last-suc (suc n) i x (y ∷ z ∷ xs) h =
    move_last-suc n (suc i) x (swap_next i (y ∷ z ∷ xs))
      (omega (arith, length-swap_next i (y ∷ z ∷ xs)))
  where
    length-swap_next : (i : ℕ) (xs : List Range) → length (swap_next i xs) ≡ length xs
    length-swap_next i [] = refl
    length-swap_next i (x ∷ []) = refl
    length-swap_next zero (x ∷ y ∷ xs) = refl
    length-swap_next (suc i) (x ∷ y ∷ xs) = ap suc (length-swap_next i (y ∷ xs))

move_last-zero : (x : Range) (xs : List Range) → move_last (length xs) 0 (x ∷ xs) ≡ xs ++ x ∷ []
unfolding move_last
move_last-zero x [] = refl
move_last-zero x (y ∷ ys) =
    move_last-suc (length ys) 0 y (x ∷ ys) (omega arith) ∙ ap (◌∷◌ y) (move_last-zero x ys)

take-move_last :
    (i n : ℕ) (xs : List Range)
    → n + suc i ≡ length xs
    → take (n + i) (move_last n i xs) ≡ remove_at i xs
take-move_last i n [] h = absurd (omega arith)
take-move_last zero n (x ∷ xs) h =
    let e : n ≡ length xs = omega arith in
    let e' : length xs + 0 ≡ length xs = omega arith in
    rw (e, e', move_last-zero x xs) (take_all_but_last xs x)
take-move_last (suc i) n (x ∷ xs) h =
    let e : n + suc i ≡ suc (n + i) = omega arith in
    rw (e, move_last-suc n i x xs (omega arith)) (ap (◌∷◌ x) (take-move_last i n xs (omega arith)))

-- Inside the set `delete` succeeds, and its array loop is the removal of one entry.
pub delete_lem :
    (idx : ℕ) (rs : RangeSet)
    → idx < in_use rs
    → delete idx rs ≡ ok (record rs { ranges = remove_at idx rs.ranges })
unfolding delete
delete_lem idx rs h =
    let e : in_use rs - 1 ≡ in_use rs - 1 - idx + idx = omega arith in
    rw (lt→ltb idx (in_use rs) h) (
      ap (λ (es : List Range). ok (record rs { ranges = es }))
        (ap (λ (n : ℕ). take n (move_last (in_use rs - 1 - idx) idx rs.ranges)) e
          ∙ take-move_last idx (in_use rs - 1 - idx) rs.ranges (omega arith)))

-- The entry at `idx` and the rest cover what the whole covers.
pub Covers-remove_at :
    (idx : ℕ) (es : List Range) (e : Range) (a : ℕ)
    → get_elem? es idx ≡ some e
    → Covers es a ↔ (In a e ⊎ Covers (remove_at idx es) a)
Covers-remove_at idx [] e a h = (λ c. absurd c, cc)
Covers-remove_at zero (x ∷ es) e a h = (ground arith, ground arith)
Covers-remove_at (suc idx) (x ∷ es) e a h =
    let ih = Covers-remove_at idx es e a h in (ground (arith, ih.0), ground (arith, ih.1))

pub IsProper-get_elem? :
    (idx : ℕ) (es : List Range) (e : Range) → get_elem? es idx ≡ some e → AreApart es → IsProper e
IsProper-get_elem? idx [] e h v = cc
IsProper-get_elem? zero (x ∷ es) e h v = ground (arith, v.0)
IsProper-get_elem? (suc idx) (x ∷ es) e h v = IsProper-get_elem? idx es e h v.2

pub AreApart-remove_at :
    (idx : ℕ) (es : List Range) (e : Range)
    → get_elem? es idx ≡ some e
    → AreApart es
    → AreApart (remove_at idx es) × ((a : ℕ) → Covers (remove_at idx es) a → Away e a)
AreApart-remove_at idx [] e h v = cc
AreApart-remove_at zero (x ∷ es) e h v = (v.2, λ a c. ground (arith, v.1 a c))
AreApart-remove_at (suc idx) (x ∷ es) e h v =
    let ih = AreApart-remove_at idx es e h v.2 in
    (
      (v.0, λ a c. v.1 a ((Covers-remove_at idx es e a h).1 (inr c)), ih.0),
      λ a. elim [
        | inl here ↦
            let mem = λ (b : ℕ) (i : In b e). v.1 b ((Covers-remove_at idx es e b h).1 (inl i)) in
            let p = IsProper-get_elem? idx es e h v.2 in
            ground
              (arith, mem a, mem e.start (le_refl e.start, p.0), mem e.end (p.0, le_refl e.end))
        | inr c ↦ ih.1 a c
      ],
    )
