-- ===== src/RangeSet/Scanning.antt =====
-- libs/shared/src/rangeset.rs: what one scan of `remove` over the entries does.
use wasabi_os.Prelude.{
  ℕ, ◌≤◌, ◌<◌, ◌≡◌, refl, ◌↔◌, ◌⊎◌, inl, inr, true, false, some, List, [], ◌∷◌, ◌++◌, get_elem?,
  remove_at, length, arith, leb→gt, leb→le, leb, Bool-cases, saturating_add,
}
use wasabi_os.RangeSet.{
  Range, overlaps, contains, is_some, Scan, finished, cut, split, behind, saturating_pred,
  scan_remove,
}
use wasabi_os.RangeSet.Coverage.{In, Covers, AreApart, IsProper, Covers-append, AreApart-append}
use wasabi_os.RangeSet.Overlaps.{
  hits, overlaps_meet, overlaps_miss, overlaps_miss-of, contains_bounds,
}

-- What a scan keeps true of the entries, wherever it ends.
pub record Progress (r : Range) (es out : List Range) : Type 0 where
  -- Nothing outside the range changes.
  pub same : (a : ℕ) → ¬ In a r → Covers out a ↔ Covers es a
  pub fewer : (a : ℕ) → Covers out a → Covers es a
  pub apart : AreApart out

abbrev pub Scanned : Range → List Range → Scan → Type 0
Scanned r es (finished out) =
    Progress r es out × ((a : ℕ) → Covers out a → ¬ In a r) × (length out ≡ length es)
Scanned r es (cut i out) =
    (e : Range) × (get_elem? out i ≡ some e)
    × ((a : ℕ) → In a e → In a r)
    × Progress r es out
    × (hits r (remove_at i out) < hits r es)
    × (length out ≡ length es)
    × (i < length out)
Scanned r es (split out piece) =
    Progress r es (out ++ piece ∷ [])
    × ((a : ℕ) → Covers (out ++ piece ∷ []) a → ¬ In a r)
    × (0 < hits r es)
    × (length out ≡ length es)

Progress-keep :
    (r e : Range) (es out : List Range)
    → AreApart (e ∷ es)
    → Progress r es out
    → Progress r (e ∷ es) (e ∷ out)
Progress-keep r e es out v g = record {
  same = λ a far. (ground (arith, (g.same a far).0), ground (arith, (g.same a far).1));
  fewer = λ a. elim [ inl i ↦ inl i | inr c ↦ inr (g.fewer a c) ];
  apart = (v.0, λ a c. v.1 a (g.fewer a c), g.apart);
}

-- A trimmed entry loses addresses of the range only.
Progress-trim :
    (r e e' : Range) (es out : List Range)
    → AreApart (e ∷ es)
    → IsProper e'
    → ((a : ℕ) → In a e' → In a e)
    → ((a : ℕ) → ¬ In a r → In a e → In a e')
    → Progress r es out
    → Progress r (e ∷ es) (e' ∷ out)
Progress-trim r e e' es out v p' less most g = record {
  same = λ a far.
      (ground (arith, less a, (g.same a far).0), ground (arith, most a far, (g.same a far).1));
  fewer = λ a. elim [ inl i ↦ inl (less a i) | inr c ↦ inr (g.fewer a c) ];
  apart = (p', λ a c. ground (arith, v.1 a (g.fewer a c), less e'.start, less e'.end), g.apart);
}

Scanned-behind :
    (r e : Range) (es : List Range) (s : Scan)
    → IsProper r
    → AreApart (e ∷ es)
    → ((e.end < r.start) ⊎ (r.end < e.start))
    → Scanned r es s
    → Scanned r (e ∷ es) (behind e s)
Scanned-behind r e es (finished out) p v off (g, gone, len) = (
  Progress-keep r e es out v g,
  λ a. elim [ inl i ↦ ground arith | inr c ↦ gone a c ],
  omega arith,
)
Scanned-behind r e es (cut i out) p v off (f, at, inside, g, less, len, lt) =
    (f, at, inside, Progress-keep r e es out v g, omega arith, omega arith, omega arith)
Scanned-behind r e es (split out piece) p v off (g, gone, some_hit, len) = (
  Progress-keep r e es (out ++ piece ∷ []) v g,
  λ a. elim [ inl i ↦ ground arith | inr c ↦ gone a c ],
  omega arith,
  omega arith,
)

Scanned-trim :
    (r e e' : Range) (es : List Range) (s : Scan)
    → IsProper r
    → AreApart (e ∷ es)
    → (is_some (overlaps r e) ≡ true)
    → IsProper e'
    → ((a : ℕ) → In a e' → In a e)
    → ((a : ℕ) → ¬ In a r → In a e → In a e')
    → ((a : ℕ) → In a e' → ¬ In a r)
    → (is_some (overlaps r e') ≡ false)
    → Scanned r es s
    → Scanned r (e ∷ es) (behind e' s)
Scanned-trim r e e' es (finished out) p v hit p' less most clear miss (g, gone, len) = (
  Progress-trim r e e' es out v p' less most g,
  λ a. elim [ inl i ↦ clear a i | inr c ↦ gone a c ],
  omega arith,
)
Scanned-trim r e e' es (cut i out) p v hit p' less most clear miss (f, at, inside, g, fw, len, lt) =
    (
      f,
      at,
      inside,
      Progress-trim r e e' es out v p' less most g,
      ground arith,
      omega arith,
      omega arith,
    )
Scanned-trim r e e' es (split out piece) p v hit p' less most clear miss (g, gone, some_hit, len) =
    (
      Progress-trim r e e' es (out ++ piece ∷ []) v p' less most g,
      λ a. elim [ inl i ↦ clear a i | inr c ↦ gone a c ],
      ground arith,
      omega arith,
    )

abbrev upper : Range → Range → Range
upper r e = record e { start = saturating_add r.end 1 }

abbrev lower : Range → Range → Range
lower r e = record { start = e.start; end = saturating_pred r.start }

-- The range lies strictly inside the entry, which falls into two.
Scanned-split :
    (r e : Range) (es : List Range)
    → IsProper r
    → AreApart (e ∷ es)
    → e.start < r.start
    → r.end < e.end
    → is_some (overlaps r e) ≡ true
    → Scanned r (e ∷ es) (split (upper r e ∷ es) (lower r e))
Scanned-split r e es p v below above hit = (
  record {
    same = λ a far.
        let c = Covers-append es (lower r e ∷ []) a in (ground (arith, c.0), ground (arith, c.1));
    fewer = λ a h. let c = Covers-append es (lower r e ∷ []) a in ground (arith, c.0);
    apart =
        AreApart-append (upper r e ∷ es) (lower r e)
          (omega arith, λ a c. ground (arith, v.1 a c), v.2) (omega arith)
          (λ a. elim [ inl i ↦ ground arith | inr c ↦ ground (arith, v.1 a c) ]);
  },
  λ a h. let c = Covers-append es (lower r e ∷ []) a in ground (arith, c.0, v.1 a),
  ground arith,
  omega arith,
)

Scanned-upper :
    (r e : Range) (es : List Range) (s : Scan)
    → IsProper r
    → AreApart (e ∷ es)
    → is_some (overlaps r e) ≡ true
    → (r.start ≤ e.end) × (e.start ≤ r.end)
    → r.start ≤ e.start
    → r.end < e.end
    → Scanned r es s
    → Scanned r (e ∷ es) (behind (upper r e) s)
Scanned-upper r e es s p v hit meet low inside =
    Scanned-trim r e (upper r e) es s p v hit (omega arith) (λ a i. omega arith)
      (λ a far i. ground arith) (λ a i. omega arith)
      (overlaps_miss-of r (upper r e) p (omega arith) (omega arith))

Scanned-lower :
    (r e : Range) (es : List Range) (s : Scan)
    → IsProper r
    → AreApart (e ∷ es)
    → is_some (overlaps r e) ≡ true
    → (r.start ≤ e.end) × (e.start ≤ r.end)
    → e.start < r.start
    → e.end ≤ r.end
    → Scanned r es s
    → Scanned r (e ∷ es) (behind (lower r e) s)
Scanned-lower r e es s p v hit meet low high =
    Scanned-trim r e (lower r e) es s p v hit (omega arith) (λ a i. omega arith)
      (λ a far i. ground arith) (λ a i. omega arith)
      (overlaps_miss-of r (lower r e) p (omega arith) (omega arith))

pub scan_remove-Scanned :
    (r : Range) (es : List Range) → IsProper r → AreApart es → Scanned r es (scan_remove r es)
unfolding scan_remove
scan_remove-Scanned r [] p v = (
  record { same = λ a far. (λ h. h, λ h. h); fewer = λ a h. h; apart = tt },
  λ a h. absurd h,
  refl,
)
scan_remove-Scanned r (e ∷ es) p v =
    let rest = scan_remove-Scanned r es p v.2 in
    let bounds = contains_bounds e r p v.0 in
    elim (Bool-cases (is_some (overlaps r e))) [
      | inr miss ↦
          rw miss (Scanned-behind r e es (scan_remove r es) p v (overlaps_miss r e p v.0 miss) rest)
      | inl hit ↦
          let meet = overlaps_meet r e p v.0 hit in
          elim (Bool-cases (contains e r)) [
            | inl within ↦
                rw (hit, within)
                  (
                    e,
                    refl,
                    λ a i. ground (arith, bounds.0),
                    record { same = λ a far. (λ h. h, λ h. h); fewer = λ a h. h; apart = v },
                    ground arith,
                    refl,
                    omega arith,
                  )
            | inr partly ↦ elim (Bool-cases (leb r.start e.start)) [
              | inl low ↦
                  rw (hit, partly, low)
                    (Scanned-upper r e es (scan_remove r es) p v hit meet (leb→le _ _ low)
                      (ground (arith, bounds.1)) rest)
              | inr nlow ↦ elim (Bool-cases (leb e.end r.end)) [
                | inl high ↦
                    rw (hit, partly, nlow, high)
                      (Scanned-lower r e es (scan_remove r es) p v hit meet (leb→gt _ _ nlow)
                        (leb→le _ _ high) rest)
                | inr nhigh ↦
                    rw (hit, partly, nlow, nhigh)
                      (Scanned-split r e es p v (omega (arith, leb→gt _ _ nlow))
                        (omega (arith, leb→gt _ _ nhigh)) hit)
              ]
            ]
          ]
    ]
