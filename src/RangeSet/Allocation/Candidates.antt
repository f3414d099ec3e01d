-- ===== src/RangeSet/Allocation/Candidates.antt =====
-- libs/shared/src/rangeset.rs: what the search of `allocate_prefer` chooses.
use native.Mathlib.Nat.{
  mul-mod_right, mod-lt, div-add-mod, mod-eq_of_lt, mod_self, sub-zero, pow-le-pow_right,
}
use Prim.Native.Nat.{bit_and}
use wasabi_os.Prelude.{
  ℕ, ◌+◌, ◌-◌, ◌*◌, ◌/◌, ◌%◌, ◌^◌, ◌≤◌, ◌<◌, ◌≡◌, ◌≢◌, ap, ◌∙◌, inl, inr, Bool, true, false, Option,
  none, some, List, [], ◌∷◌, Bool-cases, Option-cases, u64_max, wrapping_add, arith, ◌==◌, ltb, leb,
  ==→≡, ==→≢, ltb→ge, if◌then◌else◌, ◌&&◌, ◌||◌,
}
use wasabi_os.RangeSet.{Range, overlaps}
use wasabi_os.RangeSet.Coverage.{In, Covers, IsProper, AreApart}
use wasabi_os.RangeSet.Allocation.{
  usize_max, Candidate, RegionScan, no_region, skip_entry, use_region, EntryScan, overflowed,
  skipped, offered, chosen, Search, overflow, best, round_up, try_region, scan_regions, align_fix,
  own_block, try_regions, try_entry, better, search_entries,
}
use wasabi_os.RangeSet.Allocation.Masks.{bit_and-mask, bit_and-not_mask, pow_pos}

multiple : (p q : ℕ) (x : ℕ) → x ≡ p * q → x % p ≡ 0
multiple p q x e = ap (λ (t : ℕ). t % p) e ∙ mul-mod_right p q

padded_mod : (x p : ℕ) → 0 < p → (x + (p - x % p) % p) % p ≡ 0
padded_mod x p h = elim (Bool-cases (x % p == 0)) [
  | inl z ↦
      let none_over : x % p ≡ 0 = ==→≡ _ _ z in
      let pad : (p - x % p) % p ≡ 0 =
        ap (λ (t : ℕ). (p - t) % p) none_over ∙ ap (λ (t : ℕ). t % p) (sub-zero p) ∙ mod_self p in
      multiple p (x / p) _ (omega (arith, div-add-mod x p))
  | inr nz ↦
      let over : x % p ≢ 0 = ==→≢ _ _ nz in
      let pad : (p - x % p) % p ≡ p - x % p = mod-eq_of_lt (omega (arith, mod-lt x h)) in
      multiple p (x / p + 1) _ (omega (arith, div-add-mod x p, mod-lt x h))
]

rounded_mod : (y p : ℕ) → (y - y % p) % p ≡ 0
rounded_mod y p = multiple p (y / p) _ (omega (arith, div-add-mod y p))

-- A block that can be handed out: aligned, `size` long, and inside what `all` covers.
pub record IsGood (size p : ℕ) (all : List Range) (c : Candidate) : Type 0 where
  pub aligned : c.ptr % p ≡ 0
  pub below : c.base ≤ c.ptr
  pub fits : c.ptr + size ≤ c.end + 1
  pub word : c.end ≤ u64_max
  pub inside : (a : ℕ) → c.base ≤ a → a ≤ c.end → Covers all a

abbrev pub IsGood? : ℕ → ℕ → List Range → Option Candidate → Type 0
IsGood? size p all none = Unit {0}
IsGood? size p all (some c) = IsGood size p all c

overlap_within :
    (e r o : Range) → IsProper e → overlaps e r ≡ some o → (e.start ≤ o.start) × (o.end ≤ e.end)
unfolding overlaps
overlap_within e r o p h = ground arith

module _ (size k : ℕ) (pos : 0 < size) (small : k < 64) (all : List Range) where
  abbrev p : ℕ
  p = 2 ^ k

  abbrev mask : ℕ
  mask = p - 1

  word_le : p ≤ 2 ^ 63
  word_le = pow-le-pow_right (omega arith) {j = 63} (omega arith)

  round_up_mod : (x : ℕ) → round_up x mask % p ≡ 0
  unfolding round_up
  round_up_mod x =
      let y = wrapping_add x mask in
      let e : u64_max - mask ≡ 2 ^ 64 - p = omega (arith, pow_pos k, word_le) in
      ap (λ (m : ℕ). bit_and y m % p) e
      ∙ ap (λ (t : ℕ). t % p) (bit_and-not_mask 64 k y (omega arith) (omega arith))
      ∙ rounded_mod y p

  align_fix_mod : (x : ℕ) → (x + align_fix mask p x) % p ≡ 0
  unfolding align_fix
  align_fix_mod x =
      ap (λ (t : ℕ). (x + t) % p)
        (bit_and-mask k _ ∙ ap (λ (t : ℕ). (p - t) % p) (bit_and-mask k x))
      ∙ padded_mod x p (pow_pos k)

  abbrev GoodRegion : RegionScan → Type 0
  GoodRegion no_region = Unit {0}
  GoodRegion skip_entry = Unit {0}
  GoodRegion (use_region c) = IsGood size p all c

  abbrev GoodEntry : EntryScan → Type 0
  GoodEntry overflowed = Unit {0}
  GoodEntry skipped = Unit {0}
  GoodEntry (offered c) = IsGood size p all c
  GoodEntry (chosen c) = IsGood size p all c

  abbrev aligned : Range → ℕ
  aligned o = round_up o.start mask

  module _ (e : Range) (proper : IsProper e) (sub : (a : ℕ) → In a e → Covers all a) where
    try_region-Good :
        (o : Range) (rest : RegionScan)
        → (e.start ≤ o.start) × (o.end ≤ e.end)
        → GoodRegion rest
        → GoodRegion (try_region size mask o rest)
    unfolding try_region
    try_region-Good o rest w g =
        elim (Bool-cases (
          leb o.start (aligned o) && leb (aligned o) o.end && leb (size - 1) (o.end - aligned o))) [
            | inr off ↦ rw off g
            | inl on ↦
                elim (Bool-cases
                  (ltb usize_max (aligned o) || ltb usize_max (aligned o + (size - 1)))) [
                    | inl over ↦ rw (on, over) tt
                    | inr fits ↦
                        rw (on, fits)
                          (record {
                            aligned = round_up_mod o.start;
                            below = omega arith;
                            fits = omega arith;
                            word = ground arith;
                            inside = λ a lo hi. sub a (ground arith);
                          })
                  ]
          ]

    scan_regions-Good : (regions : List Range) → GoodRegion (scan_regions size mask e regions)
    unfolding scan_regions
    scan_regions-Good [] = tt
    scan_regions-Good (r ∷ rs) = elim (Option-cases (overlaps e r)) [
      | inl no_overlap ↦ rw (no_overlap, GoodRegion, scan_regions) (scan_regions-Good rs)
      | inr (o, at) ↦
          rw (at, GoodRegion, scan_regions)
            (try_region-Good o (scan_regions size mask e rs) (overlap_within e r o proper at)
              (scan_regions-Good rs))
    ]

    own_block-Good :
        (c : Candidate) → own_block size mask p e ≡ some c → c.end ≤ e.end → IsGood size p all c
    unfolding own_block
    own_block-Good c h w = record {
      aligned = ground (arith, align_fix_mod e.start);
      below = ground arith;
      fits = ground arith;
      word = ground arith;
      inside = λ a lo hi. sub a (ground arith);
    }

    try_regions-Good :
        (regions : Option (List Range)) (force : Bool) (own : Candidate)
        → IsGood size p all own
        → GoodEntry (try_regions size mask regions force e own)
    unfolding try_regions
    try_regions-Good none true own g = tt
    try_regions-Good none false own g = g
    try_regions-Good (some rs) force own g =
        pick force (scan_regions size mask e rs) (scan_regions-Good rs)
      where
        pick :
            (force : Bool) (s : RegionScan)
            → GoodRegion s
            → GoodEntry (elim s [
              | no_region ↦ if force then skipped else offered own
              | skip_entry ↦ skipped
              | use_region c ↦ chosen c
            ])
        pick true no_region h = tt
        pick false no_region h = g
        pick force skip_entry h = tt
        pick force (use_region c) h = h

    try_entry-Good :
        (regions : Option (List Range)) (force : Bool)
        → GoodEntry (try_entry size mask p regions force e)
    unfolding try_entry
    try_entry-Good regions force = elim (Option-cases (own_block size mask p e)) [
      | inl over ↦ rw (over, GoodEntry, try_entry) tt
      | inr (own, at) ↦ elim (Bool-cases (ltb usize_max e.start || ltb usize_max own.end)) [
        | inl wide ↦ rw (at, GoodEntry, try_entry) (rw wide tt)
        | inr narrow ↦ elim (Bool-cases (ltb e.end own.end)) [
          | inl short ↦ rw (at, GoodEntry, try_entry) (rw (narrow, short) tt)
          | inr room ↦
              rw (at, GoodEntry, try_entry)
                (rw (narrow, room)
                  (try_regions-Good regions force own (own_block-Good own at (ltb→ge _ _ room))))
        ]
      ]
    ]

  better-Good :
      (c : Candidate) (old : Option Candidate)
      → IsGood size p all c
      → IsGood? size p all old
      → IsGood? size p all (better c old)
  better-Good c none g h = g
  better-Good c (some old) g h = elim (Bool-cases (ltb (c.end - c.base) (old.end - old.base))) [
    | inl less ↦ rw less g
    | inr more ↦ rw more h
  ]

  abbrev pub GoodSearch : Search → Type 0
  GoodSearch overflow = Unit {0}
  GoodSearch (best found) = IsGood? size p all found

  pub search_entries-Good :
      (regions : Option (List Range)) (force : Bool) (es : List Range) (found : Option Candidate)
      → AreApart es
      → ((a : ℕ) → Covers es a → Covers all a)
      → IsGood? size p all found
      → GoodSearch (search_entries size mask p regions force es found)
  unfolding search_entries
  search_entries-Good regions force [] found v sub g = g
  search_entries-Good regions force (e ∷ es) found v sub g =
      let skip = search_entries-Good regions force es found v.2 (λ a c. sub a (inr c)) g in
      let next = λ (c : Candidate) (h : IsGood size p all c).
        search_entries-Good regions force es (better c found) v.2 (λ a c. sub a (inr c))
          (better-Good c found h g) in
      pick (try_entry size mask p regions force e)
        (try_entry-Good e v.0 (λ a i. sub a (inl i)) regions force) skip next
    where
      pick :
          (s : EntryScan)
          → GoodEntry s
          → GoodSearch (search_entries size mask p regions force es found)
          → ((c : Candidate)
              → IsGood size p all c
              → GoodSearch (search_entries size mask p regions force es (better c found)))
          → GoodSearch (elim s [
            | overflowed ↦ overflow
            | skipped ↦ search_entries size mask p regions force es found
            | offered c ↦ search_entries size mask p regions force es (better c found)
            | chosen c ↦ best (some c)
          ])
      pick overflowed h skip next = tt
      pick skipped h skip next = skip
      pick (offered c) h skip next = next c h
      pick (chosen c) h skip next = h
