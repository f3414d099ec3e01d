-- ===== src/PageAllocator/Guards.antt =====
-- wasabi-kernel/src/mem/page_allocator.rs: `allocate_guarded_pages`.
use wasabi_os.RangeSet.{RangeSet, in_use}
use wasabi_os.RangeSet.Coverage.{IsValid}
use wasabi_os.PageAllocator.Serving.{AlignsPages, Serves}
use wasabi_os.Prelude.{
  refl, false, ◌||◌, Option, some, none, if◌then◌else◌, ◌%◌, ◌<◌, ◌-◌, ◌⊎◌, inr, ℕ, ◌+◌, ◌*◌, ◌≤◌,
  ◌≡◌, ◌≢◌, inl, true, Bool, le→leb, ap, assert, ◌>>◌, Bool-cases, ◌&&◌, panic, ◌>>=◌, ok, u64_max,
  arith,
}
use wasabi_os.RangeSet.Allocation.{ones, count_ones, allocate}
use wasabi_os.RangeSet.Allocation.Blocks.{Allocates, allocate-Allocates, allocate_odd_align}
use wasabi_os.PageAllocator.{
  GuardedPages, lay_out, PageSize, size_4kib, size_2mib, size_1gib, bytes, Paging, PageAllocator,
  out_of_pages, virt_addr, guard_bytes, guarded_align, allocate_guarded_pages,
}

abbrev pub IsHuge : PageSize → Type 0
IsHuge size_4kib = ⊥
IsHuge size_2mib = Unit {0}
IsHuge size_1gib = Unit {0}

align-odd : (s : PageSize) → IsHuge s → count_ones (guarded_align s true) ≢ 1
unfolding ones
align-odd size_4kib h = absurd h
align-odd size_2mib h = λ e. omega arith
align-odd size_1gib h = λ e. omega arith

-- Huge pages with a guard in front are never allocated: if their bytes fit in `u64`, the call fails
-- as if there were no room and changes nothing, however much is free, since the alignment that is
-- asked for is no power of two.
pub allocate_guarded_huge :
    (paging : Paging) (s : PageSize) (count : ℕ) (tail_guard : Bool) (a : PageAllocator)
    → IsHuge s
    → bytes s * count + 4096 + guard_bytes tail_guard ≤ u64_max
    → allocate_guarded_pages paging s count true tail_guard a ≡ ok (a, inl out_of_pages)
unfolding allocate_guarded_pages
allocate_guarded_huge paging s count tail_guard a huge word =
    let size = bytes s * count + 4096 + guard_bytes tail_guard in
    rw (le→leb size u64_max word, allocate_guarded_pages)
      (rw (allocate_odd_align size (guarded_align s true) a.vaddrs (align-odd s huge)))

-- A block of 4KiB pages with a guard behind it, and one in front of it if there is one.
abbrev pub layout : ℕ → Bool → ℕ → GuardedPages
layout count head start = record {
  head_guard = if head then some start else none;
  tail_guard = some (start + guard_bytes head + 4096 * count);
  pages = record { first_page = start + guard_bytes head; count = count };
}

abbrev pub small_bytes : ℕ → Bool → ℕ
small_bytes count head = 4096 * count + guard_bytes head + 4096

-- The addresses whose form is checked on the way.
abbrev pub checked : Paging → ℕ → Bool → ℕ → Bool
checked paging count head start =
    paging.is_canonical start
    && (paging.is_canonical (start + guard_bytes head)
        && paging.is_canonical (start + guard_bytes head + 4096 * count))

lay_out_small :
    (paging : Paging) (count : ℕ) (head : Bool) (start : ℕ)
    → AlignsPages paging size_4kib
    → paging.is_canonical start ≡ true
    → start % 4096 ≡ 0
    → start + (small_bytes count head - 1) ≤ u64_max
    → lay_out paging size_4kib count head true start
      ≡ (if checked paging count head start then ok (layout count head start) else panic)
unfolding lay_out
lay_out_small paging count true start aligned first at word =
    rw (aligned start at, le→leb (start + 4096) u64_max next, first, lay_out)
      (elim (Bool-cases (paging.is_canonical (start + 4096))) [
        | inr wild ↦ rw wild refl
        | inl fine ↦ rw fine (
            rw
              (
                aligned (start + 4096) (omega arith),
                le→leb (4096 * count) u64_max total,
                le→leb (start + 4096 + 4096 * count) u64_max last,
              )
              (elim (Bool-cases (paging.is_canonical (start + 4096 + 4096 * count))) [
                | inr wild ↦ rw wild refl
                | inl too ↦ rw too (rw (aligned (start + 4096 + 4096 * count) (omega arith)) refl)
              ]))
      ])
  where
    next : start + 4096 ≤ u64_max
    next = omega arith

    total : 4096 * count ≤ u64_max
    total = omega arith

    last : start + 4096 + 4096 * count ≤ u64_max
    last = omega arith
lay_out_small paging count false start aligned first at word =
    rw (none_before, first, aligned start at, le→leb (4096 * count) u64_max total, lay_out)
      (rw (le→leb (start + 4096 * count) u64_max last)
        (elim (Bool-cases (paging.is_canonical (start + 4096 * count))) [
          | inr wild ↦ rw wild refl
          | inl fine ↦ rw fine (rw (aligned (start + 4096 * count) (omega arith)) refl)
        ]))
  where
    none_before : start + 0 ≡ start
    none_before = omega arith

    total : 4096 * count ≤ u64_max
    total = omega arith

    last : start + 4096 * count ≤ u64_max
    last = omega arith

small-align : (head : Bool) → guarded_align size_4kib head ≡ 4096
small-align true = refl
small-align false = refl

any-tail : (head : Bool) → (head || true) ≡ true
any-tail true = refl
any-tail false = refl

by_flag {ℓ κ} :
    {A : Type ℓ} {B : Type κ} (b : Bool) (x : A) (f : A → B)
    → ((if b then ok x else panic) >>= λ a. ok (f a)) ≡ (if b then ok (f x) else panic)
by_flag true x f = refl
by_flag false x f = refl

guarded_some :
    (paging : Paging) (count : ℕ) (head : Bool) (a : PageAllocator) (rest : RangeSet) (start : ℕ)
    → AlignsPages paging size_4kib
    → start % 4096 ≡ 0
    → start + (small_bytes count head - 1) ≤ u64_max
    → small_bytes count head ≤ u64_max
    → allocate (small_bytes count head) 4096 a.vaddrs ≡ ok (rest, some start)
    → allocate_guarded_pages paging size_4kib count head true a ≡ (
        if checked paging count head start
        then ok (record { vaddrs = rest }, inr (layout count head start))
        else panic)
unfolding allocate_guarded_pages
guarded_some paging count head a rest start aligned at fits word run =
    rw (any-tail head, allocate_guarded_pages)
      (rw (le→leb (small_bytes count head) u64_max word, small-align head)
        (rw run (
          rw placed (
            by_flag (checked paging count head start) (layout count head start)
              (λ pages. (record { vaddrs = rest }, inr pages))))))
  where
    placed :
        (virt_addr paging start >>= lay_out paging size_4kib count head true)
        ≡ (if checked paging count head start then ok (layout count head start) else panic)
    placed = elim (Bool-cases (paging.is_canonical start)) [
      | inr wild ↦ rw wild refl
      | inl fine ↦
          rw (ap (λ b. assert b >> ok start) fine, ◌>>=◌)
            (lay_out_small paging count head start aligned fine at fits)
    ]

guarded_none :
    (paging : Paging) (count : ℕ) (head : Bool) (a : PageAllocator) (rest : RangeSet)
    → small_bytes count head ≤ u64_max
    → allocate (small_bytes count head) 4096 a.vaddrs ≡ ok (rest, none)
    → rest ≡ a.vaddrs
    → allocate_guarded_pages paging size_4kib count head true a ≡ ok (a, inl out_of_pages)
unfolding allocate_guarded_pages
guarded_none paging count head a rest word run same =
    rw (any-tail head, allocate_guarded_pages)
      (rw (le→leb (small_bytes count head) u64_max word, small-align head) (rw run (rw same)))

-- On a valid set with a free slot, where multiples of 4096 count as aligned, the call for at least
-- one 4KiB page with a guard behind, whose bytes fit in `u64`, fails and changes nothing, or finds
-- an aligned block that was free and is taken: it returns the guard in front, if one is asked for,
-- the pages and the guard behind, one after the other in the block, if the addresses that it makes
-- pages of are canonical, and panics if not.
pub allocate_guarded_small :
    (paging : Paging) (count : ℕ) (head : Bool) (a : PageAllocator)
    → AlignsPages paging size_4kib
    → IsValid a.vaddrs
    → in_use a.vaddrs < a.vaddrs.capacity
    → 0 < count
    → small_bytes count head ≤ u64_max
    → (allocate_guarded_pages paging size_4kib count head true a ≡ ok (a, inl out_of_pages))
      ⊎ ((r : PageAllocator) × (start : ℕ) × (allocate_guarded_pages paging size_4kib count head
              true a
            ≡ (if checked paging count head start
                then ok (r, inr (layout count head start))
                else panic))
          × Serves size_4kib (small_bytes count head) a (r, inr start))
allocate_guarded_small paging count head a aligned v room pos word =
    let (out, run, all) =
      allocate-Allocates (small_bytes count head) 4096 a.vaddrs (omega arith) v room in
    go out.0 out.1 run all
  where
    go :
        (rest : RangeSet) (found : Option ℕ)
        → allocate (small_bytes count head) 4096 a.vaddrs ≡ ok (rest, found)
        → Allocates (small_bytes count head) 4096 a.vaddrs (rest, found)
        → (allocate_guarded_pages paging size_4kib count head true a ≡ ok (a, inl out_of_pages))
          ⊎ ((r : PageAllocator) × (start : ℕ) × (allocate_guarded_pages paging size_4kib count head
                  true a
                ≡ (if checked paging count head start
                    then ok (r, inr (layout count head start))
                    else panic))
              × Serves size_4kib (small_bytes count head) a (r, inr start))
    go rest none run all = inl (guarded_none paging count head a rest word run all)
    go rest (some start) run all = inr (
      record { vaddrs = rest },
      start,
      guarded_some paging count head a rest start aligned all.0 all.1 word run,
      (all.0, all.2, all.3, all.4, all.5),
    )
