-- ===== src/PageAllocator/Serving.antt =====
-- wasabi-kernel/src/mem/page_allocator.rs: what `allocate_pages` gives.
use wasabi_os.Prelude.{
  ℕ, ◌+◌, ◌*◌, ◌%◌, ◌≤◌, ◌<◌, ◌≡◌, refl, ◌⊎◌, inl, inr, true, Bool-cases, if◌then◌else◌, panic,
  Option, none, some, le→leb, ok, u64_max, arith,
}
use wasabi_os.RangeSet.{RangeSet, in_use}
use wasabi_os.RangeSet.Coverage.{Covers, IsValid}
use wasabi_os.RangeSet.Allocation.{allocate}
use wasabi_os.RangeSet.Allocation.Blocks.{Allocates, allocate-Allocates}
use wasabi_os.PageAllocator.{
  PageSize, size_4kib, size_2mib, size_1gib, bytes, Paging, PageAllocator, MemError, out_of_pages,
  allocate_bytes, allocate_pages,
}

-- What the check of the crate comes to: a multiple of the page size is aligned.
abbrev pub AlignsPages : Paging → PageSize → Type 0
AlignsPages paging s = (a : ℕ) → a % bytes s ≡ 0 → paging.is_aligned a (bytes s) ≡ true

-- No page, and nothing changed, or aligned pages that were free and are taken; nothing became free.
abbrev pub Serves : PageSize → ℕ → PageAllocator → PageAllocator × (MemError ⊎ ℕ) → Type 0
Serves s size a (r, inl e) = (e ≡ out_of_pages) × (r ≡ a)
Serves s size a (r, inr page) =
    (page % bytes s ≡ 0)
    × ((x : ℕ)
        → page ≤ x
        → x < page + size
        → Covers a.vaddrs.ranges x × (¬ Covers r.vaddrs.ranges x))
    × ((x : ℕ) → Covers r.vaddrs.ranges x → Covers a.vaddrs.ranges x)
    × IsValid r.vaddrs
    × (r.vaddrs.capacity ≡ a.vaddrs.capacity)

bytes_word : (s : PageSize) → (1 ≤ bytes s) × (bytes s ≤ u64_max)
bytes_word size_4kib = (omega arith, omega arith)
bytes_word size_2mib = (omega arith, omega arith)
bytes_word size_1gib = (omega arith, omega arith)

module _ (paging : Paging) where
  -- Nothing was found, or a block that is taken; then the call goes on as its address is canonical.
  pub allocate_bytes-Serves :
      (s : PageSize) (size : ℕ) (a : PageAllocator)
      → AlignsPages paging s
      → IsValid a.vaddrs
      → in_use a.vaddrs < a.vaddrs.capacity
      → 0 < size
      → (allocate_bytes paging s size a ≡ ok (a, inl out_of_pages))
        ⊎ ((r : PageAllocator) × (page : ℕ) × (allocate_bytes paging s size a
              ≡ (if paging.is_canonical page then ok (r, inr page) else panic))
            × Serves s size a (r, inr page))
  allocate_bytes-Serves s size a aligned v room pos =
      let (out, run, all) = allocate-Allocates size (bytes s) a.vaddrs (bytes_word s).1 v room in
      go out.0 out.1 run all
    where
      go :
          (rest : RangeSet) (found : Option ℕ)
          → allocate size (bytes s) a.vaddrs ≡ ok (rest, found)
          → Allocates size (bytes s) a.vaddrs (rest, found)
          → (allocate_bytes paging s size a ≡ ok (a, inl out_of_pages))
            ⊎ ((r : PageAllocator) × (page : ℕ) × (allocate_bytes paging s size a
                  ≡ (if paging.is_canonical page then ok (r, inr page) else panic))
                × Serves s size a (r, inr page))
      go rest none run all = inl (rw run (rw all refl))
      go rest (some ptr) run all =
          inr (record { vaddrs = rest }, ptr, by_check, (all.0, all.2, all.3, all.4, all.5))
        where
          by_check :
              allocate_bytes paging s size a
              ≡ (if paging.is_canonical ptr then ok (record { vaddrs = rest }, inr ptr) else panic)
          by_check = elim (Bool-cases (paging.is_canonical ptr)) [
            | inl fine ↦ rw run (rw (fine, aligned ptr all.0) refl)
            | inr wild ↦ rw run (rw wild refl)
          ]

  -- On a valid set with a free slot, where multiples of the page size count as aligned,
  -- `allocate_pages` of at least one page whose bytes fit in `u64` fails and changes nothing, or
  -- finds that many aligned pages, whose addresses were free and are all taken; nothing becomes
  -- free and the set stays valid. It returns the pages found if their first address is canonical,
  -- and panics if not.
  pub allocate_pages-Serves :
      (s : PageSize) (count : ℕ) (a : PageAllocator)
      → AlignsPages paging s
      → IsValid a.vaddrs
      → in_use a.vaddrs < a.vaddrs.capacity
      → 0 < count
      → bytes s * count ≤ u64_max
      → (allocate_pages paging s count a ≡ ok (a, inl out_of_pages))
        ⊎ ((r : PageAllocator) × (first_page : ℕ) × (allocate_pages paging s count a ≡ (
              if paging.is_canonical first_page
              then ok (r, inr (record { first_page = first_page; count = count }))
              else panic))
            × Serves s (bytes s * count) a (r, inr first_page))
  unfolding allocate_pages
  allocate_pages-Serves s count a aligned v room pos word =
      elim (allocate_bytes-Serves s (bytes s * count) a aligned v room
        (grind (arith, (bytes_word s).0))) [
          | inl run ↦ inl (rw (le→leb (bytes s * count) u64_max word) (rw run refl))
          | inr (r, page, run, serves) ↦ inr (r, page, go r page run, serves)
        ]
    where
      go :
          (r : PageAllocator) (page : ℕ)
          → allocate_bytes paging s (bytes s * count) a
            ≡ (if paging.is_canonical page then ok (r, inr page) else panic)
          → allocate_pages paging s count a ≡ (
              if paging.is_canonical page
              then ok (r, inr (record { first_page = page; count = count }))
              else panic)
      go r page run = elim (Bool-cases (paging.is_canonical page)) [
        | inl fine ↦ rw (le→leb (bytes s * count) u64_max word) (rw run (rw fine refl))
        | inr wild ↦ rw (le→leb (bytes s * count) u64_max word) (rw run (rw wild refl))
      ]
