-- ===== src/PageAllocator/Tests.antt =====
-- wasabi-kernel/src/mem/page_allocator.rs: the theorems at a concrete allocator, and runs of the code.
use wasabi_os.Prelude.{
  ℕ, ◌%◌, ◌≡◌, ◌⊎◌, refl, inl, inr, true, some, [], ◌∷◌, ◌==◌, ltb, leb, ◌||◌, if◌then◌else◌, panic,
  ok, arith,
}
use wasabi_os.RangeSet.{Range, remove}
use wasabi_os.RangeSet.Allocation.{allocate}
use wasabi_os.RangeSet.Coverage.{IsValid}
use wasabi_os.PageAllocator.{
  PageSize, size_4kib, size_2mib, Paging, PageAllocator, out_of_pages, null_address,
  try_allocate_page, allocate_page, allocate_pages, allocate_guarded_pages, lay_out,
}
use wasabi_os.PageAllocator.Serving.{AlignsPages, Serves, allocate_pages-Serves}
use wasabi_os.PageAllocator.Guards.{
  checked, layout, small_bytes, allocate_guarded_huge, allocate_guarded_small,
}

abbrev plain : Paging
plain = record {
  is_canonical = λ a. ltb a 0x8000_0000_0000 || leb 0xffff_8000_0000_0000 a;
  is_aligned = λ a size. a % size == 0;
}

abbrev span : ℕ → ℕ → Range
span start end = record { start = start; end = end }

-- The set before the mapped pages are taken out of it.
abbrev kernel : PageAllocator
kernel = record { vaddrs = record { capacity = 256; ranges = span 0x2000 0xffff_ffff_ffff ∷ [] } }

-- Its lower half is in use.
abbrev upper : PageAllocator
upper = record {
  vaddrs = record { capacity = 256; ranges = span 0x8000_0000_0000 0xffff_ffff_ffff ∷ [] };
}

kernel-IsValid : IsValid kernel.vaddrs
kernel-IsValid = (omega arith, λ a c. absurd c, tt)

plain-AlignsPages : (s : PageSize) → AlignsPages plain s
plain-AlignsPages s = λ a e. ground (arith, e)

allocate_pages-Serves_example :
    (allocate_pages plain size_2mib 3 kernel ≡ ok (kernel, inl out_of_pages))
    ⊎ ((r : PageAllocator) × (first_page : ℕ) × (allocate_pages plain size_2mib 3 kernel ≡ (
          if plain.is_canonical first_page
          then ok (r, inr (record { first_page = first_page; count = 3 }))
          else panic))
        × Serves size_2mib 6291456 kernel (r, inr first_page))
allocate_pages-Serves_example =
    allocate_pages-Serves plain size_2mib 3 kernel (plain-AlignsPages size_2mib) kernel-IsValid
      (omega arith) (omega arith) (omega arith)

-- The upper half of the addresses that the allocator starts with is not canonical.
test_upper : allocate_page plain size_4kib upper ≡ panic
unfolding allocate_page allocate remove
test_upper = refl

allocate_guarded_small_example :
    (allocate_guarded_pages plain size_4kib 2 true true kernel ≡ ok (kernel, inl out_of_pages))
    ⊎ ((r : PageAllocator) × (start : ℕ) × (allocate_guarded_pages plain size_4kib 2 true true
            kernel
          ≡ (if checked plain 2 true start then ok (r, inr (layout 2 true start)) else panic))
        × Serves size_4kib (small_bytes 2 true) kernel (r, inr start))
allocate_guarded_small_example =
    allocate_guarded_small plain 2 true kernel (plain-AlignsPages size_4kib) kernel-IsValid
      (omega arith) (omega arith) (omega arith)

allocate_guarded_huge_example :
    allocate_guarded_pages plain size_2mib 1 true true kernel ≡ ok (kernel, inl out_of_pages)
allocate_guarded_huge_example = allocate_guarded_huge plain size_2mib 1 true kernel tt (omega arith)

null_page : try_allocate_page size_4kib 0 kernel ≡ ok (kernel, inl null_address)
unfolding try_allocate_page
null_page = refl

guarded_layout :
    lay_out plain size_4kib 2 true true 0x2000
    ≡ ok (record {
      head_guard = some 0x2000;
      tail_guard = some 0x5000;
      pages = record { first_page = 0x3000; count = 2 };
    })
unfolding lay_out
guarded_layout = refl
