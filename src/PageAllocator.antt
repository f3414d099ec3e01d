-- ===== src/PageAllocator.antt =====
-- wasabi-kernel/src/mem/page_allocator.rs: the allocator of virtual pages, over a `RangeSet`. The
-- checks of the crate `x86_64` on addresses are an argument; statistics and warnings are left out.
mod Tests
pub mod Serving
pub mod Guards
use wasabi_os.Prelude.{
  ℕ, zero, suc, ◌+◌, ◌-◌, ◌*◌, Bool, true, false, not, ◌||◌, ◌&&◌, Option, none, some, ◌⊎◌, inl,
  inr, leb, ◌==◌, if◌then◌else◌, Outcome, ok, ◌>>=◌, ◌>>◌, assert, u64_max,
}
use wasabi_os.RangeSet.{Range, RangeSet, insert}
use wasabi_os.RangeSet.Exact.{remove_if_exist}
use wasabi_os.RangeSet.Allocation.{allocate}

pub data PageSize : Type 0 where
  size_4kib size_2mib size_1gib : PageSize

-- `S::SIZE`
abbrev pub bytes : PageSize → ℕ
bytes size_4kib = 4096
bytes size_2mib = 0x20_0000
bytes size_1gib = 0x4000_0000

-- `VirtAddr` panics on an address that is not canonical, and `Page::from_start_address` fails on
-- one that is not aligned to the size.
pub record Paging : Type 0 where
  pub is_canonical : ℕ → Bool
  pub is_aligned : ℕ → ℕ → Bool

pub record PageAllocator : Type 0 where
  pub vaddrs : RangeSet

-- A page is its start address.
pub record Pages : Type 0 where
  pub first_page : ℕ
  pub count : ℕ

pub record GuardedPages : Type 0 where
  pub head_guard : Option ℕ
  pub tail_guard : Option ℕ
  pub pages : Pages

pub data MemError : Type 0 where
  null_address page_in_use out_of_pages : MemError

abbrev pub page_range : PageSize → ℕ → Range
page_range s page = record { start = page; end = page + (bytes s - 1) }

-- The range in the code, whose end is computed in `u64`.
abbrev pub checked_range : PageSize → ℕ → Outcome Range
checked_range s page = assert (leb (page + (bytes s - 1)) u64_max) >> ok (page_range s page)

unfoldable pub try_allocate_page :
    PageSize → ℕ → PageAllocator → Outcome (PageAllocator × (MemError ⊎ Unit {0}))
try_allocate_page s page a =
    if page == 0
    then ok (a, inl null_address)
    else checked_range s page >>= λ range. remove_if_exist range a.vaddrs >>= λ out. elim (out.1) [
      | true ↦ ok (record { vaddrs = out.0 }, inr tt)
      | false ↦ ok (record { vaddrs = out.0 }, inl page_in_use)
    ]

-- `S::SIZE * count`
abbrev pub total_bytes : PageSize → ℕ → Outcome ℕ
total_bytes s count = assert (leb (bytes s * count) u64_max) >> ok (bytes s * count)

-- The bytes of a guard page, or none.
abbrev pub guard_bytes : Bool → ℕ
guard_bytes true = 4096
guard_bytes false = 0

-- The alignment that `allocate_guarded_pages` asks for.
abbrev pub guarded_align : PageSize → Bool → ℕ
guarded_align s false = bytes s
guarded_align size_4kib true = 4096
guarded_align size_2mib true = bytes size_2mib - 4096
guarded_align size_1gib true = bytes size_1gib - 4096

module _ (paging : Paging) where
  -- `VirtAddr::new`
  abbrev pub virt_addr : ℕ → Outcome ℕ
  virt_addr a = assert (paging.is_canonical a) >> ok a

  -- `Page::from_start_address(..).expect(..)`
  abbrev pub from_start_address : PageSize → ℕ → Outcome ℕ
  from_start_address s a = assert (paging.is_aligned a (bytes s)) >> ok a

  -- `VirtAddr + u64`
  abbrev pub forward : ℕ → ℕ → Outcome ℕ
  forward a n = assert (leb (a + n) u64_max) >> virt_addr (a + n)

  -- `allocate_pages` behind the size, and `allocate_page`.
  abbrev pub allocate_bytes :
      PageSize → ℕ → PageAllocator → Outcome (PageAllocator × (MemError ⊎ ℕ))
  allocate_bytes s size a = allocate size (bytes s) a.vaddrs >>= λ out. elim (out.1) [
    | none ↦ ok (record { vaddrs = out.0 }, inl out_of_pages)
    | some start ↦ virt_addr start >>= λ address.
        from_start_address s address >>= λ page. ok (record { vaddrs = out.0 }, inr page)
  ]

  unfoldable pub allocate_page : PageSize → PageAllocator → Outcome (PageAllocator × (MemError ⊎ ℕ))
  allocate_page s a = allocate_bytes s (bytes s) a

  unfoldable pub allocate_pages :
      PageSize → ℕ → PageAllocator → Outcome (PageAllocator × (MemError ⊎ Pages))
  allocate_pages s count a = total_bytes s count >>= λ size. allocate_bytes s size a >>= λ out.
      elim (out.1) [
        | inl e ↦ ok (out.0, inl e)
        | inr page ↦ ok (out.0, inr (record { first_page = page; count = count }))
      ]

  -- A guard page at `start`, if there is one, and the address behind it.
  abbrev pub head_guard_at : Bool → ℕ → Outcome (Option ℕ × ℕ)
  head_guard_at false start = ok (none, start)
  head_guard_at true start = do
    guard ← from_start_address size_4kib start
    behind ← forward start 4096
    ok (some guard, behind)

  abbrev pub tail_guard_at : Bool → ℕ → Outcome (Option ℕ)
  tail_guard_at false start = ok none
  tail_guard_at true start = do guard ← from_start_address size_4kib start; ok (some guard)

  -- `allocate_guarded_pages` behind the allocation.
  unfoldable pub lay_out : PageSize → ℕ → Bool → Bool → ℕ → Outcome GuardedPages
  lay_out s count head_guard tail_guard start = do
    head ← head_guard_at head_guard start
    first_page ← from_start_address s head.1
    behind ← total_bytes s count >>= forward head.1
    tail ← tail_guard_at tail_guard behind
    ok (record {
      head_guard = head.0;
      tail_guard = tail;
      pages = record { first_page = first_page; count = count };
    })

  unfoldable pub allocate_guarded_pages :
      PageSize
      → ℕ
      → Bool
      → Bool
      → PageAllocator
      → Outcome (PageAllocator × (MemError ⊎ GuardedPages))
  allocate_guarded_pages s count head_guard tail_guard a = elim (head_guard || tail_guard) [
    | false ↦ allocate_pages s count a >>= λ out. elim (out.1) [
      | inl e ↦ ok (out.0, inl e)
      | inr pages ↦ ok (out.0, inr (record { head_guard = none; tail_guard = none; pages = pages }))
    ]
    | true ↦
        let size = bytes s * count + guard_bytes head_guard + guard_bytes tail_guard in
        assert (leb size u64_max) >> allocate size (guarded_align s head_guard) a.vaddrs >>= λ out.
        elim (out.1) [
          | none ↦ ok (record { vaddrs = out.0 }, inl out_of_pages)
          | some start ↦ virt_addr start >>= lay_out s count head_guard tail_guard >>= λ pages.
              ok (record { vaddrs = out.0 }, inr pages)
        ]
  ]

unfoldable pub free_page : PageSize → ℕ → PageAllocator → Outcome PageAllocator
free_page s page a =
    checked_range s page >>= λ range. insert range a.vaddrs >>= λ out. ok (record { vaddrs = out })

module _ (paging : Paging) where
  -- The loop over the `index` of the pages; `first_page + index` must be canonical.
  unfoldable pub free_rest : PageSize → ℕ → ℕ → ℕ → PageAllocator → Outcome PageAllocator
  free_rest s first_page index zero a = ok a
  free_rest s first_page index (suc n) a = forward paging first_page (bytes s * index) >>= λ page.
      free_page s page a >>= free_rest s first_page (index + 1) n

  unfoldable pub free_pages : PageSize → Pages → PageAllocator → Outcome PageAllocator
  free_pages s pages a = free_rest s pages.first_page 0 pages.count a

  abbrev pub free_guard : Option ℕ → PageAllocator → Outcome PageAllocator
  free_guard none a = ok a
  free_guard (some guard) a = free_page size_4kib guard a

  unfoldable pub free_guarded_pages :
      PageSize → GuardedPages → PageAllocator → Outcome PageAllocator
  free_guarded_pages s pages a =
      free_pages s pages.pages a >>= free_guard pages.head_guard >>= free_guard pages.tail_guard
