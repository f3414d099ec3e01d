-- ===== src/BlockAllocator.antt =====
-- modules/wasabi-fs/src/block_allocator.rs: the free list of the file system, sorted groups of
-- blocks with at least one used block between two of them. `debug_assert!` and integer overflow
-- panic, as in debug builds.
mod Tests
pub mod FreeList
pub mod Marking
pub mod Fitting
pub mod Freeing
pub mod Allocating
pub mod Saving
use wasabi_os.Prelude.{
  ℕ, zero, suc, ◌+◌, ◌-◌, ◌*◌, ◌/◌, ◌^◌, Bool, true, false, not, Option, none, some, List, [], ◌∷◌,
  ◌++◌, ltb, leb, ◌==◌, if◌then◌else◌, set, remove_at, insert_at, get_elem?, Outcome, ok, panic,
  stuck, ◌>>=◌, ◌>>◌, assert, expect, map_ok, u64_max,
}
use wasabi_os.BlockDevice.Lba
use wasabi_os.BlockDevice.Group
use wasabi_os.BlockDevice.Group.{BlockGroup}

pub record BlockAllocator : Type 0 where
  pub free : List BlockGroup
  pub on_disk : Option ℕ
  pub self_on_disk : List ℕ
  pub dirty : Bool

pub data FsError : Type 0 where
  no_consecutive_free_blocks : ℕ → FsError
  block_device_full : ℕ → FsError
  write_allocator_free_list : FsError
  block_device : FsError

-- `Result<A, FsError>`
pub data FsResult {ℓ} (A : Type ℓ) : Type ℓ where
  done : A → FsResult A
  failed : FsError → FsResult A

-- `windows(2).all(..)`
pub check_consistent : List BlockGroup → Outcome Bool
check_consistent [] = ok true
check_consistent (first ∷ rest) = elim rest [
  | [] ↦ ok true
  | second ∷ _ ↦ (do
    past ← Lba.add first.start first.count
    if ltb past second.start then check_consistent rest else ok false)
]

-- `debug_assert!(self.check_consistent().is_ok())`
abbrev pub checked : BlockAllocator → Outcome BlockAllocator
checked a = do consistent ← check_consistent a.free; assert consistent; ok a

abbrev pub shifted : Option (ℕ × BlockGroup) → Option (ℕ × BlockGroup)
shifted none = none
shifted (some (i, g)) = some (suc i, g)

-- `NonZeroU64::new(..).expect(..)`
abbrev pub nonzero : ℕ → Outcome ℕ
nonzero n = if n == 0 then panic else ok n

-- `iter().position(|group| group.contains(lba))`, with the group at that index.
pub position : ℕ → List BlockGroup → Outcome (Option (ℕ × BlockGroup))
position lba [] = ok none
position lba (g ∷ gs) = do
  here ← Group.contains lba g
  let rest = map_ok shifted (position lba gs)
  if here then ok (some (0, g)) else rest

-- The body of `mark_used` behind the search. `none` is the source's `Err(())`.
pub take_block : ℕ → ℕ → BlockGroup → BlockAllocator → Outcome BlockAllocator
unfolding check_consistent
take_block lba i group a =
    if lba == group.start
    then (if group.count == 1 then checked (record a { free = remove_at i a.free }) else (do
      start ← Lba.add group.start 1
      checked
          (record a { free = set a.free i (record { start = start; count = group.count - 1 }) })))
    else (do
      last ← Group.end group
      if lba == last
          then (do
            count ← nonzero (group.count - 1)
            checked (record a { free = set a.free i (record group { count = count }) }))
          else (do
            kept ← Lba.distance lba group.start
            count ← nonzero kept
            next ← Lba.add lba 1
            rest ← Group.new next last
            checked (record a {
              free = insert_at (suc i) rest (set a.free i (record group { count = count }));
            })))

pub mark_used : ℕ → BlockAllocator → Outcome (Option BlockAllocator)
unfolding position take_block
mark_used lba a = do
  found ← position lba a.free
  elim found [ none ↦ ok none | some (i, group) ↦ map_ok some (take_block lba i group a) ]

pub mark_all : List ℕ → BlockAllocator → Outcome BlockAllocator
unfolding mark_used
mark_all [] a = ok a
mark_all (block ∷ blocks) a = do marked ← mark_used block a; a' ← expect marked; mark_all blocks a'

-- `BlockAllocator::empty`
pub empty : List ℕ → ℕ → Outcome BlockAllocator
unfolding mark_all
empty initial_usage max_lba = do
  count ← nonzero max_lba
  mark_all initial_usage (record {
    free = record { start = 0; count = count } ∷ [];
    on_disk = none;
    self_on_disk = [];
    dirty = true;
  })

-- The best group so far, by index, and the blocks that it would leave.
pub record Fit : Type 0 where
  pub best : ℕ
  pub best_rem : ℕ

-- The body of the loop over the groups.
pub improve : ℕ → ℕ → BlockGroup → Fit → Fit
improve size i g f =
    if ltb g.count size
    then f
    else if ltb (g.count - size) f.best_rem
    then record { best = i; best_rem = g.count - size }
    else f

pub best_fit : ℕ → ℕ → List BlockGroup → Fit → Fit
unfolding improve
best_fit size i [] f = f
best_fit size i (g ∷ gs) f = best_fit size (suc i) gs (improve size i g f)

-- What is left of the allocator, and the result; an error leaves the fields as they are.
-- `allocate_group` behind the search.
pub carve : ℕ → Fit → BlockAllocator → Outcome (BlockAllocator × FsResult BlockGroup)
unfolding check_consistent
carve size f a = if f.best == u64_max then ok (a, failed (no_consecutive_free_blocks size)) else (do
  group ← expect (get_elem? a.free f.best)
  if f.best_rem == 0
      then ok (record a { free = remove_at f.best a.free; dirty = true }, done group)
      else (do
        start ← Lba.add group.start size
        a' ← checked (record a {
          free = set a.free f.best (record { start = start; count = f.best_rem });
          dirty = true;
        })
        ok (a', done (record { start = group.start; count = size }))))

pub allocate_group : ℕ → BlockAllocator → Outcome (BlockAllocator × FsResult BlockGroup)
unfolding best_fit carve
allocate_group size a = do
  assert (leb 1 size)
  carve size (best_fit size 0 a.free (record { best = u64_max; best_rem = u64_max })) a

-- `map(|group| group.start)`
abbrev pub start_of : FsResult BlockGroup → FsResult ℕ
start_of (done g) = done g.start
start_of (failed e) = failed e

unfoldable pub allocate_block : BlockAllocator → Outcome (BlockAllocator × FsResult ℕ)
unfolding allocate_group
allocate_block a = do (a', r) ← allocate_group 1 a; ok (a', start_of r)

-- The loop of `free_group` over the list.
pub free_into : BlockGroup → List BlockGroup → Outcome (List BlockGroup)
free_into g [] = ok []
free_into g (current ∷ gs) =
    let rest = map_ok (◌∷◌ current) (free_into g gs) in
    if ltb g.start current.start then ok (g ∷ current ∷ gs) else (do
      last ← Group.end current
      past ← Lba.add last 1
      if past == g.start
          then (do
            assert (leb (current.count + g.count) u64_max)
            ok (record current { count = current.count + g.count } ∷ gs))
          else (do assert (ltb last g.start); rest))

pub free_group : BlockGroup → BlockAllocator → Outcome BlockAllocator
unfolding free_into check_consistent
free_group g a = do free ← free_into g a.free; checked (record a { free = free; dirty = true })

unfoldable pub free_block : ℕ → BlockAllocator → Outcome BlockAllocator
unfolding free_group
free_block block a = free_group (Group.single block) a

-- `BlockAllocator::free` of a list of groups.
pub free_list : List BlockGroup → BlockAllocator → Outcome BlockAllocator
unfolding free_group
free_list [] a = ok a
free_list (g ∷ gs) a = free_group g a >>= free_list gs

-- `BlockGroupList::block_count`. The sum is a `u64` in the source; the groups are disjoint blocks of
-- one device, so it has no bound here.
pub block_count : List BlockGroup → ℕ
block_count [] = 0
block_count (g ∷ gs) = g.count + block_count gs

-- `ilog2`; a word has 64 digits.
pub ilog2_digits : ℕ → ℕ → ℕ
ilog2_digits zero n = 0
ilog2_digits (suc f) n = let rest = ilog2_digits f (n / 2) in if ltb n 2 then 0 else suc rest

-- `while remaining_size > 0`. `list` is in the order of the pushes.
pub allocate_loop :
    ℕ
    → ℕ
    → ℕ
    → ℕ
    → List BlockGroup
    → BlockAllocator
    → Outcome (BlockAllocator × FsResult (List BlockGroup))
unfolding allocate_group free_list
allocate_loop zero count remaining group_size list a = stuck
allocate_loop (suc fuel) count remaining group_size list a =
    let smaller = allocate_loop fuel count remaining (group_size / 2) list a in
    if not (ltb 0 remaining)
    then ok (a, done list)
    else if group_size == 0
    then (do a' ← free_list list a; ok (a', failed (block_device_full count)))
    else if ltb group_size remaining
    then smaller
    else allocate_group group_size a >>= λ (a', r). elim r [
      | failed _ ↦ allocate_loop fuel count remaining (group_size / 2) list a'
      | done g ↦ allocate_loop fuel count (remaining - group_size) group_size (list ++ g ∷ []) a'
    ]

-- The group size halves or the remaining size falls in each round, so their sum bounds the rounds.
pub allocate : ℕ → BlockAllocator → Outcome (BlockAllocator × FsResult (List BlockGroup))
unfolding block_count
allocate count a = do
  assert (leb 1 count)
  let group_size = 2 ^ ilog2_digits 64 count
  (a', r) ← allocate_loop (suc (count + group_size)) count count group_size [] a
  elim r [
    | failed e ↦ ok (a', failed e)
    | done list ↦ (do
      assert (block_count list == count)
      ok (record a' { dirty = true }, done list))
  ]
