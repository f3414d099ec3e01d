-- ===== src/RangeSet/Tests.antt =====
-- libs/shared/src/rangeset.rs: the theorems at concrete sets, and runs of the code.
use wasabi_os.Prelude.{
  ℕ, zero, suc, ◌-◌, ◌≡◌, refl, true, some, [], ◌∷◌, get_elem?, ok, u64_max, arith,
}
use wasabi_os.RangeSet.{Range, RangeSet, insert, remove, subtract}
use wasabi_os.RangeSet.Coverage.{IsValid}
use wasabi_os.RangeSet.Insert.{Adds, insert-Adds}
use wasabi_os.RangeSet.Remove.{Takes, remove-Takes, Subtracts, subtract-Subtracts}
use wasabi_os.RangeSet.Exact.{remove_if_exist}
use wasabi_os.RangeSet.Exact.Effects.{Within}
use wasabi_os.RangeSet.Allocation.{
  align_fix, ones, count_ones, Allocated, preference, allocate_prefer, allocate,
}
use wasabi_os.RangeSet.Allocation.Finding.{AllInWord, Fits, allocate_finds}
use wasabi_os.RangeSet.Allocation.Blocks.{Allocates, allocate_prefer-Allocates}

abbrev span : ℕ → ℕ → Range
span start end = record { start = start; end = end }

abbrev memory : RangeSet
memory = record { capacity = 4; ranges = span 10 20 ∷ span 40 99 ∷ [] }

memory-IsValid : IsValid memory
memory-IsValid = (omega arith, λ a c. ground arith, (omega arith, λ a c. absurd c, tt))

insert_merges : insert (span 21 39) memory ≡ ok (record memory { ranges = span 10 99 ∷ [] })
unfolding insert
insert_merges = refl

insert-Adds_example :
    (out : RangeSet) × (insert (span 21 30) memory ≡ ok out) × Adds (span 21 30) memory out
insert-Adds_example = insert-Adds (span 21 30) memory (omega arith) memory-IsValid (omega arith)

remove_splits :
    remove (span 50 59) memory
    ≡ ok (record memory { ranges = span 10 20 ∷ span 60 99 ∷ span 40 49 ∷ [] })
unfolding remove
remove_splits = refl

remove-Takes_example :
    (out : RangeSet) × (remove (span 15 50) memory ≡ ok out) × Takes (span 15 50) memory out
remove-Takes_example = remove-Takes (span 15 50) memory (omega arith) memory-IsValid (omega arith)

abbrev reserved : RangeSet
reserved = record { capacity = 4; ranges = span 0 12 ∷ span 60 61 ∷ [] }

subtract-Subtracts_example :
    (out : RangeSet) × (subtract reserved memory ≡ ok out) × Subtracts reserved.ranges memory out
subtract-Subtracts_example =
    subtract-Subtracts reserved memory (omega arith) memory-IsValid (omega arith)

allocate_least_padding :
    allocate 8 4 memory ≡ ok (record memory { ranges = span 10 20 ∷ span 48 99 ∷ [] }, some 40)
unfolding allocate remove
allocate_least_padding = refl

allocate_prefer-Allocates_example :
    (out : Allocated) × (allocate_prefer 8 16 (preference reserved) memory ≡ ok out)
    × Allocates 8 16 memory out
allocate_prefer-Allocates_example =
    allocate_prefer-Allocates 8 16 (preference reserved) memory (omega arith) memory-IsValid
      (omega arith)

-- 60 of the addresses from 40 would do.
abbrev with_top : RangeSet
with_top = record { capacity = 4; ranges = span 40 99 ∷ span (u64_max - 7) u64_max ∷ [] }

unheld : ¬ ((i : ℕ) × (e : Range) × (get_elem? memory.ranges i ≡ some e) × Within (span 15 25) e)
unheld (i, e, at, w) = go i at
  where
    go : (i : ℕ) → get_elem? memory.ranges i ≡ some e → ⊥
    go zero at = ground arith
    go (suc zero) at = ground arith
    go (suc (suc i)) at = cc

-- A single address inside an entry is not taken out at all: the two parts are merged again.
remove_if_exist_keeps :
    remove_if_exist (span 50 50) memory
    ≡ ok (record memory { ranges = span 10 20 ∷ span 40 99 ∷ [] }, true)
unfolding remove_if_exist insert
remove_if_exist_keeps = refl

room : Fits 8 4 (span 40 99)
unfolding align_fix
room = omega arith

words : AllInWord 8 4 memory.ranges
unfolding align_fix
words = (omega arith, (omega arith, tt))

power : count_ones 4 ≡ 1
unfolding ones
power = refl

allocate_finds_example :
    (rest : RangeSet) × (ptr : ℕ) × (allocate 8 4 memory ≡ ok (rest, some ptr))
    × Allocates 8 4 memory (rest, some ptr)
allocate_finds_example =
    allocate_finds 8 4 1 memory (span 40 99) (omega arith) (omega arith) power memory-IsValid
      (omega arith) words refl (omega arith) room
