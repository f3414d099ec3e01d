-- ===== src/BlockDevice/Group/Subgroups.antt =====
-- libs/block-device/src/structs.rs: the parts that `subgroup`, `remove_end` and `with_new_length`
-- cut from a group.
use wasabi_os.Prelude.{ℕ, ◌+◌, ◌-◌, ◌≤◌, ◌<◌, none, some, ok, ◌≡◌, refl, arith}
use wasabi_os.BlockDevice.Lba
use wasabi_os.BlockDevice.Group
use wasabi_os.BlockDevice.Group.{BlockGroup, IsGroup}

pub subgroup_lem :
    (n : ℕ) (g : BlockGroup)
    → IsGroup g
    → n < g.count
    → Group.subgroup n g ≡ ok (some (record { start = g.start + n; count = g.count - n }))
unfolding Group.subgroup Lba.add Lba.sub
subgroup_lem n g p h = ground arith

remove_end_lem :
    (n : ℕ) (g : BlockGroup)
    → IsGroup g
    → n < g.count
    → Group.remove_end n g ≡ ok (some (record { start = g.start; count = g.count - n }))
unfolding Group.remove_end Lba.add Lba.sub
remove_end_lem n g p h = ground arith

pub with_new_length_lem :
    (n : ℕ) (g : BlockGroup)
    → IsGroup g
    → 0 < n
    → n ≤ g.count
    → Group.with_new_length n g ≡ ok (some (record { start = g.start; count = n }))
unfolding Group.with_new_length
with_new_length_lem n g p pos h = ground (arith, remove_end_lem (g.count - n) g)

pub with_no_length : (g : BlockGroup) → Group.with_new_length 0 g ≡ ok none
unfolding Group.with_new_length Group.remove_end
with_no_length g = ground arith

-- A group is cut at any block inside it: `with_new_length` gives the first part and `subgroup` the
-- rest, which starts where the first part ends, and no block is lost.
pub subgroup-with_new_length :
    (n : ℕ) (g : BlockGroup)
    → IsGroup g
    → 0 < n
    → n < g.count
    → (a b : BlockGroup) × (Group.with_new_length n g ≡ ok (some a))
      × (Group.subgroup n g ≡ ok (some b))
      × (a.start ≡ g.start)
      × (a.count ≡ n)
      × (b.start ≡ a.start + a.count)
      × (a.count + b.count ≡ g.count)
subgroup-with_new_length n g p pos h = (
  record { start = g.start; count = n },
  record { start = g.start + n; count = g.count - n },
  with_new_length_lem n g p pos (omega arith),
  subgroup_lem n g p h,
  refl,
  refl,
  refl,
  omega arith,
)
