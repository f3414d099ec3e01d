-- ===== src/BlockDevice/Group.antt =====
-- libs/block-device/src/structs.rs: `BlockGroup`, a run of contiguous blocks.
pub mod Subgroups
use wasabi_os.Prelude.{
  ℕ, ◌+◌, ◌-◌, ◌*◌, Bool, true, false, Option, none, some, ltb, leb, if◌then◌else◌, Outcome, ok,
  ◌>>=◌, ◌>>◌, assert, map_ok, u64_max, ◌≡◌, refl, arith, ◌≤◌, ◌<◌,
}
use wasabi_os.BlockDevice.Lba

-- `count` is a `NonZeroU64`.
pub record BlockGroup : Type 0 where
  pub start : ℕ
  pub count : ℕ

-- From the first and the last block.
unfoldable pub new : ℕ → ℕ → Outcome BlockGroup
new start end = do
  assert (leb start (end + 1))
  assert (ltb 0 (end + 1 - start))
  ok (record { start = start; count = end + 1 - start })

abbrev pub single : ℕ → BlockGroup
single block = record { start = block; count = 1 }

-- The last block.
unfoldable pub end : BlockGroup → Outcome ℕ
end g = do past ← Lba.add g.start g.count; Lba.sub past 1

unfoldable pub bytes : ℕ → BlockGroup → Outcome ℕ
bytes block_size g = do assert (leb (g.count * block_size) u64_max); ok (g.count * block_size)

unfoldable pub contains : ℕ → BlockGroup → Outcome Bool
contains lba g = if leb g.start lba then (do last ← end g; ok (leb lba last)) else ok false

pub subgroup : ℕ → BlockGroup → Outcome (Option BlockGroup)
unfolding new end
subgroup offset g =
    if ltb offset g.count
    then (do first ← Lba.add g.start offset; last ← end g; map_ok some (new first last))
    else ok none

pub remove_end : ℕ → BlockGroup → Outcome (Option BlockGroup)
unfolding new end
remove_end blocks g =
    if ltb blocks g.count
    then (do last ← end g; cut ← Lba.sub last blocks; map_ok some (new g.start cut))
    else ok none

pub with_new_length : ℕ → BlockGroup → Outcome (Option BlockGroup)
unfolding remove_end
with_new_length length g = do assert (leb length g.count); remove_end (g.count - length) g

-- The blocks of a group are addresses, and so is the one behind it: `end` computes it.
abbrev pub IsGroup : BlockGroup → Type 0
IsGroup g = (1 ≤ g.count) × (g.start + g.count < u64_max)

pub end_lem : (g : BlockGroup) → IsGroup g → end g ≡ ok (g.start + g.count - 1)
unfolding end Lba.add Lba.sub
end_lem g p = ground arith

pub contains_lem :
    (lba : ℕ) (g : BlockGroup)
    → IsGroup g
    → contains lba g ≡ ok (if leb g.start lba then ltb lba (g.start + g.count) else false)
unfolding contains end Lba.add Lba.sub
contains_lem lba g p = ground arith

pub new_lem :
    (start end : ℕ)
    → start ≤ end
    → new start end ≡ ok (record { start = start; count = end + 1 - start })
unfolding new
new_lem start end h = ground arith
