-- ===== src/BlockDevice/Lba.antt =====
-- libs/block-device/src/structs.rs: `LBA`, a number below `u64::MAX`. Integer overflow panics, as in
-- the kernel's debug builds.
use wasabi_os.Prelude.{
  ℕ, ◌+◌, ◌-◌, ◌*◌, ◌/◌, Option, none, some, leb, ◌==◌, not, if◌then◌else◌, Outcome, ok, ◌>>◌,
  assert, u64_max, ◌≡◌, arith, ◌≤◌, ◌<◌,
}

unfoldable pub new : ℕ → Option ℕ
new addr = if addr == u64_max then none else some addr

unfoldable pub from_byte_offset : ℕ → ℕ → Option ℕ
unfolding new
from_byte_offset block_size offset = new (offset / block_size)

unfoldable pub to_byte_offset : ℕ → ℕ → Outcome ℕ
to_byte_offset block_size lba = do assert (leb (lba * block_size) u64_max); ok (lba * block_size)

-- `LBA + u64`: the sum must be an LBA again.
unfoldable pub add : ℕ → ℕ → Outcome ℕ
add lba n = do assert (leb (lba + n) u64_max); assert (not (lba + n == u64_max)); ok (lba + n)

-- `LBA - LBA`
unfoldable pub distance : ℕ → ℕ → Outcome ℕ
distance a b = do assert (leb b a); ok (a - b)

-- `LBA - u64`
unfoldable pub sub : ℕ → ℕ → Outcome ℕ
sub lba n = do assert (leb n lba); ok (lba - n)

pub add_lem : (lba n : ℕ) → lba + n < u64_max → add lba n ≡ ok (lba + n)
unfolding add
add_lem lba n h = ground arith

pub sub_lem : (lba n : ℕ) → n ≤ lba → sub lba n ≡ ok (lba - n)
unfolding sub
sub_lem lba n h = ground arith

pub distance_lem : (a b : ℕ) → b ≤ a → distance a b ≡ ok (a - b)
unfolding distance
distance_lem a b h = ground arith
