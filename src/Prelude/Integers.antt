-- ===== src/Prelude/Integers.antt =====
-- `i64` values: `pos k` is `k`, and `negsuc k` is `-(k + 1)`. The arithmetic wraps around.
use Prim.Native.Nat.{ℕ, zero, suc, ◌+◌}
use mathlib.Core.Path.{◌≡◌, ap}
use mathlib.Core.Bool.{Bool, true, false}
use wasabi_os.Prelude.Tests.{◌==◌, ==→≡, if◌then◌else◌}

pub data ℤ : Type 0 where
  pos : ℕ → ℤ
  negsuc : ℕ → ℤ

abbrev pub i64_max : ℕ
i64_max = 0x7fff_ffff_ffff_ffff

abbrev pub wrapping_inc : ℤ → ℤ
wrapping_inc (pos k) = if k == i64_max then negsuc i64_max else pos (k + 1)
wrapping_inc (negsuc zero) = pos 0
wrapping_inc (negsuc (suc k)) = negsuc k

abbrev pub wrapping_dec : ℤ → ℤ
wrapping_dec (pos zero) = negsuc 0
wrapping_dec (pos (suc k)) = pos k
wrapping_dec (negsuc k) = if k == i64_max then pos i64_max else negsuc (k + 1)

-- The value is below 0.
abbrev pub is_negative : ℤ → Bool
is_negative (pos _) = false
is_negative (negsuc _) = true

-- The value is above 0.
abbrev pub is_positive : ℤ → Bool
is_positive (pos (suc _)) = true
is_positive _ = false

infix 50 ◌=ℤ=◌
abbrev pub ◌=ℤ=◌ : ℤ → ℤ → Bool
pos a =ℤ= pos b = a == b
negsuc a =ℤ= negsuc b = a == b
_ =ℤ= _ = false

pub =ℤ=→≡ : (a b : ℤ) → (a =ℤ= b) ≡ true → a ≡ b
=ℤ=→≡ (pos a) (pos b) h = ap pos (==→≡ a b h)
=ℤ=→≡ (negsuc a) (negsuc b) h = ap negsuc (==→≡ a b h)
=ℤ=→≡ (pos a) (negsuc b) h = cc
=ℤ=→≡ (negsuc a) (pos b) h = cc
