-- ===== src/Prelude/Words.antt =====
-- 64-bit unsigned arithmetic: the checked, saturating and wrapping forms of the sources.
use Prim.Native.Nat.{ℕ, ◌+◌, ◌%◌, ◌^◌, min}
use mathlib.Core.Option.{Option, none, some}
use wasabi_os.Prelude.Tests.{leb, if◌then◌else◌}

abbrev pub u64_max : ℕ
u64_max = 0xffff_ffff_ffff_ffff

abbrev pub checked_add : ℕ → ℕ → Option ℕ
checked_add a b = if leb (a + b) u64_max then some (a + b) else none

abbrev pub saturating_add : ℕ → ℕ → ℕ
saturating_add a b = min (a + b) u64_max

abbrev pub wrapping_add : ℕ → ℕ → ℕ
wrapping_add a b = (a + b) % 2 ^ 64
