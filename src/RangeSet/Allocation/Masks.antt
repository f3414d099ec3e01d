-- ===== src/RangeSet/Allocation/Masks.antt =====
-- libs/shared/src/rangeset.rs: what the alignment masks of `allocate_prefer` compute. The native
-- `bit_and` has laws by its digits only, so both masks are read off its recursion on digits.
use Prim.Native.Nat.{
  ℕ, zero, suc, ◌+◌, ◌-◌, ◌*◌, ◌/◌, ◌%◌, ◌^◌, ◌≤◌, ◌<◌, min, bit_and, digits, bit_and-bitwise,
}
use native.Mathlib.Nat.{
  pow-suc, div-add-mod, mod-lt, mod-le, mod-eq_of_lt, add-mul-mod_self_left, le_refl,
}
use wasabi_os.Prelude.{◌≡◌, refl, arith, ◌∙◌, ap, inl, inr, Bool-cases, ◌==◌}
use wasabi_os.RangeSet.Allocation.{ones}

pub pow_pos : (k : ℕ) → 0 < 2 ^ k
pow_pos zero = omega arith
pow_pos (suc k) = omega (arith, pow-suc 2 k, pow_pos k)

mod_double : (a p : ℕ) → 0 < p → a % (p * 2) ≡ a / 2 % p * 2 + a % 2
mod_double a p h =
    let e : a ≡ a / 2 % p * 2 + a % 2 + p * 2 * (a / 2 / p) =
      omega (arith, div-add-mod (a / 2) p) in
    ap (λ (t : ℕ). t % (p * 2)) e
    ∙ add-mul-mod_self_left (a / 2 % p * 2 + a % 2) (p * 2) (a / 2 / p)
    ∙ mod-eq_of_lt (omega (arith, mod-lt (a / 2) h))

-- The recursion that `bit_and` stands for, on `n` digits at most.
abbrev anded : ℕ → ℕ → ℕ → ℕ
anded n x m = digits (λ _. 0) min n x m

anded-zero : (n x : ℕ) → x ≤ n → anded n x 0 ≡ 0
anded-zero zero zero h = refl
anded-zero (suc n) zero h = refl
anded-zero zero (suc x) h = absurd (omega arith)
anded-zero (suc n) (suc x) h = omega (arith, anded-zero n (suc x / 2) (omega arith))

anded-mask : (k n x : ℕ) → x ≤ n → anded n x (2 ^ k - 1) ≡ x % 2 ^ k
anded-mask zero n x h = omega (arith, anded-zero n x h)
anded-mask (suc k) zero zero h = omega (arith, mod-le 0 (2 ^ suc k))
anded-mask (suc k) zero (suc x) h = absurd (omega arith)
anded-mask (suc k) (suc n) zero h = omega (arith, mod-le 0 (2 ^ suc k))
anded-mask (suc k) (suc n) (suc x) h =
    let double = pow-suc 2 k in
    let pos = pow_pos k in
    let e : (2 ^ suc k - 1) / 2 ≡ 2 ^ k - 1 = omega arith in
    let ih : anded n (suc x / 2) ((2 ^ suc k - 1) / 2) ≡ suc x / 2 % 2 ^ k =
      ap (anded n (suc x / 2)) e ∙ anded-mask k n (suc x / 2) (omega arith) in
    let m : suc x % 2 ^ suc k ≡ suc x / 2 % 2 ^ k * 2 + suc x % 2 =
      ap (λ (t : ℕ). suc x % t) double ∙ mod_double (suc x) (2 ^ k) pos in
    omega arith

-- In words of `w` digits.
anded-not_mask :
    (w k n x : ℕ) → x ≤ n → k ≤ w → x < 2 ^ w → anded n x (2 ^ w - 2 ^ k) ≡ x - x % 2 ^ k
anded-not_mask w zero n x h le lt = anded-mask w n x h ∙ mod-eq_of_lt lt ∙ omega arith
anded-not_mask zero (suc k) n x h le lt = absurd (omega arith)
anded-not_mask (suc w) (suc k) zero zero h le lt = omega (arith, mod-le 0 (2 ^ suc k))
anded-not_mask (suc w) (suc k) zero (suc x) h le lt = absurd (omega arith)
anded-not_mask (suc w) (suc k) (suc n) zero h le lt = omega (arith, mod-le 0 (2 ^ suc k))
anded-not_mask (suc w) (suc k) (suc n) (suc x) h le lt =
    let double = pow-suc 2 k in
    let double' = pow-suc 2 w in
    let e : (2 ^ suc w - 2 ^ suc k) / 2 ≡ 2 ^ w - 2 ^ k = omega arith in
    let ih : anded n (suc x / 2) ((2 ^ suc w - 2 ^ suc k) / 2) ≡ suc x / 2 - suc x / 2 % 2 ^ k =
      ap (anded n (suc x / 2)) e
      ∙ anded-not_mask w k n (suc x / 2) (omega arith) (omega arith) (omega arith) in
    let m : suc x % 2 ^ suc k ≡ suc x / 2 % 2 ^ k * 2 + suc x % 2 =
      ap (λ (t : ℕ). suc x % t) double ∙ mod_double (suc x) (2 ^ k) (pow_pos k) in
    omega (arith, mod-le (suc x / 2) (2 ^ k))

-- `x & mask` is the remainder by the alignment.
pub bit_and-mask : (k x : ℕ) → bit_and x (2 ^ k - 1) ≡ x % 2 ^ k
bit_and-mask k x = bit_and-bitwise x (2 ^ k - 1) ∙ anded-mask k x x (le_refl x)

-- `x & !mask` rounds down to the alignment.
pub bit_and-not_mask : (w k x : ℕ) → k ≤ w → x < 2 ^ w → bit_and x (2 ^ w - 2 ^ k) ≡ x - x % 2 ^ k
bit_and-not_mask w k x le lt =
    bit_and-bitwise x (2 ^ w - 2 ^ k) ∙ anded-not_mask w k x x (le_refl x) le lt

ones-zero : (n x : ℕ) → x < 2 ^ n → ones n x ≡ 0 → x ≡ 0
unfolding ones
ones-zero zero x h e = omega arith
ones-zero (suc n) x h e =
    omega (arith, pow-suc 2 n, ones-zero n (x / 2) (omega (arith, pow-suc 2 n)) (omega arith))

-- A word with a single one is a power of two.
pub ones-one : (n x : ℕ) → x < 2 ^ n → ones n x ≡ 1 → (k : ℕ) × (x ≡ 2 ^ k) × (k < n)
unfolding ones
ones-one zero x h e = absurd (omega arith)
ones-one (suc n) x h e = elim (Bool-cases (x % 2 == 1)) [
  | inl odd ↦
      let half = ones-zero n (x / 2) (omega (arith, pow-suc 2 n)) (ground arith) in
      (0, ground arith, omega arith)
  | inr even ↦
      let (k, half, lt) = ones-one n (x / 2) (omega (arith, pow-suc 2 n)) (ground arith) in
      (suc k, ground (arith, pow-suc 2 k), omega arith)
]
