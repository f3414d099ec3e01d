-- ===== src/WrappingValue.antt =====
-- libs/shared/src/math/mod_group.rs: `WrappingValue`, over an unsigned type of `bits` bits.
mod Tests
use native.Mathlib.Nat.{add-mul-mod_self_right}
use wasabi_os.Prelude.{
  ℕ, ◌+◌, ◌*◌, sym, ◌∙◌, ap, ◌-◌, ◌%◌, ◌^◌, ◌≤◌, ◌<◌, ◌≡◌, refl, false, Option, none, some,
  Bool-cases, inl, inr, leb, ltb, ◌==◌, if◌then◌else◌, Outcome, ok, panic, ◌>>=◌, expect, arith,
}

pub record WrappingValue : Type 0 where
  pub value : ℕ
  pub modulo : ℕ

abbrev pub zero_value : ℕ → WrappingValue
zero_value modulo = record { value = 0; modulo = modulo }

abbrev pub new : ℕ → ℕ → WrappingValue
new value modulo = record { value = value; modulo = modulo }

-- `modulo - T::ONE`, which panics where it leaves the type.
unfoldable pub max_value : WrappingValue → Outcome ℕ
max_value v = if v.modulo == 0 then panic else ok (v.modulo - 1)

abbrev pub checked_sum : ℕ → ℕ → ℕ → Option ℕ
checked_sum bits a b = if ltb (a + b) (2 ^ bits) then some (a + b) else none

abbrev pub checked_sub : ℕ → ℕ → Option ℕ
checked_sub a b = if leb b a then some (a - b) else none

-- `%`, which panics on a divisor of zero.
abbrev pub rem : ℕ → ℕ → Outcome ℕ
rem a m = if m == 0 then panic else ok (a % m)

-- The sum without its carry: what `rhs` goes beyond the end of the group.
abbrev pub wrapped : ℕ → WrappingValue → Outcome ℕ
wrapped rhs v = do
  left ← expect (checked_sub v.modulo v.value)
  over ← expect (checked_sub rhs left)
  rem over v.modulo

unfoldable pub add : ℕ → WrappingValue → ℕ → Outcome WrappingValue
add bits v rhs = do
  value ← elim (checked_sum bits v.value rhs) [ some sum ↦ rem sum v.modulo | none ↦ wrapped rhs v ]
  ok (record { value = value; modulo = v.modulo })

-- One turn of the group does not change the remainder.
mod_turn : (a m : ℕ) → m ≤ a → (a - m) % m ≡ a % m
mod_turn a m h = sym (add-mul-mod_self_right (a - m) 1 m) ∙ ap (λ n. n % m) (omega arith)

-- For a value below a modulo that its type can hold, adding any number gives the remainder of the
-- sum and never panics, also where the sum itself leaves the type.
pub add_mod :
    (bits : ℕ) (v : WrappingValue) (rhs : ℕ)
    → v.value < v.modulo
    → v.modulo < 2 ^ bits
    → add bits v rhs ≡ ok (new ((v.value + rhs) % v.modulo) v.modulo)
unfolding add
add_mod bits v rhs below word = elim (Bool-cases (ltb (v.value + rhs) (2 ^ bits))) [
  | inl fits ↦ rw (fits) (ground arith)
  | inr over ↦
      let left : checked_sub v.modulo v.value ≡ some (v.modulo - v.value) = ground arith in
      let past : checked_sub rhs (v.modulo - v.value) ≡ some (rhs - (v.modulo - v.value)) =
        ground arith in
      let turn : (v.value + rhs - v.modulo) % v.modulo ≡ (v.value + rhs) % v.modulo =
        mod_turn (v.value + rhs) v.modulo (ground arith) in
      let split : rhs - (v.modulo - v.value) ≡ v.value + rhs - v.modulo = omega arith in
      let some_group : (v.modulo == 0) ≡ false = ground arith in
      rw (over, left, past, some_group, split, turn)
]
