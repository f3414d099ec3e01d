-- ===== src/WrappingValue/Tests.antt =====
-- libs/shared/src/math/mod_group.rs: its tests, and the theorem at a concrete value.
use wasabi_os.Prelude.{◌≡◌, refl, ok, ◌>>=◌}
use wasabi_os.WrappingValue.{new, zero_value, add}

test_wrapping :
    (add 8 (zero_value 5) 4 >>= λ a. add 8 a 1 >>= λ b. add 8 b 5 >>= λ c. add 8 c 7) ≡ ok (new 2 5)
unfolding add
test_wrapping = refl

test_wrapping_overflow : (add 8 (new 4 5) 255 >>= λ a. add 8 a 254) ≡ ok (new 3 5)
unfolding add
test_wrapping_overflow = refl
