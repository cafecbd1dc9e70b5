-- ===== src/Base/Xor.antt =====
-- Exclusive or on the native numbers: the law for the lowest digit, and that a second exclusive or
-- with the same number undoes the first.
use Prim.Native.Nat.{
  ℕ, zero, suc, ◌+◌, ◌*◌, ◌/◌, ◌%◌, ◌≤◌, ◌<◌, bit_xor, digits, differ, bit_xor-bitwise,
}
use mathlib.Core.Path.{◌≡◌, refl, ◌∙◌}
use native.Mathlib.Omega.{arith}

abbrev xor_digits : ℕ → ℕ → ℕ → ℕ
xor_digits n a b = digits (λ b. b) differ n a b

xor_digits_fuel : (n m a b : ℕ) → a ≤ n → a ≤ m → xor_digits n a b ≡ xor_digits m a b
xor_digits_fuel zero zero a b p q = refl
xor_digits_fuel zero (suc m) zero b p q = refl
xor_digits_fuel zero (suc m) (suc a) b p q = absurd (omega arith)
xor_digits_fuel (suc n) zero zero b p q = refl
xor_digits_fuel (suc n) zero (suc a) b p q = absurd (omega arith)
xor_digits_fuel (suc n) (suc m) zero b p q = refl
xor_digits_fuel (suc n) (suc m) (suc a) b p q =
    omega (arith, xor_digits_fuel n m (suc a / 2) (b / 2) (omega arith) (omega arith))

zero-bit_xor : (b : ℕ) → bit_xor 0 b ≡ b
zero-bit_xor b = bit_xor-bitwise 0 b

zero-differ : (b : ℕ) → differ 0 b ≡ b
zero-differ b = refl

bit_xor_step : (a b : ℕ) → bit_xor a b ≡ bit_xor (a / 2) (b / 2) * 2 + differ (a % 2) (b % 2)
bit_xor_step zero b = omega (arith, zero-bit_xor b, zero-bit_xor (b / 2), zero-differ (b % 2))
bit_xor_step (suc a) b = omega (
  arith,
  bit_xor-bitwise (suc a) b,
  bit_xor-bitwise (suc a / 2) (b / 2),
  xor_digits_fuel a (suc a / 2) (suc a / 2) (b / 2) (omega arith) (omega arith),
)

differ_bits : (x y : ℕ) → x < 2 → y < 2 → (differ x y < 2) × (differ (differ x y) y ≡ x)
differ_bits zero zero p q = (omega arith, refl)
differ_bits zero (suc zero) p q = (omega arith, refl)
differ_bits zero (suc (suc y)) p q = absurd (omega arith)
differ_bits (suc zero) zero p q = (omega arith, refl)
differ_bits (suc zero) (suc zero) p q = (omega arith, refl)
differ_bits (suc zero) (suc (suc y)) p q = absurd (omega arith)
differ_bits (suc (suc x)) y p q = absurd (omega arith)

undo_half :
    (a k : ℕ) → bit_xor (bit_xor (a / 2) (k / 2)) (k / 2) ≡ a / 2 → bit_xor (bit_xor a k) k ≡ a
undo_half a k ih =
    let bits = differ_bits (a % 2) (k % 2) (omega arith) (omega arith) in
    let high : bit_xor a k / 2 ≡ bit_xor (a / 2) (k / 2) =
      omega (arith, bit_xor_step a k, bits.0) in
    let low : bit_xor a k % 2 ≡ differ (a % 2) (k % 2) = omega (arith, bit_xor_step a k, bits.0) in
    bit_xor_step (bit_xor a k) k ∙ rw (high, low) (omega (arith, ih, bits.1))

undo_fuel : (n a k : ℕ) → a + k ≤ n → bit_xor (bit_xor a k) k ≡ a
undo_fuel zero a k h = let a0 : a ≡ 0 = omega arith in let k0 : k ≡ 0 = omega arith in rw (a0, k0)
undo_fuel (suc n) zero zero h = refl
undo_fuel (suc n) a k h = undo_half a k (undo_fuel n (a / 2) (k / 2) (omega arith))

pub bit_xor_undo : (a k : ℕ) → bit_xor (bit_xor a k) k ≡ a
bit_xor_undo a k = undo_fuel (a + k) a k (omega arith)
