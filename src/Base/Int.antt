-- ===== src/Base/Int.antt =====
-- Signed integers over the native numbers, as far as port numbers need them: an order test, and the
-- integer before a given one.
use reach.Base.Tests.{ltb, ◌==◌}
use reach.Base.Strings.{Text, decimal}
use mathlib.Core.List.{◌∷◌}
use Prim.Native.Nat.{ℕ, suc}
use mathlib.Core.Path.{◌≡◌}
use mathlib.Core.Logic.{◌↔◌}
use mathlib.Core.Bool.{Bool, true, false}
use native.Mathlib.Omega.{arith}

-- `negsuc n` is -(n + 1).
pub data ℤ : Type 0 where
  pos : ℕ → ℤ
  negsuc : ℕ → ℤ

unfoldable pub same_ℤ : ℤ → ℤ → Bool
same_ℤ (pos a) (pos b) = a == b
same_ℤ (negsuc a) (negsuc b) = a == b
same_ℤ _ _ = false

pub same_ℤ_iff : (a b : ℤ) → (same_ℤ a b ≡ true) ↔ (a ≡ b)
unfolding same_ℤ
same_ℤ_iff (pos a) (pos b) = ground arith
same_ℤ_iff _ _ = ground arith

-- `0 < a`
unfoldable pub is_positive : ℤ → Bool
is_positive (pos a) = ltb 0 a
is_positive (negsuc a) = false

-- `a < 0`
unfoldable pub is_negative : ℤ → Bool
is_negative (pos a) = false
is_negative (negsuc a) = true

-- An integer in decimal, as `%d` prints it.
unfoldable pub decimal_ℤ : ℤ → Text
unfolding decimal
decimal_ℤ (pos a) = decimal a
decimal_ℤ (negsuc a) = b'-' ∷ decimal (suc a)
