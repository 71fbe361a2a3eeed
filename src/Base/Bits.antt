-- ===== src/Base/Bits.antt =====
-- Tests of flag bits: `a & m`, read as a condition.
use Prim.Native.Nat.{ℕ, zero, suc, min, bit_and, bit_and-bitwise, digits}
use Prim.Native.Nat.{◌/◌}
use mathlib.Core.Path.{◌≡◌, refl, ◌∙◌}
use native.Mathlib.Omega.{arith}
use mathlib.Core.Bool.{Bool}
use udm.Base.Tests.{ltb}

-- `if (a & m)`.
unfoldable pub has_bits : ℕ → ℕ → Bool
has_bits a m = ltb 0 (bit_and a m)

digits-zero : (n a : ℕ) → digits (λ b. zero) min n a 0 ≡ 0
digits-zero zero a = refl
digits-zero (suc n) zero = refl
digits-zero (suc n) (suc a) =
    let ih : digits (λ b. zero) min n (suc a / 2) 0 ≡ 0 = digits-zero n (suc a / 2) in
    rw ih (omega arith)

pub bit_and-zero : (a : ℕ) → bit_and a 0 ≡ 0
bit_and-zero a = bit_and-bitwise a 0 ∙ digits-zero a a
