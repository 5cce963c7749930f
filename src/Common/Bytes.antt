-- ===== src/Common/Bytes.antt =====
-- Facts about all bytes by evaluation, and the two's complement bits of a byte.
use Prim.Native.Nat.{ℕ, zero, suc, ◌-◌, ◌<◌, bit_and}
use mathlib.Core.Path.{◌≡◌}
use mathlib.Core.Bool.{Bool, true, ◌&&◌}
use native.Mathlib.Omega.{arith}

abbrev pub all_below : ℕ → (ℕ → Bool) → Bool
all_below zero p = true
all_below (suc n) p = p n && all_below n p

pub all_below-at : (n : ℕ) (p : ℕ → Bool) (x : ℕ) → all_below n p ≡ true → x < n → p x ≡ true
all_below-at zero p x h lt = absurd (omega arith)
all_below-at (suc n) p x h lt = ground (arith, all_below-at n p x)

-- `v & -v` for a byte `v`: the negative number's two's complement ends in the byte 256 - v.
abbrev pub lowest_bit : ℕ → ℕ
lowest_bit v = bit_and v (256 - v)
