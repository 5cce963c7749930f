-- ===== src/Hub/Masks.antt =====
-- components/vitohome/__init__.py: bit masks of fields inside one byte.
pub mod Runs
use Prim.Native.Nat.{bit_and}
use esphome_vitohome.Common.{
  ℕ, zero, suc, ◌+◌, ◌-◌, ◌*◌, ◌/◌, ◌^◌, ◌≤◌, ◌<◌, ◌≡◌, refl, Bool, true, false, ◌&&◌, Option, none,
  some, arith, leb, ltb, ◌==◌, if◌then◌else◌, all_below, all_below-at, lowest_bit,
}
use esphome_vitohome.Hub.Invalid.{Result, ok, invalid, empty_mask, gapped_mask}

-- `_contiguous_bit_mask`; the schema has made the value a byte (`hex_uint8_t`).
unfoldable pub contiguous_bit_mask : ℕ → Result ℕ
contiguous_bit_mask value =
    if value == 0
    then invalid empty_mask
    else if bit_and (value + lowest_bit value) value == 0
    then ok value
    else invalid (gapped_mask value)

-- `int.bit_length` of a byte: the number of binary digits.
abbrev bit_length_from : ℕ → ℕ → ℕ
bit_length_from zero n = 0
bit_length_from (suc fuel) n =
    let rest = suc (bit_length_from fuel (n / 2)) in if n == 0 then 0 else rest

abbrev pub bit_length : ℕ → ℕ
bit_length n = bit_length_from 9 n

-- `bit_field_max`: mask >> (bit_length of the lowest bit - 1)
unfoldable pub bit_field_max : ℕ → ℕ
bit_field_max mask = mask / 2 ^ (bit_length (lowest_bit mask) - 1)

-- `width` bits from bit `shift` on.
abbrev pub run_mask : ℕ → ℕ → ℕ
run_mask shift width = (2 ^ width - 1) * 2 ^ shift
