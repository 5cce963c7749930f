-- ===== src/Catalog/Bits.antt =====
-- scripts/vitocatalog/transforms.py `_bit_field`: where a field of at most 8 bits lies.
pub mod Fields
use esphome_vitohome.Common.{
  ℕ, ◌+◌, ◌-◌, ◌*◌, ◌/◌, ◌%◌, ◌^◌, Bool, ◌&&◌, Option, none, some, ℤ, pos, negsuc, leb,
  if◌then◌else◌,
}
use esphome_vitohome.Catalog.{Event, int_or}

-- `position // 8` and `position % 8` of a Python integer.
abbrev pub byte_of : ℤ → ℤ
byte_of (pos n) = pos (n / 8)
byte_of (negsuc n) = negsuc (n / 8)

abbrev pub bit_of : ℤ → ℕ
bit_of (pos n) = n % 8
bit_of (negsuc n) = 7 - n % 8

pub record BitField : Type 0 where
  pub byte_offset : ℤ
  pub shift : ℕ
  pub mask : ℕ

abbrev pub field_at : ℤ → ℤ → Option BitField
field_at position (negsuc _) = none
field_at position (pos width) =
    if leb 1 width && leb width 8 && leb (bit_of position + width) 8
    then some (record {
      byte_offset = byte_of position;
      shift = 8 - bit_of position - width;
      mask = 2 ^ width - 1;
    })
    else none

unfoldable pub bit_field : Event → Option BitField
bit_field ev = field_at (int_or ev.bit_position (pos 0)) (int_or ev.bit_length (pos 0))
