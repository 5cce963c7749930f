-- ===== src/Catalog/Bits/Fields.antt =====
-- A field that the generator finds is one that the component accepts in `bit_mask`.
use esphome_vitohome.Common.{
  ℕ, ◌+◌, ◌-◌, ◌*◌, ◌/◌, ◌%◌, ◌^◌, ◌≤◌, ◌≡◌, refl, Bool, true, false, ◌&&◌, Option, none, some,
  arith, ℤ, pos, negsuc, leb, if◌then◌else◌,
}
use esphome_vitohome.Catalog.{Event, int_or}
use esphome_vitohome.Catalog.Bits.{byte_of, bit_of, BitField, field_at, bit_field}
use esphome_vitohome.Hub.Invalid.{ok}
use esphome_vitohome.Hub.Masks.{contiguous_bit_mask, bit_field_max}
use esphome_vitohome.Hub.Masks.Runs.{bit_field_max-run}

-- Bit `i` of byte `q`, counted from the most significant bit of byte 0.
abbrev pub bit_at : ℤ → ℕ → ℤ
bit_at (pos q) i = pos (8 * q + i)
bit_at (negsuc q) i = negsuc (8 * q + (7 - i))

abbrev pub InByte : ℤ → ℕ → Type 0
InByte position width = (1 ≤ width) × (bit_of position + width ≤ 8)

-- The field starts at the position, the component accepts its mask, and it holds all its values.
abbrev pub BitSpec : ℤ → ℤ → Option BitField → Type 0
BitSpec position length none = ¬ ((width : ℕ) × (length ≡ pos width) × InByte position width)
BitSpec position length (some f) =
    (width : ℕ) × (length ≡ pos width)
    × InByte position width
    × (bit_at f.byte_offset (8 - f.shift - width) ≡ position)
    × (contiguous_bit_mask (f.mask * 2 ^ f.shift) ≡ ok (f.mask * 2 ^ f.shift))
    × (bit_field_max (f.mask * 2 ^ f.shift) ≡ f.mask)

bit_at_of :
    (position : ℤ) (width : ℕ)
    → InByte position width
    → bit_at (byte_of position) (8 - (8 - bit_of position - width) - width) ≡ position
bit_at_of (pos n) width (some_bit, fits) =
    (let e : 8 * (n / 8) + (8 - (8 - n % 8 - width) - width) ≡ n = omega arith in rw e refl)
bit_at_of (negsuc n) width (some_bit, fits) =
    (let e : 8 * (n / 8) + (7 - (8 - (8 - (7 - n % 8) - width) - width)) ≡ n = omega arith in
      rw e refl)

field_at_lem : (position length : ℤ) → BitSpec position length (field_at position length)
field_at_lem position (negsuc n) = λ h. (let (width, e, rest) = h in cc)
field_at_lem position (pos width) =
    go (leb 1 width && leb width 8 && leb (bit_of position + width) 8) refl
  where
    go :
        (b : Bool)
        → (leb 1 width && leb width 8 && leb (bit_of position + width) 8) ≡ b
        → BitSpec position (pos width) (
            if b
            then some (record {
              byte_offset = byte_of position;
              shift = 8 - bit_of position - width;
              mask = 2 ^ width - 1;
            })
            else none)
    go false e = λ h.
        (let (w, same, (some_bit, fits)) = h in
          let q : width ≡ w = cc in
          let r : 1 ≤ width = rw q some_bit in
          let t : bit_of position + width ≤ 8 = rw q fits in ground arith)
    go true e =
        let some_bit : 1 ≤ width = ground arith in
        let fits : bit_of position + width ≤ 8 = ground arith in
        let (accepted, largest) =
          bit_field_max-run (8 - bit_of position - width) width some_bit (omega arith) in
        (
          width,
          refl,
          (some_bit, fits),
          bit_at_of position width (some_bit, fits),
          accepted,
          largest,
        )

-- The bits of a field are found where it fits in one byte, and only there: it then starts at the
-- position, its mask is one that the component accepts, and the largest value is that of its bits.
pub bit_field_lem :
    (ev : Event)
    → BitSpec (int_or ev.bit_position (pos 0)) (int_or ev.bit_length (pos 0)) (bit_field ev)
unfolding bit_field
bit_field_lem ev = field_at_lem (int_or ev.bit_position (pos 0)) (int_or ev.bit_length (pos 0))
