-- ===== src/Emitter/Strings.antt =====
-- scripts/vitocatalog/emitter.py: where a field lies in its block, and the string datapoints.
use text.Mathlib.Text.{◌==◌ as str_eq}
use esphome_vitohome.Common.{
  ℕ, Bool, true, false, ◌&&◌, ◌||◌, Option, none, some, String, ℤ, pos, leb_ℤ, ltb_ℤ, eqb_ℤ, ◌+ℤ◌,
  max_ℤ, is_odd, if◌then◌else◌,
}
use esphome_vitohome.Hub.Access.{text_sensor}
use esphome_vitohome.Catalog.{Event, int_or}
use esphome_vitohome.Catalog.Scales.{width_of, in_1_to_4}
use esphome_vitohome.Emitter.{
  TextType, ascii, utf16, EntitySpec, plain_spec, Emitted, comment, entity, ascii_too_long,
  string_block_too_long, utf16_length, block_length_of,
}

-- The local variables of the size of a field: `block_len`, `length`, `field_off`, `field_width`.
pub record Place : Type 0 where
  pub block_len : ℤ
  pub length : ℤ
  pub field_off : ℤ
  pub field_width : ℤ

unfoldable pub place_of : Event → Place
place_of ev = record {
  block_len = block_length_of ev;
  length = width_of ev;
  field_off = int_or ev.byte_position (pos 0);
  field_width = int_or ev.byte_length (block_length_of ev);
}

-- `use_block_extract`
abbrev pub extracts : Place → Bool
extracts p = ltb_ℤ (pos 0) p.field_off && in_1_to_4 p.field_width && leb_ℤ p.block_len (pos 48)

-- `is_string`, and which of the two types.
abbrev pub string_type : String → Option TextType
string_type conversion =
    if str_eq conversion "HexByte2AsciiByte"
    then some ascii
    else if str_eq conversion "HexByte2UTF16Byte"
    then some utf16
    else none

abbrev pub is_zero : ℤ → Bool
is_zero n = eqb_ℤ n (pos 0)

-- `length if length != 1 else None`
abbrev pub unless_one : ℤ → Option ℤ
unless_one n = if eqb_ℤ n (pos 1) then none else some n

abbrev pub is_ascii : TextType → Bool
is_ascii ascii = true
is_ascii _ = false

abbrev pub is_utf16 : TextType → Bool
is_utf16 utf16 = true
is_utf16 _ = false

module _ {Float : Type 0} where
  -- `_string_spec`
  unfoldable pub string_spec : TextType → ℕ → Place → Option (EntitySpec Float)
  string_spec kind addr p =
      let base : EntitySpec Float = record (plain_spec text_sensor addr) {
        platform_type = some kind;
        diagnostic = is_ascii kind;
      } in
      let read_len = max_ℤ p.block_len (p.field_off +ℤ p.length) in
      if is_zero p.field_off
      then some (record base { length = p.length })
      else if ltb_ℤ (pos 48) read_len
      then none
      else some (record base {
        length = read_len;
        byte_offset = some p.field_off;
        byte_length = some p.length;
        disabled_by_default = is_utf16 kind;
      })

  abbrev pub string_result : Option (EntitySpec Float) → Emitted Float
  string_result none = comment string_block_too_long
  string_result (some spec) = entity spec

  -- The branches of the two string conversions.
  abbrev pub string_entity : TextType → ℕ → Place → Emitted Float
  string_entity utf16 addr p =
      if ltb_ℤ (pos 40) p.length || is_odd p.length
      then comment utf16_length
      else string_result (string_spec utf16 addr p)
  string_entity kind addr p =
      if ltb_ℤ (pos 32) p.length
      then comment ascii_too_long
      else string_result (string_spec kind addr p)
