-- ===== src/Readers.antt =====
-- components/vitohome/sensor.py, binary_sensor.py, text_sensor.py, event.py: the validators of the
-- platforms that only read, each chain in the order of the platform's schema.
pub mod Accepted
pub mod Strings
use esphome_vitohome.Common.{
  ℕ, ◌+◌, ◌%◌, String, Bool, true, false, not, ◌&&◌, ◌||◌, Option, none, some, List, [], ◌∷◌, map,
  ℤ, leb, ltb, ◌==◌, if◌then◌else◌,
}
use esphome_vitohome.Hub.Invalid.{
  Result, ok, invalid, ◌>>=◌, ◌>>◌, byte_length_needs_offset, field_outside_block,
  block_read_length, length_not_between, big_endian_extraction, converter_width, byte_outside_block,
  byte_length_required, field_too_wide, odd_field, no_codes,
}
use esphome_vitohome.Hub.Fields.{
  Config, given, or_one, contains, guard, max_p300_read_length, validate_bit_field,
  validate_bit_field_values, validate_fault_codes,
}
use esphome_vitohome.Hub.Converters.{Converter, lengths, big_endian, validate_converter_length}

-- sensor.py `_validate_byte_offset`
unfoldable pub validate_byte_offset : Config → Result Config
validate_byte_offset c = elim c.byte_offset [
  | none ↦ guard (not (given c.byte_length)) (invalid byte_length_needs_offset) >> ok c
  | some offset ↦
      guard (leb (offset + or_one c.byte_length) c.length)
        (invalid (field_outside_block offset (or_one c.byte_length) c.length))
      >> ok c
]

-- sensor.py `_validate_length`
unfoldable pub validate_length : Config → Result Config
validate_length c = elim c.byte_offset [
  | none ↦
      guard (leb 1 c.length && leb c.length 4) (invalid (length_not_between 1 4 c.length)) >> ok c
  | some _ ↦
      guard (leb 1 c.length && leb c.length max_p300_read_length)
        (invalid (block_read_length c.length))
      >> ok c
]

-- sensor.py `_validate_converter_length_effective`
abbrev pub extracted_converter : Converter → Config → Result Config
extracted_converter name c = do
  guard (not (big_endian name)) (invalid big_endian_extraction)
  guard (contains (lengths name) (or_one c.byte_length))
      (invalid (converter_width (or_one c.byte_length)))
  ok c

unfoldable pub validate_converter_length_effective : Converter → Config → Result Config
unfolding validate_converter_length
validate_converter_length_effective name c = elim c.byte_offset [
  | none ↦ validate_converter_length name c
  | some _ ↦ extracted_converter name c
]

unfoldable pub validate_sensor : Converter → Config → Result Config
validate_sensor name c = do
  c₁ ← validate_length c
  c₂ ← validate_converter_length_effective name c₁
  c₃ ← validate_byte_offset c₂
  validate_bit_field false c₃

-- binary_sensor.py: `_validate_length`, then `_validate_offset_within_length`; the schema's default
-- of `byte_offset` is 0.
abbrev pub offset_or_zero : Option ℕ → ℕ
offset_or_zero none = 0
offset_or_zero (some n) = n

unfoldable pub validate_binary_sensor : Config → Result Config
validate_binary_sensor c = do
  guard (leb 1 c.length && leb c.length max_p300_read_length) (invalid (block_read_length c.length))
  guard (ltb (offset_or_zero c.byte_offset) c.length)
      (invalid (byte_outside_block (offset_or_zero c.byte_offset) c.length))
  ok c

-- text_sensor.py `_validate_string_extraction(field_max, even)`
abbrev pub string_block : ℕ → Bool → ℕ → ℕ → Config → Result Config
string_block field_max even offset width c = do
  guard (leb 1 c.length && leb c.length max_p300_read_length) (invalid (block_read_length c.length))
  guard (leb (offset + width) c.length) (invalid (field_outside_block offset width c.length))
  guard (leb width field_max) (invalid (field_too_wide width))
  guard (not (even && not (width % 2 == 0))) (invalid (odd_field width))
  ok c

abbrev pub string_field : ℕ → Config → Result Config
string_field field_max c = do
  guard (not (given c.byte_length)) (invalid byte_length_needs_offset)
  guard (leb 1 c.length && leb c.length field_max)
      (invalid (length_not_between 1 field_max c.length))
  ok c

abbrev pub string_at : ℕ → Bool → ℕ → Option ℕ → Config → Result Config
string_at field_max even offset none c = invalid byte_length_required
string_at field_max even offset (some width) c = string_block field_max even offset width c

unfoldable pub validate_string_extraction : ℕ → Bool → Config → Result Config
validate_string_extraction field_max even c = elim c.byte_offset [
  | none ↦ string_field field_max c
  | some offset ↦ string_at field_max even offset c.byte_length c
]

-- text_sensor.py `_validate_enum_extraction`
abbrev pub enum_block : ℕ → Config → Result Config
enum_block offset c = do
  guard (leb 1 c.length && leb c.length max_p300_read_length) (invalid (block_read_length c.length))
  guard (leb (offset + or_one c.byte_length) c.length)
      (invalid (field_outside_block offset (or_one c.byte_length) c.length))
  ok c

unfoldable pub validate_enum_extraction : Config → Result Config
validate_enum_extraction c = elim c.byte_offset [
  | none ↦ string_field 4 c
  | some offset ↦ enum_block offset c
]

-- text_sensor.py, `type: enum`
unfoldable pub validate_enum : List (ℤ × String) → Config → Result Config
validate_enum options c = do
  c₁ ← validate_enum_extraction c
  c₂ ← validate_bit_field false c₁
  validate_bit_field_values c₂ (map (λ p. p.0) options)

-- event.py `_validate_codes`
abbrev pub some_code : List ℤ → Result (Unit {0})
some_code [] = invalid no_codes
some_code (_ ∷ _) = ok tt

unfoldable pub validate_codes : List ℤ → Result (Unit {0})
unfolding validate_fault_codes
validate_codes codes = validate_fault_codes codes >> some_code codes
