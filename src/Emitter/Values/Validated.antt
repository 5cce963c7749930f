-- ===== src/Emitter/Values/Validated.antt =====
-- The validators of the platforms that only read, on a field that is not masked.
use esphome_vitohome.Common.{
  ℕ, zero, suc, ◌+◌, ◌≤◌, ◌≡◌, refl, Bool, true, false, Option, none, some, List, [], ◌∷◌, arith,
  String, Text, ℤ, pos, ltb, if◌then◌else◌, le→leb,
}
use esphome_vitohome.Hub.Invalid.{ok, >>=-of_ok}
use esphome_vitohome.Hub.Converters.{
  Converter, lengths, big_endian, validate_converter_length, noconv, div2, div10, div100, div1000,
  sec2hour, mult2, mult5, mult10, mult100, rotatebytes,
}
use esphome_vitohome.Hub.Fields.{
  Config, contains, or_one, validate_bit_field, validate_bit_field_values,
}
use esphome_vitohome.Readers.{
  offset_or_zero, validate_byte_offset, validate_length, validate_converter_length_effective,
  validate_sensor, validate_enum_extraction, validate_enum,
}
use esphome_vitohome.Catalog.Options.{enum_read_length, max_value}
use esphome_vitohome.Emitter.Reading.{as_int}
use esphome_vitohome.Emitter.Fields.{or_none}
use esphome_vitohome.Emitter.Fields.Sites.{not_first}
use esphome_vitohome.Emitter.Platforms.{is_big_endian, num_length}
use esphome_vitohome.Emitter.Values.Reads.{read_config}

-- No converter is wider than 4 bytes.
lengths-le_4 : (name : Converter) (w : ℕ) → contains (lengths name) w ≡ true → w ≤ 4
unfolding lengths
lengths-le_4 noconv w h = ground arith
lengths-le_4 div2 w h = ground arith
lengths-le_4 div10 w h = ground arith
lengths-le_4 div100 w h = ground arith
lengths-le_4 div1000 w h = ground arith
lengths-le_4 sec2hour w h = ground arith
lengths-le_4 mult2 w h = ground arith
lengths-le_4 mult5 w h = ground arith
lengths-le_4 mult10 w h = ground arith
lengths-le_4 mult100 w h = ground arith
lengths-le_4 rotatebytes w h = ground arith

pub not_big : (name : Converter) → is_big_endian name ≡ false → big_endian name ≡ false
unfolding big_endian
not_big noconv h = refl
not_big div2 h = refl
not_big div10 h = refl
not_big div100 h = refl
not_big div1000 h = refl
not_big sec2hour h = refl
not_big mult2 h = refl
not_big mult5 h = refl
not_big mult10 h = refl
not_big mult100 h = refl
not_big rotatebytes h = cc

module _ (address : ℕ) (signed : Option Bool) (name : Converter) (width : ℕ) (some_byte : 1 ≤ width)
    (allowed : contains (lengths name) width ≡ true) where
  abbrev own_config : Config
  own_config = read_config address none width none none signed

  pub own-ok : validate_sensor name own_config ≡ ok own_config
  unfolding validate_sensor validate_length validate_converter_length_effective
      validate_converter_length validate_byte_offset validate_bit_field
  own-ok =
      rw (le→leb 1 width some_byte, le→leb width 4 (lengths-le_4 name width allowed), allowed) refl

-- A field inside a block, with a `byte_length` that stands for its width.
module _ (address : ℕ) (signed : Option Bool) (size off width : ℕ) (b : Option ℕ)
    (is_width : or_one b ≡ width) (inside : off + width ≤ size) (low : 1 ≤ size)
    (short : size ≤ 48) where
  abbrev inner_config : Config
  inner_config = read_config address none size (some off) b signed

  inner_length : validate_length inner_config ≡ ok inner_config
  unfolding validate_length
  inner_length = rw (le→leb 1 size low, le→leb size 48 short) refl

  inner_converter :
      (name : Converter)
      → big_endian name ≡ false
      → contains (lengths name) width ≡ true
      → validate_converter_length_effective name inner_config ≡ ok inner_config
  unfolding validate_converter_length_effective
  inner_converter name little allowed = rw (little, is_width, allowed) refl

  inner_offset : validate_byte_offset inner_config ≡ ok inner_config
  unfolding validate_byte_offset
  inner_offset = rw (is_width, le→leb (off + width) size inside) refl

  inner_mask : validate_bit_field false inner_config ≡ ok inner_config
  unfolding validate_bit_field
  inner_mask = refl

  pub inner_sensor :
      (name : Converter)
      → big_endian name ≡ false
      → contains (lengths name) width ≡ true
      → validate_sensor name inner_config ≡ ok inner_config
  unfolding validate_sensor
  inner_sensor name little allowed =
      >>=-of_ok _ inner_length
        (>>=-of_ok _ (inner_converter name little allowed) (>>=-of_ok _ inner_offset inner_mask))

  pub inner_enum :
      (options : List (ℤ × String)) → validate_enum options inner_config ≡ ok inner_config
  unfolding validate_enum validate_enum_extraction validate_bit_field validate_bit_field_values
  inner_enum options =
      rw (le→leb 1 size low, le→leb size 48 short, is_width, le→leb (off + width) size inside) refl

pub own_enum :
    (address width : ℕ) (options : List (ℤ × String))
    → 1 ≤ width
    → width ≤ 4
    → (let c = read_config address none width none none none in validate_enum options c ≡ ok c)
unfolding validate_enum validate_enum_extraction validate_bit_field validate_bit_field_values
own_enum address width options low high = rw (le→leb 1 width low, le→leb width 4 high) refl

-- The width of a read-only enumeration.
pub num_length_bounds : (width : ℕ) → (1 ≤ num_length (pos width)) × (num_length (pos width) ≤ 4)
num_length_bounds width = ground arith

pub enum_read_length_bounds :
    (opts : List (ℕ × Text)) (fallback : ℕ)
    → 1 ≤ fallback
    → fallback ≤ 4
    → (1 ≤ enum_read_length opts fallback) × (enum_read_length opts fallback ≤ 4)
unfolding enum_read_length
enum_read_length_bounds [] fallback low high = (low, high)
enum_read_length_bounds (o ∷ os) fallback low high =
    go (ltb (max_value o.0 os) 0x100) (ltb (max_value o.0 os) 0x10000)
  where
    go :
        (a b : Bool)
        → (1 ≤ (if a then 1 else (if b then 2 else fallback)))
          × ((if a then 1 else (if b then 2 else fallback)) ≤ 4)
    go true b = (omega arith, omega arith)
    go false true = (omega arith, omega arith)
    go false false = (low, high)

-- A flag's own byte, by its index in the block.
pub flag_offset : ℕ → Option ℕ
flag_offset zero = none
flag_offset (suc n) = some (suc n)

pub or_none-flag_offset : (n : ℕ) → or_none (pos n) ≡ as_int (flag_offset n)
unfolding flag_offset
or_none-flag_offset zero = refl
or_none-flag_offset (suc n) = rw (not_first n) refl

pub offset_or_zero-flag_offset : (n : ℕ) → offset_or_zero (flag_offset n) ≡ n
unfolding flag_offset
offset_or_zero-flag_offset zero = refl
offset_or_zero-flag_offset (suc n) = refl
