-- ===== src/Emitter/Values/Sensors.antt =====
-- The sensors of `build_entity_spec`: numbers, flags and enumerations.
use esphome_vitohome.Common.{
  ℕ, ◌+◌, ◌/◌, ◌%◌, ◌^◌, ◌≤◌, ◌≡◌, refl, inl, inr, Bool, true, false, ◌&&◌, ◌||◌, Option, none,
  some, List, arith, String, ℤ, pos, ltb_ℤ, leb_ℤ, ◌+ℤ◌, if◌then◌else◌, Bool-cases,
}
use esphome_vitohome.Hub.Access.{binary_sensor, text_sensor}
use esphome_vitohome.Hub.Converters.{Converter, lengths, big_endian}
use esphome_vitohome.Hub.Fields.{Config, contains}
use esphome_vitohome.Catalog.{Event, int_or}
use esphome_vitohome.Catalog.Options.{enum_read_length}
use esphome_vitohome.Catalog.Floats.{Floats}
use esphome_vitohome.Catalog.Scales.{declared_unsigned}
use esphome_vitohome.Emitter.{
  enum, EntitySpec, plain_spec, entity, contradicts, contradictory, beyond_read,
}
use esphome_vitohome.Emitter.Reading.{IsAccepted}
use esphome_vitohome.Emitter.Fields.{or_none}
use esphome_vitohome.Emitter.Fields.Numbers.{conv_lengths-eq-lengths}
use esphome_vitohome.Emitter.Fields.Shapes.{binary-ok}
use esphome_vitohome.Emitter.Platforms.{
  Choice, has_width, is_big_endian, num_length, bit_sensor, enum_sensor_of, enum_sensor,
  sensor_sign, negative_range, sensor_entity,
}
use esphome_vitohome.Emitter.Strings.{extracts, unless_one}
use esphome_vitohome.Emitter.Values.Places.{place, or_absent, or_one-or_absent, unless_one-as_int}
use esphome_vitohome.Emitter.Values.Reads.{read_config, of_entity, past}
use esphome_vitohome.Emitter.Values.Validated.{
  not_big, own-ok, inner_sensor, inner_enum, own_enum, num_length_bounds, enum_read_length_bounds,
  flag_offset, or_none-flag_offset, offset_or_zero-flag_offset,
}

module _ (F : Floats) (options : List (ℤ × String)) (lo hi : F.Float) (c : Choice F.Float)
    (size width off : ℕ) (some_byte : 1 ≤ width) (inside : off + width ≤ size) where
  abbrev at_place : Choice F.Float
  at_place = record c { place = place size width off }

  pub bit_sensor-IsAccepted :
      (ev : Event) (position : ℕ) (spec : EntitySpec F.Float)
      → int_or ev.bit_position (pos 0) ≡ pos position
      → bit_sensor ev (record c { place = place size width off }) ≡ entity spec
      → IsAccepted F spec options lo hi
  unfolding bit_sensor
  bit_sensor-IsAccepted ev position spec p h =
      let h₁ = rw p at h in
      let (a, h₂) =
        past F options lo hi (contradicts ev.byte_position (pos (position / 8))) contradictory spec
          h₁ in
      let (b, h₃) =
        past F options lo hi (ltb_ℤ (pos 48) (pos size) || leb_ℤ (pos size) (pos (position / 8)))
          beyond_read spec h₂ in
      let (k, l) = neither (ltb_ℤ (pos 48) (pos size)) (leb_ℤ (pos size) (pos (position / 8))) b in
      of_entity F options lo hi
        (record (plain_spec binary_sensor c.address) {
          length = pos size;
          byte_offset = or_none (pos (position / 8));
          bit_mask = some (0x80 / 2 ^ (position % 8));
          disabled_by_default = true;
          update_interval = some c.poll;
        })
        spec
        (
          config,
          (refl, refl, refl, or_none-flag_offset (position / 8), refl, refl, refl),
          binary-ok config (ground arith)
              (let e = offset_or_zero-flag_offset (position / 8) in rw e (ground arith)),
        )
        h₃
    where
      neither : (a b : Bool) → (a || b) ≡ false → (a ≡ false) × (b ≡ false)
      neither a b h = ground arith

      config : Config
      config =
          read_config c.address (some (0x80 / 2 ^ (position % 8))) size (flag_offset (position / 8))
            none none

  -- The tests of a block extraction, taken apart.
  extract_parts :
      (len : ℕ)
      → (ltb_ℤ (pos 0) (pos off)
          && leb_ℤ (pos off +ℤ pos len) (pos size)
          && leb_ℤ (pos size) (pos 48))
        ≡ true
      → (off + len ≤ size) × (size ≤ 48)
  extract_parts len h = (ground arith, ground arith)

  enum_sensor_of-IsAccepted :
      (len : ℕ) → 1 ≤ len → len ≤ 4 → IsAccepted F (enum_sensor_of at_place len) options lo hi
  enum_sensor_of-IsAccepted len low high =
      go
        (ltb_ℤ (pos 0) (pos off)
          && leb_ℤ (pos off +ℤ pos len) (pos size)
          && leb_ℤ (pos size) (pos 48))
        refl
    where
      go :
          (e : Bool)
          → (ltb_ℤ (pos 0) (pos off)
              && leb_ℤ (pos off +ℤ pos len) (pos size)
              && leb_ℤ (pos size) (pos 48))
            ≡ e
          → IsAccepted F
              (record (plain_spec text_sensor c.address) {
                platform_type = some enum;
                length = if e then pos size else pos len;
                byte_offset = if e then some (pos off) else none;
                byte_length = if e then unless_one (pos len) else none;
                options = c.options;
                option_hex_width = some (pos len);
                disabled_by_default = true;
                update_interval = some c.poll;
              })
              options
              lo
              hi
      go true e =
          let (fits, short) = extract_parts len e in
          (
            read_config c.address none size (some off) (or_absent len) none,
            (refl, refl, refl, refl, unless_one-as_int len, refl, refl),
            inner_enum c.address none size off len (or_absent len) (or_one-or_absent len) fits
                (omega arith) short options,
          )
      go false e = (
        read_config c.address none len none none none,
        (refl, refl, refl, refl, refl, refl, refl),
        own_enum c.address len options low high,
      )

  pub enum_sensor-IsAccepted :
      IsAccepted F (enum_sensor (record c { place = place size width off })) options lo hi
  unfolding enum_sensor
  enum_sensor-IsAccepted =
      let (a, b) = num_length_bounds width in
      let (low, high) = enum_read_length_bounds c.options (num_length (pos width)) a b in
      enum_sensor_of-IsAccepted (enum_read_length c.options (num_length (pos width))) low high

  little_inside :
      (name : Converter)
      → (is_big_endian name ≡ true → off ≡ 0)
      → extracts (place size width off) ≡ true
      → big_endian name ≡ false
  little_inside name big e = elim (Bool-cases (is_big_endian name)) [
    | inl k ↦ (let q = big k in absurd (ground arith))
    | inr k ↦ not_big name k
  ]

  short_block : extracts (place size width off) ≡ true → size ≤ 48
  short_block e = ground arith

  pub sensor-IsAccepted :
      (ev : Event)
      → has_width c.name (pos width) ≡ true
      → (is_big_endian c.name ≡ true → off ≡ 0)
      → IsAccepted F (sensor_entity F ev (record c { place = place size width off })) options lo hi
  unfolding sensor_entity
  sensor-IsAccepted ev allowed big = go (extracts (place size width off)) refl (
      sensor_sign F c.name (c.force_signed || negative_range F ev at_place)
        (declared_unsigned F ev))
    where
      wide : contains (lengths c.name) width ≡ true
      wide = rw (← conv_lengths-eq-lengths c.name) allowed

      go :
          (e : Bool)
          → extracts (place size width off) ≡ e
          → (sign : Option Bool)
          → IsAccepted F
              (record (sensor_entity F ev at_place) {
                length = if e then pos size else pos width;
                byte_offset = if e then some (pos off) else none;
                byte_length = if e then unless_one (pos width) else none;
                signed = sign;
              })
              options
              lo
              hi
      go true e sign = (
        read_config c.address none size (some off) (or_absent width) sign,
        (refl, refl, refl, refl, unless_one-as_int width, refl, refl),
        inner_sensor c.address sign size off width (or_absent width) (or_one-or_absent width) inside
            (omega arith) (short_block e) c.name (little_inside c.name big e) wide,
      )
      go false e sign = (
        read_config c.address none width none none sign,
        (refl, refl, refl, refl, refl, refl, refl),
        own-ok c.address sign c.name width some_byte wide,
      )
