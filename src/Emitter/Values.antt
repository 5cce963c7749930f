-- ===== src/Emitter/Values.antt =====
-- scripts/vitocatalog/emitter.py `build_entity_spec`: the branches after the bit fields, in the order of
-- the code.
pub mod Places
pub mod Choices
pub mod Reads
pub mod Validated
pub mod Sensors
pub mod Numbers
pub mod Accepted
use text.Mathlib.Text.{◌==◌ as str_eq}
use esphome_vitohome.Common.{
  ℕ, ◌+◌, ◌-◌, ◌*◌, ◌/◌, ◌^◌, Bool, true, false, not, ◌&&◌, ◌||◌, Option, none, some, List, [], ◌∷◌,
  ◌++◌, String, Text, codes, strip, same_text, is_space, ℤ, pos, negsuc, pos_part, leb_ℤ, ltb_ℤ,
  eqb_ℤ, ◌+ℤ◌, max_ℤ, min_ℤ, is_odd, ltb, all, ◌==◌, if◌then◌else◌,
}
use esphome_vitohome.Hub.Access.{
  Protocol, sensor, binary_sensor, text_sensor, number, select, switch,
}
use esphome_vitohome.Hub.Fields.{given, contains}
use esphome_vitohome.Hub.Converters.{Converter, noconv, div2, div10, sec2hour, rotatebytes}
use esphome_vitohome.Catalog.{EventValue, Event, int_or, is_empty}
use esphome_vitohome.Catalog.Modes.{is_writable}
use esphome_vitohome.Catalog.Bits.{byte_of, bit_of}
use esphome_vitohome.Catalog.Blocks.{Blocks, block_write_blocker, has_state_address}
use esphome_vitohome.Catalog.Options.{enum_options, dedup_option_labels, enum_read_length}
use esphome_vitohome.Catalog.Toggles.{enum_bool_pair}
use esphome_vitohome.Catalog.Floats.{Floats, nought, one, conv_scale}
use esphome_vitohome.Catalog.Scales.{
  scale_from_bounds, lower_of, upper_of, stepping_of, width_of, in_1_to_4, negative,
  declared_unsigned, bound_fits,
}
use esphome_vitohome.Emitter.{
  TextType, enum, ascii, utf16, Filter, multiply, offset, EntitySpec, plain_spec, Emitted, skipped,
  comment, entity, non_numeric, write_only, contradictory, beyond_read, not_aligned, ascii_too_long,
  string_block_too_long, utf16_length, too_wide, big_endian_width, ConversionKind, is_counter,
  is_non_numeric, state_address_of, poll_for, block_length_of, contradicts, Factors,
}
use esphome_vitohome.Emitter.Presets.{conv_lengths, scale_filters}
use esphome_vitohome.Emitter.Fields.{
  Writing, block_writing, or_none, build_bit_field_spec, not_empty, has_step, no_filters,
}
use esphome_vitohome.Emitter.Drafts.{Draft, draft_of}
use esphome_vitohome.Emitter.Strings.{
  Place, place_of, extracts, string_type, is_zero, unless_one, is_ascii, is_utf16, string_spec,
  string_result, string_entity,
}
use esphome_vitohome.Emitter.Platforms.{
  is_read_only, is_big_endian, signed_default, conv_or_noconv, has_width, all_in, one_or_two,
  num_length, Choice, on_target, choice_entity, bit_sensor_at, bit_sensor, enum_sensor_of,
  enum_sensor, first_token, unit_negated, lower_negative, number_sign, have_bounds, number_entity,
  first_multiply, first_offset, raw_negative, negative_range, sensor_sign, sensor_entity,
}

module _ (F : Floats) where
  open F use {Float, parse, of_int, sub, div, lt, eq}

  -- The read-only platforms.
  abbrev pub read_only_entity : Event → Choice Float → Emitted Float
  read_only_entity ev c =
      if ltb_ℤ (pos 0) c.bits then bit_sensor ev c else elim c.options as (λ _. Emitted Float) [
        | [] ↦ entity (sensor_entity F ev c)
        | _ ∷ _ ↦ entity (enum_sensor c)
      ]

  abbrev pub has_options : List (ℕ × Text) → Bool
  has_options [] = false
  has_options (_ ∷ _) = true

  -- A writable enumeration of 1 or 2 bytes whose options fit is a switch or a select.
  abbrev pub choosable : Choice Float → Bool
  choosable c =
      has_options c.options
      && one_or_two c.place.length
      && all_in (pos_part c.place.length) c.options

  abbrev pub chosen_entity : Event → Choice Float → Emitted Float
  chosen_entity ev c =
      if c.writing.writable
      then (if choosable c then entity (choice_entity c c.pair) else entity (number_entity F ev c))
      else read_only_entity ev c

  -- The converter gives way to `noconv` and its scale where it has not the field's width.
  abbrev pub widened : Event → Choice Float → Emitted Float
  widened ev c =
      if is_big_endian c.name
      then comment big_endian_width
      else chosen_entity ev (record c {
        name = noconv;
        filters = c.filters ++ scale_filters F c.name;
        force_signed = signed_default c.name && not (declared_unsigned F ev);
        writing = record c.writing { writable = false };
      })

  unfoldable pub scalar_entity : Event → Choice Float → Emitted Float
  unfolding declared_unsigned conv_scale conv_lengths number_entity sensor_entity enum_sensor
      bit_sensor
  scalar_entity ev c =
      let plain_value = not (ltb_ℤ (pos 0) c.bits) && not (has_options c.options) in
      if plain_value && ltb_ℤ (pos 4) c.place.length
      then comment too_wide
      else if plain_value && not (has_width c.name c.place.length)
      then widened ev c
      else chosen_entity ev c

  -- The demotions: no encode path, filters, and a block that cannot be written back.
  abbrev pub encodable_draft : Draft Float → Bool
  encodable_draft d =
      d.writable && not (is_read_only (conv_or_noconv d.conv)) && no_filters F d.filters

  abbrev pub smaller_than_block : Place → Bool
  smaller_than_block p = ltb_ℤ (pos 0) p.field_off || ltb_ℤ p.length p.block_len

  unfoldable pub value_writing : Event → Protocol → Bool → Blocks → Draft Float → Place → Writing
  unfolding block_write_blocker
  value_writing ev protocol partial_writes ro_blocks d p =
      block_writing (encodable_draft d) (smaller_than_block p) (
        given (
          block_write_blocker ev protocol (pos_part p.block_len) (pos_part p.length) ro_blocks
            partial_writes))

  unfoldable pub choice_of :
      Event → Protocol → Bool → Blocks → Draft Float → ℕ → Place → Choice Float
  unfolding value_writing poll_for enum_bool_pair dedup_option_labels enum_options scale_from_bounds
  choice_of ev protocol partial_writes ro_blocks d addr p = record {
    address = addr;
    place = p;
    name = conv_or_noconv d.conv;
    filters = d.filters;
    force_signed = false;
    from_borders = given (scale_from_bounds F ev protocol);
    writing = value_writing ev protocol partial_writes ro_blocks d p;
    counted = is_counter d.kind;
    poll = poll_for ev d.kind protocol;
    bits = int_or ev.bit_length (pos 0);
    options = dedup_option_labels (enum_options ev false);
    pair = enum_bool_pair ev;
  }

  abbrev pub value_entity : Event → ℕ → Place → Option TextType → Choice Float → Emitted Float
  value_entity ev addr p (some kind) c = string_entity kind addr p
  value_entity ev addr p none c =
      if not (is_zero p.field_off) && not (extracts p)
      then comment not_aligned
      else scalar_entity ev c

  -- The datapoints that the bit fields' builder takes.
  abbrev pub is_bit_field : Event → Protocol → Bool
  is_bit_field ev protocol =
      let bits = int_or ev.bit_length (pos 0) in
      ltb_ℤ (pos 1) bits || (eqb_ℤ bits (pos 1) && is_writable ev protocol)

  abbrev pub at_address :
      Event → Protocol → Bool → Blocks → Factors Float → Option ℕ → Emitted Float
  at_address ev protocol partial_writes ro_blocks factors none = skipped
  at_address ev protocol partial_writes ro_blocks factors (some addr) =
      if is_non_numeric ev.conversion
      then comment non_numeric
      else if eqb_ℤ ev.access_type (pos 2) && not (given (state_address_of addr))
      then comment write_only
      else if is_bit_field ev protocol
      then build_bit_field_spec F ev protocol partial_writes ro_blocks factors addr
      else value_entity ev addr (place_of ev) (string_type ev.conversion) (
          choice_of ev protocol partial_writes ro_blocks (draft_of F ev protocol factors) addr
            (place_of ev))

  -- `build_entity_spec`
  unfoldable pub build_entity_spec :
      Event → Protocol → Bool → Blocks → Factors Float → Emitted Float
  unfolding build_bit_field_spec string_spec scalar_entity choice_of draft_of place_of
      is_non_numeric is_writable
  build_entity_spec ev protocol partial_writes ro_blocks factors =
      at_address ev protocol partial_writes ro_blocks factors ev.address
