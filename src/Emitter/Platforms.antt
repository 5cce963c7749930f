-- ===== src/Emitter/Platforms.antt =====
-- scripts/vitocatalog/emitter.py: the entity of each platform, of a field that is no bit field.
use esphome_vitohome.Common.{
  ℕ, ◌*◌, ◌/◌, ◌^◌, Bool, true, false, not, ◌&&◌, ◌||◌, Option, none, some, List, [], ◌∷◌, ◌++◌,
  String, Text, codes, strip, same_text, is_space, ℤ, pos, negsuc, pos_part, leb_ℤ, ltb_ℤ, eqb_ℤ,
  ◌+ℤ◌, max_ℤ, min_ℤ, ltb, all, if◌then◌else◌,
}
use esphome_vitohome.Hub.Access.{sensor, binary_sensor, text_sensor, number, select, switch}
use esphome_vitohome.Hub.Fields.{contains}
use esphome_vitohome.Hub.Converters.{Converter, noconv, div2, div10, sec2hour, rotatebytes}
use esphome_vitohome.Catalog.{EventValue, Event, int_or, is_empty}
use esphome_vitohome.Catalog.Bits.{byte_of, bit_of}
use esphome_vitohome.Catalog.Options.{enum_read_length}
use esphome_vitohome.Catalog.Floats.{Floats, nought, one}
use esphome_vitohome.Catalog.Scales.{
  lower_of, upper_of, stepping_of, negative, declared_unsigned, bound_fits,
}
use esphome_vitohome.Emitter.{
  enum, Filter, multiply, offset, EntitySpec, plain_spec, Emitted, comment, entity, contradictory,
  beyond_read, state_address_of, contradicts,
}
use esphome_vitohome.Emitter.Presets.{conv_lengths}
use esphome_vitohome.Emitter.Fields.{Writing, or_none, not_empty, has_step, no_filters}
use esphome_vitohome.Emitter.Strings.{Place, extracts, unless_one}

-- A converter without an encode path.
abbrev pub is_read_only : Converter → Bool
is_read_only sec2hour = true
is_read_only rotatebytes = true
is_read_only _ = false

abbrev pub is_big_endian : Converter → Bool
is_big_endian rotatebytes = true
is_big_endian _ = false

-- `conv in ("div2", "div10")`
abbrev pub signed_default : Converter → Bool
signed_default div2 = true
signed_default div10 = true
signed_default _ = false

abbrev pub conv_or_noconv : Option Converter → Converter
conv_or_noconv none = noconv
conv_or_noconv (some name) = name

-- `length in _CONV_LENGTHS[conv]`
abbrev pub has_width : Converter → ℤ → Bool
has_width name (pos n) = contains (conv_lengths name) n
has_width name (negsuc n) = false

-- All options fit the field's bytes, unsigned.
abbrev pub all_in : ℕ → List (ℕ × Text) → Bool
all_in n opts = all (λ o. ltb o.0 (2 ^ (8 * n))) opts

-- `length in (1, 2)`
abbrev pub one_or_two : ℤ → Bool
one_or_two n = eqb_ℤ n (pos 1) || eqb_ℤ n (pos 2)

-- `num_length`: `length`, brought into 1 to 4.
abbrev pub num_length : ℤ → ℕ
num_length n = pos_part (max_ℤ (pos 1) (min_ℤ (pos 4) n))

-- The datapoint when its platform is chosen: `conv`, `value_filters`, `force_signed`, the write target,
-- the poll interval and the rest of the local variables.
pub record Choice (Float : Type 0) : Type 0 where
  pub address : ℕ
  pub place : Place
  pub name : Converter
  pub filters : List (Filter Float)
  pub force_signed : Bool
  pub from_borders : Bool
  pub writing : Writing
  pub counted : Bool
  pub poll : ℕ
  pub bits : ℤ
  pub options : List (ℕ × Text)
  pub pair : Option (ℕ × ℕ)

module _ {Float : Type 0} where
  -- `w_len`, `w_off`, `w_blen`, and what every writable entity has.
  abbrev pub on_target : Choice Float → EntitySpec Float → EntitySpec Float
  on_target c spec = record spec {
    address = c.address;
    length = if c.writing.block_mode then c.place.block_len else c.place.length;
    byte_offset = if c.writing.block_mode then some c.place.field_off else none;
    byte_length = if c.writing.block_mode then unless_one c.place.length else none;
    disabled_by_default = true;
    update_interval = some c.poll;
  }

  abbrev pub choice_entity : Choice Float → Option (ℕ × ℕ) → EntitySpec Float
  choice_entity c none = record (on_target c (plain_spec select c.address)) {
    state_address = state_address_of c.address;
    options = c.options;
    option_hex_width = some c.place.length;
  }
  choice_entity c (some pair) = record (on_target c (plain_spec switch c.address)) {
    state_address = state_address_of c.address;
    on_value = some pair.0;
    off_value = some pair.1;
    option_hex_width = some c.place.length;
  }

  abbrev pub bit_sensor_at : Event → Choice Float → ℤ → Emitted Float
  bit_sensor_at ev c position =
      if contradicts ev.byte_position (byte_of position)
      then comment contradictory
      else if ltb_ℤ (pos 48) c.place.block_len || leb_ℤ c.place.block_len (byte_of position)
      then comment beyond_read
      else entity (record (plain_spec binary_sensor c.address) {
        length = c.place.block_len;
        byte_offset = or_none (byte_of position);
        bit_mask = some (0x80 / 2 ^ bit_of position);
        disabled_by_default = true;
        update_interval = some c.poll;
      })

  -- The read-only single bit; the bit index is counted from the most significant bit of byte 0.
  unfoldable pub bit_sensor : Event → Choice Float → Emitted Float
  bit_sensor ev c = bit_sensor_at ev c (int_or ev.bit_position (pos 0))

  -- The read-only enumeration.
  abbrev pub enum_sensor_of : Choice Float → ℕ → EntitySpec Float
  enum_sensor_of c enum_len =
      let extract =
        ltb_ℤ (pos 0) c.place.field_off
        && leb_ℤ (c.place.field_off +ℤ pos enum_len) c.place.block_len
        && leb_ℤ c.place.block_len (pos 48) in
      record (plain_spec text_sensor c.address) {
        platform_type = some enum;
        length = if extract then c.place.block_len else pos enum_len;
        byte_offset = if extract then some c.place.field_off else none;
        byte_length = if extract then unless_one (pos enum_len) else none;
        options = c.options;
        option_hex_width = some (pos enum_len);
        disabled_by_default = true;
        update_interval = some c.poll;
      }

  unfoldable pub enum_sensor : Choice Float → EntitySpec Float
  unfolding enum_read_length
  enum_sensor c = enum_sensor_of c (enum_read_length c.options (num_length c.place.length))

-- transforms.py `_unit_negated`: the unit tokens of units.py whose row says so.
abbrev pub first_token : List EventValue → String → String
first_token [] token = token
first_token (v ∷ vs) token =
    let rest = first_token vs token in if is_empty (codes v.unit_token) then rest else v.unit_token

unfoldable pub unit_negated : Event → Bool
unfolding is_space same_text
unit_negated ev =
    same_text (strip (codes (first_token ev.values ev.unit_token))) (codes "ecnUnit.dBm")

module _ (F : Floats) where
  open F use {Float, parse, of_int, sub, div, lt, eq}

  -- A border that is there, and below zero.
  abbrev pub lower_negative : Event → Bool
  lower_negative ev = not_empty F (lower_of ev) && negative F (parse (lower_of ev))

  -- The sign of a number: what is written under `signed:`, and what the bounds are tested with.
  abbrev pub number_sign : Converter → Bool → Bool → Option Bool × Bool
  number_sign name below unsigned =
      if below && not (signed_default name)
      then (some true, true)
      else if signed_default name && unsigned
      then (some false, false)
      else (none, signed_default name || below)

  abbrev pub have_bounds : Event → ℤ → Converter → Bool → Bool
  have_bounds ev length name is_signed =
      not_empty F (lower_of ev)
      && not_empty F (upper_of ev)
      && has_step F (stepping_of ev)
      && bound_fits F (lower_of ev) (pos_part length) name is_signed
      && bound_fits F (upper_of ev) (pos_part length) name is_signed

  unfoldable pub number_entity : Event → Choice Float → EntitySpec Float
  unfolding bound_fits declared_unsigned
  number_entity ev c =
      let sign = number_sign c.name (lower_negative ev) (declared_unsigned F ev) in
      let bounded = have_bounds ev c.place.length c.name sign.1 in
      record (on_target c (plain_spec number c.address)) {
        converter = some c.name;
        signed = sign.0;
        min_value = if bounded then lower_of ev else "0";
        max_value = if bounded then upper_of ev else "0";
        step = if bounded then stepping_of ev else "1";
        bounds_placeholder = not bounded;
      }

  -- `next((v for k, v in value_filters if k == …), …)`
  abbrev pub first_multiply : List (Filter Float) → Float
  first_multiply [] = one F
  first_multiply (multiply f ∷ fs) = f
  first_multiply (offset o ∷ fs) = first_multiply fs

  abbrev pub first_offset : List (Filter Float) → Float
  first_offset [] = nought F
  first_offset (offset o ∷ fs) = o
  first_offset (multiply f ∷ fs) = first_offset fs

  -- The raw value of the lower border, under the filters, is below zero.
  abbrev pub raw_negative : Option Float → List (Filter Float) → Bool
  raw_negative none filters = true
  raw_negative (some lo) filters =
      if eq (first_multiply filters) (nought F)
      then true
      else lt (div (sub lo (first_offset filters)) (first_multiply filters)) (nought F)

  abbrev pub negative_range : Event → Choice Float → Bool
  negative_range ev c =
      lower_negative ev
      && not c.from_borders
      && (no_filters F c.filters || raw_negative (parse (lower_of ev)) c.filters)

  abbrev pub sensor_sign : Converter → Bool → Bool → Option Bool
  sensor_sign name below unsigned =
      if below && not (signed_default name)
      then some true
      else if signed_default name && unsigned
      then some false
      else none

  unfoldable pub sensor_entity : Event → Choice Float → EntitySpec Float
  unfolding declared_unsigned unit_negated
  sensor_entity ev c =
      let extract = extracts c.place in
      record (plain_spec sensor c.address) {
        length = if extract then c.place.block_len else c.place.length;
        byte_offset = if extract then some c.place.field_off else none;
        byte_length = if extract then unless_one c.place.field_width else none;
        converter = some c.name;
        signed =
            sensor_sign c.name (c.force_signed || negative_range ev c) (declared_unsigned F ev);
        filters = c.filters ++ (if unit_negated ev then multiply (of_int (negsuc 0)) ∷ [] else []);
        total_increasing = c.counted;
        disabled_by_default = true;
        update_interval = some c.poll;
      }
