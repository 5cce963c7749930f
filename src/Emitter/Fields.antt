-- ===== src/Emitter/Fields.antt =====
-- scripts/vitocatalog/emitter.py `_build_bit_field_spec`: a field of at most 8 bits as an entity with a
-- `bit_mask`. The options' values are natural numbers here, so that `fit` is all of them.
pub mod Shapes
pub mod Sites
pub mod Numbers
pub mod Options
pub mod Accepted
use text.Mathlib.Text.{◌==◌ as str_eq}
use esphome_vitohome.Common.{
  ℕ, ◌*◌, ◌^◌, Bool, true, false, not, ◌&&◌, ◌||◌, Option, none, some, List, [], ◌∷◌, ◌++◌, String,
  Text, codes, ℤ, pos, pos_part, leb_ℤ, ltb_ℤ, eqb_ℤ, ltb, any, if◌then◌else◌,
}
use esphome_vitohome.Hub.Access.{
  Protocol, sensor, binary_sensor, text_sensor, number, select, switch,
}
use esphome_vitohome.Hub.Fields.{given, contains}
use esphome_vitohome.Hub.Converters.{Converter, noconv}
use esphome_vitohome.Catalog.{Event, int_or, is_empty}
use esphome_vitohome.Catalog.Modes.{is_writable}
use esphome_vitohome.Catalog.Bits.{BitField, bit_field}
use esphome_vitohome.Catalog.Blocks.{Blocks, block_write_blocker}
use esphome_vitohome.Catalog.Options.{enum_options, dedup_option_labels}
use esphome_vitohome.Catalog.Toggles.{enum_bool_pair}
use esphome_vitohome.Catalog.Floats.{Floats, one, conv_scale, raw_of, llround}
use esphome_vitohome.Catalog.Scales.{
  BoundsScale, ScaleKind, ambiguous, scale_from_bounds, is_identity, lower_of, upper_of,
  stepping_of,
}
use esphome_vitohome.Emitter.{
  enum, Filter, multiply, EntitySpec, plain_spec, Emitted, comment, entity, not_one_byte,
  contradictory, beyond_read, values_beyond_field, conversion_of, is_counter, state_address_of,
  poll_for, block_length_of, contradicts, Factors,
}
use esphome_vitohome.Emitter.Presets.{
  conv_lengths, eff_factor, or_nought, preset_of, factor_filters, offset_filters, scale_filters,
}

-- The local variables `writable` and `block_mode` of both builders.
pub record Writing : Type 0 where
  pub writable : Bool
  pub block_mode : Bool

-- The three demotions: partial writes, a block that cannot be written back, a separate state.
abbrev pub block_writing : Bool → Bool → Bool → Writing
block_writing writable wide blocked =
    if writable && wide
    then record { writable = not blocked; block_mode = not blocked }
    else record { writable = writable; block_mode = false }

abbrev pub without_state : Bool → Writing → Writing
without_state has_state w = record w { writable = w.writable && not has_state }

unfoldable pub bit_writing : Event → Protocol → Bool → Blocks → ℕ → Writing
unfolding is_writable block_write_blocker
bit_writing ev protocol partial_writes ro_blocks addr =
    let len = block_length_of ev in
    without_state (given (state_address_of addr)) (
      block_writing (is_writable ev protocol && partial_writes) (ltb_ℤ (pos 1) len)
        (given (block_write_blocker ev protocol (pos_part len) 1 ro_blocks partial_writes)))

-- `read_len` and `read_off`.
abbrev pub bit_read : Bool → ℤ → ℤ → ℤ × Option ℤ
bit_read block_mode byte block_len =
    if block_mode
    then (block_len, some byte)
    else if eqb_ℤ byte (pos 0)
    then (pos 1, none)
    else (block_len, some byte)

-- `byte or None`
abbrev pub or_none : ℤ → Option ℤ
or_none byte = if eqb_ℤ byte (pos 0) then none else some byte

-- The keys that all entities of one field share.
pub record Site : Type 0 where
  pub address : ℕ
  pub byte : ℤ
  pub top : ℕ
  pub mask : ℕ
  pub block_len : ℤ
  pub bits : ℤ
  pub writing : Writing
  pub poll : ℕ

module _ {Float : Type 0} where
  -- An entity that reads `read_len` bytes at `read_off`.
  abbrev pub on_field : Site → EntitySpec Float → EntitySpec Float
  on_field s spec =
      let shape = bit_read s.writing.block_mode s.byte s.block_len in
      record spec {
        address = s.address;
        length = shape.0;
        byte_offset = shape.1;
        bit_mask = some s.mask;
        disabled_by_default = true;
        update_interval = some s.poll;
      }

  abbrev pub toggle_or_select : Site → List (ℕ × Text) → Option (ℕ × ℕ) → EntitySpec Float
  toggle_or_select s opts none =
      on_field s (record (plain_spec select s.address) { options = opts })
  toggle_or_select s opts (some pair) =
      on_field s
        (record (plain_spec switch s.address) { on_value = some pair.0; off_value = some pair.1 })

  -- A read-only flag keeps the shape of every other bit.
  abbrev pub flag : Site → EntitySpec Float
  flag s = record (plain_spec binary_sensor s.address) {
    length = s.block_len;
    byte_offset = or_none s.byte;
    bit_mask = some s.mask;
    disabled_by_default = true;
    update_interval = some s.poll;
  }

  abbrev pub enum_entity : Site → List (ℕ × Text) → Option (ℕ × ℕ) → EntitySpec Float
  enum_entity s opts pair =
      if s.writing.writable
      then toggle_or_select s opts pair
      else if eqb_ℤ s.bits (pos 1)
      then flag s
      else on_field s
          (record (plain_spec text_sensor s.address) { platform_type = some enum; options = opts })

  unfoldable pub enum_field : Site → List (ℕ × Text) → Option (ℕ × ℕ) → Emitted Float
  enum_field s opts pair =
      if any (λ o. ltb s.top o.0) opts
      then comment values_beyond_field
      else entity (enum_entity s opts pair)

unfoldable pub site_of : Event → Protocol → Bool → Blocks → ℕ → BitField → Site
unfolding bit_writing poll_for conversion_of
site_of ev protocol partial_writes ro_blocks addr f = record {
  address = addr;
  byte = f.byte_offset;
  top = f.mask;
  mask = f.mask * 2 ^ f.shift;
  block_len = block_length_of ev;
  bits = int_or ev.bit_length (pos 0);
  writing = bit_writing ev protocol partial_writes ro_blocks addr;
  poll = poll_for ev (conversion_of ev.conversion).1 protocol;
}

-- The local variables `conv`, `filters` and `writable` of the numeric part.
pub record Decoding (Float : Type 0) : Type 0 where
  pub conv : Option Converter
  pub filters : List (Filter Float)
  pub writable : Bool

module _ (F : Floats) where
  open F use {Float, parse, of_int, mul, show}

  -- `NoConversion`: raw, or the scale that the borders imply.
  abbrev pub kind_filters : ScaleKind → BoundsScale Float → List (Filter Float)
  kind_filters ambiguous bs = []
  kind_filters _ bs = multiply bs.factor ∷ offset_filters F bs.offset

  abbrev pub identity_field : Bool → Option (BoundsScale Float) → Decoding Float
  identity_field writable none = record { conv = some noconv; filters = []; writable = writable }
  identity_field writable (some bs) = record {
    conv = some noconv;
    filters = kind_filters bs.kind bs;
    writable = false;
  }

  -- `MultOffset`: a preset, or filters.
  abbrev pub no_filters : List (Filter Float) → Bool
  no_filters [] = true
  no_filters (_ ∷ _) = false

  abbrev pub mult_offset_field : Bool → Factors Float → Option Converter → Decoding Float
  mult_offset_field writable factors (some name) = record {
    conv = some name;
    filters = [];
    writable = writable;
  }
  mult_offset_field writable factors none =
      let filters =
        factor_filters F (eff_factor F factors)
        ++ offset_filters F (or_nought F factors.conv_offset) in
      record { conv = some noconv; filters = filters; writable = writable && no_filters filters }

  unfoldable pub declared_field : Event → Protocol → Bool → Factors Float → Decoding Float
  unfolding scale_from_bounds conversion_of
  declared_field ev protocol writable factors =
      if is_identity ev.conversion
      then identity_field writable (scale_from_bounds F ev protocol)
      else if str_eq ev.conversion "MultOffset"
      then mult_offset_field writable factors
          (preset_of F (eff_factor F factors) (or_nought F factors.conv_offset))
      else record { conv = (conversion_of ev.conversion).0; filters = []; writable = writable }

  -- The converter of a field, which is one byte, and what is left of the rest.
  pub record OneByte : Type 0 where
    pub name : Converter
    pub filters : List (Filter Float)
    pub writable : Bool

  abbrev pub one_byte_from : Option Converter → List (Filter Float) → Bool → OneByte
  one_byte_from none filters writable = record {
    name = noconv;
    filters = filters;
    writable = false;
  }
  one_byte_from (some name) filters writable =
      if contains (conv_lengths name) 1
      then record { name = name; filters = filters; writable = writable }
      else record { name = noconv; filters = scale_filters F name ++ filters; writable = false }

  unfoldable pub one_byte : Decoding Float → OneByte
  unfolding conv_scale conv_lengths
  one_byte d = one_byte_from d.conv d.filters d.writable

  -- `_fits` of the numeric part.
  abbrev pub raw_in_field : Converter → ℕ → Option Float → Bool
  raw_in_field name top none = false
  raw_in_field name top (some x) =
      leb_ℤ (pos 0) (raw_of F name x) && leb_ℤ (raw_of F name x) (pos top)

  abbrev pub border_fits : Converter → ℕ → String → Bool
  border_fits name top text = raw_in_field name top (parse text)

  abbrev pub not_empty : String → Bool
  not_empty s = not (is_empty (codes s))

  abbrev pub has_step : String → Bool
  has_step s = not (str_eq s "" || str_eq s "0")

  abbrev pub borders_fit : Event → Converter → ℕ → Bool
  borders_fit ev name top =
      not_empty (lower_of ev)
      && not_empty (upper_of ev)
      && has_step (stepping_of ev)
      && border_fits name top (lower_of ev)
      && border_fits name top (upper_of ev)

  unfoldable pub field_number : Event → Site → Converter → EntitySpec Float
  unfolding llround conv_scale
  field_number ev s name =
      let spec = record (on_field s (plain_spec number s.address)) { converter = some name } in
      if borders_fit ev name s.top
      then record spec { min_value = lower_of ev; max_value = upper_of ev; step = stepping_of ev }
      else record spec {
        min_value = "0";
        max_value = show (mul (of_int (pos s.top)) (conv_scale F name));
        step = show (conv_scale F name);
      }

  unfoldable pub field_sensor : Event → Site → OneByte → EntitySpec Float
  unfolding conversion_of
  field_sensor ev s d = record (on_field s (plain_spec sensor s.address)) {
    converter = some d.name;
    filters = d.filters;
    total_increasing = is_counter (conversion_of ev.conversion).1;
  }

  abbrev pub numeric_entity : Event → Site → OneByte → EntitySpec Float
  numeric_entity ev s d = if d.writable then field_number ev s d.name else field_sensor ev s d

  abbrev pub filled_field :
      Event → Protocol → Factors Float → Site → List (ℕ × Text) → Emitted Float
  filled_field ev protocol factors s [] =
      entity
        (numeric_entity ev s (one_byte (declared_field ev protocol s.writing.writable factors)))
  filled_field ev protocol factors s (o ∷ os) = enum_field s (o ∷ os) (enum_bool_pair ev)

  abbrev pub checked_field :
      Event → Protocol → Bool → Blocks → Factors Float → ℕ → Option BitField → Emitted Float
  checked_field ev protocol partial_writes ro_blocks factors addr none = comment not_one_byte
  checked_field ev protocol partial_writes ro_blocks factors addr (some f) =
      if contradicts ev.byte_position f.byte_offset
      then comment contradictory
      else if ltb_ℤ (pos 48) (block_length_of ev) || leb_ℤ (block_length_of ev) f.byte_offset
      then comment beyond_read
      else filled_field ev protocol factors (site_of ev protocol partial_writes ro_blocks addr f)
          (dedup_option_labels (enum_options ev false))

  -- `_build_bit_field_spec`
  unfoldable pub build_bit_field_spec :
      Event → Protocol → Bool → Blocks → Factors Float → ℕ → Emitted Float
  unfolding bit_field site_of enum_field one_byte declared_field field_number field_sensor
      enum_bool_pair dedup_option_labels enum_options
  build_bit_field_spec ev protocol partial_writes ro_blocks factors addr =
      checked_field ev protocol partial_writes ro_blocks factors addr (bit_field ev)
