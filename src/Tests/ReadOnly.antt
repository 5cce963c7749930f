-- ===== src/Tests/ReadOnly.antt =====
-- Sensors, texts, events, presets and hub settings, and the places where the theorems on them apply.
use mathlib.Core.List.{Memᴰ}
use esphome_vitohome.Common.{
  ℕ, ◌+◌, ◌≡◌, refl, ◌≢◌, ◌↔◌, true, false, Option, none, some, List, [], ◌∷◌, arith, String, ℤ,
  pos, ◌≤ℤ◌, leb, map,
}
use esphome_vitohome.Hub.Invalid.{ok, invalid, read_twice}
use esphome_vitohome.Hub.Fields.{Config, validate_bit_field, validate_bit_field_values, field_width}
use esphome_vitohome.Hub.Fields.Shape.{MaskShape, ValuesFit}
use esphome_vitohome.Hub.Converters.{div10, lengths, big_endian}
use esphome_vitohome.Hub.Masks.{bit_field_max}
use esphome_vitohome.Hub.Settings.{check_interval}
use esphome_vitohome.Hub.Settings.Deadlines.{is_due, clock, check_interval-is_due}
use esphome_vitohome.Readers.{
  validate_sensor, validate_length, validate_converter_length_effective, validate_byte_offset,
  validate_enum, validate_enum_extraction, validate_string_extraction,
}
use esphome_vitohome.Readers.Accepted.{
  ReadFits, ConverterFits, validate_sensor_lem, validate_enum_lem,
}
use esphome_vitohome.Readers.Strings.{StringField, validate_string_extraction_iff}
use esphome_vitohome.Climate.{
  Preset, validate_presets, validate_setpoint_range, setpoint_min_default, setpoint_max_default,
}
use esphome_vitohome.Climate.Presets.{first_with, validate_presets-reads}
use esphome_vitohome.Climate.Setpoint.{Emitted, validate_setpoint_range_lem}
use esphome_vitohome.Platforms.{all_unique}

abbrev field : Option ℕ → Option ℕ → ℕ → Config
field byte_offset byte_length length = record {
  address = 0x2500;
  state_address = none;
  length = length;
  byte_offset = byte_offset;
  byte_length = byte_length;
  bit_mask = none;
  signed = none;
}

abbrev flow : Config
flow = field (some 2) (some 2) 22

flow_accepted : validate_sensor div10 flow ≡ ok flow
unfolding validate_sensor validate_length validate_converter_length_effective validate_byte_offset
    validate_bit_field lengths big_endian
flow_accepted = refl

validate_sensor_lem_example :
    (flow ≡ flow)
    × ReadFits flow flow.byte_offset
    × ConverterFits div10 flow flow.byte_offset
    × MaskShape false flow flow.bit_mask
validate_sensor_lem_example = validate_sensor_lem div10 flow flow flow_accepted

abbrev states : List (ℤ × String)
states = (pos 0, "off") ∷ (pos 3, "on") ∷ []

abbrev pump : Config
pump = record (field (some 16) none 22) { bit_mask = some 0x0C }

pump_accepted : validate_enum states pump ≡ ok pump
unfolding validate_enum validate_enum_extraction validate_bit_field validate_bit_field_values
    bit_field_max field_width
pump_accepted = refl

validate_enum_lem_example :
    (pump ≡ pump)
    × ReadFits pump pump.byte_offset
    × MaskShape false pump pump.bit_mask
    × ValuesFit (map (λ p. p.0) states) pump.bit_mask
validate_enum_lem_example = validate_enum_lem states pump pump pump_accepted

abbrev caption : Config
caption = field (some 2) (some 40) 42

-- A field of its own of 5 bytes passes for UTF-16.
odd_width_accepted : validate_string_extraction 40 true (field none none 5) ≡ ok (field none none 5)
unfolding validate_string_extraction
odd_width_accepted = refl

validate_string_extraction_iff_example :
    (validate_string_extraction 40 true caption ≡ ok caption)
    ↔ ((width : ℕ) × StringField 40 true caption 2 width)
validate_string_extraction_iff_example = validate_string_extraction_iff 40 true caption 2 refl

abbrev standby : Preset
standby = record { name = "standby"; write = 0; read = 0 ∷ 5 ∷ [] }

abbrev comfort : Preset
comfort = record { name = "comfort"; write = 4; read = 2 ∷ [] }

presets_accepted : validate_presets (standby ∷ comfort ∷ []) ≡ ok (standby ∷ comfort ∷ [])
unfolding validate_presets
presets_accepted = refl

twice_refused :
    validate_presets (standby ∷ record comfort { read = 5 ∷ [] } ∷ []) ≡ invalid (read_twice 5)
unfolding validate_presets
twice_refused = refl

validate_presets-reads_example :
    ((standby ∷ comfort ∷ []) ≡ (standby ∷ comfort ∷ []))
    × (all_unique ("standby" ∷ "comfort" ∷ []) ≡ true)
    × (first_with 2 (standby ∷ comfort ∷ []) ≡ some comfort)
validate_presets-reads_example =
    validate_presets-reads (standby ∷ comfort ∷ []) (standby ∷ comfort ∷ []) comfort 2
      presets_accepted (Memᴰ.tail (Memᴰ.head refl)) (Memᴰ.head refl)

-- Whole degrees stand for the float.
range_accepted : validate_setpoint_range some (some (pos 10)) none ≡ ok (pos 10, pos 37)
unfolding validate_setpoint_range
range_accepted = refl

validate_setpoint_range_lem_example :
    Emitted some setpoint_min_default (some (pos 10)) (pos 10)
    × Emitted some setpoint_max_default none (pos 37)
    × (pos 0 ≤ℤ pos 10)
    × (pos 10 ≤ℤ pos 37)
    × (pos 37 ≤ℤ pos 255)
validate_setpoint_range_lem_example =
    validate_setpoint_range_lem some (some (pos 10)) none (pos 10) (pos 37) range_accepted

minute_accepted : check_interval true 60000 ≡ ok 60000
unfolding check_interval
minute_accepted = refl

not_never : ◌≢◌ {A = ℕ} 60000 0xFFFFFFFF
not_never = ground arith

check_interval-is_due_example :
    is_due (clock (4294960000 + 59999)) (clock (4294960000 + 60000)) ≡ leb 60000 59999
check_interval-is_due_example =
    check_interval-is_due true 60000 4294960000 59999 minute_accepted not_never (ground arith)
