-- ===== src/Tests/Emitted.antt =====
-- Datapoints of the export through the emitter, with numbers in thousandths for floats.
use esphome_vitohome.Common.{
  [], ◌∷◌, ℕ, ◌+◌, ◌-◌, ◌*◌, ◌/◌, ◌≡◌, ◌≢◌, refl, true, false, ◌==◌, ltb, leb, Option, none, some,
  codes, int_10, ℤ, pos, negsuc, pos_part,
}
use esphome_vitohome.Hub.Access.{p300, switch, number}
use esphome_vitohome.Hub.Converters.{noconv}
use esphome_vitohome.Catalog.{Event}
use esphome_vitohome.Catalog.Floats.{Floats}
use esphome_vitohome.Emitter.{EntitySpec, plain_spec, entity, Factors}
use esphome_vitohome.Emitter.Values.{build_entity_spec}
use esphome_vitohome.Catalog.Options.{enum_options, dedup_option_labels}
use esphome_vitohome.Catalog.Options.Values.{values_of}
use esphome_vitohome.Catalog.Toggles.{enum_bool_pair}
use esphome_vitohome.Catalog.Toggles.Pairs.{ToggleSpec, Meant, enum_bool_pair_lem}
use esphome_vitohome.Emitter.Positions.{build_entity_spec-IsField}
use esphome_vitohome.Emitter.Extents.{IsField}
use esphome_vitohome.Tests.CatalogRules.{mode, value}

abbrev thousandths : Option ℤ → Option ℕ
thousandths none = none
thousandths (some (negsuc _)) = none
thousandths (some (pos n)) = some (n * 1000)

-- No number is printed.
abbrev pub decimals : Floats
decimals = record {
  Float = ℕ;
  parse = λ s. thousandths (int_10 (codes s));
  show = λ x. "";
  of_int = λ n. pos_part n * 1000;
  add = λ a b. a + b;
  sub = λ a b. a - b;
  mul = λ a b. a * b / 1000;
  div = λ a b. a * 1000 / b;
  abs = λ a. a;
  floor = λ a. pos (a / 1000);
  round = λ a. pos ((a + 500) / 1000);
  eq = λ a b. a == b;
  lt = ltb;
  le = leb;
}

abbrev pub no_factors : Factors ℕ
no_factors = record { conv_factor = none; conv_offset = none }

-- The 4 bits from bit 8 of a block of 4 bytes, on or off: a switch that writes the block back.
abbrev pub pump : EntitySpec ℕ
pump = record (plain_spec switch 0x2323) {
  length = pos 4;
  byte_offset = some (pos 1);
  bit_mask = some 0xF0;
  on_value = some 1;
  off_value = some 0;
  disabled_by_default = true;
  update_interval = some 3600;
}

-- A set point of one byte, the third of a block of 4, from 10 to 60: a number that writes the block
-- back.
abbrev pub set_point : Event
set_point = record mode {
  conversion = "NoConversion";
  block_length = some (pos 4);
  byte_length = some (pos 1);
  byte_position = some (pos 2);
  bit_length = none;
  bit_position = none;
  values = [];
  lower = "10";
  upper = "60";
  stepping = "1";
}

abbrev pub set_point_entity : EntitySpec ℕ
set_point_entity = record (plain_spec number 0x2323) {
  length = pos 4;
  byte_offset = some (pos 2);
  converter = some noconv;
  min_value = "10";
  max_value = "60";
  step = "1";
  bounds_placeholder = false;
  disabled_by_default = true;
  update_interval = some 3600;
}

set_point_emitted :
    build_entity_spec decimals set_point p300 true [] no_factors ≡ entity set_point_entity
unfolding build_entity_spec int_10
set_point_emitted = refl

enum_bool_pair_lem_example :
    Meant (dedup_option_labels (enum_options mode true)) 1 0
    × ToggleSpec (values_of (dedup_option_labels (enum_options mode false))) 1 0
    × (◌≢◌ {A = ℕ} 1 0)
unfolding enum_bool_pair
enum_bool_pair_lem_example = enum_bool_pair_lem mode false 1 0 refl

-- Two options that say neither on nor off.
abbrev scales : Event
scales = record mode { values = value (pos 0) "Celsius" ∷ value (pos 1) "Fahrenheit" ∷ [] }

-- The third byte.
build_entity_spec-IsField_example : IsField (pos 2) (pos 1) set_point_entity
build_entity_spec-IsField_example =
    build_entity_spec-IsField decimals set_point p300 true [] no_factors set_point_entity refl
      set_point_emitted (λ e. cc)
