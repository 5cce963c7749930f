-- ===== src/Emitter.antt =====
-- scripts/vitocatalog/emitter.py and models.py: what a datapoint becomes. The texts of a specification
-- (name, notes, comments, labels of on and off, unit, device class, icon) are display and left out.
pub mod Presets
pub mod Reading
pub mod Fields
pub mod Drafts
pub mod Strings
pub mod Platforms
pub mod Values
pub mod Accepted
pub mod Holds
pub mod Addresses
pub mod Extents
pub mod Positions
use text.Mathlib.Text.{◌==◌ as str_eq}
use esphome_vitohome.Common.{
  ℕ, zero, suc, Bool, true, false, not, ◌&&◌, ◌||◌, Option, none, some, List, [], ◌∷◌, String, Text,
  ℤ, pos, eqb_ℤ, any, if◌then◌else◌, ◌==◌,
}
use esphome_vitohome.Hub.Access.{Protocol, Domain}
use esphome_vitohome.Hub.Converters.{
  Converter, noconv, div2, div10, div100, div1000, sec2hour, mult2, mult5, mult10, mult100,
  rotatebytes,
}
use esphome_vitohome.Catalog.{Event, int_or}
use esphome_vitohome.Catalog.Modes.{is_writable}
use esphome_vitohome.Catalog.Blocks.{command_state_addr}

pub data TextType : Type 0 where
  enum ascii utf16 : TextType

pub data Filter (Float : Type 0) : Type 0 where
  multiply : Float → Filter Float
  offset : Float → Filter Float

-- models.py `EntitySpec`
pub record EntitySpec (Float : Type 0) : Type 0 where
  pub platform : Domain
  pub platform_type : Option TextType
  pub address : ℕ
  pub length : ℤ
  pub byte_offset : Option ℤ
  pub byte_length : Option ℤ
  pub state_address : Option ℕ
  pub bit_mask : Option ℕ
  pub converter : Option Converter
  pub signed : Option Bool
  pub on_value : Option ℕ
  pub off_value : Option ℕ
  pub min_value : String
  pub max_value : String
  pub step : String
  pub bounds_placeholder : Bool
  pub filters : List (Filter Float)
  pub total_increasing : Bool
  pub options : List (ℕ × Text)
  pub option_hex_width : Option ℤ
  pub disabled_by_default : Bool
  pub update_interval : Option ℕ
  pub diagnostic : Bool

-- The defaults of the fields.
abbrev pub plain_spec : {Float : Type 0} → Domain → ℕ → EntitySpec Float
plain_spec platform address = record {
  platform = platform;
  platform_type = none;
  address = address;
  length = pos 1;
  byte_offset = none;
  byte_length = none;
  state_address = none;
  bit_mask = none;
  converter = none;
  signed = none;
  on_value = none;
  off_value = none;
  min_value = "";
  max_value = "";
  step = "";
  bounds_placeholder = false;
  filters = [];
  total_increasing = false;
  options = [];
  option_hex_width = none;
  disabled_by_default = false;
  update_interval = none;
  diagnostic = false;
}

-- Why a datapoint is only a comment: the cases of the texts in a `CommentSpec`.
pub data Reason : Type 0 where
  non_numeric write_only not_one_byte contradictory beyond_read values_beyond_field : Reason
  not_aligned ascii_too_long string_block_too_long utf16_length too_wide big_endian_width : Reason

-- The result of the builders: `None`, a `CommentSpec` or an `EntitySpec`.
pub data Emitted (Float : Type 0) : Type 0 where
  skipped : Emitted Float
  comment : Reason → Emitted Float
  entity : EntitySpec Float → Emitted Float

-- constants.py `DIV`, `COUNTER`, `PLAIN`
pub data ConversionKind : Type 0 where
  scaled counter plain : ConversionKind

abbrev pub is_counter : ConversionKind → Bool
is_counter counter = true
is_counter _ = false

-- constants.py `CONVERSION_MAP`
abbrev pub conversion_map : List (String × (Option Converter × ConversionKind))
conversion_map =
    ("", (some noconv, plain))
    ∷ ("NoConversion", (some noconv, plain))
    ∷ ("Div2", (some div2, scaled))
    ∷ ("Div10", (some div10, scaled))
    ∷ ("Div100", (some div100, scaled))
    ∷ ("Div1000", (some div1000, scaled))
    ∷ ("Mult2", (some mult2, plain))
    ∷ ("Mult5", (some mult5, plain))
    ∷ ("Mult10", (some mult10, plain))
    ∷ ("Mult100", (some mult100, plain))
    ∷ ("Sec2Hour", (some sec2hour, counter))
    ∷ ("RotateBytes", (some rotatebytes, plain))
    ∷ ("Sec2Minute", (none, counter))
    ∷ []

abbrev pub conversion_in :
    String → List (String × (Option Converter × ConversionKind)) → Option Converter × ConversionKind
conversion_in conversion [] = (none, plain)
conversion_in conversion ((word, row) ∷ rows) =
    let rest = conversion_in conversion rows in if str_eq conversion word then row else rest

-- `CONVERSION_MAP.get(ev.conversion, (None, PLAIN))`
unfoldable pub conversion_of : String → Option Converter × ConversionKind
conversion_of conversion = conversion_in conversion conversion_map

-- The keys of constants.py `NON_NUMERIC_CONVERSIONS`.
abbrev pub non_numeric_conversions : List String
non_numeric_conversions =
    "DateTimeBCD" ∷ "DateBCD" ∷ "Time53" ∷ "IPAddress" ∷ "Phone2BCD" ∷ "Convert4BytesToFloat"
    ∷ "HexToFloat" ∷ "MultOffsetFloat" ∷ "MultOffsetBCD" ∷ []

unfoldable pub is_non_numeric : String → Bool
is_non_numeric conversion = any (λ word. str_eq conversion word) non_numeric_conversions

-- `COMMAND_STATE_ADDR.get(addr)`
abbrev pub state_in : ℕ → List (ℕ × ℕ) → Option ℕ
state_in addr [] = none
state_in addr ((command, state) ∷ rows) =
    let rest = state_in addr rows in if command == addr then some state else rest

abbrev pub state_address_of : ℕ → Option ℕ
state_address_of addr = state_in addr command_state_addr

-- transforms.py `_poll_for`
unfoldable pub poll_for : Event → ConversionKind → Protocol → ℕ
unfolding is_writable
poll_for ev kind protocol =
    if is_writable ev protocol then 3600 else if is_counter kind then 600 else 60

-- `ev.block_length or ev.byte_length or 1`
abbrev pub block_length_of : Event → ℤ
block_length_of ev = int_or ev.block_length (int_or ev.byte_length (pos 1))

-- `ev.byte_position and ev.byte_position != byte`
abbrev pub contradicts : Option ℤ → ℤ → Bool
contradicts none byte = false
contradicts (some (pos zero)) byte = false
contradicts (some p) byte = not (eqb_ℤ p byte)

-- The two floats of an `Event`, its `conv_factor` and `conv_offset`.
pub record Factors (Float : Type 0) : Type 0 where
  pub conv_factor : Option Float
  pub conv_offset : Option Float
