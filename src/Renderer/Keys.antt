-- ===== src/Renderer/Keys.antt =====
-- scripts/vitocatalog/renderer.py `generate`: its arguments, its state, and what tells two fields apart.
use text.Mathlib.Text.{◌==◌ as str_eq}
use esphome_vitohome.Common.{
  ℕ, ◌+◌, Bool, true, false, ◌&&◌, ◌||◌, Option, none, some, List, [], ◌∷◌, String, Text, codes,
  strip, is_space, same_text, ℤ, pos, eqb_ℤ, ltb, ◌==◌, any, if◌then◌else◌,
}
use esphome_vitohome.Hub.Access.{
  Protocol, Access, rpc, gfa, Domain, sensor, binary_sensor, text_sensor,
}
use esphome_vitohome.Catalog.{int_or}
use esphome_vitohome.Catalog.Modes.{access_eq, rpc_prefix}
use esphome_vitohome.Catalog.Floats.{Floats}
use esphome_vitohome.Special.{Program, Entry}
use esphome_vitohome.Emitter.{EntitySpec, Reason, Factors}
use esphome_vitohome.Renderer.Profiles.{Profile}

-- The arguments of `generate` that the pass reads; `is_selected` is what `include_re` and `exclude_re`
-- leave of a name, `selectors` are `catalog.rpc_selector_addresses()`.
pub record Settings : Type 0 where
  pub protocol : Protocol
  pub profile : Profile
  pub emit_device_id : Bool
  pub emit_error_history : Bool
  pub reachable_only : Bool
  pub partial_writes : Bool
  pub is_selected : String → Bool
  pub selectors : List ℕ

-- A datapoint with the attributes that `Event` holds besides.
pub record Item (Float : Type 0) : Type 0 where
  pub program : Program
  pub factors : Factors Float

-- `_gfa_decode_key`
pub record Decoding (Float : Type 0) : Type 0 where
  pub conversion : String
  pub factor : Option Float
  pub offset : Option Float
  pub unit : Text

-- `_field_key`
pub record FieldKey (Float : Type 0) : Type 0 where
  pub address : Option ℕ
  pub byte : ℤ
  pub bit : ℤ
  pub access : Option Access
  pub prefix : List ℕ
  pub decoding : Option (Decoding Float)

-- What the pass emits: a day of a weekly program, as a `text` or as a raw `text_sensor`; the button of a
-- procedure; an entity with its access mode and its prefix.
pub data Emission (Float : Type 0) : Type 0 where
  day : ℕ → Option Access → Emission Float
  raw_day : Entry → Option Access → Emission Float
  action : Option ℕ → List ℕ → Emission Float
  datapoint : EntitySpec Float → Option Access → Option (List ℕ) → Emission Float

pub record Pass (Float : Type 0) : Type 0 where
  pub seen : List (FieldKey Float)
  pub actions : List (Option ℕ × List ℕ)
  pub emitted : List (Emission Float)
  pub comments : List Reason
  pub deferred : List (Item Float)

abbrev pub is_wide : Option ℕ → ℕ → Bool
is_wide none n = false
is_wide (some a) n = ltb 0xFF (a + n)

-- `_is_identification`
abbrev pub is_identification : Option ℕ → Bool
is_identification none = false
is_identification (some a) = a == 0xF8 || a == 0xF9 || a == 0xFA || a == 0xFB

abbrev pub is_rpc_mode : Option Access → Bool
is_rpc_mode (some rpc) = true
is_rpc_mode _ = false

abbrev pub is_gfa_mode : Option Access → Bool
is_gfa_mode (some gfa) = true
is_gfa_mode _ = false

-- `RPC_PLATFORMS`, `GFA_PLATFORMS`
abbrev pub takes_reading : Domain → Bool
takes_reading sensor = true
takes_reading binary_sensor = true
takes_reading text_sensor = true
takes_reading _ = false

abbrev pub same_numbers : List ℕ → List ℕ → Bool
same_numbers [] [] = true
same_numbers (a ∷ ms) (b ∷ ns) = (a == b) && same_numbers ms ns
same_numbers _ _ = false

abbrev pub same_address : Option ℕ → Option ℕ → Bool
same_address none none = true
same_address (some a) (some b) = a == b
same_address _ _ = false

abbrev pub is_selector : List ℕ → Option ℕ → Bool
is_selector selectors none = false
is_selector selectors (some a) = any (λ b. b == a) selectors

abbrev pub has_action : Option ℕ → List ℕ → List (Option ℕ × List ℕ) → Bool
has_action address parameter actions =
    any (λ k. same_address k.0 address && same_numbers k.1 parameter) actions

module _ (F : Floats) where
  open F use {Float, eq}

  abbrev pub same_float : Option Float → Option Float → Bool
  same_float none none = true
  same_float (some a) (some b) = eq a b
  same_float _ _ = false

  abbrev pub same_decoding : Option (Decoding Float) → Option (Decoding Float) → Bool
  same_decoding none none = true
  same_decoding (some a) (some b) =
      str_eq a.conversion b.conversion
      && same_float a.factor b.factor
      && same_float a.offset b.offset
      && same_text a.unit b.unit
  same_decoding _ _ = false

  abbrev pub same_key : FieldKey Float → FieldKey Float → Bool
  same_key a b =
      same_address a.address b.address
      && eqb_ℤ a.byte b.byte
      && eqb_ℤ a.bit b.bit
      && access_eq a.access b.access
      && same_numbers a.prefix b.prefix
      && same_decoding a.decoding b.decoding

  abbrev pub is_seen : FieldKey Float → List (FieldKey Float) → Bool
  is_seen k seen = any (λ j. same_key j k) seen

  abbrev pub numbers_or_none : Option (List ℕ) → List ℕ
  numbers_or_none none = []
  numbers_or_none (some ns) = ns

  -- `_field_key`, of the access mode of the datapoint.
  unfoldable pub field_key : Item Float → Option Access → FieldKey Float
  unfolding rpc_prefix is_space
  field_key it access =
      let ev = it.program.event in
      record {
        address = ev.address;
        byte = int_or ev.byte_position (pos 0);
        bit = int_or ev.bit_position (pos 0);
        access = access;
        prefix = if is_rpc_mode access then numbers_or_none (rpc_prefix ev.prefix_read) else [];
        decoding =
            if is_gfa_mode access
            then some (record {
              conversion = ev.conversion;
              factor = it.factors.conv_factor;
              offset = it.factors.conv_offset;
              unit = strip (codes ev.unit_token);
            })
            else none;
      }
