-- ===== src/Emitter/Drafts.antt =====
-- scripts/vitocatalog/emitter.py `build_entity_spec`, its first part: the converter, the filters and
-- the writability that the conversion, the factor and the borders of a datapoint give.
pub mod Kept
use text.Mathlib.Text.{◌==◌ as str_eq}
use esphome_vitohome.Common.{
  String, Bool, true, false, not, ◌&&◌, ◌||◌, Option, none, some, List, [], ◌∷◌, ◌++◌, ℤ, pos,
  if◌then◌else◌,
}
use esphome_vitohome.Hub.Access.{Protocol}
use esphome_vitohome.Hub.Fields.{given}
use esphome_vitohome.Hub.Converters.{
  Converter, noconv, div2, div10, div100, div1000, sec2hour, mult2, mult5, mult10, mult100,
  rotatebytes,
}
use esphome_vitohome.Catalog.{Event}
use esphome_vitohome.Catalog.Modes.{is_writable}
use esphome_vitohome.Catalog.Floats.{Floats, nought, one}
use esphome_vitohome.Catalog.Scales.{BoundsScale, scale_from_bounds, is_identity}
use esphome_vitohome.Emitter.{Filter, ConversionKind, scaled, plain, conversion_of, Factors}
use esphome_vitohome.Emitter.Presets.{
  eff_factor, or_nought, preset_of, factor_filters, offset_filters,
}
use esphome_vitohome.Emitter.Fields.{kind_filters, no_filters}

-- The local variables `conv`, `conv_kind`, `value_filters` and `writable`.
pub record Draft (Float : Type 0) : Type 0 where
  pub conv : Option Converter
  pub kind : ConversionKind
  pub filters : List (Filter Float)
  pub writable : Bool

-- `preset.startswith("div")`
abbrev pub preset_kind : Converter → ConversionKind
preset_kind div2 = scaled
preset_kind div10 = scaled
preset_kind div100 = scaled
preset_kind div1000 = scaled
preset_kind _ = plain

abbrev pub is_mult_offset : String → Bool
is_mult_offset conversion = str_eq conversion "MultOffset"

-- `unmapped_conversion`
abbrev pub is_unmapped : Option Converter → String → Bool
is_unmapped none conversion = not (is_identity conversion || is_mult_offset conversion)
is_unmapped (some _) conversion = false

abbrev pub is_noconv : Option Converter → Bool
is_noconv (some noconv) = true
is_noconv _ = false

module _ (F : Floats) where
  open F use {Float, eq}

  -- The conversion as it stands.
  unfoldable pub first_draft : Event → Protocol → Draft Float
  unfolding conversion_of is_writable
  first_draft ev protocol = record {
    conv = (conversion_of ev.conversion).0;
    kind = (conversion_of ev.conversion).1;
    filters = [];
    writable = is_writable ev protocol;
  }

  -- The borders imply the scale: always read-only.
  abbrev pub bounds_draft : BoundsScale Float → Draft Float → Draft Float
  bounds_draft bs d = record d {
    conv = some noconv;
    filters = kind_filters F bs.kind bs;
    writable = false;
  }

  -- A factor, or an offset with it, that is no preset.
  abbrev pub is_transform : Option Float → Float → Bool
  is_transform none o = false
  is_transform (some f) o = not (eq f (one F)) || not (eq o (nought F))

  abbrev pub or_noconv_draft : Draft Float → Draft Float
  or_noconv_draft d = elim d.conv as (λ _. Draft Float) [
    | none ↦ record d { conv = some noconv }
    | some _ ↦ d
  ]

  abbrev pub transform_filters : Bool → Option Float → Float → List (Filter Float)
  transform_filters written f o = if written then [] else factor_filters F f ++ offset_filters F o

  abbrev pub factor_draft :
      String → Option Float → Float → Option Converter → Draft Float → Draft Float
  factor_draft conversion f o (some name) d = record d { conv = some name; kind = preset_kind name }
  factor_draft conversion f o none d =
      if is_transform f o
      then record d {
        conv = some noconv;
        filters =
            d.filters ++ transform_filters (d.writable && not (is_mult_offset conversion)) f o;
      }
      else or_noconv_draft d

  -- `factor_driven`
  abbrev pub factor_driven : String → Option Float → Bool
  factor_driven conversion f = is_mult_offset conversion || (is_identity conversion && given f)

  -- A factor of exactly 1 is no preset.
  abbrev pub real_preset : Option Float → Float → Option Converter
  real_preset none o = none
  real_preset (some f) o = if eq f (one F) then none else preset_of F (some f) o

  abbrev pub by_factor : Event → Factors Float → Draft Float → Draft Float
  by_factor ev factors d =
      let f = eff_factor F factors in
      let o = or_nought F factors.conv_offset in
      if factor_driven ev.conversion f
      then factor_draft ev.conversion f o (real_preset f o) d
      else d

  abbrev pub by_bounds :
      Event → Factors Float → Option (BoundsScale Float) → Draft Float → Draft Float
  by_bounds ev factors (some bs) d = bounds_draft bs d
  by_bounds ev factors none d = by_factor ev factors d

  -- A named conversion without a preset has no encode path.
  abbrev pub demote_unmapped : Bool → Draft Float → Draft Float
  demote_unmapped unmapped d =
      if d.writable && unmapped && is_noconv d.conv && no_filters F d.filters
      then record d { writable = false }
      else d

  unfoldable pub draft_of : Event → Protocol → Factors Float → Draft Float
  unfolding first_draft scale_from_bounds
  draft_of ev protocol factors =
      demote_unmapped (is_unmapped (conversion_of ev.conversion).0 ev.conversion) (
        or_noconv_draft
          (by_bounds ev factors (scale_from_bounds F ev protocol) (first_draft ev protocol)))
