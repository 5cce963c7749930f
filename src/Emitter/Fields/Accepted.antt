-- ===== src/Emitter/Fields/Accepted.antt =====
-- What `_build_bit_field_spec` emits, the component accepts.
use text.Mathlib.Text.{◌==◌ as str_eq}
use esphome_vitohome.Common.{
  ◌≡◌, Bool, true, false, Option, none, some, List, [], arith, and-true, String, Text, ℤ,
  if◌then◌else◌,
}
use esphome_vitohome.Hub.Access.{Protocol}
use esphome_vitohome.Hub.Converters.{Converter}
use esphome_vitohome.Catalog.{Event}
use esphome_vitohome.Catalog.Blocks.{Blocks}
use esphome_vitohome.Catalog.Floats.{Floats}
use esphome_vitohome.Catalog.Scales.{BoundsScale, is_identity, scale_from_bounds}
use esphome_vitohome.Emitter.{conversion_of, EntitySpec, Factors}
use esphome_vitohome.Emitter.Presets.{eff_factor, or_nought, preset_of}
use esphome_vitohome.Emitter.Reading.{IsRead, IsAccepted}
use esphome_vitohome.Emitter.Fields.{
  Decoding, identity_field, mult_offset_field, one_byte_from, one_byte, declared_field,
}

-- What decoding leaves writable was writable.
identity_field-demotes :
    (F : Floats) (w : Bool) (o : Option (BoundsScale F.Float))
    → (identity_field F w o).writable ≡ true
    → w ≡ true
identity_field-demotes F w none h = h
identity_field-demotes F w (some bs) h = cc

mult_offset_field-demotes :
    (F : Floats) (w : Bool) (factors : Factors F.Float) (o : Option Converter)
    → (mult_offset_field F w factors o).writable ≡ true
    → w ≡ true
mult_offset_field-demotes F w factors (some name) h = h
mult_offset_field-demotes F w factors none h = (and-true w _ h).0

module _ (F : Floats) where
  either_demotes :
      (b : Bool) (w : Bool) (x y : Decoding F.Float)
      → (x.writable ≡ true → w ≡ true)
      → (y.writable ≡ true → w ≡ true)
      → (let d : Decoding F.Float = if b then x else y in d.writable ≡ true → w ≡ true)
  either_demotes true w x y h k = h
  either_demotes false w x y h k = k

  pub declared_field-demotes :
      (ev : Event) (protocol : Protocol) (w : Bool) (factors : Factors F.Float)
      → (declared_field F ev protocol w factors).writable ≡ true
      → w ≡ true
  unfolding declared_field
  declared_field-demotes ev protocol w factors =
      either_demotes (is_identity ev.conversion) w
        (identity_field F w (scale_from_bounds F ev protocol))
        (if str_eq ev.conversion "MultOffset"
          then mult_offset_field F w factors
              (preset_of F (eff_factor F factors) (or_nought F factors.conv_offset))
          else record { conv = (conversion_of ev.conversion).0; filters = []; writable = w })
        (identity_field-demotes F w (scale_from_bounds F ev protocol))
        (either_demotes (str_eq ev.conversion "MultOffset") w
          (mult_offset_field F w factors
            (preset_of F (eff_factor F factors) (or_nought F factors.conv_offset)))
          (record { conv = (conversion_of ev.conversion).0; filters = []; writable = w })
          (mult_offset_field-demotes F w factors
            (preset_of F (eff_factor F factors) (or_nought F factors.conv_offset)))
          (λ h. h))

  pub one_byte-demotes : (d : Decoding F.Float) → (one_byte F d).writable ≡ true → d.writable ≡ true
  unfolding one_byte
  one_byte-demotes d = go d.conv
    where
      go :
          (o : Option Converter)
          → (one_byte_from F o d.filters d.writable).writable ≡ true
          → d.writable ≡ true
      go none h = cc
      go (some name) h = ground arith

  -- An entity of a list of possible results.
  abbrev AcceptedAs : List (ℤ × String) → (lo hi : F.Float) → EntitySpec F.Float → Type 0
  AcceptedAs options lo hi spec =
      IsRead F spec.platform spec options lo hi → IsAccepted F spec options lo hi
