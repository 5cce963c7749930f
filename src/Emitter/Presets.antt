-- ===== src/Emitter/Presets.antt =====
-- scripts/vitocatalog/emitter.py and constants.py: a factor as one of the component's converters, and
-- the filters of what is none.
use esphome_vitohome.Common.{ℕ, Option, none, some, List, [], ◌∷◌, pos, if◌then◌else◌}
use esphome_vitohome.Hub.Converters.{
  Converter, noconv, div2, div10, div100, div1000, sec2hour, mult2, mult5, mult10, mult100,
  rotatebytes,
}
use esphome_vitohome.Catalog.Floats.{Floats, nought, one, ratio, conv_scale}
use esphome_vitohome.Emitter.{Filter, multiply, offset, Factors}

-- constants.py `_CONV_LENGTHS`
unfoldable pub conv_lengths : Converter → List ℕ
conv_lengths noconv = 1 ∷ 2 ∷ 3 ∷ 4 ∷ []
conv_lengths div2 = 1 ∷ 2 ∷ []
conv_lengths div10 = 1 ∷ 2 ∷ []
conv_lengths div100 = 1 ∷ 2 ∷ 4 ∷ []
conv_lengths div1000 = 2 ∷ 4 ∷ []
conv_lengths sec2hour = 4 ∷ []
conv_lengths mult2 = 1 ∷ 2 ∷ 4 ∷ []
conv_lengths mult5 = 1 ∷ 2 ∷ 4 ∷ []
conv_lengths mult10 = 1 ∷ 2 ∷ 4 ∷ []
conv_lengths mult100 = 1 ∷ 2 ∷ 4 ∷ []
conv_lengths rotatebytes = 2 ∷ []

module _ (F : Floats) where
  open F use {Float, of_int, sub, abs, eq, lt}

  -- constants.py `_FACTOR_PRESETS`
  abbrev pub factor_presets : List (Float × Converter)
  factor_presets =
      (of_int (pos 2), mult2)
      ∷ (of_int (pos 5), mult5)
      ∷ (of_int (pos 10), mult10)
      ∷ (of_int (pos 100), mult100)
      ∷ (ratio F 1 2, div2)
      ∷ (ratio F 1 10, div10)
      ∷ (ratio F 1 100, div100)
      ∷ (ratio F 1 1000, div1000)
      ∷ []

  -- The loop over the presets: the first that is nearer than 1e-12.
  abbrev pub nearest : Float → List (Float × Converter) → Option Converter
  nearest f [] = none
  nearest f ((pf, name) ∷ rows) =
      let rest = nearest f rows in
      if lt (abs (sub f pf)) (ratio F 1 1000000000000) then some name else rest

  -- `conv_factor if conv_factor not in (None, 0.0) else None`
  abbrev pub real_factor : Option Float → Option Float
  real_factor none = none
  real_factor (some f) = if eq f (nought F) then none else some f

  abbrev pub eff_factor : Factors Float → Option Float
  eff_factor factors = real_factor factors.conv_factor

  -- `conv_offset or 0.0`
  abbrev pub or_nought : Option Float → Float
  or_nought none = nought F
  or_nought (some o) = o

  abbrev pub preset_of : Option Float → Float → Option Converter
  preset_of none o = none
  preset_of (some f) o = if eq o (nought F) then nearest f factor_presets else none

  -- A filter for a factor other than 1 and for an offset other than 0.
  abbrev pub factor_filters : Option Float → List (Filter Float)
  factor_filters none = []
  factor_filters (some f) = if eq f (one F) then [] else multiply f ∷ []

  abbrev pub offset_filters : Float → List (Filter Float)
  offset_filters o = if eq o (nought F) then [] else offset o ∷ []

  -- The scale of a converter that gives way to `noconv`.
  abbrev pub scale_filters : Converter → List (Filter Float)
  scale_filters name =
      if eq (conv_scale F name) (one F) then [] else multiply (conv_scale F name) ∷ []
