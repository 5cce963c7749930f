-- ===== src/Hub/Converters.antt =====
-- components/vitohome/__init__.py: the converter presets. The scale, a float, is not modelled.
use esphome_vitohome.Common.{ℕ, Bool, true, false, none, some, List, [], ◌∷◌}
use esphome_vitohome.Hub.Invalid.{Result, ok, invalid, ◌>>◌, converter_width}
use esphome_vitohome.Hub.Fields.{Config, contains, guard}

pub data Converter : Type 0 where
  noconv div2 div10 div100 div1000 sec2hour mult2 mult5 mult10 mult100 rotatebytes : Converter

-- The columns of `CONVERTERS`.
unfoldable pub default_signed : Converter → Bool
default_signed div2 = true
default_signed div10 = true
default_signed _ = false

unfoldable pub lengths : Converter → List ℕ
lengths noconv = 1 ∷ 2 ∷ 3 ∷ 4 ∷ []
lengths div2 = 1 ∷ 2 ∷ []
lengths div10 = 1 ∷ 2 ∷ []
lengths div1000 = 2 ∷ 4 ∷ []
lengths sec2hour = 4 ∷ []
lengths rotatebytes = 2 ∷ []
lengths _ = 1 ∷ 2 ∷ 4 ∷ []

unfoldable pub encodable : Converter → Bool
encodable sec2hour = false
encodable rotatebytes = false
encodable _ = true

unfoldable pub big_endian : Converter → Bool
big_endian rotatebytes = true
big_endian _ = false

-- `resolve_signed`
unfoldable pub resolve_signed : Converter → Config → Bool
unfolding default_signed
resolve_signed name c = elim c.signed [ none ↦ default_signed name | some signed ↦ signed ]

-- `validate_converter_length`
unfoldable pub validate_converter_length : Converter → Config → Result Config
validate_converter_length name c =
    guard (contains (lengths name) c.length) (invalid (converter_width c.length)) >> ok c
