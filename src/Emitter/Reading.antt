-- ===== src/Emitter/Reading.antt =====
-- The component's reading of an emitted entity: the configuration that its keys stand for, and the
-- platform that validates it.
use esphome_vitohome.Common.{
  ℕ, ◌≡◌, true, false, Option, none, some, List, [], ◌∷◌, map, String, Text, codes, ℤ, pos,
}
use esphome_vitohome.Hub.Access.{Domain, sensor, binary_sensor, text_sensor, number, select, switch}
use esphome_vitohome.Hub.Invalid.{Result, ok}
use esphome_vitohome.Hub.Converters.{Converter, noconv}
use esphome_vitohome.Hub.Fields.{Config}
use esphome_vitohome.Platforms.{validate_number, validate_select, validate_switch, all_unique}
use esphome_vitohome.Readers.{
  validate_sensor, validate_binary_sensor, validate_enum, validate_string_extraction,
}
use esphome_vitohome.Catalog.Floats.{Floats, raw_of}
use esphome_vitohome.Emitter.{TextType, ascii, utf16, EntitySpec}

abbrev pub as_int : Option ℕ → Option ℤ
as_int none = none
as_int (some n) = some (pos n)

-- The keys of the field, as they stand in the file.
abbrev pub Written : {Float : Type 0} → EntitySpec Float → Config → Type 0
Written spec c =
    (spec.address ≡ c.address)
    × (spec.state_address ≡ c.state_address)
    × (spec.length ≡ pos c.length)
    × (spec.byte_offset ≡ as_int c.byte_offset)
    × (spec.byte_length ≡ as_int c.byte_length)
    × (spec.bit_mask ≡ c.bit_mask)
    × (spec.signed ≡ c.signed)

-- The options of the file: the same values and labels.
abbrev pub Labelled : List (ℕ × Text) → List (ℤ × String) → Type 0
Labelled [] [] = Unit
Labelled [] (_ ∷ _) = ⊥
Labelled (_ ∷ _) [] = ⊥
Labelled ((v, label) ∷ opts) ((w, s) ∷ options) =
    (w ≡ pos v) × (codes s ≡ label) × Labelled opts options

abbrev pub or_noconv : Option Converter → Converter
or_noconv none = noconv
or_noconv (some name) = name

module _ (F : Floats) where
  open F use {Float, parse, le}

  -- What the platform reads besides: the options of a select or of an enumeration, which it wants
  -- under different labels, and the bounds of a number, in order.
  abbrev pub IsRead : Domain → EntitySpec Float → List (ℤ × String) → (lo hi : Float) → Type 0
  IsRead select spec options lo hi =
      Labelled spec.options options × (all_unique (map (λ p. p.1) options) ≡ true)
  IsRead text_sensor spec options lo hi = Labelled spec.options options
  IsRead number spec options lo hi =
      (parse spec.min_value ≡ some lo) × (parse spec.max_value ≡ some hi) × (le lo hi ≡ true)
  IsRead _ spec options lo hi = Unit

  abbrev pub switch_values : Option ℕ → ℕ → ℤ
  switch_values none default = pos default
  switch_values (some v) default = pos v

  abbrev pub text_result : Option TextType → List (ℤ × String) → Config → Result Config
  text_result (some ascii) options c = validate_string_extraction 32 false c
  text_result (some utf16) options c = validate_string_extraction 40 true c
  text_result _ options c = validate_enum options c

  -- The validators of the entity's platform; the keys that are not emitted have their defaults.
  abbrev pub validated :
      Domain → EntitySpec Float → List (ℤ × String) → (lo hi : Float) → Config → Result Config
  validated sensor spec options lo hi c = validate_sensor (or_noconv spec.converter) c
  validated binary_sensor spec options lo hi c = validate_binary_sensor c
  validated text_sensor spec options lo hi c = text_result spec.platform_type options c
  validated number spec options lo hi c =
      validate_number (raw_of F) le (or_noconv spec.converter) lo hi c
  validated select spec options lo hi c = validate_select options c
  validated switch spec options lo hi c =
      validate_switch (switch_values spec.on_value 1) (switch_values spec.off_value 0) [] true c
  validated _ spec options lo hi c = ok c

  -- The emitted keys make a configuration that the platform accepts as it stands.
  abbrev pub IsAccepted : EntitySpec Float → List (ℤ × String) → (lo hi : Float) → Type 0
  IsAccepted spec options lo hi =
      (c : Config) × Written spec c × (validated spec.platform spec options lo hi c ≡ ok c)
