-- ===== src/Platforms.antt =====
-- components/vitohome/number.py, select.py, switch.py: the writable scalar platforms. Each
-- `validate_…` is the chain of validators behind the platform's schema, in its order; the schema
-- itself (types, ranges of single keys, defaults) is ESPHome's and its results are the arguments.
pub mod Writable
pub mod Choices
use text.Mathlib.Text.{◌==◌ as str_eq}
use esphome_vitohome.Common.{
  ℕ, String, Bool, true, false, not, ◌&&◌, ◌||◌, Option, none, some, List, [], ◌∷◌, map, ℤ, pos,
  leb_ℤ, eqb_ℤ, if◌then◌else◌, any, all,
}
use esphome_vitohome.Hub.Invalid.{
  Result, ok, invalid, ◌>>=◌, ◌>>◌, converter_width, value_outside_mask, value_outside_width,
  min_above_max, no_options, labels_not_unique, equal_states, off_value_reads_on, restore_mode,
}
use esphome_vitohome.Hub.Masks.{bit_field_max}
use esphome_vitohome.Hub.Fields.{
  Config, contains, guard, field_width, validate_block_extraction, validate_bit_field,
  validate_bit_field_values, raw_fits,
}
use esphome_vitohome.Hub.Converters.{Converter, lengths, resolve_signed}

-- number.py `_validate_converter_field_width`
unfoldable pub validate_converter_field_width : Converter → Config → Result Config
unfolding field_width
validate_converter_field_width name c =
    guard (contains (lengths name) (field_width c)) (invalid (converter_width (field_width c)))
    >> ok c

-- The bound's raw value against the mask, or the width and the sign.
abbrev pub bound_fits : Converter → Config → ℤ → Result (Unit {0})
bound_fits name c raw = elim c.bit_mask [
  | some mask ↦
      guard (leb_ℤ (pos 0) raw && leb_ℤ raw (pos (bit_field_max mask)))
        (invalid (value_outside_mask raw mask))
  | none ↦
      guard (raw_fits raw (field_width c) (resolve_signed name c))
        (invalid (value_outside_width raw (field_width c)))
]

-- A float and what is done with it: `raw_of name v` is `llround(v / converter_scale(name))`.
module _ {Float : Type 0} (raw_of : Converter → Float → ℤ) (float_le : Float → Float → Bool) where
  -- number.py `_validate_encodable_range`
  unfoldable pub validate_encodable_range :
      Converter → (min_value max_value : Float) → Config → Result Config
  unfolding raw_fits field_width resolve_signed
  validate_encodable_range name min_value max_value c = do
    bound_fits name c (raw_of name min_value)
    bound_fits name c (raw_of name max_value)
    guard (float_le min_value max_value) (invalid min_above_max)
    ok c

  unfoldable pub validate_number :
      Converter → (min_value max_value : Float) → Config → Result Config
  validate_number name min_value max_value c = do
    c₁ ← validate_block_extraction (1 ∷ 2 ∷ 3 ∷ 4 ∷ []) c
    c₂ ← validate_converter_field_width name c₁
    c₃ ← validate_bit_field true c₂
    validate_encodable_range name min_value max_value c₃

abbrev pub all_fit : ℕ → List ℤ → Result (Unit {0})
all_fit width [] = ok tt
all_fit width (v ∷ vs) =
    let rest = all_fit width vs in
    if raw_fits v width false then rest else invalid (value_outside_width v width)

abbrev pub is_in : String → List String → Bool
is_in s xs = any (λ x. str_eq s x) xs

-- `len(set(labels)) == len(labels)`
abbrev pub all_unique : List String → Bool
all_unique [] = true
all_unique (s ∷ xs) = not (is_in s xs) && all_unique xs

-- select.py `_validate_options`; the options in the order of the file.
unfoldable pub validate_options : List (ℤ × String) → Config → Result Config
unfolding raw_fits field_width
validate_options [] c = invalid no_options
validate_options (o ∷ os) c = do
  all_fit (field_width c) (map (λ p. p.0) (o ∷ os))
  guard (all_unique (map (λ p. p.1) (o ∷ os))) (invalid labels_not_unique)
  validate_bit_field_values c (map (λ p. p.0) (o ∷ os))

unfoldable pub validate_select : List (ℤ × String) → Config → Result Config
validate_select options c = do
  c₁ ← validate_block_extraction (1 ∷ 2 ∷ []) c
  c₂ ← validate_bit_field true c₁
  validate_options options c₂

abbrev pub int_in : ℤ → List ℤ → Bool
int_in v xs = any (λ x. eqb_ℤ v x) xs

-- `config.get(CONF_ON_VALUES) or [on_value]`
abbrev pub on_set : ℤ → List ℤ → List ℤ
on_set on_value [] = on_value ∷ []
on_set on_value (v ∷ vs) = v ∷ vs

-- switch.py `_validate_switch`; a key `on_values` that is absent is the empty list. The source walks
-- the values as a set: here in order, which fixes no more than which error is reported.
unfoldable pub validate_states :
    (on_value off_value : ℤ) → List ℤ → (disabled : Bool) → Config → Result Config
unfolding raw_fits field_width
validate_states on_value off_value on_values disabled c = do
  guard (not (eqb_ℤ on_value off_value)) (invalid equal_states)
  guard (not (int_in off_value (on_set on_value on_values)))
      (invalid (off_value_reads_on off_value))
  all_fit (field_width c) (on_value ∷ off_value ∷ on_set on_value on_values)
  c₁ ← validate_bit_field_values c (on_value ∷ off_value ∷ on_set on_value on_values)
  guard disabled (invalid restore_mode)
  ok c₁

unfoldable pub validate_switch :
    (on_value off_value : ℤ) → List ℤ → (disabled : Bool) → Config → Result Config
validate_switch on_value off_value on_values disabled c = do
  c₁ ← validate_block_extraction (1 ∷ 2 ∷ []) c
  c₂ ← validate_bit_field true c₁
  validate_states on_value off_value on_values disabled c₂
