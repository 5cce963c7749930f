-- ===== src/Catalog/Scales.antt =====
-- scripts/vitocatalog/transforms.py: what the borders of a datapoint say of its raw encoding.
pub mod Borders
use text.Mathlib.Text.{◌==◌ as str_eq}
use esphome_vitohome.Common.{
  ℕ, ◌-◌, ◌*◌, ◌^◌, Bool, true, false, not, ◌&&◌, ◌||◌, Option, none, some, List, [], ◌∷◌, String,
  codes, ℤ, pos, negsuc, pos_part, leb_ℤ, ltb_ℤ, eqb_ℤ, any, if◌then◌else◌, same_text,
}
use esphome_vitohome.Hub.Access.{Protocol}
use esphome_vitohome.Hub.Converters.{Converter}
use esphome_vitohome.Catalog.{EventValue, Event, normal, int_or, is_empty}
use esphome_vitohome.Catalog.Modes.{is_gwg}
use esphome_vitohome.Catalog.Toggles.{has_word}
use esphome_vitohome.Catalog.Floats.{Floats, nought, ratio, raw_of, llround, conv_scale}

-- `a or b` on strings.
abbrev pub str_or : String → String → String
str_or a b = if is_empty (codes a) then b else a

abbrev pub first_of : (EventValue → String) → List EventValue → String
first_of field [] = ""
first_of field (v ∷ vs) = field v

-- `ev.lower or (vals[0].lower if vals else "")`, and so on.
abbrev pub lower_of : Event → String
lower_of ev = str_or ev.lower (first_of (λ v. v.lower) ev.values)

abbrev pub upper_of : Event → String
upper_of ev = str_or ev.upper (first_of (λ v. v.upper) ev.values)

abbrev pub stepping_of : Event → String
stepping_of ev = str_or ev.stepping (first_of (λ v. v.stepping) ev.values)

-- `ev.conversion in ("", "NoConversion")`
abbrev pub is_identity : String → Bool
is_identity conversion = str_eq conversion "" || str_eq conversion "NoConversion"

pub data ScaleKind : Type 0 where
  scale affine ambiguous : ScaleKind

-- models.py `BoundsScale`
pub record BoundsScale (Float : Type 0) : Type 0 where
  pub kind : ScaleKind
  pub factor : Float
  pub offset : Float
  pub raw_lo : ℤ
  pub raw_hi : ℤ

-- `ev.byte_length or ev.block_length or 1`
abbrev pub width_of : Event → ℤ
width_of ev = int_or ev.byte_length (int_or ev.block_length (pos 1))

abbrev pub in_1_to_4 : ℤ → Bool
in_1_to_4 n = leb_ℤ (pos 1) n && leb_ℤ n (pos 4)

-- The tests before the borders are read.
abbrev pub may_be_scaled : Event → Bool
may_be_scaled ev =
    is_identity ev.conversion
    && not (eqb_ℤ (int_or ev.bit_length (pos 0)) (pos 1))
    && not
        (has_word (codes "Rohwert") (codes ev.tech) || has_word (codes "Rohwert") (codes ev.name))
    && in_1_to_4 (width_of ev)

abbrev pub raw_max : Event → ℤ
raw_max ev =
    let bits = int_or ev.bit_length (pos 0) in
    if ltb_ℤ (pos 1) bits
    then pos (2 ^ pos_part bits - 1)
    else pos (2 ^ (8 * pos_part (width_of ev)) - 1)

-- `ptype in _UNSIGNED_PARAMETER_TYPES`
abbrev pub unsigned_type : String → Bool
unsigned_type ptype =
    any (λ word. same_text (normal ptype) (codes word)) ("byte" ∷ "int" ∷ "int4" ∷ [])

-- The range that `_bound_fits` tests.
unfoldable pub in_bytes : ℤ → ℕ → Bool → Bool
in_bytes raw length true =
    leb_ℤ (negsuc (2 ^ (8 * length - 1) - 1)) raw && leb_ℤ raw (pos (2 ^ (8 * length - 1) - 1))
in_bytes raw length false = leb_ℤ (pos 0) raw && leb_ℤ raw (pos (2 ^ (8 * length) - 1))

module _ (F : Floats) where
  open F use {Float, parse, of_int, sub, div, abs, floor, round, eq, lt, le}

  -- `_whole_steps`; the tolerance is `_STEP_TOL`.
  unfoldable pub whole_steps : Float → Option ℤ
  whole_steps x =
      if le (abs (sub x (of_int (round x)))) (ratio F 1 1000000) then some (round x) else none

  -- A lower border that is not negative: raw * step.
  abbrev pub from_zero : ℤ → Float → Option ℤ → Option ℤ → Option (BoundsScale Float)
  from_zero top st (some lo) (some hi) =
      if ltb_ℤ top hi
      then none
      else some (record { kind = scale; factor = st; offset = nought F; raw_lo = lo; raw_hi = hi })
  from_zero top st _ _ = none

  -- A negative one: raw * step + lower.
  abbrev pub from_lower : ℤ → ScaleKind → (lo st : Float) → Option ℤ → Option (BoundsScale Float)
  from_lower top kind lo st none = none
  from_lower top kind lo st (some n) =
      if leb_ℤ (pos 1) n && leb_ℤ n top
      then some (record { kind = kind; factor = st; offset = lo; raw_lo = pos 0; raw_hi = n })
      else none

  -- The step is a fraction, and the borders are apart.
  abbrev pub fractional : (lo hi st : Float) → Bool
  fractional lo hi st = not (le st (nought F) || eq st (of_int (floor st)) || le hi lo)

  abbrev pub scale_of_borders :
      ℤ → Protocol → Option Float → Option Float → Option Float → Option (BoundsScale Float)
  scale_of_borders top protocol (some lo) (some hi) (some st) =
      if fractional lo hi st
      then (if le (nought F) lo
          then from_zero top st (whole_steps (div lo st)) (whole_steps (div hi st))
          else from_lower top (if is_gwg protocol then affine else ambiguous) lo st
              (whole_steps (div (sub hi lo) st)))
      else none
  scale_of_borders top protocol _ _ _ = none

  -- `_scale_from_bounds`
  unfoldable pub scale_from_bounds : Event → Protocol → Option (BoundsScale Float)
  unfolding whole_steps
  scale_from_bounds ev protocol =
      if may_be_scaled ev
      then scale_of_borders (raw_max ev) protocol (parse (lower_of ev)) (parse (upper_of ev))
          (parse (stepping_of ev))
      else none

  abbrev pub not_negative : Option Float → Bool
  not_negative none = false
  not_negative (some x) = le (nought F) x

  -- `float(text) < 0`, and false where it raises.
  abbrev pub negative : Option Float → Bool
  negative none = false
  negative (some x) = lt x (nought F)

  -- `_declared_unsigned`
  unfoldable pub declared_unsigned : Event → Bool
  unfolding normal
  declared_unsigned ev = unsigned_type ev.parameter_type && not_negative (parse (lower_of ev))

  abbrev pub raw_in_bytes : Option Float → ℕ → Converter → Bool → Bool
  raw_in_bytes none length conv is_signed = false
  raw_in_bytes (some x) length conv is_signed = in_bytes (raw_of F conv x) length is_signed

  -- `_bound_fits`
  unfoldable pub bound_fits : String → ℕ → Converter → Bool → Bool
  unfolding llround conv_scale in_bytes
  bound_fits value length conv is_signed = raw_in_bytes (parse value) length conv is_signed
