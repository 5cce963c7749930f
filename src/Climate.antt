-- ===== src/Climate.antt =====
-- components/vitohome/climate.py: the operating-mode presets and the range of the setpoint.
pub mod Presets
pub mod Setpoint
use esphome_vitohome.Common.{
  ℕ, String, Bool, true, false, not, ◌&&◌, Option, none, some, List, [], ◌∷◌, map, ℤ, pos, leb_ℤ,
  if◌then◌else◌,
}
use esphome_vitohome.Hub.Invalid.{
  Result, ok, invalid, ◌>>=◌, ◌>>◌, no_presets, preset_names, read_twice, fractional_bound,
  bound_outside_byte, inverted_range,
}
use esphome_vitohome.Hub.Fields.{contains, guard}
use esphome_vitohome.Platforms.{all_unique}

-- One preset row; the HVAC mode, which only a warning reads, is left out.
pub record Preset : Type 0 where
  pub name : String
  pub write : ℕ
  pub read : List ℕ

-- The inner loop of `_validate_presets`: the keys of `seen_reads` after one preset.
abbrev pub reads_of : List ℕ → List ℕ → Result (List ℕ)
reads_of seen [] = ok seen
reads_of seen (r ∷ rs) =
    let rest = reads_of (r ∷ seen) rs in if contains seen r then invalid (read_twice r) else rest

-- The outer loop.
unfoldable pub all_reads : List ℕ → List Preset → Result (List ℕ)
all_reads seen [] = ok seen
all_reads seen (p ∷ ps) = reads_of seen p.read >>= λ more. all_reads more ps

abbrev pub some_preset : List Preset → Result (Unit {0})
some_preset [] = invalid no_presets
some_preset (_ ∷ _) = ok tt

-- `_validate_presets`; its warnings are left out.
unfoldable pub validate_presets : List Preset → Result (List Preset)
unfolding all_reads
validate_presets value = do
  some_preset value
  guard (all_unique (map (λ p. p.name) value)) (invalid preset_names)
  _ ← all_reads [] value
  ok value

abbrev pub setpoint_min_default : ℤ
setpoint_min_default = pos 3

abbrev pub setpoint_max_default : ℤ
setpoint_max_default = pos 37

-- A float, and the integer that it equals, if there is one.
module _ {Float : Type 0} (whole : Float → Option ℤ) where
  abbrev pub byte_bound : Option ℤ → Result ℤ
  byte_bound none = invalid fractional_bound
  byte_bound (some v) =
      if leb_ℤ (pos 0) v && leb_ℤ v (pos 255) then ok v else invalid (bound_outside_byte v)

  abbrev pub effective_bound : ℤ → Option Float → Result ℤ
  effective_bound default none = ok default
  effective_bound default (some v) = byte_bound (whole v)

  -- `_validate_setpoint_range`: the effective range, which is what is emitted.
  unfoldable pub validate_setpoint_range :
      (min_temperature max_temperature : Option Float) → Result (ℤ × ℤ)
  validate_setpoint_range min_temperature max_temperature = do
    low ← effective_bound setpoint_min_default min_temperature
    high ← effective_bound setpoint_max_default max_temperature
    guard (leb_ℤ low high) (invalid (inverted_range low high)) >> ok (low, high)
