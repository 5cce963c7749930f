-- ===== src/Platforms/Writable.antt =====
-- What an accepted number guarantees.
use esphome_vitohome.Common.{
  ℕ, ◌≡◌, refl, Bool, true, Option, none, some, [], ◌∷◌, arith, ℤ, pos, ◌≤ℤ◌,
}
use esphome_vitohome.Hub.Invalid.{ok, invalid, ◌>>◌, >>=-eq-ok, min_above_max}
use esphome_vitohome.Hub.Masks.{bit_field_max}
use esphome_vitohome.Hub.Converters.{Converter, lengths, resolve_signed}
use esphome_vitohome.Hub.Fields.{
  Config, contains, guard, field_width, raw_fits, validate_block_extraction, validate_bit_field,
}
use esphome_vitohome.Hub.Fields.Shape.{FitsAt, extraction_lem, MaskShape, mask_lem}
use esphome_vitohome.Platforms.{
  validate_converter_field_width, bound_fits, validate_encodable_range, validate_number,
}

width_lem :
    (name : Converter) (c c' : Config)
    → validate_converter_field_width name c ≡ ok c'
    → (c' ≡ c) × (contains (lengths name) (field_width c) ≡ true)
unfolding validate_converter_field_width
width_lem name c c' h = go (contains (lengths name) (field_width c)) refl
  where
    go :
        (b : Bool)
        → contains (lengths name) (field_width c) ≡ b
        → (c' ≡ c) × (contains (lengths name) (field_width c) ≡ true)
    go b e = ground arith

-- The bound's raw value goes on the wire: into the masked field, or into the field's bytes.
abbrev pub BoundFits : Converter → Config → ℤ → Option ℕ → Type 0
BoundFits name c raw none = raw_fits raw (field_width c) (resolve_signed name c) ≡ true
BoundFits name c raw (some mask) = (pos 0 ≤ℤ raw) × (raw ≤ℤ pos (bit_field_max mask))

bound_lem :
    (name : Converter) (c : Config) (raw : ℤ) (u : Unit {0})
    → bound_fits name c raw ≡ ok u
    → BoundFits name c raw c.bit_mask
unfolding field_width resolve_signed
bound_lem name c raw u h = go c.bit_mask h
  where
    go :
        (o : Option ℕ)
        → bound_fits name (record c { bit_mask = o }) raw ≡ ok u
        → BoundFits name c raw o
    go none h = ground arith
    go (some mask) h = (ground arith, ground arith)

module _ {Float : Type 0} (raw_of : Converter → Float → ℤ) (float_le : Float → Float → Bool) where
  range_lem :
      (name : Converter) (low high : Float) (c c' : Config)
      → validate_encodable_range raw_of float_le name low high c ≡ ok c'
      → (c' ≡ c)
        × BoundFits name c (raw_of name low) c.bit_mask
        × BoundFits name c (raw_of name high) c.bit_mask
        × (float_le low high ≡ true)
  unfolding validate_encodable_range
  range_lem name low high c c' h =
      let (u, first, h₁) = >>=-eq-ok (bound_fits name c (raw_of name low)) _ h in
      let (v, second, h₂) = >>=-eq-ok (bound_fits name c (raw_of name high)) _ h₁ in
      let (ordered, same) = last (float_le low high) h₂ in
      (same, bound_lem name c _ u first, bound_lem name c _ v second, ordered)
    where
      last : (b : Bool) → (guard b (invalid min_above_max) >> ok c) ≡ ok c' → (b ≡ true) × (c' ≡ c)
      last b h = ground arith

  -- An accepted number comes back unchanged, and: its field lies in the block that is read (in
  -- block mode of at most 16 bytes); the converter has the field's width; a masked field is one
  -- unsigned byte with one register; both bounds go on the wire, and are in order.
  pub validate_number_lem :
      (name : Converter) (low high : Float) (c c' : Config)
      → validate_number raw_of float_le name low high c ≡ ok c'
      → (c' ≡ c)
        × FitsAt (1 ∷ 2 ∷ 3 ∷ 4 ∷ []) c c.byte_offset
        × (contains (lengths name) (field_width c) ≡ true)
        × MaskShape true c c.bit_mask
        × BoundFits name c (raw_of name low) c.bit_mask
        × BoundFits name c (raw_of name high) c.bit_mask
        × (float_le low high ≡ true)
  unfolding validate_number
  validate_number_lem name low high c c' h =
      let (c₁, e₁, h₁) = >>=-eq-ok (validate_block_extraction (1 ∷ 2 ∷ 3 ∷ 4 ∷ []) c) _ h in
      let (s₁, fits) = extraction_lem (1 ∷ 2 ∷ 3 ∷ 4 ∷ []) c c₁ e₁ in
      let (c₂, e₂, h₂) = >>=-eq-ok (validate_converter_field_width name c) _ (rw s₁ at h₁) in
      let (s₂, width) = width_lem name c c₂ e₂ in
      let (c₃, e₃, h₃) = >>=-eq-ok (validate_bit_field true c) _ (rw s₂ at h₂) in
      let (s₃, mask) = mask_lem true c c₃ e₃ in
      let (same, first, second, ordered) = range_lem name low high c c' (rw s₃ at h₃) in
      (same, fits, width, mask, first, second, ordered)
