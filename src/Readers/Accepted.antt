-- ===== src/Readers/Accepted.antt =====
-- What an accepted sensor, binary_sensor, text_sensor or event guarantees.
use esphome_vitohome.Common.{
  ℕ, ◌+◌, ◌≤◌, ◌≡◌, ◌≢◌, ◌⊎◌, inl, inr, refl, String, Bool, true, false, not, ◌&&◌, Option, none,
  some, List, map, ℤ, arith, leb,
}
use esphome_vitohome.Hub.Invalid.{ok, >>=-eq-ok}
use esphome_vitohome.Hub.Fields.{Config, given, or_one, contains, validate_bit_field}
use esphome_vitohome.Hub.Fields.Shape.{
  guard-next, ok-eq, MaskShape, mask_lem, ValuesFit, values_lem,
}
use esphome_vitohome.Hub.Converters.{Converter, lengths, big_endian, validate_converter_length}
use esphome_vitohome.Readers.{
  validate_byte_offset, validate_length, validate_converter_length_effective, validate_sensor,
  validate_enum_extraction, validate_enum,
}

-- A field of its own of at most 4 bytes, or one inside a block of at most 48 bytes.
abbrev pub ReadFits : Config → Option ℕ → Type 0
ReadFits c none = (c.byte_length ≡ none) × (1 ≤ c.length) × (c.length ≤ 4)
ReadFits c (some offset) =
    (1 ≤ c.length) × (c.length ≤ 48) × (offset + or_one c.byte_length ≤ c.length)

abbrev pub ConverterFits : Converter → Config → Option ℕ → Type 0
ConverterFits name c none = contains (lengths name) c.length ≡ true
ConverterFits name c (some _) =
    (big_endian name ≡ false) × (contains (lengths name) (or_one c.byte_length) ≡ true)

pub false_of_not : (b : Bool) → not b ≡ true → b ≡ false
false_of_not true h = cc
false_of_not false h = refl

length_lem :
    (c c' : Config) (o : Option ℕ)
    → c.byte_offset ≡ o
    → validate_length c ≡ ok c'
    → (c' ≡ c) × (1 ≤ c.length) × (c.length ≤ 48) × ((o ≢ none) ⊎ (c.length ≤ 4))
unfolding validate_length
length_lem c c' none e h =
    let (b, k) =
      guard-next (leb 1 c.length && leb c.length 4) _ (ok c) c' (rw (e, validate_length) at h) in
    (ok-eq c c' k, ground arith, ground arith, inr (ground arith))
length_lem c c' (some offset) e h =
    let (b, k) =
      guard-next (leb 1 c.length && leb c.length 48) _ (ok c) c' (rw (e, validate_length) at h) in
    (ok-eq c c' k, ground arith, ground arith, inl (λ q. cc))

effective_lem :
    (name : Converter) (c c' : Config) (o : Option ℕ)
    → c.byte_offset ≡ o
    → validate_converter_length_effective name c ≡ ok c'
    → (c' ≡ c) × ConverterFits name c o
unfolding validate_converter_length_effective validate_converter_length
effective_lem name c c' none e h =
    let (b, k) =
      guard-next (contains (lengths name) c.length) _ (ok c) c'
        (rw (e, validate_converter_length_effective) at h) in
    (ok-eq c c' k, b)
effective_lem name c c' (some offset) e h =
    let (a, h₁) =
      guard-next (not (big_endian name)) _ _ c'
        (rw (e, validate_converter_length_effective) at h) in
    let (b, k) = guard-next (contains (lengths name) (or_one c.byte_length)) _ (ok c) c' h₁ in
    (ok-eq c c' k, (false_of_not (big_endian name) a, b))

pub none_of_not : (o : Option ℕ) → not (given o) ≡ true → o ≡ none
none_of_not none h = refl
none_of_not (some n) h = cc

offset_lem :
    (c c' : Config) (o : Option ℕ)
    → c.byte_offset ≡ o
    → 1 ≤ c.length
    → c.length ≤ 48
    → ((o ≢ none) ⊎ (c.length ≤ 4))
    → validate_byte_offset c ≡ ok c'
    → (c' ≡ c) × ReadFits c o
unfolding validate_byte_offset
offset_lem c c' none e low high short h =
    let (a, k) =
      guard-next (not (given c.byte_length)) _ (ok c) c' (rw (e, validate_byte_offset) at h) in
    (
      ok-eq c c' k,
      (none_of_not c.byte_length a, low, elim short [ inl q ↦ absurd (q refl) | inr r ↦ r ]),
    )
offset_lem c c' (some offset) e low high short h =
    let (a, k) =
      guard-next (leb (offset + or_one c.byte_length) c.length) _ (ok c) c'
        (rw (e, validate_byte_offset) at h) in
    (ok-eq c c' k, (low, high, ground arith))

-- An accepted sensor comes back unchanged, and: its field is a whole datapoint of 1 to 4 bytes, or lies
-- inside a block of 1 to 48 bytes; the converter has the width of what is decoded, and is not
-- big-endian for a field inside a block; a masked field is one unsigned byte.
pub validate_sensor_lem :
    (name : Converter) (c c' : Config)
    → validate_sensor name c ≡ ok c'
    → (c' ≡ c)
      × ReadFits c c.byte_offset
      × ConverterFits name c c.byte_offset
      × MaskShape false c c.bit_mask
unfolding validate_sensor
validate_sensor_lem name c c' h =
    let (c₁, e₁, h₁) = >>=-eq-ok (validate_length c) _ h in
    let (s₁, low, high, short) = length_lem c c₁ c.byte_offset refl e₁ in
    let (c₂, e₂, h₂) = >>=-eq-ok (validate_converter_length_effective name c) _ (rw s₁ at h₁) in
    let (s₂, converter) = effective_lem name c c₂ c.byte_offset refl e₂ in
    let (c₃, e₃, h₃) = >>=-eq-ok (validate_byte_offset c) _ (rw s₂ at h₂) in
    let (s₃, fits) = offset_lem c c₃ c.byte_offset refl low high short e₃ in
    let (same, mask) = mask_lem false c c' (rw s₃ at h₃) in (same, fits, converter, mask)

enum_extraction_lem :
    (c c' : Config) (o : Option ℕ)
    → c.byte_offset ≡ o
    → validate_enum_extraction c ≡ ok c'
    → (c' ≡ c) × ReadFits c o
unfolding validate_enum_extraction
enum_extraction_lem c c' none e h =
    let (a, h₁) =
      guard-next (not (given c.byte_length)) _ _ c' (rw (e, validate_enum_extraction) at h) in
    let (b, k) = guard-next (leb 1 c.length && leb c.length 4) _ (ok c) c' h₁ in
    (ok-eq c c' k, (none_of_not c.byte_length a, ground arith, ground arith))
enum_extraction_lem c c' (some offset) e h =
    let (a, h₁) =
      guard-next (leb 1 c.length && leb c.length 48) _ _ c'
        (rw (e, validate_enum_extraction) at h) in
    let (b, k) = guard-next (leb (offset + or_one c.byte_length) c.length) _ (ok c) c' h₁ in
    (ok-eq c c' k, (ground arith, ground arith, ground arith))

-- An accepted text sensor of `type: enum` comes back unchanged, its field is a whole datapoint of 1 to 4
-- bytes or lies inside a block of 1 to 48 bytes, a masked field is one unsigned byte, and every
-- option's value is one that the mask can hold.
pub validate_enum_lem :
    (options : List (ℤ × String)) (c c' : Config)
    → validate_enum options c ≡ ok c'
    → (c' ≡ c)
      × ReadFits c c.byte_offset
      × MaskShape false c c.bit_mask
      × ValuesFit (map (λ p. p.0) options) c.bit_mask
unfolding validate_enum
validate_enum_lem options c c' h =
    let (c₁, e₁, h₁) = >>=-eq-ok (validate_enum_extraction c) _ h in
    let (s₁, fits) = enum_extraction_lem c c₁ c.byte_offset refl e₁ in
    let (c₂, e₂, h₂) = >>=-eq-ok (validate_bit_field false c) _ (rw s₁ at h₁) in
    let (s₂, mask) = mask_lem false c c₂ e₂ in
    let (same, values) = values_lem c c' (map (λ p. p.0) options) (rw s₂ at h₂) in
    (same, fits, mask, values)
