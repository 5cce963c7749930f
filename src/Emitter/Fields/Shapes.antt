-- ===== src/Emitter/Fields/Shapes.antt =====
-- The two shapes of a masked field, and the component's validators on them.
use esphome_vitohome.Common.{
  ℕ, ◌+◌, ◌≤◌, ◌<◌, ◌≡◌, ◌≢◌, le→leb, lt→ltb, ◌==◌, refl, Bool, true, false, not, ◌||◌, Option,
  none, some, List, [], ◌∷◌, map, arith, String, ℤ, pos, ◌≤ℤ◌, All,
}
use esphome_vitohome.Hub.Invalid.{
  Result, ok, invalid, ◌>>◌, >>=-of_ok, converter_width, min_above_max, equal_states,
  labels_not_unique, off_value_reads_on,
}
use esphome_vitohome.Hub.Masks.{bit_field_max}
use esphome_vitohome.Hub.Converters.{
  Converter, lengths, big_endian, validate_converter_length, noconv, div2, div10, div100, div1000,
  sec2hour, mult2, mult5, mult10, mult100, rotatebytes,
}
use esphome_vitohome.Hub.Fields.{
  Config, contains, guard, field_width, validate_block_extraction, validate_bit_field, values_fit,
  validate_bit_field_values, raw_fits,
}
use esphome_vitohome.Platforms.{
  bound_fits, validate_converter_field_width, validate_encodable_range, validate_number, all_fit,
  validate_options, validate_select, validate_states, validate_switch, all_unique,
}
use esphome_vitohome.Readers.{
  offset_or_zero, validate_byte_offset, validate_length, validate_converter_length_effective,
  validate_sensor, validate_binary_sensor, validate_enum_extraction, validate_enum,
}

-- One byte of its own.
abbrev pub byte_config : (address mask : ℕ) → Config
byte_config address mask = record {
  address = address;
  state_address = none;
  length = 1;
  byte_offset = none;
  byte_length = none;
  bit_mask = some mask;
  signed = none;
}

-- Byte `offset` of a block of `length` bytes.
abbrev pub block_config : (address mask length offset : ℕ) → Config
block_config address mask length offset = record {
  address = address;
  state_address = none;
  length = length;
  byte_offset = some offset;
  byte_length = none;
  bit_mask = some mask;
  signed = none;
}

-- A shape that is read; a writable one is also short enough to be written back.
pub data IsShape : Config → Type 0 where
  byte : (address mask : ℕ) → IsShape (byte_config address mask)
  block :
      (address mask length offset : ℕ)
      → offset < length
      → length ≤ 48
      → IsShape (block_config address mask length offset)

abbrev pub IsShort : Config → Option ℕ → Type 0
IsShort c none = Unit
IsShort c (some offset) = c.length ≤ 16

-- A value from 0 to `top`.
abbrev pub Within : ℕ → ℤ → Type 0
Within top v = (pos 0 ≤ℤ v) × (v ≤ℤ pos top)

pub values_fit-ok :
    (mask : ℕ) (vs : List ℤ) → All (Within (bit_field_max mask)) vs → values_fit mask vs ≡ ok tt
values_fit-ok mask [] h = refl
values_fit-ok mask (v ∷ vs) (p, h) = ground (arith, values_fit-ok mask vs h)

pub all_fit-ok : (top : ℕ) (vs : List ℤ) → top ≤ 255 → All (Within top) vs → all_fit 1 vs ≡ ok tt
unfolding raw_fits
all_fit-ok top [] small h = refl
all_fit-ok top (v ∷ vs) small (p, h) = ground (arith, all_fit-ok top vs small h)

-- The same at a width that is one.
all_fit_at :
    (width top : ℕ) (vs : List ℤ)
    → width ≡ 1
    → top ≤ 255
    → All (Within top) vs
    → all_fit width vs ≡ ok tt
all_fit_at width top vs one small h = rw one (all_fit-ok top vs small h)

pub width_one : (c : Config) → IsShape c → field_width c ≡ 1
unfolding field_width
width_one c (byte address mask) = refl
width_one c (block address mask length offset inside short) = refl

pub extraction-ok :
    (plain_lengths : List ℕ) (c : Config)
    → IsShape c
    → IsShort c c.byte_offset
    → contains plain_lengths 1 ≡ true
    → validate_block_extraction plain_lengths c ≡ ok c
unfolding validate_block_extraction
extraction-ok plain_lengths c (byte address mask) small one = rw one refl
extraction-ok plain_lengths c (block address mask length offset inside short) small one =
    ground arith

pub bit_field-ok : (writable : Bool) (c : Config) → IsShape c → validate_bit_field writable c ≡ ok c
unfolding validate_bit_field
bit_field-ok true c (byte address mask) = refl
bit_field-ok false c (byte address mask) = refl
bit_field-ok true c (block address mask length offset inside short) = refl
bit_field-ok false c (block address mask length offset inside short) = refl

-- The value's mask, as the validators read it.
abbrev pub TopIs : Config → ℕ → Type 0
TopIs c top = (m : ℕ) × (c.bit_mask ≡ some m) × (bit_field_max m ≡ top) × (top ≤ 255)

pub bit_field_values-ok :
    (c : Config) (top : ℕ) (vs : List ℤ)
    → TopIs c top
    → All (Within top) vs
    → validate_bit_field_values c vs ≡ ok c
unfolding validate_bit_field_values
bit_field_values-ok c top vs (m, e, q, small) h = go c.bit_mask e
  where
    go :
        (o : Option ℕ)
        → o ≡ some m
        → elim o as (λ _. Result Config) [ none ↦ ok c | some mask ↦ values_fit mask vs >> ok c ]
          ≡ ok c
    go none r = cc
    go (some n) r = let r' : n ≡ m = cc in >>=-of_ok _ (values_fit-ok n vs (rw (r', q) h)) refl

one_byte-not_big : (name : Converter) → contains (lengths name) 1 ≡ true → big_endian name ≡ false
unfolding lengths big_endian
one_byte-not_big noconv h = refl
one_byte-not_big div2 h = refl
one_byte-not_big div10 h = refl
one_byte-not_big div100 h = refl
one_byte-not_big div1000 h = refl
one_byte-not_big sec2hour h = refl
one_byte-not_big mult2 h = refl
one_byte-not_big mult5 h = refl
one_byte-not_big mult10 h = refl
one_byte-not_big mult100 h = refl
one_byte-not_big rotatebytes h = cc

length-ok : (c : Config) → IsShape c → validate_length c ≡ ok c
unfolding validate_length
length-ok c (byte address mask) = refl
length-ok c (block address mask length offset inside short) =
    rw (le→leb 1 length (omega arith), le→leb length 48 short) refl

converter-ok :
    (name : Converter) (c : Config)
    → IsShape c
    → contains (lengths name) 1 ≡ true
    → validate_converter_length_effective name c ≡ ok c
unfolding validate_converter_length_effective validate_converter_length
converter-ok name c (byte address mask) one = rw one refl
converter-ok name c (block address mask length offset inside short) one =
    rw (one_byte-not_big name one, one) refl

offset-ok : (c : Config) → IsShape c → validate_byte_offset c ≡ ok c
unfolding validate_byte_offset
offset-ok c (byte address mask) = refl
offset-ok c (block address mask length offset inside short) =
    rw (le→leb (offset + 1) length (omega arith)) refl

enum_extraction-ok : (c : Config) → IsShape c → validate_enum_extraction c ≡ ok c
unfolding validate_enum_extraction
enum_extraction-ok c (byte address mask) = refl
enum_extraction-ok c (block address mask length offset inside short) =
    rw
      (
        le→leb 1 length (omega arith),
        le→leb length 48 short,
        le→leb (offset + 1) length (omega arith),
      )
      refl

pub sensor-ok :
    (name : Converter) (c : Config)
    → IsShape c
    → contains (lengths name) 1 ≡ true
    → validate_sensor name c ≡ ok c
unfolding validate_sensor
sensor-ok name c s one =
    >>=-of_ok _ (length-ok c s) (
      >>=-of_ok _ (converter-ok name c s one)
        (>>=-of_ok _ (offset-ok c s) (bit_field-ok false c s)))

pub enum-ok :
    (options : List (ℤ × String)) (c : Config) (top : ℕ)
    → IsShape c
    → TopIs c top
    → All (Within top) (map (λ p. p.0) options)
    → validate_enum options c ≡ ok c
unfolding validate_enum
enum-ok options c top s t h =
    >>=-of_ok _ (enum_extraction-ok c s) (
      >>=-of_ok _ (bit_field-ok false c s) (bit_field_values-ok c top (map (λ p. p.0) options) t h))

module _ (c : Config) (top : ℕ) (s : IsShape c) (short : IsShort c c.byte_offset)
    (t : TopIs c top) where
  options-ok :
      (options : List (ℤ × String))
      → options ≢ []
      → all_unique (map (λ p. p.1) options) ≡ true
      → All (Within top) (map (λ p. p.0) options)
      → validate_options options c ≡ ok c
  unfolding validate_options
  options-ok [] ne unique h = absurd (ne refl)
  options-ok (o ∷ os) ne unique h =
      >>=-of_ok _ (all_fit_at (field_width c) top (map (λ p. p.0) (o ∷ os)) (width_one c s) t.3 h) (
        >>=-of_ok _ (passed (all_unique (map (λ p. p.1) (o ∷ os))) unique)
          (bit_field_values-ok c top (map (λ p. p.0) (o ∷ os)) t h))
    where
      passed : (b : Bool) → b ≡ true → guard b (invalid labels_not_unique) ≡ ok tt
      passed b e = rw e refl

  pub select-ok :
      (options : List (ℤ × String))
      → options ≢ []
      → all_unique (map (λ p. p.1) options) ≡ true
      → All (Within top) (map (λ p. p.0) options)
      → validate_select options c ≡ ok c
  unfolding validate_select
  select-ok options ne unique h =
      >>=-of_ok _ (extraction-ok (1 ∷ 2 ∷ []) c s short refl)
        (>>=-of_ok _ (bit_field-ok true c s) (options-ok options ne unique h))

  pub switch-ok :
      (on off : ℕ)
      → on ≢ off
      → on ≤ top
      → off ≤ top
      → validate_switch (pos on) (pos off) [] true c ≡ ok c
  unfolding validate_switch validate_states
  switch-ok on off apart on_fits off_fits =
      >>=-of_ok _ (extraction-ok (1 ∷ 2 ∷ []) c s short refl) (
        >>=-of_ok _ (bit_field-ok true c s) (
          >>=-of_ok _ (differ (on == off) refl) (
            >>=-of_ok _ (reads_off (off == on) refl) (
              >>=-of_ok _ (all_fit_at (field_width c) top states (width_one c s) t.3 within)
                (>>=-of_ok _ (bit_field_values-ok c top states t within) refl)))))
    where
      states : List ℤ
      states = pos on ∷ pos off ∷ pos on ∷ []

      within : All (Within top) states
      within = omega arith

      differ : (b : Bool) → (on == off) ≡ b → guard (not b) (invalid equal_states) ≡ ok tt
      differ true e = absurd (apart (ground arith))
      differ false e = refl

      reads_off :
          (b : Bool)
          → (off == on) ≡ b
          → guard (not (b || false)) (invalid (off_value_reads_on (pos off))) ≡ ok tt
      reads_off true e = absurd (apart (ground arith))
      reads_off false e = refl

  bound-ok : (name : Converter) (raw : ℤ) → Within top raw → bound_fits name c raw ≡ ok tt
  bound-ok name raw h = (let (m, e, q, small) = t in go m q c.bit_mask e)
    where
      go :
          (m : ℕ)
          → bit_field_max m ≡ top
          → (o : Option ℕ) → o ≡ some m
          → bound_fits name (record c { bit_mask = o }) raw ≡ ok tt
      go m q none e = cc
      go m q (some n) e = let r : bit_field_max n ≡ top = cc in rw r (ground arith)

  pub number-ok :
      {Float : Type 0} (raw_of : Converter → Float → ℤ) (float_le : Float → Float → Bool)
      (name : Converter) (lo hi : Float)
      → contains (lengths name) 1 ≡ true
      → Within top (raw_of name lo)
      → Within top (raw_of name hi)
      → float_le lo hi ≡ true
      → validate_number raw_of float_le name lo hi c ≡ ok c
  unfolding validate_number validate_encodable_range validate_converter_field_width
  number-ok raw_of float_le name lo hi one low high ordered =
      >>=-of_ok _ (extraction-ok (1 ∷ 2 ∷ 3 ∷ 4 ∷ []) c s short refl) (
        >>=-of_ok _ (has_width (field_width c) (width_one c s)) (
          >>=-of_ok _ (bit_field-ok true c s) (
            >>=-of_ok _ (bound-ok name (raw_of name lo) low) (
              >>=-of_ok _ (bound-ok name (raw_of name hi) high)
                (in_order (float_le lo hi) ordered)))))
    where
      has_width :
          (w : ℕ)
          → w ≡ 1
          → (guard (contains (lengths name) w) (invalid (converter_width w)) >> ok c) ≡ ok c
      has_width w e = rw (e, one) refl

      in_order : (b : Bool) → b ≡ true → (guard b (invalid min_above_max) >> ok c) ≡ ok c
      in_order b e = rw e refl

-- A flag: a byte of a block, by its index.
pub binary-ok :
    (c : Config)
    → c.length ≤ 48
    → offset_or_zero c.byte_offset < c.length
    → validate_binary_sensor c ≡ ok c
unfolding validate_binary_sensor
binary-ok c short inside =
    rw
      (
        le→leb 1 c.length (omega arith),
        le→leb c.length 48 short,
        lt→ltb (offset_or_zero c.byte_offset) c.length inside,
      )
      refl
