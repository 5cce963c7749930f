-- ===== src/Emitter/Values/Places.antt =====
-- The configuration of a field that is not masked, and the component's validators on it.
use esphome_vitohome.Common.{
  ℕ, ◌+◌, ◌≤◌, ◌≡◌, refl, inr, Bool, true, false, Option, none, some, List, arith, ℤ, pos, ◌==◌,
  if◌then◌else◌,
}
use esphome_vitohome.Hub.Invalid.{ok}
use esphome_vitohome.Hub.Fields.{
  Config, contains, or_one, field_width, validate_block_extraction, validate_bit_field,
  validate_bit_field_values,
}
use esphome_vitohome.Hub.Fields.Shape.{validate_block_extraction_iff}
use esphome_vitohome.Emitter.Reading.{as_int}
use esphome_vitohome.Emitter.Strings.{Place, unless_one}

-- The sizes of a field, which lies in its block.
abbrev pub place : (size width off : ℕ) → Place
place size width off = record {
  block_len = pos size;
  length = pos width;
  field_off = pos off;
  field_width = pos width;
}

abbrev pub or_absent : ℕ → Option ℕ
or_absent n = if n == 1 then none else some n

pub or_one-or_absent : (n : ℕ) → or_one (or_absent n) ≡ n
or_one-or_absent n = go (n == 1) refl
  where
    go : (b : Bool) → (n == 1) ≡ b → or_one (if b then none else some n) ≡ n
    go true e = ground arith
    go false e = refl

pub unless_one-as_int : (n : ℕ) → unless_one (pos n) ≡ as_int (or_absent n)
unless_one-as_int n = go (n == 1)
  where
    go : (b : Bool) → (if b then none else some (pos n)) ≡ as_int (if b then none else some n)
    go true = refl
    go false = refl

-- In block mode the block with the field inside it, otherwise the field as a whole datapoint.
abbrev pub value_config :
    (address : ℕ)
    → (state_address : Option ℕ) → (signed : Option Bool) → (block_mode : Bool)
    → (size width off : ℕ) → Config
value_config address state_address signed true size width off = record {
  address = address;
  state_address = state_address;
  length = size;
  byte_offset = some off;
  byte_length = or_absent width;
  bit_mask = none;
  signed = signed;
}
value_config address state_address signed false size width off = record {
  address = address;
  state_address = state_address;
  length = width;
  byte_offset = none;
  byte_length = none;
  bit_mask = none;
  signed = signed;
}

module _ (address : ℕ) (state_address : Option ℕ) (signed : Option Bool) (size width off : ℕ)
    (some_byte : 1 ≤ width) (inside : off + width ≤ size) where
  abbrev pub config_in : Bool → Config
  config_in mode = value_config address state_address signed mode size width off

  pub width_in : (mode : Bool) → field_width (config_in mode) ≡ width
  unfolding field_width
  width_in true = or_one-or_absent width
  width_in false = refl

  pub extraction-ok :
      (plain_lengths : List ℕ) (mode : Bool)
      → (mode ≡ true → size ≤ 16)
      → contains plain_lengths width ≡ true
      → validate_block_extraction plain_lengths (config_in mode) ≡ ok (config_in mode)
  unfolding field_width
  extraction-ok plain_lengths true short allowed =
      (validate_block_extraction_iff plain_lengths (config_in true)).1 (
        (let s = short refl in omega arith),
        (let s = short refl in omega arith),
        rw (or_one-or_absent width) inside,
        inr (short refl),
      )
  extraction-ok plain_lengths false short allowed =
      (validate_block_extraction_iff plain_lengths (config_in false)).1 (refl, allowed)

  pub no_mask-ok :
      (writable mode : Bool) → validate_bit_field writable (config_in mode) ≡ ok (config_in mode)
  unfolding validate_bit_field
  no_mask-ok writable true = refl
  no_mask-ok writable false = refl

  pub no_mask_values-ok :
      (mode : Bool) (vs : List ℤ)
      → validate_bit_field_values (config_in mode) vs ≡ ok (config_in mode)
  unfolding validate_bit_field_values
  no_mask_values-ok true vs = refl
  no_mask_values-ok false vs = refl
