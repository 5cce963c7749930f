-- ===== src/Tests/Component.antt =====
-- Runs of the component's validators, and the places where its theorems apply.
use esphome_vitohome.Common.{
  ◌*◌, ◌-◌, ◌^◌, ◌≡◌, ◌≢◌, ◌↔◌, refl, All, true, false, none, some, List, [], ◌∷◌, arith, String, ℤ,
  pos, negsuc, leb_ℤ,
}
use esphome_vitohome.Hub.Invalid.{ok, invalid, block_write_length, gapped_mask, value_outside_width}
use esphome_vitohome.Hub.Masks.{contiguous_bit_mask, bit_field_max}
use esphome_vitohome.Hub.Masks.Runs.{IsRun, contiguous_bit_mask_iff}
use esphome_vitohome.Hub.Fields.{
  Config, contains, field_width, raw_fits, validate_block_extraction, validate_bit_field,
  validate_bit_field_values, emit_write_target, interior,
}
use esphome_vitohome.Hub.Fields.Shape.{FitsAt, MaskShape, ValuesFit, validate_block_extraction_iff}
use esphome_vitohome.Hub.Fields.Targets.{WriteSpec, emit_write_target-validated}
use esphome_vitohome.Hub.Fields.Range.{encode, decode, raw_fits_iff}
use esphome_vitohome.Hub.Converters.{div10, lengths}
use esphome_vitohome.Platforms.{
  validate_converter_field_width, validate_encodable_range, validate_options, validate_states,
  all_unique, validate_number, validate_select, validate_switch,
}
use esphome_vitohome.Platforms.Writable.{BoundFits, validate_number_lem}
use esphome_vitohome.Platforms.Choices.{validate_select_lem, validate_switch_lem}

-- A field of 2 bytes at byte 2 of a block of 22.
abbrev pub setpoint : Config
setpoint = record {
  address = 0x2006;
  state_address = some 0x2000;
  length = 22;
  byte_offset = some 2;
  byte_length = some 2;
  bit_mask = none;
  signed = none;
}

-- The same without a register of its own: the block is too long to be written back.
abbrev whole_block : Config
whole_block = record setpoint { state_address = none }

-- Bits 4 to 6 of the one byte of a register.
abbrev mode_bits : Config
mode_bits = record {
  address = 0x7700;
  state_address = none;
  length = 1;
  byte_offset = none;
  byte_length = none;
  bit_mask = some 0x70;
  signed = none;
}

accepted : validate_block_extraction [] setpoint ≡ ok setpoint
unfolding validate_block_extraction
accepted = refl

too_long : validate_block_extraction [] whole_block ≡ invalid (block_write_length 22)
unfolding validate_block_extraction
too_long = refl

written_at : emit_write_target setpoint ≡ interior 0x2006 2 2
unfolding emit_write_target
written_at = refl

gapped : contiguous_bit_mask 0x51 ≡ invalid (gapped_mask 0x51)
unfolding contiguous_bit_mask
gapped = refl

-- Whole raw values stand for the float.
number_accepted :
    validate_number (λ _ v. v) leb_ℤ div10 (negsuc 99) (pos 800) setpoint ≡ ok setpoint
unfolding validate_number validate_block_extraction validate_converter_field_width lengths
    validate_bit_field validate_encodable_range
number_accepted = refl

number_too_large :
    validate_number (λ _ v. v) leb_ℤ div10 (pos 0) (pos 40000) setpoint
    ≡ invalid (value_outside_width (pos 40000) 2)
unfolding validate_number validate_block_extraction validate_converter_field_width lengths
    validate_bit_field validate_encodable_range
number_too_large = refl

abbrev modes : List (ℤ × String)
modes = (pos 0, "standby") ∷ (pos 3, "heating") ∷ []

modes_accepted : validate_select modes mode_bits ≡ ok mode_bits
unfolding validate_select validate_block_extraction validate_bit_field validate_options
    validate_bit_field_values bit_field_max
modes_accepted = refl

switch_accepted : validate_switch (pos 1) (pos 0) (pos 1 ∷ pos 2 ∷ []) true mode_bits ≡ ok mode_bits
unfolding validate_switch validate_block_extraction validate_bit_field validate_states
    validate_bit_field_values bit_field_max
switch_accepted = refl

contiguous_bit_mask_iff_example : (contiguous_bit_mask 0x70 ≡ ok 0x70) ↔ IsRun 0x70
contiguous_bit_mask_iff_example = contiguous_bit_mask_iff 0x70 (omega arith)

raw_fits_iff_example :
    (raw_fits (negsuc 99) 2 true ≡ true)
    ↔ (decode true (2 ^ (8 * 2 - 1)) (encode (2 ^ (8 * 2)) (negsuc 99)) ≡ negsuc 99)
raw_fits_iff_example = raw_fits_iff (negsuc 99) 2 true (omega arith)

validate_block_extraction_iff_example :
    (validate_block_extraction [] setpoint ≡ ok setpoint) ↔ FitsAt [] setpoint setpoint.byte_offset
validate_block_extraction_iff_example = validate_block_extraction_iff [] setpoint

emit_write_target-validated_example : WriteSpec setpoint (emit_write_target setpoint)
emit_write_target-validated_example = emit_write_target-validated [] setpoint setpoint accepted

validate_number_lem_example :
    (setpoint ≡ setpoint)
    × FitsAt (1 ∷ 2 ∷ 3 ∷ 4 ∷ []) setpoint setpoint.byte_offset
    × (contains (lengths div10) (field_width setpoint) ≡ true)
    × MaskShape true setpoint setpoint.bit_mask
    × BoundFits div10 setpoint (negsuc 99) setpoint.bit_mask
    × BoundFits div10 setpoint (pos 800) setpoint.bit_mask
    × (leb_ℤ (negsuc 99) (pos 800) ≡ true)
validate_number_lem_example =
    validate_number_lem (λ _ v. v) leb_ℤ div10 (negsuc 99) (pos 800) setpoint setpoint
      number_accepted

validate_select_lem_example :
    (mode_bits ≡ mode_bits)
    × FitsAt (1 ∷ 2 ∷ []) mode_bits mode_bits.byte_offset
    × MaskShape true mode_bits mode_bits.bit_mask
    × (modes ≢ [])
    × All (λ v. raw_fits v (field_width mode_bits) false ≡ true) (pos 0 ∷ pos 3 ∷ [])
    × (all_unique ("standby" ∷ "heating" ∷ []) ≡ true)
    × ValuesFit (pos 0 ∷ pos 3 ∷ []) mode_bits.bit_mask
validate_select_lem_example = validate_select_lem modes mode_bits mode_bits modes_accepted

validate_switch_lem_example :
    (mode_bits ≡ mode_bits)
    × FitsAt (1 ∷ 2 ∷ []) mode_bits mode_bits.byte_offset
    × MaskShape true mode_bits mode_bits.bit_mask
    × (pos 1 ≢ pos 0)
    × All (λ v. pos 0 ≢ v) (pos 1 ∷ pos 2 ∷ [])
    × All
        (λ v. raw_fits v (field_width mode_bits) false ≡ true)
        (pos 1 ∷ pos 0 ∷ pos 1 ∷ pos 2 ∷ [])
    × ValuesFit (pos 1 ∷ pos 0 ∷ pos 1 ∷ pos 2 ∷ []) mode_bits.bit_mask
    × (true ≡ true)
validate_switch_lem_example =
    validate_switch_lem (pos 1) (pos 0) (pos 1 ∷ pos 2 ∷ []) true mode_bits mode_bits
      switch_accepted
