-- ===== src/Hub/Invalid.antt =====
-- What the validators of the component raise: `cv.Invalid` with its message's subject. A
-- validator that returns gives the configuration back.
use esphome_vitohome.Common.{ℕ, ℤ, ◌≡◌, refl}

pub data Invalid : Type 0 where
  empty_mask : Invalid
  gapped_mask : ℕ → Invalid
  length_not_between : (low high got : ℕ) → Invalid
  block_read_length : ℕ → Invalid
  block_write_length : ℕ → Invalid
  field_outside_block : (offset width length : ℕ) → Invalid
  byte_length_needs_offset : Invalid
  length_not_allowed : ℕ → Invalid
  converter_width : ℕ → Invalid
  mask_width : ℕ → Invalid
  signed_mask : Invalid
  mask_state_address : Invalid
  value_outside_mask : ℤ → ℕ → Invalid
  value_outside_width : ℤ → ℕ → Invalid
  fault_code_width : ℤ → Invalid
  big_endian_extraction : Invalid
  min_above_max : Invalid
  no_options : Invalid
  labels_not_unique : Invalid
  equal_states : Invalid
  off_value_reads_on : ℤ → Invalid
  restore_mode : Invalid
  no_codes : Invalid
  byte_length_required : Invalid
  field_too_wide : ℕ → Invalid
  odd_field : ℕ → Invalid
  byte_outside_block : (offset length : ℕ) → Invalid
  preset_names : Invalid
  no_presets : Invalid
  read_twice : ℕ → Invalid
  fractional_bound : Invalid
  interval_too_long : ℕ → Invalid
  raw_writes_restricted : Invalid
  no_raw_lane : Invalid
  no_time_source : Invalid
  bound_outside_byte : ℤ → Invalid
  inverted_range : (low high : ℤ) → Invalid

pub data Result {ℓ} (A : Type ℓ) : Type ℓ where
  invalid : (reason : Invalid) → Result A
  ok : (validated : A) → Result A

-- The first reason is the one that is raised.
infixl 5 ◌>>=◌
abbrev pub ◌>>=◌ {κ ℓ} : {C : Type κ} {D : Type ℓ} → Result C → (C → Result D) → Result D
invalid reason >>= next = invalid reason
ok config >>= next = next config

infixl 5 ◌>>◌
abbrev pub ◌>>◌ {ℓ} : {D : Type ℓ} → Result (Unit {0}) → Result D → Result D
checked >> rest = checked >>= λ passed. rest

-- Inversion of a successful step.
pub >>=-eq-ok {κ ℓ} :
    {C : Type κ} {D : Type ℓ} (m : Result C) (next : C → Result D) {d : D}
    → (m >>= next) ≡ ok d
    → (c : C) × (m ≡ ok c) × (next c ≡ ok d)
>>=-eq-ok (ok c) next h = (c, refl, h)
>>=-eq-ok (invalid reason) next h = cc

-- The other way round, to build up a chain.
pub >>=-of_ok {κ ℓ} :
    {C : Type κ} {D : Type ℓ} {m : Result C} (f : C → Result D) {a : C} {r : Result D}
    → m ≡ ok a
    → f a ≡ r
    → (m >>= f) ≡ r
>>=-of_ok f h k = rw h k
