-- ===== src/Hub/Fields.antt =====
-- components/vitohome/__init__.py: the field of a datapoint and the validators of its shape.
pub mod Shape
pub mod Targets
pub mod Range
use esphome_vitohome.Common.{
  ℕ, zero, suc, ◌+◌, ◌-◌, ◌*◌, ◌^◌, ◌≤◌, ◌<◌, ◌≡◌, Bool, true, false, not, ◌&&◌, ◌||◌, Option, none,
  some, List, [], ◌∷◌, ℤ, pos, negsuc, leb, ltb, ◌==◌, leb_ℤ, if◌then◌else◌, length, any,
}
use esphome_vitohome.Hub.Invalid.{
  Result, ok, invalid, ◌>>=◌, ◌>>◌, length_not_between, block_read_length, block_write_length,
  field_outside_block, byte_length_needs_offset, length_not_allowed, converter_width, mask_width,
  signed_mask, mask_state_address, value_outside_mask, fault_code_width,
}
use esphome_vitohome.Hub.Masks.{bit_field_max}

abbrev pub max_p300_read_length : ℕ
max_p300_read_length = 48

abbrev pub max_rmw_block : ℕ
max_rmw_block = 16

-- The keys of an entity's configuration that describe its field; an optional key is an `Option`.
pub record Config : Type 0 where
  pub address : ℕ
  pub state_address : Option ℕ
  pub length : ℕ
  pub byte_offset : Option ℕ
  pub byte_length : Option ℕ
  pub bit_mask : Option ℕ
  pub signed : Option Bool

abbrev pub given {ℓ} : {A : Type ℓ} → Option A → Bool
given none = false
given (some _) = true

abbrev pub or_one : Option ℕ → ℕ
or_one none = 1
or_one (some n) = n

abbrev pub contains : List ℕ → ℕ → Bool
contains xs n = any (λ x. x == n) xs

abbrev pub guard : Bool → Result (Unit {0}) → Result (Unit {0})
guard true e = ok tt
guard false e = e

-- `validate_length_in`
unfoldable pub validate_length_in : ℕ → ℕ → ℕ → Result ℕ
validate_length_in min_len max_len value =
    if leb min_len value && leb value max_len
    then ok value
    else invalid (length_not_between min_len max_len value)

-- `field_width`
unfoldable pub field_width : Config → ℕ
field_width c = elim c.byte_offset [ none ↦ c.length | some _ ↦ or_one c.byte_length ]

-- `validate_block_extraction(plain_lengths)`; the warning that it logs is left out.
abbrev pub block_checks : Config → ℕ → Result Config
block_checks c offset = do
  guard (leb 1 c.length && leb c.length max_p300_read_length) (invalid (block_read_length c.length))
  guard (given c.state_address || leb c.length max_rmw_block)
      (invalid (block_write_length c.length))
  guard (leb (offset + or_one c.byte_length) c.length)
      (invalid (field_outside_block offset (or_one c.byte_length) c.length))
  ok c

abbrev pub plain_checks : List ℕ → Config → Result Config
plain_checks plain_lengths c = do
  guard (not (given c.byte_length)) (invalid byte_length_needs_offset)
  guard (contains plain_lengths c.length) (
      if ltb 2 (length plain_lengths)
      then invalid (length_not_between 1 4 c.length)
      else invalid (length_not_allowed c.length))
  ok c

unfoldable pub validate_block_extraction : List ℕ → Config → Result Config
validate_block_extraction plain_lengths c = elim c.byte_offset [
  | none ↦ plain_checks plain_lengths c
  | some offset ↦ block_checks c offset
]

abbrev is_signed : Option Bool → Bool
is_signed none = false
is_signed (some b) = b

-- `validate_bit_field(writable=…)`
abbrev pub mask_checks : Bool → Config → Result Config
mask_checks writable c = do
  guard (field_width c == 1) (invalid (mask_width (field_width c)))
  guard (not (is_signed c.signed)) (invalid signed_mask)
  guard (not (writable && given c.state_address)) (invalid mask_state_address)
  ok c

unfoldable pub validate_bit_field : Bool → Config → Result Config
unfolding field_width
validate_bit_field writable c = elim c.bit_mask [ none ↦ ok c | some _ ↦ mask_checks writable c ]

-- `validate_bit_field_values`
abbrev pub values_fit : ℕ → List ℤ → Result (Unit {0})
values_fit mask [] = ok tt
values_fit mask (v ∷ vs) =
    let rest = values_fit mask vs in
    if leb_ℤ (pos 0) v && leb_ℤ v (pos (bit_field_max mask))
    then rest
    else invalid (value_outside_mask v mask)

unfoldable pub validate_bit_field_values : Config → List ℤ → Result Config
validate_bit_field_values c values = elim c.bit_mask [
  | none ↦ ok c
  | some mask ↦ values_fit mask values >> ok c
]

-- `raw_fits`; a length is at least 1.
unfoldable pub raw_fits : ℤ → ℕ → Bool → Bool
raw_fits raw_value length true =
    leb_ℤ (negsuc (2 ^ (8 * length - 1) - 1)) raw_value
    && leb_ℤ raw_value (pos (2 ^ (8 * length - 1) - 1))
raw_fits raw_value length false =
    leb_ℤ (pos 0) raw_value && leb_ℤ raw_value (pos (2 ^ (8 * length) - 1))

-- `validate_fault_codes`
unfoldable pub validate_fault_codes : List ℤ → Result (Unit {0})
validate_fault_codes [] = ok tt
validate_fault_codes (code ∷ codes) =
    let rest = validate_fault_codes codes in
    if leb_ℤ (pos 0) code && leb_ℤ code (pos 0xFF) then rest else invalid (fault_code_width code)

-- What `emit_write_target` makes the entity write.
pub data WriteTarget : Type 0 where
  block_field : (offset width : ℕ) → WriteTarget
  interior : (address width offset : ℕ) → WriteTarget
  command : (address length : ℕ) → WriteTarget
  same_register : WriteTarget

abbrev pub read_address : Config → ℕ
read_address c = elim c.state_address [ none ↦ c.address | some a ↦ a ]

abbrev pub offset_target : Option ℕ → Config → ℕ → WriteTarget
offset_target none c offset = block_field offset (or_one c.byte_length)
offset_target (some _) c offset = interior c.address (or_one c.byte_length) offset

unfoldable pub emit_write_target : Config → WriteTarget
emit_write_target c = elim c.byte_offset [
  | some offset ↦ offset_target c.state_address c offset
  | none ↦ if read_address c == c.address then same_register else command c.address c.length
]
