-- ===== src/Hub/Fields/Shape.antt =====
-- What the validators of a field's shape guarantee.
use esphome_vitohome.Common.{
  ℕ, ◌+◌, ◌≤◌, ◌≡◌, ◌↔◌, refl, sym, ◌≢◌, ◌⊎◌, inl, inr, Bool, true, false, not, if◌then◌else◌,
  length, Option, none, some, List, [], ◌∷◌, arith, ℤ, pos, ltb, ◌≤ℤ◌, All,
}
use esphome_vitohome.Hub.Invalid.{
  Invalid, Result, ok, invalid, byte_length_needs_offset, length_not_between, length_not_allowed,
  ◌>>◌, >>=-eq-ok,
}
use esphome_vitohome.Hub.Masks.{bit_field_max}
use esphome_vitohome.Hub.Fields.{
  Config, field_width, contains, validate_block_extraction, validate_bit_field, block_checks,
  plain_checks, mask_checks, validate_bit_field_values, values_fit, or_one, is_signed, guard, given,
}

-- A chain that gets past a guard had its condition.
pub guard-next :
    (b : Bool) (e : Invalid) (m : Result Config) (c' : Config)
    → (guard b (invalid e) >> m) ≡ ok c'
    → (b ≡ true) × (m ≡ ok c')
guard-next true e m c' h = (refl, h)
guard-next false e m c' h = cc

pub ok-eq : (c c' : Config) → ok c ≡ ok c' → c' ≡ c
ok-eq c c' h = cc

-- Where the bytes that an entity reads and writes lie.
abbrev pub FitsAt : List ℕ → Config → Option ℕ → Type 0
FitsAt plain_lengths c none = (c.byte_length ≡ none) × (contains plain_lengths c.length ≡ true)
FitsAt plain_lengths c (some offset) =
    (1 ≤ c.length)
    × (c.length ≤ 48)
    × (offset + field_width c ≤ c.length)
    × ((c.state_address ≢ none) ⊎ (c.length ≤ 16))

module _ (plain_lengths : List ℕ) (c c' : Config) where
  block_lem :
      (offset : ℕ)
      → block_checks c offset ≡ ok c'
      → (c' ≡ c)
        × (1 ≤ c.length)
        × (c.length ≤ 48)
        × (offset + or_one c.byte_length ≤ c.length)
        × ((c.state_address ≢ none) ⊎ (c.length ≤ 16))
  block_lem offset h = ground arith

  plain_lem :
      plain_checks plain_lengths c ≡ ok c'
      → (c' ≡ c) × (c.byte_length ≡ none) × (contains plain_lengths c.length ≡ true)
  plain_lem h = ground arith

-- An accepted configuration comes back as it is, with its field inside the block that is read.
pub extraction_lem :
    (plain_lengths : List ℕ) (c c' : Config)
    → validate_block_extraction plain_lengths c ≡ ok c'
    → (c' ≡ c) × FitsAt plain_lengths c c.byte_offset
unfolding validate_block_extraction field_width
extraction_lem plain_lengths c c' h = go (c.byte_offset) refl
  where
    go : (o : Option ℕ) → c.byte_offset ≡ o → (c' ≡ c) × FitsAt plain_lengths c o
    go none e =
        let (same, alone, allowed) =
          plain_lem plain_lengths c c' (rw (e, validate_block_extraction) at h) in
        (same, (alone, allowed))
    go (some offset) e =
        let (same, low, high, inside, whole) =
          block_lem plain_lengths c c' offset (rw (e, validate_block_extraction) at h) in
        (same, (low, high, rw (e, field_width) inside, whole))

-- A masked field is one unsigned byte, and on a writable platform has one register.
abbrev pub MaskShape : Bool → Config → Option ℕ → Type 0
MaskShape writable c none = Unit
MaskShape writable c (some mask) =
    (field_width c ≡ 1)
    × (is_signed c.signed ≡ false)
    × ((writable ≡ false) ⊎ (c.state_address ≡ none))

pub mask_lem :
    (writable : Bool) (c c' : Config)
    → validate_bit_field writable c ≡ ok c'
    → (c' ≡ c) × MaskShape writable c c.bit_mask
unfolding validate_bit_field
mask_lem writable c c' h = go c.bit_mask refl
  where
    checks :
        (width : ℕ)
        → field_width c ≡ width
        → mask_checks writable c ≡ ok c'
        → (c' ≡ c)
          × (field_width c ≡ 1)
          × (is_signed c.signed ≡ false)
          × ((writable ≡ false) ⊎ (c.state_address ≡ none))
    checks width e h = ground arith

    go : (o : Option ℕ) → c.bit_mask ≡ o → (c' ≡ c) × MaskShape writable c o
    go none e = (ground arith, tt)
    go (some mask) e =
        let (same, one, unsigned, single) =
          checks (field_width c) refl (rw (e, validate_bit_field) at h) in
        (same, (one, unsigned, single))

abbrev pub ValuesFit : List ℤ → Option ℕ → Type 0
ValuesFit values none = Unit
ValuesFit values (some mask) = All (λ v. (pos 0 ≤ℤ v) × (v ≤ℤ pos (bit_field_max mask))) values

values_fit_lem :
    (mask : ℕ) (values : List ℤ) (u : Unit {0})
    → values_fit mask values ≡ ok u
    → All (λ v. (pos 0 ≤ℤ v) × (v ≤ℤ pos (bit_field_max mask))) values
values_fit_lem mask [] u h = tt
values_fit_lem mask (v ∷ vs) u h =
    ((ground arith, ground arith), values_fit_lem mask vs u (ground arith))

pub values_lem :
    (c c' : Config) (values : List ℤ)
    → validate_bit_field_values c values ≡ ok c'
    → (c' ≡ c) × ValuesFit values c.bit_mask
unfolding validate_bit_field_values
values_lem c c' values h = go c.bit_mask refl
  where
    go : (o : Option ℕ) → c.bit_mask ≡ o → (c' ≡ c) × ValuesFit values o
    go none e = (ground arith, tt)
    go (some mask) e =
        let (u, fits, same) =
          >>=-eq-ok (values_fit mask values) (λ _. ok c) (rw (e, validate_bit_field_values) at h) in
        ((let q : c ≡ c' = cc in sym q), values_fit_lem mask values u fits)

block-ok :
    (c : Config) (offset : ℕ)
    → 1 ≤ c.length
    → c.length ≤ 48
    → offset + or_one c.byte_length ≤ c.length
    → ((c.state_address ≢ none) ⊎ (c.length ≤ 16))
    → block_checks c offset ≡ ok c
block-ok c offset low high inside whole = go c.state_address whole
  where
    go :
        (s : Option ℕ)
        → ((s ≢ none) ⊎ (c.length ≤ 16))
        → (let d = record c { state_address = s } in block_checks d offset ≡ ok d)
    go none (inl q) = elim (q refl) [ ]
    go none (inr w) = ground arith
    go (some a) w = ground arith

plain-ok :
    (plain_lengths : List ℕ) (c : Config)
    → c.byte_length ≡ none
    → contains plain_lengths c.length ≡ true
    → plain_checks plain_lengths c ≡ ok c
plain-ok plain_lengths c alone allowed =
    go c.byte_length (contains plain_lengths c.length) alone allowed
  where
    go :
        (o : Option ℕ) (b : Bool)
        → o ≡ none
        → b ≡ true
        → (guard (not (given o)) (invalid byte_length_needs_offset)
            >> (guard b (
                  if ltb 2 (length plain_lengths)
                  then invalid (length_not_between 1 4 c.length)
                  else invalid (length_not_allowed c.length))
                >> ok c))
          ≡ ok c
    go o b p q = rw (p, q) refl

-- A configuration is accepted exactly when it has the shape: without `byte_offset`, no `byte_length`
-- and a length that the platform allows; with it, a block of 1 to 48 bytes, of at most 16 where it is
-- written back whole, that contains the field. It comes back unchanged.
pub validate_block_extraction_iff :
    (plain_lengths : List ℕ) (c : Config)
    → (validate_block_extraction plain_lengths c ≡ ok c) ↔ FitsAt plain_lengths c c.byte_offset
unfolding validate_block_extraction field_width
validate_block_extraction_iff plain_lengths c =
    (λ h. (extraction_lem plain_lengths c c h).1, go c.byte_offset)
  where
    go :
        (o : Option ℕ)
        → (let d = record c { byte_offset = o } in
            FitsAt plain_lengths d o → validate_block_extraction plain_lengths d ≡ ok d)
    go none (alone, allowed) =
        plain-ok plain_lengths (record c { byte_offset = none }) alone allowed
    go (some offset) (low, high, inside, whole) =
        block-ok (record c { byte_offset = some offset }) offset low high inside whole
