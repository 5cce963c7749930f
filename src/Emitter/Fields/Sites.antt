-- ===== src/Emitter/Fields/Sites.antt =====
-- Where a field lies that is emitted, and the configuration of an entity on it.
use esphome_vitohome.Common.{
  ℕ, zero, suc, ◌+◌, ◌-◌, ◌*◌, ◌/◌, ◌^◌, ◌≤◌, ◌<◌, ◌≡◌, refl, Bool, true, false, ◌&&◌, Option, none,
  some, arith, ℤ, pos, negsuc, pos_part, leb_ℤ, ltb_ℤ, leb, ◌==◌, all_below, all_below-at,
  if◌then◌else◌, leb→le,
}
use esphome_vitohome.Hub.Access.{Protocol}
use esphome_vitohome.Hub.Masks.{bit_field_max}
use esphome_vitohome.Hub.Fields.{Config, given}
use esphome_vitohome.Catalog.{Event, int_or}
use esphome_vitohome.Catalog.Modes.{is_writable}
use esphome_vitohome.Catalog.Bits.{BitField, bit_field, field_at, bit_of}
use esphome_vitohome.Catalog.Bits.Fields.{BitSpec, bit_field_lem}
use esphome_vitohome.Catalog.Blocks.{Blocks, block_write_blocker}
use esphome_vitohome.Catalog.Blocks.Writes.{blocker-parts}
use esphome_vitohome.Emitter.{EntitySpec, block_length_of, state_address_of}
use esphome_vitohome.Emitter.Reading.{as_int, Written}
use esphome_vitohome.Emitter.Fields.{
  Writing, block_writing, without_state, bit_writing, bit_read, Site, on_field, site_of,
}
use esphome_vitohome.Emitter.Fields.Shapes.{
  byte_config, block_config, IsShape, byte, block, IsShort, TopIs,
}

-- A block that is written is written back whole, or is one byte.
abbrev pub WriteFits : Writing → ℕ → Type 0
WriteFits w n = (w.block_mode ≡ true → n ≤ 16) × (w.block_mode ≡ false → n ≤ 1)

pub record IsSite (s : Site) : Type 0 where
  pub at : ℕ
  pub size : ℕ
  pub is_at : s.byte ≡ pos at
  pub is_size : s.block_len ≡ pos size
  pub inside : at < size
  pub short : size ≤ 48
  pub largest : bit_field_max s.mask ≡ s.top
  pub small : s.top ≤ 255
  pub written : s.writing.writable ≡ true → WriteFits s.writing size

-- The configuration of an entity on the field.
abbrev pub field_config : (address mask : ℕ) → Bool → (size at : ℕ) → Config
field_config address mask true size at = block_config address mask size at
field_config address mask false size zero = byte_config address mask
field_config address mask false size (suc at) = block_config address mask size (suc at)

field_config-IsShape :
    (address mask : ℕ) (mode : Bool) (size at : ℕ)
    → at < size
    → size ≤ 48
    → IsShape (field_config address mask mode size at)
field_config-IsShape address mask true size at h k = block address mask size at h k
field_config-IsShape address mask false size zero h k = byte address mask
field_config-IsShape address mask false size (suc at) h k = block address mask size (suc at) h k

field_config-IsShort :
    (address mask : ℕ) (mode : Bool) (size at : ℕ)
    → at < size
    → (mode ≡ true → size ≤ 16)
    → (mode ≡ false → size ≤ 1)
    → IsShort
        (field_config address mask mode size at)
        (field_config address mask mode size at).byte_offset
field_config-IsShort address mask true size at h p q = p refl
field_config-IsShort address mask false size zero h p q = tt
field_config-IsShort address mask false size (suc at) h p q = (let r = q refl in omega arith)

field_config-mask :
    (address mask : ℕ) (mode : Bool) (size at : ℕ)
    → (field_config address mask mode size at).bit_mask ≡ some mask
field_config-mask address mask true size at = refl
field_config-mask address mask false size zero = refl
field_config-mask address mask false size (suc at) = refl

pub not_first : (n : ℕ) → (suc n == 0) ≡ false
not_first n = ground arith

module _ (s : Site) (site : IsSite s) where
  abbrev pub config_at : Config
  config_at = field_config s.address s.mask s.writing.block_mode site.size site.at

  pub config_at-IsShape : IsShape config_at
  config_at-IsShape =
      field_config-IsShape s.address s.mask s.writing.block_mode site.size site.at site.inside
        site.short

  pub config_at-IsShort : s.writing.writable ≡ true → IsShort config_at config_at.byte_offset
  config_at-IsShort h =
      field_config-IsShort s.address s.mask s.writing.block_mode site.size site.at site.inside
        (site.written h).0 (site.written h).1

  pub config_at-TopIs : TopIs config_at s.top
  config_at-TopIs = (
    s.mask,
    field_config-mask s.address s.mask s.writing.block_mode site.size site.at,
    site.largest,
    site.small,
  )

  -- The keys of an entity on the field are those of the configuration.
  pub on_field-Written :
      {Float : Type 0} (spec : EntitySpec Float)
      → spec.state_address ≡ none
      → spec.byte_length ≡ none
      → spec.signed ≡ none
      → Written (on_field s spec) config_at
  on_field-Written spec no_state no_length no_sign =
      go s.writing.block_mode site.at s.byte s.block_len site.is_at site.is_size
    where
      go :
          (mode : Bool) (at : ℕ) (position len : ℤ)
          → position ≡ pos at
          → len ≡ pos site.size
          → (let c = field_config s.address s.mask mode site.size at in
              (s.address ≡ c.address)
              × (spec.state_address ≡ c.state_address)
              × ((bit_read mode position len).0 ≡ pos c.length)
              × ((bit_read mode position len).1 ≡ as_int c.byte_offset)
              × (spec.byte_length ≡ as_int c.byte_length)
              × (some s.mask ≡ c.bit_mask)
              × (spec.signed ≡ c.signed))
      go true at position len p q = rw (p, q) (refl, no_state, refl, refl, no_length, refl, no_sign)
      go false zero position len p q = rw p (refl, no_state, refl, refl, no_length, refl, no_sign)
      go false (suc at) position len p q =
          rw (p, q, not_first at) (refl, no_state, refl, refl, no_length, refl, no_sign)

byte_masks : all_below 9 (λ width. leb (2 ^ width - 1) 255) ≡ true
byte_masks = refl

field_at_parts :
    (position : ℕ) (length : ℤ) (f : BitField)
    → field_at (pos position) length ≡ some f
    → ((at : ℕ) × (f.byte_offset ≡ pos at)) × (f.mask ≤ 255)
field_at_parts position (negsuc n) f h = cc
field_at_parts position (pos width) f h =
    go (leb 1 width && leb width 8 && leb (bit_of (pos position) + width) 8) refl h
  where
    go :
        (b : Bool)
        → (leb 1 width && leb width 8 && leb (bit_of (pos position) + width) 8) ≡ b
        → (if b
            then some (record {
              byte_offset = pos (position / 8);
              shift = 8 - bit_of (pos position) - width;
              mask = 2 ^ width - 1;
            })
            else none)
          ≡ some f
        → ((at : ℕ) × (f.byte_offset ≡ pos at)) × (f.mask ≤ 255)
    go false e h = cc
    go true e h =
        let low : width < 9 = ground arith in
        let q : f.mask ≡ 2 ^ width - 1 = cc in
        (
          (position / 8, (let p : f.byte_offset ≡ pos (position / 8) = cc in p)),
          rw q (
              leb→le (2 ^ width - 1) 255
                (all_below-at 9 (λ width. leb (2 ^ width - 1) 255) width byte_masks low)),
        )

-- A block that may be read and has the byte in it.
pub block_size :
    (len : ℤ) (at : ℕ)
    → ltb_ℤ (pos 48) len ≡ false
    → leb_ℤ len (pos at) ≡ false
    → (n : ℕ) × (len ≡ pos n) × (at < n) × (n ≤ 48)
block_size (pos n) at h k = (n, refl, ground arith, ground arith)
block_size (negsuc n) at h k = absurd (ground arith)

pub none-given : {A : Type 0} (o : Option A) → given o ≡ false → o ≡ none
none-given none h = refl
none-given (some a) h = cc

block_writing_lem :
    (writable wide blocked state : Bool) (n : ℕ)
    → (blocked ≡ false → n ≤ 16)
    → (wide ≡ false → n ≤ 1)
    → (let w = without_state state (block_writing writable wide blocked) in
        w.writable ≡ true → WriteFits w n)
block_writing_lem true true true state n p q h = cc
block_writing_lem true true false state n p q h = (λ e. p refl, λ e. cc)
block_writing_lem true false blocked state n p q h = (λ e. cc, λ e. q refl)
block_writing_lem false wide blocked state n p q h = cc

wide_or_one : (n : ℕ) → ltb_ℤ (pos 1) (pos n) ≡ false → n ≤ 1
wide_or_one n h = ground arith

bit_writing-WriteFits :
    (ev : Event) (protocol : Protocol) (partial_writes : Bool) (ro_blocks : Blocks) (addr n : ℕ)
    → block_length_of ev ≡ pos n
    → (bit_writing ev protocol partial_writes ro_blocks addr).writable ≡ true
    → WriteFits (bit_writing ev protocol partial_writes ro_blocks addr) n
unfolding bit_writing
bit_writing-WriteFits ev protocol partial_writes ro_blocks addr n e =
    block_writing_lem (is_writable ev protocol && partial_writes)
      (ltb_ℤ (pos 1) (block_length_of ev))
      (given (
        block_write_blocker ev protocol (pos_part (block_length_of ev)) 1 ro_blocks partial_writes))
      (given (state_address_of addr)) n
      (λ h.
        (let free = none-given _ h in
          let size : pos_part (block_length_of ev) ≡ n = rw e refl in
          rw (← size)
            (blocker-parts ev protocol (pos_part (block_length_of ev)) 1 ro_blocks partial_writes
              free).2))
      (λ h. wide_or_one n (rw e at h))

bit_field_at :
    (ev : Event) (f : BitField)
    → bit_field ev ≡ some f
    → field_at (int_or ev.bit_position (pos 0)) (int_or ev.bit_length (pos 0)) ≡ some f
unfolding bit_field
bit_field_at ev f e = e

pub site_of-IsSite :
    (ev : Event) (protocol : Protocol) (partial_writes : Bool) (ro_blocks : Blocks) (addr : ℕ)
    (f : BitField) (position : ℕ)
    → bit_field ev ≡ some f
    → int_or ev.bit_position (pos 0) ≡ pos position
    → ltb_ℤ (pos 48) (block_length_of ev) ≡ false
    → leb_ℤ (block_length_of ev) f.byte_offset ≡ false
    → IsSite (site_of ev protocol partial_writes ro_blocks addr f)
unfolding site_of
site_of-IsSite ev protocol partial_writes ro_blocks addr f position e p h k =
    let ((at, is_at), small) = field_parts e in
    let (n, is_size, inside, short) = block_size (block_length_of ev) at h (rw is_at at k) in
    record {
      at = at;
      size = n;
      is_at = is_at;
      is_size = is_size;
      inside = inside;
      short = short;
      largest = largest_value (bit_field ev) e (bit_field_lem ev);
      small = small;
      written = bit_writing-WriteFits ev protocol partial_writes ro_blocks addr n is_size;
    }
  where
    field_parts : bit_field ev ≡ some f → ((at : ℕ) × (f.byte_offset ≡ pos at)) × (f.mask ≤ 255)
    field_parts e =
        field_at_parts position (int_or ev.bit_length (pos 0)) f (rw p at (bit_field_at ev f e))

    largest_value :
        (o : Option BitField)
        → o ≡ some f
        → BitSpec (int_or ev.bit_position (pos 0)) (int_or ev.bit_length (pos 0)) o
        → bit_field_max (f.mask * 2 ^ f.shift) ≡ f.mask
    largest_value none e spec = cc
    largest_value (some g) e spec = (let q : g ≡ f = cc in rw (← q) spec.5)
