-- ===== src/Emitter/Addresses.antt =====
-- scripts/vitocatalog/emitter.py: which address an emitted entity has.
use mathlib.Core.Path.{subst}
use esphome_vitohome.Common.{
  ℕ, ◌≡◌, refl, Bool, true, false, not, ◌&&◌, ◌||◌, Option, none, some, List, [], ◌∷◌, any, pos,
  max_ℤ, Text, ltb, ltb_ℤ, leb_ℤ, eqb_ℤ, ◌+ℤ◌, is_odd, if◌then◌else◌, and-true, arith, pos_part, ap,
  sym, ◌++◌,
}
use esphome_vitohome.Hub.Access.{Protocol, writes}
use esphome_vitohome.Catalog.Modes.{is_writable}
use esphome_vitohome.Emitter.Drafts.Kept.{draft_of-Kept}
use esphome_vitohome.Catalog.{Event, int_or}
use esphome_vitohome.Catalog.Bits.{BitField, bit_field, byte_of}
use esphome_vitohome.Catalog.Blocks.{Blocks, block_write_blocker}
use esphome_vitohome.Catalog.Options.{enum_options, dedup_option_labels}
use esphome_vitohome.Catalog.Toggles.{enum_bool_pair}
use esphome_vitohome.Catalog.Floats.{Floats}
use esphome_vitohome.Emitter.{
  TextType, enum, ascii, utf16, EntitySpec, Emitted, entity, block_length_of, is_non_numeric,
  state_address_of, contradicts, Factors,
}
use esphome_vitohome.Hub.Fields.{given}
use esphome_vitohome.Hub.Converters.{noconv}
use esphome_vitohome.Catalog.Scales.{declared_unsigned}
use esphome_vitohome.Emitter.Presets.{scale_filters}
use esphome_vitohome.Emitter.Fields.{
  bit_writing, block_writing, no_filters, Site, site_of, toggle_or_select, enum_field, OneByte,
  field_number, field_sensor, borders_fit, numeric_entity, one_byte, declared_field, filled_field,
  checked_field, build_bit_field_spec,
}
use esphome_vitohome.Emitter.Drafts.{first_draft, draft_of}
use esphome_vitohome.Emitter.Fields.Accepted.{declared_field-demotes, one_byte-demotes}
use esphome_vitohome.Emitter.Values.{
  value_writing, encodable_draft, smaller_than_block, read_only_entity, chosen_entity,
  scalar_entity, choice_of, choosable, has_options, value_entity, is_bit_field, at_address,
  build_entity_spec,
}
use esphome_vitohome.Emitter.Platforms.{
  is_read_only, conv_or_noconv, Choice, choice_entity, bit_sensor, enum_sensor, sensor_entity,
  number_entity, has_width, is_big_endian, signed_default,
}
use esphome_vitohome.Emitter.Strings.{
  Place, place_of, string_type, string_spec, string_result, is_zero, string_entity, extracts,
}
use esphome_vitohome.Emitter.Holds.{
  Holds, either-Holds, either_of, either_at, either-Holds_at, Holds_at,
}

-- The address is that of the datapoint, and an entity of a writing platform is for one that `w` says is
-- written.
abbrev HasAddress : {Float : Type 0} → Bool → ℕ → EntitySpec Float → Type 0
HasAddress w addr spec = (spec.address ≡ addr) × (writes spec.platform ≡ true → w ≡ true)

string_spec-HasAddress :
    (Float : Type 0) (w : Bool) (kind : TextType) (addr : ℕ) (p : Place)
    → Holds {Float = Float} (HasAddress w addr) (string_result (string_spec kind addr p))
unfolding string_spec
string_spec-HasAddress Float w kind addr p =
    go (is_zero p.field_off) (ltb_ℤ (pos 48) (max_ℤ p.block_len (p.field_off +ℤ p.length))) _ _
      (refl, λ h. cc) (refl, λ h. cc)
  where
    go :
        (a b : Bool) (x y : EntitySpec Float)
        → HasAddress w addr x
        → HasAddress w addr y
        → Holds
            (HasAddress w addr)
            (string_result (if a then some x else if b then none else some y))
    go true b x y h k = h
    go false true x y h k = tt
    go false false x y h k = k

string_entity-HasAddress :
    (Float : Type 0) (w : Bool) (kind : TextType) (addr : ℕ) (p : Place)
    → Holds {Float = Float} (HasAddress w addr) (string_entity kind addr p)
string_entity-HasAddress Float w enum addr p =
    either-Holds (HasAddress w addr) (ltb_ℤ (pos 32) p.length) _ _ tt
      (string_spec-HasAddress Float w enum addr p)
string_entity-HasAddress Float w ascii addr p =
    either-Holds (HasAddress w addr) (ltb_ℤ (pos 32) p.length) _ _ tt
      (string_spec-HasAddress Float w ascii addr p)
string_entity-HasAddress Float w utf16 addr p =
    either-Holds (HasAddress w addr) (ltb_ℤ (pos 40) p.length || is_odd p.length) _ _ tt
      (string_spec-HasAddress Float w utf16 addr p)

module _ (F : Floats) (ev : Event) (w : Bool) where
  toggle_or_select-HasAddress :
      (s : Site) (opts : List (ℕ × Text)) (pair : Option (ℕ × ℕ))
      → w ≡ true
      → HasAddress w s.address (toggle_or_select {Float = F.Float} s opts pair)
  toggle_or_select-HasAddress s opts none e = (refl, λ h. e)
  toggle_or_select-HasAddress s opts (some pair) e = (refl, λ h. e)

  enum_field-HasAddress :
      (s : Site) (opts : List (ℕ × Text)) (pair : Option (ℕ × ℕ))
      → (s.writing.writable ≡ true → w ≡ true)
      → Holds (HasAddress w s.address) (enum_field {Float = F.Float} s opts pair)
  unfolding enum_field
  enum_field-HasAddress s opts pair k =
      either-Holds (HasAddress w s.address) (any (λ o. ltb s.top o.0) opts) _ _ tt (
        either_at (HasAddress w s.address) s.writing.writable _ _
          (λ e. toggle_or_select-HasAddress s opts pair (k e))
          (either_of (HasAddress w s.address) (eqb_ℤ s.bits (pos 1)) _ _ (refl, λ h. cc)
            (refl, λ h. cc)))

  numeric_entity-HasAddress :
      (s : Site) (d : OneByte F)
      → (d.writable ≡ true → w ≡ true)
      → HasAddress w s.address (numeric_entity F ev s d)
  unfolding field_number field_sensor
  numeric_entity-HasAddress s d k =
      either_at (HasAddress w s.address) d.writable _ _
        (λ e.
          either_of (HasAddress w s.address) (borders_fit F ev d.name s.top) _ _ (refl, λ h. k e)
            (refl, λ h. k e))
        (refl, λ h. cc)

  filled_field-HasAddress :
      (protocol : Protocol) (factors : Factors F.Float) (s : Site) (opts : List (ℕ × Text))
      → (s.writing.writable ≡ true → w ≡ true)
      → Holds (HasAddress w s.address) (filled_field F ev protocol factors s opts)
  filled_field-HasAddress protocol factors s [] k =
      let d = declared_field F ev protocol s.writing.writable factors in
      numeric_entity-HasAddress s (one_byte F d) (λ e.
        k (
          declared_field-demotes F ev protocol s.writing.writable factors (one_byte-demotes F d e)))
  filled_field-HasAddress protocol factors s (o ∷ os) k =
      enum_field-HasAddress s (o ∷ os) (enum_bool_pair ev) k

  bit_field-HasAddress :
      (protocol : Protocol) (partial_writes : Bool) (ro_blocks : Blocks) (factors : Factors F.Float)
      (addr : ℕ)
      → ((bit_writing ev protocol partial_writes ro_blocks addr).writable ≡ true → w ≡ true)
      → Holds
          (HasAddress w addr)
          (build_bit_field_spec F ev protocol partial_writes ro_blocks factors addr)
  unfolding build_bit_field_spec site_of
  bit_field-HasAddress protocol partial_writes ro_blocks factors addr k = go (bit_field ev)
    where
      go :
          (o : Option BitField)
          → Holds
              (HasAddress w addr)
              (checked_field F ev protocol partial_writes ro_blocks factors addr o)
      go none = tt
      go (some f) =
          either-Holds (HasAddress w addr) (contradicts ev.byte_position f.byte_offset) _ _ tt (
            either-Holds (HasAddress w addr)
              (ltb_ℤ (pos 48) (block_length_of ev) || leb_ℤ (block_length_of ev) f.byte_offset) _ _
              tt
              (filled_field-HasAddress protocol factors
                (site_of ev protocol partial_writes ro_blocks addr f)
                (dedup_option_labels (enum_options ev false)) k))

  bit_sensor-HasAddress : (c : Choice F.Float) → Holds (HasAddress w c.address) (bit_sensor ev c)
  unfolding bit_sensor
  bit_sensor-HasAddress c =
      let n = int_or ev.bit_position (pos 0) in
      either-Holds (HasAddress w c.address) (contradicts ev.byte_position (byte_of n)) _ _ tt (
        either-Holds (HasAddress w c.address)
          (ltb_ℤ (pos 48) c.place.block_len || leb_ℤ c.place.block_len (byte_of n)) _ _ tt
          (refl, λ h. cc))

  read_only_entity-HasAddress :
      (c : Choice F.Float) → Holds (HasAddress w c.address) (read_only_entity F ev c)
  unfolding sensor_entity enum_sensor
  read_only_entity-HasAddress c =
      either-Holds (HasAddress w c.address) (ltb_ℤ (pos 0) c.bits) _ _ (bit_sensor-HasAddress c)
        (go c.options)
    where
      go :
          (opts : List (ℕ × Text))
          → Holds (HasAddress w c.address) (elim opts as (λ _. Emitted F.Float) [
            | [] ↦ entity (sensor_entity F ev c)
            | _ ∷ _ ↦ entity (enum_sensor c)
          ])
      go [] = (refl, λ h. cc)
      go (o ∷ os) = (refl, λ h. cc)

  choice_entity-HasAddress :
      (c : Choice F.Float) (pair : Option (ℕ × ℕ))
      → w ≡ true
      → HasAddress w c.address (choice_entity c pair)
  choice_entity-HasAddress c none e = (refl, λ h. e)
  choice_entity-HasAddress c (some pair) e = (refl, λ h. e)

  chosen_entity-HasAddress :
      (c : Choice F.Float)
      → (c.writing.writable ≡ true → w ≡ true)
      → Holds (HasAddress w c.address) (chosen_entity F ev c)
  unfolding number_entity
  chosen_entity-HasAddress c k =
      either-Holds_at (HasAddress w c.address) c.writing.writable _ _
        (λ e.
          either-Holds (HasAddress w c.address) (choosable F c) _ _
            (choice_entity-HasAddress c c.pair (k e)) (refl, λ h. k e))
        (read_only_entity-HasAddress c)

  scalar_entity-HasAddress :
      (c : Choice F.Float)
      → (c.writing.writable ≡ true → w ≡ true)
      → Holds (HasAddress w c.address) (scalar_entity F ev c)
  unfolding scalar_entity
  scalar_entity-HasAddress c k =
      let plain = not (ltb_ℤ (pos 0) c.bits) && not (has_options F c.options) in
      either-Holds (HasAddress w c.address) (plain && ltb_ℤ (pos 4) c.place.length) _ _ tt (
        either-Holds (HasAddress w c.address) (plain && not (has_width c.name c.place.length)) _ _
          (either-Holds (HasAddress w c.address) (is_big_endian c.name) _ _ tt (
            read_only_entity-HasAddress (record c {
              name = noconv;
              filters = c.filters ++ scale_filters F c.name;
              force_signed = signed_default c.name && not (declared_unsigned F ev);
              writing = record c.writing { writable = false };
            })))
          (chosen_entity-HasAddress c k))

  value_entity-HasAddress :
      (addr : ℕ) (p : Place) (kind : Option TextType) (c : Choice F.Float)
      → c.address ≡ addr
      → (c.writing.writable ≡ true → w ≡ true)
      → Holds (HasAddress w addr) (value_entity F ev addr p kind c)
  value_entity-HasAddress addr p (some kind) c e k = string_entity-HasAddress F.Float w kind addr p
  value_entity-HasAddress addr p none c e k =
      either-Holds (HasAddress w addr) (not (is_zero p.field_off) && not (extracts p)) _ _ tt (
        subst (λ a. Holds (HasAddress w a) (scalar_entity F ev c)) e (scalar_entity-HasAddress c k))

block_writing-writable :
    (writable wide blocked : Bool)
    → (block_writing writable wide blocked).writable ≡ true
    → writable ≡ true
block_writing-writable writable wide blocked h = ground arith

module _ (F : Floats) (ev : Event) (protocol : Protocol) (partial_writes : Bool)
    (ro_blocks : Blocks) where
  bit_writing-is_writable :
      (addr : ℕ)
      → (bit_writing ev protocol partial_writes ro_blocks addr).writable ≡ true
      → is_writable ev protocol ≡ true
  unfolding bit_writing
  bit_writing-is_writable addr h =
      let blocked = given (
        block_write_blocker ev protocol (pos_part (block_length_of ev)) 1 ro_blocks
          partial_writes) in
      let wide = ltb_ℤ (pos 1) (block_length_of ev) in
      let (a, b) =
        and-true (block_writing (is_writable ev protocol && partial_writes) wide blocked).writable
          (not (given (state_address_of addr))) h in
      (and-true (is_writable ev protocol) partial_writes
        (block_writing-writable (is_writable ev protocol && partial_writes) wide blocked a)).0

  value_writing-is_writable :
      (factors : Factors F.Float) (p : Place)
      → (value_writing F ev protocol partial_writes ro_blocks
          (draft_of F ev protocol factors)
          p).writable
        ≡ true
      → is_writable ev protocol ≡ true
  unfolding value_writing first_draft
  value_writing-is_writable factors p h =
      let d = draft_of F ev protocol factors in
      let a =
        block_writing-writable (encodable_draft F d) (smaller_than_block F p)
          (given (
            block_write_blocker ev protocol (pos_part p.block_len) (pos_part p.length) ro_blocks
              partial_writes))
          h in
      let (b, c) =
        and-true (d.writable && not (is_read_only (conv_or_noconv d.conv))) (no_filters F d.filters)
          a in
      (draft_of-Kept F ev protocol factors).0
        (and-true d.writable (not (is_read_only (conv_or_noconv d.conv))) b).0

  emitted-HasAddress :
      (factors : Factors F.Float) (addr : ℕ)
      → Holds
          (HasAddress (is_writable ev protocol) addr)
          (at_address F ev protocol partial_writes ro_blocks factors (some addr))
  unfolding choice_of
  emitted-HasAddress factors addr =
      let w = is_writable ev protocol in
      either-Holds (HasAddress w addr) (is_non_numeric ev.conversion) _ _ tt (
        either-Holds (HasAddress w addr)
          (eqb_ℤ ev.access_type (pos 2) && not (given (state_address_of addr))) _ _ tt
          (either-Holds (HasAddress w addr) (is_bit_field F ev protocol) _ _
            (bit_field-HasAddress F ev w protocol partial_writes ro_blocks factors addr
              (bit_writing-is_writable addr))
            (value_entity-HasAddress F ev w addr (place_of ev) (string_type ev.conversion) _ refl
              (value_writing-is_writable factors (place_of ev)))))

pub build_entity_spec-address :
    (F : Floats) (ev : Event) (protocol : Protocol) (partial_writes : Bool) (ro_blocks : Blocks)
    (factors : Factors F.Float) (spec : EntitySpec F.Float)
    → build_entity_spec F ev protocol partial_writes ro_blocks factors ≡ entity spec
    → (ev.address ≡ some spec.address)
      × (writes spec.platform ≡ true → is_writable ev protocol ≡ true)
unfolding build_entity_spec
build_entity_spec-address F ev protocol partial_writes ro_blocks factors spec = go ev.address
  where
    go :
        (o : Option ℕ)
        → at_address F ev protocol partial_writes ro_blocks factors o ≡ entity spec
        → (o ≡ some spec.address) × (writes spec.platform ≡ true → is_writable ev protocol ≡ true)
    go none h = cc
    go (some addr) h =
        let (a, b) =
          Holds_at (HasAddress (is_writable ev protocol) addr) _ spec
            (emitted-HasAddress F ev protocol partial_writes ro_blocks factors addr) h in
        (ap some (sym a), b)
