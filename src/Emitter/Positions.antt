-- ===== src/Emitter/Positions.antt =====
-- scripts/vitocatalog/emitter.py: which bytes of its block an emitted entity reads or writes.
use esphome_vitohome.Common.{
  ℕ, ◌≡◌, ◌≢◌, refl, Bool, true, false, not, ◌&&◌, Option, none, some, List, [], ◌∷◌, ◌++◌, ℤ, pos,
  pos_part, Text, ltb_ℤ, eqb_ℤ, if◌then◌else◌, ◌∙◌,
}
use esphome_vitohome.Hub.Access.{Protocol}
use esphome_vitohome.Hub.Fields.{given}
use esphome_vitohome.Hub.Converters.{noconv}
use esphome_vitohome.Catalog.{Event, int_or}
use esphome_vitohome.Catalog.Blocks.{Blocks, block_write_blocker}
use esphome_vitohome.Catalog.Floats.{Floats}
use esphome_vitohome.Catalog.Scales.{declared_unsigned, width_of}
use esphome_vitohome.Emitter.{
  TextType, enum, EntitySpec, Emitted, comment, entity, is_non_numeric, not_aligned,
  state_address_of, Factors,
}
use esphome_vitohome.Emitter.Presets.{scale_filters}
use esphome_vitohome.Emitter.Fields.{block_writing}
use esphome_vitohome.Emitter.Drafts.{draft_of}
use esphome_vitohome.Emitter.Values.{
  chosen_entity, scalar_entity, choice_of, value_writing, encodable_draft, smaller_than_block,
  choosable, has_options, value_entity, is_bit_field, at_address, build_entity_spec,
}
use esphome_vitohome.Emitter.Platforms.{
  Choice, choice_entity, bit_sensor, enum_sensor, sensor_entity, number_entity, has_width,
  is_big_endian, signed_default,
}
use esphome_vitohome.Emitter.Strings.{place_of, string_type, is_zero, extracts, unless_one}
use esphome_vitohome.Emitter.Accepted.{same_width}
use esphome_vitohome.Emitter.Holds.{Holds, either-Holds, Holds_at}
use esphome_vitohome.Emitter.Extents.{
  start_from, size_from, IsField, IsValueField, size-unless_one, string-IsValueField, first_byte,
  first_bytes,
}

module _ (F : Floats) (ev : Event) (c : Choice F.Float)
    (aligned : (not (is_zero c.place.field_off) && not (extracts c.place)) ≡ false)
    (same : c.place.field_width ≡ c.place.length)
    (whole : c.writing.writable ≡ true → c.writing.block_mode ≡ false → pos 0 ≡ c.place.field_off)
    (no_bits : ltb_ℤ (pos 0) c.bits ≡ false) where
  abbrev Here : EntitySpec F.Float → Type 0
  Here = IsValueField c.place.field_off c.place.length

  target-IsField :
      (mode : Bool)
      → (mode ≡ false → pos 0 ≡ c.place.field_off)
      → (let o = if mode then some c.place.field_off else none in
          (start_from o ≡ c.place.field_off)
          × (size_from o
                (if mode then unless_one c.place.length else none)
                (if mode then c.place.block_len else c.place.length)
              ≡ c.place.length))
  target-IsField true h = (refl, size-unless_one c.place.field_off c.place.length c.place.block_len)
  target-IsField false h = (h refl, refl)

  choice-Here : (pair : Option (ℕ × ℕ)) → c.writing.writable ≡ true → Here (choice_entity c pair)
  choice-Here none w = λ k. target-IsField c.writing.block_mode (whole w)
  choice-Here (some pair) w = λ k. target-IsField c.writing.block_mode (whole w)

  number-Here : c.writing.writable ≡ true → Here (number_entity F ev c)
  unfolding number_entity
  number-Here w = λ k. target-IsField c.writing.block_mode (whole w)

  sensor-Here : Here (sensor_entity F ev c)
  unfolding sensor_entity
  sensor-Here = λ k. go (extracts c.place) refl
    where
      go :
          (e : Bool)
          → extracts c.place ≡ e
          → (let o = if e then some c.place.field_off else none in
              (start_from o ≡ c.place.field_off)
              × (size_from o
                    (if e then unless_one c.place.field_width else none)
                    (if e then c.place.block_len else c.place.length)
                  ≡ c.place.length))
      go true e =
          (refl, size-unless_one c.place.field_off c.place.field_width c.place.block_len ∙ same)
      go false e = (first_byte c.place aligned e, refl)

  enum-Here : Here (enum_sensor c)
  unfolding enum_sensor
  enum-Here = λ k. absurd (k refl)

  chosen-Here : Holds Here (chosen_entity F ev c)
  chosen-Here = go c.writing.writable refl (choosable F c) (ltb_ℤ (pos 0) c.bits) no_bits c.options
    where
      go :
          (w : Bool)
          → c.writing.writable ≡ w
          → (ch b : Bool) → b ≡ false
          → (opts : List (ℕ × Text))
          → Holds Here (
              if w
              then (if ch then entity (choice_entity c c.pair) else entity (number_entity F ev c))
              else if b
              then bit_sensor ev c
              else elim opts as (λ _. Emitted F.Float) [
                | [] ↦ entity (sensor_entity F ev c)
                | _ ∷ _ ↦ entity (enum_sensor c)
              ])
      go true e true b n opts = choice-Here c.pair e
      go true e false b n opts = number-Here e
      go false e ch true n opts = cc
      go false e ch false n [] = sensor-Here
      go false e ch false n (o ∷ os) = enum-Here

module _ (F : Floats) (ev : Event) (c : Choice F.Float)
    (aligned : (not (is_zero c.place.field_off) && not (extracts c.place)) ≡ false)
    (same : c.place.field_width ≡ c.place.length)
    (whole : c.writing.writable ≡ true → c.writing.block_mode ≡ false → pos 0 ≡ c.place.field_off)
    (no_bits : ltb_ℤ (pos 0) c.bits ≡ false) where
  scalar-IsValueField : Holds (IsValueField c.place.field_off c.place.length) (scalar_entity F ev c)
  unfolding scalar_entity
  scalar-IsValueField =
      let plain = not (ltb_ℤ (pos 0) c.bits) && not (has_options F c.options) in
      let at = IsValueField {Float = F.Float} c.place.field_off c.place.length in
      either-Holds at (plain && ltb_ℤ (pos 4) c.place.length) _ _ tt (
        either-Holds at (plain && not (has_width c.name c.place.length)) _ _
          (either-Holds at (is_big_endian c.name) _ _ tt (
            chosen-Here F ev
              (record c {
                name = noconv;
                filters = c.filters ++ scale_filters F c.name;
                force_signed = signed_default c.name && not (declared_unsigned F ev);
                writing = record c.writing { writable = false };
              })
              aligned same (λ w m. cc) no_bits))
          (chosen-Here F ev c aligned same whole no_bits))

block_writing-whole :
    (writable wide blocked : Bool)
    → (let w = block_writing writable wide blocked in
        w.writable ≡ true → w.block_mode ≡ false → wide ≡ false)
block_writing-whole true true true h k = cc
block_writing-whole true true false h k = cc
block_writing-whole true false blocked h k = refl
block_writing-whole false wide blocked h k = cc

-- A datapoint without bits: whatever entity but an enumeration of texts is emitted for it, the bytes
-- that it takes from its answer, or changes in its block, are those of the field in the export.
pub build_entity_spec-IsField :
    (F : Floats) (ev : Event) (protocol : Protocol) (partial_writes : Bool) (ro_blocks : Blocks)
    (factors : Factors F.Float) (spec : EntitySpec F.Float)
    → int_or ev.bit_length (pos 0) ≡ pos 0
    → build_entity_spec F ev protocol partial_writes ro_blocks factors ≡ entity spec
    → spec.platform_type ≢ some enum
    → IsField (int_or ev.byte_position (pos 0)) (width_of ev) spec
unfolding build_entity_spec choice_of place_of value_writing
build_entity_spec-IsField F ev protocol partial_writes ro_blocks factors spec bits = go ev.address
  where
    at : EntitySpec F.Float → Type 0
    at = IsValueField (int_or ev.byte_position (pos 0)) (width_of ev)

    no_bits : (n : ℤ) → n ≡ pos 0 → ltb_ℤ (pos 0) n ≡ false
    no_bits n e = rw e refl

    whole_value : is_bit_field F ev protocol ≡ false
    whole_value = rw bits refl

    whole_block :
        (let w =
            value_writing F ev protocol partial_writes ro_blocks
              (draft_of F ev protocol factors)
              (place_of ev) in
          w.writable ≡ true → w.block_mode ≡ false → smaller_than_block F (place_of ev) ≡ false)
    whole_block =
        block_writing-whole (encodable_draft F (draft_of F ev protocol factors))
          (smaller_than_block F (place_of ev))
          (given (
            block_write_blocker ev protocol (pos_part (place_of ev).block_len)
              (pos_part (place_of ev).length) ro_blocks partial_writes))

    of_value :
        (addr : ℕ) (kind : Option TextType)
        → Holds at (
            value_entity F ev addr (place_of ev) kind (
              choice_of F ev protocol partial_writes ro_blocks
                (draft_of F ev protocol factors)
                addr
                (place_of ev)))
    of_value addr (some kind) = string-IsValueField F.Float kind addr (place_of ev)
    of_value addr none =
        go (not (is_zero (place_of ev).field_off) && not (extracts (place_of ev))) refl
      where
        go :
            (b : Bool)
            → (not (is_zero (place_of ev).field_off) && not (extracts (place_of ev))) ≡ b
            → Holds at (
                if b
                then comment not_aligned
                else scalar_entity F ev (
                    choice_of F ev protocol partial_writes ro_blocks
                      (draft_of F ev protocol factors)
                      addr
                      (place_of ev)))
        go true e = tt
        go false e =
            scalar-IsValueField F ev
              (choice_of F ev protocol partial_writes ro_blocks (draft_of F ev protocol factors)
                addr (place_of ev))
              e (same_width ev.byte_length ev.block_length)
              (λ w m. first_bytes F (place_of ev) e (whole_block w m))
              (no_bits (int_or ev.bit_length (pos 0)) bits)

    go :
        (o : Option ℕ)
        → at_address F ev protocol partial_writes ro_blocks factors o ≡ entity spec
        → at spec
    go none h = cc
    go (some addr) h =
        Holds_at at _ spec
          (either-Holds at (is_non_numeric ev.conversion) _ _ tt (
            either-Holds at (eqb_ℤ ev.access_type (pos 2) && not (given (state_address_of addr))) _
              _ tt (rw whole_value (of_value addr (string_type ev.conversion)))))
          h
