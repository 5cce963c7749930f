-- ===== src/Emitter/Values/Accepted.antt =====
-- What `build_entity_spec` emits, the component accepts.
use mathlib.Core.Path.{subst}
use esphome_vitohome.Common.{
  ℕ, ◌+◌, ◌≤◌, ◌≡◌, refl, ◌≢◌, ◌⊎◌, inl, inr, Bool, true, false, not, ◌&&◌, ap, sym, List, [], ◌∷◌,
  ◌++◌, arith, String, Text, ℤ, pos, ltb_ℤ, if◌then◌else◌, Bool-cases, and-true,
}
use esphome_vitohome.Hub.Access.{number}
use esphome_vitohome.Hub.Converters.{noconv}
use esphome_vitohome.Catalog.{Event, int_or}
use esphome_vitohome.Catalog.Floats.{Floats}
use esphome_vitohome.Catalog.Scales.{declared_unsigned}
use esphome_vitohome.Emitter.{
  EntitySpec, Reason, Emitted, comment, entity, too_wide, big_endian_width,
}
use esphome_vitohome.Emitter.Presets.{scale_filters, conv_lengths}
use esphome_vitohome.Emitter.Reading.{IsRead, IsAccepted}
use esphome_vitohome.Emitter.Fields.Numbers.{ReadsBack}
use esphome_vitohome.Emitter.Values.{
  has_options, choosable, read_only_entity, chosen_entity, scalar_entity,
}
use esphome_vitohome.Emitter.Platforms.{
  Choice, is_big_endian, signed_default, has_width, choice_entity, number_entity, sensor_entity,
  enum_sensor, bit_sensor, one_or_two, all_in,
}
use esphome_vitohome.Emitter.Values.Places.{place}
use esphome_vitohome.Emitter.Values.Reads.{of_entity, past}
use esphome_vitohome.Emitter.Values.Sensors.{
  bit_sensor-IsAccepted, enum_sensor-IsAccepted, sensor-IsAccepted,
}
use esphome_vitohome.Emitter.Values.Numbers.{
  PairIs, choice_entity-IsAccepted, number_entity-IsAccepted,
}

module _ (F : Floats) (ev : Event) (position : ℕ)
    (at_bit : int_or ev.bit_position (pos 0) ≡ pos position) (back : ReadsBack F)
    (options : List (ℤ × String)) (lo hi : F.Float) (size width off : ℕ) (some_byte : 1 ≤ width)
    (inside : off + width ≤ size) (spec : EntitySpec F.Float)
    (read : IsRead F spec.platform spec options lo hi) where
  of_read :
      (x : EntitySpec F.Float)
      → (IsRead F x.platform x options lo hi → IsAccepted F x options lo hi)
      → entity x ≡ entity spec
      → IsAccepted F spec options lo hi
  of_read x h e =
      (let q : x ≡ spec = cc in
        subst (λ s. IsRead F s.platform s options lo hi → IsAccepted F s options lo hi) q h read)

  has_options-not_empty : (opts : List (ℕ × Text)) → has_options F opts ≡ true → opts ≢ []
  has_options-not_empty [] h e = cc
  has_options-not_empty (o ∷ os) h e = cc

  -- A plain value has the width of its converter.
  abbrev IsAllowed : Choice F.Float → Type 0
  IsAllowed c =
      ltb_ℤ (pos 0) c.bits ≡ false
      → c.options ≡ []
      → (width ≤ 4) × (has_width c.name (pos width) ≡ true)

  read_only_entity-IsAccepted :
      (c : Choice F.Float)
      → IsAllowed c
      → (is_big_endian c.name ≡ true → off ≡ 0)
      → read_only_entity F ev (record c { place = place size width off }) ≡ entity spec
      → IsAccepted F spec options lo hi
  read_only_entity-IsAccepted c allowed big = go (ltb_ℤ (pos 0) c.bits) c.options refl refl
    where
      at_place : Choice F.Float
      at_place = record c { place = place size width off }

      go :
          (b : Bool) (opts : List (ℕ × Text))
          → ltb_ℤ (pos 0) c.bits ≡ b
          → c.options ≡ opts
          → (if b
              then bit_sensor ev (record c { place = place size width off })
              else elim opts as (λ _. Emitted F.Float) [
                | [] ↦ entity (sensor_entity F ev (record c { place = place size width off }))
                | _ ∷ _ ↦ entity (enum_sensor (record c { place = place size width off }))
              ])
            ≡ entity spec
          → IsAccepted F spec options lo hi
      go true opts e q h =
          bit_sensor-IsAccepted F options lo hi c size width off some_byte inside ev position spec
            at_bit h
      go false [] e q h =
          of_entity F options lo hi (sensor_entity F ev (record c { place = place size width off }))
            spec
            (sensor-IsAccepted F options lo hi c size width off some_byte inside ev (allowed e q).1
              big)
            h
      go false (o ∷ os) e q h =
          of_entity F options lo hi (enum_sensor (record c { place = place size width off })) spec
            (enum_sensor-IsAccepted F options lo hi c size width off some_byte inside) h

  -- What the choice of a platform relies on.
  pub record IsChosen (c : Choice F.Float) : Type 0 where
    pub short : c.writing.block_mode ≡ true → size ≤ 16
    pub big : is_big_endian c.name ≡ true → off ≡ 0
    pub bits_read : ltb_ℤ (pos 0) c.bits ≡ true → c.writing.writable ≡ false
    pub no_enum : spec.platform ≡ number → c.options ≡ []
    pub pair : all_in width c.options ≡ true → PairIs width c.pair

  chosen_entity-IsAccepted :
      (c : Choice F.Float)
      → IsChosen c
      → IsAllowed c
      → chosen_entity F ev (record c { place = place size width off }) ≡ entity spec
      → IsAccepted F spec options lo hi
  unfolding number_entity
  chosen_entity-IsAccepted c k allowed =
      go c.writing.writable (choosable F (record c { place = place size width off })) refl refl
    where
      unless_bits : c.writing.writable ≡ true → ltb_ℤ (pos 0) c.bits ≡ false
      unless_bits e = elim (Bool-cases (ltb_ℤ (pos 0) c.bits)) [
        | inl b ↦ (let q = k.bits_read b in cc)
        | inr b ↦ b
      ]

      go :
          (w ch : Bool)
          → c.writing.writable ≡ w
          → choosable F (record c { place = place size width off }) ≡ ch
          → (if w
              then (if ch
                  then entity (choice_entity (record c { place = place size width off }) c.pair)
                  else entity (number_entity F ev (record c { place = place size width off })))
              else read_only_entity F ev (record c { place = place size width off }))
            ≡ entity spec
          → IsAccepted F spec options lo hi
      go true true e q h =
          let (r, fit) =
            and-true (has_options F c.options && one_or_two (pos width)) (all_in width c.options)
              q in
          let (some_option, narrow) =
            and-true (has_options F c.options) (one_or_two (pos width)) r in
          of_read (choice_entity (record c { place = place size width off }) c.pair)
            (choice_entity-IsAccepted F options lo hi c size width off some_byte inside k.short
              c.pair narrow (has_options-not_empty c.options some_option) fit (k.pair fit))
            h
      go true false e q h =
          let x = number_entity F ev (record c { place = place size width off }) in
          let same : x ≡ spec = cc in
          let is_number : spec.platform ≡ number = ap (λ s. s.platform) (sym same) in
          let (four, has) = allowed (unless_bits e) (k.no_enum is_number) in
          of_read x
            (number_entity-IsAccepted F options lo hi c size width off some_byte inside k.short ev
              back four has)
            h
      go false ch e q h = read_only_entity-IsAccepted c allowed k.big h

  noconv_width : width ≤ 4 → has_width noconv (pos width) ≡ true
  unfolding conv_lengths
  noconv_width e = ground arith

  split_width :
      {r r' : Emitted F.Float} (plain wide has : Bool) (reason : Reason)
      → (if plain && wide then comment reason else if plain && not has then r else r') ≡ entity spec
      → ((has ≡ false) × (wide ≡ false) × (r ≡ entity spec))
        ⊎ (((plain ≡ true → (wide ≡ false) × (has ≡ true))) × (r' ≡ entity spec))
  split_width true true has reason h = cc
  split_width true false true reason h = inr ((λ e. (refl, refl)), h)
  split_width true false false reason h = inl (refl, refl, h)
  split_width false wide has reason h = inr ((λ e. cc), h)

  pub scalar_entity-IsAccepted :
      (c : Choice F.Float)
      → IsChosen c
      → scalar_entity F ev (record c { place = place size width off }) ≡ entity spec
      → IsAccepted F spec options lo hi
  unfolding scalar_entity
  scalar_entity-IsAccepted c k h =
      elim (split_width (not (ltb_ℤ (pos 0) c.bits) && not (has_options F c.options))
        (ltb_ℤ (pos 4) (pos width)) (has_width c.name (pos width)) too_wide h) [
          | inl (has, wide, r) ↦
              (let (little, r₁) =
                  past F options lo hi (is_big_endian c.name) big_endian_width spec r in
                read_only_entity-IsAccepted
                  (record c {
                    name = noconv;
                    filters = c.filters ++ scale_filters F c.name;
                    force_signed = signed_default c.name && not (declared_unsigned F ev);
                    writing = record c.writing { writable = false };
                  })
                  (λ e q. (four wide, noconv_width (four wide))) (λ e. cc) r₁)
          | inr (has, r) ↦
              chosen_entity-IsAccepted c k
                (λ e q. (let (wide, w) = has (plain e q) in (four wide, w))) r
        ]
    where
      four : ltb_ℤ (pos 4) (pos width) ≡ false → width ≤ 4
      four e = ground arith

      plain :
          ltb_ℤ (pos 0) c.bits ≡ false
          → c.options ≡ []
          → (not (ltb_ℤ (pos 0) c.bits) && not (has_options F c.options)) ≡ true
      plain e q = rw (e, q) refl
