-- ===== src/Emitter/Values/Numbers.antt =====
-- The writable entities of `build_entity_spec`: switches, selects and numbers.
use esphome_vitohome.Common.{
  ℕ, ◌+◌, ◌*◌, ◌^◌, ◌≤◌, ◌≡◌, refl, ◌≢◌, Bool, true, false, not, ◌&&◌, ◌||◌, Option, none, some,
  List, [], ◌∷◌, arith, String, Text, ℤ, pos, ltb, if◌then◌else◌, and-true,
}
use esphome_vitohome.Hub.Access.{number}
use esphome_vitohome.Hub.Converters.{
  Converter, resolve_signed, default_signed, noconv, div2, div10, div100, div1000, sec2hour, mult2,
  mult5, mult10, mult100, rotatebytes,
}
use esphome_vitohome.Hub.Fields.{Config, contains, raw_fits}
use esphome_vitohome.Catalog.{Event}
use esphome_vitohome.Catalog.Options.Values.{values_of}
use esphome_vitohome.Catalog.Floats.{Floats, raw_of}
use esphome_vitohome.Catalog.Scales.{
  lower_of, upper_of, stepping_of, declared_unsigned, bound_fits, raw_in_bytes,
}
use esphome_vitohome.Catalog.Scales.Borders.{in_bytes-eq-raw_fits}
use esphome_vitohome.Emitter.{plain_spec, state_address_of}
use esphome_vitohome.Emitter.Reading.{as_int, Labelled, IsRead, IsAccepted}
use esphome_vitohome.Emitter.Fields.{not_empty, has_step}
use esphome_vitohome.Emitter.Fields.Numbers.{ReadsBack, conv_lengths-eq-lengths}
use esphome_vitohome.Emitter.Platforms.{
  Choice, has_width, signed_default, on_target, choice_entity, one_or_two, all_in, number_sign,
  lower_negative, have_bounds, number_entity,
}
use esphome_vitohome.Emitter.Strings.{unless_one}
use esphome_vitohome.Emitter.Values.Places.{place, value_config, unless_one-as_int}
use esphome_vitohome.Emitter.Values.Choices.{
  IsShortField, Labelled-AllFit, raw_fits-below, select-ok, switch-ok, number-ok,
}

short_of : (width : ℕ) → one_or_two (pos width) ≡ true → IsShortField width
short_of width h = ground arith

some_label :
    (opts : List (ℕ × Text)) (options : List (ℤ × String))
    → opts ≢ []
    → Labelled opts options
    → options ≢ []
some_label [] options ne l = absurd (ne refl)
some_label (o ∷ os) [] ne l = absurd l
some_label (o ∷ os) (p ∷ ps) ne l = λ e. cc

pub pair_below :
    (width : ℕ) (opts : List (ℕ × Text)) (a b : ℕ)
    → all_in width opts ≡ true
    → values_of opts ≡ a ∷ b ∷ []
    → (ltb a (2 ^ (8 * width)) ≡ true) × (ltb b (2 ^ (8 * width)) ≡ true)
pair_below width [] a b h e = cc
pair_below width (o ∷ []) a b h e = cc
pair_below width (o ∷ p ∷ q ∷ os) a b h e = cc
pair_below width ((v, l) ∷ (w, m) ∷ []) a b h e =
    let p : v ≡ a = cc in
    let q : w ≡ b = cc in
    let (r, s) = and-true (ltb v (2 ^ (8 * width))) (ltb w (2 ^ (8 * width)) && true) h in
    rw (← p, ← q) (r, (and-true (ltb w (2 ^ (8 * width))) true s).0)

-- The on and off of a pair, where there is one, differ and fit the field.
abbrev pub PairIs : ℕ → Option (ℕ × ℕ) → Type 0
PairIs width none = Unit
PairIs width (some p) =
    (p.0 ≢ p.1) × (ltb p.0 (2 ^ (8 * width)) ≡ true) × (ltb p.1 (2 ^ (8 * width)) ≡ true)

module _ (F : Floats) (options : List (ℤ × String)) (lo hi : F.Float) (c : Choice F.Float)
    (size width off : ℕ) (some_byte : 1 ≤ width) (inside : off + width ≤ size)
    (short : c.writing.block_mode ≡ true → size ≤ 16) where
  abbrev at_place : Choice F.Float
  at_place = record c { place = place size width off }

  abbrev with_state : Option ℕ → Option Bool → Bool → Config
  with_state state signed mode = value_config c.address state signed mode size width off

  -- The keys of the write target are those of the configuration.
  target_written :
      (mode : Bool) (state : Option ℕ) (signed : Option Bool)
      → (let d = with_state state signed mode in
          (c.address ≡ d.address)
          × (state ≡ d.state_address)
          × ((if mode then pos size else pos width) ≡ pos d.length)
          × ((if mode then some (pos off) else none) ≡ as_int d.byte_offset)
          × ((if mode then unless_one (pos width) else none) ≡ as_int d.byte_length)
          × (none ≡ d.bit_mask)
          × (signed ≡ d.signed))
  target_written true state signed = (refl, refl, refl, refl, unless_one-as_int width, refl, refl)
  target_written false state signed = (refl, refl, refl, refl, refl, refl, refl)

  pub choice_entity-IsAccepted :
      (pair : Option (ℕ × ℕ))
      → one_or_two (pos width) ≡ true
      → c.options ≢ []
      → all_in width c.options ≡ true
      → PairIs width pair
      → (let spec = choice_entity (record c { place = place size width off }) pair in
          IsRead F spec.platform spec options lo hi → IsAccepted F spec options lo hi)
  choice_entity-IsAccepted none w ne fit p (l, unique) =
      let mode = c.writing.block_mode in
      (
        with_state (state_address_of c.address) none mode,
        target_written mode (state_address_of c.address) none,
        select-ok c.address (state_address_of c.address) size width off some_byte inside mode short
            options (short_of width w) (some_label c.options options ne l) unique
            (Labelled-AllFit width c.options options (short_of width w) fit l),
      )
  choice_entity-IsAccepted (some (on, off_value)) w ne fit (apart, on_fits, off_fits) r =
      let mode = c.writing.block_mode in
      (
        with_state (state_address_of c.address) none mode,
        target_written mode (state_address_of c.address) none,
        switch-ok c.address (state_address_of c.address) size width off some_byte inside mode short
            on off_value (short_of width w) apart
            (raw_fits-below width on (short_of width w) on_fits)
            (raw_fits-below width off_value (short_of width w) off_fits),
      )

  raw-fits :
      (name : Converter) (signed : Bool) (text : String) (x : F.Float)
      → bound_fits F text width name signed ≡ true
      → F.parse text ≡ some x
      → raw_fits (raw_of F name x) width signed ≡ true
  unfolding bound_fits
  raw-fits name signed text x h e = go (F.parse text) h e
    where
      go :
          (o : Option F.Float)
          → raw_in_bytes F o width name signed ≡ true
          → o ≡ some x
          → raw_fits (raw_of F name x) width signed ≡ true
      go none h e = cc
      go (some y) h e =
          (let q : y ≡ x = cc in
            rw (← q) (rw (← in_bytes-eq-raw_fits (raw_of F name y) width signed) h))

  -- Zero fits every width, signed or not.
  zero_fits : (signed : Bool) → raw_fits (pos 0) width signed ≡ true
  unfolding raw_fits
  zero_fits true = ground arith
  zero_fits false = ground arith

  default-eq : (name : Converter) → signed_default name ≡ default_signed name
  unfolding default_signed
  default-eq noconv = refl
  default-eq div2 = refl
  default-eq div10 = refl
  default-eq div100 = refl
  default-eq div1000 = refl
  default-eq sec2hour = refl
  default-eq mult2 = refl
  default-eq mult5 = refl
  default-eq mult10 = refl
  default-eq mult100 = refl
  default-eq rotatebytes = refl

  -- The sign that the bounds are tested with is the one that the component resolves.
  sign_resolved :
      (name : Converter) (below unsigned mode : Bool)
      → (let sign = number_sign F name below unsigned in
          resolve_signed name (with_state none sign.0 mode) ≡ sign.1)
  unfolding resolve_signed
  sign_resolved name below unsigned mode =
      go (signed_default name) (default_signed name) (default-eq name) below unsigned mode
    where
      go :
          (s d : Bool)
          → s ≡ d
          → (below unsigned mode : Bool)
          → (let sign : Option Bool × Bool =
                if below && not s
                then (some true, true)
                else if s && unsigned
                then (some false, false)
                else (none, s || below) in
              elim (with_state none sign.0 mode).signed as (λ _. Bool) [
                | none ↦ d
                | some signed ↦ signed
              ]
              ≡ sign.1)
      go true d e true true true = refl
      go true d e true true false = refl
      go true d e true false true = cc
      go true d e true false false = cc
      go true d e false true true = refl
      go true d e false true false = refl
      go true d e false false true = cc
      go true d e false false false = cc
      go false d e true true true = refl
      go false d e true true false = refl
      go false d e true false true = refl
      go false d e true false false = refl
      go false d e false true true = cc
      go false d e false true false = cc
      go false d e false false true = cc
      go false d e false false false = cc

  last_two : (a b c d e : Bool) → (a && b && c && d && e) ≡ true → (d ≡ true) × (e ≡ true)
  last_two a b c d e h = ground arith

  scalar_width : width ≤ 4 → contains (1 ∷ 2 ∷ 3 ∷ 4 ∷ []) width ≡ true
  scalar_width high = ground arith

  -- A number with any texts for its bounds, whose raw values fit the field.
  with_bounds :
      (below unsigned placeholder : Bool) (min_value max_value step : String)
      → width ≤ 4
      → has_width c.name (pos width) ≡ true
      → (let sign = number_sign F c.name below unsigned in
          raw_fits (raw_of F c.name lo) width sign.1 ≡ true
          → raw_fits (raw_of F c.name hi) width sign.1 ≡ true
          → F.le lo hi ≡ true
          → IsAccepted F
              (record (on_target
                (record c { place = place size width off })
                (plain_spec number c.address)) {
                  converter = some c.name;
                  signed = sign.0;
                  min_value = min_value;
                  max_value = max_value;
                  step = step;
                  bounds_placeholder = placeholder;
                })
              options
              lo
              hi)
  with_bounds below unsigned placeholder min_value max_value step four allowed low high ordered =
      let mode = c.writing.block_mode in
      let sign = number_sign F c.name below unsigned in
      let e = sign_resolved c.name below unsigned mode in
      (
        with_state none sign.0 mode,
        target_written mode none sign.0,
        number-ok c.address sign.0 size width off some_byte inside mode short (raw_of F) F.le c.name
            lo hi (scalar_width four) (rw (← conv_lengths-eq-lengths c.name) allowed) (rw e low)
            (rw e high) ordered,
      )

  pub number_entity-IsAccepted :
      (ev : Event)
      → ReadsBack F
      → width ≤ 4
      → has_width c.name (pos width) ≡ true
      → (let spec = number_entity F ev (record c { place = place size width off }) in
          IsRead F spec.platform spec options lo hi → IsAccepted F spec options lo hi)
  unfolding number_entity
  number_entity-IsAccepted ev back four allowed =
      go (have_bounds F ev (pos width) c.name sign.1) refl
    where
      sign : Option Bool × Bool
      sign = number_sign F c.name (lower_negative F ev) (declared_unsigned F ev)

      go :
          (b : Bool)
          → have_bounds F ev (pos width) c.name sign.1 ≡ b
          → (F.parse (if b then lower_of ev else "0") ≡ some lo)
            × (F.parse (if b then upper_of ev else "0") ≡ some hi)
            × (F.le lo hi ≡ true)
          → IsAccepted F
              (record (on_target
                (record c { place = place size width off })
                (plain_spec number c.address)) {
                  converter = some c.name;
                  signed = sign.0;
                  min_value = if b then lower_of ev else "0";
                  max_value = if b then upper_of ev else "0";
                  step = if b then stepping_of ev else "1";
                  bounds_placeholder = not b;
                })
              options
              lo
              hi
      go true e (p, q, ordered) =
          let (low, high) =
            last_two (not_empty F (lower_of ev)) (not_empty F (upper_of ev))
              (has_step F (stepping_of ev)) (bound_fits F (lower_of ev) width c.name sign.1)
              (bound_fits F (upper_of ev) width c.name sign.1) e in
          with_bounds (lower_negative F ev) (declared_unsigned F ev) false (lower_of ev)
            (upper_of ev) (stepping_of ev) four allowed
            (raw-fits c.name sign.1 (lower_of ev) lo low p)
            (raw-fits c.name sign.1 (upper_of ev) hi high q) ordered
      go false e (p, q, ordered) =
          with_bounds (lower_negative F ev) (declared_unsigned F ev) true "0" "0" "1" four allowed
            (rw (back.least c.name lo p) (zero_fits sign.1))
            (rw (back.least c.name hi q) (zero_fits sign.1)) ordered
