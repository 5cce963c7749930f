-- ===== src/Emitter/Fields/Numbers.antt =====
-- The numbers and sensors of `_build_bit_field_spec`, as the component reads them.
use esphome_vitohome.Common.{
  ℕ, ◌≤◌, ◌≡◌, refl, Bool, true, false, ◌&&◌, Option, none, some, List, arith, String, ℤ, pos,
  leb_ℤ, if◌then◌else◌, and-true, leb_ℤ_iff, ◌++◌,
}
use esphome_vitohome.Hub.Access.{sensor, number}
use esphome_vitohome.Hub.Fields.{contains}
use esphome_vitohome.Hub.Converters.{
  Converter, lengths, noconv, div2, div10, div100, div1000, sec2hour, mult2, mult5, mult10, mult100,
  rotatebytes,
}
use esphome_vitohome.Catalog.{Event}
use esphome_vitohome.Catalog.Floats.{Floats, conv_scale, raw_of}
use esphome_vitohome.Catalog.Scales.{lower_of, upper_of, stepping_of}
use esphome_vitohome.Emitter.{EntitySpec, plain_spec}
use esphome_vitohome.Emitter.Presets.{conv_lengths, scale_filters}
use esphome_vitohome.Emitter.Reading.{IsRead, IsAccepted}
use esphome_vitohome.Emitter.Fields.{
  Site, on_field, Decoding, OneByte, one_byte_from, one_byte, raw_in_field, borders_fit,
  border_fits, not_empty, has_step, field_number, field_sensor, numeric_entity,
}
use esphome_vitohome.Emitter.Fields.Shapes.{Within, sensor-ok, number-ok}
use esphome_vitohome.Emitter.Fields.Sites.{
  IsSite, config_at, config_at-IsShape, config_at-IsShort, config_at-TopIs, on_field-Written,
}

-- The generator's table of lengths is the component's.
pub conv_lengths-eq-lengths : (name : Converter) → conv_lengths name ≡ lengths name
unfolding conv_lengths lengths
conv_lengths-eq-lengths noconv = refl
conv_lengths-eq-lengths div2 = refl
conv_lengths-eq-lengths div10 = refl
conv_lengths-eq-lengths div100 = refl
conv_lengths-eq-lengths div1000 = refl
conv_lengths-eq-lengths sec2hour = refl
conv_lengths-eq-lengths mult2 = refl
conv_lengths-eq-lengths mult5 = refl
conv_lengths-eq-lengths mult10 = refl
conv_lengths-eq-lengths mult100 = refl
conv_lengths-eq-lengths rotatebytes = refl

-- That a printed range reads back: "0" as 0, and the product of a raw value below 256 and a
-- converter's scale as the number that rounds to that value in steps of the scale.
pub record ReadsBack (F : Floats) : Type 0 where
  pub least : (name : Converter) (x : F.Float) → F.parse "0" ≡ some x → raw_of F name x ≡ pos 0
  pub greatest :
      (name : Converter) (top : ℕ) (x : F.Float)
      → contains (lengths name) 1 ≡ true
      → top ≤ 255
      → F.parse (F.show (F.mul (F.of_int (pos top)) (conv_scale F name))) ≡ some x
      → raw_of F name x ≡ pos top

module _ (F : Floats) where
  either_width :
      (b : Bool) (x y : OneByte F)
      → (b ≡ true → contains (lengths x.name) 1 ≡ true)
      → contains (lengths y.name) 1 ≡ true
      → (let d : OneByte F = if b then x else y in contains (lengths d.name) 1 ≡ true)
  either_width true x y h k = h refl
  either_width false x y h k = k

  pub one_byte-width : (d : Decoding F.Float) → contains (lengths (one_byte F d).name) 1 ≡ true
  unfolding one_byte lengths
  one_byte-width d = go d.conv
    where
      go :
          (o : Option Converter)
          → contains (lengths (one_byte_from F o d.filters d.writable).name) 1 ≡ true
      go none = refl
      go (some name) =
          either_width (contains (conv_lengths name) 1)
            (record { name = name; filters = d.filters; writable = d.writable })
            (record {
              name = noconv;
              filters = scale_filters F name ++ d.filters;
              writable = false;
            })
            (λ h. rw (conv_lengths-eq-lengths name) at h) refl

  raw-Within :
      (name : Converter) (top : ℕ) (o : Option F.Float) (x : F.Float)
      → raw_in_field F name top o ≡ true
      → o ≡ some x
      → Within top (raw_of F name x)
  raw-Within name top none x h e = cc
  raw-Within name top (some y) x h e =
      let q : y ≡ x = cc in
      let (low, high) =
        and-true (leb_ℤ (pos 0) (raw_of F name y)) (leb_ℤ (raw_of F name y) (pos top)) h in
      rw (← q) (
        (leb_ℤ_iff (pos 0) (raw_of F name y)).0 low,
        (leb_ℤ_iff (raw_of F name y) (pos top)).0 high,
      )

  last_two : (a b c d e : Bool) → (a && b && c && d && e) ≡ true → (d ≡ true) × (e ≡ true)
  last_two a b c d e h = ground arith

  module _ (back : ReadsBack F) (s : Site) (site : IsSite s) (options : List (ℤ × String))
      (lo hi : F.Float) where
    sensor-IsAccepted :
        (ev : Event) (d : OneByte F)
        → contains (lengths d.name) 1 ≡ true
        → IsAccepted F (field_sensor F ev s d) options lo hi
    unfolding field_sensor
    sensor-IsAccepted ev d one = (
      config_at s site,
      on_field-Written s site {Float = F.Float} (plain_spec sensor s.address) refl refl refl,
      sensor-ok d.name (config_at s site) (config_at-IsShape s site) one,
    )

    -- A number with any texts for its bounds, whose values lie in the field.
    with_bounds :
        (name : Converter) (min_value max_value step : String)
        → s.writing.writable ≡ true
        → contains (lengths name) 1 ≡ true
        → Within s.top (raw_of F name lo)
        → Within s.top (raw_of F name hi)
        → F.le lo hi ≡ true
        → IsAccepted F
            (record (on_field s (plain_spec number s.address)) {
              converter = some name;
              min_value = min_value;
              max_value = max_value;
              step = step;
            })
            options
            lo
            hi
    with_bounds name min_value max_value step w one low high ordered = (
      config_at s site,
      on_field-Written s site {Float = F.Float} (plain_spec number s.address) refl refl refl,
      number-ok (config_at s site) s.top (config_at-IsShape s site) (config_at-IsShort s site w)
          (config_at-TopIs s site) (raw_of F) F.le name lo hi one low high ordered,
    )

    number-IsAccepted :
        (ev : Event) (name : Converter)
        → s.writing.writable ≡ true
        → contains (lengths name) 1 ≡ true
        → (let spec = field_number F ev s name in
            IsRead F spec.platform spec options lo hi → IsAccepted F spec options lo hi)
    unfolding field_number
    number-IsAccepted ev name w one = go (borders_fit F ev name s.top) refl
      where
        least_top : Within s.top (pos 0)
        least_top = omega arith

        greatest_top : Within s.top (pos s.top)
        greatest_top = omega arith

        go :
            (b : Bool)
            → borders_fit F ev name s.top ≡ b
            → (let base : EntitySpec F.Float = record (on_field s (plain_spec number s.address)) {
              converter = some name;
            } in
                let spec : EntitySpec F.Float =
                  if b
                  then record base {
                    min_value = lower_of ev;
                    max_value = upper_of ev;
                    step = stepping_of ev;
                  }
                  else record base {
                    min_value = "0";
                    max_value = F.show (F.mul (F.of_int (pos s.top)) (conv_scale F name));
                    step = F.show (conv_scale F name);
                  } in
                IsRead F spec.platform spec options lo hi → IsAccepted F spec options lo hi)
        go true e (p, q, ordered) =
            let (low, high) =
              last_two (not_empty F (lower_of ev)) (not_empty F (upper_of ev))
                (has_step F (stepping_of ev)) (border_fits F name s.top (lower_of ev))
                (border_fits F name s.top (upper_of ev)) e in
            with_bounds name (lower_of ev) (upper_of ev) (stepping_of ev) w one
              (raw-Within name s.top (F.parse (lower_of ev)) lo low p)
              (raw-Within name s.top (F.parse (upper_of ev)) hi high q) ordered
        go false e (p, q, ordered) =
            with_bounds name "0" (F.show (F.mul (F.of_int (pos s.top)) (conv_scale F name)))
              (F.show (conv_scale F name)) w one (rw (back.least name lo p) least_top)
              (rw (back.greatest name s.top hi one site.small q) greatest_top) ordered

    -- The numeric part: a number where it is writable, and a sensor where not.
    pub numeric-IsAccepted :
        (ev : Event) (d : OneByte F)
        → contains (lengths d.name) 1 ≡ true
        → (d.writable ≡ true → s.writing.writable ≡ true)
        → (let spec = numeric_entity F ev s d in
            IsRead F spec.platform spec options lo hi → IsAccepted F spec options lo hi)
    numeric-IsAccepted ev d one demoted = go d.writable refl
      where
        go :
            (w : Bool)
            → d.writable ≡ w
            → (let spec : EntitySpec F.Float =
                  if w then field_number F ev s d.name else field_sensor F ev s d in
                IsRead F spec.platform spec options lo hi → IsAccepted F spec options lo hi)
        go true e = number-IsAccepted ev d.name (demoted e) one
        go false e = λ r. sensor-IsAccepted ev d one
