-- ===== src/Emitter/Values/Choices.antt =====
-- The writable platforms on a field that is not masked.
use esphome_vitohome.Common.{
  ℕ, ◌+◌, ◌*◌, ◌^◌, ◌≤◌, ◌≡◌, refl, ◌≢◌, ◌⊎◌, inl, inr, Bool, true, false, not, ◌||◌, Option, none,
  List, [], ◌∷◌, map, arith, String, Text, ℤ, pos, ltb, ◌==◌, All, and-true,
}
use esphome_vitohome.Hub.Invalid.{
  ok, invalid, ◌>>◌, >>=-of_ok, equal_states, labels_not_unique, off_value_reads_on,
  converter_width, min_above_max,
}
use esphome_vitohome.Hub.Converters.{Converter, lengths, resolve_signed}
use esphome_vitohome.Hub.Fields.{Config, contains, guard, field_width, raw_fits}
use esphome_vitohome.Platforms.{
  bound_fits, validate_converter_field_width, validate_encodable_range, validate_number, all_fit,
  validate_options, validate_select, validate_states, validate_switch, all_unique,
}
use esphome_vitohome.Emitter.Reading.{Labelled}
use esphome_vitohome.Emitter.Platforms.{all_in}
use esphome_vitohome.Emitter.Values.Places.{
  value_config, width_in, extraction-ok, no_mask-ok, no_mask_values-ok,
}

-- One or two bytes.
abbrev pub IsShortField : ℕ → Type 0
IsShortField width = (width ≡ 1) ⊎ (width ≡ 2)

short_allowed : (width : ℕ) → IsShortField width → contains (1 ∷ 2 ∷ []) width ≡ true
short_allowed width (inl e) = rw e refl
short_allowed width (inr e) = rw e refl

pub raw_fits-below :
    (width v : ℕ)
    → IsShortField width
    → ltb v (2 ^ (8 * width)) ≡ true
    → raw_fits (pos v) width false ≡ true
unfolding raw_fits
raw_fits-below width v (inl e) h = rw e (let k = rw e at h in ground arith)
raw_fits-below width v (inr e) h = rw e (let k = rw e at h in ground arith)

-- The raw values that fit.
abbrev pub AllFit : ℕ → List ℤ → Type 0
AllFit width vs = All (λ v. raw_fits v width false ≡ true) vs

all_fit-ok : (width : ℕ) (vs : List ℤ) → AllFit width vs → all_fit width vs ≡ ok tt
all_fit-ok width [] h = refl
all_fit-ok width (v ∷ vs) (p, h) = rw p (all_fit-ok width vs h)

all_fit_at : (width w : ℕ) (vs : List ℤ) → w ≡ width → AllFit width vs → all_fit w vs ≡ ok tt
all_fit_at width w vs e h = rw e (all_fit-ok width vs h)

pub Labelled-AllFit :
    (width : ℕ) (opts : List (ℕ × Text)) (options : List (ℤ × String))
    → IsShortField width
    → all_in width opts ≡ true
    → Labelled opts options
    → AllFit width (map (λ p. p.0) options)
Labelled-AllFit width [] [] w h l = tt
Labelled-AllFit width [] (p ∷ ps) w h l = absurd l
Labelled-AllFit width (o ∷ os) [] w h l = absurd l
Labelled-AllFit width ((v, label) ∷ os) ((x, s) ∷ ps) w h (e, _, l) =
    let (first, rest) = and-true (ltb v (2 ^ (8 * width))) (all_in width os) h in
    (rw e (raw_fits-below width v w first), Labelled-AllFit width os ps w rest l)

module _ (address : ℕ) (state_address : Option ℕ) (size width off : ℕ) (some_byte : 1 ≤ width)
    (inside : off + width ≤ size) (mode : Bool) (short : mode ≡ true → size ≤ 16) where
  abbrev choice_config : Config
  choice_config = value_config address state_address none mode size width off

  field_width-width : field_width choice_config ≡ width
  field_width-width = width_in address state_address none size width off some_byte inside mode

  pub select-ok :
      (options : List (ℤ × String))
      → IsShortField width
      → options ≢ []
      → all_unique (map (λ p. p.1) options) ≡ true
      → AllFit width (map (λ p. p.0) options)
      → validate_select options (value_config address state_address none mode size width off)
        ≡ ok (value_config address state_address none mode size width off)
  unfolding validate_select validate_options
  select-ok [] w ne unique h = absurd (ne refl)
  select-ok (o ∷ os) w ne unique h =
      >>=-of_ok _
        (extraction-ok address state_address none size width off some_byte inside (1 ∷ 2 ∷ []) mode
          short (short_allowed width w))
        (>>=-of_ok _
          (no_mask-ok address state_address none size width off some_byte inside true mode)
          (>>=-of_ok _
            (all_fit_at width (field_width choice_config) (map (λ p. p.0) (o ∷ os))
              field_width-width h)
            (>>=-of_ok _ (passed (all_unique (map (λ p. p.1) (o ∷ os))) unique) (
              no_mask_values-ok address state_address none size width off some_byte inside mode
                (map (λ p. p.0) (o ∷ os))))))
    where
      passed : (b : Bool) → b ≡ true → guard b (invalid labels_not_unique) ≡ ok tt
      passed b e = rw e refl

  pub switch-ok :
      (on off_value : ℕ)
      → IsShortField width
      → on ≢ off_value
      → raw_fits (pos on) width false ≡ true
      → raw_fits (pos off_value) width false ≡ true
      → validate_switch
          (pos on)
          (pos off_value)
          []
          true
          (value_config address state_address none mode size width off)
        ≡ ok (value_config address state_address none mode size width off)
  unfolding validate_switch validate_states
  switch-ok on off_value w apart on_fits off_fits =
      >>=-of_ok _
        (extraction-ok address state_address none size width off some_byte inside (1 ∷ 2 ∷ []) mode
          short (short_allowed width w))
        (>>=-of_ok _
          (no_mask-ok address state_address none size width off some_byte inside true mode)
          (>>=-of_ok _ (differ (on == off_value) refl) (
            >>=-of_ok _ (reads_off (off_value == on) refl) (
              >>=-of_ok _
                (all_fit_at width (field_width choice_config) states field_width-width
                  (on_fits, (off_fits, (on_fits, tt))))
                (>>=-of_ok _
                  (no_mask_values-ok address state_address none size width off some_byte inside mode
                    states)
                  refl)))))
    where
      states : List ℤ
      states = pos on ∷ pos off_value ∷ pos on ∷ []

      differ : (b : Bool) → (on == off_value) ≡ b → guard (not b) (invalid equal_states) ≡ ok tt
      differ true e = absurd (apart (ground arith))
      differ false e = refl

      reads_off :
          (b : Bool)
          → (off_value == on) ≡ b
          → guard (not (b || false)) (invalid (off_value_reads_on (pos off_value))) ≡ ok tt
      reads_off true e = absurd (apart (ground arith))
      reads_off false e = refl

module _ (address : ℕ) (signed : Option Bool) (size width off : ℕ) (some_byte : 1 ≤ width)
    (inside : off + width ≤ size) (mode : Bool) (short : mode ≡ true → size ≤ 16) {Float : Type 0}
    (raw_of : Converter → Float → ℤ) (float_le : Float → Float → Bool) where
  pub number-ok :
      (name : Converter) (lo hi : Float)
      → contains (1 ∷ 2 ∷ 3 ∷ 4 ∷ []) width ≡ true
      → contains (lengths name) width ≡ true
      → (let c = value_config address none signed mode size width off in
          raw_fits (raw_of name lo) width (resolve_signed name c) ≡ true
          → raw_fits (raw_of name hi) width (resolve_signed name c) ≡ true
          → float_le lo hi ≡ true
          → validate_number raw_of float_le name lo hi c ≡ ok c)
  unfolding validate_number validate_encodable_range validate_converter_field_width
  number-ok name lo hi scalar allowed low high ordered =
      let c = value_config address none signed mode size width off in
      let w = width_in address none signed size width off some_byte inside mode in
      >>=-of_ok _
        (extraction-ok address none signed size width off some_byte inside (1 ∷ 2 ∷ 3 ∷ 4 ∷ []) mode
          short scalar)
        (>>=-of_ok _ (has_width (field_width c) w) (
          >>=-of_ok _ (no_mask-ok address none signed size width off some_byte inside true mode) (
            >>=-of_ok _ (bound-ok mode (raw_of name lo) low) (
              >>=-of_ok _ (bound-ok mode (raw_of name hi) high)
                (in_order (float_le lo hi) ordered)))))
    where
      has_width :
          (w : ℕ)
          → w ≡ width
          → (let c = value_config address none signed mode size width off in
              (guard (contains (lengths name) w) (invalid (converter_width w)) >> ok c) ≡ ok c)
      has_width w e = rw (e, allowed) refl

      bound-ok :
          (mode : Bool) (raw : ℤ)
          → (let c = value_config address none signed mode size width off in
              raw_fits raw width (resolve_signed name c) ≡ true → bound_fits name c raw ≡ ok tt)
      bound-ok true raw h =
          (let e = width_in address none signed size width off some_byte inside true in
            rw (e, h) refl)
      bound-ok false raw h =
          (let e = width_in address none signed size width off some_byte inside false in
            rw (e, h) refl)

      in_order :
          (b : Bool)
          → b ≡ true
          → (let c = value_config address none signed mode size width off in
              (guard b (invalid min_above_max) >> ok c) ≡ ok c)
      in_order b e = rw e refl
