-- ===== src/Platforms/Choices.antt =====
-- What an accepted select or switch guarantees.
use esphome_vitohome.Common.{
  ℕ, ◌≡◌, refl, ◌∙◌, ◌≢◌, String, Bool, true, false, not, ◌||◌, not_both, eqb_ℤ, eqb_ℤ_iff, List,
  [], ◌∷◌, map, arith, ℤ, All, if◌then◌else◌,
}
use esphome_vitohome.Hub.Invalid.{
  Invalid, ok, invalid, ◌>>◌, >>=-eq-ok, value_outside_width, labels_not_unique, equal_states,
  off_value_reads_on, restore_mode,
}
use esphome_vitohome.Hub.Fields.{
  Config, guard, field_width, raw_fits, validate_block_extraction, validate_bit_field,
  validate_bit_field_values,
}
use esphome_vitohome.Hub.Fields.Shape.{
  FitsAt, extraction_lem, MaskShape, mask_lem, ValuesFit, values_lem,
}
use esphome_vitohome.Platforms.{
  all_fit, validate_options, validate_select, validate_states, validate_switch, all_unique, on_set,
  int_in,
}

all_fit_lem :
    (width : ℕ) (values : List ℤ) (u : Unit {0})
    → all_fit width values ≡ ok u
    → All (λ v. raw_fits v width false ≡ true) values
all_fit_lem width [] u h = tt
all_fit_lem width (v ∷ vs) u h =
    let (fits, rest) = split (raw_fits v width false) h in (fits, all_fit_lem width vs u rest)
  where
    split :
        (b : Bool)
        → (if b then all_fit width vs else invalid (value_outside_width v width)) ≡ ok u
        → (b ≡ true) × (all_fit width vs ≡ ok u)
    split true h = (refl, h)
    split false h = cc

options_lem :
    (options : List (ℤ × String)) (c c' : Config)
    → validate_options options c ≡ ok c'
    → (c' ≡ c)
      × (options ≢ [])
      × All (λ v. raw_fits v (field_width c) false ≡ true) (map (λ p. p.0) options)
      × (all_unique (map (λ p. p.1) options) ≡ true)
      × ValuesFit (map (λ p. p.0) options) c.bit_mask
unfolding validate_options
options_lem [] c c' h = cc
options_lem (o ∷ os) c c' h =
    let (u, e₁, h₁) = >>=-eq-ok (all_fit (field_width c) (map (λ p. p.0) (o ∷ os))) _ h in
    let (unique, h₂) = after (all_unique (map (λ p. p.1) (o ∷ os))) h₁ in
    let (same, in_mask) = values_lem c c' (map (λ p. p.0) (o ∷ os)) h₂ in
    (same, λ q. cc, all_fit_lem (field_width c) (map (λ p. p.0) (o ∷ os)) u e₁, unique, in_mask)
  where
    after :
        (b : Bool)
        → (guard b (invalid labels_not_unique)
            >> validate_bit_field_values c (map (λ p. p.0) (o ∷ os)))
          ≡ ok c'
        → (b ≡ true) × (validate_bit_field_values c (map (λ p. p.0) (o ∷ os)) ≡ ok c')
    after true h = (refl, h)
    after false h = cc

-- An accepted select comes back unchanged, and: its field lies in the block that is read; it has an
-- option, every option's value fits the field's unsigned bytes and its mask, and no two labels are
-- alike.
pub validate_select_lem :
    (options : List (ℤ × String)) (c c' : Config)
    → validate_select options c ≡ ok c'
    → (c' ≡ c)
      × FitsAt (1 ∷ 2 ∷ []) c c.byte_offset
      × MaskShape true c c.bit_mask
      × (options ≢ [])
      × All (λ v. raw_fits v (field_width c) false ≡ true) (map (λ p. p.0) options)
      × (all_unique (map (λ p. p.1) options) ≡ true)
      × ValuesFit (map (λ p. p.0) options) c.bit_mask
unfolding validate_select
validate_select_lem options c c' h =
    let (c₁, e₁, h₁) = >>=-eq-ok (validate_block_extraction (1 ∷ 2 ∷ []) c) _ h in
    let (s₁, fits) = extraction_lem (1 ∷ 2 ∷ []) c c₁ e₁ in
    let (c₂, e₂, h₂) = >>=-eq-ok (validate_bit_field true c) _ (rw s₁ at h₁) in
    let (s₂, mask) = mask_lem true c c₂ e₂ in
    let (same, some_option, values, unique, in_mask) = options_lem options c c' (rw s₂ at h₂) in
    (same, fits, mask, some_option, values, unique, in_mask)

not-true : (b : Bool) → not b ≡ true → b ≡ false
not-true true h = cc
not-true false h = refl

states_lem :
    (on_value off_value : ℤ) (on_values : List ℤ) (disabled : Bool) (c c' : Config)
    → validate_states on_value off_value on_values disabled c ≡ ok c'
    → (c' ≡ c)
      × (on_value ≢ off_value)
      × All (λ v. off_value ≢ v) (on_set on_value on_values)
      × All
          (λ v. raw_fits v (field_width c) false ≡ true)
          (on_value ∷ off_value ∷ on_set on_value on_values)
      × ValuesFit (on_value ∷ off_value ∷ on_set on_value on_values) c.bit_mask
      × (disabled ≡ true)
unfolding validate_states
states_lem on_value off_value on_values disabled c c' h =
    let (t₁, e₁, h₁) =
      >>=-eq-ok (guard (not (eqb_ℤ on_value off_value)) (invalid equal_states)) _ h in
    let (t₂, e₂, h₂) =
      >>=-eq-ok
        (guard (not (int_in off_value (on_set on_value on_values)))
          (invalid (off_value_reads_on off_value)))
        _ h₁ in
    let (u, e₃, h₃) =
      >>=-eq-ok (all_fit (field_width c) (on_value ∷ off_value ∷ on_set on_value on_values)) _ h₂ in
    let (c₁, e₄, h₄) =
      >>=-eq-ok (validate_bit_field_values c (on_value ∷ off_value ∷ on_set on_value on_values)) _
        h₃ in
    let (s₁, in_mask) = values_lem c c₁ (on_value ∷ off_value ∷ on_set on_value on_values) e₄ in
    let (off, same) = last disabled h₄ in
    (
      same ∙ s₁,
      λ q. not_both ((eqb_ℤ_iff on_value off_value).1 q) (not-true _ (passed _ _ e₁)),
      not_in (on_set on_value on_values) (not-true _ (passed _ _ e₂)),
      all_fit_lem (field_width c) (on_value ∷ off_value ∷ on_set on_value on_values) u e₃,
      in_mask,
      off,
    )
  where
    passed : (b : Bool) (e : Invalid) {t : Unit {0}} → guard b (invalid e) ≡ ok t → b ≡ true
    passed true e h = refl
    passed false e h = cc

    last :
        {c₁ : Config} (b : Bool)
        → (guard b (invalid restore_mode) >> ok c₁) ≡ ok c'
        → (b ≡ true) × (c' ≡ c₁)
    last b h = ground arith

    not_in : (xs : List ℤ) → int_in off_value xs ≡ false → All (λ v. off_value ≢ v) xs
    not_in [] h = tt
    not_in (x ∷ xs) h = (
      λ q.
          not_both ((eqb_ℤ_iff off_value x).1 q)
            (first (eqb_ℤ off_value x) (int_in off_value xs) h).0,
      not_in xs (first (eqb_ℤ off_value x) (int_in off_value xs) h).1,
    )
      where
        first : (a b : Bool) → (a || b) ≡ false → (a ≡ false) × (b ≡ false)
        first a b h = ground arith

-- An accepted switch comes back unchanged, and: its field lies in the block that is read; on and
-- off are written as different values, off does not read as on, every value fits the field's
-- unsigned bytes and its mask, and no state is restored at boot.
pub validate_switch_lem :
    (on_value off_value : ℤ) (on_values : List ℤ) (disabled : Bool) (c c' : Config)
    → validate_switch on_value off_value on_values disabled c ≡ ok c'
    → (c' ≡ c)
      × FitsAt (1 ∷ 2 ∷ []) c c.byte_offset
      × MaskShape true c c.bit_mask
      × (on_value ≢ off_value)
      × All (λ v. off_value ≢ v) (on_set on_value on_values)
      × All
          (λ v. raw_fits v (field_width c) false ≡ true)
          (on_value ∷ off_value ∷ on_set on_value on_values)
      × ValuesFit (on_value ∷ off_value ∷ on_set on_value on_values) c.bit_mask
      × (disabled ≡ true)
unfolding validate_switch
validate_switch_lem on_value off_value on_values disabled c c' h =
    let (c₁, e₁, h₁) = >>=-eq-ok (validate_block_extraction (1 ∷ 2 ∷ []) c) _ h in
    let (s₁, fits) = extraction_lem (1 ∷ 2 ∷ []) c c₁ e₁ in
    let (c₂, e₂, h₂) = >>=-eq-ok (validate_bit_field true c) _ (rw s₁ at h₁) in
    let (s₂, mask) = mask_lem true c c₂ e₂ in
    let (same, differ, reads_off, values, in_mask, off) =
      states_lem on_value off_value on_values disabled c c' (rw s₂ at h₂) in
    (same, fits, mask, differ, reads_off, values, in_mask, off)
