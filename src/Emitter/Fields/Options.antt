-- ===== src/Emitter/Fields/Options.antt =====
-- The enumerations of `_build_bit_field_spec`, as the component reads them.
use esphome_vitohome.Common.{
  ℕ, zero, suc, ◌≤◌, ◌<◌, ◌≡◌, refl, ◌≢◌, Bool, true, false, ◌||◌, Option, none, some, List, [],
  ◌∷◌, map, arith, String, Text, ℤ, pos, eqb_ℤ, ltb, any, All, if◌then◌else◌,
}
use esphome_vitohome.Hub.Access.{text_sensor, select, switch}
use esphome_vitohome.Hub.Invalid.{ok}
use esphome_vitohome.Hub.Fields.{Config}
use esphome_vitohome.Readers.{offset_or_zero, validate_binary_sensor}
use esphome_vitohome.Catalog.Options.Values.{values_of}
use esphome_vitohome.Catalog.Floats.{Floats}
use esphome_vitohome.Emitter.{enum, plain_spec}
use esphome_vitohome.Emitter.Reading.{Labelled, IsRead, IsAccepted}
use esphome_vitohome.Emitter.Fields.{Site, on_field, toggle_or_select, flag, enum_entity, or_none}
use esphome_vitohome.Emitter.Fields.Shapes.{Within, enum-ok, select-ok, switch-ok, binary-ok}
use esphome_vitohome.Emitter.Fields.Sites.{
  IsSite, config_at, config_at-IsShape, config_at-IsShort, config_at-TopIs, on_field-Written,
  not_first,
}

-- No option is above the field's largest value.
Within-of :
    (top : ℕ) (opts : List (ℕ × Text)) (options : List (ℤ × String))
    → any (λ o. ltb top o.0) opts ≡ false
    → Labelled opts options
    → All (Within top) (map (λ p. p.0) options)
Within-of top [] [] h l = tt
Within-of top [] (p ∷ ps) h l = absurd l
Within-of top (o ∷ os) [] h l = absurd l
Within-of top ((v, label) ∷ os) ((w, s) ∷ ps) h (e, _, l) =
    let (low, rest) = parts (ltb top v) (any (λ o. ltb top o.0) os) h in
    let b : v ≤ top = ground arith in (rw e (omega arith), Within-of top os ps rest l)
  where
    parts : (a b : Bool) → (a || b) ≡ false → (a ≡ false) × (b ≡ false)
    parts a b h = ground arith

some_option :
    (o : ℕ × Text) (os : List (ℕ × Text)) (options : List (ℤ × String))
    → Labelled (o ∷ os) options
    → options ≢ []
some_option o os [] l = absurd l
some_option o os (p ∷ ps) l = λ e. cc

pub below_of :
    (top : ℕ) (opts : List (ℕ × Text)) (a b : ℕ)
    → any (λ o. ltb top o.0) opts ≡ false
    → values_of opts ≡ a ∷ b ∷ []
    → (a ≤ top) × (b ≤ top)
below_of top [] a b h e = cc
below_of top (o ∷ []) a b h e = cc
below_of top (o ∷ p ∷ q ∷ os) a b h e = cc
below_of top ((v, l) ∷ (w, m) ∷ []) a b h e =
    let p : v ≡ a = cc in
    let q : w ≡ b = cc in
    let (r, s) = parts (ltb top v) (ltb top w) h in rw (← p, ← q) (ground arith, ground arith)
  where
    parts : (a b : Bool) → (a || (b || false)) ≡ false → (a ≡ false) × (b ≡ false)
    parts a b h = ground arith

module _ (F : Floats) (s : Site) (site : IsSite s) (options : List (ℤ × String))
    (lo hi : F.Float) where
  select-IsAccepted :
      (o : ℕ × Text) (os : List (ℕ × Text))
      → s.writing.writable ≡ true
      → any (λ o. ltb s.top o.0) (o ∷ os) ≡ false
      → IsRead F select (toggle_or_select s (o ∷ os) none) options lo hi
      → IsAccepted F (toggle_or_select s (o ∷ os) none) options lo hi
  select-IsAccepted o os w h (l, unique) = (
    config_at s site,
    on_field-Written s site {Float = F.Float}
        (record (plain_spec select s.address) { options = o ∷ os }) refl refl refl,
    select-ok (config_at s site) s.top (config_at-IsShape s site) (config_at-IsShort s site w)
        (config_at-TopIs s site) options (some_option o os options l) unique
        (Within-of s.top (o ∷ os) options h l),
  )

  switch-IsAccepted :
      (opts : List (ℕ × Text)) (on off : ℕ)
      → s.writing.writable ≡ true
      → (on ≢ off)
      → on ≤ s.top
      → off ≤ s.top
      → IsAccepted F (toggle_or_select s opts (some (on, off))) options lo hi
  switch-IsAccepted opts on off w apart on_fits off_fits = (
    config_at s site,
    on_field-Written s site {Float = F.Float}
        (record (plain_spec switch s.address) { on_value = some on; off_value = some off }) refl
        refl refl,
    switch-ok (config_at s site) s.top (config_at-IsShape s site) (config_at-IsShort s site w)
        (config_at-TopIs s site) on off apart on_fits off_fits,
  )

  flag-IsAccepted : IsAccepted F (flag s) options lo hi
  flag-IsAccepted = go site.at s.byte s.block_len site.is_at site.is_size site.inside
    where
      flag_config : Option ℕ → Config
      flag_config o = record {
        address = s.address;
        state_address = none;
        length = site.size;
        byte_offset = o;
        byte_length = none;
        bit_mask = some s.mask;
        signed = none;
      }

      at_offset :
          (o : Option ℕ) (i : ℕ)
          → offset_or_zero o ≡ i
          → i < site.size
          → validate_binary_sensor (flag_config o) ≡ ok (flag_config o)
      at_offset o i e inside = binary-ok (flag_config o) site.short (rw e inside)

      go :
          (at : ℕ) (position len : ℤ)
          → position ≡ pos at
          → len ≡ pos site.size
          → at < site.size
          → IsAccepted F
              (record (flag s) { length = len; byte_offset = or_none position })
              options
              lo
              hi
      go zero position len p q inside = (
        flag_config none,
        rw (p, q) (refl, refl, refl, refl, refl, refl, refl),
        at_offset none 0 refl inside,
      )
      go (suc at) position len p q inside = (
        flag_config (some (suc at)),
        rw (p, q, not_first at) (refl, refl, refl, refl, refl, refl, refl),
        at_offset (some (suc at)) (suc at) refl inside,
      )

  text-IsAccepted :
      (opts : List (ℕ × Text))
      → any (λ o. ltb s.top o.0) opts ≡ false
      → (let spec = on_field {Float = F.Float} s (record (plain_spec text_sensor s.address) {
        platform_type = some enum;
        options = opts;
      }) in
          Labelled opts options → IsAccepted F spec options lo hi)
  text-IsAccepted opts h l = (
    config_at s site,
    on_field-Written s site {Float = F.Float}
        (record (plain_spec text_sensor s.address) { platform_type = some enum; options = opts })
        refl refl refl,
    enum-ok options (config_at s site) s.top (config_at-IsShape s site) (config_at-TopIs s site)
        (Within-of s.top opts options h l),
  )

  -- The on and off of a pair are two values of the options.
  abbrev pub PairFits : List (ℕ × Text) → Option (ℕ × ℕ) → Type 0
  PairFits opts none = Unit
  PairFits opts (some p) = (p.0 ≢ p.1) × (p.0 ≤ s.top) × (p.1 ≤ s.top)

  toggle_or_select-IsAccepted :
      (o : ℕ × Text) (os : List (ℕ × Text)) (pair : Option (ℕ × ℕ))
      → s.writing.writable ≡ true
      → any (λ o. ltb s.top o.0) (o ∷ os) ≡ false
      → PairFits (o ∷ os) pair
      → (let spec = toggle_or_select {Float = F.Float} s (o ∷ os) pair in
          IsRead F spec.platform spec options lo hi → IsAccepted F spec options lo hi)
  toggle_or_select-IsAccepted o os none w h fits r = select-IsAccepted o os w h r
  toggle_or_select-IsAccepted o os (some (on, off)) w h (apart, p, q) r =
      switch-IsAccepted (o ∷ os) on off w apart p q

  pub enum_entity-IsAccepted :
      (o : ℕ × Text) (os : List (ℕ × Text)) (pair : Option (ℕ × ℕ))
      → any (λ o. ltb s.top o.0) (o ∷ os) ≡ false
      → PairFits (o ∷ os) pair
      → (let spec = enum_entity {Float = F.Float} s (o ∷ os) pair in
          IsRead F spec.platform spec options lo hi → IsAccepted F spec options lo hi)
  enum_entity-IsAccepted o os pair h fits = go s.writing.writable refl (eqb_ℤ s.bits (pos 1))
    where
      go :
          (w : Bool)
          → s.writing.writable ≡ w
          → (one : Bool)
          → (let spec =
                if w
                then toggle_or_select {Float = F.Float} s (o ∷ os) pair
                else if one
                then flag s
                else on_field s (record (plain_spec text_sensor s.address) {
                  platform_type = some enum;
                  options = o ∷ os;
                }) in
              IsRead F spec.platform spec options lo hi → IsAccepted F spec options lo hi)
      go true e one = toggle_or_select-IsAccepted o os pair e h fits
      go false e true = λ r. flag-IsAccepted
      go false e false = text-IsAccepted (o ∷ os) h
