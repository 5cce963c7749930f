-- ===== src/Climate/Setpoint.antt =====
-- The effective range of the setpoint is a range of bytes.
use esphome_vitohome.Common.{
  ◌≡◌, refl, Bool, true, false, ◌&&◌, Option, none, some, arith, ℤ, pos, ◌≤ℤ◌, leb_ℤ, if◌then◌else◌,
}
use esphome_vitohome.Hub.Invalid.{ok, invalid, ◌>>◌, >>=-eq-ok, inverted_range, bound_outside_byte}
use esphome_vitohome.Hub.Fields.{guard}
use esphome_vitohome.Climate.{
  byte_bound, effective_bound, setpoint_min_default, setpoint_max_default, validate_setpoint_range,
}

abbrev the_range : ℤ → ℤ → ℤ × ℤ
the_range low high = (low, high)

module _ {Float : Type 0} (whole : Float → Option ℤ) where
  -- The bound that is emitted for a key: its value, which is whole, or the default.
  abbrev pub Emitted : ℤ → Option Float → ℤ → Type 0
  Emitted default none v = v ≡ default
  Emitted default (some x) v = whole x ≡ some v

  byte_lem :
      (o : Option ℤ) (v : ℤ)
      → byte_bound whole o ≡ ok v
      → (o ≡ some v) × (pos 0 ≤ℤ v) × (v ≤ℤ pos 255)
  byte_lem none v h = cc
  byte_lem (some x) v h = go (leb_ℤ (pos 0) x && leb_ℤ x (pos 255)) refl h
    where
      go :
          (b : Bool)
          → (leb_ℤ (pos 0) x && leb_ℤ x (pos 255)) ≡ b
          → (if b then ok x else invalid (bound_outside_byte x)) ≡ ok v
          → (some x ≡ some v) × (pos 0 ≤ℤ v) × (v ≤ℤ pos 255)
      go true e h = (let q : x ≡ v = cc in rw (← q) (refl, ground arith, ground arith))
      go false e h = cc

  bound_lem :
      (default : ℤ) (o : Option Float) (v : ℤ)
      → pos 0 ≤ℤ default
      → default ≤ℤ pos 255
      → effective_bound whole default o ≡ ok v
      → Emitted default o v × (pos 0 ≤ℤ v) × (v ≤ℤ pos 255)
  bound_lem default none v low high h = (let q : default ≡ v = cc in rw (← q) (refl, low, high))
  bound_lem default (some x) v low high h = byte_lem (whole x) v h

  -- The range that is emitted is that of the configuration, a missing bound being 3 or 37 degrees; both
  -- ends are whole and fit one unsigned byte, and the range is not inverted.
  pub validate_setpoint_range_lem :
      (min_temperature max_temperature : Option Float) (low high : ℤ)
      → validate_setpoint_range whole min_temperature max_temperature ≡ ok (low, high)
      → Emitted setpoint_min_default min_temperature low
        × Emitted setpoint_max_default max_temperature high
        × (pos 0 ≤ℤ low)
        × (low ≤ℤ high)
        × (high ≤ℤ pos 255)
  unfolding validate_setpoint_range
  validate_setpoint_range_lem min_temperature max_temperature low high h =
      let (l, e, h₁) = >>=-eq-ok (effective_bound whole setpoint_min_default min_temperature) _ h in
      let (g, f, h₂) =
        >>=-eq-ok (effective_bound whole setpoint_max_default max_temperature) _ h₁ in
      let (first, l_low, l_high) =
        bound_lem setpoint_min_default min_temperature l (ground arith) (ground arith) e in
      let (second, g_low, g_high) =
        bound_lem setpoint_max_default max_temperature g (ground arith) (ground arith) f in
      let (ordered, p, q) = last l g (leb_ℤ l g) refl h₂ in
      rw (p, q) (first, second, l_low, ordered, g_high)
    where
      last :
          (l g : ℤ) (b : Bool)
          → leb_ℤ l g ≡ b
          → (guard b (invalid (inverted_range l g)) >> ok (the_range l g)) ≡ ok (the_range low high)
          → (l ≤ℤ g) × (low ≡ l) × (high ≡ g)
      last l g true e h = (ground arith, cc, cc)
      last l g false e h = cc
