-- ===== src/Emitter/Holds.antt =====
-- What holds of every entity that is emitted.
use esphome_vitohome.Common.{◌≡◌, refl, Bool, true, false, if◌then◌else◌}
use esphome_vitohome.Emitter.{EntitySpec, Emitted, skipped, comment, entity}

module _ {Float : Type 0} (P : EntitySpec Float → Type 0) where
  -- Whatever entity is emitted has the property.
  abbrev pub Holds : Emitted Float → Type 0
  Holds skipped = Unit
  Holds (comment reason) = Unit
  Holds (entity spec) = P spec

  pub either-Holds :
      (b : Bool) (x y : Emitted Float) → Holds x → Holds y → Holds (if b then x else y)
  either-Holds true x y h k = h
  either-Holds false x y h k = k

  pub either_of : (b : Bool) (x y : EntitySpec Float) → P x → P y → P (if b then x else y)
  either_of true x y h k = h
  either_of false x y h k = k

  pub either_at :
      (b : Bool) (x y : EntitySpec Float) → (b ≡ true → P x) → P y → P (if b then x else y)
  either_at true x y h k = h refl
  either_at false x y h k = k

  pub either-Holds_at :
      (b : Bool) (x y : Emitted Float) → (b ≡ true → Holds x) → Holds y → Holds (if b then x else y)
  either-Holds_at true x y h k = h refl
  either-Holds_at false x y h k = k

  pub Holds_at : (r : Emitted Float) (spec : EntitySpec Float) → Holds r → r ≡ entity spec → P spec
  Holds_at skipped spec h e = cc
  Holds_at (comment reason) spec h e = cc
  Holds_at (entity x) spec h e = (let q : x ≡ spec = cc in rw (← q) h)
