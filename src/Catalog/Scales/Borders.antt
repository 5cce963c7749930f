-- ===== src/Catalog/Scales/Borders.antt =====
-- What a scale that is taken from the borders says.
use esphome_vitohome.Common.{ℕ, ◌≡◌, refl, Bool, true, false, ℤ}
use esphome_vitohome.Hub.Fields.{raw_fits}
use esphome_vitohome.Catalog.Scales.{in_bytes}

-- The generator's test of a border is the component's.
pub in_bytes-eq-raw_fits :
    (raw : ℤ) (length : ℕ) (signed : Bool) → in_bytes raw length signed ≡ raw_fits raw length signed
unfolding in_bytes raw_fits
in_bytes-eq-raw_fits raw length true = refl
in_bytes-eq-raw_fits raw length false = refl
